-- ===== src/Pass/Blocks/Keeps.antt =====
-- What the graph operations keep holds of the graph of basic blocks.
use mathlib.Core.List.{Memᴰ}
use e0256_project_final.Base.{
  false, ℕ, List, [], ◌∷◌, either_way, get_elem?, Option-cases, Bool-cases, inl, inr, arith, ◌≡◌,
  refl, sym, subst,
}
use e0256_project_final.Base.Text.{Text, text_eq, text_lt}
use e0256_project_final.Base.TextMap.{TextMap, put}
use e0256_project_final.FileMap.{Reader, get_library_calls}
use e0256_project_final.Graaf.{Graaf}
use e0256_project_final.GraphLib.{LibcCallgraph, control}
use e0256_project_final.GraphLib.Kept.{Kept, AllFit}
use e0256_project_final.Pass.Source.{BasicBlock, Function, FuncMeta, new_meta}
use e0256_project_final.Pass.Blocks.{
  is_skipped, vertex_of, add_entry, add_block, add_blocks, add_successors, add_control,
  function_meta, function_metas, add_calls, add_call_list, is_empty,
}

-- Every value of a map has the property.
abbrev pub All : {V : Type 0} → (V → Type 0) → TextMap V → Type 0
All P [] = Unit {0}
All P ((k, v) ∷ m) = P v × All P m

All-put :
    {V : Type 0} (P : V → Type 0) (k : Text) (v : V) (m : TextMap V)
    → P v
    → All P m
    → All P (put k v m)
unfolding put
All-put P k v [] h all = (h, tt)
All-put P k v ((j, w) ∷ m) h all = elim (Bool-cases (text_eq j k)) [
  | inl same ↦ rw same (h, all.1)
  | inr other ↦ elim (Bool-cases (text_lt k j)) [
    | inl before ↦ rw (other, before) (h, all)
    | inr behind ↦ rw (other, behind) (all.0, All-put P k v m h all.1)
  ]
]

module _ (library : Graaf) (kept : Kept library) (reader : Reader) where
  open kept use {Fits, Holds, control_fits, new_graph_kept, add_vertex_kept, add_edge_kept}

  module _ (func : Text) where
    pub vertex_of-Holds :
        (b : BasicBlock) (g : LibcCallgraph library)
        → Holds g
        → Holds (vertex_of library reader func b g)
    unfolding vertex_of
    vertex_of-Holds b g h = add_vertex_kept _ _ g h

    pub add_entry-Holds :
        (b : BasicBlock) (m : FuncMeta library)
        → Holds m.bb_graph
        → Holds (add_entry library reader func b m).bb_graph
    unfolding add_entry
    add_entry-Holds b m h =
        either_way b.no_predecessors (λ (m' : FuncMeta library). Holds m'.bb_graph)
          (vertex_of-Holds b m.bb_graph h, h)

    pub add_block-Holds :
        (b : BasicBlock) (m : FuncMeta library)
        → Holds m.bb_graph
        → Holds (add_block library reader func b m).bb_graph
    unfolding add_block
    add_block-Holds b m h =
        let h' = vertex_of-Holds b _ (add_entry-Holds b m h) in
        either_way b.returns (λ (m' : FuncMeta library). Holds m'.bb_graph) (h', h')

    pub add_blocks-Holds :
        (bs : List BasicBlock) (m : FuncMeta library)
        → Holds m.bb_graph
        → Holds (add_blocks library reader func bs m).bb_graph
    unfolding add_blocks
    add_blocks-Holds [] m h = h
    add_blocks-Holds (b ∷ bs) m h = add_blocks-Holds bs _ (add_block-Holds b m h)

    pub add_successors-Holds :
        (all : List BasicBlock) (b : BasicBlock) (is : List ℕ) (g : LibcCallgraph library)
        → Holds g
        → Holds (add_successors library reader func all b is g)
    unfolding add_successors
    add_successors-Holds all b [] g h = h
    add_successors-Holds all b (i ∷ is) g h = elim (Option-cases (get_elem? all i)) [
      | inl outside ↦ rw (add_successors, outside) (add_successors-Holds all b is g h)
      | inr (next, there) ↦
          rw (add_successors, there)
            (add_successors-Holds all b is _ (add_edge_kept _ _ control g control_fits h))
    ]

    add_control-Holds :
        (all bs : List BasicBlock) (g : LibcCallgraph library)
        → Holds g
        → Holds (add_control library reader func all bs g)
    unfolding add_control
    add_control-Holds all [] g h = h
    add_control-Holds all (b ∷ bs) g h =
        add_control-Holds all bs _ (add_successors-Holds all b b.successors g h)

  -- The entry of a function holds it, and so do the labels that its blocks will be expanded to.
  abbrev pub Made : FuncMeta library → Type 0
  Made m = Holds m.bb_graph × All (AllFit library kept) m.bb_to_libc_map

  -- The calls of a function's blocks are labels that are allowed.
  abbrev pub CallsFit : List BasicBlock → Type 0
  CallsFit bs =
      (b : BasicBlock) → Memᴰ b bs → AllFit library kept (get_library_calls reader b.instructions)

  pub add_blocks_listless :
      (func : Text) (bs : List BasicBlock) (m : FuncMeta library)
      → (add_blocks library reader func bs m).bb_to_libc_map ≡ m.bb_to_libc_map
  unfolding add_blocks add_block add_entry
  add_blocks_listless func [] m = refl
  add_blocks_listless func (b ∷ bs) m =
      ground (arith, add_blocks_listless func bs (add_block library reader func b m))

  add_calls-fit :
      (func : Text) (bs : List BasicBlock) (lists : TextMap (List Text))
      → CallsFit bs
      → All (AllFit library kept) lists
      → All (AllFit library kept) (add_calls library reader func bs lists)
  unfolding add_calls add_call_list
  add_calls-fit func [] lists calls fit = fit
  add_calls-fit func (b ∷ bs) lists calls fit =
      add_calls-fit func bs _ (λ b' m. calls b' (Memᴰ.tail m))
        (either_way (is_empty (get_library_calls reader b.instructions)) (All (AllFit library kept))
          (fit, All-put (AllFit library kept) _ _ lists (calls b (Memᴰ.head refl)) fit))

  pub function_meta-Holds :
      (f : Function) → CallsFit f.blocks → Made (function_meta library reader f)
  unfolding function_meta new_meta
  function_meta-Holds f calls =
      let named = record (new_meta library) { func_name = f.name } in
      (
        add_control-Holds f.name f.blocks f.blocks _
            (add_blocks-Holds f.name f.blocks named new_graph_kept),
        add_calls-fit f.name f.blocks _ calls (
            subst (All (AllFit library kept)) (sym (add_blocks_listless f.name f.blocks named)) tt),
      )

  -- The functions that are not passed over call what is allowed.
  pub function_metas-Holds :
      (fs : List Function) (metas : TextMap (FuncMeta library))
      → ((f : Function) → Memᴰ f fs → is_skipped f ≡ false → CallsFit f.blocks)
      → All Made metas
      → All Made (function_metas library reader fs metas)
  unfolding function_metas
  function_metas-Holds [] metas calls h = h
  function_metas-Holds (f ∷ fs) metas calls h =
      let later = λ (f' : Function) (m : Memᴰ f' fs). calls f' (Memᴰ.tail m) in
      elim (Bool-cases (is_skipped f)) [
        | inl skipped ↦ rw (function_metas, skipped) (function_metas-Holds fs metas later h)
        | inr own ↦
            let made = function_meta-Holds f (calls f (Memᴰ.head refl) own) in
            rw (function_metas, own)
              (function_metas-Holds fs _ later (All-put Made f.name _ metas made h))
      ]
