-- ===== src/Pass/Blocks/Edges.antt =====
-- The graph of basic blocks against the control flow of the function.
use e0256_project_final.Base.{
  ℕ, zero, suc, some_inj, Bool, true, false, ◌||◌, ◌&&◌, List, [], ◌∷◌, none, some, ◌≡◌, refl, ◌∙◌,
  arith, get_elem?, Option-cases, inl, inr,
}
use e0256_project_final.Base.Text.{Text, text_eq, text_eq_refl}
use e0256_project_final.Base.TextMap.{find}
use e0256_project_final.FileMap.{Reader}
use e0256_project_final.Graaf.{Graaf, Documented, DocumentedEdges}
use e0256_project_final.GraphLib.{LibcCallgraph, control, add_edge, new_graph}
use e0256_project_final.GraphLib.Kept.{InStep-Kept}
use e0256_project_final.GraphLib.InStep.{InStep, add_edge-InStep, new_graph-InStep}
use e0256_project_final.GraphLib.Joined.{
  has_name, joined, joined_ids, there, has_name-add_vertex, joined-add_vertex, has_name-add_edge,
  joined-add_edge,
}
use e0256_project_final.Pass.Source.{BasicBlock, Function, FuncMeta, block_name, new_meta}
use e0256_project_final.Pass.Blocks.{
  vertex_of, add_entry, add_block, add_blocks, add_successors, add_control, function_meta,
}
use e0256_project_final.Pass.Blocks.Keeps.{
  vertex_of-Holds, add_block-Holds, add_blocks-Holds, add_successors-Holds,
}

-- Whether a block has this name.
unfoldable pub names_block : Text → List BasicBlock → Text → Bool
names_block func [] x = false
names_block func (b ∷ bs) x = text_eq (block_name func b) x || names_block func bs x

-- Whether one of these indices is that of a block with this name.
unfoldable pub leads_to : Text → List BasicBlock → List ℕ → Text → Bool
leads_to func all [] y = false
leads_to func all (i ∷ is) y = elim (get_elem? all i) [
  | none ↦ leads_to func all is y
  | some next ↦ text_eq (block_name func next) y || leads_to func all is y
]

-- Whether a block with the first name has a successor with the second.
unfoldable pub precedes : Text → List BasicBlock → List BasicBlock → Text → Text → Bool
precedes func all [] x y = false
precedes func all (b ∷ bs) x y =
    (text_eq (block_name func b) x && leads_to func all b.successors y) || precedes func all bs x y

get_elem-names_block :
    (func : Text) (all : List BasicBlock) (i : ℕ) (next : BasicBlock)
    → get_elem? all i ≡ some next
    → names_block func all (block_name func next) ≡ true
unfolding names_block
get_elem-names_block func [] i next h = cc
get_elem-names_block func (b ∷ all) zero next h =
    rw (some_inj h, text_eq_refl (block_name func next)) refl
get_elem-names_block func (b ∷ all) (suc i) next h =
    ground (arith, get_elem-names_block func all i next h)

module _ (library : Graaf) (documented : Documented library) (edged : DocumentedEdges library)
    (reader : Reader) (func : Text) where
  has_name-vertex_of :
      (b : BasicBlock) (g : LibcCallgraph library) (x : Text)
      → has_name library (vertex_of library reader func b g) x
        ≡ text_eq (block_name func b) x || has_name library g x
  unfolding vertex_of
  has_name-vertex_of b g x = has_name-add_vertex library documented edged _ _ g x

  joined-vertex_of :
      (b : BasicBlock) (g : LibcCallgraph library) (x y : Text)
      → InStep library documented g
      → joined library (vertex_of library reader func b g) x y ≡ joined library g x y
  unfolding vertex_of
  joined-vertex_of b g x y h = joined-add_vertex library documented edged _ _ g x y h

  has_name-add_block :
      (b : BasicBlock) (m : FuncMeta library) (x : Text)
      → has_name library (add_block library reader func b m).bb_graph x
        ≡ text_eq (block_name func b) x || has_name library m.bb_graph x
  unfolding add_block add_entry
  has_name-add_block b m x = ground (
    arith,
    has_name-vertex_of b m.bb_graph x,
    has_name-vertex_of b (vertex_of library reader func b m.bb_graph) x,
  )

  joined-add_block :
      (b : BasicBlock) (m : FuncMeta library) (x y : Text)
      → InStep library documented m.bb_graph
      → joined library (add_block library reader func b m).bb_graph x y
        ≡ joined library m.bb_graph x y
  unfolding add_block add_entry
  joined-add_block b m x y h = ground (
    arith,
    joined-vertex_of b m.bb_graph x y h,
    joined-vertex_of b (vertex_of library reader func b m.bb_graph) x y
        (vertex_of-Holds library (InStep-Kept library documented) reader func b m.bb_graph h),
  )

  add_blocks_graph :
      (bs : List BasicBlock) (m : FuncMeta library) (x y : Text)
      → InStep library documented m.bb_graph
      → (has_name library (add_blocks library reader func bs m).bb_graph x
          ≡ names_block func bs x || has_name library m.bb_graph x)
        × (joined library (add_blocks library reader func bs m).bb_graph x y
            ≡ joined library m.bb_graph x y)
  unfolding add_blocks names_block
  add_blocks_graph [] m x y h = (refl, refl)
  add_blocks_graph (b ∷ bs) m x y h =
      let m' = add_block library reader func b m in
      let rest =
        add_blocks_graph bs m' x y
          (add_block-Holds library (InStep-Kept library documented) reader func b m h) in
      (ground (arith, rest.0, has_name-add_block b m x), rest.1 ∙ joined-add_block b m x y h)

  -- Every block's name is there.
  abbrev Present : List BasicBlock → LibcCallgraph library → Type 0
  Present all g = (z : Text) → names_block func all z ≡ true → has_name library g z ≡ true

  add_successors_graph :
      (all : List BasicBlock) (b : BasicBlock) (is : List ℕ) (g : LibcCallgraph library)
      → InStep library documented g
      → Present all g
      → has_name library g (block_name func b) ≡ true
      → ((z : Text)
          → has_name library (add_successors library reader func all b is g) z
            ≡ has_name library g z)
        × ((x y : Text)
            → joined library (add_successors library reader func all b is g) x y
              ≡ (text_eq (block_name func b) x && leads_to func all is y) || joined library g x y)
  unfolding add_successors leads_to
  add_successors_graph all b [] g h present source = (λ z. refl, λ x y. ground arith)
  add_successors_graph all b (i ∷ is) g h present source = elim (Option-cases (get_elem? all i)) [
    | inl outside ↦
        rw (add_successors, leads_to, outside) (add_successors_graph all b is g h present source)
    | inr (next, target) ↦
        let from = block_name func b in
        let to = block_name func next in
        let g' = add_edge library from to control g in
        let same = has_name-add_edge library documented edged from to control g in
        let arrives = present to (get_elem-names_block func all i next target) in
        let rest =
          add_successors_graph all b is g' (add_edge-InStep library documented from to control g h)
            (λ z e. same z ∙ present z e) (same from ∙ source) in
        rw (add_successors, leads_to, target)
          (
            λ z. rest.0 z ∙ same z,
            λ x y. ground (
              arith,
              rest.1 x y,
              joined-add_edge library documented edged from to control g x y h source arrives,
            ),
          )
  ]

  add_control_graph :
      (all bs : List BasicBlock) (g : LibcCallgraph library)
      → InStep library documented g
      → Present all g
      → Present bs g
      → ((z : Text)
          → has_name library (add_control library reader func all bs g) z ≡ has_name library g z)
        × ((x y : Text)
            → joined library (add_control library reader func all bs g) x y
              ≡ precedes func all bs x y || joined library g x y)
  unfolding add_control precedes names_block
  add_control_graph all [] g h present sources = (λ z. refl, λ x y. refl)
  add_control_graph all (b ∷ bs) g h present sources =
      let g' = add_successors library reader func all b b.successors g in
      let source = sources (block_name func b) (rw (text_eq_refl (block_name func b)) refl) in
      let first = add_successors_graph all b b.successors g h present source in
      let rest =
        add_control_graph all bs g'
          (add_successors-Holds library (InStep-Kept library documented) reader func all b
            b.successors g h)
          (λ z e. first.0 z ∙ present z e) (λ z e. first.0 z ∙ sources z (ground arith)) in
      (λ z. rest.0 z ∙ first.0 z, λ x y. ground (arith, rest.1 x y, first.1 x y))

-- Over a graph library as documented, the graph of basic blocks that the pass makes of a function has
-- a vertex for each name of a block and no other, and an edge between two names exactly where a block
-- with the first name has a successor with the second.
pub function_meta_graph :
    (library : Graaf) (documented : Documented library) (edged : DocumentedEdges library)
    (reader : Reader) (f : Function) (x y : Text)
    → (has_name library (function_meta library reader f).bb_graph x ≡ names_block f.name f.blocks x)
      × (joined library (function_meta library reader f).bb_graph x y
          ≡ precedes f.name f.blocks f.blocks x y)
unfolding function_meta new_meta new_graph has_name joined joined_ids there find
function_meta_graph library documented edged reader f x y =
    let named : FuncMeta library = record (new_meta library) { func_name = f.name } in
    let empty = new_graph-InStep library documented in
    let m = add_blocks library reader f.name f.blocks named in
    let blocks = λ (x y : Text).
      add_blocks_graph library documented edged reader f.name f.blocks named x y empty in
    let present : (z : Text)
        → names_block f.name f.blocks z ≡ true
        → has_name library m.bb_graph z ≡ true =
      λ z e. ground (arith, (blocks z z).0) in
    let control_graph =
      add_control_graph library documented edged reader f.name f.blocks f.blocks m.bb_graph
        (add_blocks-Holds library (InStep-Kept library documented) reader f.name f.blocks named
          empty)
        present present in
    (
      ground (arith, control_graph.0 x, (blocks x y).0),
      ground (arith, control_graph.1 x y, (blocks x y).1),
    )
