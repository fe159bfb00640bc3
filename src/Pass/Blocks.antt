-- ===== src/Pass/Blocks.antt =====
-- `runOnModule`, the graph of a function's basic blocks and the calls of each block.
pub mod Keeps
pub mod Edges
use e0256_project_final.Base.{
  ℕ, Bool, true, false, not, List, [], ◌∷◌, none, some, if◌then◌else◌, get_elem?,
}
use e0256_project_final.Base.Text.{Text, codes, starts_with}
use e0256_project_final.Base.TextMap.{TextMap, put}
use e0256_project_final.FileMap.{Reader, get_library_calls}
use e0256_project_final.Graaf.{Graaf}
use e0256_project_final.GraphLib.{LibcCallgraph, add_vertex, add_edge, control}
use e0256_project_final.Pass.Source.{BasicBlock, Function, block_name, FuncMeta, new_meta}

abbrev pub is_empty {ℓ} : {A : Type ℓ} → List A → Bool
is_empty [] = true
is_empty (x ∷ xs) = false

-- Declarations, LLVM's own functions and the wrapper of the injected calls are passed over.
unfoldable pub is_skipped : Function → Bool
is_skipped f =
    if f.is_declaration
    then true
    else if starts_with (codes "llvm.") f.name
    then true
    else starts_with (codes "syscall") f.name

module _ (library : Graaf) (reader : Reader) (func : Text) where
  unfoldable pub vertex_of : BasicBlock → LibcCallgraph library → LibcCallgraph library
  vertex_of b g =
      (add_vertex library (block_name func b)
        (not (is_empty (get_library_calls reader b.instructions))) g).1

  unfoldable pub add_entry : BasicBlock → FuncMeta library → FuncMeta library
  add_entry b m =
      if b.no_predecessors
      then record m { entry_node = block_name func b; bb_graph = vertex_of b m.bb_graph }
      else m

  unfoldable pub add_block : BasicBlock → FuncMeta library → FuncMeta library
  add_block b m =
      let m' = add_entry b m in
      if b.returns
      then record m' { exit_node = block_name func b; bb_graph = vertex_of b m'.bb_graph }
      else record m' { bb_graph = vertex_of b m'.bb_graph }

  unfoldable pub add_blocks : List BasicBlock → FuncMeta library → FuncMeta library
  add_blocks [] m = m
  add_blocks (b ∷ bs) m = add_blocks bs (add_block b m)

  -- An edge to each successor, which is one of the function's blocks.
  unfoldable pub add_successors :
      List BasicBlock → BasicBlock → List ℕ → LibcCallgraph library → LibcCallgraph library
  add_successors all b [] g = g
  add_successors all b (i ∷ is) g = elim (get_elem? all i) [
    | none ↦ add_successors all b is g
    | some next ↦
        add_successors all b is
          (add_edge library (block_name func b) (block_name func next) control g)
  ]

  unfoldable pub add_control :
      List BasicBlock → List BasicBlock → LibcCallgraph library → LibcCallgraph library
  add_control all [] g = g
  add_control all (b ∷ bs) g = add_control all bs (add_successors all b b.successors g)

  unfoldable pub add_call_list : BasicBlock → TextMap (List Text) → TextMap (List Text)
  add_call_list b m =
      let calls = get_library_calls reader b.instructions in
      if is_empty calls then m else put (block_name func b) calls m

  unfoldable pub add_calls : List BasicBlock → TextMap (List Text) → TextMap (List Text)
  add_calls [] m = m
  add_calls (b ∷ bs) m = add_calls bs (add_call_list b m)

module _ (library : Graaf) (reader : Reader) where
  unfoldable pub function_meta : Function → FuncMeta library
  function_meta f =
      let named = record (new_meta library) { func_name = f.name } in
      let m = add_blocks library reader f.name f.blocks named in
      record m {
        bb_graph = add_control library reader f.name f.blocks f.blocks m.bb_graph;
        bb_to_libc_map = add_calls library reader f.name f.blocks m.bb_to_libc_map;
      }

  -- The map `funcBBToMetaMap` after the loop over the module's functions.
  unfoldable pub function_metas :
      List Function → TextMap (FuncMeta library) → TextMap (FuncMeta library)
  function_metas [] metas = metas
  function_metas (f ∷ fs) metas =
      function_metas fs (if is_skipped f then metas else put f.name (function_meta f) metas)
