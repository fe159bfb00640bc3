-- ===== src/Pass/Expand/Compiled.antt =====
-- The blocks of a function and their expansion.
use mathlib.Core.List.{Memᴰ}
use e0256_project_final.Base.{◌≡◌, ap, ◌∙◌, sym, subst, List, [], ◌∷◌}
use e0256_project_final.Base.Text.{Text}
use e0256_project_final.FileMap.{Reader, get_library_calls}
use e0256_project_final.Graaf.{Graaf, Documented, DocumentedEdges, DocumentedLabels}
use e0256_project_final.GraphLib.{LibcCallgraph}
use e0256_project_final.GraphLib.Kept.{InStep-Kept}
use e0256_project_final.GraphLib.Joined.{joined}
use e0256_project_final.Pass.Source.{BasicBlock, Function, block_name, new_meta}
use e0256_project_final.Pass.Blocks.{add_calls, function_meta}
use e0256_project_final.Pass.Blocks.Keeps.{add_blocks_listless, function_meta-Holds}
use e0256_project_final.Pass.Blocks.Edges.{precedes, function_meta_graph}
use e0256_project_final.Pass.Expand.{call_vertex, last_name, expand_function}
use e0256_project_final.Pass.Expand.Chain.{Spells}
use e0256_project_final.Pass.Expand.Apart.{Expandable}
use e0256_project_final.Pass.Expand.Function.{expand_function-Spelled}
use e0256_project_final.Pass.Expand.Lists.{
  Plain, Plain-names, Unlisted-nil, add_calls-Expandable, add_calls_there, Spelled-there,
}

module _ (library : Graaf) (documented : Documented library) (edged : DocumentedEdges library)
    (labelled : DocumentedLabels library) (reader : Reader) where
  abbrev graph_of : Function → LibcCallgraph library
  graph_of f = (function_meta library reader f).bb_graph

  function_meta-Expandable :
      (f : Function)
      → Plain reader f.name f.blocks
      → Expandable library (graph_of f) (add_calls library reader f.name f.blocks [])
  function_meta-Expandable f plain =
      let names = λ (z : Text). (function_meta_graph library documented edged reader f z z).0 in
      add_calls-Expandable library reader f.name (graph_of f) f.blocks [] plain (λ z e. names z ∙ e)
        (λ block call n.
          names (call_vertex block call n) ∙ Plain-names reader f.name f.blocks block call n plain)
        (Unlisted-nil reader f.name f.blocks) tt

  function_meta_lists :
      (f : Function)
      → (function_meta library reader f).bb_to_libc_map
        ≡ add_calls library reader f.name f.blocks []
  unfolding function_meta new_meta
  function_meta_lists f = ap (add_calls library reader f.name f.blocks) (
      add_blocks_listless library (InStep-Kept library documented) reader f.name f.blocks
        (record (new_meta library) { func_name = f.name }))

  -- Over a graph library as documented, the expanded graph that the pass makes of a function follows
  -- the function's blocks: at each block with calls a path starts whose edges are labelled with the
  -- calls of the block's instructions in their order, and from its last vertex edges lead to exactly
  -- the names of the block's successors. The names of the blocks must be different and without a
  -- dash, and each block has fewer than 2 ^ 31 calls.
  pub expanded_function_graph :
      (f : Function) (b : BasicBlock) (call : Text) (calls : List Text)
      → Plain reader f.name f.blocks
      → Memᴰ b f.blocks
      → get_library_calls reader b.instructions ≡ call ∷ calls
      → let g = (expand_function library (function_meta library reader f)).bb_expanded_graph in
        let name = block_name f.name b in
        Spells library g name 1 name (call ∷ calls)
        × ((y : Text)
            → joined library g (last_name library name 1 (call ∷ calls) []) y
              ≡ precedes f.name f.blocks f.blocks name y)
  expanded_function_graph f b call calls plain at e =
      let meta = function_meta library reader f in
      let name = block_name f.name b in
      let lists = function_meta_lists f in
      let in_step =
        (function_meta-Holds library (InStep-Kept library documented) reader f
          (λ b' m label at'. tt)).0 in
      let ready =
        subst (Expandable library (graph_of f)) (sym lists) (function_meta-Expandable f plain) in
      let spelled = expand_function-Spelled library documented edged labelled meta in_step ready in
      let listed =
        subst (λ m. Memᴰ (name, call ∷ calls) m) (sym lists)
          (add_calls_there library reader f.name f.blocks [] b call calls plain at e) in
      let (spells, ends) =
        Spelled-there library reader f.name (graph_of f)
          (expand_function library meta).bb_expanded_graph meta.bb_to_libc_map name (call ∷ calls)
          spelled listed in
      (spells, λ y. ends y ∙ (function_meta_graph library documented edged reader f name y).1)
