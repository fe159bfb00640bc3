-- ===== src/Pass/Expand/Keeps.antt =====
-- What the graph operations keep holds of the expanded graph.
use mathlib.Core.List.{Memᴰ}
use e0256_project_final.Base.{refl, ℕ, suc, List, [], ◌∷◌, false}
use e0256_project_final.Base.Text.{Text}
use e0256_project_final.Base.TextMap.{TextMap}
use e0256_project_final.Graaf.{Graaf}
use e0256_project_final.GraphLib.{LibcCallgraph, get_neighbors, control}
use e0256_project_final.GraphLib.Kept.{Kept, AllFit}
use e0256_project_final.Pass.Source.{FuncMeta}
use e0256_project_final.Pass.Blocks.Keeps.{All}
use e0256_project_final.Pass.Expand.{
  call_vertex, chain, move_edges, expand_block, expand_blocks, expand_function, expand_bb_graph,
}

module _ (library : Graaf) (kept : Kept library) where
  open kept use {Fits, Holds, control_fits, add_vertex_kept, add_edge_kept, remove_edge_kept}

  pub chain-Holds :
      (block : Text) (n : ℕ) (last : Text) (calls : List Text) (g : LibcCallgraph library)
      → AllFit library kept calls
      → Holds g
      → Holds (chain library block n last calls g).1
  unfolding chain
  chain-Holds block n last [] g fit h = h
  chain-Holds block n last (call ∷ calls) g fit h =
      chain-Holds block (suc n) _ calls _ (λ label m. fit label (Memᴰ.tail m))
        (add_edge_kept last _ call _ (fit call (Memᴰ.head refl))
          (add_vertex_kept (call_vertex block call n) false g h))

  pub move_edges-Holds :
      (first last : Text) (vs : List Text) (g : LibcCallgraph library)
      → Holds g
      → Holds (move_edges library first last vs g)
  unfolding move_edges
  move_edges-Holds first last [] g h = h
  move_edges-Holds first last (v ∷ vs) g h =
      move_edges-Holds first last vs _
        (add_edge_kept last v control _ control_fits (remove_edge_kept first v g h))

  expand_blocks-Holds :
      (blocks : TextMap (List Text)) (m : FuncMeta library)
      → All (AllFit library kept) blocks
      → Holds m.bb_expanded_graph
      → Holds (expand_blocks library blocks m).bb_expanded_graph
  unfolding expand_blocks expand_block
  expand_blocks-Holds [] m fit h = h
  expand_blocks-Holds ((block, calls) ∷ rest) m fit h = expand_blocks-Holds rest _ fit.1 (
      move_edges-Holds block _ (get_neighbors library block m.bb_expanded_graph) _
        (chain-Holds block 1 block calls m.bb_expanded_graph fit.0 h))

  -- `ExpandBBGraph` keeps it, where the calls of the blocks are allowed labels.
  pub expand_bb_graph-Holds :
      (metas : TextMap (FuncMeta library))
      → All (λ m. Holds m.bb_graph × All (AllFit library kept) m.bb_to_libc_map) metas
      → All (λ m. Holds m.bb_expanded_graph) (expand_bb_graph library metas)
  unfolding expand_bb_graph expand_function
  expand_bb_graph-Holds [] h = tt
  expand_bb_graph-Holds ((name, m) ∷ metas) h = (
    expand_blocks-Holds m.bb_to_libc_map (record m { bb_expanded_graph = m.bb_graph }) h.0.1 h.0.0,
    expand_bb_graph-Holds metas h.1,
  )
