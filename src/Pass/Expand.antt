-- ===== src/Pass/Expand.antt =====
-- `ExpandBBGraph`: a vertex for each call of a block.
pub mod Keeps
pub mod Names
pub mod Chain
pub mod Move
pub mod Spells
pub mod Others
pub mod Apart
pub mod Function
pub mod Lists
pub mod Compiled
use e0256_project_final.Base.{ℕ, suc, false, List, [], ◌∷◌, ◌++◌, if◌then◌else◌}
use e0256_project_final.Base.Text.{Text, codes, starts_with, text_eq}
use e0256_project_final.Base.Decimal.{decimal}
use e0256_project_final.Base.TextMap.{TextMap}
use e0256_project_final.Graaf.{Graaf}
use e0256_project_final.GraphLib.{
  LibcCallgraph, add_vertex, add_edge, remove_edge, get_neighbors, control,
}
use e0256_project_final.Pass.Source.{FuncMeta}

-- The name of the vertex behind the call of number `n` of a block.
unfoldable pub call_vertex : Text → Text → ℕ → Text
call_vertex block call n =
    block
    ++ (if starts_with (codes "user:") call then codes "-user_" else codes "-libc_")
    ++ decimal n

module _ (library : Graaf) where
  -- The loop over the calls: the graph and the last vertex, `last` where there is no call left.
  unfoldable pub chain :
      Text → ℕ → Text → List Text → LibcCallgraph library → Text × LibcCallgraph library
  chain block n last [] g = (last, g)
  chain block n last (call ∷ calls) g =
      let name = call_vertex block call n in
      chain block (suc n) name calls
        (add_edge library last name call (add_vertex library name false g).1)

  -- The control edges of the block leave from its last vertex.
  unfoldable pub move_edges :
      Text → Text → List Text → LibcCallgraph library → LibcCallgraph library
  move_edges first last [] g = g
  move_edges first last (v ∷ vs) g =
      move_edges first last vs (add_edge library last v control (remove_edge library first v g))

  -- The name of the last vertex of a chain, empty where the block has no call.
  unfoldable pub last_name : Text → ℕ → List Text → Text → Text
  last_name block n [] name = name
  last_name block n (call ∷ calls) name = last_name block (suc n) calls (call_vertex block call n)

  unfoldable pub expand_block : Text × List Text → FuncMeta library → FuncMeta library
  expand_block (block, calls) m =
      let neighbors = get_neighbors library block m.bb_expanded_graph in
      let (last, g) = chain block 1 block calls m.bb_expanded_graph in
      record m {
        bb_expanded_graph = move_edges block last neighbors g;
        exit_node = if text_eq m.exit_node block then last_name block 1 calls [] else m.exit_node;
      }

  unfoldable pub expand_blocks : TextMap (List Text) → FuncMeta library → FuncMeta library
  expand_blocks [] m = m
  expand_blocks (entry ∷ rest) m = expand_blocks rest (expand_block entry m)

  unfoldable pub expand_function : FuncMeta library → FuncMeta library
  expand_function m = expand_blocks m.bb_to_libc_map (record m { bb_expanded_graph = m.bb_graph })

  unfoldable pub expand_bb_graph : TextMap (FuncMeta library) → TextMap (FuncMeta library)
  expand_bb_graph [] = []
  expand_bb_graph ((name, m) ∷ rest) = (name, expand_function m) ∷ expand_bb_graph rest
