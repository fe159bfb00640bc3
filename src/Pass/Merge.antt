-- ===== src/Pass/Merge.antt =====
-- `ConvertBBGraphToLibcCallGraph`: vertices that control edges join become one.
pub mod Keeps
pub mod Terminates
pub mod Loops
use e0256_project_final.Base.{
  ℕ, zero, suc, Bool, true, false, ◌||◌, List, [], ◌∷◌, Option, none, some, if◌then◌else◌,
}
use e0256_project_final.Base.Text.{Text, text_eq}
use e0256_project_final.Base.TextMap.{TextMap}
use e0256_project_final.Graaf.{Graaf}
use e0256_project_final.GraphLib.{
  LibcCallgraph, combine_vertex, get_control_edge_neighbors, get_vertices,
}
use e0256_project_final.Pass.Source.{FuncMeta}

module _ (library : Graaf) where
  -- A graph and the name of its exit vertex.
  pub record Merging : Type 0 where
    pub graph : LibcCallgraph library
    pub exit_node : Text

  -- The loop over the neighbours of a vertex.
  unfoldable pub merge_neighbors : Text → List Text → Merging → Merging
  merge_neighbors vertex [] m = m
  merge_neighbors vertex (n ∷ ns) m = merge_neighbors vertex ns (record {
    graph = combine_vertex library vertex n m.graph;
    exit_node = if text_eq m.exit_node n then vertex else m.exit_node;
  })

  -- One pass over the vertices, and whether it has merged any.
  unfoldable pub merge_round : List Text → Merging → Bool × Merging
  merge_round [] m = (false, m)
  merge_round (v ∷ vs) m = elim (get_control_edge_neighbors library v m.graph) [
    | [] ↦ merge_round vs m
    | n ∷ ns ↦ let rest = merge_round vs (merge_neighbors v (n ∷ ns) m) in (true, rest.1)
  ]

  -- The `while` loop; `none` where the fuel does not suffice.
  unfoldable pub merge_loop : ℕ → Merging → Option Merging
  merge_loop zero m = none
  merge_loop (suc fuel) m =
      let (found, m') = merge_round (get_vertices library m.graph) m in
      let rest = merge_loop fuel m' in if found then rest else some m'

  unfoldable pub convert_function : ℕ → FuncMeta library → Option (FuncMeta library)
  convert_function fuel m =
      elim (merge_loop fuel (record { graph = m.bb_expanded_graph; exit_node = m.exit_node })) [
        | none ↦ none
        | some r ↦ some (record m { libc_call_graph = r.graph; exit_node = r.exit_node })
      ]

  unfoldable pub convert_bb_graph :
      ℕ → TextMap (FuncMeta library) → Option (TextMap (FuncMeta library))
  convert_bb_graph fuel [] = some []
  convert_bb_graph fuel ((name, m) ∷ rest) = elim (convert_function fuel m) [
    | none ↦ none
    | some m' ↦ elim (convert_bb_graph fuel rest) [
      | none ↦ none
      | some rest' ↦ some ((name, m') ∷ rest')
    ]
  ]
