-- ===== src/Pass/Combine.antt =====
-- `CombineLibcgGraph`: the graphs of the called functions are put into the graph of `main`, and
-- the vertices that control edges and calls of the program's own functions join become one.
pub mod Keeps
pub mod Terminates
pub mod Done
use e0256_project_final.Base.{
  ℕ, zero, suc, Bool, true, false, List, [], ◌∷◌, Option, none, some, if◌then◌else◌,
}
use e0256_project_final.Base.Text.{Text, codes, starts_with, substr_from}
use e0256_project_final.Base.TextMap.{TextMap, find}
use e0256_project_final.Graaf.{Graaf}
use e0256_project_final.GraphLib.{
  LibcCallgraph, add_edge, insert_graph, get_neighbors, get_outgoing_edges, get_vertices,
  get_control_edge_neighbors, get_user_edge_neighbors, control,
}
use e0256_project_final.Pass.Source.{FuncMeta, new_meta, Ending, result, exception, out_of_fuel}
use e0256_project_final.Pass.Merge.{Merging, merge_neighbors}

module _ (library : Graaf) where
  -- `funcBBToMetaMap[name]`: a function that is not there has an empty entry.
  unfoldable pub meta_of : TextMap (FuncMeta library) → Text → FuncMeta library
  meta_of metas name = elim (find name metas) [ none ↦ new_meta library | some m ↦ m ]

  -- The edge back from the called function goes to the first neighbour of the caller; with no
  -- neighbour there `front()` is undefined, which `none` stands for, as for an exception.
  unfoldable pub add_return : Text → Text → LibcCallgraph library → Option (LibcCallgraph library)
  add_return entry func_exit g = elim (get_neighbors library entry g) [
    | [] ↦ none
    | n ∷ _ ↦ some (add_edge library func_exit n control g)
  ]

  unfoldable pub insert_call :
      FuncMeta library → Text → LibcCallgraph library → Option (LibcCallgraph library)
  insert_call func entry g = elim (insert_graph library func.libc_call_graph g) [
    | none ↦ none
    | some g' ↦ add_return entry func.exit_node (add_edge library entry func.entry_node control g')
  ]

  -- The loops over the outgoing edges of a vertex, and over the vertices that are there at first.
  unfoldable pub insert_calls :
      TextMap (FuncMeta library)
      → Text
      → List Text
      → LibcCallgraph library
      → Option (LibcCallgraph library)
  insert_calls metas entry [] g = some g
  insert_calls metas entry (label ∷ labels) g =
      let called = insert_call (meta_of metas (substr_from 5 label)) entry g in
      elim (if starts_with (codes "user:") label then called else some g) [
        | none ↦ none
        | some g' ↦ insert_calls metas entry labels g'
      ]

  unfoldable pub insert_all :
      TextMap (FuncMeta library)
      → List Text
      → LibcCallgraph library
      → Option (LibcCallgraph library)
  insert_all metas [] g = some g
  insert_all metas (entry ∷ rest) g =
      elim (insert_calls metas entry (get_outgoing_edges library entry g) g) [
        | none ↦ none
        | some g' ↦ insert_all metas rest g'
      ]

  abbrev pub is_nonempty : List Text → Bool
  is_nonempty [] = false
  is_nonempty (x ∷ xs) = true

  -- One pass of the loop that merges along control edges and then along calls.
  unfoldable pub final_round : List Text → Merging library → Bool × Merging library
  final_round [] m = (false, m)
  final_round (v ∷ vs) m =
      let controls = get_control_edge_neighbors library v m.graph in
      let m1 = merge_neighbors library v controls m in
      let users = get_user_edge_neighbors library v m1.graph in
      let rest = final_round vs (merge_neighbors library v users m1) in
      (if is_nonempty controls then true else if is_nonempty users then true else rest.0, rest.1)

  -- The `while` loop; `none` where the fuel does not suffice.
  unfoldable pub final_loop : ℕ → Merging library → Option (Merging library)
  final_loop zero m = none
  final_loop (suc fuel) m =
      let (found, m') = final_round (get_vertices library m.graph) m in
      let rest = final_loop fuel m' in if found then rest else some m'

  pub record Final : Type 0 where
    pub graph : LibcCallgraph library
    pub entry_node : Text
    pub exit_node : Text

  unfoldable pub combine_libcg_graph : ℕ → TextMap (FuncMeta library) → Ending Final
  combine_libcg_graph fuel metas =
      let top = meta_of metas (codes "main") in
      elim (insert_all metas (get_vertices library top.libc_call_graph) top.libc_call_graph) [
        | none ↦ exception
        | some g ↦ elim (final_loop fuel (record { graph = g; exit_node = top.exit_node })) [
          | none ↦ out_of_fuel
          | some m ↦
              result
                (record { graph = m.graph; entry_node = top.entry_node; exit_node = m.exit_node })
        ]
      ]
