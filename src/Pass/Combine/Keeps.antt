-- ===== src/Pass/Combine/Keeps.antt =====
-- What the graph operations keep holds of the final graph.
use e0256_project_final.Base.{
  ℕ, zero, suc, List, [], ◌∷◌, some, ◌≡◌, subst, some_inj, Bool-cases, Option-cases, List-cases,
  inl, inr,
}
use e0256_project_final.Base.Text.{Text, text_eq, codes, starts_with, substr_from}
use e0256_project_final.Base.TextMap.{TextMap, find}
use e0256_project_final.Graaf.{Graaf}
use e0256_project_final.GraphLib.{
  LibcCallgraph, insert_graph, get_neighbors, get_outgoing_edges, get_vertices, control,
  get_control_edge_neighbors, get_user_edge_neighbors,
}
use e0256_project_final.GraphLib.Kept.{Kept}
use e0256_project_final.Pass.Source.{FuncMeta, new_meta, result, result_inj}
use e0256_project_final.Pass.Blocks.Keeps.{All}
use e0256_project_final.Pass.Merge.{Merging, merge_neighbors}
use e0256_project_final.Pass.Merge.Keeps.{merge_neighbors-Holds}
use e0256_project_final.Pass.Combine.{
  Final, final_loop, final_round, combine_libcg_graph, insert_all, insert_calls, insert_call,
  add_return, meta_of,
}

module _ (library : Graaf) (kept : Kept library) where
  open kept use {Holds, control_fits, new_graph_kept, add_edge_kept, insert_graph_kept}

  add_return-Holds :
      (entry func_exit : Text) (g g' : LibcCallgraph library)
      → Holds g
      → add_return library entry func_exit g ≡ some g'
      → Holds g'
  unfolding add_return
  add_return-Holds entry func_exit g g' h e = elim (List-cases (get_neighbors library entry g)) [
    | inl alone ↦ let e' = rw (add_return, alone) at e in cc
    | inr (n, ns, there) ↦
        subst Holds (some_inj (rw (add_return, there) at e))
          (add_edge_kept func_exit n control g control_fits h)
  ]

  insert_call-Holds :
      (func : FuncMeta library) (entry : Text) (g g' : LibcCallgraph library)
      → Holds func.libc_call_graph
      → Holds g
      → insert_call library func entry g ≡ some g'
      → Holds g'
  unfolding insert_call
  insert_call-Holds func entry g g' called h e =
      elim (Option-cases (insert_graph library func.libc_call_graph g)) [
        | inl thrown ↦ let e' = rw (insert_call, thrown) at e in cc
        | inr (g1, made) ↦
            add_return-Holds entry func.exit_node _ g'
              (add_edge_kept entry func.entry_node control g1 control_fits
                (insert_graph_kept func.libc_call_graph g g1 called h made))
              (rw (insert_call, made) at e)
      ]

  meta_of-Holds :
      (metas : TextMap (FuncMeta library)) (name : Text)
      → All (λ m. Holds m.libc_call_graph) metas
      → Holds (meta_of library metas name).libc_call_graph
  unfolding meta_of find new_meta
  meta_of-Holds [] name h = new_graph_kept
  meta_of-Holds ((k, m) ∷ metas) name h = elim (Bool-cases (text_eq k name)) [
    | inl same ↦ rw (meta_of, same) h.0
    | inr other ↦ rw (meta_of, other) (meta_of-Holds metas name h.1)
  ]

  module _ (metas : TextMap (FuncMeta library))
      (all : All (λ m. Holds m.libc_call_graph) metas) where
    insert_calls-Holds :
        (entry : Text) (labels : List Text) (g g' : LibcCallgraph library)
        → Holds g
        → insert_calls library metas entry labels g ≡ some g'
        → Holds g'
    unfolding insert_calls
    insert_calls-Holds entry [] g g' h e = subst Holds (some_inj e) h
    insert_calls-Holds entry (label ∷ labels) g g' h e =
        let name = substr_from 5 label in
        let func = meta_of library metas name in
        elim (Bool-cases (starts_with (codes "user:") label)) [
          | inl own ↦ elim (Option-cases (insert_call library func entry g)) [
            | inl thrown ↦ let e' = rw (insert_calls, own, thrown) at e in cc
            | inr (g1, made) ↦
                insert_calls-Holds entry labels g1 g'
                  (insert_call-Holds func entry g g1 (meta_of-Holds metas name all) h made)
                  (rw (insert_calls, own, made) at e)
          ]
          | inr other ↦ insert_calls-Holds entry labels g g' h (rw (insert_calls, other) at e)
        ]

    pub insert_all-Holds :
        (vs : List Text) (g g' : LibcCallgraph library)
        → Holds g
        → insert_all library metas vs g ≡ some g'
        → Holds g'
    unfolding insert_all
    insert_all-Holds [] g g' h e = subst Holds (some_inj e) h
    insert_all-Holds (v ∷ vs) g g' h e =
        elim (Option-cases (insert_calls library metas v (get_outgoing_edges library v g) g)) [
          | inl thrown ↦ let e' = rw (insert_all, thrown) at e in cc
          | inr (g1, made) ↦
              insert_all-Holds vs g1 g'
                (insert_calls-Holds v (get_outgoing_edges library v g) g g1 h made)
                (rw (insert_all, made) at e)
        ]

    -- What is inserted into the graph of `main` keeps it.
    pub inserted-Holds :
        (g : LibcCallgraph library)
        → (let top = (meta_of library metas (codes "main")).libc_call_graph in
            insert_all library metas (get_vertices library top) top ≡ some g)
        → Holds g
    inserted-Holds g made = insert_all-Holds _ _ g (meta_of-Holds metas (codes "main") all) made

  final_round-Holds :
      (vs : List Text) (m : Merging library)
      → Holds m.graph
      → Holds (final_round library vs m).1.graph
  unfolding final_round
  final_round-Holds [] m h = h
  final_round-Holds (v ∷ vs) m h =
      let controls = get_control_edge_neighbors library v m.graph in
      let m1 = merge_neighbors library v controls m in
      let users = get_user_edge_neighbors library v m1.graph in
      final_round-Holds vs _ (
        merge_neighbors-Holds library kept v users m1
          (merge_neighbors-Holds library kept v controls m h))

  final_loop-Holds :
      (fuel : ℕ) (m r : Merging library)
      → Holds m.graph
      → final_loop library fuel m ≡ some r
      → Holds r.graph
  unfolding final_loop
  final_loop-Holds zero m r h e = cc
  final_loop-Holds (suc fuel) m r h e =
      let next = final_round library (get_vertices library m.graph) m in
      let h' = final_round-Holds (get_vertices library m.graph) m h in
      elim (Bool-cases next.0) [
        | inl more ↦ final_loop-Holds fuel next.1 r h' (rw more at e)
        | inr done ↦ subst (λ (m' : Merging library). Holds m'.graph) (some_inj (rw done at e)) h'
      ]

  -- `CombineLibcgGraph` keeps it.
  pub combine_libcg_graph-Holds :
      (fuel : ℕ) (metas : TextMap (FuncMeta library)) (final : Final library)
      → All (λ m. Holds m.libc_call_graph) metas
      → combine_libcg_graph library fuel metas ≡ result final
      → Holds final.graph
  unfolding combine_libcg_graph
  combine_libcg_graph-Holds fuel metas final all e =
      let top = meta_of library metas (codes "main") in
      let g0 = top.libc_call_graph in
      elim (Option-cases (insert_all library metas (get_vertices library g0) g0)) [
        | inl thrown ↦ let e' = rw (combine_libcg_graph, thrown) at e in cc
        | inr (g, made) ↦
            let start : Merging library = record { graph = g; exit_node = top.exit_node } in
            elim (Option-cases (final_loop library fuel start)) [
              | inl out ↦ let e' = rw (combine_libcg_graph, made, out) at e in cc
              | inr (m, ends) ↦
                  subst (λ (f : Final library). Holds f.graph)
                    (result_inj (rw (combine_libcg_graph, made, ends) at e))
                    (final_loop-Holds fuel start m (inserted-Holds metas all g made) ends)
            ]
      ]
