-- ===== src/Pass/Merge/Keeps.antt =====
-- What the graph operations keep holds of the graphs that merging along control edges leaves.
use e0256_project_final.Base.{
  ℕ, zero, suc, List, [], ◌∷◌, some, ◌≡◌, subst, some_inj, Bool-cases, Option-cases, List-cases,
  inl, inr,
}
use e0256_project_final.Base.Text.{Text}
use e0256_project_final.Base.TextMap.{TextMap}
use e0256_project_final.Graaf.{Graaf}
use e0256_project_final.GraphLib.{get_control_edge_neighbors, get_vertices}
use e0256_project_final.GraphLib.Kept.{Kept}
use e0256_project_final.Pass.Source.{FuncMeta}
use e0256_project_final.Pass.Blocks.Keeps.{All}
use e0256_project_final.Pass.Merge.{
  Merging, merge_neighbors, merge_round, merge_loop, convert_function, convert_bb_graph,
}

module _ (library : Graaf) (kept : Kept library) where
  open kept use {Holds, combine_vertex_kept}

  pub merge_neighbors-Holds :
      (v : Text) (ns : List Text) (m : Merging library)
      → Holds m.graph
      → Holds (merge_neighbors library v ns m).graph
  unfolding merge_neighbors
  merge_neighbors-Holds v [] m h = h
  merge_neighbors-Holds v (n ∷ ns) m h =
      merge_neighbors-Holds v ns _ (combine_vertex_kept v n m.graph h)

  merge_round-Holds :
      (vs : List Text) (m : Merging library)
      → Holds m.graph
      → Holds (merge_round library vs m).1.graph
  unfolding merge_round
  merge_round-Holds [] m h = h
  merge_round-Holds (v ∷ vs) m h =
      elim (List-cases (get_control_edge_neighbors library v m.graph)) [
        | inl still ↦ rw (merge_round, still) (merge_round-Holds vs m h)
        | inr (n, ns, e) ↦
            rw (merge_round, e) (merge_round-Holds vs _ (merge_neighbors-Holds v (n ∷ ns) m h))
      ]

  merge_loop-Holds :
      (fuel : ℕ) (m r : Merging library)
      → Holds m.graph
      → merge_loop library fuel m ≡ some r
      → Holds r.graph
  unfolding merge_loop
  merge_loop-Holds zero m r h e = cc
  merge_loop-Holds (suc fuel) m r h e =
      let next = merge_round library (get_vertices library m.graph) m in
      let h' = merge_round-Holds (get_vertices library m.graph) m h in
      elim (Bool-cases next.0) [
        | inl more ↦ merge_loop-Holds fuel next.1 r h' (rw more at e)
        | inr done ↦ subst (λ (m' : Merging library). Holds m'.graph) (some_inj (rw done at e)) h'
      ]

  convert_function-Holds :
      (fuel : ℕ) (m m' : FuncMeta library)
      → Holds m.bb_expanded_graph
      → convert_function library fuel m ≡ some m'
      → Holds m'.libc_call_graph
  unfolding convert_function
  convert_function-Holds fuel m m' h e =
      let start : Merging library = record {
        graph = m.bb_expanded_graph;
        exit_node = m.exit_node;
      } in
      elim (Option-cases (merge_loop library fuel start)) [
        | inl out ↦ let e' = rw (convert_function, out) at e in cc
        | inr (r, ends) ↦
            subst (λ (f : FuncMeta library). Holds f.libc_call_graph)
              (some_inj (rw (convert_function, ends) at e)) (merge_loop-Holds fuel start r h ends)
      ]

  -- `ConvertBBGraphToLibcCallGraph` keeps it.
  pub convert_bb_graph-Holds :
      (fuel : ℕ) (metas metas' : TextMap (FuncMeta library))
      → All (λ m. Holds m.bb_expanded_graph) metas
      → convert_bb_graph library fuel metas ≡ some metas'
      → All (λ m. Holds m.libc_call_graph) metas'
  unfolding convert_bb_graph
  convert_bb_graph-Holds fuel [] metas' h e =
      subst (All (λ m. Holds m.libc_call_graph)) (some_inj e) tt
  convert_bb_graph-Holds fuel ((name, m) ∷ metas) metas' h e =
      elim (Option-cases (convert_function library fuel m)) [
        | inl out ↦ let e' = rw (convert_bb_graph, out) at e in cc
        | inr (m', made) ↦ elim (Option-cases (convert_bb_graph library fuel metas)) [
          | inl out ↦ let e' = rw (convert_bb_graph, made, out) at e in cc
          | inr (rest, others) ↦
              subst (All (λ m. Holds m.libc_call_graph))
                (some_inj (rw (convert_bb_graph, made, others) at e))
                (
                  convert_function-Holds fuel m m' h.0 made,
                  convert_bb_graph-Holds fuel metas rest h.1 others,
                )
        ]
      ]
