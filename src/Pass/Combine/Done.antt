-- ===== src/Pass/Combine/Done.antt =====
-- What the last merging loop leaves: no vertex has an edge that it would merge along.
use mathlib.Core.List.{Memᴰ, reverse_aux, map}
use mathlib.Core.List.Memᴰ
use e0256_project_final.Base.{
  ℕ, zero, suc, Bool, true, false, List, [], ◌∷◌, some, ◌≡◌, refl, ap, ◌∙◌, sym, subst, some_inj,
  Bool-cases, List-cases, Option-cases, inl, inr,
}
use e0256_project_final.Base.Text.{Text, text_eq, starts_with, codes}
use e0256_project_final.Base.TextMap.{TextMap}
use e0256_project_final.Graaf.{Graaf, Documented, DocumentedVertices, linked}
use e0256_project_final.GraphLib.{
  LibcCallgraph, control, select, get_control_edge_neighbors, get_user_edge_neighbors, get_vertices,
}
use e0256_project_final.GraphLib.Edges.{Mem-contains}
use e0256_project_final.GraphLib.InStep.{InStep}
use e0256_project_final.Pass.Merge.{Merging, merge_neighbors}
use e0256_project_final.Pass.Combine.{
  Final, final_round, final_loop, insert_all, meta_of, combine_libcg_graph,
}
use e0256_project_final.Pass.Source.{FuncMeta, result, result_inj}

module _ {A : Type 0} where
  Memᴰ-reverse_aux : (xs ys : List A) (x : A) → Memᴰ x ys → Memᴰ x (reverse_aux xs ys)
  Memᴰ-reverse_aux [] ys x m = m
  Memᴰ-reverse_aux (y ∷ xs) ys x m = Memᴰ-reverse_aux xs (y ∷ ys) x (Memᴰ.tail m)

  Memᴰ-reversed : (xs ys : List A) (x : A) → Memᴰ x xs → Memᴰ x (reverse_aux xs ys)
  Memᴰ-reversed [] ys x m = absurd (Memᴰ.not-nil m)
  Memᴰ-reversed (y ∷ xs) ys x m = elim (Memᴰ.cases_cons m) [
    | inl same ↦ Memᴰ-reverse_aux xs (y ∷ ys) x (Memᴰ.head same)
    | inr later ↦ Memᴰ-reversed xs (y ∷ ys) x later
  ]

-- Where nothing is selected, no label passes the test.
select_none :
    (library : Graaf) (test : Text → Bool) (g : library.Graph) (i : ℕ) (js : List ℕ) (j : ℕ)
    → select library test g i js ≡ []
    → Memᴰ j js
    → test (library.edge g i j) ≡ false
unfolding select
select_none library test g i [] j h m = absurd (Memᴰ.not-nil m)
select_none library test g i (k ∷ js) j h m = elim (Bool-cases (test (library.edge g i k))) [
  | inl passes ↦ let h' = rw (select, passes) at h in cc
  | inr fails ↦ elim (Memᴰ.cases_cons m) [
    | inl same ↦ rw same fails
    | inr later ↦ select_none library test g i js j (rw (select, fails) at h) later
  ]
]

module _ (library : Graaf) where
  -- The vertex has nothing to merge with.
  abbrev Settled : Text → LibcCallgraph library → Type 0
  Settled v g =
      (get_control_edge_neighbors library v g ≡ []) × (get_user_edge_neighbors library v g ≡ [])

  -- A round that finds nothing leaves the graph, and there was nothing to merge.
  final_round_done :
      (vs : List Text) (m : Merging library)
      → (final_round library vs m).0 ≡ false
      → ((final_round library vs m).1 ≡ m) × ((v : Text) → Memᴰ v vs → Settled v m.graph)
  unfolding final_round merge_neighbors
  final_round_done [] m e = (refl, λ v at. absurd (Memᴰ.not-nil at))
  final_round_done (v ∷ vs) m e = elim (List-cases (get_control_edge_neighbors library v m.graph)) [
    | inr (n, ns, some_control) ↦ let e' = rw (final_round, some_control) at e in cc
    | inl no_control ↦ elim (List-cases (get_user_edge_neighbors library v m.graph)) [
      | inr (n, ns, some_user) ↦ let e' = rw (final_round, no_control, some_user) at e in cc
      | inl no_user ↦
          let (same, settled) =
            final_round_done vs m (rw (final_round, no_control, no_user) at e) in
          (
            rw (final_round, no_control, no_user) same,
            λ w at. elim (Memᴰ.cases_cons at) [
              | inl here ↦ subst (λ t. Settled t m.graph) (sym here) (no_control, no_user)
              | inr later ↦ settled w later
            ],
          )
    ]
  ]

  final_loop_done :
      (fuel : ℕ) (m r : Merging library)
      → final_loop library fuel m ≡ some r
      → (v : Text) → Memᴰ v (get_vertices library r.graph)
      → Settled v r.graph
  unfolding final_loop
  final_loop_done zero m r e = cc
  final_loop_done (suc fuel) m r e =
      let vs = get_vertices library m.graph in
      let next = final_round library vs m in
      elim (Bool-cases next.0) [
        | inl more ↦ final_loop_done fuel next.1 r (rw more at e)
        | inr done ↦
            let (same, settled) = final_round_done vs m done in
            let left : m ≡ r = sym same ∙ some_inj (rw done at e) in
            subst
              (λ (m' : Merging library).
                (v : Text) → Memᴰ v (get_vertices library m'.graph) → Settled v m'.graph)
              left settled
      ]

module _ (library : Graaf) (documented : Documented library)
    (listed : DocumentedVertices library) where
  open library use {has_vertex, edge, neighbors, vertex, vertices}

  vertex-listed :
      (g : LibcCallgraph library) (i : ℕ)
      → has_vertex g.graph i ≡ true
      → Memᴰ (vertex g.graph i) (get_vertices library g)
  unfolding get_vertices
  vertex-listed g i there =
      Memᴰ-reversed (map (λ (v : ℕ × Text). v.1) (vertices g.graph)) [] _
        (Memᴰ.map (λ (v : ℕ × Text). v.1) (listed.vertices_listed g.graph i there))

  -- Where names and vertices stand for one another and no vertex has anything to merge with, no edge
  -- has a label of control flow or of a call of the program's own functions.
  labels-Settled :
      (g : LibcCallgraph library)
      → InStep library documented g
      → ((v : Text) → Memᴰ v (get_vertices library g) → Settled library v g)
      → (i j : ℕ) → has_vertex g.graph i ≡ true
      → linked library g.graph i j ≡ true
      → (text_eq (edge g.graph i j) control ≡ false)
        × (starts_with (codes "user:") (edge g.graph i j) ≡ false)
  unfolding get_control_edge_neighbors get_user_edge_neighbors
  labels-Settled g h settled i j there l =
      let known = h.named i there in
      let at_j = Mem-contains (neighbors g.graph i) j l in
      let (no_control, no_user) = settled (vertex g.graph i) (vertex-listed g i there) in
      (
        select_none library (λ label. text_eq label control) g.graph i (neighbors g.graph i) j
            (rw (get_control_edge_neighbors, known) at no_control) at_j,
        select_none library (starts_with (codes "user:")) g.graph i (neighbors g.graph i) j
            (rw (get_user_edge_neighbors, known) at no_user) at_j,
      )

  -- Neither has the graph that `CombineLibcgGraph` returns.
  pub combine_libcg_graph_labels :
      (fuel : ℕ) (metas : TextMap (FuncMeta library)) (final : Final library)
      → combine_libcg_graph library fuel metas ≡ result final
      → InStep library documented final.graph
      → (i j : ℕ) → has_vertex final.graph.graph i ≡ true
      → linked library final.graph.graph i j ≡ true
      → (text_eq (edge final.graph.graph i j) control ≡ false)
        × (starts_with (codes "user:") (edge final.graph.graph i j) ≡ false)
  unfolding combine_libcg_graph
  combine_libcg_graph_labels fuel metas final e h =
      let top = meta_of library metas (codes "main") in
      let g0 = top.libc_call_graph in
      elim (Option-cases (insert_all library metas (get_vertices library g0) g0)) [
        | inl thrown ↦ let e' = rw (combine_libcg_graph, thrown) at e in cc
        | inr (g, made) ↦
            let start : Merging library = record { graph = g; exit_node = top.exit_node } in
            elim (Option-cases (final_loop library fuel start)) [
              | inl out ↦ let e' = rw (combine_libcg_graph, made, out) at e in cc
              | inr (m, ends) ↦
                  let same : m.graph ≡ final.graph =
                    ap (λ (f : Final library). f.graph)
                      (result_inj (rw (combine_libcg_graph, made, ends) at e)) in
                  labels-Settled final.graph h (
                    subst
                      (λ g'. (v : Text) → Memᴰ v (get_vertices library g') → Settled library v g')
                      same (final_loop_done library fuel start m ends))
            ]
      ]
