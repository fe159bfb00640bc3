-- ===== src/GraphLib/LabelsKept.antt =====
-- Names and vertices in step and a property of all labels: every operation of GraphLib keeps it.
use mathlib.Core.List.{Memᴰ}
use e0256_project_final.Base.{
  ℕ, Bool, List, [], ◌∷◌, some, ◌≡◌, refl, sym, subst, some_inj, Option-cases, inl, inr,
}
use e0256_project_final.Base.Text.{Text}
use e0256_project_final.Base.TextMap.{find}
use e0256_project_final.Graaf.{Graaf, Documented, DocumentedEdges, DocumentedLabels}
use e0256_project_final.GraphLib.{
  LibcCallgraph, new_graph, add_vertex, create_vertex, add_edge, remove_edge, with_both,
  combine_vertex, insert_vertices, insert_edges, insert_graph, control,
}
use e0256_project_final.GraphLib.Edges.{combine_there}
use e0256_project_final.GraphLib.Redirect.{seen-Visits}
use e0256_project_final.GraphLib.InStep.{
  InStep, new_graph-InStep, add_vertex-InStep, add_edge-InStep, remove_edge-InStep,
  combine_vertex-InStep,
}
use e0256_project_final.GraphLib.Kept.{Kept}
use e0256_project_final.GraphLib.AllLabels.{
  AllLabels, Listed, insert_edge-AllLabels, redirect_all-AllLabels, delete_vertex-AllLabels,
  delete_edge-AllLabels, new_vertex-AllLabels, edges-Listed,
}

module _ (library : Graaf) (documented : Documented library) (edged : DocumentedEdges library)
    (labelled : DocumentedLabels library) (P : Text → Type 0) where
  open library use {Graph, has_vertex, insert_edge, delete_edge, delete_vertex, edge, edges, vertex}

  -- Names and vertices are in step, and all labels have the property.
  abbrev pub Holds : LibcCallgraph library → Type 0
  Holds g = InStep library documented g × AllLabels library documented edged labelled P g.graph

  pub add_vertex-Holds :
      (name : Text) (calls : Bool) (g : LibcCallgraph library)
      → Holds g
      → Holds (add_vertex library name calls g).1
  unfolding add_vertex create_vertex
  add_vertex-Holds name calls g h =
      let stays = add_vertex-InStep library documented name calls g h.0 in
      elim (Option-cases (find name g.vertex_id_map)) [
        | inr (i, old) ↦ rw (add_vertex, old) h
        | inl new ↦ (
          stays,
          rw (add_vertex, new)
              (new_vertex-AllLabels library documented edged labelled P name g.graph h.1),
        )
      ]

  pub add_edge-Holds :
      (lhs rhs label : Text) (g : LibcCallgraph library)
      → P label
      → Holds g
      → Holds (add_edge library lhs rhs label g)
  unfolding add_edge with_both
  add_edge-Holds lhs rhs label g fits h =
      let stays = add_edge-InStep library documented lhs rhs label g h.0 in
      elim (Option-cases (find lhs g.vertex_id_map)) [
        | inl absent ↦ rw (add_edge, with_both, absent) h
        | inr (i, at_i) ↦ elim (Option-cases (find rhs g.vertex_id_map)) [
          | inl absent ↦ rw (add_edge, with_both, at_i, absent) h
          | inr (j, at_j) ↦ (
            stays,
            rw (add_edge, with_both, at_i, at_j)
                (insert_edge-AllLabels library documented edged labelled P i j label g.graph
                  (h.0.consistent lhs i at_i).0 (h.0.consistent rhs j at_j).0 fits h.1),
          )
        ]
      ]

  pub remove_edge-Holds :
      (lhs rhs : Text) (g : LibcCallgraph library) → Holds g → Holds (remove_edge library lhs rhs g)
  unfolding remove_edge with_both
  remove_edge-Holds lhs rhs g h =
      let stays = remove_edge-InStep library documented lhs rhs g h.0 in
      elim (Option-cases (find lhs g.vertex_id_map)) [
        | inl absent ↦ rw (remove_edge, with_both, absent) h
        | inr (i, at_i) ↦ elim (Option-cases (find rhs g.vertex_id_map)) [
          | inl absent ↦ rw (remove_edge, with_both, at_i, absent) h
          | inr (j, at_j) ↦ (
            stays,
            rw (remove_edge, with_both, at_i, at_j)
                (delete_edge-AllLabels library documented edged labelled P i j g.graph h.1),
          )
        ]
      ]

  pub combine_vertex-Holds :
      (lhs rhs : Text) (g : LibcCallgraph library)
      → Holds g
      → Holds (combine_vertex library lhs rhs g)
  unfolding combine_vertex with_both
  combine_vertex-Holds lhs rhs g h =
      let stays = combine_vertex-InStep library documented lhs rhs g h.0 in
      elim (Option-cases (find lhs g.vertex_id_map)) [
        | inl absent ↦ rw (combine_vertex, with_both, absent) h
        | inr (i, at_i) ↦ elim (Option-cases (find rhs g.vertex_id_map)) [
          | inl absent ↦ rw (combine_vertex, with_both, at_i, absent) h
          | inr (j, at_j) ↦ (
            stays,
            subst (AllLabels library documented edged labelled P)
                (sym (combine_there library documented edged lhs rhs i j g at_i at_j))
                (delete_vertex-AllLabels library documented edged labelled P j _ (
                  redirect_all-AllLabels library documented edged labelled P i j _ g.graph
                    (h.0.consistent lhs i at_i).0
                    (seen-Visits library documented edged i j g.graph (h.0.consistent lhs i at_i).0)
                    h.1)),
          )
        ]
      ]

  insert_vertices-Holds :
      (from : LibcCallgraph library) (vs : List (ℕ × Text)) (g g' : LibcCallgraph library)
      → Holds g
      → insert_vertices library from vs g ≡ some g'
      → Holds g'
  unfolding insert_vertices
  insert_vertices-Holds from [] g g' h e = subst Holds (some_inj e) h
  insert_vertices-Holds from ((i, name) ∷ vs) g g' h e =
      elim (Option-cases (find name from.func_call_map)) [
        | inl absent ↦ let e' = rw (insert_vertices, absent) at e in cc
        | inr (calls, there) ↦
            insert_vertices-Holds from vs (add_vertex library name calls g).1 g'
              (add_vertex-Holds name calls g h) (rw (insert_vertices, there) at e)
      ]

  insert_edges-Holds :
      (from : LibcCallgraph library) (es : List ((ℕ × ℕ) × Text)) (g : LibcCallgraph library)
      → Listed library documented edged labelled P es
      → Holds g
      → Holds (insert_edges library from es g)
  unfolding insert_edges
  insert_edges-Holds from [] g fits h = h
  insert_edges-Holds from (((a, b), label) ∷ es) g fits h =
      insert_edges-Holds from es _ (λ x y l m. fits x y l (Memᴰ.tail m))
        (add_edge-Holds (vertex from.graph a) (vertex from.graph b) label g
          (fits a b label (Memᴰ.head refl)) h)

  pub insert_graph-Holds :
      (from g g' : LibcCallgraph library)
      → Holds from
      → Holds g
      → insert_graph library from g ≡ some g'
      → Holds g'
  unfolding insert_graph
  insert_graph-Holds from g g' h_from h e =
      elim (Option-cases (insert_vertices library from (library.vertices from.graph) g)) [
        | inl thrown ↦ let e' = rw (insert_graph, thrown) at e in cc
        | inr (g1, made) ↦ subst Holds (some_inj (rw (insert_graph, made) at e)) (
            insert_edges-Holds from (edges from.graph) g1
              (edges-Listed library documented edged labelled P from.graph h_from.1)
              (insert_vertices-Holds from (library.vertices from.graph) g g1 h made))
      ]

  pub new_graph-Holds : Holds (new_graph library)
  unfolding new_graph
  new_graph-Holds = (new_graph-InStep library documented, λ a b ha. cc (documented.empty_has a))

  abbrev pub LabelsKept : P control → Kept library
  LabelsKept control_fits = record {
    Fits = P;
    Holds = Holds;
    control_fits = control_fits;
    new_graph_kept = new_graph-Holds;
    add_vertex_kept = add_vertex-Holds;
    add_edge_kept = add_edge-Holds;
    remove_edge_kept = remove_edge-Holds;
    combine_vertex_kept = combine_vertex-Holds;
    insert_graph_kept = insert_graph-Holds;
  }
