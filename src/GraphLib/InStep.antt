-- ===== src/GraphLib/InStep.antt =====
-- The names and the vertices stand for one another, and every operation of the graph keeps it so.
use e0256_project_final.Base.{
  ℕ, ◌≡◌, ap, ◌∙◌, sym, Bool, List, [], ◌∷◌, some, length, Option-cases, inl, inr, subst, some_inj,
}
use e0256_project_final.Base.Text.{Text}
use e0256_project_final.Base.TextMap.{find}
use e0256_project_final.Graaf.{Graaf, Documented}
use e0256_project_final.GraphLib.{
  LibcCallgraph, add_vertex, add_edge, remove_edge, with_both, combine_vertex, insert_vertices,
  insert_edges, insert_graph, new_graph,
}
use e0256_project_final.GraphLib.Names.{
  Consistent, Named, combine_vertex-Consistent, combine_vertex-Named, add_vertex-Consistent,
  add_vertex-Named,
}

module _ (library : Graaf) (documented : Documented library) where
  open library use {Graph, vertex, has_vertex}

  -- The names and the vertices stand for one another.
  pub record InStep (g : LibcCallgraph library) : Type 0 where
    pub consistent : Consistent library documented g
    pub named : Named library documented g

  -- The number of names.
  abbrev pub names : LibcCallgraph library → ℕ
  names g = length g.vertex_id_map

  pub combine_vertex-InStep :
      (lhs rhs : Text) (g : LibcCallgraph library)
      → InStep g
      → InStep (combine_vertex library lhs rhs g)
  combine_vertex-InStep lhs rhs g h = record {
    consistent = combine_vertex-Consistent library documented lhs rhs g h.consistent;
    named = combine_vertex-Named library documented lhs rhs g h.named;
  }

  pub add_vertex-InStep :
      (name : Text) (calls : Bool) (g : LibcCallgraph library)
      → InStep g
      → InStep (add_vertex library name calls g).1
  add_vertex-InStep name calls g h = record {
    consistent = add_vertex-Consistent library documented name calls g h.consistent;
    named = add_vertex-Named library documented name calls g h.named;
  }

  -- A change of the graph that keeps its vertices and their names.
  same_vertices-InStep :
      (g : LibcCallgraph library) (graph : Graph)
      → ((k : ℕ) → has_vertex graph k ≡ has_vertex g.graph k)
      → ((k : ℕ) → vertex graph k ≡ vertex g.graph k)
      → InStep g
      → InStep (record g { graph = graph })
  same_vertices-InStep g graph has named h = record {
    consistent =
        λ name i e. let (there, label) = h.consistent name i e in (has i ∙ there, named i ∙ label);
    named = λ i there. ap (λ t. find t g.vertex_id_map) (named i) ∙ h.named i (sym (has i) ∙ there);
  }

  with_both-InStep :
      (lhs rhs : Text) (act : ℕ → ℕ → LibcCallgraph library → LibcCallgraph library)
      (g : LibcCallgraph library)
      → ((i j : ℕ) → InStep (act i j g))
      → InStep g
      → InStep (with_both library lhs rhs act g)
  unfolding with_both
  with_both-InStep lhs rhs act g each h = elim (Option-cases (find lhs g.vertex_id_map)) [
    | inl absent ↦ rw (with_both, absent) h
    | inr (i, there) ↦ elim (Option-cases (find rhs g.vertex_id_map)) [
      | inl absent ↦ rw (with_both, there, absent) h
      | inr (j, found) ↦ rw (with_both, there, found) (each i j)
    ]
  ]

  pub add_edge-InStep :
      (lhs rhs label : Text) (g : LibcCallgraph library)
      → InStep g
      → InStep (add_edge library lhs rhs label g)
  unfolding add_edge
  add_edge-InStep lhs rhs label g h =
      with_both-InStep lhs rhs _ g
        (λ i j.
          same_vertices-InStep g (library.insert_edge i j label g.graph)
            (documented.insert_has i j label g.graph) (documented.insert_vertex i j label g.graph)
            h)
        h

  pub remove_edge-InStep :
      (lhs rhs : Text) (g : LibcCallgraph library)
      → InStep g
      → InStep (remove_edge library lhs rhs g)
  unfolding remove_edge
  remove_edge-InStep lhs rhs g h =
      with_both-InStep lhs rhs _ g
        (λ i j.
          same_vertices-InStep g (library.delete_edge i j g.graph)
            (documented.delete_edge_has i j g.graph) (documented.delete_edge_vertex i j g.graph) h)
        h

  pub new_graph-InStep : InStep (new_graph library)
  unfolding new_graph find
  new_graph-InStep = record {
    consistent = λ name i e. cc;
    named = λ i e. cc (documented.empty_has i);
  }

  insert_vertices-InStep :
      (from : LibcCallgraph library) (vs : List (ℕ × Text)) (g g' : LibcCallgraph library)
      → InStep g
      → insert_vertices library from vs g ≡ some g'
      → InStep g'
  unfolding insert_vertices
  insert_vertices-InStep from [] g g' h e = subst InStep (some_inj e) h
  insert_vertices-InStep from ((i, name) ∷ vs) g g' h e =
      elim (Option-cases (find name from.func_call_map)) [
        | inl absent ↦ let e' = rw (insert_vertices, absent) at e in cc
        | inr (calls, there) ↦
            insert_vertices-InStep from vs (add_vertex library name calls g).1 g'
              (add_vertex-InStep name calls g h) (rw (insert_vertices, there) at e)
      ]

  insert_edges-InStep :
      (from : LibcCallgraph library) (es : List ((ℕ × ℕ) × Text)) (g : LibcCallgraph library)
      → InStep g
      → InStep (insert_edges library from es g)
  unfolding insert_edges
  insert_edges-InStep from [] g h = h
  insert_edges-InStep from (((a, b), label) ∷ es) g h =
      insert_edges-InStep from es _
        (add_edge-InStep (vertex from.graph a) (vertex from.graph b) label g h)

  -- `insert_graph` keeps names and vertices in step, where it does not throw.
  pub insert_graph-InStep :
      (from g g' : LibcCallgraph library)
      → InStep g
      → insert_graph library from g ≡ some g'
      → InStep g'
  unfolding insert_graph
  insert_graph-InStep from g g' h e =
      elim (Option-cases (insert_vertices library from (library.vertices from.graph) g)) [
        | inl thrown ↦ let e' = rw (insert_graph, thrown) at e in cc
        | inr (g1, made) ↦ subst InStep (some_inj (rw (insert_graph, made) at e)) (
            insert_edges-InStep from (library.edges from.graph) g1
              (insert_vertices-InStep from (library.vertices from.graph) g g1 h made))
      ]
