-- ===== src/GraphLib/Names.antt =====
-- The names of the vertices and their ids stay in step.
use e0256_project_final.Base.{
  ℕ, Bool, true, List, [], ◌∷◌, none, some, ◌≡◌, refl, ap, ◌∙◌, sym, arith, if◌then◌else◌,
  Option-cases, inl, inr,
}
use e0256_project_final.Base.Text.{Text, text_eq, text_eq_iff}
use e0256_project_final.Base.TextMap.{find, find-assign, find-erase}
use e0256_project_final.Graaf.{Graaf, Documented}
use e0256_project_final.GraphLib.{
  LibcCallgraph, create_vertex, add_vertex, with_both, drop_vertex, remove_vertex, redirect,
  redirect_all, combine_vertex,
}

module _ (library : Graaf) (documented : Documented library) where
  open library use {Graph, has_vertex, vertex, insert_edge}
  open documented use {
    new_fresh, new_has, new_vertex_self, new_vertex_other, insert_has, insert_vertex,
    delete_edge_has, delete_edge_vertex, delete_has, delete_vertex_other,
  }

  -- The id of a name is the id of a vertex with that name.
  abbrev pub Consistent : LibcCallgraph library → Type 0
  Consistent g =
      (name : Text) (i : ℕ)
      → find name g.vertex_id_map ≡ some i
      → (has_vertex g.graph i ≡ true) × (vertex g.graph i ≡ name)

  create_vertex-Consistent :
      (name : Text) (calls : Bool) (g : LibcCallgraph library)
      → Consistent g
      → Consistent (create_vertex library name calls g).1
  unfolding create_vertex
  create_vertex-Consistent name calls g h other i e = ground (
    arith,
    find-assign name other (library.new_vertex name g.graph).0 g.vertex_id_map,
    text_eq_iff name other,
    new_has name g.graph i,
    new_vertex_self name g.graph,
    new_vertex_other name g.graph i,
    h other i,
  )

  -- `add_vertex` keeps the names in step with the vertices, over a graph library as documented,
  -- whether the name is there or not: the id of each name is that of a vertex with this name.
  pub add_vertex-Consistent :
      (name : Text) (calls : Bool) (g : LibcCallgraph library)
      → Consistent g
      → Consistent (add_vertex library name calls g).1
  unfolding add_vertex
  add_vertex-Consistent name calls g h other i e =
      ground (arith, h other i, create_vertex-Consistent name calls g h other i)

  drop_vertex-Consistent :
      (name : Text) (id : ℕ) (g : LibcCallgraph library)
      → Consistent g
      → find name g.vertex_id_map ≡ some id
      → Consistent (drop_vertex library name id g)
  unfolding drop_vertex
  drop_vertex-Consistent name id g h there other i e = ground (
    arith,
    find-erase name other g.vertex_id_map,
    text_eq_iff name other,
    delete_has id g.graph i,
    delete_vertex_other id g.graph i,
    h other i,
    h name id,
  )

  pub redirect_kept :
      (i j : ℕ) (e : (ℕ × ℕ) × Text) (g : Graph) (k : ℕ)
      → (has_vertex (redirect library i j e g) k ≡ has_vertex g k)
        × (vertex (redirect library i j e g) k ≡ vertex g k)
  unfolding redirect
  redirect_kept i j ((a, b), label) g k =
      let out = insert_edge i b label g in
      ground (
        arith,
        insert_has i b label g k,
        insert_vertex i b label g k,
        insert_has a i label g k,
        insert_vertex a i label g k,
        insert_has a i label out k,
        insert_vertex a i label out k,
      )

  redirect_all_kept :
      (i j : ℕ) (es : List ((ℕ × ℕ) × Text)) (g : Graph) (k : ℕ)
      → (has_vertex (redirect_all library i j es g) k ≡ has_vertex g k)
        × (vertex (redirect_all library i j es g) k ≡ vertex g k)
  unfolding redirect_all
  redirect_all_kept i j [] g k = (refl, refl)
  redirect_all_kept i j (e ∷ es) g k =
      let one = redirect_kept i j e g k in
      let rest = redirect_all_kept i j es (redirect library i j e g) k in
      (rest.0 ∙ one.0, rest.1 ∙ one.1)

  -- `remove_vertex` keeps the names in step.
  pub remove_vertex-Consistent :
      (name : Text) (g : LibcCallgraph library)
      → Consistent g
      → Consistent (remove_vertex library name g)
  unfolding remove_vertex
  remove_vertex-Consistent name g h other i e = elim (Option-cases (find name g.vertex_id_map)) [
    | inl absent ↦ ground (arith, h other i)
    | inr (id, there) ↦ ground (arith, drop_vertex-Consistent name id g h there other i)
  ]

  redirected :
      (i j : ℕ) (g : LibcCallgraph library)
      → Consistent g
      → Consistent (record g {
        graph = redirect_all library i j (library.visited (redirect library i j) g.graph) g.graph;
      })
  redirected i j g h other k e =
      let kept = redirect_all_kept i j (library.visited (redirect library i j) g.graph) g.graph k in
      (kept.0 ∙ (h other k e).0, kept.1 ∙ (h other k e).1)

  -- `combine_vertex` keeps the names in step with the vertices, over a graph library as
  -- documented: after it the id of each name is still that of a vertex with this name.
  pub combine_vertex-Consistent :
      (lhs rhs : Text) (g : LibcCallgraph library)
      → Consistent g
      → Consistent (combine_vertex library lhs rhs g)
  unfolding combine_vertex with_both
  combine_vertex-Consistent lhs rhs g h other k e = elim (Option-cases (find lhs g.vertex_id_map)) [
    | inl absent ↦ ground (arith, h other k)
    | inr (i, there) ↦ elim (Option-cases (find rhs g.vertex_id_map)) [
      | inl absent ↦ ground (arith, h other k)
      | inr (j, found) ↦ ground (
        arith,
        drop_vertex-Consistent rhs j
            (record g {
              graph =
                  redirect_all library i j (library.visited (redirect library i j) g.graph) g.graph;
            })
            (redirected i j g h) found other k,
      )
    ]
  ]

  -- Where the first name is there, `combine_vertex` takes the second name away, and every other
  -- name keeps its id.
  pub combine_vertex_names :
      (lhs rhs other : Text) (g : LibcCallgraph library) (i : ℕ)
      → find lhs g.vertex_id_map ≡ some i
      → find other (combine_vertex library lhs rhs g).vertex_id_map
        ≡ (if text_eq rhs other then none else find other g.vertex_id_map)
  unfolding combine_vertex with_both drop_vertex
  combine_vertex_names lhs rhs other g i there = elim (Option-cases (find rhs g.vertex_id_map)) [
    | inl absent ↦ ground (arith, text_eq_iff rhs other)
    | inr (j, found) ↦ ground (arith, find-erase rhs other g.vertex_id_map)
  ]

  -- A vertex of the graph is found by its name.
  abbrev pub Named : LibcCallgraph library → Type 0
  Named g = (i : ℕ) → has_vertex g.graph i ≡ true → find (vertex g.graph i) g.vertex_id_map ≡ some i

  -- `add_vertex` keeps every vertex named.
  pub add_vertex-Named :
      (name : Text) (calls : Bool) (g : LibcCallgraph library)
      → Named g
      → Named (add_vertex library name calls g).1
  unfolding add_vertex create_vertex
  add_vertex-Named name calls g h i there = ground (
    arith,
    find-assign name (vertex (library.new_vertex name g.graph).1 i)
        (library.new_vertex name g.graph).0 g.vertex_id_map,
    text_eq_iff name (vertex (library.new_vertex name g.graph).1 i),
    new_has name g.graph i,
    new_vertex_self name g.graph,
    new_vertex_other name g.graph i,
    h i,
  )

  drop_vertex-Named :
      (name : Text) (id : ℕ) (g : LibcCallgraph library)
      → Named g
      → find name g.vertex_id_map ≡ some id
      → Named (drop_vertex library name id g)
  unfolding drop_vertex
  drop_vertex-Named name id g h known i there = ground (
    arith,
    find-erase name (vertex (library.delete_vertex id g.graph) i) g.vertex_id_map,
    text_eq_iff name (vertex (library.delete_vertex id g.graph) i),
    delete_has id g.graph i,
    delete_vertex_other id g.graph i,
    h i,
  )

  redirected-Named :
      (i j : ℕ) (g : LibcCallgraph library)
      → Named g
      → Named (record g {
        graph = redirect_all library i j (library.visited (redirect library i j) g.graph) g.graph;
      })
  redirected-Named i j g h k there =
      let kept = redirect_all_kept i j (library.visited (redirect library i j) g.graph) g.graph k in
      ap (λ t. find t g.vertex_id_map) kept.1 ∙ h k (sym kept.0 ∙ there)

  -- `combine_vertex` keeps every vertex named.
  pub combine_vertex-Named :
      (lhs rhs : Text) (g : LibcCallgraph library)
      → Named g
      → Named (combine_vertex library lhs rhs g)
  unfolding combine_vertex with_both
  combine_vertex-Named lhs rhs g h k there = elim (Option-cases (find lhs g.vertex_id_map)) [
    | inl absent ↦ ground (arith, h k)
    | inr (i, known) ↦ elim (Option-cases (find rhs g.vertex_id_map)) [
      | inl absent ↦ ground (arith, h k)
      | inr (j, found) ↦ ground (
        arith,
        drop_vertex-Named rhs j
            (record g {
              graph =
                  redirect_all library i j (library.visited (redirect library i j) g.graph) g.graph;
            })
            (redirected-Named i j g h) found k,
      )
    ]
  ]
