-- ===== src/GraphLib/Joined.antt =====
-- The edges of a graph between names.
use e0256_project_final.Base.{
  ℕ, Bool, true, false, ◌||◌, ◌&&◌, Option, none, some, ◌≡◌, refl, ap, ◌∙◌, sym, arith, ◌==◌,
  Option-cases, Bool-cases, inl, inr, eq_of_==,
}
use e0256_project_final.Base.Text.{Text, text_eq, text_eq_refl, text_eq_iff}
use e0256_project_final.Base.TextMap.{find, find-assign}
use e0256_project_final.Graaf.{Graaf, Documented, DocumentedEdges, linked}
use e0256_project_final.GraphLib.{LibcCallgraph, add_vertex, create_vertex, add_edge, with_both}
use e0256_project_final.GraphLib.InStep.{InStep, add_vertex-InStep}

unfoldable pub there : Option ℕ → Bool
there none = false
there (some i) = true

module _ (library : Graaf) where
  unfoldable pub joined_ids : library.Graph → Option ℕ → Option ℕ → Bool
  joined_ids g none q = false
  joined_ids g (some i) none = false
  joined_ids g (some i) (some j) = linked library g i j

  -- Whether a name is that of a vertex.
  unfoldable pub has_name : LibcCallgraph library → Text → Bool
  has_name g x = there (find x g.vertex_id_map)

  -- Whether both names are there, with an edge from the first to the second.
  unfoldable pub joined : LibcCallgraph library → Text → Text → Bool
  joined g x y = joined_ids g.graph (find x g.vertex_id_map) (find y g.vertex_id_map)

module _ (library : Graaf) (documented : Documented library) (edged : DocumentedEdges library) where
  open library use {Graph, new_vertex, insert_edge, has_vertex, vertex}

  -- Names that are there are equal exactly where their ids are.
  pub same_id :
      (a x : Text) (i k : ℕ) (g : LibcCallgraph library)
      → InStep library documented g
      → find a g.vertex_id_map ≡ some i
      → find x g.vertex_id_map ≡ some k
      → text_eq a x ≡ (i == k)
  same_id a x i k g h ha hx = elim (Bool-cases (i == k)) [
    | inl same ↦
        let e : a ≡ x =
          sym (h.consistent a i ha).1
          ∙ ap (λ n. vertex g.graph n) (eq_of_== i k same)
          ∙ (h.consistent x k hx).1 in
        rw (same, e) (text_eq_refl x)
    | inr other ↦ ground (arith, text_eq_iff a x, ha, hx)
  ]

  pub other_name :
      (a x : Text) (i : ℕ) (g : LibcCallgraph library)
      → find a g.vertex_id_map ≡ some i
      → find x g.vertex_id_map ≡ none
      → text_eq a x ≡ false
  other_name a x i g ha hx = ground (arith, text_eq_iff a x)

  pub has_name-add_vertex :
      (v : Text) (calls : Bool) (g : LibcCallgraph library) (x : Text)
      → has_name library (add_vertex library v calls g).1 x ≡ text_eq v x || has_name library g x
  unfolding has_name there add_vertex create_vertex
  has_name-add_vertex v calls g x = elim (Option-cases (find v g.vertex_id_map)) [
    | inl new ↦
        let e = find-assign v x (new_vertex v g.graph).0 g.vertex_id_map in
        rw (add_vertex, new) (ground (arith, e))
    | inr (i, old) ↦ rw (add_vertex, old) (ground (arith, text_eq_iff v x))
  ]

  new_joined :
      (v : Text) (calls : Bool) (g : LibcCallgraph library) (x y : Text)
      → InStep library documented g
      → find v g.vertex_id_map ≡ none
      → joined library (create_vertex library v calls g).1 x y ≡ joined library g x y
  unfolding joined joined_ids add_vertex create_vertex
  new_joined v calls g x y h new =
      let made = (create_vertex library v calls g).1 in
      let id = (new_vertex v g.graph).0 in
      let stays : InStep library documented made =
        rw (add_vertex, new) at (add_vertex-InStep library documented v calls g h) in
      let at_x = find-assign v x id g.vertex_id_map in
      let at_y = find-assign v y id g.vertex_id_map in
      elim (Option-cases (find x made.vertex_id_map)) [
        | inl no_x ↦ ground (arith, at_x, text_eq_iff v x)
        | inr (k, new_x) ↦ elim (Option-cases (find y made.vertex_id_map)) [
          | inl no_y ↦ ground (arith, at_y, text_eq_iff v y)
          | inr (l, new_y) ↦ ground (
            arith,
            at_x,
            at_y,
            text_eq_iff v x,
            text_eq_iff v y,
            documented.new_fresh v g.graph,
            edged.new_linked v g.graph k l (stays.consistent x k new_x).0
                (stays.consistent y l new_y).0,
            h.consistent x k,
            h.consistent y l,
          )
        ]
      ]

  pub joined-add_vertex :
      (v : Text) (calls : Bool) (g : LibcCallgraph library) (x y : Text)
      → InStep library documented g
      → joined library (add_vertex library v calls g).1 x y ≡ joined library g x y
  unfolding add_vertex
  joined-add_vertex v calls g x y h = elim (Option-cases (find v g.vertex_id_map)) [
    | inl new ↦ rw (add_vertex, new) (new_joined v calls g x y h new)
    | inr (i, old) ↦ rw (add_vertex, old) refl
  ]

  pub has_name-add_edge :
      (a b label : Text) (g : LibcCallgraph library) (x : Text)
      → has_name library (add_edge library a b label g) x ≡ has_name library g x
  unfolding has_name add_edge with_both
  has_name-add_edge a b label g x = ground arith

  pub found :
      (a : Text) (g : LibcCallgraph library)
      → has_name library g a ≡ true
      → (i : ℕ) × (find a g.vertex_id_map ≡ some i)
  unfolding has_name there
  found a g h = elim (Option-cases (find a g.vertex_id_map)) [
    | inl absent ↦ absurd (ground arith)
    | inr present ↦ present
  ]

  -- Between two names that are there an edge is added, and no other.
  pub joined-add_edge :
      (a b label : Text) (g : LibcCallgraph library) (x y : Text)
      → InStep library documented g
      → has_name library g a ≡ true
      → has_name library g b ≡ true
      → joined library (add_edge library a b label g) x y
        ≡ (text_eq a x && text_eq b y) || joined library g x y
  unfolding joined joined_ids add_edge with_both
  joined-add_edge a b label g x y h ha hb =
      let (i, at_a) = found a g ha in
      let (j, at_b) = found b g hb in
      let there_a = (h.consistent a i at_a).0 in
      let there_b = (h.consistent b j at_b).0 in
      let insert = λ (k l : ℕ). edged.insert_linked i j label g.graph k l there_a there_b in
      elim (Option-cases (find x g.vertex_id_map)) [
        | inl no_x ↦ ground (arith, other_name a x i g at_a no_x)
        | inr (k, at_x) ↦ elim (Option-cases (find y g.vertex_id_map)) [
          | inl no_y ↦ ground (arith, other_name b y j g at_b no_y)
          | inr (l, at_y) ↦
              ground
                (arith, insert k l, same_id a x i k g h at_a at_x, same_id b y j l g h at_b at_y)
        ]
      ]
