-- ===== src/GraphLib/Edges.antt =====
-- The edges of the graph after `combine_vertex`.
use mathlib.Core.List.{Memᴰ}
use e0256_project_final.Base.{
  ℕ, true, false, ◌||◌, ◌&&◌, List, [], ◌∷◌, some, ◌⊎◌, ◌≡◌, ◌≢◌, sym, subst, arith, ◌==◌,
  if◌then◌else◌, Bool-cases, inl, inr, not, eq_of_==,
}
use e0256_project_final.Base.Text.{Text}
use e0256_project_final.Base.TextMap.{find}
use e0256_project_final.Graaf.{Graaf, Documented, DocumentedEdges, linked, contains, contains_edge}
use e0256_project_final.GraphLib.{
  LibcCallgraph, with_both, drop_vertex, redirect, redirect_all, combine_vertex,
}
use e0256_project_final.GraphLib.Redirect.{linked-redirect_all, drawn-seen, seen-Visits}
use e0256_project_final.GraphLib.Names.{Consistent}

pub Mem-contains : (js : List ℕ) (b : ℕ) → contains js b ≡ true → Memᴰ b js
unfolding contains
Mem-contains [] b h = cc
Mem-contains (j ∷ js) b h = elim (Bool-cases (j == b)) [
  | inl same ↦ Memᴰ.head (sym (eq_of_== j b same))
  | inr other ↦ Memᴰ.tail (Mem-contains js b (ground arith))
]

module _ (library : Graaf) (documented : Documented library) (edged : DocumentedEdges library) where
  open library use {Graph, has_vertex, delete_vertex, neighbors}
  open edged use {delete_linked}

  pub combine_there :
      (lhs rhs : Text) (i j : ℕ) (g : LibcCallgraph library)
      → find lhs g.vertex_id_map ≡ some i
      → find rhs g.vertex_id_map ≡ some j
      → (combine_vertex library lhs rhs g).graph
        ≡ delete_vertex j
            (redirect_all library i j (library.visited (redirect library i j) g.graph) g.graph)
  unfolding combine_vertex with_both drop_vertex
  combine_there lhs rhs i j g hi hj = ground arith

  -- Over a graph library as documented, where the names are in step with the vertices, both names
  -- are there, and the container of the edges is not rehashed in the loop of `combine_vertex`:
  -- after a merge of `rhs` into `lhs` there is an edge between two vertices other than `rhs`
  -- exactly where there was one, where it comes of an edge out of `rhs` to another vertex, or of an
  -- edge into `rhs` from a vertex other than `lhs` and `rhs`, or, from `lhs` to itself, where `rhs`
  -- has an edge to itself and the loop comes to an edge from `rhs` to `lhs`.
  pub linked-combine_vertex :
      (lhs rhs : Text) (i j : ℕ) (g : LibcCallgraph library) (a b : ℕ)
      → Consistent library documented g
      → find lhs g.vertex_id_map ≡ some i
      → find rhs g.vertex_id_map ≡ some j
      → library.rehashed (redirect library i j) g.graph ≡ false
      → has_vertex g.graph a ≡ true
      → has_vertex g.graph b ≡ true
      → a ≢ j
      → b ≢ j
      → linked library (combine_vertex library lhs rhs g).graph a b
        ≡ linked library g.graph a b
          || (((i == a) && linked library g.graph j b)
              || ((((i == b) && not (a == i)) && linked library g.graph a j)
                  || (((i == a) && (i == b))
                      && (linked library g.graph j j
                          && contains_edge (library.visited (redirect library i j) g.graph) j i))))
  linked-combine_vertex lhs rhs i j g a b h hi hj steady ha hb na nb =
      let es = library.visited (redirect library i j) g.graph in
      let there_i = (h lhs i hi).0 in
      ground (
        arith,
        combine_there lhs rhs i j g hi hj,
        delete_linked j (redirect_all library i j es g.graph) a b,
        linked-redirect_all library documented edged i j es g.graph a b there_i
            (seen-Visits library documented edged i j g.graph there_i),
        drawn-seen library documented edged i j g.graph a b there_i (h rhs j hj).0 steady ha hb na
            nb,
      )

  -- The edges from vertex to vertex, in any number.
  pub data Reach (g : Graph) (a : ℕ) : ℕ → Type 0 where
    stays : Reach g a a
    moves : {b c : ℕ} → Reach g a b → linked library g b c ≡ true → Reach g a c

  Reach-has : {g : Graph} {a b : ℕ} → has_vertex g a ≡ true → Reach g a b → has_vertex g b ≡ true
  Reach-has h stays = h
  Reach-has {g} h (moves {b} {c} r e) =
      documented.neighbors_has g b c (Reach-has h r) (Mem-contains (neighbors g b) c e)

  module _ (lhs rhs : Text) (i j : ℕ) (g : LibcCallgraph library)
      (h : Consistent library documented g) (hi : find lhs g.vertex_id_map ≡ some i)
      (hj : find rhs g.vertex_id_map ≡ some j)
      (steady : library.rehashed (redirect library i j) g.graph ≡ false) (apart : i ≢ j) where
    -- The vertex that a vertex becomes.
    abbrev pub merged : ℕ → ℕ
    merged a = if a == j then i else a

    -- An edge that is not between the two, and not of `rhs` to itself, is kept between the vertices
    -- that its ends become.
    pub edge_kept :
        (a b : ℕ)
        → has_vertex g.graph a ≡ true
        → has_vertex g.graph b ≡ true
        → linked library g.graph a b ≡ true
        → (merged a ≡ merged b)
          ⊎ (linked library (combine_vertex library lhs rhs g).graph (merged a) (merged b) ≡ true)
    edge_kept a b ha hb e = ground (
      arith,
      linked-combine_vertex lhs rhs i j g a b h hi hj steady ha hb,
      linked-combine_vertex lhs rhs i j g i b h hi hj steady (h lhs i hi).0 hb apart,
      linked-combine_vertex lhs rhs i j g a i h hi hj steady ha (h lhs i hi).0,
      linked-combine_vertex lhs rhs i j g i i h hi hj steady (h lhs i hi).0 (h lhs i hi).0 apart
          apart,
    )

    -- Over a graph library as documented, where the names are in step with the vertices, both names
    -- are there, with different vertices, and the container of the edges is not rehashed in the
    -- loop of `combine_vertex`: what can be reached from a vertex can be reached after the merge of
    -- the two names, from the vertex and to the vertex that the two ends have become.
    pub combine_vertex-Reach :
        {a b : ℕ}
        → has_vertex g.graph a ≡ true
        → Reach g.graph a b
        → Reach (combine_vertex library lhs rhs g).graph (merged a) (merged b)
    combine_vertex-Reach ha stays = stays
    combine_vertex-Reach {a} ha (moves {b} {c} r e) =
        let before = combine_vertex-Reach ha r in
        elim (edge_kept b c (Reach-has ha r) (Reach-has ha (moves r e)) e) [
          | inl same ↦ subst (Reach (combine_vertex library lhs rhs g).graph (merged a)) same before
          | inr kept ↦ moves before kept
        ]
