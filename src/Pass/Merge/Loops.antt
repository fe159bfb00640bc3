-- ===== src/Pass/Merge/Loops.antt =====
-- What merging does to a vertex with a control edge to itself.
use mathlib.Core.List.{Memᴰ}
use mathlib.Core.List.Memᴰ
use e0256_project_final.Base.{
  ◌≡◌, subst, none, List, [], ◌∷◌, arith, Option-cases, List-cases, inl, inr,
}
use e0256_project_final.Base.Text.{Text, text_eq_refl}
use e0256_project_final.Base.TextMap.{find, find-erase}
use e0256_project_final.Graaf.{Graaf, Documented}
use e0256_project_final.GraphLib.{
  LibcCallgraph, combine_vertex, with_both, drop_vertex, get_control_edge_neighbors,
}
use e0256_project_final.GraphLib.Names.{combine_vertex_names}
use e0256_project_final.Pass.Merge.{Merging, merge_neighbors, merge_round}

module _ (library : Graaf) where
  -- The name is not there.
  abbrev Gone : Text → LibcCallgraph library → Type 0
  Gone v g = find v g.vertex_id_map ≡ none

  combine_vertex-Gone :
      (v lhs rhs : Text) (g : LibcCallgraph library)
      → Gone v g
      → Gone v (combine_vertex library lhs rhs g)
  unfolding combine_vertex with_both drop_vertex
  combine_vertex-Gone v lhs rhs g gone = ground (arith, find-erase rhs v g.vertex_id_map)

  merge_neighbors-Gone :
      (v w : Text) (ns : List Text) (m : Merging library)
      → Gone v m.graph
      → Gone v (merge_neighbors library w ns m).graph
  unfolding merge_neighbors
  merge_neighbors-Gone v w [] m gone = gone
  merge_neighbors-Gone v w (n ∷ ns) m gone =
      merge_neighbors-Gone v w ns _ (combine_vertex-Gone v w n m.graph gone)

  merge_round-Gone :
      (v : Text) (vs : List Text) (m : Merging library)
      → Gone v m.graph
      → Gone v (merge_round library vs m).1.graph
  unfolding merge_round
  merge_round-Gone v [] m gone = gone
  merge_round-Gone v (w ∷ vs) m gone =
      elim (List-cases (get_control_edge_neighbors library w m.graph)) [
        | inl still ↦ rw (merge_round, still) (merge_round-Gone v vs m gone)
        | inr (n, ns, e) ↦
            rw (merge_round, e) (merge_round-Gone v vs _ (merge_neighbors-Gone v w (n ∷ ns) m gone))
      ]

module _ (library : Graaf) (documented : Documented library) where
  -- A vertex that is merged with itself is gone.
  self_merged :
      (v : Text) (g : LibcCallgraph library) → Gone library v (combine_vertex library v v g)
  self_merged v g = elim (Option-cases (find v g.vertex_id_map)) [
    | inl absent ↦ combine_vertex-Gone library v v v g absent
    | inr (i, there) ↦
        ground (arith, combine_vertex_names library documented v v v g i there, text_eq_refl v)
  ]

  neighbors_vanish :
      (v : Text) (ns : List Text) (m : Merging library)
      → Memᴰ v ns
      → Gone library v (merge_neighbors library v ns m).graph
  unfolding merge_neighbors
  neighbors_vanish v [] m itself = absurd (Memᴰ.not-nil itself)
  neighbors_vanish v (n ∷ ns) m itself = elim (Memᴰ.cases_cons itself) [
    | inl same ↦ merge_neighbors-Gone library v v ns _ (
        subst (λ t. Gone library v (combine_vertex library v t m.graph)) same
          (self_merged v m.graph))
    | inr later ↦ neighbors_vanish v ns _ later
  ]

  -- Over a graph library as documented: where the round of `ConvertBBGraphToLibcCallGraph` comes to
  -- a vertex with a control edge to itself, the graph after the round has no vertex of this name.
  pub loop_vanishes :
      (v : Text) (vs : List Text) (m : Merging library)
      → Memᴰ v (get_control_edge_neighbors library v m.graph)
      → find v (merge_round library (v ∷ vs) m).1.graph.vertex_id_map ≡ none
  unfolding merge_round
  loop_vanishes v vs m itself = elim (List-cases (get_control_edge_neighbors library v m.graph)) [
    | inl alone ↦ absurd (Memᴰ.not-nil (rw alone at itself))
    | inr (n, ns, e) ↦
        rw (merge_round, e)
          (merge_round-Gone library v vs _ (neighbors_vanish v (n ∷ ns) m (rw e at itself)))
  ]
