-- ===== src/Pass/Expand/Spells.antt =====
-- The path that `ExpandBBGraph` makes of a block.
use mathlib.Core.List.{Memᴰ}
use e0256_project_final.Base.{
  ℕ, ◌+◌, ◌≤◌, ◌^◌, ◌≡◌, refl, ◌∙◌, sym, subst, false, true, none, some, List, [], ◌∷◌, arith,
  length, map, Option-cases, inl, inr,
}
use e0256_project_final.Base.Text.{Text}
use e0256_project_final.Base.TextMap.{find}
use e0256_project_final.Graaf.{Graaf, Documented, DocumentedEdges, DocumentedLabels, contains}
use e0256_project_final.GraphLib.{LibcCallgraph, get_neighbors}
use e0256_project_final.GraphLib.Kept.{InStep-Kept}
use e0256_project_final.GraphLib.InStep.{InStep}
use e0256_project_final.GraphLib.Joined.{same_id, other_name, has_name, joined, joined_ids, there}
use e0256_project_final.Pass.Source.{FuncMeta}
use e0256_project_final.Pass.Expand.{call_vertex, chain, move_edges, last_name, expand_block}
use e0256_project_final.Pass.Expand.Keeps.{chain-Holds}
use e0256_project_final.Pass.Expand.Chain.{
  Spells, Fresh, has_apart, chain-Spells, chain_ends, chain_has, chain_name, last_name_fresh,
}
use e0256_project_final.Pass.Expand.Move.{member, move_joined, move-Spells}

module _ (library : Graaf) (documented : Documented library) (edged : DocumentedEdges library)
    (labelled : DocumentedLabels library) where
  member-names :
      (g : LibcCallgraph library) (js : List ℕ) (y : Text) (k : ℕ)
      → InStep library documented g
      → ((j : ℕ) → Memᴰ j js → library.has_vertex g.graph j ≡ true)
      → find y g.vertex_id_map ≡ some k
      → member (map (library.vertex g.graph) js) y ≡ contains js k
  unfolding member contains
  member-names g [] y k h has e = refl
  member-names g (j ∷ js) y k h has e = ground (
    arith,
    member-names g js y k h (λ i m. has i (Memᴰ.tail m)) e,
    same_id library documented edged (library.vertex g.graph j) y j k g h
        (h.named j (has j (Memᴰ.head refl))) e,
  )

  member-no_name :
      (g : LibcCallgraph library) (js : List ℕ) (y : Text)
      → InStep library documented g
      → ((j : ℕ) → Memᴰ j js → library.has_vertex g.graph j ≡ true)
      → find y g.vertex_id_map ≡ none
      → member (map (library.vertex g.graph) js) y ≡ false
  unfolding member
  member-no_name g [] y h has e = refl
  member-no_name g (j ∷ js) y h has e = ground (
    arith,
    member-no_name g js y h (λ i m. has i (Memᴰ.tail m)) e,
    other_name library documented edged (library.vertex g.graph j) y j g
        (h.named j (has j (Memᴰ.head refl))) e,
  )

  -- The neighbours are the names to which there is an edge.
  pub member-get_neighbors :
      (g : LibcCallgraph library) (x y : Text)
      → InStep library documented g
      → member (get_neighbors library x g) y ≡ joined library g x y
  unfolding get_neighbors joined joined_ids member
  member-get_neighbors g x y h = elim (Option-cases (find x g.vertex_id_map)) [
    | inl no_x ↦ ground arith
    | inr (i, at_x) ↦
        let has = λ (j : ℕ). documented.neighbors_has g.graph i j (h.consistent x i at_x).0 in
        elim (Option-cases (find y g.vertex_id_map)) [
          | inl no_y ↦ ground (arith, member-no_name g (library.neighbors g.graph i) y h has no_y)
          | inr (k, at_y) ↦
              ground (arith, member-names g (library.neighbors g.graph i) y k h has at_y)
        ]
  ]

  pub not_member :
      (g : LibcCallgraph library) (vs : List Text) (z : Text)
      → (member vs z ≡ true → has_name library g z ≡ true)
      → has_name library g z ≡ false
      → member vs z ≡ false
  not_member g vs z named absent = ground (arith, named)

  pub joined-has_name :
      (g : LibcCallgraph library) (x y : Text)
      → joined library g x y ≡ true
      → has_name library g y ≡ true
  unfolding joined joined_ids has_name there
  joined-has_name g x y e = ground arith

  -- Over a graph library as documented, `ExpandBBGraph` makes of a block with calls, which are fewer
  -- than 2 ^ 31, a path that starts at the block and whose edges are labelled with the calls in
  -- their order; and the last vertex of the path has edges to exactly the names to which the block
  -- had edges. The block's name must be there, names and vertices must stand for one another, and no
  -- vertex may have the name of a call's vertex before.
  pub expand_block-Spells :
      (block call : Text) (calls : List Text) (m : FuncMeta library)
      → InStep library documented m.bb_expanded_graph
      → has_name library m.bb_expanded_graph block ≡ true
      → Fresh library m.bb_expanded_graph block 1
      → 1 + length (call ∷ calls) ≤ 2 ^ 31
      → Spells library
          (expand_block library (block, call ∷ calls) m).bb_expanded_graph
          block
          1
          block
          (call ∷ calls)
        × ((y : Text)
            → joined library
                (expand_block library (block, call ∷ calls) m).bb_expanded_graph
                (last_name library block 1 (call ∷ calls) [])
                y
              ≡ joined library m.bb_expanded_graph block y)
  unfolding expand_block last_name
  expand_block-Spells block call calls m h has_block fresh small =
      let g = m.bb_expanded_graph in
      let all = call ∷ calls in
      let vs = get_neighbors library block g in
      let r = chain library block 1 block all g in
      let name = chain_name library documented edged labelled block 1 block all g in
      let in_step =
        chain-Holds library (InStep-Kept library documented) block 1 block all g (λ _ _. tt) h in
      let ends =
        chain_ends library documented edged labelled block call 1 block calls g h has_block fresh
          small in
      let named = λ (z : Text) (e : member vs z ≡ true).
        joined-has_name g block z (sym (member-get_neighbors g block z h) ∙ e) in
      let new =
        last_name_fresh library documented edged labelled block 2 (call_vertex block call 1) calls g
          (λ other k above below. fresh other k (omega arith) below) (omega arith)
          (fresh call 1 (omega arith) (omega arith)) in
      let apart = has_apart library g block r.0 has_block (rw name new) in
      (
        move-Spells library documented edged labelled block r.0 apart vs block 1 block all r.1
            in_step
            (λ other k above below.
              not_member g vs (call_vertex block other k) (named (call_vertex block other k))
                (fresh other k above below))
            small
            (chain-Spells library documented edged labelled block 1 block all g h has_block fresh
              small),
        λ y.
            subst
              (λ v.
                joined library (move_edges library block r.0 vs r.1) v y ≡ joined library g block y)
              name
              (ground (
                arith,
                move_joined library documented edged labelled block r.0 apart vs r.1 y in_step
                    (chain_has library documented edged labelled block 1 block all g block
                      has_block)
                    ends.0
                    (λ z e.
                      chain_has library documented edged labelled block 1 block all g z
                        (named z e)),
                ends.1 y,
                member-get_neighbors g block y h,
              )),
      )
