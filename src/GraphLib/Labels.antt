-- ===== src/GraphLib/Labels.antt =====
-- The labels of the edges between names.
use e0256_project_final.Base.{
  ℕ, Bool, true, false, ◌&&◌, some, ◌≡◌, refl, ◌∙◌, arith, ◌==◌, if◌then◌else◌, Option-cases, inl,
  inr,
}
use e0256_project_final.Base.Text.{Text, text_eq, text_eq_iff}
use e0256_project_final.Base.TextMap.{find, find-assign}
use e0256_project_final.Graaf.{Graaf, Documented, DocumentedEdges, DocumentedLabels, linked}
use e0256_project_final.GraphLib.{
  LibcCallgraph, add_vertex, create_vertex, add_edge, remove_edge, with_both,
}
use e0256_project_final.GraphLib.InStep.{InStep}
use e0256_project_final.GraphLib.Joined.{has_name, joined, joined_ids, there, same_id, found}

module _ (library : Graaf) where
  -- There is an edge with this label between the names.
  pub record Labelled (g : LibcCallgraph library) (x y label : Text) : Type 0 where
    pub from : ℕ
    pub to : ℕ
    pub from_id : find x g.vertex_id_map ≡ some from
    pub to_id : find y g.vertex_id_map ≡ some to
    pub edge_there : linked library g.graph from to ≡ true
    pub label_there : library.edge g.graph from to ≡ label

module _ (library : Graaf) (documented : Documented library) (edged : DocumentedEdges library)
    (labelled : DocumentedLabels library) where
  open library use {Graph, new_vertex, insert_edge, delete_edge, has_vertex, edge}

  pub Labelled-has_name :
      (g : LibcCallgraph library) (x y label : Text)
      → Labelled library g x y label
      → (has_name library g x ≡ true) × (has_name library g y ≡ true)
  unfolding has_name there
  Labelled-has_name g x y label h = (rw h.from_id refl, rw h.to_id refl)

  pub Labelled-add_vertex :
      (v : Text) (calls : Bool) (g : LibcCallgraph library) (x y label : Text)
      → InStep library documented g
      → Labelled library g x y label
      → Labelled library (add_vertex library v calls g).1 x y label
  unfolding add_vertex create_vertex
  Labelled-add_vertex v calls g x y label h e = elim (Option-cases (find v g.vertex_id_map)) [
    | inr (i, old) ↦ rw (add_vertex, old) e
    | inl new ↦
        let id = (new_vertex v g.graph).0 in
        let in_g = h.consistent x e.from e.from_id in
        let in_g' = h.consistent y e.to e.to_id in
        let has = λ (k : ℕ). documented.new_has v g.graph k in
        let link =
          edged.new_linked v g.graph e.from e.to (ground (arith, has e.from, in_g.0))
            (ground (arith, has e.to, in_g'.0)) in
        rw (add_vertex, new)
          (record {
            from = e.from;
            to = e.to;
            from_id =
                ground (arith, find-assign v x id g.vertex_id_map, text_eq_iff v x, e.from_id);
            to_id = ground (arith, find-assign v y id g.vertex_id_map, text_eq_iff v y, e.to_id);
            edge_there = ground (arith, link, in_g.0, in_g'.0, e.edge_there);
            label_there = labelled.new_label v g.graph e.from e.to e.edge_there ∙ e.label_there;
          })
  ]

  -- Another edge that is added or removed leaves it as it is.
  pub Labelled-add_edge :
      (a b label' : Text) (g : LibcCallgraph library) (x y label : Text)
      → InStep library documented g
      → text_eq b y ≡ false
      → Labelled library g x y label
      → Labelled library (add_edge library a b label' g) x y label
  unfolding add_edge with_both
  Labelled-add_edge a b label' g x y label h other e =
      elim (Option-cases (find a g.vertex_id_map)) [
        | inl no_a ↦ rw (add_edge, with_both, no_a) e
        | inr (i, at_a) ↦ elim (Option-cases (find b g.vertex_id_map)) [
          | inl no_b ↦ rw (add_edge, with_both, at_a, no_b) e
          | inr (j, at_b) ↦
              let apart : (i == e.from) && (j == e.to) ≡ false =
                ground
                  (arith, same_id library documented edged b y j e.to g h at_b e.to_id, other) in
              let link =
                edged.insert_linked i j label' g.graph e.from e.to (h.consistent a i at_a).0
                  (h.consistent b j at_b).0 in
              rw (add_edge, with_both, at_a, at_b)
                (record {
                  from = e.from;
                  to = e.to;
                  from_id = e.from_id;
                  to_id = e.to_id;
                  edge_there = ground (arith, link, apart, e.edge_there);
                  label_there =
                      labelled.insert_label_other i j label' g.graph e.from e.to e.edge_there apart
                      ∙ e.label_there;
                })
        ]
      ]

  pub Labelled-remove_edge :
      (a b : Text) (g : LibcCallgraph library) (x y label : Text)
      → InStep library documented g
      → text_eq b y ≡ false
      → Labelled library g x y label
      → Labelled library (remove_edge library a b g) x y label
  unfolding remove_edge with_both
  Labelled-remove_edge a b g x y label h other e = elim (Option-cases (find a g.vertex_id_map)) [
    | inl no_a ↦ rw (remove_edge, with_both, no_a) e
    | inr (i, at_a) ↦ elim (Option-cases (find b g.vertex_id_map)) [
      | inl no_b ↦ rw (remove_edge, with_both, at_a, no_b) e
      | inr (j, at_b) ↦
          let apart : (i == e.from) && (j == e.to) ≡ false =
            ground (arith, same_id library documented edged b y j e.to g h at_b e.to_id, other) in
          let link = labelled.delete_edge_linked i j g.graph e.from e.to in
          rw (remove_edge, with_both, at_a, at_b)
            (record {
              from = e.from;
              to = e.to;
              from_id = e.from_id;
              to_id = e.to_id;
              edge_there = ground (arith, link, apart, e.edge_there);
              label_there =
                  labelled.delete_edge_label i j g.graph e.from e.to e.edge_there apart
                  ∙ e.label_there;
            })
    ]
  ]

  -- Where there was no edge, the one that is added has its label.
  pub Labelled-new_edge :
      (a b label : Text) (g : LibcCallgraph library)
      → InStep library documented g
      → has_name library g a ≡ true
      → has_name library g b ≡ true
      → joined library g a b ≡ false
      → Labelled library (add_edge library a b label g) a b label
  unfolding add_edge with_both joined joined_ids
  Labelled-new_edge a b label g h ha hb apart =
      let (i, at_a) = found library documented edged a g ha in
      let (j, at_b) = found library documented edged b g hb in
      let there_a = (h.consistent a i at_a).0 in
      let there_b = (h.consistent b j at_b).0 in
      let link = edged.insert_linked i j label g.graph i j there_a there_b in
      let none_before : linked library g.graph i j ≡ false = rw (at_a, at_b) at apart in
      rw (add_edge, with_both, at_a, at_b)
        (record {
          from = i;
          to = j;
          from_id = at_a;
          to_id = at_b;
          edge_there = ground (arith, link);
          label_there = labelled.insert_label i j label g.graph there_a there_b none_before;
        })

  pub has_name-remove_edge :
      (a b : Text) (g : LibcCallgraph library) (x : Text)
      → has_name library (remove_edge library a b g) x ≡ has_name library g x
  unfolding has_name remove_edge with_both
  has_name-remove_edge a b g x = ground arith

  -- Between two names that are there their edge is removed, and no other.
  pub joined-remove_edge :
      (a b : Text) (g : LibcCallgraph library) (x y : Text)
      → InStep library documented g
      → has_name library g a ≡ true
      → has_name library g b ≡ true
      → joined library (remove_edge library a b g) x y
        ≡ (if text_eq a x && text_eq b y then false else joined library g x y)
  unfolding joined joined_ids remove_edge with_both
  joined-remove_edge a b g x y h ha hb =
      let (i, at_a) = found library documented edged a g ha in
      let (j, at_b) = found library documented edged b g hb in
      let delete = λ (k l : ℕ). labelled.delete_edge_linked i j g.graph k l in
      elim (Option-cases (find x g.vertex_id_map)) [
        | inl no_x ↦ ground arith
        | inr (k, at_x) ↦ elim (Option-cases (find y g.vertex_id_map)) [
          | inl no_y ↦ ground arith
          | inr (l, at_y) ↦ ground (
            arith,
            delete k l,
            same_id library documented edged a x i k g h at_a at_x,
            same_id library documented edged b y j l g h at_b at_y,
          )
        ]
      ]
