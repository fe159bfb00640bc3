-- ===== src/GraphLib/AllLabels.antt =====
-- A property that all labels of a graph have is kept by every operation of the graph.
use mathlib.Core.List.{Memᴰ}
use mathlib.Core.List.Memᴰ
use e0256_project_final.Base.{
  ℕ, true, false, ◌&&◌, List, [], ◌∷◌, ◌≡◌, ap, ◌∙◌, sym, subst, arith, ◌==◌, if◌then◌else◌,
  Bool-cases, inl, inr, eq_of_==,
}
use e0256_project_final.Base.Text.{Text}
use e0256_project_final.Graaf.{
  Graaf, Documented, DocumentedEdges, DocumentedLabels, linked, EndsIn, contains_edge, Visits,
}
use e0256_project_final.GraphLib.{redirect, redirect_all}
use e0256_project_final.GraphLib.Names.{redirect_kept}

-- A listed edge is among those that are looked for.
contains_edge_listed :
    (es : List ((ℕ × ℕ) × Text)) (a b : ℕ) (label : Text)
    → Memᴰ ((a, b), label) es
    → contains_edge es a b ≡ true
unfolding contains_edge
contains_edge_listed [] a b label m = absurd (Memᴰ.not-nil m)
contains_edge_listed (((x, y), e) ∷ es) a b label m = elim (Memᴰ.cases_cons m) [
  | inl same ↦
      let at_a : a ≡ x = ap (λ (t : (ℕ × ℕ) × Text). t.0.0) same in
      let at_b : b ≡ y = ap (λ (t : (ℕ × ℕ) × Text). t.0.1) same in ground arith
  | inr later ↦ ground (arith, contains_edge_listed es a b label later)
]

listed_ends :
    (library : Graaf) (g : library.Graph) (es : List ((ℕ × ℕ) × Text)) (a b : ℕ) (label : Text)
    → EndsIn library g es
    → Memᴰ ((a, b), label) es
    → (library.has_vertex g a ≡ true) × (library.has_vertex g b ≡ true)
listed_ends library g [] a b label h m = absurd (Memᴰ.not-nil m)
listed_ends library g (((x, y), e) ∷ es) a b label h m = elim (Memᴰ.cases_cons m) [
  | inl same ↦
      let at_a : a ≡ x = ap (λ (t : (ℕ × ℕ) × Text). t.0.0) same in
      let at_b : b ≡ y = ap (λ (t : (ℕ × ℕ) × Text). t.0.1) same in
      (ap (λ i. library.has_vertex g i) at_a ∙ h.0, ap (λ i. library.has_vertex g i) at_b ∙ h.1)
  | inr later ↦ listed_ends library g es a b label h.2 later
]

module _ (library : Graaf) (documented : Documented library) (edged : DocumentedEdges library)
    (labelled : DocumentedLabels library) (P : Text → Type 0) where
  open library use {Graph, has_vertex, insert_edge, delete_edge, delete_vertex, edge, edges, vertex}
  open documented use {insert_has}

  -- The edges between vertices have labels with the property.
  abbrev pub AllLabels : Graph → Type 0
  AllLabels g =
      (a b : ℕ)
      → has_vertex g a ≡ true
      → has_vertex g b ≡ true
      → linked library g a b ≡ true
      → P (edge g a b)

  -- The listed edges have labels with the property.
  abbrev pub Listed : List ((ℕ × ℕ) × Text) → Type 0
  Listed es = (a b : ℕ) (label : Text) → Memᴰ ((a, b), label) es → P label

  pub insert_edge-AllLabels :
      (i j : ℕ) (e : Text) (g : Graph)
      → has_vertex g i ≡ true
      → has_vertex g j ≡ true
      → P e
      → AllLabels g
      → AllLabels (insert_edge i j e g)
  insert_edge-AllLabels i j e g hi hj fits all a b ha hb l =
      elim (Bool-cases ((i == a) && (j == b))) [
        | inl same ↦
            let at_a : i ≡ a = eq_of_== i a (ground arith) in
            let at_b : j ≡ b = eq_of_== j b (ground arith) in
            let here : P (edge (insert_edge i j e g) i j) =
              elim (Bool-cases (linked library g i j)) [
                | inr new ↦ subst P (sym (labelled.insert_label i j e g hi hj new)) fits
                | inl old ↦ elim (labelled.insert_again i j e g hi hj old) [
                  | inl given ↦ subst P (sym given) fits
                  | inr stays ↦ subst P (sym stays) (all i j hi hj old)
                ]
              ] in
            let g' = insert_edge i j e g in
            subst (λ x. P (edge g' x b)) at_a (subst (λ y. P (edge g' i y)) at_b here)
        | inr other ↦
            let old : linked library g a b ≡ true =
              ground (arith, edged.insert_linked i j e g a b hi hj) in
            subst P (sym (labelled.insert_label_other i j e g a b old other))
              (all a b (sym (insert_has i j e g a) ∙ ha) (sym (insert_has i j e g b) ∙ hb) old)
      ]

  redirect-AllLabels :
      (i j x y : ℕ) (label : Text) (g : Graph)
      → has_vertex g i ≡ true
      → has_vertex g x ≡ true
      → has_vertex g y ≡ true
      → P label
      → AllLabels g
      → AllLabels (redirect library i j ((x, y), label) g)
  unfolding redirect
  redirect-AllLabels i j x y label g hi hx hy fits all =
      let out : Graph = if x == j then insert_edge i y label g else g in
      let has : (k : ℕ) → has_vertex out k ≡ has_vertex g k =
        λ k. ground (arith, insert_has i y label g k) in
      let drawn : AllLabels out = elim (Bool-cases (x == j)) [
        | inl out_of ↦ rw out_of (insert_edge-AllLabels i y label g hi hy fits all)
        | inr other ↦ rw other all
      ] in
      elim (Bool-cases (y == j)) [
        | inr other ↦ rw other drawn
        | inl into ↦ elim (Bool-cases (x == i)) [
          | inl loop ↦ rw (into, loop) drawn
          | inr apart ↦
              rw (into, apart)
                (insert_edge-AllLabels x i label out (has x ∙ hx) (has i ∙ hi) fits drawn)
        ]
      ]

  pub redirect_all-AllLabels :
      (i j : ℕ) (es : List ((ℕ × ℕ) × Text)) (g : Graph)
      → has_vertex g i ≡ true
      → Visits library (redirect library i j) g es
      → AllLabels g
      → AllLabels (redirect_all library i j es g)
  unfolding redirect_all
  redirect_all-AllLabels i j [] g hi h all = all
  redirect_all-AllLabels i j (((x, y), label) ∷ es) g hi h all =
      let e : (ℕ × ℕ) × Text = ((x, y), label) in
      let (hx, hy, there, named, later) = h in
      redirect_all-AllLabels i j es (redirect library i j e g)
        ((redirect_kept library documented i j e g i).0 ∙ hi) later
        (redirect-AllLabels i j x y label g hi hx hy (subst P named (all x y hx hy there)) all)

  pub delete_vertex-AllLabels : (i : ℕ) (g : Graph) → AllLabels g → AllLabels (delete_vertex i g)
  delete_vertex-AllLabels i g all a b ha hb l = subst P (sym (labelled.delete_label i g a b l)) (
      all a b (ground (arith, documented.delete_has i g a))
        (ground (arith, documented.delete_has i g b)) (ground (arith, edged.delete_linked i g a b)))

  pub delete_edge-AllLabels : (i j : ℕ) (g : Graph) → AllLabels g → AllLabels (delete_edge i j g)
  delete_edge-AllLabels i j g all a b ha hb l =
      let link = labelled.delete_edge_linked i j g a b in
      let old : linked library g a b ≡ true = ground arith in
      let other : (i == a) && (j == b) ≡ false = ground arith in
      subst P (sym (labelled.delete_edge_label i j g a b old other)) (
        all a b (sym (documented.delete_edge_has i j g a) ∙ ha)
          (sym (documented.delete_edge_has i j g b) ∙ hb) old)

  -- `get_edges` lists labels with the property.
  pub edges-Listed : (g : Graph) → AllLabels g → Listed (edges g)
  edges-Listed g all a b label m =
      let (ha, hb) = listed_ends library g (edges g) a b label (edged.edges_ends g) m in
      let l = sym (edged.edges_linked g a b ha hb) ∙ contains_edge_listed (edges g) a b label m in
      subst P (labelled.edges_label g a b label m) (all a b ha hb l)

  pub new_vertex-AllLabels :
      (v : Text) (g : Graph) → AllLabels g → AllLabels (library.new_vertex v g).1
  new_vertex-AllLabels v g all a b ha hb l =
      let link = edged.new_linked v g a b ha hb in
      let old : linked library g a b ≡ true = ground arith in
      subst P (sym (labelled.new_label v g a b old)) (all a b (ground arith) (ground arith) old)
