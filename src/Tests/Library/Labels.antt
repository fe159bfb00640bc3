-- ===== src/Tests/Library/Labels.antt =====
-- The labels of the edges of the graph library made of lists.
use mathlib.Core.List.{Memᴰ}
use mathlib.Core.List.Memᴰ
use e0256_project_final.Base.{
  ℕ, ◌≡◌, refl, false, ◌||◌, ◌&&◌, List, [], ◌∷◌, arith, ◌==◌, Bool-cases, inl, inr,
}
use e0256_project_final.Base.Text.{Text}
use e0256_project_final.Graaf.{DocumentedLabels}
use e0256_project_final.Tests.Library.{
  has, without, drop_arrow, drop_arrows, arrow, between, stored_library,
}
use e0256_project_final.Tests.Library.Edges.{linked-targets, edge-drop_arrow, edge-drop_arrows}

between_label :
    (vs : List (ℕ × Text)) (all es : List ((ℕ × ℕ) × Text)) (a b : ℕ) (label : Text)
    → Memᴰ ((a, b), label) (between vs all es)
    → arrow a b all ≡ label
unfolding between
between_label vs all [] a b label m = absurd (Memᴰ.not-nil m)
between_label vs all (((x, y), e) ∷ es) a b label m = elim (Bool-cases (has vs x && has vs y)) [
  | inl inside ↦ elim (Memᴰ.cases_cons (rw (inside, between) at m)) [
    | inl same ↦ cc
    | inr later ↦ between_label vs all es a b label later
  ]
  | inr outside ↦ between_label vs all es a b label (rw (outside, between) at m)
]

arrow-drop_arrow :
    (i j : ℕ) (es : List ((ℕ × ℕ) × Text)) (a b : ℕ)
    → (i == a) && (j == b) ≡ false
    → arrow a b (drop_arrow i j es) ≡ arrow a b es
unfolding arrow drop_arrow
arrow-drop_arrow i j [] a b h = refl
arrow-drop_arrow i j (((x, y), e) ∷ es) a b h = ground (arith, arrow-drop_arrow i j es a b h)

arrow-drop_arrows :
    (i : ℕ) (es : List ((ℕ × ℕ) × Text)) (a b : ℕ)
    → (i == a) || (i == b) ≡ false
    → arrow a b (drop_arrows i es) ≡ arrow a b es
unfolding arrow drop_arrows
arrow-drop_arrows i [] a b h = refl
arrow-drop_arrows i (((x, y), e) ∷ es) a b h = ground (arith, arrow-drop_arrows i es a b h)

pub stored-DocumentedLabels : DocumentedLabels stored_library
unfolding arrow
stored-DocumentedLabels = record {
  delete_edge_linked = λ i j g a b. ground (
    arith,
    linked-targets g.listed a (drop_arrow i j g.arrows) b,
    linked-targets g.listed a g.arrows b,
    edge-drop_arrow i j g.arrows a b,
  );
  insert_label = λ i j e g hi hj apart. ground arith;
  insert_label_other =
      λ i j e g a b there other. ground (arith, arrow-drop_arrow i j g.arrows a b other);
  delete_edge_label = λ i j g a b there other. arrow-drop_arrow i j g.arrows a b other;
  new_label = λ v g a b there. refl;
  insert_again = λ i j e g hi hj there. inl (ground arith);
  delete_label = λ i g a b there. arrow-drop_arrows i g.arrows a b (
      ground (
        arith,
        linked-targets (without i g.listed) a (drop_arrows i g.arrows) b,
        edge-drop_arrows i g.arrows a b,
      ));
  edges_label = λ g a b label m. between_label g.listed g.arrows g.arrows a b label m;
}
