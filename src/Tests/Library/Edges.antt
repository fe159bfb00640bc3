-- ===== src/Tests/Library/Edges.antt =====
-- The edges of the graph library made of lists, and the loops over them.

use e0256_project_final.Base.{
  ℕ, ◌≤◌, ◌≡◌, refl, true, false, ◌||◌, ◌&&◌, List, [], ◌∷◌, arith, ◌==◌, if◌then◌else◌, Bool-cases,
  inl, inr, ◌∙◌,
}
use e0256_project_final.Base.Text.{Text}
use e0256_project_final.Graaf.{
  contains, contains_edge, EndsIn, DocumentedEdges, linked, OnlyInserts, Visits, insert_list,
}
use e0256_project_final.Tests.Library.{
  Stored, has, has-without, without, drop_arrow, drop_arrows, ends_of, fresh_id, targets, arrow,
  between, LoopBody, is_edge, visit, visit_live, besides, edges_of_stored, stored_library,
}

pub linked-targets :
    (vs : List (ℕ × Text)) (a : ℕ) (es : List ((ℕ × ℕ) × Text)) (b : ℕ)
    → contains (targets vs a es) b ≡ has vs b && contains_edge es a b
unfolding targets contains contains_edge
linked-targets vs a [] b = ground arith
linked-targets vs a (((x, y), e) ∷ es) b = ground (arith, linked-targets vs a es b)

edge-between :
    (vs : List (ℕ × Text)) (all es : List ((ℕ × ℕ) × Text)) (a b : ℕ)
    → has vs a ≡ true
    → has vs b ≡ true
    → contains_edge (between vs all es) a b ≡ contains_edge es a b
unfolding between contains_edge
edge-between vs all [] a b ha hb = refl
edge-between vs all (((x, y), e) ∷ es) a b ha hb = ground (arith, edge-between vs all es a b ha hb)

between-EndsIn :
    (g : Stored) (all es : List ((ℕ × ℕ) × Text))
    → EndsIn stored_library g (between g.listed all es)
unfolding between
between-EndsIn g all [] = tt
between-EndsIn g all (((x, y), e) ∷ es) = elim (Bool-cases (has g.listed x && has g.listed y)) [
  | inl inside ↦ rw inside (ground arith, ground arith, between-EndsIn g all es)
  | inr outside ↦ rw outside (between-EndsIn g all es)
]

pub edge-drop_arrow :
    (i j : ℕ) (es : List ((ℕ × ℕ) × Text)) (a b : ℕ)
    → contains_edge (drop_arrow i j es) a b
      ≡ (if (i == a) && (j == b) then false else contains_edge es a b)
unfolding drop_arrow contains_edge
edge-drop_arrow i j [] a b = ground arith
edge-drop_arrow i j (((x, y), e) ∷ es) a b = ground (arith, edge-drop_arrow i j es a b)

pub edge-drop_arrows :
    (i : ℕ) (es : List ((ℕ × ℕ) × Text)) (a b : ℕ)
    → contains_edge (drop_arrows i es) a b
      ≡ (if (i == a) || (i == b) then false else contains_edge es a b)
unfolding drop_arrows contains_edge
edge-drop_arrows i [] a b = ground arith
edge-drop_arrows i (((x, y), e) ∷ es) a b = ground (arith, edge-drop_arrows i es a b)

no_ends :
    (es : List ((ℕ × ℕ) × Text)) (k b : ℕ)
    → ends_of es ≤ k
    → (contains_edge es k b ≡ false) × (contains_edge es b k ≡ false)
unfolding contains_edge ends_of
no_ends [] k b h = (refl, refl)
no_ends (((x, y), e) ∷ es) k b h =
    let rest = no_ends es k b (omega arith) in (ground (arith, rest.0), ground (arith, rest.1))

new_arrows :
    (g : Stored) (v : Text) (a b : ℕ)
    → has ((fresh_id g, v) ∷ g.listed) a ≡ true
    → has ((fresh_id g, v) ∷ g.listed) b ≡ true
    → contains (targets ((fresh_id g, v) ∷ g.listed) a g.arrows) b
      ≡ (has g.listed a && has g.listed b) && contains (targets g.listed a g.arrows) b
unfolding has
new_arrows g v a b ha hb = ground (
  arith,
  linked-targets ((fresh_id g, v) ∷ g.listed) a g.arrows b,
  linked-targets g.listed a g.arrows b,
  no_ends g.arrows a b,
  no_ends g.arrows b a,
)

insert_arrow :
    (i j : ℕ) (e : Text) (g : Stored) (a b : ℕ)
    → has g.listed i ≡ true
    → has g.listed j ≡ true
    → linked stored_library (stored_library.insert_edge i j e g) a b
      ≡ ((i == a) && (j == b)) || linked stored_library g a b
unfolding contains_edge
insert_arrow i j e g a b hi hj = ground (
  arith,
  linked-targets g.listed a (((i, j), e) ∷ drop_arrow i j g.arrows) b,
  linked-targets g.listed a g.arrows b,
  edge-drop_arrow i j g.arrows a b,
)

EndsIn-listed :
    (es : List ((ℕ × ℕ) × Text)) (g g' : Stored)
    → ((k : ℕ) → has g'.listed k ≡ has g.listed k)
    → EndsIn stored_library g es
    → EndsIn stored_library g' es
EndsIn-listed [] g g' same h = tt
EndsIn-listed (((x, y), e) ∷ es) g g' same h =
    (same x ∙ h.0, same y ∙ h.1, EndsIn-listed es g g' same h.2)

insert_list_kept :
    (es : List ((ℕ × ℕ) × Text)) (g : Stored)
    → EndsIn stored_library g es
    → ((k : ℕ) → has (insert_list stored_library es g).listed k ≡ has g.listed k)
      × ((a b : ℕ)
          → linked stored_library g a b ≡ true
          → linked stored_library (insert_list stored_library es g) a b ≡ true)
insert_list_kept [] g h = (λ k. refl, λ a b l. l)
insert_list_kept (((x, y), e) ∷ es) g h =
    let g' = stored_library.insert_edge x y e g in
    let rest = insert_list_kept es g' (EndsIn-listed es g g' (λ k. refl) h.2) in
    (rest.0, λ a b l. rest.1 a b (ground (arith, insert_arrow x y e g a b h.0 h.1)))

visit-Visits :
    (body : LoopBody) (es : List ((ℕ × ℕ) × Text)) (g : Stored)
    (later : Stored → List ((ℕ × ℕ) × Text))
    → ((g' : Stored) → Visits stored_library body g' (later g'))
    → Visits stored_library body g (visit body es g later)
unfolding visit
visit-Visits body [] g later h = h g
visit-Visits body (((x, y), label) ∷ es) g later h = elim (Bool-cases (is_edge g x y)) [
  | inr gone ↦ rw (visit, gone) (visit-Visits body es g later h)
  | inl there ↦
      rw (visit, there)
        (
          ground arith,
          ground arith,
          ground arith,
          refl,
          visit-Visits body es (body ((x, y), arrow x y g.arrows) g) later h,
        )
]

visit_live-Visits :
    (body : LoopBody) (g : Stored) → Visits stored_library body g (visit_live body g)
unfolding visit_live
visit_live-Visits body g = visit-Visits body (edges_of_stored g) g _ (λ g'.
    visit-Visits body (besides (edges_of_stored g) (edges_of_stored g')) g' (λ _. []) (λ g''. tt))

visit_all :
    (body : LoopBody) (g0 : Stored) (es : List ((ℕ × ℕ) × Text)) (g : Stored)
    (later : Stored → List ((ℕ × ℕ) × Text)) (a b : ℕ)
    → OnlyInserts stored_library body g0
    → ((k : ℕ) → has g.listed k ≡ has g0.listed k)
    → has g0.listed a ≡ true
    → has g0.listed b ≡ true
    → linked stored_library g a b ≡ true
    → contains_edge es a b ≡ true
    → contains_edge (visit body es g later) a b ≡ true
unfolding visit contains_edge
visit_all body g0 [] g later a b only same ha hb l m = cc
visit_all body g0 (((x, y), label) ∷ es) g later a b only same ha hb l m =
    elim (Bool-cases (is_edge g x y)) [
      | inr gone ↦
          rw (visit, gone)
            (visit_all body g0 es g later a b only same ha hb l (ground (arith, same a, same b)))
      | inl there ↦
          let e : (ℕ × ℕ) × Text = ((x, y), arrow x y g.arrows) in
          let (es', inserts, ends) =
            only x y (arrow x y g.arrows) g same (ground (arith, same x))
              (ground (arith, same y)) in
          let kept = insert_list_kept es' g ends in
          let same' : (k : ℕ) → has (body e g).listed k ≡ has g0.listed k =
            λ k. rw inserts (kept.0 k ∙ same k) in
          let l' : linked stored_library (body e g) a b ≡ true = rw inserts (kept.1 a b l) in
          rw (visit, there)
            (elim (Bool-cases ((x == a) && (y == b))) [
              | inl here ↦ ground arith
              | inr other ↦
                  ground (arith, visit_all body g0 es (body e g) later a b only same' ha hb l')
            ])
    ]

visit_live_all :
    (body : LoopBody) (g : Stored)
    → OnlyInserts stored_library body g
    → (a b : ℕ) → has g.listed a ≡ true
    → has g.listed b ≡ true
    → linked stored_library g a b ≡ true
    → contains_edge (visit_live body g) a b ≡ true
unfolding visit_live
visit_live_all body g only a b ha hb l =
    visit_all body g (edges_of_stored g) g _ a b only (λ k. refl) ha hb l
      (ground (
        arith,
        edge-between g.listed g.arrows g.arrows a b ha hb,
        linked-targets g.listed a g.arrows b,
      ))

pub stored-DocumentedEdges : DocumentedEdges stored_library
unfolding contains_edge
stored-DocumentedEdges = record {
  edges_ends = λ g. between-EndsIn g g.arrows g.arrows;
  edges_linked = λ g a b ha hb. ground (
    arith,
    edge-between g.listed g.arrows g.arrows a b ha hb,
    linked-targets g.listed a g.arrows b,
  );
  new_linked = λ v g. new_arrows g v;
  insert_linked = insert_arrow;
  visited_there = λ body g only. visit_live-Visits body g;
  visited_all = λ body g only steady. visit_live_all body g only;
  delete_linked = λ i g a b. ground (
    arith,
    linked-targets (without i g.listed) a (drop_arrows i g.arrows) b,
    linked-targets g.listed a g.arrows b,
    has-without i g.listed b,
    edge-drop_arrows i g.arrows a b,
  );
}
