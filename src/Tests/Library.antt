-- ===== src/Tests/Library.antt =====
-- A graph library made of lists, which does what graaf documents, and GraphLib over it.
pub mod Edges
pub mod Labels
use mathlib.Core.List.{Memᴰ}
use mathlib.Core.List.Memᴰ
use e0256_project_final.Base.{
  ℕ, suc, ◌+◌, ◌≤◌, ◌≡◌, refl, Bool, true, false, ◌||◌, ◌&&◌, List, [], ◌∷◌, arith, ◌==◌,
  if◌then◌else◌, Bool-cases, inl, inr, ap, sym, ◌∙◌, eq_of_==,
}
use e0256_project_final.Base.Text.{Text}
use e0256_project_final.Graaf.{Graaf, Documented, contains, contains_edge, DocumentedVertices}

pub record Stored : Type 0 where
  pub listed : List (ℕ × Text)
  pub arrows : List ((ℕ × ℕ) × Text)

unfoldable pub has : List (ℕ × Text) → ℕ → Bool
has [] k = false
has ((i, v) ∷ vs) k = (i == k) || has vs k

unfoldable pub name_of : List (ℕ × Text) → ℕ → Text
name_of [] k = []
name_of ((i, v) ∷ vs) k = if i == k then v else name_of vs k

unfoldable pub next_id : List (ℕ × Text) → ℕ
next_id [] = 0
next_id ((i, v) ∷ vs) = suc (i + next_id vs)

-- More than every vertex that an arrow has at its ends.
unfoldable pub ends_of : List ((ℕ × ℕ) × Text) → ℕ
ends_of [] = 0
ends_of (((a, b), e) ∷ es) = suc (a + b + ends_of es)

abbrev pub fresh_id : Stored → ℕ
fresh_id g = next_id g.listed + ends_of g.arrows

unfoldable pub without : ℕ → List (ℕ × Text) → List (ℕ × Text)
without k [] = []
without k ((i, v) ∷ vs) = if k == i then without k vs else (i, v) ∷ without k vs

unfoldable pub drop_arrow : ℕ → ℕ → List ((ℕ × ℕ) × Text) → List ((ℕ × ℕ) × Text)
drop_arrow i j [] = []
drop_arrow i j (((a, b), e) ∷ es) =
    let rest = drop_arrow i j es in
    if a == i then (if b == j then rest else ((a, b), e) ∷ rest) else ((a, b), e) ∷ rest

unfoldable pub drop_arrows : ℕ → List ((ℕ × ℕ) × Text) → List ((ℕ × ℕ) × Text)
drop_arrows i [] = []
drop_arrows i (((a, b), e) ∷ es) =
    if (a == i) || (b == i) then drop_arrows i es else ((a, b), e) ∷ drop_arrows i es

unfoldable pub targets : List (ℕ × Text) → ℕ → List ((ℕ × ℕ) × Text) → List ℕ
targets vs i [] = []
targets vs i (((a, b), e) ∷ es) =
    if (a == i) && has vs b then b ∷ targets vs i es else targets vs i es

unfoldable pub arrow : ℕ → ℕ → List ((ℕ × ℕ) × Text) → Text
arrow i j [] = []
arrow i j (((a, b), e) ∷ es) =
    let rest = arrow i j es in if a == i then (if b == j then e else rest) else rest

-- Each listed edge with the label that `arrow` reads for it.
unfoldable pub between :
    List (ℕ × Text) → List ((ℕ × ℕ) × Text) → List ((ℕ × ℕ) × Text) → List ((ℕ × ℕ) × Text)
between vs all [] = []
between vs all (((a, b), e) ∷ es) =
    let rest = between vs all es in
    if has vs a && has vs b then ((a, b), arrow a b all) ∷ rest else rest

-- The listed edges that are not among others.
unfoldable pub besides : List ((ℕ × ℕ) × Text) → List ((ℕ × ℕ) × Text) → List ((ℕ × ℕ) × Text)
besides old [] = []
besides old (((a, b), e) ∷ es) =
    let rest = besides old es in if contains_edge old a b then rest else ((a, b), e) ∷ rest

abbrev pub LoopBody : Type 0
LoopBody = (ℕ × ℕ) × Text → Stored → Stored

abbrev pub is_edge : Stored → ℕ → ℕ → Bool
is_edge g x y = (has g.listed x && has g.listed y) && contains (targets g.listed x g.arrows) y

-- A loop over a list of edges, as far as they are there when it comes to them, and what comes later.
unfoldable pub visit :
    LoopBody
    → List ((ℕ × ℕ) × Text)
    → Stored
    → (Stored → List ((ℕ × ℕ) × Text))
    → List ((ℕ × ℕ) × Text)
visit body [] g later = later g
visit body (((x, y), label) ∷ es) g later = elim (is_edge g x y) [
  | false ↦ visit body es g later
  | true ↦
      let e : (ℕ × ℕ) × Text = ((x, y), arrow x y g.arrows) in e ∷ visit body es (body e g) later
]

abbrev pub edges_of_stored : Stored → List ((ℕ × ℕ) × Text)
edges_of_stored g = between g.listed g.arrows g.arrows

-- The edges that were there at first, and then those that the body has inserted meanwhile.
unfoldable pub visit_live : LoopBody → Stored → List ((ℕ × ℕ) × Text)
visit_live body g =
    visit body (edges_of_stored g) g
      λ g'. visit body (besides (edges_of_stored g) (edges_of_stored g')) g' (λ _. [])

abbrev pub stored_library : Graaf
stored_library = record {
  Graph = Stored;
  empty = record { listed = []; arrows = [] };
  new_vertex = λ v g. (fresh_id g, record g { listed = (fresh_id g, v) ∷ g.listed });
  insert_edge = λ i j e g. record g { arrows = ((i, j), e) ∷ drop_arrow i j g.arrows };
  delete_edge = λ i j g. record g { arrows = drop_arrow i j g.arrows };
  delete_vertex = λ i g. record { listed = without i g.listed; arrows = drop_arrows i g.arrows };
  has_vertex = λ g i. has g.listed i;
  vertices = λ g. g.listed;
  edges = edges_of_stored;
  neighbors = λ g i. targets g.listed i g.arrows;
  vertex = λ g i. name_of g.listed i;
  edge = λ g i j. arrow i j g.arrows;
  visited = visit_live;
  rehashed = λ body g. false;
}

has_next : (vs : List (ℕ × Text)) (k : ℕ) → next_id vs ≤ k → has vs k ≡ false
unfolding has next_id
has_next [] k h = refl
has_next ((i, v) ∷ vs) k h = ground (arith, has_next vs k)

pub has-without :
    (i : ℕ) (vs : List (ℕ × Text)) (k : ℕ)
    → has (without i vs) k ≡ (if i == k then false else has vs k)
unfolding has without
has-without i [] k = ground arith
has-without i ((j, v) ∷ vs) k = ground (arith, has-without i vs k)

name_of-without :
    (i : ℕ) (vs : List (ℕ × Text)) (k : ℕ)
    → has (without i vs) k ≡ true
    → name_of (without i vs) k ≡ name_of vs k
unfolding has without name_of
name_of-without i [] k h = refl
name_of-without i ((j, v) ∷ vs) k h = ground (arith, name_of-without i vs k, has-without i vs k)

and_right : (p q : Bool) → p && q ≡ true → q ≡ true
and_right p q h = ground arith

targets-has :
    (vs : List (ℕ × Text)) (i : ℕ) (es : List ((ℕ × ℕ) × Text)) (j : ℕ)
    → Memᴰ j (targets vs i es)
    → has vs j ≡ true
unfolding targets
targets-has vs i [] j m = absurd (Memᴰ.not-nil m)
targets-has vs i (((a, b), e) ∷ es) j m = elim (Bool-cases ((a == i) && has vs b)) [
  | inl there ↦ elim (Memᴰ.cases_cons (rw there at m)) [
    | inl same ↦ rw same (and_right (a == i) (has vs b) there)
    | inr later ↦ targets-has vs i es j later
  ]
  | inr not_there ↦ targets-has vs i es j (rw not_there at m)
]

pub stored-Documented : Documented stored_library
unfolding has name_of
stored-Documented = record {
  empty_has = λ i. refl;
  new_fresh = λ v g. has_next g.listed (fresh_id g) (omega arith);
  new_has = λ v g i. refl;
  new_vertex_self = λ v g. ground arith;
  new_vertex_other = λ v g i h. ground (arith, has_next g.listed i);
  insert_has = λ i j e g k. refl;
  insert_vertex = λ i j e g k. refl;
  delete_edge_has = λ i j g k. refl;
  delete_edge_vertex = λ i j g k. refl;
  delete_has = λ i g k. has-without i g.listed k;
  delete_vertex_other = λ i g k h. name_of-without i g.listed k h;
  neighbors_has = λ g i j h m. targets-has g.listed i g.arrows j m;
}

named_listed : (vs : List (ℕ × Text)) (i : ℕ) → has vs i ≡ true → Memᴰ (i, name_of vs i) vs
unfolding has name_of
named_listed [] i h = cc
named_listed ((j, v) ∷ vs) i h = elim (Bool-cases (j == i)) [
  | inl same ↦ rw (name_of, same) (Memᴰ.head (ap (λ k. (k, v)) (sym (eq_of_== j i same))))
  | inr later ↦ rw (name_of, later) (Memᴰ.tail (named_listed vs i (ground arith)))
]

pub stored-DocumentedVertices : DocumentedVertices stored_library
stored-DocumentedVertices = record { vertices_listed = λ g i there. named_listed g.listed i there }
