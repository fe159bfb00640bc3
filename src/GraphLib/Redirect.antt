-- ===== src/GraphLib/Redirect.antt =====
-- The loop of `combine_vertex` over the edges: those that it comes to, and those that it draws.
use e0256_project_final.Base.{
  ℕ, Bool, true, false, ◌||◌, ◌&&◌, List, [], ◌∷◌, ◌≡◌, ◌≢◌, ◌∙◌, arith, ◌==◌, Bool-cases, inl, inr,
  not, eq_of_==,
}
use e0256_project_final.Base.Text.{Text}
use e0256_project_final.Graaf.{
  Graaf, Documented, DocumentedEdges, linked, contains_edge, OnlyInserts, Visits,
}
use e0256_project_final.GraphLib.{redirect, redirect_all}
use e0256_project_final.GraphLib.Names.{redirect_kept}

-- The edges that the loop draws from `i` for those of `j`.
unfoldable pub drawn : ℕ → ℕ → List ((ℕ × ℕ) × Text) → ℕ → ℕ → Bool
drawn i j es a b =
    ((i == a) && contains_edge es j b) || (((i == b) && not (a == i)) && contains_edge es a j)

module _ (library : Graaf) (documented : Documented library) (edged : DocumentedEdges library) where
  open library use {Graph, has_vertex, insert_edge}
  open documented use {insert_has}
  open edged use {insert_linked}

  -- The loop body of `combine_vertex` does nothing but insert edges.
  pub redirect-OnlyInserts :
      (i j : ℕ) (g : Graph) → has_vertex g i ≡ true → OnlyInserts library (redirect library i j) g
  unfolding redirect
  redirect-OnlyInserts i j g hi x y label g' same hx hy =
      let there_i = same i ∙ hi in
      let there_x = same x ∙ hx in
      let there_y = same y ∙ hy in
      let out : (ℕ × ℕ) × Text = ((i, y), label) in
      let into : (ℕ × ℕ) × Text = ((x, i), label) in
      elim (Bool-cases (x == j)) [
        | inl is_out ↦ elim (Bool-cases ((y == j) && not (x == i))) [
          | inl is_into ↦
              (out ∷ into ∷ [], ground arith, (there_i, there_y, (there_x, there_i, tt)))
          | inr other ↦ (out ∷ [], ground arith, (there_i, there_y, tt))
        ]
        | inr not_out ↦ elim (Bool-cases ((y == j) && not (x == i))) [
          | inl is_into ↦ (into ∷ [], ground arith, (there_x, there_i, tt))
          | inr other ↦ ([], ground arith, tt)
        ]
      ]

  pub seen-Visits :
      (i j : ℕ) (g : Graph)
      → has_vertex g i ≡ true
      → Visits library (redirect library i j) g (library.visited (redirect library i j) g)
  seen-Visits i j g hi =
      edged.visited_there (redirect library i j) g (redirect-OnlyInserts i j g hi)

  linked-redirect :
      (i j x y : ℕ) (label : Text) (g : Graph) (a b : ℕ)
      → has_vertex g i ≡ true
      → has_vertex g x ≡ true
      → has_vertex g y ≡ true
      → linked library (redirect library i j ((x, y), label) g) a b
        ≡ linked library g a b || drawn i j (((x, y), label) ∷ []) a b
  unfolding redirect drawn contains_edge
  linked-redirect i j x y label g a b hi hx hy =
      let out = insert_edge i y label g in
      ground (
        arith,
        insert_linked i y label g a b hi hy,
        insert_linked x i label g a b hx hi,
        insert_linked x i label out a b (insert_has i y label g x ∙ hx)
            (insert_has i y label g i ∙ hi),
      )

  pub linked-redirect_all :
      (i j : ℕ) (es : List ((ℕ × ℕ) × Text)) (g : Graph) (a b : ℕ)
      → has_vertex g i ≡ true
      → Visits library (redirect library i j) g es
      → linked library (redirect_all library i j es g) a b
        ≡ linked library g a b || drawn i j es a b
  unfolding redirect_all drawn contains_edge
  linked-redirect_all i j [] g a b hi h = ground arith
  linked-redirect_all i j (((x, y), label) ∷ es) g a b hi h =
      let (hx, hy, there, named, later) = h in
      let g' = redirect library i j ((x, y), label) g in
      let rest =
        linked-redirect_all i j es g' a b
          ((redirect_kept library documented i j ((x, y), label) g i).0 ∙ hi) later in
      ground (arith, rest, linked-redirect i j x y label g a b hi hx hy)

  -- During the loop an edge at `j` is one that was there, or is drawn for an edge of `j` to itself.
  Settled : ℕ → ℕ → Graph → Graph → Type 0
  Settled i j g now =
      (a : ℕ)
      → (linked library now j a ≡ true
          → linked library g j a || ((i == a) && linked library g j j) ≡ true)
        × (linked library now a j ≡ true
            → linked library g a j || ((i == a) && linked library g j j) ≡ true)

  redirect-Settled :
      (i j x y : ℕ) (label : Text) (g now : Graph)
      → i ≢ j
      → has_vertex now i ≡ true
      → has_vertex now x ≡ true
      → has_vertex now y ≡ true
      → linked library now x y ≡ true
      → Settled i j g now
      → Settled i j g (redirect library i j ((x, y), label) now)
  unfolding Settled drawn contains_edge
  redirect-Settled i j x y label g now apart hi hx hy there h a =
      let out = linked-redirect i j x y label now j a hi hx hy in
      let into = linked-redirect i j x y label now a j hi hx hy in
      let loop : (x == j) && (y == j) ≡ true → linked library g j j ≡ true = λ both.
        let at_x : x ≡ j = eq_of_== x j (ground arith) in
        let at_y : y ≡ j = eq_of_== y j (ground arith) in ground (arith, (h j).0, at_x, at_y) in
      (λ l. ground (arith, out, (h a).0, loop), λ l. ground (arith, into, (h a).1, loop))

  -- So are the edges at `j` that the loop comes to.
  seen_only :
      (i j : ℕ) (es : List ((ℕ × ℕ) × Text)) (g now : Graph)
      → i ≢ j
      → has_vertex now i ≡ true
      → Visits library (redirect library i j) now es
      → Settled i j g now
      → (a : ℕ)
      → (contains_edge es j a ≡ true
          → linked library g j a || ((i == a) && linked library g j j) ≡ true)
        × (contains_edge es a j ≡ true
            → linked library g a j || ((i == a) && linked library g j j) ≡ true)
  unfolding contains_edge Settled
  seen_only i j [] g now apart hi h settled a = (λ l. cc, λ l. cc)
  seen_only i j (((x, y), label) ∷ es) g now apart hi h settled a =
      let (hx, hy, there, named, later) = h in
      let rest =
        seen_only i j es g (redirect library i j ((x, y), label) now) apart
          ((redirect_kept library documented i j ((x, y), label) now i).0 ∙ hi) later
          (redirect-Settled i j x y label g now apart hi hx hy there settled) a in
      (λ l. ground (arith, rest.0, (settled a).0), λ l. ground (arith, rest.1, (settled a).1))

  -- What the loop draws, where it comes to each edge that was there at first.
  pub drawn-seen :
      (i j : ℕ) (g : Graph) (a b : ℕ)
      → has_vertex g i ≡ true
      → has_vertex g j ≡ true
      → library.rehashed (redirect library i j) g ≡ false
      → has_vertex g a ≡ true
      → has_vertex g b ≡ true
      → a ≢ j
      → b ≢ j
      → drawn i j (library.visited (redirect library i j) g) a b
        ≡ ((i == a) && linked library g j b)
          || ((((i == b) && not (a == i)) && linked library g a j)
              || (((i == a) && (i == b))
                  && (linked library g j j
                      && contains_edge (library.visited (redirect library i j) g) j i)))
  unfolding drawn Settled
  drawn-seen i j g a b hi hj steady ha hb na nb = elim (Bool-cases (i == j)) [
    | inl same ↦ ground arith
    | inr other ↦
        let apart : i ≢ j = λ e. ground arith in
        let all =
          edged.visited_all (redirect library i j) g (redirect-OnlyInserts i j g hi) steady in
        let only =
          seen_only i j (library.visited (redirect library i j) g) g g apart hi
            (seen-Visits i j g hi) (λ c. (λ l. ground arith, λ l. ground arith)) in
        ground (arith, all j b hj hb, all a j ha hj, (only b).0, (only a).1)
  ]
