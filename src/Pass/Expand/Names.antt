-- ===== src/Pass/Expand/Names.antt =====
-- The names of the vertices that `ExpandBBGraph` adds.
use e0256_project_final.Base.{
  ℕ, ◌<◌, ◌^◌, ◌≡◌, ◌≢◌, refl, ap, ◌∙◌, sym, false, true, [], ◌∷◌, ◌++◌, Bool, Bool-cases, inl, inr,
  if◌then◌else◌, Option, some, none, ◌==◌, arith, some_inj,
}
use e0256_project_final.Base.Text.{
  Text, codes, starts_with, substr_from, text_eq, eq_of_text_eq, text_eq_iff, text_eq_refl,
}
use e0256_project_final.Base.Decimal.{AllDigits, decimal-AllDigits, decimal, stoi, stoi-decimal}
use e0256_project_final.Pass.Expand.{call_vertex}

append_parts : (s t u : Text) → (s ++ t) ++ u ≡ s ++ (t ++ u)
append_parts [] t u = refl
append_parts (c ∷ s) t u = ap (λ r. c ∷ r) (append_parts s t u)

append_left : (s t u : Text) → s ++ t ≡ s ++ u → t ≡ u
unfolding substr_from
append_left [] t u e = e
append_left (c ∷ s) t u e = append_left s t u (ap (substr_from 1) e)

decimal_inj : (n k : ℕ) → n < 2 ^ 31 → k < 2 ^ 31 → decimal n ≡ decimal k → n ≡ k
decimal_inj n k small small' e =
    let same = sym (stoi-decimal n small) ∙ ap stoi e ∙ stoi-decimal k small' in cc

behind_tag :
    (user : Bool) (s : Text)
    → substr_from 6 ((if user then codes "-user_" else codes "-libc_") ++ s) ≡ s
unfolding substr_from
behind_tag true s = refl
behind_tag false s = refl

abbrev behind_block : Text → ℕ → Text
behind_block call n =
    (if starts_with (codes "user:") call then codes "-user_" else codes "-libc_") ++ decimal n

call_vertex_parts :
    (block call : Text) (n : ℕ) → call_vertex block call n ≡ block ++ behind_block call n
unfolding call_vertex
call_vertex_parts block call n =
    append_parts block (if starts_with (codes "user:") call then codes "-user_" else codes "-libc_")
      (decimal n)

-- The vertices of two calls of a block with different numbers have different names.
pub call_vertex_apart :
    (block call call' : Text) (n k : ℕ)
    → n < 2 ^ 31
    → k < 2 ^ 31
    → n ≢ k
    → text_eq (call_vertex block call n) (call_vertex block call' k) ≡ false
call_vertex_apart block call call' n k small small' apart =
    elim (Bool-cases (text_eq (call_vertex block call n) (call_vertex block call' k))) [
      | inr other ↦ other
      | inl same ↦
          let behind = append_left block (behind_block call n) (behind_block call' k) (
            sym (call_vertex_parts block call n)
            ∙ eq_of_text_eq (call_vertex block call n) (call_vertex block call' k) same
            ∙ call_vertex_parts block call' k) in
          let digits =
            sym (behind_tag (starts_with (codes "user:") call) (decimal n))
            ∙ ap (substr_from 6) behind
            ∙ behind_tag (starts_with (codes "user:") call') (decimal k) in
          absurd (apart (decimal_inj n k small small' digits))
    ]

-- What is before the last dash, which is byte 45.
unfoldable pub before_dash : Text → Option Text
before_dash [] = none
before_dash (c ∷ cs) = elim (before_dash cs) [
  | some before ↦ some (c ∷ before)
  | none ↦ if c == 45 then some [] else none
]

dashless : (ds : Text) → AllDigits ds → before_dash ds ≡ none
unfolding before_dash
dashless [] h = refl
dashless (d ∷ ds) h = ground (arith, dashless ds h.2)

tag_dash :
    (user : Bool) (ds : Text)
    → before_dash ds ≡ none
    → before_dash ((if user then codes "-user_" else codes "-libc_") ++ ds) ≡ some []
unfolding before_dash
tag_dash true ds h = ground arith
tag_dash false ds h = ground arith

dash_append : (s t : Text) → before_dash t ≡ some [] → before_dash (s ++ t) ≡ some s
unfolding before_dash
dash_append [] t h = h
dash_append (c ∷ s) t h = ground (arith, dash_append s t h)

-- The name of a call's vertex determines its block.
block_of_call : (block call : Text) (n : ℕ) → before_dash (call_vertex block call n) ≡ some block
block_of_call block call n =
    ap before_dash (call_vertex_parts block call n)
    ∙ dash_append block (behind_block call n) (
        tag_dash (starts_with (codes "user:") call) (decimal n)
          (dashless (decimal n) (decimal-AllDigits n)))

-- The vertices of calls of two blocks have different names.
pub call_vertex_blocks :
    (block block' call call' : Text) (n k : ℕ)
    → text_eq block block' ≡ false
    → text_eq (call_vertex block call n) (call_vertex block' call' k) ≡ false
call_vertex_blocks block block' call call' n k apart =
    elim (Bool-cases (text_eq (call_vertex block call n) (call_vertex block' call' k))) [
      | inr other ↦ other
      | inl same ↦
          let e : block ≡ block' = some_inj (
            sym (block_of_call block call n)
            ∙ ap before_dash
                (eq_of_text_eq (call_vertex block call n) (call_vertex block' call' k) same)
            ∙ block_of_call block' call' k) in
          let eq : text_eq block block' ≡ true = rw e (text_eq_refl block') in absurd (cc)
    ]

-- A name without a dash is that of no call's vertex.
pub dashless_apart :
    (name block call : Text) (n : ℕ)
    → before_dash name ≡ none
    → text_eq name (call_vertex block call n) ≡ false
dashless_apart name block call n h =
    ground (arith, h, block_of_call block call n, text_eq_iff name (call_vertex block call n))
