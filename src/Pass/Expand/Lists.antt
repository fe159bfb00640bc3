-- ===== src/Pass/Expand/Lists.antt =====
-- The map from a function's blocks to their calls.
use mathlib.Core.List.{Memᴰ}
use mathlib.Core.List.Memᴰ
use e0256_project_final.Base.{
  ℕ, ◌+◌, ◌≤◌, ◌^◌, ◌≡◌, refl, ap, sym, subst, true, false, none, List, [], ◌∷◌, arith, length,
  Bool-cases, List-cases, inl, inr,
}
use e0256_project_final.Base.Text.{Text, text_eq, text_lt, text_eq_iff, text_eq_refl}
use e0256_project_final.Base.TextMap.{TextMap, put}
use e0256_project_final.FileMap.{Reader, get_library_calls}
use e0256_project_final.Graaf.{Graaf}
use e0256_project_final.GraphLib.{LibcCallgraph}
use e0256_project_final.GraphLib.Joined.{has_name, joined}
use e0256_project_final.Pass.Source.{BasicBlock, block_name}
use e0256_project_final.Pass.Blocks.{add_calls, add_call_list}
use e0256_project_final.Pass.Blocks.Edges.{names_block}
use e0256_project_final.Pass.Expand.{call_vertex, last_name}
use e0256_project_final.Pass.Expand.Names.{before_dash, dashless_apart}
use e0256_project_final.Pass.Expand.Chain.{Spells}
use e0256_project_final.Pass.Expand.Apart.{Separate, Expandable, Spelled}

Separate-put :
    (x k : Text) (v : List Text) (m : TextMap (List Text))
    → text_eq x k ≡ false
    → Separate x m
    → Separate x (put k v m)
unfolding put
Separate-put x k v [] apart h = (apart, tt)
Separate-put x k v ((j, w) ∷ m) apart h = elim (Bool-cases (text_eq j k)) [
  | inl same ↦ rw (put, same) (apart, h.1)
  | inr other ↦ elim (Bool-cases (text_lt k j)) [
    | inl before ↦ rw (put, other, before) (apart, h)
    | inr behind ↦ rw (put, other, behind) (h.0, Separate-put x k v m apart h.1)
  ]
]

put_there : (k : Text) (v : List Text) (m : TextMap (List Text)) → Memᴰ (k, v) (put k v m)
unfolding put
put_there k v [] = Memᴰ.head refl
put_there k v ((j, w) ∷ m) = elim (Bool-cases (text_eq j k)) [
  | inl same ↦ rw (put, same) (Memᴰ.head refl)
  | inr other ↦ elim (Bool-cases (text_lt k j)) [
    | inl before ↦ rw (put, other, before) (Memᴰ.head refl)
    | inr behind ↦ rw (put, other, behind) (Memᴰ.tail (put_there k v m))
  ]
]

put_keeps :
    (k : Text) (v : List Text) (m : TextMap (List Text)) (i : Text) (u : List Text)
    → text_eq i k ≡ false
    → Memᴰ (i, u) m
    → Memᴰ (i, u) (put k v m)
unfolding put
put_keeps k v [] i u apart at = absurd (Memᴰ.not-nil at)
put_keeps k v ((j, w) ∷ m) i u apart at = elim (Bool-cases (text_eq j k)) [
  | inl same ↦
      rw (put, same)
        (elim (Memᴰ.cases_cons at) [
          | inl here ↦
              let e : i ≡ j = ap (λ (t : Text × List Text). t.0) here in
              absurd (ground (arith, text_eq_iff i k, text_eq_iff j k))
          | inr later ↦ Memᴰ.tail later
        ])
  | inr other ↦ elim (Bool-cases (text_lt k j)) [
    | inl before ↦ rw (put, other, before) (Memᴰ.tail at)
    | inr behind ↦
        rw (put, other, behind)
          (elim (Memᴰ.cases_cons at) [
            | inl here ↦ Memᴰ.head here
            | inr later ↦ Memᴰ.tail (put_keeps k v m i u apart later)
          ])
  ]
]

module _ (reader : Reader) (func : Text) where
  -- The calls of a block.
  abbrev pub calls_of : BasicBlock → List Text
  calls_of b = get_library_calls reader b.instructions

  -- None of the blocks has the name.
  abbrev pub NotNamed : Text → List BasicBlock → Type 0
  NotNamed x [] = Unit {0}
  NotNamed x (b ∷ bs) = (text_eq x (block_name func b) ≡ false) × NotNamed x bs

  -- The blocks have different names without a dash, and each has fewer than 2 ^ 31 calls.
  abbrev pub Plain : List BasicBlock → Type 0
  Plain [] = Unit {0}
  Plain (b ∷ bs) =
      ((before_dash (block_name func b) ≡ none)
        × (1 + length (calls_of b) ≤ 2 ^ 31)
        × NotNamed (block_name func b) bs)
      × Plain bs

  pub Plain-names :
      (bs : List BasicBlock) (block call : Text) (n : ℕ)
      → Plain bs
      → names_block func bs (call_vertex block call n) ≡ false
  unfolding names_block
  Plain-names [] block call n h = refl
  Plain-names (b ∷ bs) block call n h = ground (
    arith,
    dashless_apart (block_name func b) block call n h.0.0,
    Plain-names bs block call n h.1,
  )

  -- None of the blocks has an entry yet.
  abbrev pub Unlisted : List BasicBlock → TextMap (List Text) → Type 0
  Unlisted [] m = Unit {0}
  Unlisted (b ∷ bs) m = Separate (block_name func b) m × Unlisted bs m

  pub Unlisted-nil : (bs : List BasicBlock) → Unlisted bs []
  Unlisted-nil [] = tt
  Unlisted-nil (b ∷ bs) = (tt, Unlisted-nil bs)

  Unlisted-put :
      (x : Text) (v : List Text) (bs : List BasicBlock) (m : TextMap (List Text))
      → NotNamed x bs
      → Unlisted bs m
      → Unlisted bs (put x v m)
  Unlisted-put x v [] m apart h = tt
  Unlisted-put x v (b ∷ bs) m apart h =
      let other : text_eq (block_name func b) x ≡ false =
        ground
          (arith, apart.0, text_eq_iff (block_name func b) x, text_eq_iff x (block_name func b)) in
      (Separate-put (block_name func b) x v m other h.0, Unlisted-put x v bs m apart.1 h.1)

module _ (library : Graaf) (reader : Reader) (func : Text) where
  put-Expandable :
      (g : LibcCallgraph library) (k c : Text) (cs : List Text) (m : TextMap (List Text))
      → 1 + length (c ∷ cs) ≤ 2 ^ 31
      → has_name library g k ≡ true
      → ((call : Text) (n : ℕ) → has_name library g (call_vertex k call n) ≡ false)
      → Separate k m
      → Expandable library g m
      → Expandable library g (put k (c ∷ cs) m)
  unfolding put
  put-Expandable g k c cs [] few there new apart h =
      ((omega arith, few, there, λ call n above below. new call n, tt), tt)
  put-Expandable g k c cs ((j, w) ∷ m) few there new apart h =
      let other : text_eq j k ≡ false = ground (arith, text_eq_iff j k, text_eq_iff k j, apart.0) in
      elim (Bool-cases (text_lt k j)) [
        | inl before ↦
            rw (put, other, before)
              (((omega arith, few, there, λ call n above below. new call n, apart), h))
        | inr behind ↦
            let (some_call, few', there', new', separate) = h.0 in
            rw (put, other, behind)
              ((
                (some_call, few', there', new', Separate-put j k (c ∷ cs) m other separate),
                put-Expandable g k c cs m few there new apart.1 h.1,
              ))
      ]

  pub add_calls-Expandable :
      (g : LibcCallgraph library) (bs : List BasicBlock) (m : TextMap (List Text))
      → Plain reader func bs
      → ((z : Text) → names_block func bs z ≡ true → has_name library g z ≡ true)
      → ((block call : Text) (n : ℕ) → has_name library g (call_vertex block call n) ≡ false)
      → Unlisted reader func bs m
      → Expandable library g m
      → Expandable library g (add_calls library reader func bs m)
  unfolding add_calls add_call_list names_block
  add_calls-Expandable g [] m plain there new apart h = h
  add_calls-Expandable g (b ∷ bs) m plain there new apart h =
      let later = λ (z : Text) (e : names_block func bs z ≡ true). there z (ground arith) in
      let name = block_name func b in
      elim (List-cases (calls_of reader func b)) [
        | inl none_called ↦
            rw (add_calls, add_call_list, none_called)
              (add_calls-Expandable g bs m plain.1 later new apart.1 h)
        | inr (c, cs, e) ↦
            let few = rw e at plain.0.1 in
            let here = there name (ground (arith, text_eq_refl name)) in
            rw (add_calls, add_call_list, e)
              (add_calls-Expandable g bs (put name (c ∷ cs) m) plain.1 later new
                (Unlisted-put reader func name (c ∷ cs) bs m plain.0.2 apart.1)
                (put-Expandable g name c cs m few here (new name) apart.0 h))
      ]

  add_calls_keep :
      (bs : List BasicBlock) (m : TextMap (List Text)) (k : Text) (v : List Text)
      → NotNamed reader func k bs
      → Memᴰ (k, v) m
      → Memᴰ (k, v) (add_calls library reader func bs m)
  unfolding add_calls add_call_list
  add_calls_keep [] m k v apart at = at
  add_calls_keep (b ∷ bs) m k v apart at = elim (List-cases (calls_of reader func b)) [
    | inl none_called ↦
        rw (add_calls, add_call_list, none_called) (add_calls_keep bs m k v apart.1 at)
    | inr (c, cs, e) ↦
        rw (add_calls, add_call_list, e)
          (add_calls_keep bs (put (block_name func b) (c ∷ cs) m) k v apart.1
            (put_keeps (block_name func b) (c ∷ cs) m k v apart.0 at))
  ]

  -- A block with calls has its entry.
  pub add_calls_there :
      (bs : List BasicBlock) (m : TextMap (List Text)) (b : BasicBlock) (c : Text) (cs : List Text)
      → Plain reader func bs
      → Memᴰ b bs
      → get_library_calls reader b.instructions ≡ c ∷ cs
      → Memᴰ (block_name func b, c ∷ cs) (add_calls library reader func bs m)
  unfolding add_calls add_call_list
  add_calls_there [] m b c cs plain at e = absurd (Memᴰ.not-nil at)
  add_calls_there (b' ∷ bs) m b c cs plain at e = elim (Memᴰ.cases_cons at) [
    | inr later ↦ add_calls_there bs _ b c cs plain.1 later e
    | inl here ↦
        let e' : calls_of reader func b' ≡ c ∷ cs = rw here at e in
        rw (add_calls, add_call_list, e', here)
          (add_calls_keep bs (put (block_name func b') (c ∷ cs) m) (block_name func b') (c ∷ cs)
            plain.0.2 (put_there (block_name func b') (c ∷ cs) m))
  ]

  pub Spelled-there :
      (g0 g : LibcCallgraph library) (bs : TextMap (List Text)) (b : Text) (calls : List Text)
      → Spelled library g0 g bs
      → Memᴰ (b, calls) bs
      → Spells library g b 1 b calls
        × ((y : Text) → joined library g (last_name library b 1 calls []) y ≡ joined library g0 b y)
  Spelled-there g0 g [] b calls h at = absurd (Memᴰ.not-nil at)
  Spelled-there g0 g ((b', calls') ∷ bs) b calls h at = elim (Memᴰ.cases_cons at) [
    | inr later ↦ Spelled-there g0 g bs b calls h.1 later
    | inl here ↦
        subst
          (λ (t : Text × List Text).
            Spells library g t.0 1 t.0 t.1
            × ((y : Text)
                → joined library g (last_name library t.0 1 t.1 []) y ≡ joined library g0 t.0 y))
          (sym here) h.0
  ]
