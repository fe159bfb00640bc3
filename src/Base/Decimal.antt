-- ===== src/Base/Decimal.antt =====
-- Decimal numbers: `ostream << int` for a number that is not negative, and `std::stoi`.
use Prim.Native.Nat.{ℕ, zero, suc, ◌+◌, ◌-◌, ◌*◌, ◌/◌, ◌%◌, ◌^◌, ◌≤◌, ◌<◌}
use mathlib.Core.Path.{◌≡◌, refl, sym, ap, subst, ◌∙◌}
use mathlib.Core.Logic.{inl, inr}
use mathlib.Core.Bool.{Bool, true, false, ◌&&◌, ◌||◌}
use mathlib.Core.Option.{Option, none, some}
use mathlib.Core.List.{[], ◌∷◌}
use native.Mathlib.Omega.{arith}
use e0256_project_final.Base.Tests.{◌==◌, leb, ltb, if◌then◌else◌, Bool-cases}
use e0256_project_final.Base.Int.{ℤ, pos, negsuc}
use e0256_project_final.Base.Text.{Text}

-- The digits of `n` in front of `tail`, on fuel above `n`.
unfoldable pub digits : ℕ → ℕ → Text → Text
digits zero n tail = tail
digits (suc f) n tail =
    let more = digits f (n / 10) ((48 + n % 10) ∷ tail) in
    if n / 10 == 0 then (48 + n % 10) ∷ tail else more

unfoldable pub decimal : ℕ → Text
unfolding digits
decimal n = digits (suc n) n []

unfoldable pub is_digit : ℕ → Bool
is_digit c = leb 48 c && leb c 57

unfoldable pub is_space : ℕ → Bool
is_space c = (c == 32) || (leb 9 c && leb c 13)

unfoldable pub skip_spaces : Text → Text
unfolding is_space
skip_spaces [] = []
skip_spaces (c ∷ cs) = if is_space c then skip_spaces cs else c ∷ cs

-- The value of the leading digits, after `acc`.
unfoldable pub digits_value : ℕ → Text → ℕ
unfolding is_digit
digits_value acc [] = acc
digits_value acc (c ∷ cs) =
    let more = digits_value (acc * 10 + (c - 48)) cs in if is_digit c then more else acc

unfoldable pub in_range : Bool → ℕ → Option ℤ
in_range false n = if ltb n (2 ^ 31) then some (pos n) else none
in_range true zero = some (pos 0)
in_range true (suc n) = if ltb n (2 ^ 31) then some (negsuc n) else none

-- At least one digit must follow the sign.
unfoldable pub unsigned : Bool → Text → Option ℤ
unfolding in_range is_digit
unsigned negative [] = none
unsigned negative (c ∷ cs) =
    if is_digit c then in_range negative (digits_value 0 (c ∷ cs)) else none

unfoldable pub signed : Text → Option ℤ
unfolding unsigned
signed [] = none
signed (c ∷ cs) =
    if c == b'-'
    then unsigned true cs
    else if c == b'+'
    then unsigned false cs
    else unsigned false (c ∷ cs)

-- `std::stoi`: `none` is an exception.
unfoldable pub stoi : Text → Option ℤ
unfolding skip_spaces signed
stoi s = signed (skip_spaces s)

abbrev pub AllDigits : Text → Type 0
AllDigits [] = Unit {0}
AllDigits (c ∷ cs) = (48 ≤ c) × (c ≤ 57) × AllDigits cs

digits-AllDigits : (f n : ℕ) (tail : Text) → AllDigits tail → AllDigits (digits f n tail)
unfolding digits
digits-AllDigits zero n tail h = h
digits-AllDigits (suc f) n tail h =
    ground (arith, digits-AllDigits f (n / 10) ((48 + n % 10) ∷ tail))

pub decimal-AllDigits : (n : ℕ) → AllDigits (decimal n)
unfolding decimal
decimal-AllDigits n = digits-AllDigits (suc n) n [] tt

value-cons :
    (acc d : ℕ) (cs : Text)
    → d < 10
    → digits_value acc ((48 + d) ∷ cs) ≡ digits_value (acc * 10 + d) cs
unfolding digits_value
value-cons acc d cs h =
    let low : 48 + d - 48 ≡ d = omega arith in
    ground (arith, ap (λ k. digits_value (acc * 10 + k) cs) low)

value-digits :
    (f n : ℕ) (tail : Text) → n < f → digits_value 0 (digits f n tail) ≡ digits_value n tail
unfolding digits
value-digits zero n tail h = absurd (omega arith)
value-digits (suc f) n tail h =
    let d = n % 10 in
    let joined : n / 10 * 10 + d ≡ n = omega arith in
    elim (Bool-cases (n / 10 == 0)) [
      | inl last ↦
          let alone : 0 * 10 + d ≡ n = ground arith in
          rw last (value-cons 0 d tail (omega arith) ∙ ap (λ k. digits_value k tail) alone)
      | inr more ↦ rw more (
          value-digits f (n / 10) ((48 + d) ∷ tail) (ground arith)
          ∙ value-cons (n / 10) d tail (omega arith)
          ∙ ap (λ k. digits_value k tail) joined)
    ]

value-decimal : (n : ℕ) → digits_value 0 (decimal n) ≡ n
unfolding decimal digits_value
value-decimal n = value-digits (suc n) n [] (omega arith)

-- `std::stoi` of digits alone.
stoi_digits :
    (c : ℕ) (cs : Text)
    → AllDigits (c ∷ cs)
    → digits_value 0 (c ∷ cs) < 2 ^ 31
    → stoi (c ∷ cs) ≡ some (pos (digits_value 0 (c ∷ cs)))
unfolding stoi in_range
stoi_digits c cs h small = ground arith

-- Something is printed.
digits-cons : (f n c : ℕ) (tail : Text) → (d : ℕ) × (ds : Text) × (digits f n (c ∷ tail) ≡ d ∷ ds)
unfolding digits
digits-cons zero n c tail = (c, tail, refl)
digits-cons (suc f) n c tail =
    let d = 48 + n % 10 in
    elim (Bool-cases (n / 10 == 0)) [
      | inl last ↦ (d, c ∷ tail, rw last)
      | inr more ↦ rw more (digits-cons f (n / 10) d (c ∷ tail))
    ]

decimal-cons : (n : ℕ) → (d : ℕ) × (ds : Text) × (decimal n ≡ d ∷ ds)
unfolding decimal
decimal-cons n =
    let d = 48 + n % 10 in
    elim (Bool-cases (n / 10 == 0)) [
      | inl last ↦ (d, [], rw last)
      | inr more ↦ rw more (digits-cons n (n / 10) d [])
    ]

-- What is printed reads back.
pub stoi-decimal : (n : ℕ) → n < 2 ^ 31 → stoi (decimal n) ≡ some (pos n)
stoi-decimal n h =
    let (c, cs, e) = decimal-cons n in
    let all = subst AllDigits e (decimal-AllDigits n) in
    let value = ap (digits_value 0) (sym e) ∙ value-decimal n in
    ap stoi e ∙ stoi_digits c cs all (omega arith) ∙ ap (λ k. some (pos k)) value
