-- ===== src/Base/Int.antt =====
-- The signed integers that the C functions return: `negsuc n` is -(n + 1).
use Prim.Native.Nat.{ℕ, ◌-◌, ◌%◌, ◌^◌, ◌<◌}
use mathlib.Core.Path.{◌≡◌}
use native.Mathlib.Omega.{arith}
use e0256_project_final.Base.Tests.{ltb, if◌then◌else◌}

pub data ℤ : Type 0 where
  pos : ℕ → ℤ
  negsuc : ℕ → ℤ

-- A 64-bit word converted to a 32-bit `int`.
unfoldable pub int_of_word : ℕ → ℤ
int_of_word w =
    if ltb (w % 2 ^ 32) (2 ^ 31) then pos (w % 2 ^ 32) else negsuc (2 ^ 32 - w % 2 ^ 32 - 1)

-- An `int` converted to a 64-bit word: the sign is extended.
unfoldable pub word_of_int : ℤ → ℕ
word_of_int (pos n) = n
word_of_int (negsuc n) = 2 ^ 64 - n - 1

pub int_of_word_small : (w : ℕ) → w < 2 ^ 31 → int_of_word w ≡ pos w
unfolding int_of_word
int_of_word_small w h = ground arith
