-- ===== src/MemGraph/Bytes.antt =====
-- The bytes of the memory pool, and little-endian words in them.
use native.Mathlib.Nat.{pow-suc}
use e0256_project_final.Base.{
  ℕ, zero, suc, ◌+◌, ◌*◌, ◌/◌, ◌%◌, ◌^◌, ◌≤◌, ◌<◌, ◌≡◌, refl, ◌⊎◌, inl, arith, ◌==◌, ltb,
  if◌then◌else◌,
}

abbrev pub Bytes : Type 0
Bytes = ℕ → ℕ

abbrev pub put_byte : ℕ → ℕ → Bytes → Bytes
put_byte a v m p = if p == a then v else m p

-- `k` bytes from address `a`, the least significant one first.
unfoldable pub read_le : ℕ → Bytes → ℕ → ℕ
read_le zero m a = 0
read_le (suc k) m a = m a + 256 * read_le k m (a + 1)

unfoldable pub write_le : ℕ → ℕ → ℕ → Bytes → Bytes
write_le zero a v m = m
write_le (suc k) a v m = write_le k (a + 1) (v / 256) (put_byte a (v % 256) m)

-- `memset(pool, 0, size)`.
unfoldable pub memset : ℕ → Bytes → Bytes
memset size m p = if ltb p size then 0 else m p

-- `memcpy(pool, src, size)`.
unfoldable pub memcpy : Bytes → ℕ → Bytes → Bytes
memcpy src size m p = if ltb p size then src p else m p

-- A word depends on its own bytes only.
pub read_le-ext :
    (k : ℕ) (m n : Bytes) (a : ℕ)
    → ((p : ℕ) → a ≤ p → p < a + k → m p ≡ n p)
    → read_le k m a ≡ read_le k n a
unfolding read_le
read_le-ext zero m n a h = refl
read_le-ext (suc k) m n a h = omega (
  arith,
  h a (omega arith) (omega arith),
  read_le-ext k m n (a + 1) (λ p lo hi. h p (omega arith) (omega arith)),
)

pub write_le_outside :
    (k a v : ℕ) (m : Bytes) (p : ℕ) → (p < a) ⊎ (a + k ≤ p) → write_le k a v m p ≡ m p
unfolding write_le
write_le_outside zero a v m p h = refl
write_le_outside (suc k) a v m p h =
    ground (arith, write_le_outside k (a + 1) (v / 256) (put_byte a (v % 256) m) p)

pub read_le-write_le_self :
    (k a v : ℕ) (m : Bytes) → v < 256 ^ k → read_le k (write_le k a v m) a ≡ v
unfolding read_le write_le
read_le-write_le_self zero a v m h = omega arith
read_le-write_le_self (suc k) a v m h =
    let low = put_byte a (v % 256) m in
    let fits : v / 256 < 256 ^ k = omega (arith, pow-suc 256 k) in
    let kept = write_le_outside k (a + 1) (v / 256) low a (inl (omega arith)) in
    let here : low a ≡ v % 256 = ground arith in
    omega (arith, kept, here, read_le-write_le_self k (a + 1) (v / 256) low fits)

pub read_le-write_le_ne :
    (j a : ℕ) (k b v : ℕ) (m : Bytes)
    → (a + j ≤ b) ⊎ (b + k ≤ a)
    → read_le j (write_le k b v m) a ≡ read_le j m a
read_le-write_le_ne j a k b v m h =
    read_le-ext j (write_le k b v m) m a λ p lo hi. write_le_outside k b v m p (omega arith)
