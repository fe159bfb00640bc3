-- ===== src/MemGraph/State.antt =====
-- The static variables of memgraph.c, its pointers, and a monad of C statements over them.
-- definitions.h gives the sizes: every `unsigned long` has 8 bytes.
use e0256_project_final.Base.{
  ℕ, suc, ◌+◌, ◌*◌, ◌≤◌, ◌≡◌, refl, Bool, ◌&&◌, Option, none, some, ◌==◌, leb, le→leb,
  if◌then◌else◌, ==_refl,
}
use e0256_project_final.MemGraph.Bytes.{Bytes, read_le, write_le, put_byte}

abbrev pub memory_pool_size : ℕ
memory_pool_size = 1024 * 1024

abbrev pub graph_meta_magic_number : ℕ
graph_meta_magic_number = 0xDEADBEEF

abbrev pub node_magic_number : ℕ
node_magic_number = 0xCAFEBABE

abbrev pub edge_magic_number : ℕ
edge_magic_number = 0xBAADF00D

abbrev pub mempool_version : ℕ
mempool_version = 1

abbrev pub default_number_of_nodeslistings : ℕ
default_number_of_nodeslistings = 4 * 1024

-- `sizeof(struct graph_metadata)`.
abbrev pub node_table_offset : ℕ
node_table_offset = 88

-- A pointer into the pool is the serial number of the pool's allocation and an offset, which is
-- kept unwrapped: the code reads at an offset before it adds to it.
pub data Ptr : Type 0 where
  null undef : Ptr
  at : ℕ → ℕ → Ptr

-- `(char *)p + n`.
abbrev pub offset : Ptr → ℕ → Ptr
offset null n = null
offset undef n = undef
offset (at i a) n = at i (a + n)

pub record Block : Type 0 where
  pub serial : ℕ
  pub bytes : Bytes

-- The array `nodes` of pointers.
pub record Listing : Type 0 where
  pub size : ℕ
  pub entry : ℕ → Ptr

-- `mallocs` counts the allocations so far: it numbers the blocks.
pub record State : Type 0 where
  pub pool : Option Block
  pub pool_edge : Ptr
  pub nodes : Option Listing
  pub num_nodes_listings : ℕ
  pub current_progstate : ℕ
  pub start_node : Ptr
  pub mallocs : ℕ

-- The two builds of the library, and which allocations the system grants: the number of the
-- allocation and its size decide.
pub data Build : Type 0 where
  user kernel : Build

pub record Env : Type 0 where
  pub build : Build
  pub grants : ℕ → ℕ → Bool

-- `exited` is `exit(EXIT_FAILURE)`; `fault` is an access that C leaves undefined.
pub data Outcome {ℓ} (A : Type ℓ) : Type ℓ where
  ok : A → State → Outcome A
  exited : Outcome A
  fault : Outcome A

abbrev pub M {ℓ} : Type ℓ → Type ℓ
M A = State → Outcome A

abbrev pub return {ℓ} : {A : Type ℓ} → A → M A
return a s = ok a s

infixl 5 ◌>>=◌ ◌>>◌
abbrev pub ◌>>=◌ {ℓ κ} : {A : Type ℓ} {B : Type κ} → M A → (A → M B) → M B
◌>>=◌ m f s = elim (m s) [ ok a t ↦ f a t | exited ↦ exited | fault ↦ fault ]

abbrev pub ◌>>◌ {ℓ} : {B : Type ℓ} → M (Unit {0}) → M B → M B
m >> k = m >>= λ _. k

abbrev pub skip : M (Unit {0})
skip = return tt

abbrev pub gets {ℓ} : {A : Type ℓ} → (State → A) → M A
gets f s = ok (f s) s

abbrev pub modify : (State → State) → M (Unit {0})
modify f s = ok tt (f s)

abbrev pub crash {ℓ} : {A : Type ℓ} → M A
crash s = fault

-- `PRINT_ERROR_AND_EXIT`: the process ends, and in the kernel the function returns.
abbrev pub print_error_and_exit : Build → M (Unit {0})
print_error_and_exit user s = exited
print_error_and_exit kernel s = ok tt s

-- The offset and the block behind a pointer to `n` bytes, all inside the live pool.
abbrev pub resolve_in : Option Block → ℕ → ℕ → ℕ → Option Block
resolve_in none i a n = none
resolve_in (some b) i a n = if (b.serial == i) && leb (a + n) memory_pool_size then some b else none

unfoldable pub load64 : Ptr → M ℕ
load64 null s = fault
load64 undef s = fault
load64 (at i a) s = elim (resolve_in s.pool i a 8) [
  | none ↦ fault
  | some b ↦ ok (read_le 8 b.bytes a) s
]

unfoldable pub store64 : Ptr → ℕ → M (Unit {0})
store64 null v s = fault
store64 undef v s = fault
store64 (at i a) v s = elim (resolve_in s.pool i a 8) [
  | none ↦ fault
  | some b ↦ ok tt (record s { pool = some (record b { bytes = write_le 8 a v b.bytes }) })
]

-- `pool->metadata.field`, of a word and of the byte `graph_finalized`: the pool must be there.
unfoldable pub pool_word : ℕ → M ℕ
pool_word a s = elim s.pool [ none ↦ fault | some b ↦ ok (read_le 8 b.bytes a) s ]

unfoldable pub set_pool_word : ℕ → ℕ → M (Unit {0})
set_pool_word a v s = elim s.pool [
  | none ↦ fault
  | some b ↦ ok tt (record s { pool = some (record b { bytes = write_le 8 a v b.bytes }) })
]

unfoldable pub pool_byte : ℕ → M ℕ
pool_byte a s = elim s.pool [ none ↦ fault | some b ↦ ok (b.bytes a) s ]

unfoldable pub set_pool_byte : ℕ → ℕ → M (Unit {0})
set_pool_byte a v s = elim s.pool [
  | none ↦ fault
  | some b ↦ ok tt (record s { pool = some (record b { bytes = put_byte a v b.bytes }) })
]

-- The pointer `(char *)pool + n`.
abbrev pub pool_ptr : Option Block → ℕ → Ptr
pool_ptr none n = null
pool_ptr (some b) n = at b.serial n

-- `nodes[i]`, read and written: the array must be there and be long enough.
unfoldable pub get_node : ℕ → M Ptr
get_node i s = elim s.nodes [
  | none ↦ fault
  | some l ↦ if leb (suc i) l.size then ok (l.entry i) s else fault
]

abbrev pub put_entry : ℕ → Ptr → (ℕ → Ptr) → ℕ → Ptr
put_entry i p e j = if j == i then p else e j

unfoldable pub set_node : ℕ → Ptr → M (Unit {0})
set_node i p s = elim s.nodes [
  | none ↦ fault
  | some l ↦
      if leb (suc i) l.size
      then ok tt (record s { nodes = some (record l { entry = put_entry i p l.entry }) })
      else fault
]

pub load64_lem :
    (s : State) (b : Block) (a : ℕ)
    → s.pool ≡ some b
    → a + 8 ≤ memory_pool_size
    → load64 (at b.serial a) s ≡ ok (read_le 8 b.bytes a) s
unfolding load64
load64_lem s b a e h = simp (e, load64, ==_refl, le→leb (a + 8) memory_pool_size h)

pub store64_lem :
    (s : State) (b : Block) (a v : ℕ)
    → s.pool ≡ some b
    → a + 8 ≤ memory_pool_size
    → store64 (at b.serial a) v s
      ≡ ok tt (record s { pool = some (record b { bytes = write_le 8 a v b.bytes }) })
unfolding store64
store64_lem s b a v e h = simp (e, store64, ==_refl, le→leb (a + 8) memory_pool_size h)

outcome_inv {ℓ κ} :
    {A : Type ℓ} {B : Type κ} (o : Outcome A) (f : A → M B) (s' : State) {b : B}
    → (let r : Outcome B = elim o [ ok a t ↦ f a t | exited ↦ exited | fault ↦ fault ] in r)
      ≡ ok b s'
    → (a : A) × (t : State) × (o ≡ ok a t) × (f a t ≡ ok b s')
outcome_inv (ok a t) f s' h = (a, t, refl, h)
outcome_inv exited f s' h = cc
outcome_inv fault f s' h = cc

-- Inversion of a successful sequence.
pub bind_inv {ℓ κ} :
    {A : Type ℓ} {B : Type κ} (m : M A) (f : A → M B) (s s' : State) {b : B}
    → (m >>= f) s ≡ ok b s'
    → (a : A) × (t : State) × (m s ≡ ok a t) × (f a t ≡ ok b s')
bind_inv m f s s' h = outcome_inv (m s) f s' h

pub bind_ok {ℓ κ} :
    {A : Type ℓ} {B : Type κ} (m : M A) (f : A → M B) (s t : State) (a : A) {r : Outcome B}
    → m s ≡ ok a t
    → f a t ≡ r
    → (m >>= f) s ≡ r
bind_ok m f s t a e h = rw (e, ◌>>=◌) h
