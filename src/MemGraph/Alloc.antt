-- ===== src/MemGraph/Alloc.antt =====
-- The allocation macros of utils.h, and the arrays of node pointers that memgraph.c asks of them.
use e0256_project_final.Base.{ℕ, suc, ◌/◌, ◌≡◌, true, arith, Option, none, some, ltb, if◌then◌else◌}
use e0256_project_final.MemGraph.State.{
  Env, State, Build, user, kernel, Listing, Ptr, null, undef, M, ok, ◌>>=◌, modify,
}

-- `MALLOC(size)`: the serial number of the new block, or `none` for NULL.
unfoldable pub malloc : Env → ℕ → M (Option ℕ)
malloc env size s =
    ok (if env.grants s.mallocs size then some s.mallocs else none)
      (record s { mallocs = suc s.mallocs })

-- What a new array holds: `kzalloc` clears it, `malloc` does not.
abbrev pub fresh_entry : Build → Ptr
fresh_entry user = undef
fresh_entry kernel = null

-- `nodes = MALLOC(size)`: the array has the whole pointers that fit in `size` bytes.
unfoldable pub malloc_nodes : Env → ℕ → M (Unit {0})
unfolding malloc
malloc_nodes env size = do
  got ← malloc env size
  modify λ s. record s {
    nodes = elim got [
      | none ↦ none
      | some _ ↦ some (record { size = size / 8; entry = λ _. fresh_entry env.build })
    ];
  }

abbrev pub new_listing : Env → ℕ → Listing
new_listing env size = record { size = size; entry = λ _. fresh_entry env.build }

pub malloc_nodes_granted :
    (env : Env) (size : ℕ) (s : State)
    → env.grants s.mallocs size ≡ true
    → malloc_nodes env size s
      ≡ ok tt (record s { nodes = some (new_listing env (size / 8)); mallocs = suc s.mallocs })
unfolding malloc_nodes
malloc_nodes_granted env size s h = ground arith

abbrev pub regrown : Listing → ℕ → Listing
regrown old size = record {
  size = size;
  entry = λ i. if ltb i old.size then old.entry i else undef;
}

-- `nodes = REALLOC(nodes, size)`: the old entries are kept, and the new ones are not cleared.
unfoldable pub realloc_nodes : Env → Listing → ℕ → M (Unit {0})
unfolding malloc
realloc_nodes env old size = do
  got ← malloc env size
  modify λ s. record s { nodes = elim got [ none ↦ none | some _ ↦ some (regrown old (size / 8)) ] }

pub realloc_nodes_granted :
    (env : Env) (old : Listing) (size : ℕ) (s : State)
    → env.grants s.mallocs size ≡ true
    → realloc_nodes env old size s
      ≡ ok tt (record s { nodes = some (regrown old (size / 8)); mallocs = suc s.mallocs })
unfolding realloc_nodes
realloc_nodes_granted env old size s h = ground arith
