-- ===== src/Sandbox/Faults.antt =====
-- Calls that lead outside what C defines.
use e0256_project_final.Base.{ℕ, ◌≤◌, ◌<◌, ◌≡◌, Option, some, true, arith, lt→ltb}
use e0256_project_final.MemGraph.State.{State, Env, Block, ok, fault, memory_pool_size}
use e0256_project_final.MemGraph.Pool.{Buffer, initialize_graph, clear_pool, ensure_pool}
use e0256_project_final.Sandbox.{
  System, Kernel, returns, broken, freed, holds, kfree, sandbox_init, sandbox_cleanup, accept_data,
  receive, use_buffer, start_graph,
}

pool_there : (env : Env) (s : State) (b : Block) → s.pool ≡ some b → ensure_pool env s ≡ ok tt s
unfolding ensure_pool
pool_there env s b live = ground arith

clear_overflow : (size : ℕ) (s : State) → memory_pool_size < size → clear_pool size s ≡ fault
unfolding clear_pool
clear_overflow size s over = rw (lt→ltb memory_pool_size size over)

-- `initialize_graph` with a size above the pool's writes behind the pool: it clears `size` bytes
-- before it compares the size. This is so for every buffer, where there is a pool.
pub initialize_overflow :
    (env : Env) (src : Option Buffer) (size : ℕ) (s : State) (b : Block)
    → s.pool ≡ some b
    → memory_pool_size < size
    → initialize_graph env src size s ≡ fault
unfolding initialize_graph
initialize_overflow env src size s b live over =
    ground (arith, pool_there env s b live, clear_overflow size s over)

-- Where a pool is there, the feature is configured and `kmalloc` grants the size, `sandbox_init`
-- on more bytes of the process than the pool has writes outside the pool in the kernel.
pub init_overflow :
    (sys : System) (k : Kernel) (user_data : Buffer) (size : ℕ) (b : Block)
    → sys.configured ≡ true
    → sys.kmalloc_grants size ≡ true
    → k.graph.pool ≡ some b
    → memory_pool_size < size
    → size ≤ user_data.size
    → sandbox_init sys (some user_data) size k ≡ broken
unfolding sandbox_init accept_data receive use_buffer start_graph kfree
init_overflow sys k user_data size b on granted live over there = ground (
  arith,
  initialize_overflow sys.env (some (record { size = size; bytes = user_data.bytes })) size k.graph
      b live over,
)

-- Where the feature is configured and `kernel_buffer` holds a buffer, `sandbox_cleanup` returns 0
-- and leaves the pointer to the freed buffer: a second one, and a `sandbox_init` with data and a
-- size above 0 behind it, free it again.
pub cleanup_then_broken :
    (sys : System) (k : Kernel) (held user_data : Buffer) (size : ℕ)
    → sys.configured ≡ true
    → k.kernel_buffer ≡ holds held
    → 0 < size
    → (k' : Kernel) × (sandbox_cleanup sys k ≡ returns 0 k')
      × (sandbox_cleanup sys k' ≡ broken)
      × (sandbox_init sys (some user_data) size k' ≡ broken)
unfolding sandbox_init sandbox_cleanup accept_data kfree
cleanup_then_broken sys k held user_data size on there some_bytes =
    (record k { kernel_buffer = freed }, ground arith, ground arith, ground arith)
