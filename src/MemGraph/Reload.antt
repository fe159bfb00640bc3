-- ===== src/MemGraph/Reload.antt =====
-- `initialize_graph` in a library that has a pool and an array of node pointers already.
use e0256_project_final.Base.{ℕ, ◌+◌, ◌≤◌, ◌<◌, ◌≡◌, refl, ◌∙◌, some, arith, length, le→ltb}
use e0256_project_final.Base.Int.{ℤ, pos}
use e0256_project_final.MemGraph.Bytes.{memcpy, memset}
use e0256_project_final.MemGraph.Metadata
use e0256_project_final.MemGraph.State.{
  Env, kernel, State, Block, Listing, ok, fault, memory_pool_size, pool_byte,
}
use e0256_project_final.MemGraph.Pool.{
  Buffer, initialize_graph, load_buffer, copy_to_pool, change_pool, clear_pool, ensure_pool,
  check_graph,
}
use e0256_project_final.MemGraph.Graph.{Graph, graph_size}
use e0256_project_final.MemGraph.Runs.{Represents}
use e0256_project_final.MemGraph.Verify.{verify_metadata, verify_graph, error_invalid_state}
use e0256_project_final.MemGraph.Verify.Accepts.{Finished, verify_accepts_listed}
use e0256_project_final.MemGraph.Verify.Overflow.{verify_overflow}
use e0256_project_final.MemGraph.RoundTrip.{Finished-ext, memcpy_same}

-- The block after `size` bytes of the buffer were copied into the pool that is there.
abbrev pub reloaded_block : Block → Buffer → ℕ → Block
reloaded_block b src size = record b { bytes = memcpy src.bytes size (memset size b.bytes) }

module _ (env : Env) (s : State) (b : Block) (live : s.pool ≡ some b) (src : Buffer)
    (size : ℕ) where
  abbrev pub reloaded : State
  reloaded = record s { pool = some (reloaded_block b src size) }

  pool_there : ensure_pool env s ≡ ok tt s
  unfolding ensure_pool
  pool_there = ground arith

  cleared_lem :
      size ≤ memory_pool_size
      → clear_pool size s
        ≡ ok tt (record s { pool = some (record b { bytes = memset size b.bytes }) })
  unfolding clear_pool change_pool
  cleared_lem fits = ground arith

  copied_lem :
      size ≤ memory_pool_size
      → size ≤ src.size
      → load_buffer env src size
          (record s { pool = some (record b { bytes = memset size b.bytes }) })
        ≡ check_graph env reloaded
  unfolding load_buffer copy_to_pool change_pool
  copied_lem fits there = rw (le→ltb memory_pool_size size fits, le→ltb src.size size there) refl

  -- All that is left to do is the verification.
  pub reload_lem :
      0 < size
      → size ≤ memory_pool_size
      → size ≤ src.size
      → initialize_graph env (some src) size s ≡ check_graph env reloaded
  unfolding initialize_graph
  reload_lem some_bytes fits there =
      ground (arith, pool_there, cleared_lem fits, copied_lem fits there)

  accepted_lem :
      (t : State) → verify_graph env reloaded ≡ ok (pos 1) t → check_graph env reloaded ≡ ok tt t
  unfolding check_graph
  accepted_lem t e = ground arith

  faulted_lem : verify_graph env reloaded ≡ fault → check_graph env reloaded ≡ fault
  unfolding check_graph
  faulted_lem e = ground arith

  module _ (g : Graph) (a : ℕ) (l : Listing) (listed : s.nodes ≡ some l)
      (h : Finished src.bytes g a) (meta : 88 ≤ size) (table : a + graph_size g ≤ size)
      (fits : size ≤ memory_pool_size) (there : size ≤ src.size) where
    reloaded-Finished : Finished (reloaded_block b src size).bytes g a
    reloaded-Finished =
        Finished-ext src.bytes (reloaded_block b src size).bytes g a size
          (λ p lt. memcpy_same src.bytes _ size p lt) meta table h

    -- In a library with a pool and an array of node pointers, and where the array has room for the
    -- nodes of the new graph, `initialize_graph` on a buffer that holds a finished graph within its
    -- first `size` bytes, at least 88 and at most the pool's, leaves a pool that stands for the new
    -- graph, whatever stood there before.
    pub reinit-Represents :
        length g ≤ l.size
        → (t : State) × (l' : Listing) × (initialize_graph env (some src) size s ≡ ok tt t)
          × Represents t g a (reloaded_block b src size) l'
          × (l'.size ≡ l.size)
    reinit-Represents room =
        let (verified, stands) =
          verify_accepts_listed env reloaded g a (reloaded_block b src size) refl reloaded-Finished
            l listed room in
        (_, _, reload_lem (omega arith) fits there ∙ accepted_lem _ verified, stands, refl)

    -- Where the new graph has more nodes than the array that is there, `initialize_graph` writes
    -- behind the array, which it never makes anew.
    pub reinit_overflow : l.size < length g → initialize_graph env (some src) size s ≡ fault
    reinit_overflow full =
        reload_lem (omega arith) fits there
        ∙ faulted_lem (
            verify_overflow env reloaded g a (reloaded_block b src size) refl reloaded-Finished l
              listed full)

-- A failed verification in the kernel: the function returns, and the bytes stay in the pool.
module _ (env : Env) (in_kernel : env.build ≡ kernel) (s : State) (b : Block)
    (live : s.pool ≡ some b) (src : Buffer) (size : ℕ) where
  unfinished_lem :
      (reloaded_block b src size).bytes Metadata.graph_finalized ≡ 0
      → verify_graph env (reloaded env s b live src size)
        ≡ ok error_invalid_state (reloaded env s b live src size)
  unfolding verify_graph verify_metadata pool_byte
  unfinished_lem open_graph = ground arith

  ignored_lem :
      (v : ℤ) (t : State)
      → verify_graph env (reloaded env s b live src size) ≡ ok v t
      → check_graph env (reloaded env s b live src size) ≡ ok tt t
  unfolding check_graph
  ignored_lem v t e = ground (arith, in_kernel)

  -- In the kernel build, `initialize_graph` on a buffer whose graph is not finalized, which it reports
  -- and does not accept, returns all the same with the bytes of the buffer in the pool.
  pub initialize_unverified :
      33 ≤ size
      → size ≤ memory_pool_size
      → size ≤ src.size
      → src.bytes Metadata.graph_finalized ≡ 0
      → initialize_graph env (some src) size s ≡ ok tt (reloaded env s b live src size)
  unfolding memcpy
  initialize_unverified meta fits there open_graph =
      reload_lem env s b live src size (omega arith) fits there
      ∙ ignored_lem error_invalid_state (reloaded env s b live src size)
          (unfinished_lem (ground arith))
