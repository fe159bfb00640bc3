-- ===== src/MemGraph/Storage.antt =====
-- memgraph.c of the toolchain: a pool stored in a file and loaded from it.
use e0256_project_final.Base.{ℕ, ◌≤◌, ◌≡◌, refl, none, some, arith, true}
use e0256_project_final.Base.Int.{pos}
use e0256_project_final.MemGraph.Bytes.{memcpy}
use e0256_project_final.MemGraph.State.{Env, State, Block, Listing, ok, memory_pool_size}
use e0256_project_final.MemGraph.Pool.{
  Buffer, store_graph, load_graph, copy_to_pool, change_pool, check_graph,
}
use e0256_project_final.MemGraph.Graph.{Graph}
use e0256_project_final.MemGraph.Runs.{Represents}
use e0256_project_final.MemGraph.Verify.{verify_graph}
use e0256_project_final.MemGraph.Verify.Accepts.{Finished, verify_accepts_fresh}
use e0256_project_final.MemGraph.RoundTrip.{
  created, created_bytes, ensure_pool_lem, Finished-ext, memcpy_same,
}

-- The file that holds the bytes of a block.
abbrev pub file_of : Block → Buffer
file_of b = record { size = memory_pool_size; bytes = b.bytes }

store_lem :
    (s : State) (b : Block)
    → s.pool ≡ some b
    → store_graph true memory_pool_size s ≡ ok (file_of b) s
unfolding store_graph
store_lem s b live = ground arith

module _ (env : Env) (all : (i n : ℕ) → env.grants i n ≡ true) (s : State) (gone : s.pool ≡ none)
    (file : Buffer) where
  -- The block and the state after the file was read.
  abbrev pub read_block : Block
  read_block = record {
    serial = s.mallocs;
    bytes = memcpy file.bytes memory_pool_size created_bytes;
  }

  abbrev pub read_state : State
  read_state = record (created env all s gone) { pool = some read_block }

  load_lem :
      (t : State)
      → memory_pool_size ≤ file.size
      → verify_graph env read_state ≡ ok (pos 1) t
      → load_graph env (some file) s ≡ ok tt t
  unfolding load_graph copy_to_pool change_pool check_graph
  load_lem t there verified = ground (arith, ensure_pool_lem env all s gone)

module _ (env : Env) (all : (i n : ℕ) → env.grants i n ≡ true) (s : State)
    (gone : s.pool ≡ none) where
  -- Where the file system takes all bytes, `store_graph` on a pool that holds a finished graph writes
  -- a file, and `load_graph` of that file, in a library with no pool and no node array and with its
  -- requests granted, leaves a pool that stands for the same graph.
  pub load-store :
      (stored : State) (b : Block) (g : Graph) (a : ℕ)
      → stored.pool ≡ some b
      → Finished b.bytes g a
      → s.nodes ≡ none
      → (file : Buffer) × (t : State) × (l : Listing) × (store_graph true memory_pool_size stored
          ≡ ok file stored)
        × (load_graph env (some file) s ≡ ok tt t)
        × Represents t g a (read_block env all s gone file) l
  load-store stored b g a live h empty =
      let file = file_of b in
      let b' = read_block env all s gone file in
      let h' : Finished b'.bytes g a =
        Finished-ext b.bytes b'.bytes g a memory_pool_size
          (λ p lt. memcpy_same b.bytes created_bytes memory_pool_size p lt) (omega arith)
          (omega (arith, h.fits)) h in
      let (verified, stands) =
        verify_accepts_fresh env (read_state env all s gone file) g a b' refl h' empty (all _ _) in
      (
        file,
        _,
        _,
        store_lem stored b live,
        load_lem env all s gone file _ (omega arith) verified,
        stands,
      )
