-- ===== src/MemGraph/RoundTrip.antt =====
-- The way of a graph from the toolchain, which builds it, to the kernel, which enforces it.
use e0256_project_final.Base.{
  ℕ, suc, ◌+◌, ◌≤◌, ◌<◌, ◌≡◌, ◌≢◌, ◌⊎◌, refl, sym, ◌∙◌, [], none, some, arith, inl, inr, true,
}
use e0256_project_final.Base.Int.{pos}
use e0256_project_final.MemGraph.Bytes.{
  Bytes, read_le, write_le, memset, memcpy, put_byte, read_le-ext,
}
use e0256_project_final.MemGraph.Metadata
use e0256_project_final.MemGraph.State.{
  Env, State, Block, Listing, at, ok, set_pool_word, set_pool_byte, memory_pool_size,
  node_table_offset, graph_meta_magic_number, mempool_version,
}
use e0256_project_final.MemGraph.Pool.{
  Buffer, create_pool, initialize_graph, load_buffer, copy_to_pool, change_pool, clear_pool,
  ensure_pool, forget_nodes, check_graph,
}
use e0256_project_final.MemGraph.Graph.{Graph, graph_size, NodesFit}
use e0256_project_final.MemGraph.Build.Bytes.{NodesAt-ext}
use e0256_project_final.MemGraph.Build.Room.{unlisted}
use e0256_project_final.MemGraph.Build.Correct.{Building}
use e0256_project_final.MemGraph.Build.{finalize_graph}
use e0256_project_final.MemGraph.Runs.{Represents}
use e0256_project_final.MemGraph.Verify.{verify_graph}
use e0256_project_final.MemGraph.Verify.Accepts.{
  Laid, Finished, Laid-Finished, verify_accepts_fresh,
}

-- The bytes of a new pool.
pub created_bytes : Bytes
created_bytes = write_le 8 64 0 (
    write_le 8 72 node_table_offset (
      write_le 8 0 graph_meta_magic_number (
        write_le 8 8 mempool_version
          (write_le 8 24 memory_pool_size (memset memory_pool_size (λ _. 0))))))

module _ (env : Env) (all : (i n : ℕ) → env.grants i n ≡ true) (s : State)
    (gone : s.pool ≡ none) where
  abbrev pub created : State
  created = record s {
    pool = some (record { serial = s.mallocs; bytes = created_bytes });
    pool_edge = at s.mallocs node_table_offset;
    mallocs = suc s.mallocs;
  }

  pub create_pool_lem : create_pool env s ≡ ok tt created
  unfolding create_pool set_pool_word created_bytes change_pool
  create_pool_lem = ground (arith, all s.mallocs memory_pool_size)

  pub ensure_pool_lem : ensure_pool env s ≡ ok tt created
  unfolding ensure_pool
  ensure_pool_lem = ground (arith, create_pool_lem)

-- A new graph: the pool is there, and holds no node yet.
abbrev pub new_block : ℕ → Block
new_block serial = record { serial = serial; bytes = memset 0 created_bytes }

module _ (env : Env) (all : (i n : ℕ) → env.grants i n ≡ true) (s : State)
    (gone : s.pool ≡ none) where
  abbrev pub new_graph : State
  new_graph = record (created env all s gone) { pool = some (new_block s.mallocs); nodes = none }

  new_graph_lem : initialize_graph env none 0 s ≡ ok tt new_graph
  unfolding initialize_graph clear_pool change_pool forget_nodes
  new_graph_lem = ground (arith, ensure_pool_lem env all s gone)

  new_graph-Building : s.num_nodes_listings ≤ 4096 → Building new_graph [] (new_block s.mallocs)
  unfolding created_bytes memset read_le write_le
  new_graph-Building few = record {
    pool = refl;
    pool_edge = refl;
    magic = refl;
    offset = refl;
    count = refl;
    table = tt;
    room = unlisted refl few refl;
  }

  -- From a library with no pool, with its requests granted and with `num_nodes_listings` at most
  -- 4096, `initialize_graph(NULL, 0)` makes a pool with no node, to which nodes can be added.
  pub initialize_empty :
      s.num_nodes_listings ≤ 4096
      → (initialize_graph env none 0 s ≡ ok tt new_graph)
        × Building new_graph [] (new_block s.mallocs)
  initialize_empty few = (new_graph_lem, new_graph-Building few)

-- The block with the byte `graph_finalized` set.
abbrev pub finished_block : Block → Block
finished_block b = record b { bytes = put_byte Metadata.graph_finalized 1 b.bytes }

finished_same : (b : Block) (p : ℕ) → p ≢ 32 → b.bytes p ≡ (finished_block b).bytes p
finished_same b p h = ground arith

-- Over a pool under construction that holds a graph with eight bytes to spare behind it,
-- `finalize_graph` changes one byte of the pool, which is then a finalized one with the graph.
pub finalize_lays :
    (s : State) (g : Graph) (b : Block)
    → Building s g b
    → node_table_offset + graph_size g + 8 ≤ memory_pool_size
    → (finalize_graph s ≡ ok tt (record s { pool = some (finished_block b) }))
      × Laid (finished_block b).bytes g node_table_offset
unfolding finalize_graph set_pool_byte
finalize_lays s g b h fits =
    let same = λ (a : ℕ) (off : (a + 8 ≤ 32) ⊎ (33 ≤ a)).
      read_le-ext 8 (finished_block b).bytes b.bytes a
        (λ p l u. sym (finished_same b p (omega arith))) in
    (
      ground (arith, h.pool),
      record {
        finalized = omega arith;
        magic = same 0 (inl (omega arith)) ∙ h.magic;
        count = same 64 (inr (omega arith)) ∙ h.count;
        offset = same 72 (inr (omega arith)) ∙ h.offset;
        table = NodesAt-ext b.bytes _ 88 g (λ p lo hi. finished_same b p (omega arith)) h.table;
        fits = fits;
      },
    )

-- Over a pool under construction that holds a graph whose next states fit an `int`, with eight
-- bytes to spare behind the graph, `finalize_graph` succeeds and changes one byte of the pool, and
-- the bytes are then those of a finished pool that holds the same graph.
pub finalize_finishes :
    (s : State) (g : Graph) (b : Block)
    → Building s g b
    → NodesFit g
    → node_table_offset + graph_size g + 8 ≤ memory_pool_size
    → (finalize_graph s ≡ ok tt (record s { pool = some (finished_block b) }))
      × Finished (finished_block b).bytes g node_table_offset
finalize_finishes s g b h small fits =
    let (done, laid) = finalize_lays s g b h fits in
    (done, Laid-Finished (finished_block b).bytes g node_table_offset laid small)

-- Bytes that agree below a bound that the graph lies under hold the same graph.
pub Finished-ext :
    (m m' : Bytes) (g : Graph) (a size : ℕ)
    → ((p : ℕ) → p < size → m p ≡ m' p)
    → 88 ≤ size
    → a + graph_size g ≤ size
    → Finished m g a
    → Finished m' g a
Finished-ext m m' g a size same meta table h =
    let word =
      λ (k : ℕ) (hi : k + 8 ≤ 88). read_le-ext 8 m' m k (λ p l u. sym (same p (omega arith))) in
    record {
      finalized = λ e. h.finalized (same 32 (omega arith) ∙ e);
      magic = word 0 (omega arith) ∙ h.magic;
      count = word 64 (omega arith) ∙ h.count;
      offset = word 72 (omega arith) ∙ h.offset;
      table = NodesAt-ext m m' a g (λ p l u. same p (omega arith)) h.table;
      small = h.small;
      fits = h.fits;
    }

-- What the pool holds after `size` bytes of the buffer were copied into a cleared pool.
abbrev pub loaded_block : Buffer → ℕ → ℕ → Block
loaded_block src size serial = record {
  serial = serial;
  bytes = memcpy src.bytes size (memset size created_bytes);
}

pub memcpy_same : (src m : Bytes) (size p : ℕ) → p < size → src p ≡ memcpy src size m p
unfolding memcpy
memcpy_same src m size p h = ground arith

module _ (env : Env) (all : (i n : ℕ) → env.grants i n ≡ true) (s : State) (gone : s.pool ≡ none)
    (src : Buffer) (size : ℕ) where
  abbrev pub loaded : State
  loaded = record (created env all s gone) { pool = some (loaded_block src size s.mallocs) }

  load_lem :
      (t : State)
      → size ≤ memory_pool_size
      → size ≤ src.size
      → verify_graph env loaded ≡ ok (pos 1) t
      → load_buffer env src size (record (created env all s gone) {
        pool = some (record { serial = s.mallocs; bytes = memset size created_bytes });
      })
        ≡ ok tt t
  unfolding load_buffer copy_to_pool change_pool check_graph
  load_lem t fits there verified = ground arith

  initialize_lem :
      (t : State)
      → 0 < size
      → size ≤ memory_pool_size
      → size ≤ src.size
      → verify_graph env loaded ≡ ok (pos 1) t
      → initialize_graph env (some src) size s ≡ ok tt t
  unfolding initialize_graph clear_pool change_pool
  initialize_lem t some_bytes fits there verified =
      ground (arith, ensure_pool_lem env all s gone, load_lem t fits there verified)

  -- From a library with no pool and no node array, and with its requests granted,
  -- `initialize_graph` on a buffer that holds a finished graph within its first `size` bytes, at
  -- least 88 and at most the pool's, leaves a pool that stands for the graph.
  pub initialize-Represents :
      (g : Graph) (a : ℕ)
      → s.nodes ≡ none
      → Finished src.bytes g a
      → 88 ≤ size
      → a + graph_size g ≤ size
      → size ≤ memory_pool_size
      → size ≤ src.size
      → (t : State) × (l : Listing) × (initialize_graph env (some src) size s ≡ ok tt t)
        × Represents t g a (loaded_block src size s.mallocs) l
  initialize-Represents g a empty h meta table fits there =
      let b = loaded_block src size s.mallocs in
      let h' : Finished b.bytes g a =
        Finished-ext src.bytes b.bytes g a size (λ p lt. memcpy_same src.bytes _ size p lt) meta
          table h in
      let (verified, stands) = verify_accepts_fresh env loaded g a b refl h' empty (all _ _) in
      (_, _, initialize_lem _ (omega arith) fits there verified, stands)
