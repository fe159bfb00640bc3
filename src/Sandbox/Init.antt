-- ===== src/Sandbox/Init.antt =====
-- `sandbox_init` on a graph that the toolchain built.
use e0256_project_final.Base.{ℕ, ◌+◌, ◌≤◌, ◌<◌, ◌≡◌, ◌≢◌, List, none, some, true, arith, length}
use e0256_project_final.MemGraph.State.{
  State, Block, Listing, ok, ◌>>◌, bind_ok, memory_pool_size, node_table_offset,
}
use e0256_project_final.MemGraph.Pool.{Buffer, initialize_graph}
use e0256_project_final.MemGraph.Query.{reset_progstate}
use e0256_project_final.MemGraph.Graph.{Graph, NodesClosed, NodesFit, graph_size, walk}
use e0256_project_final.MemGraph.Runs.{
  Represents, StandsAt, standing, standing-Represents, standing-StandsAt,
}
use e0256_project_final.MemGraph.Transition.{reset_refines}
use e0256_project_final.MemGraph.Verify.Accepts.{Finished}
use e0256_project_final.MemGraph.Build.Correct.{Building}
use e0256_project_final.MemGraph.RoundTrip.{
  initialize-Represents, loaded_block, finished_block, finalize_finishes,
}
use e0256_project_final.Sandbox.{
  System, Kernel, freed, holds, returns, sandbox_init, accept_data, receive, use_buffer,
  start_graph, kfree,
}
use e0256_project_final.Sandbox.Trace.{Ends, run, run_enforces}

-- A kernel that has not run the sandbox yet, on a system that grants what it asks for.
pub record Ready (sys : System) (k : Kernel) : Type 0 where
  pub configured : sys.configured ≡ true
  pub grants : (i n : ℕ) → sys.env.grants i n ≡ true
  pub kmalloc_grants : (n : ℕ) → sys.kmalloc_grants n ≡ true
  pub no_pool : k.graph.pool ≡ none
  pub no_nodes : k.graph.nodes ≡ none
  pub not_freed : k.kernel_buffer ≢ freed

module _ (sys : System) (k : Kernel) (ready : Ready sys k) (user_data : Buffer) (size : ℕ) where
  -- The kernel's own copy of the data.
  abbrev pub copied : Buffer
  copied = record { size = size; bytes = user_data.bytes }

  init_lem :
      (t : State)
      → 20 ≤ size
      → size ≤ user_data.size
      → (initialize_graph sys.env (some copied) size >> reset_progstate) k.graph ≡ ok tt t
      → sandbox_init sys (some user_data) size k
        ≡ returns 0 (record { graph = t; kernel_buffer = holds copied })
  unfolding sandbox_init accept_data receive use_buffer start_graph kfree
  init_lem t enough there started =
      ground (arith, ready.configured, ready.kmalloc_grants size, ready.not_freed)

  -- In a kernel that is ready, and on data of at least `size` bytes that hold a finished graph
  -- with at least one node within their first `size` bytes, at least 88 and at most the pool's,
  -- `sandbox_init` returns 0, and the kernel stands at node 0 of the graph.
  pub init_refines :
      (g : Graph) (a : ℕ)
      → Finished user_data.bytes g a
      → 0 < length g
      → 88 ≤ size
      → a + graph_size g ≤ size
      → size ≤ memory_pool_size
      → size ≤ user_data.size
      → (k' : Kernel) × (l : Listing) × (sandbox_init sys (some user_data) size k ≡ returns 0 k')
        × Represents k'.graph g a (loaded_block copied size k.graph.mallocs) l
        × StandsAt k'.graph g a (loaded_block copied size k.graph.mallocs) 0
  init_refines g a finished nodes meta table fits there =
      let b = loaded_block copied size k.graph.mallocs in
      let (t, l, loaded, stands) =
        initialize-Represents sys.env ready.grants k.graph ready.no_pool copied size g a
          ready.no_nodes finished meta table fits (omega arith) in
      let started =
        bind_ok (initialize_graph sys.env (some copied) size) (λ _. reset_progstate) k.graph t tt
          loaded (reset_refines t g a b l stands nodes) in
      (
        record { graph = standing t g a b l stands 0; kernel_buffer = holds copied },
        l,
        init_lem _ (omega arith) there started,
        standing-Represents t g a b l stands 0,
        standing-StandsAt t g a b l stands 0 nodes,
      )

-- The bytes of a pool as the toolchain embeds them in the program.
abbrev pub embedded : Block → Buffer
embedded b = record { size = memory_pool_size; bytes = (finished_block b).bytes }

-- A graph that the toolchain built, with a node, with next states that are nodes of the graph and
-- fit an `int`, and with eight bytes to spare in the pool behind it, is enforced once it is
-- finalized, embedded in the program and handed to `sandbox_init` of a kernel that is ready: the
-- call returns 0, and over any sequence of library calls the process is killed exactly where the
-- automaton of the graph has no run from node 0.
pub built_graph_enforced :
    (sys : System) (k : Kernel) (s : State) (g : Graph) (b : Block) (ready : Ready sys k)
    → Building s g b
    → NodesFit g
    → NodesClosed (length g) g
    → 0 < length g
    → node_table_offset + graph_size g + 8 ≤ memory_pool_size
    → (k' : Kernel) × (b' : Block) × (l : Listing) × (sandbox_init sys
          (some (embedded b))
          memory_pool_size
          k
        ≡ returns 0 k')
      × ((cs : List ℕ)
          → Ends sys ready.configured g node_table_offset b' l (walk g 0 cs) (run sys cs k'))
built_graph_enforced sys k s g b ready built small closed nodes fits =
    let (_, finished) = finalize_finishes s g b built small fits in
    let (k', l, started, stands, here) =
      init_refines sys k ready (embedded b) memory_pool_size g node_table_offset finished nodes
        (omega arith) (omega arith) (omega arith) (omega arith) in
    (
      k',
      _,
      l,
      started,
      λ cs. run_enforces sys ready.configured g node_table_offset _ l closed cs k' 0 stands here,
    )
