-- ===== src/Sandbox/Lifecycle.antt =====
-- `sandbox_init` in a kernel that has run the sandbox before: the next process brings its graph.
use e0256_project_final.Base.{ℕ, ◌+◌, ◌≤◌, ◌<◌, ◌≡◌, ◌≢◌, refl, ◌∙◌, some, true, arith, length}
use e0256_project_final.MemGraph.Metadata
use e0256_project_final.MemGraph.State.{
  kernel, State, Block, Listing, ok, fault, ◌>>◌, bind_ok, memory_pool_size,
}
use e0256_project_final.MemGraph.Pool.{Buffer, initialize_graph}
use e0256_project_final.MemGraph.Query.{reset_progstate, enter}
use e0256_project_final.MemGraph.State.{get_node}
use e0256_project_final.MemGraph.Graph.{Graph, graph_size}
use e0256_project_final.MemGraph.Runs.{
  Represents, StandsAt, standing, standing-Represents, standing-StandsAt,
}
use e0256_project_final.MemGraph.Transition.{reset_refines}
use e0256_project_final.MemGraph.Verify.Accepts.{Finished}
use e0256_project_final.MemGraph.Reload.{
  reloaded_block, reloaded, reinit-Represents, reinit_overflow, initialize_unverified,
}
use e0256_project_final.Sandbox.{
  System, Kernel, freed, holds, returns, broken, sandbox_init, accept_data, receive, use_buffer,
  start_graph, kfree,
}

-- A kernel with a pool and an array of node pointers, on a system that grants what it asks for.
pub record Used (sys : System) (k : Kernel) (b : Block) (l : Listing) : Type 0 where
  pub configured : sys.configured ≡ true
  pub kmalloc_grants : (n : ℕ) → sys.kmalloc_grants n ≡ true
  pub pool : k.graph.pool ≡ some b
  pub nodes : k.graph.nodes ≡ some l
  pub not_freed : k.kernel_buffer ≢ freed

module _ (sys : System) (k : Kernel) (b : Block) (l : Listing) (used : Used sys k b l)
    (user_data : Buffer) (size : ℕ) where
  abbrev pub copied : Buffer
  copied = record { size = size; bytes = user_data.bytes }

  -- All that is left to do is what the graph library does.
  init_starts :
      20 ≤ size
      → size ≤ user_data.size
      → sandbox_init sys (some user_data) size k ≡ start_graph sys copied size k.graph
  unfolding sandbox_init accept_data receive use_buffer kfree
  init_starts enough there =
      ground (arith, used.configured, used.kmalloc_grants size, used.not_freed)

  started_lem :
      (t : State)
      → (initialize_graph sys.env (some copied) size >> reset_progstate) k.graph ≡ ok tt t
      → start_graph sys copied size k.graph
        ≡ returns 0 (record { graph = t; kernel_buffer = holds copied })
  unfolding start_graph
  started_lem t e = ground arith

  faulted_lem :
      initialize_graph sys.env (some copied) size k.graph ≡ fault
      → start_graph sys copied size k.graph ≡ broken
  unfolding start_graph
  faulted_lem e = ground arith

  module _ (g : Graph) (a : ℕ) (h : Finished user_data.bytes g a) (meta : 88 ≤ size)
      (table : a + graph_size g ≤ size) (fits : size ≤ memory_pool_size)
      (there : size ≤ user_data.size) where
    -- In a kernel with the feature configured and `kmalloc` granted that has a pool and an array of
    -- node pointers, and whose `kernel_buffer` is not one that has been freed, with room in the
    -- array for the nodes of a new graph, which has one at least: `sandbox_init` on data that hold
    -- the graph, finished, within their first `size` bytes, at least 88 and at most the pool's,
    -- returns 0; the kernel stands at node 0 of the new graph, and is again one that has a pool and
    -- an array and a `kernel_buffer` that is not freed.
    pub reinit_refines :
        0 < length g
        → length g ≤ l.size
        → (k' : Kernel) × (l' : Listing) × (sandbox_init sys (some user_data) size k ≡ returns 0 k')
          × Represents k'.graph g a (reloaded_block b copied size) l'
          × StandsAt k'.graph g a (reloaded_block b copied size) 0
          × Used sys k' (reloaded_block b copied size) l'
          × (l'.size ≡ l.size)
    reinit_refines nodes room =
        let b' = reloaded_block b copied size in
        let (t, l', loaded, stands, same) =
          reinit-Represents sys.env k.graph b used.pool copied size g a l used.nodes h meta table
            fits (omega arith) room in
        let started =
          bind_ok (initialize_graph sys.env (some copied) size) (λ _. reset_progstate) k.graph t tt
            loaded (reset_refines t g a b' l' stands nodes) in
        let stands' = standing-Represents t g a b' l' stands 0 in
        (
          record { graph = standing t g a b' l' stands 0; kernel_buffer = holds copied },
          l',
          init_starts (omega arith) there ∙ started_lem _ started,
          stands',
          standing-StandsAt t g a b' l' stands 0 nodes,
          record {
            configured = used.configured;
            kmalloc_grants = used.kmalloc_grants;
            pool = stands'.pool;
            nodes = stands'.nodes;
            not_freed = λ e. cc;
          },
          same,
        )

    -- In a kernel with the feature configured and `kmalloc` granted that has a pool and an array of
    -- node pointers, and whose `kernel_buffer` is not one that has been freed: where the finished
    -- graph in the first `size` bytes of the data, at least 88 and at most the pool's, has more
    -- nodes than the array has room for, `sandbox_init` writes behind the array in the kernel.
    pub reinit_breaks : l.size < length g → sandbox_init sys (some user_data) size k ≡ broken
    reinit_breaks full =
        init_starts (omega arith) there
        ∙ faulted_lem (
            reinit_overflow sys.env k.graph b used.pool copied size g a l used.nodes h meta table
              fits (omega arith) full)

  entered_lem :
      (s : State)
      → s.nodes ≡ some l
      → 0 < l.size
      → reset_progstate s ≡ ok tt (record s { current_progstate = 0; start_node = l.entry 0 })
  unfolding reset_progstate enter get_node
  entered_lem s e room = ground arith

  -- In the kernel build, with the feature configured and `kmalloc` granted, with a pool and an
  -- array of node pointers that is not empty, and with a `kernel_buffer` that is not one that has
  -- been freed, `sandbox_init` returns 0 also on data whose graph is not finalized, of at least 33
  -- bytes and at most the pool's: the kernel goes on with their bytes in the pool, although the
  -- verification has refused them.
  pub unverified_accepted :
      sys.env.build ≡ kernel
      → 33 ≤ size
      → size ≤ memory_pool_size
      → size ≤ user_data.size
      → user_data.bytes Metadata.graph_finalized ≡ 0
      → 0 < l.size
      → (k' : Kernel) × (sandbox_init sys (some user_data) size k ≡ returns 0 k')
        × (k'.graph.pool ≡ some (reloaded_block b copied size))
  unverified_accepted in_kernel meta fits there open_graph room =
      let t = reloaded sys.env k.graph b used.pool copied size in
      let loaded =
        initialize_unverified sys.env in_kernel k.graph b used.pool copied size meta fits
          (omega arith) open_graph in
      let started =
        bind_ok (initialize_graph sys.env (some copied) size) (λ _. reset_progstate) k.graph t tt
          loaded (entered_lem t used.nodes room) in
      (_, init_starts (omega arith) there ∙ started_lem _ started, refl)
