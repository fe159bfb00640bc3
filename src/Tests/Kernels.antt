-- ===== src/Tests/Kernels.antt =====
-- The system calls: a program's graph is handed over and its calls are let through or not.
use e0256_project_final.Base.{
  ℕ, ◌≡◌, ◌≢◌, ◌⊎◌, ◌+◌, ◌≤◌, refl, List, [], ◌∷◌, none, some, true, arith, length,
}
use e0256_project_final.Base.Int.{pos}
use e0256_project_final.MemGraph.Bytes.{read_le}
use e0256_project_final.MemGraph.State.{
  State, Block, Listing, ok, fault, memory_pool_size, node_table_offset, graph_meta_magic_number,
}
use e0256_project_final.MemGraph.Pool.{Buffer, initialize_graph}
use e0256_project_final.MemGraph.Graph.{NodesAt, walk, target, edge_target, graph_size}
use e0256_project_final.MemGraph.Build.{finalize_graph}
use e0256_project_final.MemGraph.Runs.{Represents, StandsAt, standing, standing-Represents}
use e0256_project_final.MemGraph.Transition.{transition_refines}
use e0256_project_final.MemGraph.Query.{transition_to_state}
use e0256_project_final.MemGraph.RoundTrip.{
  finished_block, finalize_finishes, loaded_block, initialize-Represents,
}
use e0256_project_final.MemGraph.Verify.{verify_graph}
use e0256_project_final.MemGraph.Verify.Accepts.{
  Finished, with_nodes, allocated, filled, verify_accepts_fresh,
}
use e0256_project_final.MemGraph.Verify.Sound.{verify_sound, stored_graph}
use e0256_project_final.MemGraph.Alloc.{new_listing}
use e0256_project_final.Sandbox.{
  System, Kernel, returns, broken, empty, holds, sandbox_init, sandbox_cleanup,
}
use e0256_project_final.Sandbox.Trace.{Ends, run, run_enforces}
use e0256_project_final.Sandbox.Init.{Ready, embedded, copied, init_refines, built_graph_enforced}
use e0256_project_final.Sandbox.Faults.{initialize_overflow, init_overflow, cleanup_then_broken}
use e0256_project_final.MemGraph.Pool.{store_graph, load_graph}
use e0256_project_final.MemGraph.Storage.{read_block, load-store}
use e0256_project_final.Sandbox.Policy.{init_keeps, Undisturbed, dummycall_keeps}
use e0256_project_final.Sandbox.{efault, freed, sandbox_dummycall, accept_data, receive, kfree}
use e0256_project_final.Tests.Memory.{granting}
use e0256_project_final.Tests.Memory.{
  start, in_kernel, sample, second_block, sample_built, sample_small, sample_closed,
}

abbrev pub sys : System
sys = record { configured = true; kmalloc_grants = λ _. true; env = in_kernel }

abbrev pub fresh : Kernel
fresh = record { graph = start; kernel_buffer = empty }

pub ready : Ready sys fresh
ready = record {
  configured = refl;
  grants = λ _ _. refl;
  kmalloc_grants = λ _. refl;
  no_pool = refl;
  no_nodes = refl;
  not_freed = λ e. cc;
}

built_graph_enforced_example :
    (k' : Kernel) × (b' : Block) × (l : Listing) × (sandbox_init sys
        (some (embedded second_block))
        memory_pool_size
        fresh
      ≡ returns 0 k')
    × ((cs : List ℕ)
        → Ends sys refl sample node_table_offset b' l (walk sample 0 cs) (run sys cs k'))
built_graph_enforced_example =
    built_graph_enforced sys fresh sample_built.0 sample second_block ready sample_built.1
      sample_small sample_closed (omega arith) (omega arith)

-- The finished pool, and what the kernel's library makes of it.
abbrev pub finished : Block
finished = finished_block second_block

finalize_finishes_example :
    (finalize_graph sample_built.0 ≡ ok tt (record sample_built.0 { pool = some finished }))
    × Finished finished.bytes sample node_table_offset
finalize_finishes_example =
    finalize_finishes sample_built.0 sample second_block sample_built.1 sample_small (omega arith)

pub finalized : Finished finished.bytes sample node_table_offset
finalized =
    (finalize_finishes sample_built.0 sample second_block sample_built.1 sample_small
      (omega arith)).1

abbrev pub handed : Buffer
handed = record { size = memory_pool_size; bytes = finished.bytes }

initialize-Represents_example :
    (t : State) × (l : Listing) × (initialize_graph in_kernel (some handed) 4096 start ≡ ok tt t)
    × Represents t sample node_table_offset (loaded_block handed 4096 0) l
initialize-Represents_example =
    initialize-Represents in_kernel (λ _ _. refl) start refl handed 4096 sample node_table_offset
      refl finalized (omega arith) (omega arith) (omega arith) (omega arith)

abbrev pub loaded : State
loaded = record start { pool = some finished; mallocs = 1 }

abbrev pub verified : State
verified =
    with_nodes (allocated in_kernel loaded sample 88 finished refl finalized)
      (filled sample 88 finished (new_listing in_kernel 2))

verify_accepts_fresh_example :
    (verify_graph in_kernel loaded ≡ ok (pos 1) verified)
    × Represents verified sample 88 finished (filled sample 88 finished (new_listing in_kernel 2))
verify_accepts_fresh_example =
    verify_accepts_fresh in_kernel loaded sample 88 finished refl finalized refl refl

pub accepted :
    (verify_graph in_kernel loaded ≡ ok (pos 1) verified)
    × Represents verified sample 88 finished (filled sample 88 finished (new_listing in_kernel 2))
accepted = verify_accepts_fresh in_kernel loaded sample 88 finished refl finalized refl refl

verify_sound_example :
    (finished.bytes 32 ≢ 0)
    × (read_le 8 finished.bytes 0 ≡ graph_meta_magic_number)
    × NodesAt finished.bytes
        (read_le 8 finished.bytes 72)
        (stored_graph in_kernel loaded verified finished refl)
    × (length (stored_graph in_kernel loaded verified finished refl) ≡ read_le 8 finished.bytes 64)
    × ((length (stored_graph in_kernel loaded verified finished refl) ≡ 0)
        ⊎ (read_le 8 finished.bytes 72
              + graph_size (stored_graph in_kernel loaded verified finished refl)
            ≤ memory_pool_size + 16))
verify_sound_example = verify_sound in_kernel loaded verified finished refl accepted.0

-- The query state stands at node 1, whose call 354 leads back to it.
abbrev pub at_one : State
at_one =
    standing verified sample 88 finished (filled sample 88 finished (new_listing in_kernel 2))
      accepted.1 1

pub at_one-StandsAt : StandsAt at_one sample 88 finished 1
at_one-StandsAt = record { current = refl; start = refl; inside = omega arith }

pub at_one-Represents :
    Represents at_one sample 88 finished (filled sample 88 finished (new_listing in_kernel 2))
at_one-Represents =
    standing-Represents verified sample 88 finished
      (filled sample 88 finished (new_listing in_kernel 2)) accepted.1 1

transition_refines_example : transition_to_state 354 at_one ≡ ok (pos 1) at_one
unfolding target edge_target
transition_refines_example =
    transition_refines at_one sample 88 finished
      (filled sample 88 finished (new_listing in_kernel 2)) at_one-Represents 1 354 at_one-StandsAt
      (omega arith)

abbrev pub standing_kernel : Kernel
standing_kernel = record { graph = at_one; kernel_buffer = holds handed }

-- Call 354 is let through twice, and then 66, which leads to node 0, ends the process.
run_enforces_example :
    Ends sys refl sample 88 finished
      (filled sample 88 finished (new_listing in_kernel 2))
      none
      (run sys (354 ∷ 354 ∷ 66 ∷ []) standing_kernel)
unfolding walk target edge_target
run_enforces_example =
    run_enforces sys refl sample 88 finished (filled sample 88 finished (new_listing in_kernel 2))
      sample_closed (354 ∷ 354 ∷ 66 ∷ []) standing_kernel 1 at_one-Represents at_one-StandsAt

init_refines_example :
    (k' : Kernel) × (l : Listing) × (sandbox_init sys (some handed) 4096 fresh ≡ returns 0 k')
    × Represents k'.graph sample 88 (loaded_block (copied sys fresh ready handed 4096) 4096 0) l
    × StandsAt k'.graph sample 88 (loaded_block (copied sys fresh ready handed 4096) 4096 0) 0
init_refines_example =
    init_refines sys fresh ready handed 4096 sample 88 finalized (omega arith) (omega arith)
      (omega arith) (omega arith) (omega arith)

-- One byte more than the pool has.
abbrev too_long : Buffer
too_long = record { size = memory_pool_size + 1; bytes = finished.bytes }

initialize_overflow_example :
    initialize_graph in_kernel (some too_long) (memory_pool_size + 1) at_one ≡ fault
initialize_overflow_example =
    initialize_overflow in_kernel (some too_long) (memory_pool_size + 1) at_one finished refl
      (omega arith)

init_overflow_example :
    sandbox_init sys (some too_long) (memory_pool_size + 1) standing_kernel ≡ broken
init_overflow_example =
    init_overflow sys standing_kernel too_long (memory_pool_size + 1) finished refl refl refl
      (omega arith) (omega arith)

cleanup_then_broken_example :
    (k' : Kernel) × (sandbox_cleanup sys standing_kernel ≡ returns 0 k')
    × (sandbox_cleanup sys k' ≡ broken)
    × (sandbox_init sys (some handed) 4096 k' ≡ broken)
cleanup_then_broken_example =
    cleanup_then_broken sys standing_kernel handed handed 4096 refl refl (omega arith)

load-store_example :
    (file : Buffer) × (t : State) × (l : Listing) × (store_graph true memory_pool_size loaded
      ≡ ok file loaded)
    × (load_graph granting (some file) start ≡ ok tt t)
    × Represents t sample 88 (read_block granting (λ _ _. refl) start refl file) l
load-store_example =
    load-store granting (λ _ _. refl) start refl loaded finished sample 88 refl finalized refl

abbrev short : Buffer
short = record { size = 100; bytes = finished.bytes }

abbrev after_failure : Kernel
after_failure = record { graph = at_one; kernel_buffer = freed }

short_fails : sandbox_init sys (some short) 4096 standing_kernel ≡ returns efault after_failure
unfolding sandbox_init accept_data receive kfree
short_fails = refl

init_keeps_example : after_failure.graph ≡ standing_kernel.graph
init_keeps_example =
    init_keeps sys (some short) 4096 efault standing_kernel after_failure short_fails (omega arith)

-- A call that is killed.
dummycall_keeps_example : Undisturbed standing_kernel (sandbox_dummycall sys 66 standing_kernel)
dummycall_keeps_example = dummycall_keeps sys 66 standing_kernel
