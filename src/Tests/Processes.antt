-- ===== src/Tests/Processes.antt =====
-- The system calls over several processes, and the applet.
use e0256_project_final.Base.{ℕ, ◌≡◌, ◌≢◌, refl, none, some, arith}
use e0256_project_final.Base.Int.{pos}
use e0256_project_final.MemGraph.State.{State, Block, Listing}
use e0256_project_final.MemGraph.Pool.{Buffer}
use e0256_project_final.MemGraph.Alloc.{new_listing}
use e0256_project_final.MemGraph.Graph.{walk, target, edge_target}
use e0256_project_final.MemGraph.Runs.{Represents, StandsAt, standing, standing-Represents}
use e0256_project_final.MemGraph.Reload.{reloaded_block}
use e0256_project_final.MemGraph.Verify.Accepts.{filled}
use e0256_project_final.Sandbox.{
  Kernel, returns, killed, broken, holds, sandbox_init, sandbox_dummycall,
}
use e0256_project_final.Sandbox.Trace.{dummycall_refines}
use e0256_project_final.Sandbox.Lifecycle.{Used, reinit_refines, reinit_breaks, unverified_accepted}
use e0256_project_final.Sandbox.Shared.{
  Calls, here, next, goes_on, dies, Stands, Calls-Stands, other_process_moves,
}
use e0256_project_final.Applet.{count_up, syscalltest_main}
use e0256_project_final.Applet.Enforced.{EndsAt, applet_enforced}
use e0256_project_final.Tests.Memory.{sample, sample_closed}
use e0256_project_final.Tests.Kernels.{
  sys, fresh, ready, finished, finalized, handed, verified, accepted, at_one, at_one-StandsAt,
  at_one-Represents, standing_kernel,
}

abbrev listing : Listing
listing = filled sample 88 finished (new_listing sys.env 2)

used : Used sys standing_kernel finished listing
used = record {
  configured = refl;
  kmalloc_grants = λ _. refl;
  pool = refl;
  nodes = refl;
  not_freed = λ e. cc;
}

-- The next process brings the same graph.
reinit_refines_example :
    (k' : Kernel) × (l' : Listing) × (sandbox_init sys (some handed) 4096 standing_kernel
      ≡ returns 0 k')
    × Represents k'.graph sample 88 (reloaded_block finished handed 4096) l'
    × StandsAt k'.graph sample 88 (reloaded_block finished handed 4096) 0
    × Used sys k' (reloaded_block finished handed 4096) l'
    × (l'.size ≡ listing.size)
reinit_refines_example =
    reinit_refines sys standing_kernel finished listing used handed 4096 sample 88 finalized
      (omega arith) (omega arith) (omega arith) (omega arith) (omega arith) (omega arith)

-- An array for one node.
abbrev narrow : Listing
narrow = record listing { size = 1 }

abbrev narrow_kernel : Kernel
narrow_kernel = record {
  graph = record at_one { nodes = some narrow };
  kernel_buffer = holds handed;
}

narrow-Used : Used sys narrow_kernel finished narrow
narrow-Used = record {
  configured = refl;
  kmalloc_grants = λ _. refl;
  pool = refl;
  nodes = refl;
  not_freed = λ e. cc;
}

reinit_breaks_example : sandbox_init sys (some handed) 4096 narrow_kernel ≡ broken
reinit_breaks_example =
    reinit_breaks sys narrow_kernel finished narrow narrow-Used handed 4096 sample 88 finalized
      (omega arith) (omega arith) (omega arith) (omega arith) (omega arith)

-- Data that nobody has finished: all bytes are 0.
abbrev blank : Buffer
blank = record { size = 4096; bytes = λ _. 0 }

unverified_accepted_example :
    (k' : Kernel) × (sandbox_init sys (some blank) 4096 standing_kernel ≡ returns 0 k')
    × (k'.graph.pool ≡ some (reloaded_block finished blank 4096))
unverified_accepted_example =
    unverified_accepted sys standing_kernel finished listing used blank 4096 refl (omega arith)
      (omega arith) (omega arith) refl (omega arith)

call_returns : sandbox_dummycall sys 354 standing_kernel ≡ returns 1 standing_kernel
unfolding target edge_target
call_returns =
    dummycall_refines sys refl sample 88 finished listing standing_kernel at_one-Represents 1 354
      at_one-StandsAt (omega arith)

call_killed : sandbox_dummycall sys 66 standing_kernel ≡ killed standing_kernel
unfolding target edge_target
call_killed =
    dummycall_refines sys refl sample 88 finished listing standing_kernel at_one-Represents 1 66
      at_one-StandsAt (omega arith)

-- One process goes on, another is killed.
two-Calls : Calls sys standing_kernel standing_kernel
two-Calls = next (next here (goes_on 1 354 1 call_returns)) (dies 2 66 call_killed)

Stands-at_one : Stands sys refl sample 88 finished listing sample_closed standing_kernel
Stands-at_one = record { represents = at_one-Represents; node = 1; at_node = at_one-StandsAt }

Calls-Stands_example :
    Stands sys refl sample 88 finished listing sample_closed standing_kernel
    × ((c : ℕ) → sandbox_dummycall sys c standing_kernel ≢ broken)
Calls-Stands_example =
    Calls-Stands sys refl sample 88 finished listing sample_closed two-Calls Stands-at_one

abbrev at_zero : State
at_zero = standing verified sample 88 finished listing accepted.1 0

abbrev entry_kernel : Kernel
entry_kernel = record { graph = at_zero; kernel_buffer = holds handed }

at_zero-StandsAt : StandsAt at_zero sample 88 finished 0
at_zero-StandsAt = record { current = refl; start = refl; inside = omega arith }

at_zero-Represents : Represents at_zero sample 88 finished listing
at_zero-Represents = standing-Represents verified sample 88 finished listing accepted.1 0

-- Both processes may make call 201 at node 0; after the one has made it, the other may not.
other_process_moves_example :
    ((k1 : Kernel) × (sandbox_dummycall sys 201 entry_kernel ≡ returns 1 k1))
    × ((k2 : Kernel) × (sandbox_dummycall sys 201 entry_kernel ≡ returns 1 k2)
        × (sandbox_dummycall sys 201 k2 ≡ killed k2))
unfolding target edge_target
other_process_moves_example =
    other_process_moves sys refl sample 88 finished listing sample_closed entry_kernel
      at_zero-Represents 0 201 201 at_zero-StandsAt (omega arith) (omega arith) refl

-- The graph does not allow call 1.
applet_enforced_example :
    (b : Block) × (l : Listing) × EndsAt sample 88 b l none
      (syscalltest_main pos sys handed 4096 fresh)
unfolding walk target edge_target count_up
applet_enforced_example =
    applet_enforced pos (λ v small. refl) sys fresh ready handed 4096 sample 88 finalized
      sample_closed (omega arith) (omega arith) (omega arith) (omega arith) (omega arith)
