-- ===== src/Sandbox/Policy.antt =====
-- What the system calls leave of the policy that is in force, on every path.
use e0256_project_final.Base.{ℕ, ◌≡◌, refl, ◌≢◌, Option, arith}
use e0256_project_final.MemGraph.Pool.{Buffer}
use e0256_project_final.MemGraph.Frame.{valid-Reads, transition-Keeps}
use e0256_project_final.Sandbox.{
  System, Kernel, Reply, returns, killed, broken, sandbox_init, sandbox_dummycall, accept_data,
  receive, use_buffer, start_graph, decide_call, advance,
}

-- A `sandbox_init` that returns anything but 0 leaves the library's state, and with it the graph that
-- was in force, as it was, on every one of its error paths.
pub init_keeps :
    (sys : System) (user_data : Option Buffer) (size v : ℕ) (k k' : Kernel)
    → sandbox_init sys user_data size k ≡ returns v k'
    → v ≢ 0
    → k'.graph ≡ k.graph
unfolding sandbox_init accept_data receive use_buffer start_graph
init_keeps sys user_data size v k k' h failed = ground arith

-- A reply to a call leaves the pool, the array of nodes and the kernel's buffer as they were, and
-- where it kills the process it leaves the kernel as it was.
abbrev pub Undisturbed : Kernel → Reply → Type 0
Undisturbed k (returns v k') =
    (k'.graph.pool ≡ k.graph.pool)
    × (k'.graph.nodes ≡ k.graph.nodes)
    × (k'.kernel_buffer ≡ k.kernel_buffer)
Undisturbed k (killed k') = k' ≡ k
Undisturbed k broken = Unit {0}

reply-Undisturbed :
    (sys : System) (c : ℕ) (k : Kernel) (reply : Reply)
    → sandbox_dummycall sys c k ≡ reply
    → Undisturbed k reply
unfolding sandbox_dummycall decide_call advance
reply-Undisturbed sys c k (returns v k') h =
    grind (arith, valid-Reads c k.graph, transition-Keeps c)
reply-Undisturbed sys c k (killed k') h = grind (arith, valid-Reads c k.graph)
reply-Undisturbed sys c k broken h = tt

-- Whatever is in the pool, a `sandbox_dummycall` that returns leaves the pool, the array of nodes
-- and the kernel's buffer as they were, and one that kills the process changes nothing in the
-- kernel.
pub dummycall_keeps :
    (sys : System) (c : ℕ) (k : Kernel) → Undisturbed k (sandbox_dummycall sys c k)
dummycall_keeps sys c k = reply-Undisturbed sys c k (sandbox_dummycall sys c k) refl
