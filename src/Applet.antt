-- ===== src/Applet.antt =====
-- busybox/miscutils/syscalltest.c: the applet that hands a graph to the kernel and makes calls.
pub mod Enforced
use e0256_project_final.Base.{ℕ, zero, suc, List, [], ◌∷◌, some}
use e0256_project_final.Base.Int.{ℤ, pos, negsuc}
use e0256_project_final.MemGraph.Pool.{Buffer}
use e0256_project_final.Sandbox.{
  System, Kernel, Reply, returns, killed, broken, sandbox_init, sandbox_dummycall,
}

-- How the applet ends: with an exit code, killed in a call, or in a fault of the kernel.
pub data Outcome : Type 0 where
  exits : ℕ → Kernel → Outcome
  dies : Kernel → Outcome
  crashes : Outcome

-- The values of `i` in `for (int i = 1; i < 20; i++)`.
unfoldable pub count_up : ℕ → ℕ → List ℕ
count_up zero i = []
count_up (suc k) i = i ∷ count_up k (suc i)

-- What `syscall` of the C library makes of the value that the kernel returns, as an `int`, is a
-- parameter.
module _ (syscall : ℕ → ℤ) (sys : System) where
  -- The loop ends at the first negative result, with EXIT_FAILURE.
  unfoldable pub make_calls : List ℕ → Kernel → Outcome
  make_calls [] k = exits 0 k
  make_calls (i ∷ is) k = elim (sandbox_dummycall sys i k) [
    | returns v k' ↦ elim (syscall v) [ pos ret ↦ make_calls is k' | negsuc ret ↦ exits 1 k' ]
    | killed k' ↦ dies k'
    | broken ↦ crashes
  ]

  -- The result of `sandbox_init` is not looked at.
  unfoldable pub syscalltest_main : Buffer → ℕ → Kernel → Outcome
  syscalltest_main sandbox_data size k = elim (sandbox_init sys (some sandbox_data) size k) [
    | returns v k' ↦ make_calls (count_up 19 1) k'
    | killed k' ↦ dies k'
    | broken ↦ crashes
  ]
