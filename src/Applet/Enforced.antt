-- ===== src/Applet/Enforced.antt =====
-- The applet under the sandbox.
use e0256_project_final.Base.{
  ℕ, ◌+◌, ◌≤◌, ◌<◌, ◌^◌, ◌≡◌, refl, List, [], ◌∷◌, Option, none, some, true, arith, length, ◌==◌,
  Bool-cases, inl, inr,
}
use e0256_project_final.Base.Int.{ℤ, pos}
use e0256_project_final.MemGraph.State.{Block, Listing, memory_pool_size}
use e0256_project_final.MemGraph.Pool.{Buffer}
use e0256_project_final.MemGraph.Graph.{
  Graph, target, NodesClosed, target-lt, graph_size, walk, walk_none, walk_stop, walk_more,
  length-le-graph_size,
}
use e0256_project_final.MemGraph.Runs.{
  Represents, StandsAt, standing, standing-Represents, standing-StandsAt,
}
use e0256_project_final.MemGraph.Verify.Accepts.{Finished}
use e0256_project_final.Sandbox.{System, Kernel, returns, killed, sandbox_init, sandbox_dummycall}
use e0256_project_final.Sandbox.Trace.{dummycall_refines}
use e0256_project_final.Sandbox.Init.{Ready, copied, init_refines}
use e0256_project_final.MemGraph.RoundTrip.{loaded_block}
use e0256_project_final.Applet.{Outcome, exits, dies, count_up, make_calls, syscalltest_main}

module _ (syscall : ℕ → ℤ) (sys : System) where
  calls_none : (k : Kernel) → make_calls syscall sys [] k ≡ exits 0 k
  unfolding make_calls
  calls_none k = refl

  calls_dies :
      (c : ℕ) (cs : List ℕ) (k k' : Kernel)
      → sandbox_dummycall sys c k ≡ killed k'
      → make_calls syscall sys (c ∷ cs) k ≡ dies k'
  unfolding make_calls
  calls_dies c cs k k' h = ground arith

  calls_goes_on :
      (c v n : ℕ) (cs : List ℕ) (k k' : Kernel)
      → sandbox_dummycall sys c k ≡ returns v k'
      → syscall v ≡ pos n
      → make_calls syscall sys (c ∷ cs) k ≡ make_calls syscall sys cs k'
  unfolding make_calls
  calls_goes_on c v n cs k k' h e = ground arith

  started_lem :
      (user_data : Buffer) (size : ℕ) (k k' : Kernel)
      → sandbox_init sys (some user_data) size k ≡ returns 0 k'
      → syscalltest_main syscall sys user_data size k ≡ make_calls syscall sys (count_up 19 1) k'
  unfolding syscalltest_main
  started_lem user_data size k k' h = ground arith

-- How the applet ends: with EXIT_SUCCESS at a node of the automaton, or killed.
abbrev pub EndsAt : Graph → ℕ → Block → Listing → Option ℕ → Outcome → Type 0
EndsAt g a b l none o = (k : Kernel) × (o ≡ dies k)
EndsAt g a b l (some q) o =
    (k : Kernel) × (o ≡ exits 0 k) × Represents k.graph g a b l × StandsAt k.graph g a b q

module _ (syscall : ℕ → ℤ) (plain : (v : ℕ) → v < 2 ^ 31 → syscall v ≡ pos v) (sys : System)
    (on : sys.configured ≡ true) (g : Graph) (a : ℕ) (b : Block) (l : Listing)
    (closed : NodesClosed (length g) g) where
  calls_enforced :
      (cs : List ℕ) (k : Kernel) (q : ℕ)
      → Represents k.graph g a b l
      → StandsAt k.graph g a b q
      → EndsAt g a b l (walk g q cs) (make_calls syscall sys cs k)
  calls_enforced [] k q r here = rw (walk_none g q) (k, calls_none syscall sys k, r, here)
  calls_enforced (c ∷ cs) k q r here =
      let t = target g q c in
      let inside = target-lt (length g) g q c (omega (arith, here.inside)) closed in
      let one = dummycall_refines sys on g a b l k r q c here inside in
      let k' : Kernel = record k { graph = standing k.graph g a b l r t } in
      let small : t < 2 ^ 31 = omega (arith, inside, length-le-graph_size g, r.fits) in
      let rest =
        calls_enforced cs k' t (standing-Represents k.graph g a b l r t)
          (standing-StandsAt k.graph g a b l r t inside) in
      elim (Bool-cases (t == 0)) [
        | inl stop ↦
            rw (walk_stop g q c cs stop) (k, calls_dies syscall sys c cs k k (rw stop at one))
        | inr more ↦
            rw
              (
                walk_more g q c cs more,
                calls_goes_on syscall sys c t t cs k k' (rw more at one) (plain t small),
              )
              rest
      ]

-- The applet, run in a kernel that is ready, on data that hold a finished graph with at least one
-- node, all of whose next states are nodes, within their first `size` bytes, at least 88 and at most
-- the pool's, and with a `syscall` that hands on results below 2 ^ 31: it makes the calls 1 to 19
-- and exits with EXIT_SUCCESS where the graph allows them one after the other from node 0, the kernel
-- then standing at the node they lead to; otherwise it is killed.
pub applet_enforced :
    (syscall : ℕ → ℤ) (plain : (v : ℕ) → v < 2 ^ 31 → syscall v ≡ pos v) (sys : System) (k : Kernel)
    (ready : Ready sys k) (user_data : Buffer) (size : ℕ) (g : Graph) (a : ℕ)
    → Finished user_data.bytes g a
    → NodesClosed (length g) g
    → 0 < length g
    → 88 ≤ size
    → a + graph_size g ≤ size
    → size ≤ memory_pool_size
    → size ≤ user_data.size
    → (b : Block) × (l : Listing) × EndsAt g a b l
        (walk g 0 (count_up 19 1))
        (syscalltest_main syscall sys user_data size k)
applet_enforced syscall plain sys k ready user_data size g a finished closed nodes meta table fits
      there =
    let (k', l, started, stands, here) =
      init_refines sys k ready user_data size g a finished nodes meta table fits there in
    (
      loaded_block (copied sys k ready user_data size) size k.graph.mallocs,
      l,
      rw (started_lem syscall sys user_data size k k' started) (
          calls_enforced syscall plain sys ready.configured g a _ l closed (count_up 19 1) k' 0
            stands here),
    )
