-- ===== src/Sandbox/Trace.antt =====
-- The library calls of a process, one `sandbox_dummycall` before each.
use e0256_project_final.Base.{
  ℕ, ◌<◌, ◌≡◌, refl, List, [], ◌∷◌, Option, none, some, true, arith, length, ◌==◌, if◌then◌else◌,
  Bool-cases, inl, inr,
}
use e0256_project_final.Base.Int.{word_of_int}
use e0256_project_final.MemGraph.State.{Block, Listing}
use e0256_project_final.MemGraph.Graph.{
  Graph, target, NodesClosed, target-lt, walk, walk_none, walk_stop, walk_more,
}
use e0256_project_final.MemGraph.Runs.{
  Represents, StandsAt, valid_lem, standing, standing-Represents, standing-StandsAt,
}
use e0256_project_final.MemGraph.Transition.{transition_refines}
use e0256_project_final.Sandbox.{
  System, Kernel, Reply, returns, killed, broken, sandbox_dummycall, decide_call, advance,
}

-- The process goes on while the calls return.
unfoldable pub run : System → List ℕ → Kernel → Reply
run sys [] k = returns 0 k
run sys (c ∷ cs) k = elim (sandbox_dummycall sys c k) [
  | returns _ k' ↦ run sys cs k'
  | killed k' ↦ killed k'
  | broken ↦ broken
]

run_none : (sys : System) (k : Kernel) → run sys [] k ≡ returns 0 k
unfolding run
run_none sys k = refl

module _ (sys : System) (c : ℕ) (cs : List ℕ) (k k' : Kernel) where
  run_killed : sandbox_dummycall sys c k ≡ killed k' → run sys (c ∷ cs) k ≡ killed k'
  unfolding run
  run_killed h = ground arith

  run_returns :
      (v : ℕ) → sandbox_dummycall sys c k ≡ returns v k' → run sys (c ∷ cs) k ≡ run sys cs k'
  unfolding run
  run_returns v h = ground arith

module _ (sys : System) (on : sys.configured ≡ true) (g : Graph) (a : ℕ) (b : Block)
    (l : Listing) where
  -- One call: the process is killed where the automaton has no step, and else the call returns the
  -- next node and the kernel stands there.
  pub dummycall_refines :
      (k : Kernel) (r : Represents k.graph g a b l) (q c : ℕ)
      → StandsAt k.graph g a b q
      → target g q c < length g
      → sandbox_dummycall sys c k ≡ (
          if target g q c == 0
          then killed k
          else returns
              (target g q c)
              (record k { graph = standing k.graph g a b l r (target g q c) }))
  unfolding sandbox_dummycall decide_call advance word_of_int
  dummycall_refines k r q c here inside = ground (
    arith,
    valid_lem k.graph g a b l r q c here,
    transition_refines k.graph g a b l r q c here inside,
  )

  -- How a run ends: at a node of the automaton, or killed.
  abbrev pub Ends : Option ℕ → Reply → Type 0
  Ends none reply = (k : Kernel) × (reply ≡ killed k)
  Ends (some q) reply =
      (k : Kernel) × (reply ≡ returns 0 k) × Represents k.graph g a b l × StandsAt k.graph g a b q

  -- In a kernel with the feature configured that stands at a node of a graph whose next states are
  -- nodes of the graph, over any sequence of calls the process is killed exactly where the
  -- automaton has no run over the sequence from that node, and else the kernel stands at the node
  -- at which the run ends.
  pub run_enforces :
      NodesClosed (length g) g
      → (cs : List ℕ) (k : Kernel) (q : ℕ) → Represents k.graph g a b l
      → StandsAt k.graph g a b q
      → Ends (walk g q cs) (run sys cs k)
  run_enforces closed [] k q r here = rw (walk_none g q) (k, run_none sys k, r, here)
  run_enforces closed (c ∷ cs) k q r here =
      let t = target g q c in
      let inside = target-lt (length g) g q c (omega (arith, here.inside)) closed in
      let one = dummycall_refines k r q c here inside in
      let k' : Kernel = record k { graph = standing k.graph g a b l r t } in
      let rest =
        run_enforces closed cs k' t (standing-Represents k.graph g a b l r t)
          (standing-StandsAt k.graph g a b l r t inside) in
      elim (Bool-cases (t == 0)) [
        | inl stop ↦ rw (walk_stop g q c cs stop) (k, run_killed sys c cs k k (rw stop at one))
        | inr more ↦ rw (walk_more g q c cs more, run_returns sys c cs k k' t (rw more at one)) rest
      ]
