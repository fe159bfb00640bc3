-- ===== src/Sandbox/Shared.antt =====
-- Several processes that make their library calls over the one graph and the one query state that
-- the kernel has.
use e0256_project_final.Base.{
  ℕ, ◌<◌, ◌≡◌, ◌≢◌, ◌∙◌, true, arith, length, ◌==◌, Bool-cases, inl, inr, ==_of_ne, ==_of_eq, sym,
  subst,
}
use e0256_project_final.MemGraph.State.{Block, Listing}
use e0256_project_final.MemGraph.Graph.{Graph, target, NodesClosed, target-lt}
use e0256_project_final.MemGraph.Runs.{
  Represents, StandsAt, standing, standing-Represents, standing-StandsAt,
}
use e0256_project_final.Sandbox.{System, Kernel, returns, killed, broken, sandbox_dummycall}
use e0256_project_final.Sandbox.Trace.{dummycall_refines}

killed-ne-returns : {k k' : Kernel} {v : ℕ} → killed k ≢ returns v k'
killed-ne-returns e = cc

killed-ne-broken : {k : Kernel} → killed k ≢ broken
killed-ne-broken e = cc

returns-ne-broken : {k : Kernel} {v : ℕ} → returns v k ≢ broken
returns-ne-broken e = cc

killed_inj : {k k' : Kernel} → killed k ≡ killed k' → k ≡ k'
killed_inj e = cc

returns_inj : {k k' : Kernel} {v v' : ℕ} → returns v k ≡ returns v' k' → k ≡ k'
returns_inj e = cc

-- A process makes a library call: it goes on, or it is killed and the others go on.
pub data Step (sys : System) (k k' : Kernel) : Type 0 where
  goes_on : (pid c v : ℕ) → sandbox_dummycall sys c k ≡ returns v k' → Step sys k k'
  dies : (pid c : ℕ) → sandbox_dummycall sys c k ≡ killed k' → Step sys k k'

-- Any number of calls, of any processes in any order.
pub data Calls (sys : System) (k : Kernel) : Kernel → Type 0 where
  here : Calls sys k k
  next : {k' k'' : Kernel} → Calls sys k k' → Step sys k' k'' → Calls sys k k''

module _ (sys : System) (on : sys.configured ≡ true) (g : Graph) (a : ℕ) (b : Block) (l : Listing)
    (closed : NodesClosed (length g) g) where
  -- The kernel stands at some node of the graph.
  pub record Stands (k : Kernel) : Type 0 where
    pub represents : Represents k.graph g a b l
    pub node : ℕ
    pub at_node : StandsAt k.graph g a b node

  -- One call at a node: where it leads, and that it is no fault.
  call_cases :
      (k : Kernel) (s : Stands k) (c : ℕ)
      → ((k' : Kernel) → (v : ℕ) → sandbox_dummycall sys c k ≡ returns v k' → Stands k')
        × ((k' : Kernel) → sandbox_dummycall sys c k ≡ killed k' → Stands k')
        × (sandbox_dummycall sys c k ≢ broken)
  call_cases k s c =
      let t = target g s.node c in
      let inside = target-lt (length g) g s.node c (omega (arith, s.at_node.inside)) closed in
      let one = dummycall_refines sys on g a b l k s.represents s.node c s.at_node inside in
      let k1 : Kernel = record k { graph = standing k.graph g a b l s.represents t } in
      let moved : Stands k1 = record {
        represents = standing-Represents k.graph g a b l s.represents t;
        node = t;
        at_node = standing-StandsAt k.graph g a b l s.represents t inside;
      } in
      elim (Bool-cases (t == 0)) [
        | inl stop ↦
            let e : sandbox_dummycall sys c k ≡ killed k = rw stop at one in
            (
              λ k' v h. absurd (killed-ne-returns (sym e ∙ h)),
              λ k' h. subst Stands (killed_inj (sym e ∙ h)) s,
              λ h. killed-ne-broken (sym e ∙ h),
            )
        | inr more ↦
            let e : sandbox_dummycall sys c k ≡ returns t k1 = rw more at one in
            (
              λ k' v h. subst Stands (returns_inj (sym e ∙ h)) moved,
              λ k' h. absurd (killed-ne-returns (sym h ∙ e)),
              λ h. returns-ne-broken (sym e ∙ h),
            )
      ]

  Step-Stands : {k k' : Kernel} → Step sys k k' → Stands k → Stands k'
  Step-Stands {k} {k'} (goes_on pid c v e) s = (call_cases k s c).0 k' v e
  Step-Stands {k} {k'} (dies pid c e) s = (call_cases k s c).1 k' e

  -- Where the kernel, with the feature configured, stands at a node of a graph whose next states
  -- are nodes, it still does after any calls of any processes in any order, those included that
  -- were killed, and no further call is a fault.
  pub Calls-Stands :
      {k k' : Kernel}
      → Calls sys k k'
      → Stands k
      → Stands k' × ((c : ℕ) → sandbox_dummycall sys c k' ≢ broken)
  Calls-Stands {k} {k'} calls s = let s' = stays calls s in (s', λ c. (call_cases k' s' c).2)
    where
      stays : {k k' : Kernel} → Calls sys k k' → Stands k → Stands k'
      stays here s = s
      stays (next calls step) s = Step-Stands step (stays calls s)

  -- The kernel, with the feature configured and a graph whose next states are nodes, has one
  -- query state for all processes: where a process may make the call `c` at the node at which the
  -- kernel stands, and another process makes an allowed call that leads to a node where `c` is
  -- not allowed, the first process is killed for `c`.
  pub other_process_moves :
      (k : Kernel) (r : Represents k.graph g a b l) (q c c' : ℕ)
      → StandsAt k.graph g a b q
      → target g q c ≢ 0
      → target g q c' ≢ 0
      → target g (target g q c') c ≡ 0
      → ((k1 : Kernel) × (sandbox_dummycall sys c k ≡ returns (target g q c) k1))
        × ((k2 : Kernel) × (sandbox_dummycall sys c' k ≡ returns (target g q c') k2)
            × (sandbox_dummycall sys c k2 ≡ killed k2))
  other_process_moves k r q c c' at_q allowed moves refused =
      let t = target g q c' in
      let inside =
        λ (d : ℕ) (p : ℕ) (lt : p < length g). target-lt (length g) g p d (omega arith) closed in
      let t_in = inside c' q at_q.inside in
      let k2 : Kernel = record k { graph = standing k.graph g a b l r t } in
      let first = dummycall_refines sys on g a b l k r q c at_q (inside c q at_q.inside) in
      let second = dummycall_refines sys on g a b l k r q c' at_q t_in in
      let third =
        dummycall_refines sys on g a b l k2 (standing-Represents k.graph g a b l r t) t c
          (standing-StandsAt k.graph g a b l r t t_in) (inside c t t_in) in
      (
        (_, rw (==_of_ne _ _ allowed) at first),
        (k2, rw (==_of_ne _ _ moves) at second, rw (==_of_eq _ _ refused) at third),
      )
