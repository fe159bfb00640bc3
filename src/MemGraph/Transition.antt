-- ===== src/MemGraph/Transition.antt =====
-- What the query functions of memgraph.c do to a pool that stands for a graph.
use e0256_project_final.Base.{ℕ, ◌≤◌, ◌<◌, ◌≡◌, ◌≢◌, arith, length, ◌==◌, if◌then◌else◌}
use e0256_project_final.Base.Int.{pos}
use e0256_project_final.MemGraph.State.{State, Block, Listing, ok, fault}
use e0256_project_final.MemGraph.Graph.{Graph, target}
use e0256_project_final.MemGraph.Verify.{error_invalid_state}
use e0256_project_final.MemGraph.Query.{reset_progstate, transition_to_state}
use e0256_project_final.MemGraph.Runs.{
  Represents, StandsAt, standing, enter_lem, enter_fault, transition_cases,
}

module _ (s : State) (g : Graph) (a : ℕ) (b : Block) (l : Listing) (r : Represents s g a b l) where
  -- On a pool that stands for a graph, at one of its nodes, and for a call whose next state is a
  -- node of the graph, `transition_to_state` is the step of the automaton: where the next state is
  -- not 0 it moves there and returns its number, and else it returns ERROR_INVALID_STATE and
  -- changes nothing.
  pub transition_refines :
      (q c : ℕ)
      → StandsAt s g a b q
      → target g q c < length g
      → transition_to_state c s ≡ (
          if target g q c == 0
          then ok error_invalid_state s
          else ok (pos (target g q c)) (standing s g a b l r (target g q c)))
  transition_refines q c here inside =
      ground
        (arith, transition_cases s g a b l r q c here, enter_lem s g a b l r (target g q c) inside)

  -- An edge to a node that the node array has no room for is followed out of the array.
  pub transition_fault :
      (q c : ℕ)
      → StandsAt s g a b q
      → target g q c ≢ 0
      → l.size ≤ target g q c
      → transition_to_state c s ≡ fault
  transition_fault q c here moves outside =
      ground (
        arith,
        transition_cases s g a b l r q c here,
        enter_fault s g a b l r (target g q c) outside,
      )

  -- `reset_progstate` puts the query state at node 0 of a graph that has a node.
  pub reset_refines : 0 < length g → reset_progstate s ≡ ok tt (standing s g a b l r 0)
  unfolding reset_progstate
  reset_refines h = enter_lem s g a b l r 0 h
