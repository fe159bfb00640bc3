-- ===== src/MemGraph/Runs.antt =====
-- A pool that stands for a graph, with the query state at one of its nodes, and what the query
-- functions of memgraph.c do there.
use e0256_project_final.Base.{
  ℕ, ◌+◌, ◌*◌, ◌≤◌, ◌<◌, ◌^◌, ◌≡◌, refl, inl, inr, List, [], ◌∷◌, some, arith, length, get_elem?,
  get_elem?_inside, Option-cases, ◌==◌, if◌then◌else◌,
}
use e0256_project_final.Base.Int.{pos, int_of_word_small, word_of_int}
use e0256_project_final.MemGraph.Bytes.{read_le}
use e0256_project_final.MemGraph.Metadata
use e0256_project_final.MemGraph.Progstate
use e0256_project_final.MemGraph.Libcalls
use e0256_project_final.MemGraph.State.{
  fault, get_node, pool_word, return, ◌>>◌, State, Block, Listing, at, ok, load64_lem,
  memory_pool_size,
}
use e0256_project_final.MemGraph.Graph.{
  Graph, Edge, graph_size, node_offset, EdgesAt, NodesAt, EdgesFit, NodesFit, edge_target, target,
  NodesAt-get, node_offset-le, NodesFit-get, edge_target-fits, edge_target-nil,
}
use e0256_project_final.MemGraph.Verify.{error_invalid_state}
use e0256_project_final.MemGraph.Query.{
  find_edge, search_edges, is_state_transition_valid, enter, follow, transition_to_state,
}

-- Eight more bytes than the graph needs must be in the pool: a query reads the magic number of a
-- first edge also behind a last node that has none.
pub record Represents (s : State) (g : Graph) (a : ℕ) (b : Block) (l : Listing) : Type 0 where
  pub pool : s.pool ≡ some b
  pub table : NodesAt b.bytes a g
  pub fits : a + graph_size g + 8 ≤ memory_pool_size
  pub small : NodesFit g
  pub count : read_le 8 b.bytes Metadata.num_nodes ≡ length g
  pub nodes : s.nodes ≡ some l
  pub room : length g ≤ l.size
  pub listed : (i : ℕ) → i < length g → l.entry i ≡ at b.serial (a + node_offset g i)

-- The query state stands at the node of index `q`.
pub record StandsAt (s : State) (g : Graph) (a : ℕ) (b : Block) (q : ℕ) : Type 0 where
  pub current : s.current_progstate ≡ q
  pub start : s.start_node ≡ at b.serial (a + node_offset g q)
  pub inside : q < length g

module _ (s : State) (b : Block) (live : s.pool ≡ some b) where
  find_edge_lem :
      (a : ℕ) (es : List Edge) (c : ℕ)
      → EdgesAt b.bytes a es
      → EdgesFit es
      → a + Libcalls.size * length es ≤ memory_pool_size
      → find_edge (length es) (at b.serial a) c s ≡ ok (pos (edge_target es c)) s
  unfolding find_edge edge_target
  find_edge_lem a [] c h small fits = refl
  find_edge_lem a (e ∷ es) c h small fits = ground (
    arith,
    load64_lem s b (a + 8) live (omega arith),
    load64_lem s b (a + 16) live (omega arith),
    int_of_word_small e.next_progstate,
    find_edge_lem (a + 24) es c h.3 small.1 (omega arith),
  )

  -- The node's own reads, of a node that may have no edge.
  search_edges_lem :
      (a : ℕ) (es : List Edge) (c : ℕ)
      → read_le 8 b.bytes (a + Progstate.num_libcalls) ≡ length es
      → EdgesAt b.bytes (a + Progstate.size) es
      → EdgesFit es
      → a + Progstate.size + Libcalls.size * length es + 8 ≤ memory_pool_size
      → search_edges (at b.serial a) c s ≡ ok (pos (edge_target es c)) s
  unfolding search_edges
  search_edges_lem a [] c count h small fits = ground (
    arith,
    load64_lem s b (a + 24) live (omega arith),
    load64_lem s b (a + 16) live (omega arith),
    find_edge_lem (a + 24) [] c,
    edge_target-nil c,
  )
  search_edges_lem a (e ∷ es) c count h small fits = ground (
    arith,
    load64_lem s b (a + 24) live (omega arith),
    load64_lem s b (a + 16) live (omega arith),
    find_edge_lem (a + 24) (e ∷ es) c h small (omega arith),
  )

module _ (s : State) (g : Graph) (a : ℕ) (b : Block) (l : Listing) (r : Represents s g a b l) where
  open r use {pool, table, fits, small, count, nodes, room, listed}

  -- What `is_state_transition_valid` answers at node `q`.
  pub valid_lem :
      (q c : ℕ) → StandsAt s g a b q → is_state_transition_valid c s ≡ ok (pos (target g q c)) s
  unfolding is_state_transition_valid target
  valid_lem q c h =
      let (n, e) = get_elem?_inside g q h.inside in
      let stored = NodesAt-get b.bytes a g q n table e in
      let end = node_offset-le g q n e in
      let found =
        search_edges_lem s b pool (a + node_offset g q) n.edges c stored.count stored.edges
          (NodesFit-get g q n small e) (omega arith) in
      let head = load64_lem s b (a + node_offset g q) pool (omega arith) in
      ground (arith, h.start, stored.magic)

  pub target-fits : (q c : ℕ) → target g q c < 2 ^ 31
  unfolding target
  target-fits q c = elim (Option-cases (get_elem? g q)) [
    | inl e ↦ rw (e, target) (omega arith)
    | inr (n, e) ↦ rw (e, target) (edge_target-fits n.edges c (NodesFit-get g q n small e))
  ]

  -- The query state after a move to node `t`.
  abbrev pub standing : ℕ → State
  standing t = record s { current_progstate = t; start_node = at b.serial (a + node_offset g t) }

  pub standing-Represents : (t : ℕ) → Represents (standing t) g a b l
  standing-Represents t = record {
    pool = pool;
    table = table;
    fits = fits;
    small = small;
    count = count;
    nodes = nodes;
    room = room;
    listed = listed;
  }

  pub standing-StandsAt : (t : ℕ) → t < length g → StandsAt (standing t) g a b t
  standing-StandsAt t h = record { current = refl; start = refl; inside = h }

  pub enter_lem : (t : ℕ) → t < length g → enter t s ≡ ok tt (standing t)
  unfolding enter get_node
  enter_lem t h = ground (arith, listed t)

  -- `nodes[t]` beyond the array is an access outside it.
  pub enter_fault : (t : ℕ) → l.size ≤ t → enter t s ≡ fault
  unfolding enter get_node
  enter_fault t h = ground arith

  module _ (q c : ℕ) (here : StandsAt s g a b q) where
    pub count_lem : pool_word Metadata.num_nodes s ≡ ok (length g) s
    unfolding pool_word
    count_lem = ground arith

    -- The whole of `transition_to_state`, but for the move itself.
    pub transition_cases : transition_to_state c s ≡ (
        if target g q c == 0
        then ok error_invalid_state s
        else (enter (target g q c) >> return (pos (target g q c))) s)
    unfolding transition_to_state follow word_of_int
    transition_cases = ground (
      arith,
      count_lem,
      here.current,
      here.inside,
      valid_lem q c here,
      int_of_word_small (target g q c) (target-fits q c),
    )
