-- ===== src/Tests/Memory.antt =====
-- Memory graphs: a pool is made, two nodes are added, and the graph is finished and read back.
use e0256_project_final.Base.{◌≡◌, refl, List, [], ◌∷◌, none, some, true, arith, length}
use e0256_project_final.Base.Int.{pos}
use e0256_project_final.MemGraph.Bytes.{Bytes, read_le, write_le}
use e0256_project_final.MemGraph.Metadata
use e0256_project_final.MemGraph.Verify.{error_invalid_edge}
use e0256_project_final.MemGraph.Verify.Refuses.{bad_edge, none_yet, verify_refuses}
use e0256_project_final.MemGraph.State.{
  graph_meta_magic_number, node_magic_number, Env, user, kernel, State, Block, Listing, null, at,
  ok, fault,
}
use e0256_project_final.MemGraph.Verify.{verify_graph, error_invalid_graph}
use e0256_project_final.MemGraph.Graph.{Graph, Edge, NodesFit, NodesClosed}
use e0256_project_final.MemGraph.Build.{alloc_node}
use e0256_project_final.MemGraph.Build.Correct.{Building, grown_block, alloc_builds}
use e0256_project_final.MemGraph.Alloc.{new_listing}
use e0256_project_final.MemGraph.Build.Stale.{alloc_overflow}
use e0256_project_final.MemGraph.RoundTrip.{new_graph, new_block, initialize_empty}

-- A library that has just been loaded, on a system that grants every request.
abbrev pub start : State
start = record {
  pool = none;
  pool_edge = null;
  nodes = none;
  num_nodes_listings = 0;
  current_progstate = 0;
  start_node = null;
  mallocs = 0;
}

abbrev pub granting : Env
granting = record { build = user; grants = λ _ _. true }

abbrev pub in_kernel : Env
in_kernel = record { build = kernel; grants = λ _ _. true }

no_graph : verify_graph granting start ≡ ok error_invalid_graph start
unfolding verify_graph
no_graph = refl

abbrev pub first_edges : List Edge
first_edges = record { libcallid = 201; next_progstate = 1 } ∷ []

abbrev pub second_edges : List Edge
second_edges =
    record { libcallid = 354; next_progstate = 1 }
    ∷ record { libcallid = 66; next_progstate = 0 }
    ∷ []

abbrev pub sample : Graph
sample = record { id = 0; edges = first_edges } ∷ record { id = 1; edges = second_edges } ∷ []

abbrev pub empty_state : State
empty_state = new_graph granting (λ _ _. refl) start refl

pub empty_Building : Building empty_state [] (new_block 0)
empty_Building = (initialize_empty granting (λ _ _. refl) start refl (omega arith)).1

abbrev pub first_block : Block
first_block =
    grown_block granting (λ _ _. refl) empty_state [] (new_block 0) empty_Building 0 first_edges

pub first_added :
    (t : State) × (alloc_node granting 0 (pos 1) (1 ∷ []) (201 ∷ []) empty_state ≡ ok (at 0 88) t)
    × Building t (record { id = 0; edges = first_edges } ∷ []) first_block
first_added =
    alloc_builds granting (λ _ _. refl) empty_state [] (new_block 0) empty_Building 0 first_edges
      (omega arith) (omega arith) (omega arith)

abbrev pub second_block : Block
second_block =
    grown_block granting (λ _ _. refl) first_added.0 (record { id = 0; edges = first_edges } ∷ [])
      first_block first_added.2 1 second_edges

-- The second node stands behind the 48 bytes of the first.
alloc_builds_example :
    (t : State) × (alloc_node granting 1 (pos 2) (1 ∷ 0 ∷ []) (354 ∷ 66 ∷ []) first_added.0
      ≡ ok (at 0 136) t)
    × Building t sample second_block
alloc_builds_example =
    alloc_builds granting (λ _ _. refl) first_added.0 (record { id = 0; edges = first_edges } ∷ [])
      first_block first_added.2 1 second_edges (omega arith) (omega arith) (omega arith)

pub sample_built : (t : State) × Building t sample second_block
sample_built = (alloc_builds_example.0, alloc_builds_example.2)

pub sample_small : NodesFit sample
sample_small = ((omega arith, tt), ((omega arith, (omega arith, tt)), tt))

pub sample_closed : NodesClosed (length sample) sample
sample_closed = ((omega arith, tt), ((omega arith, (omega arith, tt)), tt))

-- A new pool with an array for 4096 nodes, where the count is that of a graph before.
abbrev wide : Listing
wide = new_listing granting 4096

abbrev stale : State
stale = record empty_state { nodes = some wide; num_nodes_listings = 8192 }

alloc_overflow_example : alloc_node granting 4096 (pos 0) [] [] stale ≡ fault
alloc_overflow_example =
    alloc_overflow granting stale (new_block 0) wide 88 empty_Building.pool empty_Building.pool_edge
      refl 4096 (pos 0) [] [] (rw empty_Building.count (omega arith)) (omega arith) (omega arith)

-- A finalized pool that counts one node, with one edge that has no magic number.
abbrev edge_missing : Bytes
edge_missing = write_le 8 Metadata.magic graph_meta_magic_number (
    write_le 8 Metadata.num_nodes 1 (
      write_le 8 Metadata.nodes_table_offset 88 (
        write_le 8 88 node_magic_number
          (write_le 8 104 1 (write_le 1 Metadata.graph_finalized 1 (λ _. 0))))))

abbrev spoiled : State
spoiled = record start { pool = some (record { serial = 0; bytes = edge_missing }) }

edge_missing_words :
    (read_le 8 edge_missing Metadata.magic ≡ graph_meta_magic_number)
    × (read_le 8 edge_missing 88 ≡ node_magic_number)
    × (read_le 8 edge_missing 104 ≡ 1)
    × (read_le 8 edge_missing 112 ≡ 0)
    × (read_le 8 edge_missing Metadata.num_nodes ≡ 1)
    × (read_le 8 edge_missing Metadata.nodes_table_offset ≡ 88)
unfolding read_le write_le
edge_missing_words = (refl, refl, refl, refl, refl, refl)

verify_refuses_example :
    (t : State) × (verify_graph in_kernel spoiled ≡ ok error_invalid_edge t)
    × (t.pool ≡ some (record { serial = 0; bytes = edge_missing }))
unfolding write_le
verify_refuses_example =
    verify_refuses in_kernel spoiled (record { serial = 0; bytes = edge_missing }) refl [] 88 1
      error_invalid_edge (omega arith) edge_missing_words.0 edge_missing_words.5
      edge_missing_words.4 tt
      (bad_edge [] edge_missing_words.1 tt (rw edge_missing_words.2 (omega arith)) (omega arith)
        (rw edge_missing_words.3 (omega arith)))
      (omega arith) (omega arith) (omega arith) (none_yet refl refl)
