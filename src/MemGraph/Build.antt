-- ===== src/MemGraph/Build.antt =====
-- memgraph.c, the graph management of the user build.
pub mod Bytes
pub mod Stores
pub mod Room
pub mod Correct
pub mod Stale
use e0256_project_final.Base.{
  ℕ, zero, suc, ◌+◌, ◌*◌, ◌%◌, ◌^◌, List, [], ◌∷◌, none, some, leb, if◌then◌else◌,
}
use e0256_project_final.Base.Int.{ℤ, pos, negsuc, word_of_int}
use e0256_project_final.MemGraph.Metadata
use e0256_project_final.MemGraph.Progstate
use e0256_project_final.MemGraph.Libcalls
use e0256_project_final.MemGraph.State.{
  Env, Listing, Ptr, offset, M, return, ◌>>=◌, ◌>>◌, gets, modify, skip, crash, store64, pool_word,
  set_pool_word, set_pool_byte, set_node, node_magic_number, edge_magic_number,
  default_number_of_nodeslistings,
}
use e0256_project_final.MemGraph.Alloc.{malloc_nodes, realloc_nodes}

unfoldable pub expand : Env → Listing → ℕ → M (Unit {0})
expand env old room = do
  modify (λ s. record s { num_nodes_listings = room })
  realloc_nodes env old ((8 * room) % 2 ^ 64)

-- The array grows by 4096 pointers whenever the count of nodes has reached `num_nodes_listings`.
unfoldable pub grow : Env → Listing → M (Unit {0})
grow env old = do
  num ← pool_word Metadata.num_nodes
  room ← gets (λ s. s.num_nodes_listings)
  if leb room num then expand env old ((room + default_number_of_nodeslistings) % 2 ^ 64) else skip

unfoldable pub ensure_room : Env → M (Unit {0})
ensure_room env = do
  listing ← gets (λ s. s.nodes)
  elim listing [
    | none ↦ malloc_nodes env (8 * default_number_of_nodeslistings)
    | some old ↦ grow env old
  ]

-- The loop over the successors: both lists must have an entry for each.
unfoldable pub write_edges : ℕ → Ptr → List ℕ → List ℕ → M (Unit {0})
write_edges zero p succs calls = skip
write_edges (suc k) p [] calls = crash
write_edges (suc k) p (q ∷ succs) [] = crash
write_edges (suc k) p (q ∷ succs) (c ∷ calls) = do
  store64 p edge_magic_number
  store64 (offset p Libcalls.libcallid) c
  store64 (offset p Libcalls.next_progstate) q
  write_edges k (offset p Libcalls.size) succs calls

unfoldable pub write_node : ℕ → ℤ → Ptr → M (Unit {0})
write_node id num_successors node = do
  store64 node node_magic_number
  store64 (offset node Progstate.id) id
  store64 (offset node Progstate.num_libcalls) (word_of_int num_successors)
  set_node id node

-- `if (num_successors > 0) { ... }`.
unfoldable pub add_edges : ℤ → List ℕ → List ℕ → M (Unit {0})
add_edges (negsuc n) succs calls = skip
add_edges (pos zero) succs calls = skip
add_edges (pos (suc n)) succs calls = do
  libcalls ← gets (λ s. s.pool_edge)
  modify (λ s. record s { pool_edge = offset libcalls (suc n * Libcalls.size) })
  write_edges (suc n) libcalls succs calls

unfoldable pub alloc_node : Env → ℕ → ℤ → List ℕ → List ℕ → M Ptr
alloc_node env id num_successors succs calls = do
  node ← gets (λ s. s.pool_edge)
  modify (λ s. record s { pool_edge = offset node Progstate.size })
  ensure_room env
  write_node id num_successors node
  add_edges num_successors succs calls
  num ← pool_word Metadata.num_nodes
  set_pool_word Metadata.num_nodes ((num + 1) % 2 ^ 64)
  return node

unfoldable pub finalize_graph : M (Unit {0})
finalize_graph = set_pool_byte Metadata.graph_finalized 1
