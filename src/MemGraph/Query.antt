-- ===== src/MemGraph/Query.antt =====
-- memgraph.c, the graph querying.
use e0256_project_final.Base.{ℕ, zero, suc, true, false, ◌==◌, leb, if◌then◌else◌}
use e0256_project_final.Base.Int.{ℤ, pos, int_of_word, word_of_int}
use e0256_project_final.MemGraph.Metadata
use e0256_project_final.MemGraph.Progstate
use e0256_project_final.MemGraph.Libcalls
use e0256_project_final.MemGraph.State.{
  Ptr, offset, M, return, ◌>>=◌, ◌>>◌, gets, modify, load64, pool_word, get_node, node_magic_number,
  edge_magic_number,
}
use e0256_project_final.MemGraph.Verify.{error_invalid_state}

-- `current_progstate = q; start_node = (char *)nodes[current_progstate];`
unfoldable pub enter : ℕ → M (Unit {0})
enter q = do
  modify (λ s. record s { current_progstate = q })
  node ← get_node q
  modify (λ s. record s { start_node = node })

unfoldable pub reset_progstate : M (Unit {0})
reset_progstate = enter 0

-- The loop over the edges from `p`: the next state of the first one with this call, or 0.
unfoldable pub find_edge : ℕ → Ptr → ℕ → M ℤ
find_edge zero p libccall = return (pos 0)
find_edge (suc k) p libccall = do
  id ← load64 (offset p Libcalls.libcallid)
  elim (id == libccall) [
    | true ↦ do next ← load64 (offset p Libcalls.next_progstate); return (int_of_word next)
    | false ↦ find_edge k (offset p Libcalls.size) libccall
  ]

unfoldable pub search_edges : Ptr → ℕ → M ℤ
search_edges node libccall = do
  magic ← load64 (offset node Progstate.size)
  let first = offset node Progstate.size
  let search = load64 (offset node Progstate.num_libcalls) >>= λ n. find_edge n first libccall
  if magic == edge_magic_number then search else return (pos 0)

-- The magic number of the first edge is read also where the node has no edge.
unfoldable pub is_state_transition_valid : ℕ → M ℤ
is_state_transition_valid libccall = do
  node ← gets (λ s. s.start_node)
  magic ← load64 node
  if magic == node_magic_number then search_edges node libccall else return (pos 0)

unfoldable pub follow : ℕ → M ℤ
follow libccall = do
  result ← is_state_transition_valid libccall
  let temp = word_of_int result
  if temp == 0 then return error_invalid_state else do enter temp; return (int_of_word temp)

unfoldable pub transition_to_state : ℕ → M ℤ
transition_to_state libccall = do
  current ← gets (λ s. s.current_progstate)
  num ← pool_word Metadata.num_nodes
  if leb num current then return error_invalid_state else follow libccall
