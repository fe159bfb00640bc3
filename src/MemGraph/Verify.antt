-- ===== src/MemGraph/Verify.antt =====
-- memgraph.c, `verify_graph`, and the results that export/memgraph.h gives names to.
pub mod Accepts
pub mod Overflow
pub mod Refuses
pub mod Sound
use e0256_project_final.Base.{
  ℕ, zero, suc, ◌*◌, ◌%◌, ◌^◌, true, false, Option, none, some, ◌==◌, if◌then◌else◌,
}
use e0256_project_final.Base.Int.{ℤ, pos, negsuc}
use e0256_project_final.MemGraph.Metadata
use e0256_project_final.MemGraph.Progstate
use e0256_project_final.MemGraph.Libcalls
use e0256_project_final.MemGraph.State.{
  Env, Ptr, offset, pool_ptr, M, return, ◌>>=◌, ◌>>◌, gets, skip, load64, pool_word, pool_byte,
  set_node, graph_meta_magic_number, node_magic_number, edge_magic_number,
}
use e0256_project_final.MemGraph.Alloc.{malloc_nodes}

abbrev pub error_invalid_graph : ℤ
error_invalid_graph = negsuc 0

abbrev pub error_invalid_node : ℤ
error_invalid_node = negsuc 1

abbrev pub error_invalid_edge : ℤ
error_invalid_edge = negsuc 2

abbrev pub error_invalid_arg : ℤ
error_invalid_arg = negsuc 3

abbrev pub error_invalid_state : ℤ
error_invalid_state = negsuc 4

-- `if (nodes == NULL) nodes = MALLOC(8 * num_nodes)`: the product wraps at 64 bits.
unfoldable pub ensure_listing : Env → ℕ → M (Unit {0})
unfolding malloc_nodes
ensure_listing env num_nodes = do
  listing ← gets (λ s. s.nodes)
  elim listing [ none ↦ malloc_nodes env ((8 * num_nodes) % 2 ^ 64) | some _ ↦ skip ]

-- The loop over the edges from `p`: the address after the last, or `none` at a bad magic number.
unfoldable pub verify_edges : ℕ → Ptr → M (Option Ptr)
verify_edges zero p = return (some p)
verify_edges (suc k) p = do
  magic ← load64 p
  elim (magic == edge_magic_number) [
    | true ↦ verify_edges k (offset p Libcalls.size)
    | false ↦ return none
  ]

-- The rest of the loop over the nodes goes on behind the edges of a node.
unfoldable pub go_on : (Ptr → M ℤ) → Option Ptr → M ℤ
go_on rest none = return error_invalid_edge
go_on rest (some q) = rest q

unfoldable pub verify_libcalls : (Ptr → M ℤ) → Ptr → M ℤ
verify_libcalls rest p = do
  num_libcalls ← load64 (offset p Progstate.num_libcalls)
  next ← verify_edges num_libcalls (offset p Progstate.size)
  go_on rest next

unfoldable pub verify_node : (Ptr → M ℤ) → Ptr → M ℤ
verify_node rest p = do
  magic ← load64 p
  if magic == node_magic_number then verify_libcalls rest p else return error_invalid_node

-- The loop over the nodes: `k` rounds are left, the next node has index `i` and stands at `p`.
-- Only `nodes` is written, so the count read before the loop is the one that each round reads.
unfoldable pub verify_nodes : ℕ → ℕ → Ptr → M ℤ
verify_nodes zero i p = return (pos 1)
verify_nodes (suc k) i p = do set_node i p; verify_node (verify_nodes k (suc i)) p

unfoldable pub verify_listed : ℕ → M ℤ
verify_listed num_nodes = do
  table ← pool_word Metadata.nodes_table_offset
  pool ← gets (λ s. s.pool)
  verify_nodes num_nodes 0 (pool_ptr pool table)

unfoldable pub verify_table : Env → M ℤ
verify_table env = do
  num_nodes ← pool_word Metadata.num_nodes
  ensure_listing env num_nodes
  verify_listed num_nodes

unfoldable pub verify_metadata : Env → M ℤ
verify_metadata env = do
  finalized ← pool_byte Metadata.graph_finalized
  if finalized == 0 then return error_invalid_state else do
    magic ← pool_word Metadata.magic
    if magic == graph_meta_magic_number then verify_table env else return error_invalid_graph

unfoldable pub verify_graph : Env → M ℤ
verify_graph env = do
  pool ← gets (λ s. s.pool)
  elim pool [ none ↦ return error_invalid_graph | some _ ↦ verify_metadata env ]
