-- ===== src/Pass/InMemory.antt =====
-- `GenerateInMemoryGraph`: the final graph as a memory graph.
pub mod Swapped
pub mod Limit
pub mod Rows
pub mod Embeds
use e0256_project_final.Base.{
  ℕ, zero, suc, ◌%◌, List, [], ◌∷◌, Option, none, some, ◌==◌, ltb, if◌then◌else◌,
}
use e0256_project_final.Base.Int.{pos, word_of_int}
use e0256_project_final.Base.Text.{Text, codes, starts_with, substr_from}
use e0256_project_final.FileMap.{Reader, get_value_from_map}
use e0256_project_final.Graaf.{Graaf}
use e0256_project_final.GraphLib.{LibcCallgraph, get_vertices, get_neighbors, get_outgoing_edges}
use e0256_project_final.MemGraph.State.{Env, M, Ptr, ◌>>=◌, ◌>>◌, return, crash, memory_pool_size}
use e0256_project_final.MemGraph.Pool.{Buffer, initialize_graph, destroy_graph}
use e0256_project_final.MemGraph.Build.{alloc_node, finalize_graph}

abbrev pub max_neighbors : ℕ
max_neighbors = 1000

abbrev pub modulus : ℕ
modulus = 1000

-- `numOutEdges` and the two arrays on the stack.
pub record Lists : Type 0 where
  pub num_out_edges : ℕ
  pub edge_list : ℕ → ℕ
  pub neighbor_list : ℕ → ℕ

abbrev pub store : ℕ → ℕ → (ℕ → ℕ) → ℕ → ℕ
store i v f j = if j == i then v else f j

-- The first `n` entries from index `i`.
unfoldable pub entries : (ℕ → ℕ) → ℕ → ℕ → List ℕ
entries f zero i = []
entries f (suc n) i = f i ∷ entries f n (suc i)

-- The bytes of the pool, which `SectionAddressHandler` reads up to the pool's size.
unfoldable pub read_pool : M Buffer
read_pool s = elim s.pool [
  | none ↦ crash s
  | some b ↦ return (record { size = memory_pool_size; bytes = b.bytes }) s
]

unfoldable pub finish : M (Option Buffer)
finish = do finalize_graph; buffer ← read_pool; destroy_graph; return (some buffer)

-- `std::hash` is a parameter.
module _ (library : Graaf) (reader : Reader) (hash : Text → ℕ) where
  unfoldable pub call_number : Text → ℕ
  call_number label = word_of_int (
      get_value_from_map (if starts_with (codes "libc:") label then substr_from 5 label else label)
        reader)

  -- Each label and each neighbour of a vertex is written to the one entry of the vertex.
  unfoldable pub write_labels : List Text → Lists → Lists
  write_labels [] l = l
  write_labels (label ∷ labels) l =
      write_labels labels
        (record l { edge_list = store l.num_out_edges (call_number label) l.edge_list })

  unfoldable pub write_neighbors : List Text → Lists → Lists
  write_neighbors [] l = l
  write_neighbors (v ∷ vs) l =
      write_neighbors vs
        (record l { neighbor_list = store l.num_out_edges (hash v % modulus) l.neighbor_list })

  unfoldable pub write_vertex : LibcCallgraph library → Text → Lists → Lists
  write_vertex g v l =
      let l1 = write_labels (get_outgoing_edges library v g) l in
      let l2 = write_neighbors (get_neighbors library v g) l1 in
      record l2 { num_out_edges = suc l2.num_out_edges }

  -- The inner loop; `none` is a failed `assert`.
  unfoldable pub write_vertices : LibcCallgraph library → List Text → Lists → Option Lists
  write_vertices g [] l = some l
  write_vertices g (v ∷ vs) l =
      let l' = write_vertex g v l in
      let rest = write_vertices g vs l' in if ltb l'.num_out_edges max_neighbors then rest else none

  -- The call gives the edge list for the successors, and the neighbour list for the calls.
  unfoldable pub alloc_vertex : Env → Text → Lists → M Ptr
  alloc_vertex env v l =
      alloc_node env (hash v % modulus) (pos l.num_out_edges)
        (entries l.edge_list l.num_out_edges 0) (entries l.neighbor_list l.num_out_edges 0)

  -- The outer loop goes on with the same lists and the same count.
  unfoldable pub alloc_vertices : Env → LibcCallgraph library → List Text → Lists → M (Option Lists)
  alloc_vertices env g [] l = return (some l)
  alloc_vertices env g (v ∷ vs) l = elim (write_vertices g (get_vertices library g) l) [
    | none ↦ return none
    | some l' ↦ alloc_vertex env v l' >>= λ _. alloc_vertices env g vs l'
  ]

  -- What the pass embeds in the program; `none` is a failed `assert`.
  unfoldable pub generate_in_memory_graph :
      Env → LibcCallgraph library → (ℕ → ℕ) → (ℕ → ℕ) → M (Option Buffer)
  generate_in_memory_graph env g edges_before neighbors_before = do
    initialize_graph env none 0
    let start : Lists = record {
      num_out_edges = 0;
      edge_list = edges_before;
      neighbor_list = neighbors_before;
    }
    made ← alloc_vertices env g (get_vertices library g) start
    elim made [ none ↦ return none | some _ ↦ finish ]
