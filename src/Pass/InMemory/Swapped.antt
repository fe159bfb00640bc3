-- ===== src/Pass/InMemory/Swapped.antt =====
-- What `GenerateInMemoryGraph` makes of the two arrays that it gives to `alloc_node`.
use e0256_project_final.Base.{
  ℕ, zero, suc, ◌+◌, ◌*◌, ◌%◌, ◌^◌, ◌≤◌, ◌<◌, ◌≡◌, refl, sym, ap, List, [], ◌∷◌, ◌++◌, arith,
  length, true,
}
use e0256_project_final.Base.Int.{pos}
use e0256_project_final.Base.Text.{Text}
use e0256_project_final.FileMap.{Reader}
use e0256_project_final.Graaf.{Graaf}
use e0256_project_final.MemGraph.State.{
  Env, State, Block, at, ok, memory_pool_size, node_table_offset,
}
use e0256_project_final.MemGraph.Graph.{Graph, Edge, graph_size}
use e0256_project_final.MemGraph.Build.{alloc_node}
use e0256_project_final.MemGraph.Build.Bytes.{EdgesWords}
use e0256_project_final.MemGraph.Build.Stores.{callees, successors}
use e0256_project_final.MemGraph.Build.Correct.{Building, grown_block, alloc_builds}
use e0256_project_final.Pass.InMemory.{Lists, entries, modulus, alloc_vertex}

module _ (calls nexts : ℕ → ℕ) where
  -- The edges that have `calls` for their library calls and `nexts` for their next states.
  unfoldable pub edges_of : ℕ → ℕ → List Edge
  edges_of zero i = []
  edges_of (suc n) i = record { libcallid = calls i; next_progstate = nexts i } ∷ edges_of n (suc i)

  pub callees-edges_of : (n i : ℕ) → callees (edges_of n i) ≡ entries calls n i
  unfolding edges_of entries
  callees-edges_of zero i = refl
  callees-edges_of (suc n) i = ap (λ t. calls i ∷ t) (callees-edges_of n (suc i))

  successors-edges_of : (n i : ℕ) → successors (edges_of n i) ≡ entries nexts n i
  unfolding edges_of entries
  successors-edges_of zero i = refl
  successors-edges_of (suc n) i = ap (λ t. nexts i ∷ t) (successors-edges_of n (suc i))

  pub length-edges_of : (n i : ℕ) → length (edges_of n i) ≡ n
  unfolding edges_of
  length-edges_of zero i = refl
  length-edges_of (suc n) i = ap suc (length-edges_of n (suc i))

  pub edges_of-EdgesWords :
      (n i : ℕ)
      → ((j : ℕ) → calls j < 256 ^ 8)
      → ((j : ℕ) → nexts j < 256 ^ 8)
      → EdgesWords (edges_of n i)
  unfolding edges_of
  edges_of-EdgesWords zero i hc hn = tt
  edges_of-EdgesWords (suc n) i hc hn = (hc i, hn i, edges_of-EdgesWords n (suc i) hc hn)

module _ (library : Graaf) (reader : Reader) (hash : Text → ℕ) (env : Env)
    (all : (i n : ℕ) → env.grants i n ≡ true) (s : State) (g : Graph) (b : Block)
    (built : Building s g b) where
  -- Where its requests are granted, there is room in the pool and the arrays hold words, the call of
  -- `alloc_node` in `GenerateInMemoryGraph` adds a node that has the vertex's hash for its id, and
  -- whose edges have the neighbours' hashes of `neighborList` for their library calls, and the
  -- numbers of `edgeList`, which are those of library calls, for their next states.
  pub alloc_vertex_swaps :
      (v : Text) (l : Lists)
      → ((j : ℕ) → l.edge_list j < 256 ^ 8)
      → ((j : ℕ) → l.neighbor_list j < 256 ^ 8)
      → node_table_offset + graph_size g + 24 + 24 * l.num_out_edges ≤ memory_pool_size
      → (t : State) × (b' : Block) × (alloc_vertex library reader hash env v l s
          ≡ ok (at b.serial (node_table_offset + graph_size g)) t)
        × Building t
            (g
              ++ record {
                id = hash v % modulus;
                edges = edges_of l.neighbor_list l.edge_list l.num_out_edges 0;
              }
                ∷ [])
            b'
  unfolding alloc_vertex
  alloc_vertex_swaps v l words_e words_n fits =
      let n = l.num_out_edges in
      let es = edges_of l.neighbor_list l.edge_list n 0 in
      let count = length-edges_of l.neighbor_list l.edge_list n 0 in
      let (t, made, builds) =
        alloc_builds env all s g b built (hash v % modulus) es (omega arith)
          (edges_of-EdgesWords l.neighbor_list l.edge_list n 0 words_n words_e) (omega arith) in
      (
        t,
        grown_block env all s g b built (hash v % modulus) es,
        rw
            (
              sym (callees-edges_of l.neighbor_list l.edge_list n 0),
              sym (successors-edges_of l.neighbor_list l.edge_list n 0),
              ap (λ k. alloc_node env (hash v % modulus) (pos k) (successors es) (callees es) s)
                  (sym count),
            )
            made,
        builds,
      )
