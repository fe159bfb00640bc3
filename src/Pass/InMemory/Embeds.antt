-- ===== src/Pass/InMemory/Embeds.antt =====
-- `GenerateInMemoryGraph` over a graph that is small enough for it.
use mathlib.Core.List.{append_assoc, append-nil}
use native.Mathlib.Nat.{suc-mul, mul-le-mul}
use mathlib.Core.Path.{fun_ext}
use e0256_project_final.Base.{
  ℕ, ◌+◌, ◌*◌, ◌%◌, ◌^◌, ◌<◌, ◌≤◌, ◌≡◌, refl, List, [], ◌∷◌, ◌++◌, none, some, arith, length,
  length-append, true, get_elem?, Option-cases, inl, inr,
}
use e0256_project_final.Base.Text.{Text}
use e0256_project_final.FileMap.{Reader}
use e0256_project_final.Graaf.{Graaf}
use e0256_project_final.GraphLib.{LibcCallgraph, get_vertices}
use e0256_project_final.MemGraph.State.{
  Env, State, Block, Ptr, ok, memory_pool_size, node_table_offset,
}
use e0256_project_final.MemGraph.Pool.{destroy_graph, destroy_pool, forget_nodes}
use e0256_project_final.MemGraph.Graph.{Graph, Edge, Node, graph_size, node_size}
use e0256_project_final.MemGraph.Build.{finalize_graph}
use e0256_project_final.MemGraph.Build.Bytes.{graph_size-append}
use e0256_project_final.MemGraph.Build.Correct.{Building}
use e0256_project_final.MemGraph.RoundTrip.{
  new_graph, new_block, initialize_empty, finished_block, finalize_lays,
}
use e0256_project_final.MemGraph.Verify.Accepts.{Laid}
use e0256_project_final.Pass.InMemory.{
  Lists, max_neighbors, modulus, call_number, alloc_vertex, alloc_vertices, read_pool, finish,
  generate_in_memory_graph,
}
use e0256_project_final.Pass.InMemory.Swapped.{edges_of, length-edges_of, alloc_vertex_swaps}
use e0256_project_final.Pass.InMemory.Rows.{
  last_of_bound, edge_at, neighbor_at, edge_entry, neighbor_entry, Filled, write_vertices-Filled,
  hash_number,
}

module _ (library : Graaf) (reader : Reader) (hash : Text → ℕ) (g : LibcCallgraph library)
    (edges_before neighbors_before : ℕ → ℕ) where
  -- The edges of a node after the vertices `ws` were written: one for each of them, with the last
  -- neighbour for its call and the number of the last label for its next state.
  unfoldable pub row : List Text → List Edge
  row ws =
      edges_of (neighbor_at library reader hash g edges_before neighbors_before ws)
        (edge_at library reader hash g edges_before neighbors_before ws) (length ws) 0

  -- The nodes for the vertices `vs`, where the rounds before have written `ws`: a round more for each.
  unfoldable pub rows : List Text → List Text → List Text → Graph
  rows all [] ws = []
  rows all (v ∷ vs) ws =
      record { id = hash v % modulus; edges = row (ws ++ all) } ∷ rows all vs (ws ++ all)

  -- The graph that the pass embeds.
  unfoldable pub memory_graph : Graph
  memory_graph = rows (get_vertices library g) (get_vertices library g) []

  module _ (numbers : (x : Text) → call_number library reader hash x < 256 ^ 8)
      (edge_words : (j : ℕ) → edges_before j < 256 ^ 8)
      (neighbor_words : (j : ℕ) → neighbors_before j < 256 ^ 8) where
    edge_at_word :
        (ws : List Text) (j : ℕ)
        → edge_at library reader hash g edges_before neighbors_before ws j < 256 ^ 8
    unfolding edge_entry
    edge_at_word ws j = elim (Option-cases (get_elem? ws j)) [
      | inl outside ↦ rw outside (edge_words j)
      | inr (v, inside) ↦
          rw inside (last_of_bound _ _ (edges_before j) (256 ^ 8) numbers (edge_words j))
    ]

    neighbor_at_word :
        (ws : List Text) (j : ℕ)
        → neighbor_at library reader hash g edges_before neighbors_before ws j < 256 ^ 8
    unfolding neighbor_entry
    neighbor_at_word ws j = elim (Option-cases (get_elem? ws j)) [
      | inl outside ↦ rw outside (neighbor_words j)
      | inr (v, inside) ↦ rw inside (
          last_of_bound (hash_number library reader hash g edges_before neighbors_before) _
            (neighbors_before j) (256 ^ 8) (λ x. omega arith) (neighbor_words j))
    ]

    module _ (env : Env) (granted : (i n : ℕ) → env.grants i n ≡ true) where
      -- The call of `alloc_node` after a round.
      alloc_row :
          (v : Text) (ws : List Text) (l : Lists) (s : State) (G : Graph) (b : Block)
          → Filled library reader hash g edges_before neighbors_before ws l
          → Building s G b
          → length ws < max_neighbors
          → node_table_offset + graph_size G + 24000 ≤ memory_pool_size
          → (p : Ptr) × (t : State) × (b' : Block) × (alloc_vertex library reader hash env v l s
              ≡ ok p t)
            × Building t (G ++ record { id = hash v % modulus; edges = row ws } ∷ []) b'
      unfolding row
      alloc_row v ws l s G b h built few fits =
          let es = fun_ext h.edges in
          let ns = fun_ext h.neighbors in
          let words : (j : ℕ) → l.edge_list j < 256 ^ 8 = λ j. rw (h.edges j) (edge_at_word ws j) in
          let words' : (j : ℕ) → l.neighbor_list j < 256 ^ 8 =
            λ j. rw (h.neighbors j) (neighbor_at_word ws j) in
          let (t, b', made, builds) =
            alloc_vertex_swaps library reader hash env granted s G b built v l words words'
              (omega (arith, h.count)) in
          (_, t, b', made, rw (es, ns, h.count) at builds)

      row_size :
          (v : Text) (ws : List Text)
          → node_size (record { id = hash v % modulus; edges = row ws }) ≡ 24 + 24 * length ws
      unfolding row
      row_size v ws = rw (length-edges_of _ _ (length ws) 0) refl

      alloc_rows :
          (vs ws : List Text) (l : Lists) (s : State) (G : Graph) (b : Block)
          → Filled library reader hash g edges_before neighbors_before ws l
          → Building s G b
          → length ws + length vs * length (get_vertices library g) < max_neighbors
          → node_table_offset + graph_size G + 24000 * length vs + 8 ≤ memory_pool_size
          → (l' : Lists) × (t : State) × (b' : Block) × (alloc_vertices library reader hash env g vs
                l s
              ≡ ok (some l') t)
            × Building t (G ++ rows (get_vertices library g) vs ws) b'
            × (node_table_offset + graph_size (G ++ rows (get_vertices library g) vs ws) + 8
                ≤ memory_pool_size)
      unfolding alloc_vertices rows
      alloc_rows [] ws l s G b h built few fits =
          (l, s, b, refl, rw (append-nil G) built, rw (append-nil G) (omega arith))
      alloc_rows (v ∷ vs) ws l s G b h built few fits =
          let all = get_vertices library g in
          let wide = length-append ws all in
          let n : Node = record { id = hash v % modulus; edges = row (ws ++ all) } in
          let inside : length ws + length all < max_neighbors =
            omega (arith, suc-mul (length vs) (length all)) in
          let (l1, made, filled) =
            write_vertices-Filled library reader hash g edges_before neighbors_before all ws l h
              inside in
          let (p, t1, b1, added, builds) =
            alloc_row v (ws ++ all) l1 s G b filled built (rw wide inside) (omega arith) in
          let (l2, t2, b2, others, done, bound) =
            alloc_rows vs (ws ++ all) l1 t1 (G ++ n ∷ []) b1 filled builds
              (omega (arith, wide, suc-mul (length vs) (length all)))
              (omega (arith, graph_size-append G n, row_size v (ws ++ all), wide)) in
          let shift = append_assoc G (n ∷ []) (rows all vs (ws ++ all)) in
          (l2, t2, b2, ground (arith, made, added, others), rw shift at done, rw shift at bound)

      finish_lem :
          (s t : State) (b : Block)
          → finalize_graph s ≡ ok tt t
          → t.pool ≡ some b
          → finish s
            ≡ ok
                (some (record { size = memory_pool_size; bytes = b.bytes }))
                (record t { pool = none; nodes = none })
      unfolding finish read_pool destroy_graph destroy_pool forget_nodes
      finish_lem s t b done there = ground (arith, done)

      -- From a library with no pool, with its requests granted, with `num_nodes_listings` at most
      -- 4096, and where the arrays hold words and the listing's numbers are words,
      -- `GenerateInMemoryGraph` on a graph of fewer than 32 vertices embeds a finalized pool that
      -- holds one node for each vertex, in order, with the vertex's hash modulo 1000 for its id; the
      -- node of index `k` has `k + 1` times as many edges as there are vertices, in rounds over all
      -- vertices, each with the hash modulo 1000 of the vertex's last neighbour for its call and the
      -- number of the vertex's last label for its next state, or what the arrays held before. The
      -- library's pool is gone after.
      pub generate_embeds :
          (s : State)
          → s.pool ≡ none
          → s.num_nodes_listings ≤ 4096
          → length (get_vertices library g) < 32
          → (b : Block) × (t : State) × (generate_in_memory_graph library reader hash env g
                edges_before neighbors_before s
              ≡ ok (some (record { size = memory_pool_size; bytes = b.bytes })) t)
            × Laid b.bytes memory_graph node_table_offset
            × (t.pool ≡ none)
      unfolding generate_in_memory_graph memory_graph edge_entry neighbor_entry
      generate_embeds s gone listings few =
          let all = get_vertices library g in
          let start : Lists = record {
            num_out_edges = 0;
            edge_list = edges_before;
            neighbor_list = neighbors_before;
          } in
          let empty : Filled library reader hash g edges_before neighbors_before [] start = record {
            count = refl;
            edges = λ j. refl;
            neighbors = λ j. refl;
          } in
          let most : length all ≤ 31 = omega arith in
          let square : length all * length all ≤ 31 * 31 = mul-le-mul most most in
          let (initialized, building) = initialize_empty env granted s gone listings in
          let (l, t, b, made, built, fits) =
            alloc_rows all [] start (new_graph env granted s gone) [] (new_block s.mallocs) empty
              building (omega (arith, square)) (omega arith) in
          let (done, laid) = finalize_lays t memory_graph b built fits in
          (
            finished_block b,
            record t { pool = none; nodes = none },
            ground (arith, initialized, made, finish_lem t _ (finished_block b) done refl),
            laid,
            refl,
          )
