-- ===== src/MemGraph/Verify/Refuses.antt =====
-- `verify_graph` on a pool with a node or an edge that is not well formed.
use native.Mathlib.Nat.{add-zero, add_assoc}
use e0256_project_final.Base.{
  ℕ, zero, suc, ◌+◌, ◌*◌, ◌^◌, ◌≤◌, ◌<◌, ◌≡◌, ◌≢◌, refl, ap, ◌∙◌, List, [], ◌∷◌, none, some, true,
  arith, length,
}
use e0256_project_final.Base.Int.{ℤ}
use e0256_project_final.MemGraph.Bytes.{Bytes, read_le}
use e0256_project_final.MemGraph.Metadata
use e0256_project_final.MemGraph.State.{
  Env, State, Block, Listing, at, ok, put_entry, pool_word, pool_byte, load64_lem, memory_pool_size,
  graph_meta_magic_number, node_magic_number, edge_magic_number,
}
use e0256_project_final.MemGraph.Alloc.{new_listing}
use e0256_project_final.MemGraph.Graph.{Graph, Edge, node_size, graph_size, NodesAt, EdgesAt}
use e0256_project_final.MemGraph.Verify.{
  error_invalid_node, error_invalid_edge, verify_edges, verify_libcalls, verify_node, go_on,
  verify_nodes, verify_listed, verify_table, verify_metadata, verify_graph, ensure_listing,
}
use e0256_project_final.MemGraph.Verify.Accepts.{
  with_nodes, verify_node_lem, set_node_lem, ensure_granted,
}

-- What is wrong with the node at `e`, and the result that stands for it: no magic number, or
-- behind some edges one without a magic number.
pub data WrongAt (m : Bytes) (e : ℕ) : ℤ → Type 0 where
  bad_node : read_le 8 m e ≢ node_magic_number → WrongAt m e error_invalid_node
  bad_edge :
      (es : List Edge)
      → read_le 8 m e ≡ node_magic_number
      → EdgesAt m (e + 24) es
      → length es < read_le 8 m (e + 16)
      → e + 24 + 24 * length es + 8 ≤ memory_pool_size
      → read_le 8 m (e + 24 + 24 * length es) ≢ edge_magic_number
      → WrongAt m e error_invalid_edge

regroup : (a n : ℕ) → a + 24 * suc n ≡ a + 24 + 24 * n
regroup a n = omega arith

-- The loop over the edges stops at the first that is wrong.
verify_edges_stops :
    (s : State) (b : Block) (a : ℕ) (es : List Edge) (k : ℕ)
    → s.pool ≡ some b
    → EdgesAt b.bytes a es
    → length es < k
    → a + 24 * length es + 8 ≤ memory_pool_size
    → read_le 8 b.bytes (a + 24 * length es) ≢ edge_magic_number
    → verify_edges k (at b.serial a) s ≡ ok none s
unfolding verify_edges
verify_edges_stops s b a es zero live h few fits wrong = absurd (omega arith)
verify_edges_stops s b a [] (suc k) live h few fits wrong =
    ground (arith, load64_lem s b a live (omega arith))
verify_edges_stops s b a (e ∷ es) (suc k) live h few fits wrong = ground (
  arith,
  load64_lem s b a live (omega arith),
  verify_edges_stops s b (a + 24) es k live h.3 (omega arith) (omega arith)
      (λ same. wrong (ap (read_le 8 b.bytes) (regroup a (length es)) ∙ same)),
)

verify_nodes_wrong :
    (b : Block) (e : ℕ) (code : ℤ) (k i : ℕ) (s : State) (l : Listing)
    → WrongAt b.bytes e code
    → s.pool ≡ some b
    → s.nodes ≡ some l
    → i < l.size
    → e + 24 ≤ memory_pool_size
    → (t : State) × (verify_nodes (suc k) i (at b.serial e) s ≡ ok code t) × (t.pool ≡ some b)
unfolding verify_nodes verify_node verify_libcalls go_on
verify_nodes_wrong b e _ k i s l (bad_node wrong) live listed room fits =
    let s' : State = with_nodes s (record l { entry = put_entry i (at b.serial e) l.entry }) in
    (
      s',
      ground (
        arith,
        set_node_lem s l i (at b.serial e) listed room,
        load64_lem s' b e live (omega arith),
      ),
      live,
    )
verify_nodes_wrong b e _ k i s l (bad_edge es magic h few inside wrong) live listed room fits =
    let s' : State = with_nodes s (record l { entry = put_entry i (at b.serial e) l.entry }) in
    (
      s',
      ground (
        arith,
        set_node_lem s l i (at b.serial e) listed room,
        load64_lem s' b e live (omega arith),
        load64_lem s' b (e + 16) live (omega arith),
        verify_edges_stops s' b (e + 24) es (read_le 8 b.bytes (e + 16)) live h few (omega arith)
            wrong,
      ),
      live,
    )

-- The loop comes to the wrong node over the nodes before it.
verify_nodes_reaches :
    (b : Block) (code : ℤ) (count : ℕ) (g : Graph) (i a : ℕ) (s : State) (l : Listing)
    → WrongAt b.bytes (a + graph_size g) code
    → s.pool ≡ some b
    → s.nodes ≡ some l
    → length g < count
    → i + length g < l.size
    → NodesAt b.bytes a g
    → a + graph_size g + 24 ≤ memory_pool_size
    → (t : State) × (verify_nodes count i (at b.serial a) s ≡ ok code t) × (t.pool ≡ some b)
verify_nodes_reaches b code zero g i a s l wrong live listed more room h fits = absurd (omega arith)
verify_nodes_reaches b code (suc k) [] i a s l wrong live listed more room h fits =
    verify_nodes_wrong b a code k i s l (rw (add-zero a) at wrong) live listed (omega arith)
      (omega arith)
verify_nodes_reaches b code (suc k) (n ∷ g) i a s l wrong live listed more room h fits =
    let l' : Listing = record l { entry = put_entry i (at b.serial a) l.entry } in
    let (t, e, pool) =
      verify_nodes_reaches b code k g (suc i) (a + node_size n) (with_nodes s l') l'
        (rw (add_assoc a (node_size n) (graph_size g)) wrong) live refl (omega arith) (omega arith)
        h.1 (omega arith) in
    (t, verify_node_lem b n k i a s l live listed (omega arith) h.0 (omega arith) ∙ e, pool)

module _ (env : Env) (s : State) (b : Block) (live : s.pool ≡ some b) where
  -- An array of node pointers is there with room for more nodes than `n`, or is none and will be
  -- granted for `count` nodes.
  pub data Listable (n count : ℕ) : Type 0 where
    roomy : (l : Listing) → s.nodes ≡ some l → n < l.size → Listable n count
    none_yet : s.nodes ≡ none → env.grants s.mallocs (8 * count) ≡ true → Listable n count

  ensure_lists :
      (n count : ℕ)
      → Listable n count
      → n < count
      → count < 2 ^ 61
      → (t : State) × (l : Listing) × (ensure_listing env count s ≡ ok tt t)
        × (t.pool ≡ some b)
        × (t.nodes ≡ some l)
        × (n < l.size)
  unfolding ensure_listing
  ensure_lists n count (roomy l there room) more small = (s, l, ground arith, live, there, room)
  ensure_lists n count (none_yet absent granted) more small =
      (_, new_listing env count, ensure_granted env s count absent small granted, live, refl, more)

  -- Where the pool is finalized and has its magic number, and holds, from the offset of its node
  -- table on, fewer nodes than it counts, which are less than 2 ^ 61, and then, within the pool, a node
  -- that is wrong, or an edge of it, and where the array of node pointers has room for that node, or
  -- is none and will be granted, `verify_graph` returns the error's number and leaves the pool as it is.
  pub verify_refuses :
      (g : Graph) (a count : ℕ) (code : ℤ)
      → b.bytes Metadata.graph_finalized ≢ 0
      → read_le 8 b.bytes Metadata.magic ≡ graph_meta_magic_number
      → read_le 8 b.bytes Metadata.nodes_table_offset ≡ a
      → read_le 8 b.bytes Metadata.num_nodes ≡ count
      → NodesAt b.bytes a g
      → WrongAt b.bytes (a + graph_size g) code
      → length g < count
      → count < 2 ^ 61
      → a + graph_size g + 24 ≤ memory_pool_size
      → Listable (length g) count
      → (t : State) × (verify_graph env s ≡ ok code t) × (t.pool ≡ some b)
  unfolding verify_graph verify_metadata verify_table verify_listed pool_word pool_byte
  verify_refuses g a count code finalized magic offset counted table wrong more small fits
        listable =
      let (u, l, made, pool, there, room) = ensure_lists (length g) count listable more small in
      let (t, e, kept) =
        verify_nodes_reaches b code count g 0 a u l wrong pool there more (omega arith) table
          fits in
      (t, ground (arith, made, e), kept)
