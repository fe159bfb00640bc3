-- ===== src/MemGraph/Verify/Sound.antt =====
-- What a pool holds that `verify_graph` accepts.
use Prim.Native.Nat.{max}
use e0256_project_final.Base.{
  ◌⊎◌, ℕ, zero, suc, ◌+◌, ◌*◌, ◌≤◌, ◌≡◌, ◌≢◌, refl, sym, ◌∙◌, ap, List, [], ◌∷◌, Option, none, some,
  arith, length, inl, inr,
}
use e0256_project_final.Base.Int.{ℤ, pos}
use e0256_project_final.MemGraph.Bytes.{Bytes, read_le}
use e0256_project_final.MemGraph.Metadata
use e0256_project_final.MemGraph.Progstate
use e0256_project_final.MemGraph.Libcalls
use e0256_project_final.MemGraph.State.{
  bind_inv, M, ◌>>=◌, ◌>>◌, Env, State, Block, Ptr, at, ok, load64, set_node, pool_word, pool_byte,
  memory_pool_size, node_magic_number, edge_magic_number, graph_meta_magic_number,
}
use e0256_project_final.MemGraph.Graph.{
  Graph, Node, Edge, graph_size, node_size, EdgesAt, NodeAt, NodesAt,
}
use e0256_project_final.MemGraph.Alloc.{malloc_nodes}
use e0256_project_final.MemGraph.Verify.{
  verify_listed, go_on, verify_libcalls, verify_node, verify_edges, verify_nodes, verify_table,
  verify_metadata, verify_graph, ensure_listing,
}

-- The graph that the bytes spell out from address `a`, by the counts that they hold.
unfoldable pub decode_edges : Bytes → ℕ → ℕ → List Edge
decode_edges m a zero = []
decode_edges m a (suc k) =
    record {
      libcallid = read_le 8 m (a + Libcalls.libcallid);
      next_progstate = read_le 8 m (a + Libcalls.next_progstate);
    }
    ∷ decode_edges m (a + Libcalls.size) k

unfoldable pub decode_node : Bytes → ℕ → Node
decode_node m a = record {
  id = read_le 8 m (a + Progstate.id);
  edges = decode_edges m (a + Progstate.size) (read_le 8 m (a + Progstate.num_libcalls));
}

unfoldable pub decode_nodes : Bytes → ℕ → ℕ → Graph
decode_nodes m a zero = []
decode_nodes m a (suc k) = let n = decode_node m a in n ∷ decode_nodes m (a + node_size n) k

length-decode_edges : (m : Bytes) (a k : ℕ) → length (decode_edges m a k) ≡ k
unfolding decode_edges
length-decode_edges m a zero = refl
length-decode_edges m a (suc k) = omega (arith, length-decode_edges m (a + 24) k)

length-decode_nodes : (m : Bytes) (a k : ℕ) → length (decode_nodes m a k) ≡ k
unfolding decode_nodes
length-decode_nodes m a zero = refl
length-decode_nodes m a (suc k) =
    omega (arith, length-decode_nodes m (a + node_size (decode_node m a)) k)

-- Where a read succeeds the word lies in the pool, and the state is as before.
load64_inv :
    (s s' : State) (b : Block) (a v : ℕ)
    → s.pool ≡ some b
    → load64 (at b.serial a) s ≡ ok v s'
    → (a + 8 ≤ memory_pool_size) × (v ≡ read_le 8 b.bytes a) × (s' ≡ s)
unfolding load64
load64_inv s s' b a v live h = ground arith

verify_edges_inv :
    (s s' : State) (b : Block) (k a : ℕ) (q : Ptr)
    → s.pool ≡ some b
    → verify_edges (suc k) (at b.serial a) s ≡ ok (some q) s'
    → (a + 8 ≤ memory_pool_size)
      × (read_le 8 b.bytes a ≡ edge_magic_number)
      × (verify_edges k (at b.serial (a + Libcalls.size)) s ≡ ok (some q) s')
unfolding verify_edges load64
verify_edges_inv s s' b k a q live h = ground arith

verify_edges_sound :
    (s s' : State) (b : Block) (k a : ℕ) (q : Ptr)
    → s.pool ≡ some b
    → a ≤ memory_pool_size + 16
    → verify_edges k (at b.serial a) s ≡ ok (some q) s'
    → EdgesAt b.bytes a (decode_edges b.bytes a k)
      × (a + Libcalls.size * k ≤ memory_pool_size + 16)
      × (q ≡ at b.serial (a + Libcalls.size * k))
      × (s' ≡ s)
unfolding decode_edges
verify_edges_sound s s' b zero a q live fits h = unfold verify_edges in (ground arith)
verify_edges_sound s s' b (suc k) a q live fits h =
    let (inside, magic, rest) = verify_edges_inv s s' b k a q live h in
    let (edges, end, last, same) = verify_edges_sound s s' b k (a + 24) q live (omega arith) rest in
    ((magic, refl, refl, edges), omega arith, ground arith, same)

set_node_inv :
    (s t : State) (i : ℕ) (p : Ptr) (u : Unit {0}) → set_node i p s ≡ ok u t → t.pool ≡ s.pool
unfolding set_node
set_node_inv s t i p u h = ground arith

module _ (b : Block) (rest : Ptr → M ℤ) where
  verify_node_inv :
      (t s' : State) (a : ℕ)
      → t.pool ≡ some b
      → verify_node rest (at b.serial a) t ≡ ok (pos 1) s'
      → (read_le 8 b.bytes a ≡ node_magic_number)
        × (verify_libcalls rest (at b.serial a) t ≡ ok (pos 1) s')
  unfolding verify_node load64
  verify_node_inv t s' a live h = ground arith

  verify_libcalls_inv :
      (t s' : State) (a : ℕ)
      → t.pool ≡ some b
      → verify_libcalls rest (at b.serial a) t ≡ ok (pos 1) s'
      → (a + Progstate.size ≤ memory_pool_size)
        × ((verify_edges
                  (read_le 8 b.bytes (a + Progstate.num_libcalls))
                  (at b.serial (a + Progstate.size))
                >>= go_on rest)
              t
            ≡ ok (pos 1) s')
  unfolding verify_libcalls load64
  verify_libcalls_inv t s' a live h = ground arith

  go_on_inv :
      (r : Option Ptr) (t s' : State)
      → go_on rest r t ≡ ok (pos 1) s'
      → (q : Ptr) × (r ≡ some q) × (rest q t ≡ ok (pos 1) s')
  unfolding go_on
  go_on_inv none t s' h = cc
  go_on_inv (some q) t s' h = (q, refl, h)

  -- A node that is not refused is sound, and the loop goes on behind it in the same state.
  verify_node_sound :
      (t s' : State) (a : ℕ)
      → t.pool ≡ some b
      → verify_node rest (at b.serial a) t ≡ ok (pos 1) s'
      → NodeAt b.bytes a (decode_node b.bytes a)
        × (a + node_size (decode_node b.bytes a) ≤ memory_pool_size + 16)
        × (rest (at b.serial (a + node_size (decode_node b.bytes a))) t ≡ ok (pos 1) s')
  unfolding decode_node
  verify_node_sound t s' a live h =
      let k = read_le 8 b.bytes (a + 16) in
      let (magic, h1) = verify_node_inv t s' a live h in
      let (head, h2) = verify_libcalls_inv t s' a live h1 in
      let (r, t', walked, h3) =
        bind_inv (verify_edges k (at b.serial (a + 24))) (go_on rest) t s' h2 in
      let (q, found, h4) = go_on_inv r t' s' h3 in
      let (edges, end, last, same) =
        verify_edges_sound t t' b k (a + 24) q live (omega arith) (rw found at walked) in
      let count = length-decode_edges b.bytes (a + 24) k in
      let size : a + 24 + 24 * k ≡ a + node_size (decode_node b.bytes a) = omega arith in
      let reached = last ∙ ap (at b.serial) size in
      (
        record { magic = magic; id = refl; count = sym count; edges = edges },
        omega arith,
        ap (λ p. rest p t) (sym reached) ∙ ap (rest q) (sym same) ∙ h4,
      )

verify_nodes_sound :
    (b : Block) (k i a : ℕ) (s s' : State)
    → s.pool ≡ some b
    → verify_nodes k i (at b.serial a) s ≡ ok (pos 1) s'
    → NodesAt b.bytes a (decode_nodes b.bytes a k)
      × (a + graph_size (decode_nodes b.bytes a k) ≤ max a (memory_pool_size + 16))
unfolding decode_nodes verify_nodes
verify_nodes_sound b zero i a s s' live h = (tt, omega arith)
verify_nodes_sound b (suc k) i a s s' live h =
    let n = decode_node b.bytes a in
    let (u, t, entered, h1) = bind_inv (set_node i (at b.serial a)) _ s s' h in
    let live' = set_node_inv s t i (at b.serial a) u entered ∙ live in
    let (here, end, h2) = verify_node_sound b (verify_nodes k (suc i)) t s' a live' h1 in
    let (others, all) = verify_nodes_sound b k (suc i) (a + node_size n) t s' live' h2 in
    ((here, others), omega arith)

within :
    (g : Graph) (a : ℕ)
    → a + graph_size g ≤ max a (memory_pool_size + 16)
    → (length g ≡ 0) ⊎ (a + graph_size g ≤ memory_pool_size + 16)
within [] a h = inl refl
within (n ∷ g) a h = inr (omega arith)

ensure_listing_inv :
    (env : Env) (n : ℕ) (s t : State) (u : Unit {0})
    → ensure_listing env n s ≡ ok u t
    → t.pool ≡ s.pool
unfolding ensure_listing malloc_nodes
ensure_listing_inv env n s t u h = ground arith

module _ (env : Env) (s s' : State) (b : Block) (live : s.pool ≡ some b) where
  -- The graph that the pool's own metadata points to.
  abbrev pub stored_graph : Graph
  stored_graph =
      decode_nodes b.bytes (read_le 8 b.bytes Metadata.nodes_table_offset)
        (read_le 8 b.bytes Metadata.num_nodes)

  verify_listed_inv :
      (t : State) (n : ℕ)
      → t.pool ≡ some b
      → verify_listed n t ≡ ok (pos 1) s'
      → verify_nodes n 0 (at b.serial (read_le 8 b.bytes Metadata.nodes_table_offset)) t
        ≡ ok (pos 1) s'
  unfolding verify_listed pool_word
  verify_listed_inv t n live' h = ground arith

  verify_table_inv :
      verify_table env s ≡ ok (pos 1) s'
      → (ensure_listing env (read_le 8 b.bytes Metadata.num_nodes)
            >> verify_listed (read_le 8 b.bytes Metadata.num_nodes))
          s
        ≡ ok (pos 1) s'
  unfolding verify_table pool_word
  verify_table_inv h = ground arith

  verify_metadata_inv :
      verify_graph env s ≡ ok (pos 1) s'
      → (b.bytes Metadata.graph_finalized ≢ 0)
        × (read_le 8 b.bytes Metadata.magic ≡ graph_meta_magic_number)
        × (verify_table env s ≡ ok (pos 1) s')
  unfolding verify_graph verify_metadata pool_word pool_byte
  verify_metadata_inv h = ground arith

  -- What `verify_graph` accepts with 1, where a pool is there, is finalized, has the magic number,
  -- and holds at its node table as many nodes as it counts, each with its magic number and those
  -- of its edges. A table with a node ends at most 16 bytes behind the pool, since only the first
  -- word of an edge is read.
  pub verify_sound :
      verify_graph env s ≡ ok (pos 1) s'
      → (b.bytes Metadata.graph_finalized ≢ 0)
        × (read_le 8 b.bytes Metadata.magic ≡ graph_meta_magic_number)
        × NodesAt b.bytes (read_le 8 b.bytes Metadata.nodes_table_offset) stored_graph
        × (length stored_graph ≡ read_le 8 b.bytes Metadata.num_nodes)
        × ((length stored_graph ≡ 0)
            ⊎ (read_le 8 b.bytes Metadata.nodes_table_offset + graph_size stored_graph
                ≤ memory_pool_size + 16))
  verify_sound h =
      let n = read_le 8 b.bytes Metadata.num_nodes in
      let a = read_le 8 b.bytes Metadata.nodes_table_offset in
      let (finalized, magic, h1) = verify_metadata_inv h in
      let (u, t, made, h2) =
        bind_inv (ensure_listing env n) (λ _. verify_listed n) s s' (verify_table_inv h1) in
      let live' = ensure_listing_inv env n s t u made ∙ live in
      let (stored, end) = verify_nodes_sound b n 0 a t s' live' (verify_listed_inv t n live' h2) in
      (finalized, magic, stored, length-decode_nodes b.bytes a n, within stored_graph a end)
