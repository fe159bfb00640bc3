-- ===== src/MemGraph/Build/Correct.antt =====
-- `alloc_node` adds a node to the graph that the pool holds.
use Prim.Native.Nat.{max}
use e0256_project_final.Base.{
  ℕ, suc, ◌+◌, ◌*◌, ◌%◌, ◌≤◌, ◌<◌, ◌^◌, ◌≡◌, ◌⊎◌, refl, sym, ap, ◌∙◌, subst, List, [], ◌∷◌, ◌++◌,
  some, arith, length, length-append, inl, inr, true,
}
use e0256_project_final.Base.Int.{pos}
use e0256_project_final.MemGraph.Bytes.{
  Bytes, read_le, write_le, write_le_outside, read_le-ext, read_le-write_le_self,
}
use e0256_project_final.MemGraph.Metadata
use e0256_project_final.MemGraph.State.{
  Env, State, Block, at, ok, pool_word, set_pool_word, put_entry, memory_pool_size,
  node_table_offset, graph_meta_magic_number, node_magic_number,
}
use e0256_project_final.MemGraph.Graph.{
  Graph, Node, Edge, graph_size, length-le-graph_size, NodesAt,
}
use e0256_project_final.MemGraph.Build.Bytes.{
  EdgesWords, three_words, edges_bytes, node_bytes, node_bytes_outside, node_bytes-NodeAt,
  NodesAt-ext, NodesAt-append, graph_size-append,
}
use e0256_project_final.MemGraph.Build.Stores.{
  callees, successors, node_written, write_node_lem, add_edges_lem,
}
use e0256_project_final.MemGraph.Build.Room.{
  Roomy, Roomy-pool_edge, RoomMade, listed, ensure_room_lem,
}
use e0256_project_final.MemGraph.Build.{alloc_node, ensure_room}

-- A pool under construction holds the nodes of `g`, in the order of their indices.
pub record Building (s : State) (g : Graph) (b : Block) : Type 0 where
  pub pool : s.pool ≡ some b
  pub pool_edge : s.pool_edge ≡ at b.serial (node_table_offset + graph_size g)
  pub magic : read_le 8 b.bytes Metadata.magic ≡ graph_meta_magic_number
  pub offset : read_le 8 b.bytes Metadata.nodes_table_offset ≡ node_table_offset
  pub count : read_le 8 b.bytes Metadata.num_nodes ≡ length g
  pub table : NodesAt b.bytes node_table_offset g
  pub room : Roomy s (length g)

-- The pool's bytes after `alloc_node` has written the node of index `k` at `e`.
pub grown_bytes : ℕ → Node → ℕ → Bytes → Bytes
grown_bytes e n k m = write_le 8 Metadata.num_nodes ((k + 1) % 2 ^ 64) (node_bytes e n m)

word_kept :
    (e : ℕ) (n : Node) (m : Bytes) (a : ℕ)
    → a + 8 ≤ e
    → read_le 8 (node_bytes e n m) a ≡ read_le 8 m a
word_kept e n m a below =
    read_le-ext 8 _ m a (λ p lo hi. node_bytes_outside e n m p (inl (omega arith)))

grown_outside :
    (e : ℕ) (n : Node) (k : ℕ) (m : Bytes) (p : ℕ)
    → (p < Metadata.num_nodes) ⊎ (Metadata.num_nodes + 8 ≤ p)
    → p < e
    → grown_bytes e n k m p ≡ m p
unfolding grown_bytes
grown_outside e n k m p off below =
    write_le_outside 8 64 ((k + 1) % 2 ^ 64) (node_bytes e n m) p off
    ∙ node_bytes_outside e n m p (inl below)

-- The words of the metadata other than the count are as before.
grown_word :
    (e : ℕ) (n : Node) (k : ℕ) (m : Bytes) (a : ℕ)
    → (a + 8 ≤ Metadata.num_nodes) ⊎ (Metadata.num_nodes + 8 ≤ a)
    → a + 8 ≤ e
    → read_le 8 (grown_bytes e n k m) a ≡ read_le 8 m a
grown_word e n k m a off below =
    read_le-ext 8 _ m a (λ p lo hi. grown_outside e n k m p (ground arith) (omega arith))

grown_count :
    (e : ℕ) (n : Node) (k : ℕ) (m : Bytes)
    → k + 1 < 2 ^ 64
    → read_le 8 (grown_bytes e n k m) Metadata.num_nodes ≡ k + 1
unfolding grown_bytes
grown_count e n k m h =
    read_le-write_le_self 8 64 ((k + 1) % 2 ^ 64) (node_bytes e n m) (omega arith) ∙ omega arith

-- The nodes before stand where they stood, and the new one stands behind them.
grown_table :
    (g : Graph) (n : Node) (m : Bytes)
    → n.id < 256 ^ 8
    → length n.edges < 256 ^ 8
    → EdgesWords n.edges
    → NodesAt m node_table_offset g
    → NodesAt
        (grown_bytes (node_table_offset + graph_size g) n (length g) m)
        node_table_offset
        (g ++ n ∷ [])
unfolding grown_bytes
grown_table g n m hid hlen hes stored =
    let e = node_table_offset + graph_size g in
    let m' = write_le 8 64 ((length g + 1) % 2 ^ 64) (node_bytes e n m) in
    let before = λ (p : ℕ) (lo : 88 ≤ p).
      write_le_outside 8 64 ((length g + 1) % 2 ^ 64) (node_bytes e n m) p (inr (omega arith)) in
    let others =
      NodesAt-ext m m' node_table_offset g
        (λ p lo hi. sym (before p lo ∙ node_bytes_outside e n m p (inl hi))) stored in
    let new =
      NodesAt-ext (node_bytes e n m) m' e (n ∷ []) (λ p lo hi. sym (before p (omega arith)))
        (node_bytes-NodeAt e n m hid hlen hes, tt) in
    NodesAt-append m' node_table_offset g n others new.0

module _ (env : Env) (all : (i n : ℕ) → env.grants i n ≡ true) (s : State) (g : Graph) (b : Block)
    (h : Building s g b) where
  -- The block and the state after `alloc_node` has added a node.
  abbrev pub grown_block : ℕ → List Edge → Block
  grown_block id es = record b {
    bytes =
        grown_bytes (node_table_offset + graph_size g) (record { id = id; edges = es }) (length g)
          b.bytes;
  }

  alloc_node_lem :
      (id : ℕ) (es : List Edge) (t : State)
      → ensure_room env
          (record s { pool_edge = at b.serial (node_table_offset + graph_size g + 24) })
        ≡ ok tt t
      → (made : RoomMade
          (record s { pool_edge = at b.serial (node_table_offset + graph_size g + 24) })
          t
          (length g))
      → id < made.listing.size
      → node_table_offset + graph_size g + 24 + 24 * length es ≤ memory_pool_size
      → alloc_node env id (pos (length es)) (successors es) (callees es) s
        ≡ ok (at b.serial (node_table_offset + graph_size g)) (record t {
          pool = some (grown_block id es);
          pool_edge = at b.serial (node_table_offset + graph_size g + 24 + 24 * length es);
          nodes = some (record made.listing {
            entry =
                put_entry id (at b.serial (node_table_offset + graph_size g)) made.listing.entry;
          });
        })
  unfolding alloc_node set_pool_word pool_word grown_bytes node_bytes
  alloc_node_lem id es t enough made inside fits =
      let k = length g in
      let e = node_table_offset + graph_size g in
      let m2 = three_words e node_magic_number id (length es) b.bytes in
      let b2 : Block = record b { bytes = m2 } in
      let t2 = node_written t b made.listing e id (length es) in
      let m3 = edges_bytes (e + 24) es m2 in
      let kept = word_kept e (record { id = id; edges = es }) b.bytes 64 (omega arith) in
      let counted : read_le 8 m3 64 ≡ k = unfold node_bytes in (kept ∙ h.count) in
      ground (
        arith,
        h.pool_edge,
        enough,
        write_node_lem t b made.listing e id (length es) (made.pool ∙ h.pool) made.nodes inside
            (omega arith),
        add_edges_lem es t2 b2 (e + 24) refl made.pool_edge (omega arith),
        counted,
      )

  -- With its requests granted, with room left in the pool and with edges whose numbers fit a word,
  -- `alloc_node` for the next index, or for any id below 4096, returns the node's address, and the
  -- pool under construction then holds one node more, with the given id and edges.
  pub alloc_builds :
      (id : ℕ) (es : List Edge)
      → id < max 4096 (suc (length g))
      → EdgesWords es
      → node_table_offset + graph_size g + 24 + 24 * length es ≤ memory_pool_size
      → (t : State) × (alloc_node env id (pos (length es)) (successors es) (callees es) s
          ≡ ok (at b.serial (node_table_offset + graph_size g)) t)
        × Building t (g ++ record { id = id; edges = es } ∷ []) (grown_block id es)
  alloc_builds id es near words fits =
      let k = length g in
      let e = node_table_offset + graph_size g in
      let n : Node = record { id = id; edges = es } in
      let small = length-le-graph_size g in
      let s1 : State = record s { pool_edge = at b.serial (e + 24) } in
      let (t, enough, made) =
        ensure_room_lem env all s1 b k h.pool h.count (omega arith)
          (Roomy-pool_edge (at b.serial (e + 24)) h.room) in
      let longer = length-append g (n ∷ []) in
      let end : e + 24 + 24 * length es ≡ node_table_offset + graph_size (g ++ n ∷ []) =
        omega (arith, graph_size-append g n) in
      let off = Metadata.nodes_table_offset in
      (
        _,
        alloc_node_lem id es t enough made (omega (arith, made.inside, made.wide)) fits,
        record {
          pool = refl;
          pool_edge = ap (at b.serial) end;
          magic = grown_word e n k b.bytes 0 (inl (omega arith)) (omega arith) ∙ h.magic;
          offset = grown_word e n k b.bytes off (inr (omega arith)) (omega arith) ∙ h.offset;
          count = grown_count e n k b.bytes (omega arith) ∙ omega arith;
          table = grown_table g n b.bytes (omega arith) (omega arith) words h.table;
          room = subst (Roomy _) (omega arith) (listed _ refl made.bounded made.wide made.next);
        },
      )
