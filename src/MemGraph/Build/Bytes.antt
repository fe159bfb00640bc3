-- ===== src/MemGraph/Build/Bytes.antt =====
-- The bytes that `alloc_node` writes for a node, and that they stand for it.
use native.Mathlib.Nat.{add-zero, add_assoc}
use e0256_project_final.Base.{
  ℕ, ◌+◌, ◌*◌, ◌≤◌, ◌<◌, ◌^◌, ◌≡◌, refl, sym, subst, ◌∙◌, ◌⊎◌, inl, List, [], ◌∷◌, ◌++◌, arith,
  length,
}
use e0256_project_final.MemGraph.Bytes.{
  Bytes, read_le, write_le, write_le_outside, read_le-ext, read_le-write_le_self,
  read_le-write_le_ne,
}
use e0256_project_final.MemGraph.State.{node_magic_number, edge_magic_number}
use e0256_project_final.MemGraph.Graph.{
  Graph, Node, Edge, graph_size, node_size, EdgesAt, NodeAt, NodesAt,
}

-- The values are words.
abbrev pub EdgesWords : List Edge → Type 0
EdgesWords [] = Unit {0}
EdgesWords (e ∷ es) = (e.libcallid < 256 ^ 8) × (e.next_progstate < 256 ^ 8) × EdgesWords es

-- Three words at `a`.
abbrev pub three_words : ℕ → ℕ → ℕ → ℕ → Bytes → Bytes
three_words a x y z m = write_le 8 (a + 16) z (write_le 8 (a + 8) y (write_le 8 a x m))

unfoldable pub edges_bytes : ℕ → List Edge → Bytes → Bytes
edges_bytes a [] m = m
edges_bytes a (e ∷ es) m =
    edges_bytes (a + 24) es (three_words a edge_magic_number e.libcallid e.next_progstate m)

unfoldable pub node_bytes : ℕ → Node → Bytes → Bytes
node_bytes a n m =
    edges_bytes (a + 24) n.edges (three_words a node_magic_number n.id (length n.edges) m)

three_words_outside :
    (a x y z : ℕ) (m : Bytes) (p : ℕ) → (p < a) ⊎ (a + 24 ≤ p) → three_words a x y z m p ≡ m p
three_words_outside a x y z m p h =
    write_le_outside 8 (a + 16) z _ p (ground arith)
    ∙ write_le_outside 8 (a + 8) y _ p (ground arith)
    ∙ write_le_outside 8 a x m p (ground arith)

three_words_lem :
    (a x y z : ℕ) (m : Bytes)
    → x < 256 ^ 8
    → y < 256 ^ 8
    → z < 256 ^ 8
    → (read_le 8 (three_words a x y z m) a ≡ x)
      × (read_le 8 (three_words a x y z m) (a + 8) ≡ y)
      × (read_le 8 (three_words a x y z m) (a + 16) ≡ z)
three_words_lem a x y z m hx hy hz =
    let m1 = write_le 8 a x m in
    let m2 = write_le 8 (a + 8) y m1 in
    (
      read_le-write_le_ne 8 a 8 (a + 16) z m2 (inl (omega arith))
          ∙ read_le-write_le_ne 8 a 8 (a + 8) y m1 (inl (omega arith))
          ∙ read_le-write_le_self 8 a x m hx,
      read_le-write_le_ne 8 (a + 8) 8 (a + 16) z m2 (inl (omega arith))
          ∙ read_le-write_le_self 8 (a + 8) y m1 hy,
      read_le-write_le_self 8 (a + 16) z m2 hz,
    )

pub edges_bytes_outside :
    (a : ℕ) (es : List Edge) (m : Bytes) (p : ℕ)
    → (p < a) ⊎ (a + 24 * length es ≤ p)
    → edges_bytes a es m p ≡ m p
unfolding edges_bytes
edges_bytes_outside a [] m p h = refl
edges_bytes_outside a (e ∷ es) m p h =
    edges_bytes_outside (a + 24) es _ p (ground arith)
    ∙ three_words_outside a edge_magic_number e.libcallid e.next_progstate m p (ground arith)

pub node_bytes_outside :
    (a : ℕ) (n : Node) (m : Bytes) (p : ℕ)
    → (p < a) ⊎ (a + node_size n ≤ p)
    → node_bytes a n m p ≡ m p
unfolding node_bytes
node_bytes_outside a n m p h =
    edges_bytes_outside (a + 24) n.edges _ p (ground arith)
    ∙ three_words_outside a node_magic_number n.id (length n.edges) m p (ground arith)

-- A word below the written edges, or behind them, is as before.
below_edges :
    (a : ℕ) (es : List Edge) (m : Bytes) (b : ℕ)
    → b + 8 ≤ a
    → read_le 8 (edges_bytes a es m) b ≡ read_le 8 m b
below_edges a es m b h =
    read_le-ext 8 _ m b (λ p lo hi. edges_bytes_outside a es m p (inl (omega arith)))

pub edges_bytes-EdgesAt :
    (a : ℕ) (es : List Edge) (m : Bytes) → EdgesWords es → EdgesAt (edges_bytes a es m) a es
unfolding edges_bytes
edges_bytes-EdgesAt a [] m h = tt
edges_bytes-EdgesAt a (e ∷ es) m h =
    let m' = three_words a edge_magic_number e.libcallid e.next_progstate m in
    let (magic, call, next) =
      three_words_lem a edge_magic_number e.libcallid e.next_progstate m (omega arith) h.0 h.1 in
    (
      below_edges (a + 24) es m' a (omega arith) ∙ magic,
      below_edges (a + 24) es m' (a + 8) (omega arith) ∙ call,
      below_edges (a + 24) es m' (a + 16) (omega arith) ∙ next,
      edges_bytes-EdgesAt (a + 24) es m' h.2,
    )

-- The bytes written for a node stand for it.
pub node_bytes-NodeAt :
    (a : ℕ) (n : Node) (m : Bytes)
    → n.id < 256 ^ 8
    → length n.edges < 256 ^ 8
    → EdgesWords n.edges
    → NodeAt (node_bytes a n m) a n
unfolding node_bytes
node_bytes-NodeAt a n m hid hlen h =
    let m' = three_words a node_magic_number n.id (length n.edges) m in
    let (magic, id, count) =
      three_words_lem a node_magic_number n.id (length n.edges) m (omega arith) hid hlen in
    record {
      magic = below_edges (a + 24) n.edges m' a (omega arith) ∙ magic;
      id = below_edges (a + 24) n.edges m' (a + 8) (omega arith) ∙ id;
      count = below_edges (a + 24) n.edges m' (a + 16) (omega arith) ∙ count;
      edges = edges_bytes-EdgesAt (a + 24) n.edges m' h;
    }

-- What stands in a region depends on the region's bytes only.
EdgesAt-ext :
    (m m' : Bytes) (a : ℕ) (es : List Edge)
    → ((p : ℕ) → a ≤ p → p < a + 24 * length es → m p ≡ m' p)
    → EdgesAt m a es
    → EdgesAt m' a es
EdgesAt-ext m m' a [] same h = tt
EdgesAt-ext m m' a (e ∷ es) same h =
    let word = λ (k : ℕ) (lo : a ≤ k) (hi : k + 8 ≤ a + 24).
      read_le-ext 8 m' m k (λ p l u. sym (same p (omega arith) (omega arith))) in
    (
      word a (omega arith) (omega arith) ∙ h.0,
      word (a + 8) (omega arith) (omega arith) ∙ h.1,
      word (a + 16) (omega arith) (omega arith) ∙ h.2,
      EdgesAt-ext m m' (a + 24) es (λ p l u. same p (omega arith) (omega arith)) h.3,
    )

NodeAt-ext :
    (m m' : Bytes) (a : ℕ) (n : Node)
    → ((p : ℕ) → a ≤ p → p < a + node_size n → m p ≡ m' p)
    → NodeAt m a n
    → NodeAt m' a n
NodeAt-ext m m' a n same h =
    let word = λ (k : ℕ) (lo : a ≤ k) (hi : k + 8 ≤ a + 24).
      read_le-ext 8 m' m k (λ p l u. sym (same p (omega arith) (omega arith))) in
    record {
      magic = word a (omega arith) (omega arith) ∙ h.magic;
      id = word (a + 8) (omega arith) (omega arith) ∙ h.id;
      count = word (a + 16) (omega arith) (omega arith) ∙ h.count;
      edges =
          EdgesAt-ext m m' (a + 24) n.edges (λ p l u. same p (omega arith) (omega arith)) h.edges;
    }

pub NodesAt-ext :
    (m m' : Bytes) (a : ℕ) (g : Graph)
    → ((p : ℕ) → a ≤ p → p < a + graph_size g → m p ≡ m' p)
    → NodesAt m a g
    → NodesAt m' a g
NodesAt-ext m m' a [] same h = tt
NodesAt-ext m m' a (n ∷ g) same h = (
  NodeAt-ext m m' a n (λ p l u. same p l (omega arith)) h.0,
  NodesAt-ext m m' (a + node_size n) g (λ p l u. same p (omega arith) (omega arith)) h.1,
)

pub NodesAt-append :
    (m : Bytes) (a : ℕ) (g : Graph) (n : Node)
    → NodesAt m a g
    → NodeAt m (a + graph_size g) n
    → NodesAt m a (g ++ n ∷ [])
NodesAt-append m a [] n h last = (subst (λ k. NodeAt m k n) (add-zero a) last, tt)
NodesAt-append m a (x ∷ g) n h last =
    let moved = subst (λ k. NodeAt m k n) (sym (add_assoc a (node_size x) (graph_size g))) last in
    (h.0, NodesAt-append m (a + node_size x) g n h.1 moved)

pub graph_size-append :
    (g : Graph) (n : Node) → graph_size (g ++ n ∷ []) ≡ graph_size g + node_size n
graph_size-append [] n = omega arith
graph_size-append (x ∷ g) n = omega (arith, graph_size-append g n)
