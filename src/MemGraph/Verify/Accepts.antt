-- ===== src/MemGraph/Verify/Accepts.antt =====
-- `verify_graph` accepts a pool that holds a graph, and enters each node into `nodes`.
use native.Mathlib.Nat.{zero-add, add_assoc}
use e0256_project_final.Base.{
  ℕ, zero, suc, ◌+◌, ◌*◌, ◌/◌, ◌%◌, ◌^◌, ◌≤◌, ◌<◌, ◌≡◌, ◌≢◌, refl, sym, ap, ◌∙◌, subst, List, [],
  ◌∷◌, none, some, arith, length, le→leb, true,
}
use e0256_project_final.Base.Int.{pos}
use e0256_project_final.MemGraph.Bytes.{Bytes, read_le}
use e0256_project_final.MemGraph.Metadata
use e0256_project_final.MemGraph.Libcalls
use e0256_project_final.MemGraph.State.{
  Env, State, Block, Listing, Ptr, at, ok, load64_lem, set_node, put_entry, pool_word, pool_byte,
  memory_pool_size, graph_meta_magic_number,
}
use e0256_project_final.MemGraph.Alloc.{malloc_nodes_granted, new_listing}
use e0256_project_final.MemGraph.Graph.{
  Graph, Node, Edge, graph_size, length-le-graph_size, node_size, node_offset, EdgesAt, NodeAt,
  NodesAt, NodesFit,
}
use e0256_project_final.MemGraph.Runs.{Represents}
use e0256_project_final.MemGraph.Verify.{
  go_on, verify_libcalls, verify_node, verify_edges, verify_nodes, verify_listed, verify_table,
  verify_metadata, verify_graph, ensure_listing,
}

-- The entries after the loop: node `i + j` of the table is at its offset.
abbrev pub fill : ℕ → (ℕ → Ptr) → ℕ → ℕ → Graph → ℕ → Ptr
fill serial e i a [] = e
fill serial e i a (n ∷ g) = fill serial (put_entry i (at serial a) e) (suc i) (a + node_size n) g

fill_below :
    (serial : ℕ) (e : ℕ → Ptr) (i a : ℕ) (g : Graph) (j : ℕ) → j < i → fill serial e i a g j ≡ e j
fill_below serial e i a [] j h = refl
fill_below serial e i a (n ∷ g) j h =
    ground (arith, fill_below serial (put_entry i (at serial a) e) (suc i) (a + node_size n) g j)

pub fill_listed :
    (serial : ℕ) (e : ℕ → Ptr) (i a : ℕ) (g : Graph) (j : ℕ)
    → j < length g
    → fill serial e i a g (i + j) ≡ at serial (a + node_offset g j)
fill_listed serial e i a [] j h = absurd (omega arith)
fill_listed serial e i a (n ∷ g) zero h =
    ground
      (arith, fill_below serial (put_entry i (at serial a) e) (suc i) (a + node_size n) g (i + 0))
fill_listed serial e i a (n ∷ g) (suc j) h =
    ground (arith, fill_listed serial (put_entry i (at serial a) e) (suc i) (a + node_size n) g j)

verify_nodes_none : (i : ℕ) (p : Ptr) (s : State) → verify_nodes 0 i p s ≡ ok (pos 1) s
unfolding verify_nodes
verify_nodes_none i p s = refl

verify_edges_lem :
    (s : State) (b : Block) (a : ℕ) (es : List Edge)
    → s.pool ≡ some b
    → EdgesAt b.bytes a es
    → a + Libcalls.size * length es ≤ memory_pool_size
    → verify_edges (length es) (at b.serial a) s
      ≡ ok (some (at b.serial (a + Libcalls.size * length es))) s
unfolding verify_edges
verify_edges_lem s b a [] live h fits = ground arith
verify_edges_lem s b a (e ∷ es) live h fits = ground (
  arith,
  load64_lem s b a live (omega arith),
  verify_edges_lem s b (a + 24) es live h.3 (omega arith),
)

abbrev pub with_nodes : State → Listing → State
with_nodes s l = record s { nodes = some l }

pub set_node_lem :
    (s : State) (l : Listing) (i : ℕ) (p : Ptr)
    → s.nodes ≡ some l
    → i < l.size
    → set_node i p s ≡ ok tt (with_nodes s (record l { entry = put_entry i p l.entry }))
unfolding set_node
set_node_lem s l i p e h = simp (e, set_node, le→leb (suc i) l.size h)

pub verify_node_lem :
    (b : Block) (n : Node) (k i a : ℕ) (s : State) (l : Listing)
    → s.pool ≡ some b
    → s.nodes ≡ some l
    → i < l.size
    → NodeAt b.bytes a n
    → a + node_size n ≤ memory_pool_size
    → verify_nodes (suc k) i (at b.serial a) s
      ≡ verify_nodes k
          (suc i)
          (at b.serial (a + node_size n))
          (with_nodes s (record l { entry = put_entry i (at b.serial a) l.entry }))
unfolding verify_nodes verify_node verify_libcalls go_on
verify_node_lem b n k i a s l live listed room h fits =
    let s' : State = with_nodes s (record l { entry = put_entry i (at b.serial a) l.entry }) in
    ground (
      arith,
      set_node_lem s l i (at b.serial a) listed room,
      load64_lem s' b a live (omega arith),
      load64_lem s' b (a + 16) live (omega arith),
      h.magic,
      h.count,
      verify_edges_lem s' b (a + 24) n.edges live h.edges (omega arith),
      add_assoc a 24 (24 * length n.edges),
    )

same_nodes : (s : State) (l : Listing) → s.nodes ≡ some l → with_nodes s l ≡ s
same_nodes s l e = λ i. record s { nodes = sym e i }

-- The loop over the nodes runs to its end, and fills `nodes`.
verify_nodes_lem :
    (b : Block) (g : Graph) (i a : ℕ) (s : State) (l : Listing)
    → s.pool ≡ some b
    → s.nodes ≡ some l
    → i + length g ≤ l.size
    → NodesAt b.bytes a g
    → a + graph_size g ≤ memory_pool_size
    → verify_nodes (length g) i (at b.serial a) s
      ≡ ok (pos 1) (with_nodes s (record l { entry = fill b.serial l.entry i a g }))
verify_nodes_lem b [] i a s l live listed room h fits =
    verify_nodes_none i (at b.serial a) s ∙ ap (ok (pos 1)) (sym (same_nodes s l listed))
verify_nodes_lem b (n ∷ g) i a s l live listed room h fits =
    let l' : Listing = record l { entry = put_entry i (at b.serial a) l.entry } in
    verify_node_lem b n (length g) i a s l live listed (omega arith) h.0 (omega arith)
    ∙ verify_nodes_lem b g (suc i) (a + node_size n) (with_nodes s l') l' live refl (omega arith)
        h.1 (omega arith)

-- The bytes of a finalized pool that holds `g` at `a`, whatever the numbers of its edges.
pub record Laid (m : Bytes) (g : Graph) (a : ℕ) : Type 0 where
  pub finalized : m Metadata.graph_finalized ≢ 0
  pub magic : read_le 8 m Metadata.magic ≡ graph_meta_magic_number
  pub count : read_le 8 m Metadata.num_nodes ≡ length g
  pub offset : read_le 8 m Metadata.nodes_table_offset ≡ a
  pub table : NodesAt m a g
  pub fits : a + graph_size g + 8 ≤ memory_pool_size

-- Such bytes, where every next state fits an `int`.
pub record Finished (m : Bytes) (g : Graph) (a : ℕ) : Type 0 where
  pub finalized : m Metadata.graph_finalized ≢ 0
  pub magic : read_le 8 m Metadata.magic ≡ graph_meta_magic_number
  pub count : read_le 8 m Metadata.num_nodes ≡ length g
  pub offset : read_le 8 m Metadata.nodes_table_offset ≡ a
  pub table : NodesAt m a g
  pub small : NodesFit g
  pub fits : a + graph_size g + 8 ≤ memory_pool_size

pub Laid-Finished : (m : Bytes) (g : Graph) (a : ℕ) → Laid m g a → NodesFit g → Finished m g a
Laid-Finished m g a h small = record {
  finalized = h.finalized;
  magic = h.magic;
  count = h.count;
  offset = h.offset;
  table = h.table;
  small = small;
  fits = h.fits;
}

abbrev pub filled : Graph → ℕ → Block → Listing → Listing
filled g a b l = record l { entry = fill b.serial l.entry 0 a g }

-- Where there is no array yet and its allocation is granted, it is made.
pub ensure_granted :
    (env : Env) (s : State) (n : ℕ)
    → s.nodes ≡ none
    → n < 2 ^ 61
    → env.grants s.mallocs (8 * n) ≡ true
    → ensure_listing env n s
      ≡ ok tt (record s { nodes = some (new_listing env n); mallocs = suc s.mallocs })
unfolding ensure_listing
ensure_granted env s n empty small granted =
    let wrap : (8 * n) % 2 ^ 64 ≡ 8 * n = omega arith in
    let whole : 8 * n / 8 ≡ n = omega arith in
    let got = rw whole at (malloc_nodes_granted env (8 * n) s granted) in ground (arith, wrap, got)

module _ (env : Env) (s : State) (g : Graph) (a : ℕ) (b : Block) (pool : s.pool ≡ some b)
    (h : Finished b.bytes g a) where
  open h use {finalized, magic, count, offset, table, small, fits}

  module _ (s' : State) (l : Listing) (live : s'.pool ≡ some b) (listed : s'.nodes ≡ some l)
      (room : length g ≤ l.size) where
    filled-Represents : Represents (with_nodes s' (filled g a b l)) g a b (filled g a b l)
    filled-Represents = record {
      pool = live;
      table = table;
      fits = fits;
      small = small;
      count = count;
      nodes = refl;
      room = room;
      listed = λ i lt.
          subst (λ k. fill b.serial l.entry 0 a g k ≡ at b.serial (a + node_offset g i))
            (zero-add i) (fill_listed b.serial l.entry 0 a g i lt);
    }

    verify_table_lem :
        ensure_listing env (length g) s ≡ ok tt s'
        → verify_table env s ≡ ok (pos 1) (with_nodes s' (filled g a b l))
    unfolding verify_table verify_listed pool_word
    verify_table_lem made =
        ground (arith, verify_nodes_lem b g 0 a s' l live listed (omega arith) table (omega arith))

    verify_graph_lem :
        ensure_listing env (length g) s ≡ ok tt s'
        → verify_graph env s ≡ ok (pos 1) (with_nodes s' (filled g a b l))
    unfolding verify_graph verify_metadata pool_word pool_byte
    verify_graph_lem made = ground (arith, verify_table_lem made)

  -- With an array of node pointers that is large enough, `verify_graph` accepts the pool and lists
  -- its nodes in it: the pool stands for the graph from then on.
  pub verify_accepts_listed :
      (l : Listing)
      → s.nodes ≡ some l
      → length g ≤ l.size
      → (verify_graph env s ≡ ok (pos 1) (with_nodes s (filled g a b l)))
        × Represents (with_nodes s (filled g a b l)) g a b (filled g a b l)
  unfolding ensure_listing
  verify_accepts_listed l listed room =
      (verify_graph_lem s l pool listed room (ground arith), filled-Represents s l pool listed room)

  -- The state after `verify_graph` has allocated an array.
  abbrev pub allocated : State
  allocated = record s { nodes = some (new_listing env (length g)); mallocs = suc s.mallocs }

  made :
      s.nodes ≡ none
      → env.grants s.mallocs (8 * length g) ≡ true
      → ensure_listing env (length g) s ≡ ok tt allocated
  made empty granted =
      let bound = length-le-graph_size g in
      ensure_granted env s (length g) empty (omega arith) granted

  -- On a pool that holds a finished graph, where there is no node array yet and the allocation of
  -- one for as many nodes as the graph has is granted, `verify_graph` returns 1 and lists the
  -- nodes in the array: the pool stands for the graph from then on.
  pub verify_accepts_fresh :
      s.nodes ≡ none
      → env.grants s.mallocs (8 * length g) ≡ true
      → (verify_graph env s
          ≡ ok (pos 1) (with_nodes allocated (filled g a b (new_listing env (length g)))))
        × Represents
            (with_nodes allocated (filled g a b (new_listing env (length g))))
            g
            a
            b
            (filled g a b (new_listing env (length g)))
  verify_accepts_fresh empty granted = (
    verify_graph_lem allocated (new_listing env (length g)) pool refl (omega arith)
        (made empty granted),
    filled-Represents allocated (new_listing env (length g)) pool refl (omega arith),
  )
