-- ===== src/MemGraph/Build/Stores.antt =====
-- What the stores of `alloc_node` leave in the pool.
use native.Mathlib.Nat.{add-zero, mul_comm}
use e0256_project_final.Base.{
  ℕ, suc, ◌+◌, ◌*◌, ◌≤◌, ◌<◌, ◌≡◌, refl, sym, ap, ◌∙◌, List, [], ◌∷◌, map, some, arith, length,
  le→leb,
}
use e0256_project_final.Base.Int.{pos, word_of_int}
use e0256_project_final.MemGraph.Bytes.{Bytes, write_le}
use e0256_project_final.MemGraph.State.{
  State, Block, Listing, Ptr, at, offset, Outcome, M, ok, ◌>>◌, store64, store64_lem, set_node,
  put_entry, memory_pool_size, node_magic_number, edge_magic_number,
}
use e0256_project_final.MemGraph.Graph.{Edge}
use e0256_project_final.MemGraph.Build.Bytes.{three_words, edges_bytes}
use e0256_project_final.MemGraph.Build.{write_edges, write_node, add_edges}

-- The pool's bytes changed to `m`.
abbrev pub with_bytes : State → Block → Bytes → State
with_bytes s b m = record s { pool = some (record b { bytes = m }) }

abbrev pub callees : List Edge → List ℕ
callees = map (λ e. e.libcallid)

abbrev pub successors : List Edge → List ℕ
successors = map (λ e. e.next_progstate)

store_three :
    (s : State) (b : Block) (a x y z : ℕ) (rest : M (Unit {0})) (r : Outcome (Unit {0}))
    → s.pool ≡ some b
    → a + 24 ≤ memory_pool_size
    → rest (with_bytes s b (three_words a x y z b.bytes)) ≡ r
    → (store64 (at b.serial a) x
          >> (store64 (at b.serial (a + 8)) y >> (store64 (at b.serial (a + 16)) z >> rest)))
        s
      ≡ r
store_three s b a x y z rest r live fits h =
    let b1 : Block = record b { bytes = write_le 8 a x b.bytes } in
    let b2 : Block = record b { bytes = write_le 8 (a + 8) y b1.bytes } in
    ground (
      arith,
      store64_lem s b a x live (omega arith),
      store64_lem (with_bytes s b b1.bytes) b1 (a + 8) y refl (omega arith),
      store64_lem (with_bytes s b b2.bytes) b2 (a + 16) z refl (omega arith),
    )

-- A pool that is there is the pool with its own bytes.
same_bytes : (s : State) (b : Block) → s.pool ≡ some b → with_bytes s b b.bytes ≡ s
same_bytes s b live = λ i. record s { pool = sym live i }

set_node_lem :
    (s : State) (l : Listing) (i : ℕ) (p : Ptr)
    → s.nodes ≡ some l
    → i < l.size
    → set_node i p s
      ≡ ok tt (record s { nodes = some (record l { entry = put_entry i p l.entry }) })
unfolding set_node
set_node_lem s l i p e h = simp (e, set_node, le→leb (suc i) l.size h)

pub write_edges_lem :
    (es : List Edge) (s : State) (b : Block) (a : ℕ)
    → s.pool ≡ some b
    → a + 24 * length es ≤ memory_pool_size
    → write_edges (length es) (at b.serial a) (successors es) (callees es) s
      ≡ ok tt (with_bytes s b (edges_bytes a es b.bytes))
unfolding write_edges edges_bytes
write_edges_lem [] s b a live fits = ap (ok tt) (sym (same_bytes s b live))
write_edges_lem (e ∷ es) s b a live fits =
    let m = three_words a edge_magic_number e.libcallid e.next_progstate b.bytes in
    store_three s b a edge_magic_number e.libcallid e.next_progstate _ _ live (omega arith)
      (write_edges_lem es (with_bytes s b m) (record b { bytes = m }) (a + 24) refl (omega arith))

-- The state after the stores of `write_node`.
abbrev pub node_written : State → Block → Listing → ℕ → ℕ → ℕ → State
node_written s b l a i k = record (with_bytes s b (three_words a node_magic_number i k b.bytes)) {
  nodes = some (record l { entry = put_entry i (at b.serial a) l.entry });
}

pub write_node_lem :
    (s : State) (b : Block) (l : Listing) (a i k : ℕ)
    → s.pool ≡ some b
    → s.nodes ≡ some l
    → i < l.size
    → a + 24 ≤ memory_pool_size
    → write_node i (pos k) (at b.serial a) s ≡ ok tt (node_written s b l a i k)
unfolding write_node word_of_int
write_node_lem s b l a i k live listed room fits =
    store_three s b a node_magic_number i k (set_node i (at b.serial a)) _ live fits (
      set_node_lem (with_bytes s b (three_words a node_magic_number i k b.bytes)) l i
        (at b.serial a) listed room)

-- The edges are written behind `pool_edge`, which moves past them.
pub add_edges_lem :
    (es : List Edge) (s : State) (b : Block) (a : ℕ)
    → s.pool ≡ some b
    → s.pool_edge ≡ at b.serial a
    → a + 24 * length es ≤ memory_pool_size
    → add_edges (pos (length es)) (successors es) (callees es) s
      ≡ ok tt (record (with_bytes s b (edges_bytes a es b.bytes)) {
        pool_edge = at b.serial (a + 24 * length es);
      })
unfolding add_edges edges_bytes
add_edges_lem [] s b a live edge fits =
    let still = edge ∙ ap (at b.serial) (sym (add-zero a)) in
    λ i. ok tt (record s { pool = live i; pool_edge = still i })
add_edges_lem (e ∷ es) s b a live edge fits =
    let n = suc (length es) in
    let s' : State = record s { pool_edge = at b.serial (a + 24 * n) } in
    let moved = ap (λ p. offset p (n * 24)) edge ∙ ap (λ k. at b.serial (a + k)) (mul_comm n 24) in
    (λ i.
      write_edges n (edge i) (successors (e ∷ es)) (callees (e ∷ es))
        (record s { pool_edge = moved i }))
    ∙ write_edges_lem (e ∷ es) s' b a live fits
