-- ===== src/MemGraph/Build/Stale.antt =====
-- `destroy_graph` leaves `num_nodes_listings` as it is, and `alloc_node` goes by it.
use e0256_project_final.Base.{ℕ, ◌+◌, ◌≤◌, ◌<◌, ◌≡◌, refl, List, some, arith}
use e0256_project_final.Base.Int.{ℤ, word_of_int}
use e0256_project_final.MemGraph.Bytes.{read_le, write_le}
use e0256_project_final.MemGraph.Metadata
use e0256_project_final.MemGraph.State.{
  Env, State, Block, Listing, at, ok, fault, store64_lem, set_node, pool_word, memory_pool_size,
  node_magic_number,
}
use e0256_project_final.MemGraph.Build.{alloc_node, write_node, ensure_room, grow}

module _ (env : Env) (s : State) (b : Block) (l : Listing) (e : ℕ) (live : s.pool ≡ some b)
    (edge : s.pool_edge ≡ at b.serial e) (listed : s.nodes ≡ some l) where
  abbrev advanced : State
  advanced = record s { pool_edge = at b.serial (e + 24) }

  no_growth :
      read_le 8 b.bytes Metadata.num_nodes < s.num_nodes_listings
      → ensure_room env advanced ≡ ok tt advanced
  unfolding ensure_room grow pool_word
  no_growth few = ground arith

  unlisted_node :
      (id : ℕ) (n : ℤ)
      → e + 24 ≤ memory_pool_size
      → l.size ≤ id
      → write_node id n (at b.serial e) advanced ≡ fault
  unfolding write_node set_node
  unlisted_node id n fits beyond =
      let b1 : Block = record b { bytes = write_le 8 e node_magic_number b.bytes } in
      let b2 : Block = record b { bytes = write_le 8 (e + 8) id b1.bytes } in
      ground (
        arith,
        store64_lem advanced b e node_magic_number live (omega arith),
        store64_lem (record advanced { pool = some b1 }) b1 (e + 8) id refl (omega arith),
        store64_lem (record advanced { pool = some b2 }) b2 (e + 16) (word_of_int n) refl
            (omega arith),
      )

  -- With a pool and an array of node pointers, and 24 bytes left in the pool behind `pool_edge`:
  -- where the count of nodes is below `num_nodes_listings`, `alloc_node` takes the array as it
  -- is, and for an id that the array has no room for it writes behind the array.
  pub alloc_overflow :
      (id : ℕ) (n : ℤ) (succs calls : List ℕ)
      → read_le 8 b.bytes Metadata.num_nodes < s.num_nodes_listings
      → e + 24 ≤ memory_pool_size
      → l.size ≤ id
      → alloc_node env id n succs calls s ≡ fault
  unfolding alloc_node
  alloc_overflow id n succs calls few fits beyond =
      ground (arith, no_growth few, unlisted_node id n fits beyond)
