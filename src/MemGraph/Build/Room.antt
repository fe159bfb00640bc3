-- ===== src/MemGraph/Build/Room.antt =====
-- The array of node pointers has room for the next node.
use Prim.Native.Nat.{max}
use e0256_project_final.Base.{
  ℕ, suc, ◌+◌, ◌*◌, ◌/◌, ◌%◌, ◌≤◌, ◌<◌, ◌^◌, ◌≡◌, refl, ap, ◌∙◌, none, some, arith, leb, true,
  Bool-cases, inl, inr,
}
use e0256_project_final.MemGraph.Bytes.{read_le}
use e0256_project_final.MemGraph.Metadata
use e0256_project_final.MemGraph.State.{
  Env, State, Block, Listing, Ptr, ok, pool_word, default_number_of_nodeslistings,
}
use e0256_project_final.MemGraph.Alloc.{
  realloc_nodes, malloc_nodes_granted, new_listing, regrown, realloc_nodes_granted,
}
use e0256_project_final.MemGraph.Build.{ensure_room, grow, expand}

-- With `k` nodes built: the array holds at least `num_nodes_listings` pointers, and never less than
-- the first array; the count of nodes has not passed that number, but for the first node, which is
-- built while it may be 0.
pub data Roomy (s : State) (k : ℕ) : Type 0 where
  unlisted :
      s.nodes ≡ none → s.num_nodes_listings ≤ default_number_of_nodeslistings → k ≡ 0 → Roomy s k
  listed :
      (l : Listing)
      → s.nodes ≡ some l
      → s.num_nodes_listings ≤ l.size
      → default_number_of_nodeslistings ≤ l.size
      → k ≤ max 1 s.num_nodes_listings
      → Roomy s k

pub Roomy-pool_edge :
    {s : State} {k : ℕ} (p : Ptr) → Roomy s k → Roomy (record s { pool_edge = p }) k
Roomy-pool_edge p (unlisted none_yet small first) = unlisted none_yet small first
Roomy-pool_edge p (listed l there bounded wide below) = listed l there bounded wide below

-- What `ensure_room` may change.
pub record RoomMade (s t : State) (k : ℕ) : Type 0 where
  pub pool : t.pool ≡ s.pool
  pub pool_edge : t.pool_edge ≡ s.pool_edge
  pub listing : Listing
  pub nodes : t.nodes ≡ some listing
  pub bounded : t.num_nodes_listings ≤ listing.size
  pub wide : default_number_of_nodeslistings ≤ listing.size
  pub inside : k < listing.size
  pub next : suc k ≤ max 1 t.num_nodes_listings

module _ (env : Env) (all : (i n : ℕ) → env.grants i n ≡ true) where
  made_first :
      (s : State)
      → s.nodes ≡ none
      → ensure_room env s
        ≡ ok tt (record s { nodes = some (new_listing env 4096); mallocs = suc s.mallocs })
  unfolding ensure_room
  made_first s h = ground (arith, malloc_nodes_granted env 32768 s (all s.mallocs 32768))

  made_none :
      (s : State) (b : Block) (l : Listing)
      → s.pool ≡ some b
      → s.nodes ≡ some l
      → read_le 8 b.bytes Metadata.num_nodes < s.num_nodes_listings
      → ensure_room env s ≡ ok tt s
  unfolding ensure_room grow pool_word
  made_none s b l live h few = ground arith

  -- The state after the array has grown to `room` pointers.
  abbrev grown : State → Listing → ℕ → State
  grown s l room = record s {
    nodes = some (regrown l room);
    num_nodes_listings = room;
    mallocs = suc s.mallocs;
  }

  expand_lem :
      (s : State) (l : Listing) (room : ℕ)
      → room < 2 ^ 60
      → expand env l room s ≡ ok tt (grown s l room)
  unfolding expand
  expand_lem s l room h =
      let s' : State = record s { num_nodes_listings = room } in
      let wrap : (8 * room) % 2 ^ 64 ≡ 8 * room = omega arith in
      let whole : 8 * room / 8 ≡ room = omega arith in
      ap (λ k. realloc_nodes env l k s') wrap
      ∙ realloc_nodes_granted env l (8 * room) s' (all s'.mallocs (8 * room))
      ∙ ap (λ k. ok tt (record s' { nodes = some (regrown l k); mallocs = suc s.mallocs })) whole

  grow_more :
      (s : State) (b : Block) (l : Listing)
      → s.pool ≡ some b
      → s.nodes ≡ some l
      → s.num_nodes_listings ≤ read_le 8 b.bytes Metadata.num_nodes
      → ensure_room env s ≡ expand env l ((s.num_nodes_listings + 4096) % 2 ^ 64) s
  unfolding ensure_room grow pool_word
  grow_more s b l live h many = ground arith

  made_more :
      (s : State) (b : Block) (l : Listing)
      → s.pool ≡ some b
      → s.nodes ≡ some l
      → s.num_nodes_listings ≤ read_le 8 b.bytes Metadata.num_nodes
      → s.num_nodes_listings < 2 ^ 59
      → ensure_room env s ≡ ok tt (grown s l (s.num_nodes_listings + 4096))
  made_more s b l live h many few =
      let wrap : (s.num_nodes_listings + 4096) % 2 ^ 64 ≡ s.num_nodes_listings + 4096 =
        omega arith in
      grow_more s b l live h many
      ∙ ap (λ k. expand env l k s) wrap
      ∙ expand_lem s l (s.num_nodes_listings + 4096) (omega arith)

  -- With its requests granted, `ensure_room` makes room for the node after the `k` that are there.
  pub ensure_room_lem :
      (s : State) (b : Block) (k : ℕ)
      → s.pool ≡ some b
      → read_le 8 b.bytes Metadata.num_nodes ≡ k
      → k < 2 ^ 32
      → Roomy s k
      → (t : State) × (ensure_room env s ≡ ok tt t) × RoomMade s t k
  ensure_room_lem s b k live count few (unlisted none_yet small first) = (
    record s { nodes = some (new_listing env 4096); mallocs = suc s.mallocs },
    made_first s none_yet,
    record {
      pool = refl;
      pool_edge = refl;
      listing = new_listing env 4096;
      nodes = refl;
      bounded = small;
      wide = omega arith;
      inside = omega arith;
      next = omega arith;
    },
  )
  ensure_room_lem s b k live count few (listed l there bounded wide below) =
      elim (Bool-cases (leb s.num_nodes_listings k)) [
        | inl full ↦ (
          grown s l (s.num_nodes_listings + 4096),
          made_more s b l live there (ground arith) (ground arith),
          record {
            pool = refl;
            pool_edge = refl;
            listing = regrown l (s.num_nodes_listings + 4096);
            nodes = refl;
            bounded = omega arith;
            wide = omega arith;
            inside = omega arith;
            next = omega arith;
          },
        )
        | inr free ↦ (
          s,
          made_none s b l live there (ground arith),
          record {
            pool = refl;
            pool_edge = refl;
            listing = l;
            nodes = there;
            bounded = bounded;
            wide = wide;
            inside = ground arith;
            next = ground arith;
          },
        )
      ]
