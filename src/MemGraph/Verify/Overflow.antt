-- ===== src/MemGraph/Verify/Overflow.antt =====
-- `verify_graph` with an array of node pointers that is too small for the graph.
use e0256_project_final.Base.{
  ℕ, suc, ◌+◌, ◌≤◌, ◌<◌, ◌≡◌, refl, ◌∙◌, [], ◌∷◌, some, arith, length, leb, Bool-cases, inl, inr,
}
use e0256_project_final.MemGraph.State.{
  Env, State, Block, Listing, Ptr, at, fault, set_node, put_entry, pool_word, pool_byte,
  memory_pool_size,
}
use e0256_project_final.MemGraph.Graph.{Graph, node_size, graph_size, NodesAt}
use e0256_project_final.MemGraph.Verify.{
  verify_nodes, verify_listed, verify_table, verify_metadata, verify_graph, ensure_listing,
}
use e0256_project_final.MemGraph.Verify.Accepts.{Finished, with_nodes, verify_node_lem}

set_node_fault :
    (s : State) (l : Listing) (i : ℕ) (p : Ptr)
    → s.nodes ≡ some l
    → l.size ≤ i
    → set_node i p s ≡ fault
unfolding set_node
set_node_fault s l i p e h = ground arith

verify_full :
    (b : Block) (k i a : ℕ) (s : State) (l : Listing)
    → s.nodes ≡ some l
    → l.size ≤ i
    → verify_nodes (suc k) i (at b.serial a) s ≡ fault
unfolding verify_nodes
verify_full b k i a s l listed full =
    ground (arith, set_node_fault s l i (at b.serial a) listed full)

-- The loop over more nodes than the array has room for.
verify_nodes_fault :
    (b : Block) (g : Graph) (i a : ℕ) (s : State) (l : Listing)
    → s.pool ≡ some b
    → s.nodes ≡ some l
    → i ≤ l.size
    → l.size < i + length g
    → NodesAt b.bytes a g
    → a + graph_size g ≤ memory_pool_size
    → verify_nodes (length g) i (at b.serial a) s ≡ fault
verify_nodes_fault b [] i a s l live listed room full h fits = absurd (omega arith)
verify_nodes_fault b (n ∷ g) i a s l live listed room full h fits =
    elim (Bool-cases (leb l.size i)) [
      | inl last ↦ verify_full b (length g) i a s l listed (ground arith)
      | inr more ↦
          let l' : Listing = record l { entry = put_entry i (at b.serial a) l.entry } in
          verify_node_lem b n (length g) i a s l live listed (ground arith) h.0 (omega arith)
          ∙ verify_nodes_fault b g (suc i) (a + node_size n) (with_nodes s l') l' live refl
              (ground arith) (omega arith) h.1 (omega arith)
    ]

module _ (env : Env) (s : State) (g : Graph) (a : ℕ) (b : Block) (pool : s.pool ≡ some b)
    (h : Finished b.bytes g a) where
  open h use {finalized, magic, count, offset, table, small, fits}

  -- With an array of node pointers that has less room than the graph has nodes, `verify_graph`
  -- writes behind the array.
  pub verify_overflow :
      (l : Listing) → s.nodes ≡ some l → l.size < length g → verify_graph env s ≡ fault
  unfolding verify_graph verify_metadata verify_table verify_listed ensure_listing pool_word
      pool_byte
  verify_overflow l listed full = ground (
    arith,
    verify_nodes_fault b g 0 a s l pool listed (omega arith) (omega arith) table (omega arith),
  )
