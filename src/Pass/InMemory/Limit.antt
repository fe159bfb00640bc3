-- ===== src/Pass/InMemory/Limit.antt =====
-- How many vertices `GenerateInMemoryGraph` can take: it counts the entries of all rounds together.
use native.Mathlib.Nat.{suc-mul, mul-le-mul}
use e0256_project_final.Base.{
  ℕ, suc, ◌+◌, ◌*◌, ◌≤◌, ◌<◌, ◌≡◌, ◌≢◌, refl, ap, ◌∙◌, ◌⊎◌, inl, inr, List, [], ◌∷◌, none, some,
  arith, length, Option-cases,
}
use e0256_project_final.Base.Text.{Text}
use e0256_project_final.FileMap.{Reader}
use e0256_project_final.Graaf.{Graaf}
use e0256_project_final.GraphLib.{LibcCallgraph, get_vertices}
use e0256_project_final.MemGraph.State.{Env, State, ok, bind_inv}
use e0256_project_final.MemGraph.Pool.{Buffer, initialize_graph}
use e0256_project_final.Pass.InMemory.{
  Lists, max_neighbors, write_labels, write_neighbors, write_vertex, write_vertices, alloc_vertex,
  alloc_vertices, generate_in_memory_graph,
}

module _ (library : Graaf) (reader : Reader) (hash : Text → ℕ) where
  labels_count :
      (labels : List Text) (l : Lists)
      → (write_labels library reader hash labels l).num_out_edges ≡ l.num_out_edges
  unfolding write_labels
  labels_count [] l = refl
  labels_count (x ∷ xs) l = labels_count xs _

  neighbors_count :
      (vs : List Text) (l : Lists)
      → (write_neighbors library reader hash vs l).num_out_edges ≡ l.num_out_edges
  unfolding write_neighbors
  neighbors_count [] l = refl
  neighbors_count (x ∷ xs) l = neighbors_count xs _

  vertex_count :
      (g : LibcCallgraph library) (v : Text) (l : Lists)
      → (write_vertex library reader hash g v l).num_out_edges ≡ suc l.num_out_edges
  unfolding write_vertex
  vertex_count g v l = ap suc (neighbors_count _ _ ∙ labels_count _ _)

  -- A round of the outer loop writes an entry for each vertex, and passes the assertion only where
  -- the count of all entries stays below `MAX_NEIGHBORS`.
  pub write_vertices_count :
      (g : LibcCallgraph library) (vs : List Text) (l l' : Lists)
      → write_vertices library reader hash g vs l ≡ some l'
      → (l'.num_out_edges ≡ l.num_out_edges + length vs)
        × ((length vs ≡ 0) ⊎ (l.num_out_edges + length vs < max_neighbors))
  unfolding write_vertices
  write_vertices_count g [] l l' h = ground arith
  write_vertices_count g (v ∷ vs) l l' h = ground (
    arith,
    vertex_count g v l,
    write_vertices_count g vs (write_vertex library reader hash g v l) l',
  )

  module _ (env : Env) (g : LibcCallgraph library) where
    alloc_vertices_inv :
        (vs : List Text) (l l' : Lists) (s t : State)
        → 0 < length (get_vertices library g)
        → alloc_vertices library reader hash env g vs l s ≡ ok (some l') t
        → (length vs ≡ 0)
          ⊎ (l.num_out_edges + length vs * length (get_vertices library g) < max_neighbors)
    unfolding alloc_vertices
    alloc_vertices_inv [] l l' s t some_vertex h = inl refl
    alloc_vertices_inv (v ∷ vs) l l' s t some_vertex h =
        elim (Option-cases (write_vertices library reader hash g (get_vertices library g) l)) [
          | inl failed ↦ let e = rw (alloc_vertices, failed) at h in cc
          | inr (l1, made) ↦
              let (p, u, added, rest) =
                bind_inv (alloc_vertex library reader hash env v l1) _ s t
                  (rw (alloc_vertices, made) at h) in
              let (count, below) = write_vertices_count g (get_vertices library g) l l1 made in
              let later = alloc_vertices_inv vs l1 l' u t some_vertex rest in
              inr (elim later [
                | inl last ↦ rw last (omega (arith, below))
                | inr more ↦
                    omega (arith, more, suc-mul (length vs) (length (get_vertices library g)))
              ])
        ]

    -- Whatever the arrays hold before, and whatever the allocations answer, `GenerateInMemoryGraph`
    -- gives no data to embed for a graph of 32 vertices or more: its assertion fails, if nothing did
    -- before, since the count of entries is not set back for the next node.
    pub vertices_bound :
        (edges_before neighbors_before : ℕ → ℕ) (s t : State) (embedded : Buffer)
        → 32 ≤ length (get_vertices library g)
        → generate_in_memory_graph library reader hash env g edges_before neighbors_before s
          ≢ ok (some embedded) t
    unfolding generate_in_memory_graph
    vertices_bound edges_before neighbors_before s t embedded many h =
        let (u0, s0, started, h0) = bind_inv (initialize_graph env none 0) _ s t h in
        let (made, s1, ran, h1) =
          bind_inv (alloc_vertices library reader hash env g (get_vertices library g) _) _ s0 t
            h0 in
        elim (Option-cases made) [
          | inl failed ↦ let e = rw failed at h1 in cc
          | inr (l, e) ↦
              too_many
                (alloc_vertices_inv (get_vertices library g) _ l s0 s1 (omega arith) (rw e at ran))
        ]
      where
        too_many :
            (length (get_vertices library g) ≡ 0)
              ⊎ (0 + length (get_vertices library g) * length (get_vertices library g)
                  < max_neighbors)
            → ⊥
        too_many (inl none_there) = omega arith
        too_many (inr few) = omega (arith, few, mul-le-mul many many)
