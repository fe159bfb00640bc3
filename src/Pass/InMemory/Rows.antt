-- ===== src/Pass/InMemory/Rows.antt =====
-- What the inner loop of `GenerateInMemoryGraph` leaves in its two arrays.
use mathlib.Core.List.{append-nil, append_assoc}
use e0256_project_final.Base.{
  ℕ, zero, suc, ◌+◌, ◌%◌, ◌<◌, ◌≡◌, refl, sym, List, [], ◌∷◌, ◌++◌, Option, none, some, arith,
  length, length-append, get_elem?, ◌==◌, if◌then◌else◌, subst,
}
use e0256_project_final.Base.Text.{Text}
use e0256_project_final.FileMap.{Reader}
use e0256_project_final.Graaf.{Graaf}
use e0256_project_final.GraphLib.{LibcCallgraph, get_neighbors, get_outgoing_edges}
use e0256_project_final.Pass.InMemory.{
  Lists, max_neighbors, modulus, store, call_number, write_labels, write_neighbors, write_vertex,
  write_vertices,
}

-- The number of the last text, or `before` where there is none.
unfoldable pub last_of : (Text → ℕ) → List Text → ℕ → ℕ
last_of f [] before = before
last_of f (x ∷ xs) before = last_of f xs (f x)

pub last_of_bound :
    (f : Text → ℕ) (xs : List Text) (before bound : ℕ)
    → ((x : Text) → f x < bound)
    → before < bound
    → last_of f xs before < bound
unfolding last_of
last_of_bound f [] before bound each h = h
last_of_bound f (x ∷ xs) before bound each h = last_of_bound f xs (f x) bound each (each x)

get_elem?-append :
    (ws : List Text) (v : Text) (j : ℕ)
    → get_elem? (ws ++ v ∷ []) j ≡ (if j == length ws then some v else get_elem? ws j)
get_elem?-append [] v zero = refl
get_elem?-append [] v (suc j) = ground arith
get_elem?-append (w ∷ ws) v zero = ground arith
get_elem?-append (w ∷ ws) v (suc j) = ground (arith, get_elem?-append ws v j)

get_elem?-length : (ws : List Text) → get_elem? ws (length ws) ≡ none
get_elem?-length [] = refl
get_elem?-length (w ∷ ws) = get_elem?-length ws

module _ (library : Graaf) (reader : Reader) (hash : Text → ℕ) (g : LibcCallgraph library)
    (edges_before neighbors_before : ℕ → ℕ) where
  abbrev pub hash_number : Text → ℕ
  hash_number v = hash v % modulus

  -- The entries of index `j` after the vertices `ws` were written one after the other: those of the
  -- last label and of the last neighbour of vertex `j`, or what was there before.
  unfoldable pub edge_entry : Option Text → ℕ → ℕ
  edge_entry none before = before
  edge_entry (some v) before =
      last_of (call_number library reader hash) (get_outgoing_edges library v g) before

  unfoldable pub neighbor_entry : Option Text → ℕ → ℕ
  neighbor_entry none before = before
  neighbor_entry (some v) before = last_of hash_number (get_neighbors library v g) before

  abbrev pub edge_at : List Text → ℕ → ℕ
  edge_at ws j = edge_entry (get_elem? ws j) (edges_before j)

  abbrev pub neighbor_at : List Text → ℕ → ℕ
  neighbor_at ws j = neighbor_entry (get_elem? ws j) (neighbors_before j)

  -- The two arrays and their count after the vertices `ws`.
  pub record Filled (ws : List Text) (l : Lists) : Type 0 where
    pub count : l.num_out_edges ≡ length ws
    pub edges : (j : ℕ) → l.edge_list j ≡ edge_at ws j
    pub neighbors : (j : ℕ) → l.neighbor_list j ≡ neighbor_at ws j

  labels_lem :
      (labels : List Text) (l : Lists) (j : ℕ)
      → ((write_labels library reader hash labels l).edge_list j ≡ (
          if j == l.num_out_edges
          then last_of (call_number library reader hash) labels (l.edge_list j)
          else l.edge_list j))
        × ((write_labels library reader hash labels l).neighbor_list j ≡ l.neighbor_list j)
        × ((write_labels library reader hash labels l).num_out_edges ≡ l.num_out_edges)
  unfolding write_labels last_of
  labels_lem [] l j = (ground arith, refl, refl)
  labels_lem (x ∷ xs) l j =
      let rest =
        labels_lem xs
          (record l {
            edge_list = store l.num_out_edges (call_number library reader hash x) l.edge_list;
          })
          j in
      (ground (arith, rest.0), rest.1, rest.2)

  neighbors_lem :
      (vs : List Text) (l : Lists) (j : ℕ)
      → ((write_neighbors library reader hash vs l).neighbor_list j ≡ (
          if j == l.num_out_edges
          then last_of hash_number vs (l.neighbor_list j)
          else l.neighbor_list j))
        × ((write_neighbors library reader hash vs l).edge_list j ≡ l.edge_list j)
        × ((write_neighbors library reader hash vs l).num_out_edges ≡ l.num_out_edges)
  unfolding write_neighbors last_of
  neighbors_lem [] l j = (ground arith, refl, refl)
  neighbors_lem (x ∷ xs) l j =
      let rest =
        neighbors_lem xs
          (record l { neighbor_list = store l.num_out_edges (hash x % modulus) l.neighbor_list })
          j in
      (ground (arith, rest.0), rest.1, rest.2)

  -- The entries behind the list are those from before.
  write_vertex-Filled :
      (ws : List Text) (v : Text) (l : Lists)
      → Filled ws l
      → Filled (ws ++ v ∷ []) (write_vertex library reader hash g v l)
  unfolding write_vertex edge_entry neighbor_entry
  write_vertex-Filled ws v l h =
      let labelled = write_labels library reader hash (get_outgoing_edges library v g) l in
      let first = labels_lem (get_outgoing_edges library v g) l in
      let second = neighbors_lem (get_neighbors library v g) labelled in
      record {
        count = ground (arith, (first 0).2, (second 0).2, h.count, length-append ws (v ∷ []));
        edges = λ j. ground (
          arith,
          first j,
          second j,
          h.count,
          h.edges j,
          get_elem?-append ws v j,
          get_elem?-length ws,
        );
        neighbors = λ j. ground (
          arith,
          first j,
          second j,
          h.count,
          h.neighbors j,
          get_elem?-append ws v j,
          get_elem?-length ws,
        );
      }

  pub write_vertices-Filled :
      (vs ws : List Text) (l : Lists)
      → Filled ws l
      → length ws + length vs < max_neighbors
      → (l' : Lists) × (write_vertices library reader hash g vs l ≡ some l') × Filled (ws ++ vs) l'
  unfolding write_vertices
  write_vertices-Filled [] ws l h few = (l, refl, subst (λ us. Filled us l) (sym (append-nil ws)) h)
  write_vertices-Filled (v ∷ vs) ws l h few =
      let l1 = write_vertex library reader hash g v l in
      let h1 = write_vertex-Filled ws v l h in
      let (l', made, filled) =
        write_vertices-Filled vs (ws ++ v ∷ []) l1 h1 (omega (arith, length-append ws (v ∷ []))) in
      (
        l',
        ground (arith, made, h1.count, length-append ws (v ∷ [])),
        subst (λ us. Filled us l') (append_assoc ws (v ∷ []) vs) filled,
      )
