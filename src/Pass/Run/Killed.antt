-- ===== src/Pass/Run/Killed.antt =====
-- What the exchanged lists of `GenerateInMemoryGraph` mean for the program that runs.
use mathlib.Core.List.{Memᴰ}
use e0256_project_final.Base.{
  ℕ, zero, suc, ◌%◌, ◌^◌, ◌<◌, ◌≤◌, ◌≡◌, ◌≢◌, refl, sym, List, [], ◌∷◌, none, some, arith, length,
  get_elem?, true, some_inj, Option-cases, inl, inr,
}
use e0256_project_final.Base.Text.{Text}
use e0256_project_final.FileMap.{Reader}
use e0256_project_final.Graaf.{Graaf}
use e0256_project_final.GraphLib.{LibcCallgraph, get_vertices, get_neighbors}
use e0256_project_final.MemGraph.State.{Env, State, ok, memory_pool_size, node_table_offset}
use e0256_project_final.MemGraph.Graph.{NodesFit, edge_target, target}
use e0256_project_final.Sandbox.{System, Kernel, returns, killed, sandbox_init, sandbox_dummycall}
use e0256_project_final.Sandbox.Init.{Ready}
use e0256_project_final.Sandbox.Trace.{dummycall_refines}
use e0256_project_final.Pass.Source.{Function, result}
use e0256_project_final.Pass.Combine.{Final}
use e0256_project_final.Pass.Inject.{Body}
use e0256_project_final.Pass.InMemory.{call_number, modulus}
use e0256_project_final.Pass.InMemory.Swapped.{edges_of}
use e0256_project_final.Pass.InMemory.Rows.{last_of, neighbor_entry, neighbor_at, hash_number}
use e0256_project_final.Pass.InMemory.Embeds.{row, rows, memory_graph}
use e0256_project_final.Pass.Run.{final_graph, inject_functions, Output, run_on_module}
use e0256_project_final.Pass.Run.Accepted.{run_accepted}

last_of_avoids :
    (f : Text → ℕ) (xs : List Text) (before c : ℕ)
    → ((x : Text) → Memᴰ x xs → f x ≢ c)
    → before ≢ c
    → last_of f xs before ≢ c
unfolding last_of
last_of_avoids f [] before c each h = h
last_of_avoids f (x ∷ xs) before c each h =
    last_of_avoids f xs (f x) c (λ y m. each y (Memᴰ.tail m)) (each x (Memᴰ.head refl))

get_elem?-listed : (xs : List Text) (j : ℕ) (x : Text) → get_elem? xs j ≡ some x → Memᴰ x xs
get_elem?-listed [] j x e = cc
get_elem?-listed (y ∷ xs) zero x e = Memᴰ.head (sym (some_inj e))
get_elem?-listed (y ∷ xs) (suc j) x e = Memᴰ.tail (get_elem?-listed xs j x e)

edges_of_avoid :
    (calls nexts : ℕ → ℕ) (n i c : ℕ)
    → ((j : ℕ) → calls j ≢ c)
    → edge_target (edges_of calls nexts n i) c ≡ 0
unfolding edges_of edge_target
edges_of_avoid calls nexts zero i c h = refl
edges_of_avoid calls nexts (suc n) i c h =
    ground (arith, h i, edges_of_avoid calls nexts n (suc i) c h)

module _ (library : Graaf) (reader : Reader) (hash : Text → ℕ) (g : LibcCallgraph library)
    (edges_before neighbors_before : ℕ → ℕ) where
  -- The number of no edge's target, and no word that the array of neighbours held before.
  pub record Strange (c : ℕ) : Type 0 where
    pub no_neighbor :
        (v x : Text)
        → Memᴰ v (get_vertices library g)
        → Memᴰ x (get_neighbors library v g)
        → hash x % modulus ≢ c
    pub not_before : (j : ℕ) → neighbors_before j ≢ c

  neighbor_at_avoids :
      (c j : ℕ)
      → Strange c
      → neighbor_at library reader hash g edges_before neighbors_before (get_vertices library g) j
        ≢ c
  unfolding neighbor_entry
  neighbor_at_avoids c j h =
      let all = get_vertices library g in
      elim (Option-cases (get_elem? all j)) [
        | inl outside ↦ rw outside (h.not_before j)
        | inr (v, inside) ↦ rw inside (
            last_of_avoids (hash_number library reader hash g edges_before neighbors_before)
              (get_neighbors library v g) (neighbors_before j) c
              (λ x. h.no_neighbor v x (get_elem?-listed all j v inside)) (h.not_before j))
      ]

  first_row_avoids :
      (c : ℕ) (vs : List Text)
      → 0 < length vs
      → Strange c
      → target
          (rows library reader hash g edges_before neighbors_before (get_vertices library g) vs [])
          0
          c
        ≡ 0
  unfolding rows row target
  first_row_avoids c [] some_vertex h = absurd (omega arith)
  first_row_avoids c (v ∷ vs) some_vertex h =
      edges_of_avoid _ _ (length (get_vertices library g)) 0 c (λ j. neighbor_at_avoids c j h)

  no_step :
      (c : ℕ)
      → 0 < length (get_vertices library g)
      → Strange c
      → target (memory_graph library reader hash g edges_before neighbors_before) 0 c ≡ 0
  unfolding memory_graph
  no_step c some_vertex h = first_row_avoids c (get_vertices library g) some_vertex h

module _ (library : Graaf) (hash : Text → ℕ) (env : Env)
    (granted : (i n : ℕ) → env.grants i n ≡ true) (s : State) (gone : s.pool ≡ none)
    (listings : s.num_nodes_listings ≤ 4096) (fuel : ℕ) (r : Reader) (fs : List Function)
    (edges_before neighbors_before : ℕ → ℕ)
    (numbers : (x : Text) → call_number library r hash x < 256 ^ 8)
    (edge_words : (j : ℕ) → edges_before j < 256 ^ 8)
    (neighbor_words : (j : ℕ) → neighbors_before j < 256 ^ 8) where
  -- Where the phases before it give a final graph of 1 to 31 vertices and the calls can be injected,
  -- where the library has no pool, its requests are granted and `num_nodes_listings` is at most 4096,
  -- where the arrays of `GenerateInMemoryGraph` hold words, the listing's numbers are words and the
  -- next states of the embedded graph fit an `int`, and in a kernel that is ready: a program whose
  -- first injected call has a number that is neither the hash modulo 1000 of the name of a neighbour
  -- in the final graph nor a word that the array of neighbours held before is killed at that call.
  -- `sandbox_init` returns 0 on the data that `runOnModule` embeds, and `sandbox_dummycall` with the
  -- number then kills the process.
  pub first_call_killed :
      (final : Final library) (bodies : List (List Body)) (sys : System) (k : Kernel) (c : ℕ)
      → Ready sys k
      → final_graph library fuel r fs ≡ result final
      → inject_functions r fs ≡ some bodies
      → 0 < length (get_vertices library final.graph)
      → length (get_vertices library final.graph) < 32
      → NodesFit (memory_graph library r hash final.graph edges_before neighbors_before)
      → Strange library r hash final.graph edges_before neighbors_before c
      → (out : Output) × (t : State) × (k' : Kernel) × (run_on_module library hash env fuel r fs
            edges_before neighbors_before s
          ≡ ok (result out) t)
        × (sandbox_init sys (some out.embedded) memory_pool_size k ≡ returns 0 k')
        × (sandbox_dummycall sys c k' ≡ killed k')
  first_call_killed final bodies sys k c ready ended injected nodes few small strange =
      let g = memory_graph library r hash final.graph edges_before neighbors_before in
      let (out, t, k', b, l, made, same, started, stands, here) =
        run_accepted library hash env granted s gone listings fuel r fs edges_before
          neighbors_before numbers edge_words neighbor_words final bodies sys k ready ended injected
          nodes few small in
      let stop = no_step library r hash final.graph edges_before neighbors_before c nodes strange in
      let inside : target g 0 c < length g = rw stop here.inside in
      (
        out,
        t,
        k',
        made,
        started,
        rw stop at (
            dummycall_refines sys ready.configured g node_table_offset b l k' stands 0 c here
              inside),
      )
