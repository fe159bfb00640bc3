-- ===== src/Pass/Run/Listed.antt =====
-- From the source of a program to the kernel, where every call that leaves the program is listed.
use mathlib.Core.List.{Memᴰ}
use mathlib.Core.List.Memᴰ
use e0256_project_final.Base.{
  ℕ, zero, suc, ◌^◌, ◌<◌, ◌≤◌, ◌≡◌, refl, sym, subst, true, List, [], ◌∷◌, ◌++◌, none, some, arith,
  length, get_elem?, map, Option-cases, inl, inr, if◌then◌else◌,
}
use e0256_project_final.Base.Int.{ℤ, pos, word_of_int}
use e0256_project_final.Base.Text.{Text, codes, starts_with, substr_from}
use e0256_project_final.Base.TextMap.{find}
use e0256_project_final.FileMap.{Reader, Callee, call_label, is_string_in_map, get_value_from_map}
use e0256_project_final.Graaf.{
  Graaf, Documented, DocumentedEdges, DocumentedLabels, DocumentedVertices, linked, contains,
}
use e0256_project_final.GraphLib.{LibcCallgraph, get_vertices, get_outgoing_edges}
use e0256_project_final.GraphLib.InStep.{InStep}
use e0256_project_final.GraphLib.Kept.{InStep-Kept}
use e0256_project_final.MemGraph.State.{
  Env, State, Block, Listing, ok, memory_pool_size, node_table_offset,
}
use e0256_project_final.MemGraph.Graph.{NodesFit, EdgesFit}
use e0256_project_final.MemGraph.Runs.{Represents, StandsAt}
use e0256_project_final.Sandbox.{System, Kernel, returns, sandbox_init}
use e0256_project_final.Sandbox.Init.{Ready}
use e0256_project_final.Pass.Source.{Function, result}
use e0256_project_final.Pass.Combine.{Final}
use e0256_project_final.Pass.Inject.{Body}
use e0256_project_final.Pass.InMemory.{call_number}
use e0256_project_final.Pass.InMemory.Swapped.{edges_of}
use e0256_project_final.Pass.InMemory.Rows.{last_of, edge_entry, edge_at}
use e0256_project_final.Pass.InMemory.Embeds.{row, rows, memory_graph}
use e0256_project_final.Pass.Run.{final_graph, inject_functions, Output, run_on_module}
use e0256_project_final.Pass.Run.Accepted.{run_accepted}
use e0256_project_final.Pass.Run.Labels.{
  CallSite, leaves_program, final_graph-Holds, final_graph_labels,
}

-- The listing gives numbers that fit an `int` and are not negative.
abbrev pub NumbersFit : Reader → Type 0
NumbersFit r =
    (name : Text) (v : ℤ) → find name r.string_map ≡ some v → (n : ℕ) × (v ≡ pos n) × (n < 2 ^ 31)

contains-listed : (js : List ℕ) (j : ℕ) → Memᴰ j js → contains js j ≡ true
unfolding contains
contains-listed [] j m = absurd (Memᴰ.not-nil m)
contains-listed (k ∷ js) j m = elim (Memᴰ.cases_cons m) [
  | inl same ↦ ground arith
  | inr later ↦ ground (arith, contains-listed js j later)
]

mapped :
    (f : ℕ → Text) (js : List ℕ) (x : Text) → Memᴰ x (map f js) → (j : ℕ) × Memᴰ j js × (x ≡ f j)
mapped f [] x m = absurd (Memᴰ.not-nil m)
mapped f (j ∷ js) x m = elim (Memᴰ.cases_cons m) [
  | inl same ↦ (j, Memᴰ.head refl, same)
  | inr later ↦ let (k, at, e) = mapped f js x later in (k, Memᴰ.tail at, e)
]

last_of_within :
    (f : Text → ℕ) (xs : List Text) (before bound : ℕ)
    → ((x : Text) → Memᴰ x xs → f x < bound)
    → before < bound
    → last_of f xs before < bound
unfolding last_of
last_of_within f [] before bound each h = h
last_of_within f (x ∷ xs) before bound each h =
    last_of_within f xs (f x) bound (λ y m. each y (Memᴰ.tail m)) (each x (Memᴰ.head refl))

edges_of-EdgesFit :
    (calls nexts : ℕ → ℕ) (n i : ℕ)
    → ((j : ℕ) → nexts j < 2 ^ 31)
    → EdgesFit (edges_of calls nexts n i)
unfolding edges_of
edges_of-EdgesFit calls nexts zero i h = tt
edges_of-EdgesFit calls nexts (suc n) i h = (h i, edges_of-EdgesFit calls nexts n (suc i) h)

module _ (library : Graaf) (hash : Text → ℕ) (r : Reader) (fit : NumbersFit r) where
  -- Every number that the pass looks up is a word.
  number_word : (x : Text) → call_number library r hash x < 256 ^ 8
  unfolding call_number get_value_from_map word_of_int
  number_word x =
      let name = if starts_with (codes "libc:") x then substr_from 5 x else x in
      elim (Option-cases (find name r.string_map)) [
        | inl absent ↦ ground arith
        | inr (v, there) ↦ let (n, e, small) = fit name v there in ground arith
      ]

  -- The number of a listed call fits an `int`.
  listed_number :
      (callee : Callee)
      → is_string_in_map callee.name r ≡ true
      → call_number library r hash (call_label r callee) < 2 ^ 31
  unfolding call_number call_label is_string_in_map get_value_from_map word_of_int starts_with
      substr_from
  listed_number callee there = elim (Option-cases (find callee.name r.string_map)) [
    | inl absent ↦ absurd (ground arith)
    | inr (v, at) ↦ let (n, e, small) = fit callee.name v at in ground arith
  ]

module _ (library : Graaf) (documented : Documented library) (reader : Reader) (hash : Text → ℕ)
    (g : LibcCallgraph library) (in_step : InStep library documented g)
    (small : (i j : ℕ)
      → library.has_vertex g.graph i ≡ true
      → library.has_vertex g.graph j ≡ true
      → linked library g.graph i j ≡ true
      → call_number library reader hash (library.edge g.graph i j) < 2 ^ 31) where
  open library use {edge, neighbors}

  outgoing_small :
      (v label : Text)
      → Memᴰ label (get_outgoing_edges library v g)
      → call_number library reader hash label < 2 ^ 31
  unfolding get_outgoing_edges
  outgoing_small v label m = elim (Option-cases (find v g.vertex_id_map)) [
    | inl absent ↦ absurd (Memᴰ.not-nil (rw (get_outgoing_edges, absent) at m))
    | inr (i, there) ↦
        let (j, at, e) =
          mapped (edge g.graph i) (neighbors g.graph i) label
            (rw (get_outgoing_edges, there) at m) in
        let here = (in_step.consistent v i there).0 in
        rw e (
          small i j here (documented.neighbors_has g.graph i j here at)
            (contains-listed (neighbors g.graph i) j at))
  ]

  module _ (edges_before neighbors_before : ℕ → ℕ)
      (before : (j : ℕ) → edges_before j < 2 ^ 31) where
    edge_small :
        (ws : List Text) (j : ℕ)
        → edge_at library reader hash g edges_before neighbors_before ws j < 2 ^ 31
    unfolding edge_entry
    edge_small ws j = elim (Option-cases (get_elem? ws j)) [
      | inl outside ↦ rw outside (before j)
      | inr (v, inside) ↦ rw inside (
          last_of_within (call_number library reader hash) (get_outgoing_edges library v g)
            (edges_before j) (2 ^ 31) (outgoing_small v) (before j))
    ]

    rows-NodesFit :
        (all vs ws : List Text)
        → NodesFit (rows library reader hash g edges_before neighbors_before all vs ws)
    unfolding rows row
    rows-NodesFit all [] ws = tt
    rows-NodesFit all (v ∷ vs) ws = (
      edges_of-EdgesFit _ _ (length (ws ++ all)) 0 (edge_small (ws ++ all)),
      rows-NodesFit all vs (ws ++ all),
    )

    memory_graph-NodesFit :
        NodesFit (memory_graph library reader hash g edges_before neighbors_before)
    unfolding memory_graph
    memory_graph-NodesFit = rows-NodesFit (get_vertices library g) (get_vertices library g) []

module _ (library : Graaf) (documented : Documented library) (edged : DocumentedEdges library)
    (labelled : DocumentedLabels library) (listed : DocumentedVertices library) (hash : Text → ℕ)
    (env : Env) (granted : (i n : ℕ) → env.grants i n ≡ true) (s : State) (gone : s.pool ≡ none)
    (listings : s.num_nodes_listings ≤ 4096) (fuel : ℕ) (r : Reader) (fs : List Function)
    (edges_before neighbors_before : ℕ → ℕ) (edge_words : (j : ℕ) → edges_before j < 2 ^ 31)
    (neighbor_words : (j : ℕ) → neighbors_before j < 256 ^ 8) where
  -- Over a graph library as documented: let the numbers of the listing be at least 0 and below 2 ^
  -- 31, and let it have every callee of the module's functions that is an intrinsic or has no body
  -- there. Where the phases before give a final graph of 1 to 31 vertices and the calls can be
  -- injected, where memgraphlib has no pool, its requests are granted and `num_nodes_listings` is
  -- at most 4096, and where the arrays of `GenerateInMemoryGraph` hold words before, those for the
  -- edges below 2 ^ 31: `runOnModule` embeds data with which `sandbox_init`, called as the injected
  -- code calls it in a kernel that is ready, returns 0, and the kernel stands at node 0 of the
  -- graph that the pass describes.
  pub listed_accepted :
      (final : Final library) (bodies : List (List Body)) (sys : System) (k : Kernel)
      → NumbersFit r
      → ((callee : Callee)
          → CallSite fs callee
          → leaves_program r callee ≡ true
          → is_string_in_map callee.name r ≡ true)
      → Ready sys k
      → final_graph library fuel r fs ≡ result final
      → inject_functions r fs ≡ some bodies
      → 0 < length (get_vertices library final.graph)
      → length (get_vertices library final.graph) < 32
      → let g = memory_graph library r hash final.graph edges_before neighbors_before in
        (out : Output) × (t : State) × (k' : Kernel) × (b : Block) × (l : Listing) × (run_on_module
            library hash env fuel r fs edges_before neighbors_before s
          ≡ ok (result out) t)
        × (out.functions ≡ bodies)
        × (sandbox_init sys (some out.embedded) memory_pool_size k ≡ returns 0 k')
        × Represents k'.graph g node_table_offset b l
        × StandsAt k'.graph g node_table_offset b 0
  listed_accepted final bodies sys k fit known ready ended injected nodes few =
      let in_step =
        final_graph-Holds library documented edged labelled listed r fs
          (InStep-Kept library documented) (λ label from. tt) fuel final ended in
      let small : (i j : ℕ)
          → library.has_vertex final.graph.graph i ≡ true
          → library.has_vertex final.graph.graph j ≡ true
          → linked library final.graph.graph i j ≡ true
          → call_number library r hash (library.edge final.graph.graph i j) < 2 ^ 31 =
        λ i j hi hj link.
          let (callee, site, e, leaves) =
            final_graph_labels library documented edged labelled listed r fs fuel final i j ended hi
              hj link in
          subst (λ label. call_number library r hash label < 2 ^ 31) (sym e)
            (listed_number library hash r fit callee (known callee site leaves)) in
      run_accepted library hash env granted s gone listings fuel r fs edges_before neighbors_before
        (number_word library hash r fit) (λ j. omega (arith, edge_words j)) neighbor_words final
        bodies sys k ready ended injected nodes few
        (memory_graph-NodesFit library documented r hash final.graph in_step small edges_before
          neighbors_before edge_words)
