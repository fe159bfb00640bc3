-- ===== src/Pass/Run/Accepted.antt =====
-- From the compiler to the kernel: what the pass embeds is what `sandbox_init` takes.
use e0256_project_final.Base.{
  ℕ, suc, ◌^◌, ◌<◌, ◌≤◌, ◌≡◌, refl, ap, List, [], ◌∷◌, ◌++◌, none, some, arith, length, true,
}
use e0256_project_final.Base.Text.{Text}
use e0256_project_final.FileMap.{Reader}
use e0256_project_final.Graaf.{Graaf}
use e0256_project_final.GraphLib.{LibcCallgraph, get_vertices}
use e0256_project_final.MemGraph.State.{
  Env, State, Block, Listing, ok, memory_pool_size, node_table_offset,
}
use e0256_project_final.MemGraph.Pool.{Buffer}
use e0256_project_final.MemGraph.Graph.{NodesFit}
use e0256_project_final.MemGraph.Runs.{Represents, StandsAt}
use e0256_project_final.MemGraph.RoundTrip.{loaded_block}
use e0256_project_final.MemGraph.Verify.Accepts.{Laid-Finished}
use e0256_project_final.Sandbox.{System, Kernel, returns, sandbox_init}
use e0256_project_final.Sandbox.Init.{Ready, copied, init_refines}
use e0256_project_final.Pass.Source.{Function, result}
use e0256_project_final.Pass.Combine.{Final}
use e0256_project_final.Pass.Inject.{Body}
use e0256_project_final.Pass.InMemory.{call_number, generate_in_memory_graph}
use e0256_project_final.Pass.InMemory.Embeds.{rows, memory_graph, generate_embeds}
use e0256_project_final.Pass.Run.{
  final_graph, inserts_any, inject_functions, Output, embed, run_on_module,
}

length-rows :
    (library : Graaf) (reader : Reader) (hash : Text → ℕ) (g : LibcCallgraph library)
    (eb nb : ℕ → ℕ) (all vs ws : List Text)
    → length (rows library reader hash g eb nb all vs ws) ≡ length vs
unfolding rows
length-rows library reader hash g eb nb all [] ws = refl
length-rows library reader hash g eb nb all (v ∷ vs) ws =
    ap suc (length-rows library reader hash g eb nb all vs (ws ++ all))

length-memory_graph :
    (library : Graaf) (reader : Reader) (hash : Text → ℕ) (g : LibcCallgraph library)
    (eb nb : ℕ → ℕ)
    → length (memory_graph library reader hash g eb nb) ≡ length (get_vertices library g)
unfolding memory_graph
length-memory_graph library reader hash g eb nb =
    length-rows library reader hash g eb nb (get_vertices library g) (get_vertices library g) []

module _ (library : Graaf) (hash : Text → ℕ) (env : Env)
    (granted : (i n : ℕ) → env.grants i n ≡ true) (s : State) (gone : s.pool ≡ none)
    (listings : s.num_nodes_listings ≤ 4096) (fuel : ℕ) (r : Reader) (fs : List Function)
    (edges_before neighbors_before : ℕ → ℕ)
    (numbers : (x : Text) → call_number library r hash x < 256 ^ 8)
    (edge_words : (j : ℕ) → edges_before j < 256 ^ 8)
    (neighbor_words : (j : ℕ) → neighbors_before j < 256 ^ 8) where
  embed_lem :
      (final : Final library) (bodies : List (List Body)) (t : State) (sent : Buffer)
      → final_graph library fuel r fs ≡ result final
      → inject_functions r fs ≡ some bodies
      → generate_in_memory_graph library r hash env final.graph edges_before neighbors_before s
        ≡ ok (some sent) t
      → run_on_module library hash env fuel r fs edges_before neighbors_before s
        ≡ ok (result (record { embedded = sent; functions = bodies; changed = inserts_any r fs })) t
  unfolding run_on_module embed
  embed_lem final bodies t sent ended injected made = ground arith

  -- Where the phases before it give a final graph of 1 to 31 vertices and the calls can be injected,
  -- where the library has no pool, its requests are granted and `num_nodes_listings` is at most 4096,
  -- where the arrays of `GenerateInMemoryGraph` hold words, the listing's numbers are words and the
  -- next states of the embedded graph fit an `int`: `runOnModule` embeds data in the injected
  -- functions' module with which `sandbox_init`, called as the injected code calls it in a kernel
  -- that is ready, returns 0 and stands at node 0 of the graph that the pass describes.
  pub run_accepted :
      (final : Final library) (bodies : List (List Body)) (sys : System) (k : Kernel)
      → Ready sys k
      → final_graph library fuel r fs ≡ result final
      → inject_functions r fs ≡ some bodies
      → 0 < length (get_vertices library final.graph)
      → length (get_vertices library final.graph) < 32
      → NodesFit (memory_graph library r hash final.graph edges_before neighbors_before)
      → (out : Output) × (t : State) × (k' : Kernel) × (b : Block) × (l : Listing) × (run_on_module
            library hash env fuel r fs edges_before neighbors_before s
          ≡ ok (result out) t)
        × (out.functions ≡ bodies)
        × (sandbox_init sys (some out.embedded) memory_pool_size k ≡ returns 0 k')
        × Represents k'.graph
            (memory_graph library r hash final.graph edges_before neighbors_before)
            node_table_offset
            b
            l
        × StandsAt k'.graph
            (memory_graph library r hash final.graph edges_before neighbors_before)
            node_table_offset
            b
            0
  run_accepted final bodies sys k ready ended injected nodes few small =
      let g = memory_graph library r hash final.graph edges_before neighbors_before in
      let (b, t, made, laid, gone') =
        generate_embeds library r hash final.graph edges_before neighbors_before numbers edge_words
          neighbor_words env granted s gone listings few in
      let sent : Buffer = record { size = memory_pool_size; bytes = b.bytes } in
      let finished = Laid-Finished b.bytes g node_table_offset laid small in
      let count = length-memory_graph library r hash final.graph edges_before neighbors_before in
      let (k', l, started, stands, here) =
        init_refines sys k ready sent memory_pool_size g node_table_offset finished
          (omega (arith, count)) (omega arith) (omega (arith, laid.fits)) (omega arith)
          (omega arith) in
      (
        record { embedded = sent; functions = bodies; changed = inserts_any r fs },
        t,
        k',
        loaded_block (copied sys k ready sent memory_pool_size) memory_pool_size k.graph.mallocs,
        l,
        embed_lem final bodies t sent ended injected made,
        refl,
        started,
        stands,
        here,
      )
