-- ===== src/Tests/Compiler.antt =====
-- The phases of the pass over a module, and a graph that is too large for it.
use mathlib.Core.List.Memᴰ
use e0256_project_final.Base.TextMap.{find}
use e0256_project_final.FileMap.{get_library_calls, call_label, is_string_in_map}
use e0256_project_final.Pass.Expand.{expand_function, last_name}
use e0256_project_final.Pass.Expand.Names.{before_dash}
use e0256_project_final.Pass.Expand.Chain.{Spells}
use e0256_project_final.Pass.Expand.Compiled.{expanded_function_graph}
use e0256_project_final.Pass.Expand.Lists.{Plain}
use e0256_project_final.Base.{
  true, ℕ, zero, suc, ◌≡◌, ◌≢◌, ◌≤◌, ◌⊎◌, refl, List, [], ◌∷◌, some, arith, length,
}
use e0256_project_final.Base.Text.{Text, codes, text_eq}
use e0256_project_final.GraphLib.Joined.{has_name, joined}
use e0256_project_final.Pass.Source.{block_name, result, exception}
use e0256_project_final.Pass.Blocks.{function_meta}
use e0256_project_final.Pass.Blocks.Edges.{precedes, leads_to, names_block, function_meta_graph}
use e0256_project_final.GraphLib.{LibcCallgraph, get_vertices}
use e0256_project_final.GraphLib.InStep.{InStep}
use e0256_project_final.MemGraph.State.{ok}
use e0256_project_final.Pass.Combine.{Final}
use e0256_project_final.Pass.InMemory.{generate_in_memory_graph}
use e0256_project_final.Pass.InMemory.Limit.{vertices_bound}
use e0256_project_final.Pass.Run.{final_graph}
use e0256_project_final.Pass.Run.Total.{final_graph_ends}
use e0256_project_final.Tests.Library.Edges.{stored-DocumentedEdges}
use e0256_project_final.Tests.Library.Labels.{stored-DocumentedLabels}
use e0256_project_final.Tests.Library.{stored_library, stored-Documented}
use e0256_project_final.Tests.Memory.{granting, start}
use e0256_project_final.Tests.Toolchain.{reader, function, entry_block}

final_graph_ends_example :
    (n : ℕ) × (((fuel : ℕ)
        → n ≤ fuel
        → final_graph stored_library fuel reader (function ∷ []) ≡ exception)
      ⊎ ((final : Final stored_library) × ((fuel : ℕ)
            → n ≤ fuel
            → final_graph stored_library fuel reader (function ∷ []) ≡ result final)
          × InStep stored_library stored-Documented final.graph))
final_graph_ends_example = final_graph_ends stored_library stored-Documented reader (function ∷ [])

-- Vertices with the ids below `n`.
vertices_below : ℕ → List (ℕ × Text)
vertices_below zero = []
vertices_below (suc n) = (n, n ∷ []) ∷ vertices_below n

abbrev wide : LibcCallgraph stored_library
wide = record {
  graph = record { listed = vertices_below 32; arrows = [] };
  vertex_id_map = [];
  func_call_map = [];
}

wide_vertices : length (get_vertices stored_library wide) ≡ 32
unfolding get_vertices vertices_below
wide_vertices = refl

vertices_bound_example :
    generate_in_memory_graph stored_library reader (λ _. 0) granting wide (λ _. 0) (λ _. 0) start
    ≢ ok (some (record { size = 0; bytes = λ _. 0 })) start
vertices_bound_example =
    vertices_bound stored_library reader (λ _. 0) granting wide (λ _. 0) (λ _. 0) start start
      (record { size = 0; bytes = λ _. 0 }) (rw wide_vertices (omega arith))

-- The first block of the function leads to the second.
precedes_lem :
    precedes function.name function.blocks function.blocks (codes "[main]%0") (codes "[main]%1")
    ≡ true
unfolding precedes leads_to block_name text_eq
precedes_lem = refl

function_meta_graph_example :
    (has_name stored_library
        (function_meta stored_library reader function).bb_graph
        (codes "[main]%0")
      ≡ names_block function.name function.blocks (codes "[main]%0"))
    × (joined stored_library
          (function_meta stored_library reader function).bb_graph
          (codes "[main]%0")
          (codes "[main]%1")
        ≡ precedes function.name function.blocks function.blocks
            (codes "[main]%0")
            (codes "[main]%1"))
function_meta_graph_example =
    function_meta_graph stored_library stored-Documented stored-DocumentedEdges reader function
      (codes "[main]%0") (codes "[main]%1")

main-Plain : Plain reader function.name function.blocks
unfolding before_dash block_name get_library_calls call_label is_string_in_map find text_eq
main-Plain = ((refl, omega arith, (refl, tt)), ((refl, omega arith, tt), tt))

entry_calls :
    get_library_calls reader entry_block.instructions ≡ codes "libc:puts" ∷ codes "user:work" ∷ []
unfolding get_library_calls call_label is_string_in_map find text_eq
entry_calls = refl

expanded_function_graph_example :
    let g =
      (expand_function stored_library
        (function_meta stored_library reader function)).bb_expanded_graph in
    let name = block_name function.name entry_block in
    Spells stored_library g name 1 name (codes "libc:puts" ∷ codes "user:work" ∷ [])
    × ((y : Text)
        → joined stored_library g
            (last_name stored_library name 1 (codes "libc:puts" ∷ codes "user:work" ∷ []) [])
            y
          ≡ precedes function.name function.blocks function.blocks name y)
expanded_function_graph_example =
    expanded_function_graph stored_library stored-Documented stored-DocumentedEdges
      stored-DocumentedLabels reader function entry_block (codes "libc:puts")
      (codes "user:work" ∷ []) main-Plain (Memᴰ.head refl) entry_calls
