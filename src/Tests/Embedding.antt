-- ===== src/Tests/Embedding.antt =====
-- A module of one function, from its blocks to the kernel.
use e0256_project_final.Base.{
  ℕ, ◌^◌, ◌<◌, ◌≡◌, refl, true, false, [], ◌∷◌, none, some, arith, length,
}
use e0256_project_final.Base.Int.{word_of_int}
use e0256_project_final.Base.Text.{Text, codes, text_eq, text_lt, starts_with, substr_from}
use e0256_project_final.Base.TextMap.{find, assign, put, erase}
use e0256_project_final.FileMap.{Callee, call_label, get_value_from_map}
use e0256_project_final.GraphLib.{get_vertices}
use e0256_project_final.Graaf.{linked, contains, contains_edge}
use e0256_project_final.Pass.InMemory.Rows.{edge_entry, neighbor_entry, last_of}
use e0256_project_final.Pass.InMemory.Swapped.{edges_of}
use e0256_project_final.MemGraph.State.{
  State, Block, Listing, ok, memory_pool_size, node_table_offset,
}
use e0256_project_final.MemGraph.Graph.{NodesFit}
use e0256_project_final.MemGraph.Runs.{Represents, StandsAt}
use e0256_project_final.MemGraph.Verify.Accepts.{Laid}
use e0256_project_final.Sandbox.{Kernel, returns, killed, sandbox_init, sandbox_dummycall}
use e0256_project_final.Pass.Run.Killed.{Strange, first_call_killed}
use e0256_project_final.Pass.Combine.{Final}
use e0256_project_final.Pass.InMemory.{call_number, generate_in_memory_graph}
use e0256_project_final.Pass.InMemory.Embeds.{row, rows, memory_graph, generate_embeds}
use e0256_project_final.Pass.Run.{final_graph, inject_functions, Output, run_on_module}
use e0256_project_final.Pass.Run.Listed.{NumbersFit, listed_accepted}
use mathlib.Core.List.Memᴰ
use mathlib.Core.List.{Memᴰ}
use e0256_project_final.Base.{inl, inr, subst}
use e0256_project_final.FileMap.{call}
use e0256_project_final.Pass.Source.{Function, BasicBlock, result}
use e0256_project_final.Tests.Toolchain.{block, exit_block}
use e0256_project_final.Pass.Run.Labels.{CallSite, leaves_program, final_graph_labels}
use e0256_project_final.Tests.Library.Edges.{stored-DocumentedEdges}
use e0256_project_final.Tests.Library.Labels.{stored-DocumentedLabels}
use e0256_project_final.Tests.Library.{stored_library, stored-Documented, stored-DocumentedVertices}
use e0256_project_final.Tests.Kernels.{sys, fresh, ready}
use e0256_project_final.Tests.Memory.{granting, start}
use e0256_project_final.Tests.Toolchain.{reader, function, injected, main_injected}
use e0256_project_final.Base.Decimal.{decimal, digits}
use e0256_project_final.FileMap.{is_string_in_map, get_library_calls}
use e0256_project_final.GraphLib.{
  add_edge, add_vertex, combine_vertex, create_vertex, drop_vertex, get_control_edge_neighbors,
  get_neighbors, get_outgoing_edges, get_user_edge_neighbors, insert_edges, insert_graph,
  insert_vertices, new_graph, redirect, redirect_all, remove_edge, select, with_both,
}
use e0256_project_final.Pass.Blocks.{
  is_skipped, function_metas, function_meta, add_calls, add_call_list, add_blocks, add_block,
  add_control, add_entry, add_successors, vertex_of,
}
use e0256_project_final.Pass.Combine.{
  add_return, combine_libcg_graph, final_loop, final_round, insert_all, insert_call, insert_calls,
  meta_of,
}
use e0256_project_final.Pass.Expand.{
  call_vertex, chain, expand_bb_graph, expand_block, expand_blocks, expand_function, last_name,
  move_edges,
}
use e0256_project_final.Pass.Merge.{
  convert_bb_graph, convert_function, merge_loop, merge_round, merge_neighbors,
}
use e0256_project_final.Pass.Source.{block_name, new_meta}
use e0256_project_final.Tests.Library.{
  has, name_of, next_id, ends_of, without, drop_arrow, drop_arrows, targets, arrow, between,
  visit_live, visit, besides,
}

abbrev entry_name : Text
entry_name = codes "[main]%0"

abbrev behind_puts : Text
behind_puts = codes "[main]%0-libc_1"

-- What is left of `main`: the call of `puts`.
abbrev final : Final stored_library
final = record {
  graph = record {
    graph = record {
      listed = (5, behind_puts) ∷ (0, entry_name) ∷ [];
      arrows = ((0, 5), codes "libc:puts") ∷ [];
    };
    vertex_id_map = (entry_name, 0) ∷ (behind_puts, 5) ∷ [];
    func_call_map = (entry_name, true) ∷ (behind_puts, false) ∷ [];
  };
  entry_node = entry_name;
  exit_node = behind_puts;
}

ended : final_graph stored_library 10 reader (function ∷ []) ≡ result final
unfolding final_graph starts_with put get_vertices substr_from text_eq text_lt assign erase find
    call_label decimal digits is_string_in_map get_library_calls add_edge add_vertex combine_vertex
    create_vertex drop_vertex get_control_edge_neighbors get_neighbors get_outgoing_edges
    get_user_edge_neighbors insert_edges insert_graph insert_vertices new_graph redirect
    redirect_all remove_edge select with_both is_skipped function_metas function_meta add_calls
    add_call_list add_blocks add_block add_control add_entry add_successors vertex_of add_return
    combine_libcg_graph final_loop final_round insert_all insert_call insert_calls meta_of
    call_vertex chain expand_bb_graph expand_block expand_blocks expand_function last_name
    move_edges convert_bb_graph convert_function merge_loop merge_round merge_neighbors block_name
    new_meta has name_of next_id ends_of without drop_arrow drop_arrows targets arrow between
    visit_live visit besides contains_edge contains
ended = refl

main_bodies : inject_functions reader (function ∷ []) ≡ some (injected ∷ [])
unfolding inject_functions
main_bodies = rw (inject_functions, main_injected) refl

two_vertices : length (get_vertices stored_library final.graph) ≡ 2
unfolding get_vertices
two_vertices = refl

numbers : (x : Text) → call_number stored_library reader (λ _. 0) x < 256 ^ 8
unfolding call_number get_value_from_map find word_of_int
numbers x = ground arith

abbrev none_before : ℕ → ℕ
none_before j = 0

word_before : (j : ℕ) → none_before j < 256 ^ 8
word_before j = omega arith

main_fits :
    NodesFit (memory_graph stored_library reader (λ _. 0) final.graph none_before none_before)
unfolding memory_graph rows row edges_of edge_entry neighbor_entry last_of get_vertices call_number
    get_value_from_map get_outgoing_edges get_neighbors find text_eq starts_with substr_from
    word_of_int has name_of targets arrow
main_fits = (
  (omega arith, (omega arith, tt)),
  ((omega arith, (omega arith, (omega arith, (omega arith, tt)))), tt),
)

generate_embeds_example :
    (b : Block) × (t : State) × (generate_in_memory_graph stored_library reader
        (λ _. 0)
        granting
        final.graph
        none_before
        none_before
        start
      ≡ ok (some (record { size = memory_pool_size; bytes = b.bytes })) t)
    × Laid b.bytes
        (memory_graph stored_library reader (λ _. 0) final.graph none_before none_before)
        node_table_offset
    × (t.pool ≡ none)
generate_embeds_example =
    generate_embeds stored_library reader (λ _. 0) final.graph none_before none_before numbers
      word_before word_before granting (λ _ _. refl) start refl (omega arith)
      (rw two_vertices (omega arith))

puts_fits : NumbersFit reader
unfolding find text_eq
puts_fits name v e = (7, ground arith, omega arith)

callee_inj : (f g : Callee) → call (some f) ≡ call (some g) → f ≡ g
callee_inj f g e = cc

-- `puts` is listed, and `work` does not leave the program.
block_known :
    (callee : Callee)
    → Memᴰ (call (some callee)) block
    → leaves_program reader callee ≡ true
    → is_string_in_map callee.name reader ≡ true
unfolding leaves_program is_string_in_map find text_eq
block_known callee m leaves = elim (Memᴰ.cases_cons m) [
  | inl first ↦ cc
  | inr m1 ↦ elim (Memᴰ.cases_cons m1) [
    | inl second ↦ rw (callee_inj _ _ second) refl
    | inr m2 ↦ elim (Memᴰ.cases_cons m2) [
      | inl third ↦ cc
      | inr m3 ↦ elim (Memᴰ.cases_cons m3) [
        | inl fourth ↦ let inside = rw (callee_inj _ _ fourth) at leaves in cc
        | inr m4 ↦ absurd (Memᴰ.not-nil m4)
      ]
    ]
  ]
]

exit_known :
    (callee : Callee)
    → Memᴰ (call (some callee)) exit_block.instructions
    → is_string_in_map callee.name reader ≡ true
exit_known callee m = elim (Memᴰ.cases_cons m) [
  | inl first ↦ cc
  | inr m1 ↦ elim (Memᴰ.cases_cons m1) [ inl second ↦ cc | inr m2 ↦ absurd (Memᴰ.not-nil m2) ]
]

main_known :
    (callee : Callee)
    → CallSite (function ∷ []) callee
    → leaves_program reader callee ≡ true
    → is_string_in_map callee.name reader ≡ true
main_known callee site leaves = elim (Memᴰ.cases_cons site.in_module) [
  | inr later ↦ absurd (Memᴰ.not-nil later)
  | inl is_main ↦
      let in_main : Memᴰ site.block function.blocks =
        subst (λ (f : Function). Memᴰ site.block f.blocks) is_main site.in_caller in
      elim (Memᴰ.cases_cons in_main) [
        | inl first ↦
            block_known callee
              (subst (λ (b : BasicBlock). Memᴰ (call (some callee)) b.instructions) first
                site.in_block)
              leaves
        | inr others ↦ elim (Memᴰ.cases_cons others) [
          | inl second ↦ exit_known callee (
              subst (λ (b : BasicBlock). Memᴰ (call (some callee)) b.instructions) second
                site.in_block)
          | inr later ↦ absurd (Memᴰ.not-nil later)
        ]
      ]
]

listed_accepted_example :
    let g = memory_graph stored_library reader (λ _. 0) final.graph none_before none_before in
    (out : Output) × (t : State) × (k' : Kernel) × (b : Block) × (l : Listing) × (run_on_module
        stored_library
        (λ _. 0)
        granting
        10
        reader
        (function ∷ [])
        none_before
        none_before
        start
      ≡ ok (result out) t)
    × (out.functions ≡ injected ∷ [])
    × (sandbox_init sys (some out.embedded) memory_pool_size fresh ≡ returns 0 k')
    × Represents k'.graph g node_table_offset b l
    × StandsAt k'.graph g node_table_offset b 0
listed_accepted_example =
    listed_accepted stored_library stored-Documented stored-DocumentedEdges stored-DocumentedLabels
      stored-DocumentedVertices (λ _. 0) granting (λ _ _. refl) start refl (omega arith) 10 reader
      (function ∷ []) none_before none_before (λ j. omega arith) word_before final (injected ∷ [])
      sys fresh puts_fits main_known ready ended main_bodies (rw two_vertices (omega arith))
      (rw two_vertices (omega arith))

edge_there :
    (has (final.graph.graph.listed) 0 ≡ true)
    × (has (final.graph.graph.listed) 5 ≡ true)
    × (linked stored_library final.graph.graph 0 5 ≡ true)
unfolding has contains targets
edge_there = (refl, refl, refl)

final_graph_labels_example :
    (callee : Callee) × CallSite (function ∷ []) callee
    × (codes "libc:puts" ≡ call_label reader callee)
    × (leaves_program reader callee ≡ true)
unfolding arrow
final_graph_labels_example =
    final_graph_labels stored_library stored-Documented stored-DocumentedEdges
      stored-DocumentedLabels stored-DocumentedVertices reader (function ∷ []) 10 final 0 5 ended
      edge_there.0 edge_there.1 edge_there.2

-- The number of `puts` is the hash of nothing.
puts-Strange : Strange stored_library reader (λ _. 0) final.graph none_before none_before 7
puts-Strange = record {
  no_neighbor = λ v x listed there. omega arith;
  not_before = λ j. omega arith;
}

first_call_killed_example :
    (out : Output) × (t : State) × (k' : Kernel) × (run_on_module stored_library
        (λ _. 0)
        granting
        10
        reader
        (function ∷ [])
        none_before
        none_before
        start
      ≡ ok (result out) t)
    × (sandbox_init sys (some out.embedded) memory_pool_size fresh ≡ returns 0 k')
    × (sandbox_dummycall sys 7 k' ≡ killed k')
first_call_killed_example =
    first_call_killed stored_library (λ _. 0) granting (λ _ _. refl) start refl (omega arith) 10
      reader (function ∷ []) none_before none_before numbers word_before word_before final
      (injected ∷ []) sys fresh 7 ready ended main_bodies (rw two_vertices (omega arith))
      (rw two_vertices (omega arith)) main_fits puts-Strange
