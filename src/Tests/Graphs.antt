-- ===== src/Tests/Graphs.antt =====
-- GraphLib and the pass over a graph library made of lists.
use mathlib.Core.List.{Memᴰ}
use e0256_project_final.Pass.Merge.{merge_round}
use e0256_project_final.Pass.Merge.Loops.{loop_vanishes}
use e0256_project_final.GraphLib.{get_control_edge_neighbors, select}
use e0256_project_final.Tests.Library.Edges.{stored-DocumentedEdges}
use e0256_project_final.Tests.Library.{
  arrow, visit_live, visit, besides, between, without, drop_arrows,
}
use e0256_project_final.Base.{
  ◌<◌, ◌≡◌, refl, true, false, ◌||◌, ◌&&◌, [], ◌∷◌, none, some, arith, ◌==◌, not,
}
use e0256_project_final.Base.Text.{codes, text_eq}
use e0256_project_final.Base.TextMap.{find, assign, erase}
use e0256_project_final.Graaf.{linked, contains, contains_edge}
use e0256_project_final.GraphLib.{
  LibcCallgraph, new_graph, add_vertex, add_edge, with_both, create_vertex, drop_vertex,
  combine_vertex, control, redirect, redirect_all,
}
use e0256_project_final.GraphLib.Names.{
  Consistent, add_vertex-Consistent, add_vertex-Named, combine_vertex-Consistent,
  combine_vertex_names,
}
use e0256_project_final.Pass.Merge.{Merging, merge_loop}
use e0256_project_final.GraphLib.InStep.{InStep, names, add_edge-InStep}
use e0256_project_final.Pass.Merge.Terminates.{merge_loop_ends}
use e0256_project_final.Pass.Combine.{final_loop}
use e0256_project_final.Pass.Combine.Terminates.{final_loop_ends}
use e0256_project_final.GraphLib.Edges.{
  linked-combine_vertex, combine_vertex-Reach, Reach, stays, moves,
}
use e0256_project_final.Tests.Library.{
  has, name_of, next_id, ends_of, drop_arrow, targets, stored_library, stored-Documented,
}

-- Two vertices and a control edge between them.
abbrev first : LibcCallgraph stored_library
first = (add_vertex stored_library (codes "a") false (new_graph stored_library)).1

abbrev second : LibcCallgraph stored_library
second = (add_vertex stored_library (codes "b") true first).1

abbrev joined : LibcCallgraph stored_library
joined = add_edge stored_library (codes "a") (codes "b") control second

empty-InStep : InStep stored_library stored-Documented (new_graph stored_library)
unfolding new_graph find has
empty-InStep = record { consistent = λ name i e. cc; named = λ i e. cc }

second-InStep : InStep stored_library stored-Documented second
second-InStep = record {
  consistent = add_vertex-Consistent stored_library stored-Documented (codes "b") true first (
      add_vertex-Consistent stored_library stored-Documented (codes "a") false
        (new_graph stored_library) empty-InStep.consistent);
  named = add_vertex-Named stored_library stored-Documented (codes "b") true first (
      add_vertex-Named stored_library stored-Documented (codes "a") false (new_graph stored_library)
        empty-InStep.named);
}

joined-InStep : InStep stored_library stored-Documented joined
unfolding add_edge with_both add_vertex create_vertex new_graph find assign text_eq next_id ends_of
joined-InStep = record { consistent = second-InStep.consistent; named = second-InStep.named }

joined_names : find (codes "a") joined.vertex_id_map ≡ some 0
unfolding add_edge with_both add_vertex create_vertex new_graph find assign text_eq next_id ends_of
joined_names = refl

joined_other : find (codes "b") joined.vertex_id_map ≡ some 1
unfolding add_edge with_both add_vertex create_vertex new_graph find assign text_eq next_id ends_of
joined_other = refl

few_names : names stored_library stored-Documented joined < 3
unfolding add_edge with_both add_vertex create_vertex new_graph find assign text_eq next_id ends_of
few_names = omega arith

abbrev merged : LibcCallgraph stored_library
merged = combine_vertex stored_library (codes "a") (codes "b") joined

merged_names : find (codes "a") merged.vertex_id_map ≡ some 0
unfolding combine_vertex drop_vertex erase add_edge with_both add_vertex create_vertex new_graph
    find assign text_eq next_id ends_of
merged_names = refl

combine_vertex-Consistent_example :
    (has merged.graph.listed 0 ≡ true) × (name_of merged.graph.listed 0 ≡ codes "a")
combine_vertex-Consistent_example =
    combine_vertex-Consistent stored_library stored-Documented (codes "a") (codes "b") joined
      joined-InStep.consistent (codes "a") 0 merged_names

combine_vertex_names_example :
    find (codes "b") (combine_vertex stored_library (codes "a") (codes "b") joined).vertex_id_map
    ≡ none
unfolding text_eq
combine_vertex_names_example =
    combine_vertex_names stored_library stored-Documented (codes "a") (codes "b") (codes "b") joined
      0 joined_names

merge_loop_ends_example :
    (r : Merging stored_library) × (merge_loop stored_library 3
        (record { graph = joined; exit_node = codes "b" })
      ≡ some r)
    × InStep stored_library stored-Documented r.graph
merge_loop_ends_example =
    merge_loop_ends stored_library stored-Documented 3
      (record { graph = joined; exit_node = codes "b" }) joined-InStep few_names

-- An edge of `b` to itself besides.
abbrev looped : LibcCallgraph stored_library
looped = add_edge stored_library (codes "b") (codes "b") control joined

looped-Consistent : Consistent stored_library stored-Documented looped
looped-Consistent =
    (add_edge-InStep stored_library stored-Documented (codes "b") (codes "b") control joined
      joined-InStep).consistent

looped_lem :
    (find (codes "a") looped.vertex_id_map ≡ some 0)
    × (find (codes "b") looped.vertex_id_map ≡ some 1)
    × (has looped.graph.listed 0 ≡ true)
    × (linked stored_library looped.graph 1 1 ≡ true)
unfolding has contains targets add_edge with_both find add_vertex new_graph create_vertex assign
    text_eq next_id ends_of drop_arrow
looped_lem = (refl, refl, refl, refl)

linked-combine_vertex_example :
    linked stored_library (combine_vertex stored_library (codes "a") (codes "b") looped).graph 0 0
    ≡ linked stored_library looped.graph 0 0
      || (((0 == 0) && linked stored_library looped.graph 1 0)
          || ((((0 == 0) && not (0 == 0)) && linked stored_library looped.graph 0 1)
              || (((0 == 0) && (0 == 0))
                  && (linked stored_library looped.graph 1 1
                      && contains_edge
                          (visit_live (redirect stored_library 0 1) looped.graph)
                          1
                          0))))
linked-combine_vertex_example =
    linked-combine_vertex stored_library stored-Documented stored-DocumentedEdges (codes "a")
      (codes "b") 0 1 looped 0 0 looped-Consistent looped_lem.0 looped_lem.1 refl looped_lem.2
      looped_lem.2 (omega arith) (omega arith)

-- Here the loop comes to the edge from `b` to `a` that it has drawn itself.
looped_merged :
    linked stored_library (combine_vertex stored_library (codes "a") (codes "b") looped).graph 0 0
    ≡ true
unfolding combine_vertex redirect redirect_all drop_vertex visit_live visit besides between arrow
    without drop_arrows contains_edge has contains targets add_edge with_both find add_vertex
    new_graph create_vertex assign erase text_eq next_id ends_of drop_arrow
looped_merged = refl

joined_has : has joined.graph.listed 0 ≡ true
unfolding has contains targets add_edge with_both find add_vertex new_graph create_vertex assign
    text_eq next_id ends_of drop_arrow
joined_has = refl

joined_edge : linked stored_library joined.graph 0 1 ≡ true
unfolding has contains targets add_edge with_both find add_vertex new_graph create_vertex assign
    text_eq next_id ends_of drop_arrow
joined_edge = refl

joined_path : Reach stored_library stored-Documented stored-DocumentedEdges joined.graph 0 1
joined_path = moves stays joined_edge

combine_vertex-Reach_example :
    Reach stored_library stored-Documented stored-DocumentedEdges merged.graph 0 0
combine_vertex-Reach_example =
    combine_vertex-Reach stored_library stored-Documented stored-DocumentedEdges (codes "a")
      (codes "b") 0 1 joined joined-InStep.consistent joined_names joined_other refl (omega arith)
      joined_has joined_path

final_loop_ends_example :
    (r : Merging stored_library) × (final_loop stored_library 3
        (record { graph = joined; exit_node = codes "b" })
      ≡ some r)
    × InStep stored_library stored-Documented r.graph
final_loop_ends_example =
    final_loop_ends stored_library stored-Documented 3
      (record { graph = joined; exit_node = codes "b" }) joined-InStep few_names

-- The edge of `b` to itself is a control edge.
looped_itself : Memᴰ (codes "b") (get_control_edge_neighbors stored_library (codes "b") looped)
unfolding get_control_edge_neighbors select has name_of targets arrow add_edge with_both find
    add_vertex new_graph create_vertex assign text_eq next_id ends_of drop_arrow
looped_itself = Memᴰ.head refl

loop_vanishes_example :
    find
      (codes "b")
      (merge_round stored_library
        (codes "b" ∷ [])
        (record { graph = looped; exit_node = codes "b" })).1.graph.vertex_id_map
    ≡ none
loop_vanishes_example =
    loop_vanishes stored_library stored-Documented (codes "b") []
      (record { graph = looped; exit_node = codes "b" }) looped_itself
