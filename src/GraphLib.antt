-- ===== src/GraphLib.antt =====
-- GraphLib/GraphLib.cpp and GraphLib/includes/GraphLib.hpp: a directed graph with names for
-- vertices, over the directed graph of the graaf library, which is a parameter.
pub mod Names
pub mod Redirect
pub mod Edges
pub mod InStep
pub mod Kept
pub mod AllLabels
pub mod LabelsKept
pub mod Joined
pub mod Labels
pub mod Dot
use e0256_project_final.Base.{
  ℕ, Bool, true, false, List, [], ◌∷◌, Option, none, some, ◌==◌, if◌then◌else◌, map,
}
use e0256_project_final.Base.Text.{Text, text_eq, starts_with, codes}
use e0256_project_final.Base.TextMap.{TextMap, find, assign, erase}
use e0256_project_final.Graaf.{Graaf}
use mathlib.Core.List.{reverse}

-- The label of an edge that stands for control flow.
abbrev pub control : Text
control = codes "control"

module _ (library : Graaf) where
  open library use {
    Graph, new_vertex, insert_edge, delete_edge, delete_vertex, vertices, edges, neighbors, vertex,
    edge,
  }

  pub record LibcCallgraph : Type 0 where
    pub graph : Graph
    pub vertex_id_map : TextMap ℕ
    pub func_call_map : TextMap Bool

  -- A new vertex gets an id from the library; a name that is there keeps its own.
  unfoldable pub create_vertex : Text → Bool → LibcCallgraph → ℕ × LibcCallgraph
  create_vertex name has_func_call g =
      let (id, graph) = new_vertex name g.graph in
      (
        id,
        record {
          graph = graph;
          vertex_id_map = assign name id g.vertex_id_map;
          func_call_map = assign name has_func_call g.func_call_map;
        },
      )

  unfoldable pub add_vertex : Text → Bool → LibcCallgraph → ℕ × LibcCallgraph
  add_vertex name has_func_call g = elim (find name g.vertex_id_map) [
    | some id ↦ (id, g)
    | none ↦ create_vertex name has_func_call g
  ]

  -- What an operation on two vertices does where both names are there; it returns early elsewhere.
  unfoldable pub with_both :
      Text → Text → (ℕ → ℕ → LibcCallgraph → LibcCallgraph) → LibcCallgraph → LibcCallgraph
  with_both lhs rhs act g = elim (find lhs g.vertex_id_map) [
    | none ↦ g
    | some i ↦ elim (find rhs g.vertex_id_map) [ none ↦ g | some j ↦ act i j g ]
  ]

  unfoldable pub add_edge : Text → Text → Text → LibcCallgraph → LibcCallgraph
  add_edge lhs rhs label =
      with_both lhs rhs λ i j g. record g { graph = insert_edge i j label g.graph }

  unfoldable pub remove_edge : Text → Text → LibcCallgraph → LibcCallgraph
  remove_edge lhs rhs = with_both lhs rhs λ i j g. record g { graph = delete_edge i j g.graph }

  unfoldable pub drop_vertex : Text → ℕ → LibcCallgraph → LibcCallgraph
  drop_vertex name id g = record {
    graph = delete_vertex id g.graph;
    vertex_id_map = erase name g.vertex_id_map;
    func_call_map = erase name g.func_call_map;
  }

  unfoldable pub remove_vertex : Text → LibcCallgraph → LibcCallgraph
  remove_vertex name g = elim (find name g.vertex_id_map) [
    | none ↦ g
    | some id ↦ drop_vertex name id g
  ]

  -- An edge out of `j` is drawn from `i` too, and an edge from another vertex than `i` into `j` is
  -- drawn to `i` too.
  unfoldable pub redirect : ℕ → ℕ → (ℕ × ℕ) × Text → Graph → Graph
  redirect i j ((a, b), label) g =
      let out = if a == j then insert_edge i b label g else g in
      if b == j then (if a == i then out else insert_edge a i label out) else out

  -- The loop, over the edges that it comes to.
  unfoldable pub redirect_all : ℕ → ℕ → List ((ℕ × ℕ) × Text) → Graph → Graph
  redirect_all i j [] g = g
  redirect_all i j (e ∷ es) g = redirect_all i j es (redirect i j e g)

  -- The loop inserts into the container that it goes over: which edges it comes to, and those that
  -- it has inserted perhaps among them, is the library's.
  unfoldable pub combine_vertex : Text → Text → LibcCallgraph → LibcCallgraph
  combine_vertex lhs rhs = with_both lhs rhs λ i j g.
      drop_vertex rhs j
        (record g { graph = redirect_all i j (library.visited (redirect i j) g.graph) g.graph })

  unfoldable pub get_outgoing_edges : Text → LibcCallgraph → List Text
  get_outgoing_edges name g = elim (find name g.vertex_id_map) [
    | none ↦ []
    | some i ↦ map (edge g.graph i) (neighbors g.graph i)
  ]

  unfoldable pub get_neighbors : Text → LibcCallgraph → List Text
  get_neighbors name g = elim (find name g.vertex_id_map) [
    | none ↦ []
    | some i ↦ map (vertex g.graph) (neighbors g.graph i)
  ]

  -- The names of the neighbours whose edge has a label that passes the test.
  unfoldable pub select : (Text → Bool) → Graph → ℕ → List ℕ → List Text
  select test g i [] = []
  select test g i (j ∷ js) =
      let rest = select test g i js in if test (edge g i j) then vertex g j ∷ rest else rest

  unfoldable pub get_control_edge_neighbors : Text → LibcCallgraph → List Text
  get_control_edge_neighbors name g = elim (find name g.vertex_id_map) [
    | none ↦ []
    | some i ↦ select (λ label. text_eq label control) g.graph i (neighbors g.graph i)
  ]

  unfoldable pub get_user_edge_neighbors : Text → LibcCallgraph → List Text
  get_user_edge_neighbors name g = elim (find name g.vertex_id_map) [
    | none ↦ []
    | some i ↦ select (starts_with (codes "user:")) g.graph i (neighbors g.graph i)
  ]

  unfoldable pub get_vertices : LibcCallgraph → List Text
  get_vertices g = reverse (map (λ (v : ℕ × Text). v.1) (vertices g.graph))

  -- The loops of `insert_graph`: `none` is the exception of `func_call_map.at`.
  unfoldable pub insert_vertices :
      LibcCallgraph → List (ℕ × Text) → LibcCallgraph → Option LibcCallgraph
  insert_vertices from [] g = some g
  insert_vertices from ((i, name) ∷ rest) g = elim (find name from.func_call_map) [
    | none ↦ none
    | some calls ↦ insert_vertices from rest (add_vertex name calls g).1
  ]

  unfoldable pub insert_edges :
      LibcCallgraph → List ((ℕ × ℕ) × Text) → LibcCallgraph → LibcCallgraph
  insert_edges from [] g = g
  insert_edges from (((a, b), label) ∷ rest) g =
      insert_edges from rest (add_edge (vertex from.graph a) (vertex from.graph b) label g)

  unfoldable pub insert_graph : LibcCallgraph → LibcCallgraph → Option LibcCallgraph
  insert_graph from g = elim (insert_vertices from (vertices from.graph) g) [
    | none ↦ none
    | some g' ↦ some (insert_edges from (edges from.graph) g')
  ]

  -- The empty graph that a `LibcCallgraph` starts as.
  unfoldable pub new_graph : LibcCallgraph
  new_graph = record { graph = library.empty; vertex_id_map = []; func_call_map = [] }
