-- ===== src/GraphLib/Kept.antt =====
-- A property of graphs that every operation of GraphLib keeps, for the labels that it allows.
use mathlib.Core.List.{Memᴰ}
use e0256_project_final.Base.{Bool, List, ◌≡◌, some}
use e0256_project_final.Base.Text.{Text}
use e0256_project_final.Graaf.{Graaf, Documented}
use e0256_project_final.GraphLib.{
  LibcCallgraph, new_graph, add_vertex, add_edge, remove_edge, combine_vertex, insert_graph,
  control,
}
use e0256_project_final.GraphLib.InStep.{
  InStep, new_graph-InStep, add_vertex-InStep, add_edge-InStep, remove_edge-InStep,
  combine_vertex-InStep, insert_graph-InStep,
}

pub record Kept (library : Graaf) : Type 1 where
  pub Fits : Text → Type 0
  pub Holds : LibcCallgraph library → Type 0
  pub control_fits : Fits control
  pub new_graph_kept : Holds (new_graph library)
  pub add_vertex_kept :
      (name : Text) (calls : Bool) (g : LibcCallgraph library)
      → Holds g
      → Holds (add_vertex library name calls g).1
  pub add_edge_kept :
      (lhs rhs label : Text) (g : LibcCallgraph library)
      → Fits label
      → Holds g
      → Holds (add_edge library lhs rhs label g)
  pub remove_edge_kept :
      (lhs rhs : Text) (g : LibcCallgraph library) → Holds g → Holds (remove_edge library lhs rhs g)
  pub combine_vertex_kept :
      (lhs rhs : Text) (g : LibcCallgraph library)
      → Holds g
      → Holds (combine_vertex library lhs rhs g)
  pub insert_graph_kept :
      (from g g' : LibcCallgraph library)
      → Holds from
      → Holds g
      → insert_graph library from g ≡ some g'
      → Holds g'

-- Every label of a list is allowed.
abbrev pub AllFit : (library : Graaf) → Kept library → List Text → Type 0
AllFit library kept labels = (label : Text) → Memᴰ label labels → kept.Fits label

-- Names and vertices stay in step, whatever the labels.
abbrev pub InStep-Kept : (library : Graaf) → Documented library → Kept library
InStep-Kept library documented = record {
  Fits = λ label. Unit {0};
  Holds = InStep library documented;
  control_fits = tt;
  new_graph_kept = new_graph-InStep library documented;
  add_vertex_kept = add_vertex-InStep library documented;
  add_edge_kept = λ lhs rhs label g _. add_edge-InStep library documented lhs rhs label g;
  remove_edge_kept = remove_edge-InStep library documented;
  combine_vertex_kept = combine_vertex-InStep library documented;
  insert_graph_kept = λ from g g' _. insert_graph-InStep library documented from g g';
}
