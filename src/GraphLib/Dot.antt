-- ===== src/GraphLib/Dot.antt =====
-- The attributes that `dump_todot` hands to graaf's `to_dot` for each vertex and each edge.
use e0256_project_final.Base.{Bool, false, ◌≡◌, arith, [], ◌++◌, none, some, if◌then◌else◌}
use e0256_project_final.Base.Text.{Text, codes, text_eq, text_eq_iff}
use e0256_project_final.Base.TextMap.{find, assign, find-assign}
use e0256_project_final.Graaf.{Graaf}
use e0256_project_final.GraphLib.{LibcCallgraph, control}

-- `label="{}"` and then the style.
unfoldable pub labelled_with : Text → Text → Text
labelled_with label style = codes "label=\"" ++ label ++ codes "\"" ++ style

-- A control edge has no label.
unfoldable pub edge_writer : Text → Text
edge_writer label =
    if text_eq label control
    then labelled_with [] (codes ", style=dashed, color=gray, fontcolor=gray")
    else labelled_with label (codes ", style=solid, color=red, fontcolor=red")

unfoldable pub filled_with : Text → Text → Text
filled_with vertex color =
    labelled_with vertex (codes ",fillcolor=" ++ color ++ codes ", style=filled")

module _ (library : Graaf) where
  -- `func_call_map[vertex]`: a name that is not there is entered with `false`.
  unfoldable pub func_call : Text → LibcCallgraph library → Bool × LibcCallgraph library
  func_call vertex g = elim (find vertex g.func_call_map) [
    | some called ↦ (called, g)
    | none ↦ (false, record g { func_call_map = assign vertex false g.func_call_map })
  ]

  unfoldable pub vertex_writer :
      Text → Text → Text → LibcCallgraph library → Text × LibcCallgraph library
  vertex_writer entry exit vertex g =
      let (called, g') = func_call vertex g in
      if text_eq vertex entry
      then (filled_with vertex (codes "lightgreen"), g)
      else if text_eq vertex exit
      then (filled_with vertex (codes "darkorchid1"), g)
      else (filled_with vertex (if called then codes "lightcoral" else codes "lightcyan"), g')

  -- The writer changes neither the graph nor the names, and only enters names into the map of
  -- calls that it did not have.
  pub vertex_writer_keeps :
      (entry exit vertex : Text) (g : LibcCallgraph library) (x : Text) (called : Bool)
      → let g' = (vertex_writer entry exit vertex g).1 in
        (g'.graph ≡ g.graph)
        × (g'.vertex_id_map ≡ g.vertex_id_map)
        × (find x g.func_call_map ≡ some called → find x g'.func_call_map ≡ some called)
  unfolding vertex_writer func_call
  vertex_writer_keeps entry exit vertex g x called = (
    ground arith,
    ground arith,
    λ e. ground (arith, find-assign vertex x false g.func_call_map, text_eq_iff vertex x),
  )
