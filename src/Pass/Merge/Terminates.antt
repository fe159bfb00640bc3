-- ===== src/Pass/Merge/Terminates.antt =====
-- Merging ends: each pass that merges takes away the name of a vertex.
use mathlib.Core.List.{Memᴰ}
use e0256_project_final.Base.{
  ℕ, zero, suc, ◌≤◌, ◌<◌, ◌≡◌, refl, ap, ◌∙◌, sym, Bool, true, false, List, [], ◌∷◌, some, arith,
  if◌then◌else◌, Bool-cases, Option-cases, List-cases, inl, inr,
}
use e0256_project_final.Base.Text.{Text, codes, starts_with, text_eq}
use e0256_project_final.Base.TextMap.{find, length-erase, length-erase_found}
use e0256_project_final.Graaf.{Graaf, Documented}
use e0256_project_final.GraphLib.{
  LibcCallgraph, with_both, drop_vertex, combine_vertex, control, select,
  get_control_edge_neighbors, get_user_edge_neighbors, get_vertices,
}
use e0256_project_final.GraphLib.InStep.{InStep, names, combine_vertex-InStep}
use e0256_project_final.Pass.Merge.{Merging, merge_neighbors, merge_round, merge_loop}

nil-ne-cons : {x : Text} {xs : List Text} → ¬ ([] ≡ x ∷ xs)
nil-ne-cons e = cc

module _ (library : Graaf) (documented : Documented library) where
  open library use {Graph, vertex, edge, neighbors, has_vertex}

  names-combine_vertex :
      (lhs rhs : Text) (g : LibcCallgraph library)
      → names library documented (combine_vertex library lhs rhs g) ≤ names library documented g
  unfolding combine_vertex with_both drop_vertex
  names-combine_vertex lhs rhs g = ground (arith, length-erase rhs g.vertex_id_map)

  -- Two names that are there: one is taken away.
  names-combine_vertex_found :
      (lhs rhs : Text) (i j : ℕ) (g : LibcCallgraph library)
      → find lhs g.vertex_id_map ≡ some i
      → find rhs g.vertex_id_map ≡ some j
      → names library documented (combine_vertex library lhs rhs g) < names library documented g
  unfolding combine_vertex with_both drop_vertex
  names-combine_vertex_found lhs rhs i j g hl hr =
      ground (arith, length-erase_found rhs j g.vertex_id_map hr)

  pub merge_neighbors_keeps :
      (v : Text) (ns : List Text) (m : Merging library)
      → InStep library documented m.graph
      → InStep library documented (merge_neighbors library v ns m).graph
        × (names library documented (merge_neighbors library v ns m).graph
            ≤ names library documented m.graph)
  unfolding merge_neighbors
  merge_neighbors_keeps v [] m h = (h, omega arith)
  merge_neighbors_keeps v (n ∷ ns) m h =
      let rest =
        merge_neighbors_keeps v ns
          (record {
            graph = combine_vertex library v n m.graph;
            exit_node = if text_eq m.exit_node n then v else m.exit_node;
          })
          (combine_vertex-InStep library documented v n m.graph h) in
      (rest.0, omega (arith, rest.1, names-combine_vertex v n m.graph))

  -- What `select` finds first is the name of a vertex among those it looks at.
  select_head :
      (test : Text → Bool) (g : Graph) (i : ℕ) (js : List ℕ) (n : Text) (ns : List Text)
      → select library test g i js ≡ n ∷ ns
      → (j : ℕ) × Memᴰ j js × (vertex g j ≡ n)
  unfolding select
  select_head test g i [] n ns h = cc
  select_head test g i (j ∷ js) n ns h = elim (Bool-cases (test (edge g i j))) [
    | inl passes ↦ (j, Memᴰ.head refl, ground arith)
    | inr fails ↦
        let (k, m, e) = select_head test g i js n ns (rw fails at h) in (k, Memᴰ.tail m, e)
  ]

  -- Both names are there.
  abbrev pub BothNamed : Text → Text → LibcCallgraph library → Type 0
  BothNamed v n g =
      (i j : ℕ) × (find v g.vertex_id_map ≡ some i) × (find n g.vertex_id_map ≡ some j)

  -- A vertex with an edge that is selected has a name, and so has the neighbour that is merged first.
  selected_found :
      (test : Text → Bool) (v n : Text) (ns : List Text) (i : ℕ) (g : LibcCallgraph library)
      → InStep library documented g
      → find v g.vertex_id_map ≡ some i
      → select library test g.graph i (neighbors g.graph i) ≡ n ∷ ns
      → BothNamed v n g
  selected_found test v n ns i g h known e =
      let (j, m, name) = select_head test g.graph i (neighbors g.graph i) n ns e in
      let there = documented.neighbors_has g.graph i j (h.consistent v i known).0 m in
      (i, j, known, ap (λ t. find t g.vertex_id_map) (sym name) ∙ h.named j there)

  pub control_found :
      (v n : Text) (ns : List Text) (g : LibcCallgraph library)
      → InStep library documented g
      → get_control_edge_neighbors library v g ≡ n ∷ ns
      → BothNamed v n g
  unfolding get_control_edge_neighbors
  control_found v n ns g h e = elim (Option-cases (find v g.vertex_id_map)) [
    | inl absent ↦ absurd (nil-ne-cons (rw (absent, get_control_edge_neighbors) at e))
    | inr (i, known) ↦
        selected_found (λ label. text_eq label control) v n ns i g h known
          (rw (known, get_control_edge_neighbors) at e)
  ]

  pub user_found :
      (v n : Text) (ns : List Text) (g : LibcCallgraph library)
      → InStep library documented g
      → get_user_edge_neighbors library v g ≡ n ∷ ns
      → BothNamed v n g
  unfolding get_user_edge_neighbors
  user_found v n ns g h e = elim (Option-cases (find v g.vertex_id_map)) [
    | inl absent ↦ absurd (nil-ne-cons (rw (absent, get_user_edge_neighbors) at e))
    | inr (i, known) ↦
        selected_found (starts_with (codes "user:")) v n ns i g h known
          (rw (known, get_user_edge_neighbors) at e)
  ]

  -- The merge of a vertex with neighbours, the first of which is there, takes away a name.
  pub merge_found :
      (v n : Text) (ns : List Text) (m : Merging library)
      → InStep library documented m.graph
      → BothNamed v n m.graph
      → names library documented (merge_neighbors library v (n ∷ ns) m).graph
        < names library documented m.graph
  unfolding merge_neighbors
  merge_found v n ns m h (i, j, known, found) =
      let m' : Merging library = record {
        graph = combine_vertex library v n m.graph;
        exit_node = if text_eq m.exit_node n then v else m.exit_node;
      } in
      let rest =
        merge_neighbors_keeps v ns m' (combine_vertex-InStep library documented v n m.graph h) in
      omega (arith, rest.1, names-combine_vertex_found v n i j m.graph known found)

  -- A pass keeps the names in step, and takes one away at least if it has merged.
  Shrinks : Merging library → Bool × Merging library → Type 0
  Shrinks m r =
      InStep library documented r.1.graph
      × (names library documented r.1.graph ≤ names library documented m.graph)
      × (r.0 ≡ true → names library documented r.1.graph < names library documented m.graph)

  round_still :
      (v : Text) (vs : List Text) (m : Merging library)
      → get_control_edge_neighbors library v m.graph ≡ []
      → merge_round library (v ∷ vs) m ≡ merge_round library vs m
  unfolding merge_round
  round_still v vs m e = rw (e, merge_round)

  round_merges :
      (v n : Text) (ns vs : List Text) (m : Merging library)
      → get_control_edge_neighbors library v m.graph ≡ n ∷ ns
      → merge_round library (v ∷ vs) m
        ≡ (true, (merge_round library vs (merge_neighbors library v (n ∷ ns) m)).1)
  unfolding merge_round
  round_merges v n ns vs m e = rw (e, merge_round)

  merge_round_none : (m : Merging library) → merge_round library [] m ≡ (false, m)
  unfolding merge_round
  merge_round_none m = refl

  merge_round-Shrinks :
      (vs : List Text) (m : Merging library)
      → InStep library documented m.graph
      → Shrinks m (merge_round library vs m)
  unfolding Shrinks
  merge_round-Shrinks [] m h = rw (merge_round_none m) (h, omega arith, λ e. cc)
  merge_round-Shrinks (v ∷ vs) m h =
      elim (List-cases (get_control_edge_neighbors library v m.graph)) [
        | inl still ↦ rw (round_still v vs m still) (merge_round-Shrinks vs m h)
        | inr (n, ns, e) ↦
            let m' = merge_neighbors library v (n ∷ ns) m in
            let kept = merge_neighbors_keeps v (n ∷ ns) m h in
            let rest = merge_round-Shrinks vs m' kept.0 in
            let fewer = merge_found v n ns m h (control_found v n ns m.graph h e) in
            rw (round_merges v n ns vs m e)
              (rest.0, omega (arith, rest.1), λ _. omega (arith, rest.1))
      ]

  -- Over a graph library as documented, and where names and vertices stand for one another, the
  -- loop that merges along control edges ends: fuel above the number of names suffices, and names
  -- and vertices stand for one another at the end.
  pub merge_loop_ends :
      (fuel : ℕ) (m : Merging library)
      → InStep library documented m.graph
      → names library documented m.graph < fuel
      → (r : Merging library) × (merge_loop library fuel m ≡ some r)
        × InStep library documented r.graph
  unfolding merge_loop Shrinks
  merge_loop_ends zero m h enough = absurd (omega arith)
  merge_loop_ends (suc fuel) m h enough =
      let r = merge_round library (get_vertices library m.graph) m in
      let kept = merge_round-Shrinks (get_vertices library m.graph) m h in
      elim (Bool-cases r.0) [
        | inl more ↦
            let (final, ends, in_step) =
              merge_loop_ends fuel r.1 kept.0 (omega (arith, kept.2 more)) in
            (final, rw more ends, in_step)
        | inr done ↦ (r.1, rw done, kept.0)
      ]
