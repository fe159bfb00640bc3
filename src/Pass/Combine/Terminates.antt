-- ===== src/Pass/Combine/Terminates.antt =====
-- The last merging loop ends: each pass that merges takes away the name of a vertex.
use e0256_project_final.Base.{
  ℕ, zero, suc, ◌≤◌, ◌<◌, ◌≡◌, refl, true, List, [], ◌∷◌, some, arith, Bool-cases, inl, inr,
}
use e0256_project_final.Base.Text.{Text}
use e0256_project_final.Graaf.{Graaf, Documented}
use e0256_project_final.GraphLib.{get_control_edge_neighbors, get_user_edge_neighbors, get_vertices}
use e0256_project_final.Pass.Merge.{Merging, merge_neighbors}
use e0256_project_final.GraphLib.InStep.{InStep, names}
use e0256_project_final.Pass.Merge.Terminates.{
  BothNamed, merge_neighbors_keeps, merge_found, control_found, user_found,
}
use e0256_project_final.Pass.Combine.{is_nonempty, final_round, final_loop}

module _ (library : Graaf) (documented : Documented library) where
  -- What a merge along selected edges does to the names.
  merge_selected :
      (v : Text) (ns : List Text) (m : Merging library)
      → InStep library documented m.graph
      → ((n : Text) (rest : List Text) → ns ≡ n ∷ rest → BothNamed library documented v n m.graph)
      → InStep library documented (merge_neighbors library v ns m).graph
        × (names library documented (merge_neighbors library v ns m).graph
            ≤ names library documented m.graph)
        × (is_nonempty library ns ≡ true
            → names library documented (merge_neighbors library v ns m).graph
              < names library documented m.graph)
  merge_selected v [] m h both =
      let kept = merge_neighbors_keeps library documented v [] m h in (kept.0, kept.1, λ e. cc)
  merge_selected v (n ∷ ns) m h both =
      let kept = merge_neighbors_keeps library documented v (n ∷ ns) m h in
      (kept.0, kept.1, λ e. merge_found library documented v n ns m h (both n ns refl))

  final_round_smaller :
      (vs : List Text) (m : Merging library)
      → InStep library documented m.graph
      → let r = final_round library vs m in
        InStep library documented r.1.graph
        × (names library documented r.1.graph ≤ names library documented m.graph)
        × (r.0 ≡ true → names library documented r.1.graph < names library documented m.graph)
  unfolding final_round
  final_round_smaller [] m h = (h, omega arith, λ e. cc)
  final_round_smaller (v ∷ vs) m h =
      let controls = get_control_edge_neighbors library v m.graph in
      let first =
        merge_selected v controls m h (λ n ns. control_found library documented v n ns m.graph h) in
      let m1 = merge_neighbors library v controls m in
      let users = get_user_edge_neighbors library v m1.graph in
      let second =
        merge_selected v users m1 first.0
          (λ n ns. user_found library documented v n ns m1.graph first.0) in
      let m2 = merge_neighbors library v users m1 in
      let rest = final_round_smaller vs m2 second.0 in
      (
        rest.0,
        omega (arith, first.1, second.1, rest.1),
        ground (arith, first.2, second.2, rest.2, first.1, second.1, rest.1),
      )

  -- Over a graph library as documented, and where names and vertices stand for one another, the loop
  -- of `CombineLibcgGraph` that merges along control edges and calls ends: fuel above the number of
  -- names suffices, and names and vertices stand for one another at the end.
  pub final_loop_ends :
      (fuel : ℕ) (m : Merging library)
      → InStep library documented m.graph
      → names library documented m.graph < fuel
      → (r : Merging library) × (final_loop library fuel m ≡ some r)
        × InStep library documented r.graph
  unfolding final_loop
  final_loop_ends zero m h enough = absurd (omega arith)
  final_loop_ends (suc fuel) m h enough =
      let r = final_round library (get_vertices library m.graph) m in
      let kept = final_round_smaller (get_vertices library m.graph) m h in
      elim (Bool-cases r.0) [
        | inl more ↦
            let (final, ends, in_step) =
              final_loop_ends fuel r.1 kept.0 (omega (arith, kept.2 more)) in
            (final, rw more ends, in_step)
        | inr done ↦ (r.1, rw done refl, kept.0)
      ]
