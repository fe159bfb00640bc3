-- ===== src/Pass/Run/Total.antt =====
-- The phases before the memory graph end on every module.
use e0256_project_final.Base.{
  ℕ, zero, suc, ◌+◌, ◌≤◌, ◌≡◌, refl, List, [], ◌∷◌, some, ◌⊎◌, inl, inr, arith, Option-cases,
}
use e0256_project_final.Base.Text.{codes}
use e0256_project_final.Base.TextMap.{TextMap}
use e0256_project_final.FileMap.{Reader}
use e0256_project_final.Graaf.{Graaf, Documented}
use e0256_project_final.GraphLib.{LibcCallgraph, get_vertices}
use e0256_project_final.GraphLib.InStep.{InStep, names}
use e0256_project_final.Pass.Source.{Function, FuncMeta, result, exception}
use e0256_project_final.Pass.Blocks.{function_metas}
use e0256_project_final.Pass.Blocks.Keeps.{All, function_metas-Holds}
use e0256_project_final.Pass.Expand.{expand_bb_graph}
use e0256_project_final.Pass.Expand.Keeps.{expand_bb_graph-Holds}
use e0256_project_final.GraphLib.Kept.{InStep-Kept}
use e0256_project_final.Pass.Combine.Keeps.{inserted-Holds}
use e0256_project_final.Pass.Merge.{
  Merging, merge_round, merge_loop, convert_function, convert_bb_graph,
}
use e0256_project_final.Pass.Merge.Terminates.{merge_loop_ends}
use e0256_project_final.Pass.Combine.{
  Final, final_loop, final_round, combine_libcg_graph, insert_all, meta_of,
}
use e0256_project_final.Pass.Combine.Terminates.{final_loop_ends}
use e0256_project_final.Pass.Run.{final_graph}

module _ (library : Graaf) where
  -- More fuel gives the same result.
  merge_loop_more :
      (fuel fuel' : ℕ) (m r : Merging library)
      → fuel ≤ fuel'
      → merge_loop library fuel m ≡ some r
      → merge_loop library fuel' m ≡ some r
  unfolding merge_loop
  merge_loop_more zero fuel' m r h e = cc
  merge_loop_more (suc fuel) zero m r h e = absurd (omega arith)
  merge_loop_more (suc fuel) (suc fuel') m r h e =
      let next = merge_round library (get_vertices library m.graph) m in
      ground (arith, merge_loop_more fuel fuel' next.1 r (omega arith))

  final_loop_more :
      (fuel fuel' : ℕ) (m r : Merging library)
      → fuel ≤ fuel'
      → final_loop library fuel m ≡ some r
      → final_loop library fuel' m ≡ some r
  unfolding final_loop
  final_loop_more zero fuel' m r h e = cc
  final_loop_more (suc fuel) zero m r h e = absurd (omega arith)
  final_loop_more (suc fuel) (suc fuel') m r h e =
      let next = final_round library (get_vertices library m.graph) m in
      ground (arith, final_loop_more fuel fuel' next.1 r (omega arith))

  convert_function_more :
      (fuel fuel' : ℕ) (m m' : FuncMeta library)
      → fuel ≤ fuel'
      → convert_function library fuel m ≡ some m'
      → convert_function library fuel' m ≡ some m'
  unfolding convert_function
  convert_function_more fuel fuel' m m' h e = grind (arith, merge_loop_more fuel fuel')

  convert_more :
      (fuel fuel' : ℕ) (metas metas' : TextMap (FuncMeta library))
      → fuel ≤ fuel'
      → convert_bb_graph library fuel metas ≡ some metas'
      → convert_bb_graph library fuel' metas ≡ some metas'
  unfolding convert_bb_graph
  convert_more fuel fuel' [] metas' h e = e
  convert_more fuel fuel' ((name, m) ∷ metas) metas' h e =
      grind (arith, convert_function_more fuel fuel' m, convert_more fuel fuel' metas)

module _ (library : Graaf) (documented : Documented library) where
  abbrev Sound : LibcCallgraph library → Type 0
  Sound = InStep library documented

  convert_function_ends :
      (m : FuncMeta library)
      → Sound m.bb_expanded_graph
      → (n : ℕ) × (m' : FuncMeta library) × (convert_function library n m ≡ some m')
        × Sound m'.libc_call_graph
  unfolding convert_function
  convert_function_ends m h =
      let start : Merging library = record {
        graph = m.bb_expanded_graph;
        exit_node = m.exit_node;
      } in
      let n = suc (names library documented m.bb_expanded_graph) in
      let (r, ends, in_step) = merge_loop_ends library documented n start h (omega arith) in
      (n, record m { libc_call_graph = r.graph; exit_node = r.exit_node }, ground arith, in_step)

  convert_ends :
      (metas : TextMap (FuncMeta library))
      → All (λ m. Sound m.bb_expanded_graph) metas
      → (n : ℕ) × (metas' : TextMap (FuncMeta library)) × (convert_bb_graph library n metas
          ≡ some metas')
        × All (λ m. Sound m.libc_call_graph) metas'
  unfolding convert_bb_graph
  convert_ends [] h = (0, [], refl, tt)
  convert_ends ((name, m) ∷ metas) h =
      let (n1, m', first, sound) = convert_function_ends m h.0 in
      let (n2, metas', others, all) = convert_ends metas h.1 in
      let first' = convert_function_more library n1 (n1 + n2) m m' (omega arith) first in
      let others' = convert_more library n2 (n1 + n2) metas metas' (omega arith) others in
      (n1 + n2, (name, m') ∷ metas', ground arith, (sound, all))

  -- What `CombineLibcgGraph` ends in: an exception for every fuel, or a graph.
  Ends : TextMap (FuncMeta library) → Type 0
  Ends metas =
      ((fuel : ℕ) → combine_libcg_graph library fuel metas ≡ exception)
      ⊎ ((n : ℕ) × (final : Final library) × ((fuel : ℕ)
            → n ≤ fuel
            → combine_libcg_graph library fuel metas ≡ result final)
          × Sound final.graph)

  combine-Ends :
      (metas : TextMap (FuncMeta library)) → All (λ m. Sound m.libc_call_graph) metas → Ends metas
  unfolding combine_libcg_graph Ends
  combine-Ends metas h =
      let top = meta_of library metas (codes "main") in
      elim (Option-cases
        (insert_all library metas (get_vertices library top.libc_call_graph) top.libc_call_graph)) [
          | inl thrown ↦ inl (λ fuel. ground arith)
          | inr (g, made) ↦
              let sound = inserted-Holds library (InStep-Kept library documented) metas h g made in
              let start : Merging library = record { graph = g; exit_node = top.exit_node } in
              let n = suc (names library documented g) in
              let (r, ends, in_step) =
                final_loop_ends library documented n start sound (omega arith) in
              inr (
                n,
                record { graph = r.graph; entry_node = top.entry_node; exit_node = r.exit_node },
                λ fuel enough.
                    let more = final_loop_more library n fuel start r enough ends in ground arith,
                in_step,
              )
        ]

  -- Over a graph library as documented, the phases of the pass that make the final graph end on
  -- every module and every listing: there is a fuel from which on they do not run out of it, but
  -- always end in an exception of `CombineLibcgGraph` or in its call of `front()` where there is no
  -- neighbour, or always in the same graph, whose names and vertices stand for one another.
  pub final_graph_ends :
      (r : Reader) (fs : List Function)
      → (n : ℕ) × (((fuel : ℕ) → n ≤ fuel → final_graph library fuel r fs ≡ exception)
          ⊎ ((final : Final library) × ((fuel : ℕ)
                → n ≤ fuel
                → final_graph library fuel r fs ≡ result final)
              × InStep library documented final.graph))
  unfolding final_graph Ends
  final_graph_ends r fs =
      let kept = InStep-Kept library documented in
      let expanded = expand_bb_graph library (function_metas library r fs []) in
      let sound =
        expand_bb_graph-Holds library kept _
          (function_metas-Holds library kept r fs [] (λ f m own b n label at. tt) tt) in
      let (n1, metas, converts, all) = convert_ends expanded sound in
      elim (combine-Ends metas all) [
        | inl throws ↦ (
          n1,
          inl λ fuel enough.
              let more = convert_more library n1 fuel expanded metas enough converts in
              ground (arith, throws fuel),
        )
        | inr (n2, final, ends, in_step) ↦ (
          n1 + n2,
          inr (
            final,
            λ fuel enough.
                let more = convert_more library n1 fuel expanded metas (omega arith) converts in
                ground (arith, ends fuel (omega arith)),
            in_step,
          ),
        )
      ]
