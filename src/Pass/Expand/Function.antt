-- ===== src/Pass/Expand/Function.antt =====
-- `ExpandBBGraph` over all blocks of a function.
use e0256_project_final.Base.{
  ℕ, suc, ◌+◌, ◌≤◌, ◌<◌, ◌^◌, ◌≡◌, refl, ◌∙◌, List, [], ◌∷◌, arith, length,
}
use e0256_project_final.Base.Text.{Text}
use e0256_project_final.Base.TextMap.{TextMap}
use e0256_project_final.Graaf.{Graaf, Documented, DocumentedEdges, DocumentedLabels}
use e0256_project_final.GraphLib.InStep.{InStep}
use e0256_project_final.GraphLib.Joined.{joined}
use e0256_project_final.GraphLib.Labels.{Labelled}
use e0256_project_final.Pass.Source.{FuncMeta}
use e0256_project_final.Pass.Expand.{
  call_vertex, last_name, expand_block, expand_blocks, expand_function,
}
use e0256_project_final.Pass.Expand.Chain.{Spells}
use e0256_project_final.Pass.Expand.Spells.{expand_block-Spells}
use e0256_project_final.Pass.Expand.Others.{after-InStep, after_keeps, after_others}
use e0256_project_final.Pass.Expand.Apart.{
  Expandable, Spelled, Unaimed, Away, Spelled-SameOut, Unaimed-SameOut, absent-Unaimed,
  others-Expandable, last_name-Away,
}

module _ (library : Graaf) (documented : Documented library) (edged : DocumentedEdges library)
    (labelled : DocumentedLabels library) where
  -- A name that is away from the blocks keeps its edges, and a labelled edge that no block may own
  -- stays.
  blocks_others :
      (bs : TextMap (List Text)) (m : FuncMeta library)
      → InStep library documented m.bb_expanded_graph
      → Expandable library m.bb_expanded_graph bs
      → (x y : Text) → Away library documented edged labelled bs x
      → joined library (expand_blocks library bs m).bb_expanded_graph x y
        ≡ joined library m.bb_expanded_graph x y
  unfolding expand_blocks
  blocks_others [] m h ready x y away = refl
  blocks_others ((b, []) ∷ bs) m h ready x y away = absurd (omega (arith, ready.0.0))
  blocks_others ((b, call ∷ calls) ∷ bs) m h ready x y away =
      let (some_call, few, there, new, separate) = ready.0 in
      let rest =
        others-Expandable library documented edged labelled b call calls m h there new few bs
          separate ready.1 in
      let in_step = after-InStep library documented edged labelled b call calls m h there new few in
      blocks_others bs (expand_block library (b, call ∷ calls) m) in_step rest.0 x y away.1
      ∙ (after_others library documented edged labelled b call calls m h there new few x away.0.0
            away.0.1).1
          y

  blocks_keep :
      (bs : TextMap (List Text)) (m : FuncMeta library)
      → InStep library documented m.bb_expanded_graph
      → Expandable library m.bb_expanded_graph bs
      → (x y label : Text) → Unaimed library m.bb_expanded_graph bs y
      → Labelled library m.bb_expanded_graph x y label
      → Labelled library (expand_blocks library bs m).bb_expanded_graph x y label
  unfolding expand_blocks
  blocks_keep [] m h ready x y label out e = e
  blocks_keep ((b, []) ∷ bs) m h ready x y label out e = absurd (omega (arith, ready.0.0))
  blocks_keep ((b, call ∷ calls) ∷ bs) m h ready x y label out e =
      let (some_call, few, there, new, separate) = ready.0 in
      let rest =
        others-Expandable library documented edged labelled b call calls m h there new few bs
          separate ready.1 in
      let in_step = after-InStep library documented edged labelled b call calls m h there new few in
      blocks_keep bs (expand_block library (b, call ∷ calls) m) in_step rest.0 x y label
        (Unaimed-SameOut library m.bb_expanded_graph _ bs y rest.1 out.1)
        (after_keeps library documented edged labelled b call calls m h there new few x y label
          out.0 e)

  blocks-Spells :
      (bs : TextMap (List Text)) (m : FuncMeta library) (block : Text) (n : ℕ) (last : Text)
      (calls : List Text)
      → InStep library documented m.bb_expanded_graph
      → Expandable library m.bb_expanded_graph bs
      → ((call : Text) (k : ℕ)
          → n ≤ k
          → k < 2 ^ 31
          → Unaimed library m.bb_expanded_graph bs (call_vertex block call k))
      → n + length calls ≤ 2 ^ 31
      → Spells library m.bb_expanded_graph block n last calls
      → Spells library (expand_blocks library bs m).bb_expanded_graph block n last calls
  blocks-Spells bs m block n last [] h ready out few e = tt
  blocks-Spells bs m block n last (call ∷ calls) h ready out few e = (
    blocks_keep bs m h ready last (call_vertex block call n) call
        (out call n (omega arith) (omega arith)) e.0,
    blocks-Spells bs m block (suc n) (call_vertex block call n) calls h ready
        (λ call' k above below. out call' k (omega arith) below) (omega arith) e.1,
  )

  expand_blocks-Spelled :
      (bs : TextMap (List Text)) (m : FuncMeta library)
      → InStep library documented m.bb_expanded_graph
      → Expandable library m.bb_expanded_graph bs
      → Spelled library m.bb_expanded_graph (expand_blocks library bs m).bb_expanded_graph bs
  unfolding expand_blocks last_name
  expand_blocks-Spelled [] m h ready = tt
  expand_blocks-Spelled ((b, []) ∷ bs) m h ready = absurd (omega (arith, ready.0.0))
  expand_blocks-Spelled ((b, call ∷ calls) ∷ bs) m h ready =
      let (some_call, few, there, new, separate) = ready.0 in
      let m' = expand_block library (b, call ∷ calls) m in
      let rest =
        others-Expandable library documented edged labelled b call calls m h there new few bs
          separate ready.1 in
      let in_step = after-InStep library documented edged labelled b call calls m h there new few in
      let (spells, ends) =
        expand_block-Spells library documented edged labelled b call calls m h there new few in
      let away =
        last_name-Away library documented edged labelled b call calls m h there new few bs separate
          ready.1 in
      (
        (
          blocks-Spells bs m' b 1 b (call ∷ calls) in_step rest.0
              (λ call' k above below.
                Unaimed-SameOut library m.bb_expanded_graph _ bs (call_vertex b call' k) rest.1 (
                  absent-Unaimed library m.bb_expanded_graph bs (call_vertex b call' k)
                    (new call' k above below)))
              few spells,
          λ y.
              blocks_others bs m' in_step rest.0
                (last_name library b 2 calls (call_vertex b call 1)) y away
              ∙ ends y,
        ),
        Spelled-SameOut library m.bb_expanded_graph m'.bb_expanded_graph _ bs rest.1
            (expand_blocks-Spelled bs m' in_step rest.0),
      )

  -- Over a graph library as documented, and where names and vertices stand for one another,
  -- `ExpandBBGraph` makes of each block of a function a path that starts at the block and whose
  -- edges are labelled with the block's calls in their order, and the last vertex of the path has
  -- edges to exactly the names to which the block had edges. Each block in the function's map must
  -- have a vertex, a call and fewer than 2 ^ 31 calls, no vertex may have the name of a call's
  -- vertex before, and no two blocks the same name.
  pub expand_function-Spelled :
      (m : FuncMeta library)
      → InStep library documented m.bb_graph
      → Expandable library m.bb_graph m.bb_to_libc_map
      → Spelled library m.bb_graph (expand_function library m).bb_expanded_graph m.bb_to_libc_map
  unfolding expand_function
  expand_function-Spelled m h ready =
      expand_blocks-Spelled m.bb_to_libc_map (record m { bb_expanded_graph = m.bb_graph }) h ready
