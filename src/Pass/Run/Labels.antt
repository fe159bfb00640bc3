-- ===== src/Pass/Run/Labels.antt =====
-- The labels of the final graph.
use mathlib.Core.List.{Memᴰ}
use mathlib.Core.List.Memᴰ
use e0256_project_final.Base.{
  ℕ, Bool, true, false, ◌||◌, List, [], ◌∷◌, none, some, ◌⊎◌, inl, inr, ◌≡◌, refl, arith,
  Option-cases,
}
use e0256_project_final.Base.Text.{Text, codes, text_eq, text_eq_refl, starts_with}
use e0256_project_final.Base.TextMap.{TextMap}
use e0256_project_final.FileMap.{
  Reader, Callee, Instruction, call, other, is_string_in_map, call_label, get_library_calls,
}
use e0256_project_final.Graaf.{
  Graaf, Documented, DocumentedEdges, DocumentedLabels, DocumentedVertices, linked,
}
use e0256_project_final.GraphLib.{control}
use e0256_project_final.GraphLib.Kept.{Kept}
use e0256_project_final.GraphLib.LabelsKept.{LabelsKept}
use e0256_project_final.Pass.Source.{BasicBlock, Function, FuncMeta, result}
use e0256_project_final.Pass.Blocks.{is_skipped, function_metas}
use e0256_project_final.Pass.Blocks.Keeps.{All, function_metas-Holds, CallsFit}
use e0256_project_final.Pass.Expand.{expand_bb_graph}
use e0256_project_final.Pass.Expand.Keeps.{expand_bb_graph-Holds}
use e0256_project_final.Pass.Merge.{convert_bb_graph}
use e0256_project_final.Pass.Merge.Keeps.{convert_bb_graph-Holds}
use e0256_project_final.Pass.Combine.{Final}
use e0256_project_final.Pass.Combine.Keeps.{combine_libcg_graph-Holds}
use e0256_project_final.Pass.Combine.Done.{combine_libcg_graph_labels}
use e0256_project_final.Pass.Run.{final_graph}

-- A call in a function that is not passed over.
pub record CallSite (fs : List Function) (callee : Callee) : Type 0 where
  pub caller : Function
  pub block : BasicBlock
  pub in_module : Memᴰ caller fs
  pub own : is_skipped caller ≡ false
  pub in_caller : Memᴰ block caller.blocks
  pub in_block : Memᴰ (call (some callee)) block.instructions

-- A listed label is that of a call.
label-of_call :
    (r : Reader) (is : List Instruction) (label : Text)
    → Memᴰ label (get_library_calls r is)
    → (callee : Callee) × Memᴰ (call (some callee)) is × (label ≡ call_label r callee)
unfolding get_library_calls
label-of_call r [] label m = absurd (Memᴰ.not-nil m)
label-of_call r (call none ∷ is) label m =
    let (callee, at, e) = label-of_call r is label m in (callee, Memᴰ.tail at, e)
label-of_call r (call (some f) ∷ is) label m = elim (Memᴰ.cases_cons m) [
  | inl same ↦ (f, Memᴰ.head refl, same)
  | inr later ↦ let (callee, at, e) = label-of_call r is label later in (callee, Memᴰ.tail at, e)
]
label-of_call r (other ∷ is) label m =
    let (callee, at, e) = label-of_call r is label m in (callee, Memᴰ.tail at, e)

-- Whether a call leaves the program: to a function of the listing, or to one without a body.
unfoldable pub leaves_program : Reader → Callee → Bool
leaves_program r callee =
    is_string_in_map callee.name r || (callee.is_intrinsic || callee.is_declaration)

user_label :
    (r : Reader) (callee : Callee)
    → starts_with (codes "user:") (call_label r callee) ≡ false
    → leaves_program r callee ≡ true
unfolding call_label leaves_program starts_with
user_label r callee h = ground arith

module _ (library : Graaf) (documented : Documented library) (edged : DocumentedEdges library)
    (labelled : DocumentedLabels library) (listed : DocumentedVertices library) (r : Reader)
    (fs : List Function) where
  open library use {has_vertex, edge}

  -- Control flow, or the label of a call in the module.
  abbrev FromModule : Text → Type 0
  FromModule label =
      (label ≡ control) ⊎ ((callee : Callee) × CallSite fs callee × (label ≡ call_label r callee))

  calls-FromModule :
      (kept : Kept library)
      → ((label : Text) → FromModule label → kept.Fits label)
      → (f : Function) → Memᴰ f fs
      → is_skipped f ≡ false
      → CallsFit library kept r f.blocks
  calls-FromModule kept fits f in_module own b in_caller label m =
      let (callee, in_block, e) = label-of_call r b.instructions label m in
      let site : CallSite fs callee = record {
        caller = f;
        block = b;
        in_module = in_module;
        own = own;
        in_caller = in_caller;
        in_block = in_block;
      } in
      fits label (inr (callee, site, e))

  -- What the graph operations keep holds of the graphs before the last phase.
  converted-Holds :
      (kept : Kept library)
      → ((label : Text) → FromModule label → kept.Fits label)
      → (fuel : ℕ) (metas : TextMap (FuncMeta library))
      → convert_bb_graph library fuel (expand_bb_graph library (function_metas library r fs []))
        ≡ some metas
      → All (λ m. kept.Holds m.libc_call_graph) metas
  converted-Holds kept fits fuel metas converts =
      convert_bb_graph-Holds library kept fuel _ metas
        (expand_bb_graph-Holds library kept _
          (function_metas-Holds library kept r fs [] (calls-FromModule kept fits) tt))
        converts

  -- What the graph operations keep holds of the final graph.
  pub final_graph-Holds :
      (kept : Kept library)
      → ((label : Text) → FromModule label → kept.Fits label)
      → (fuel : ℕ) (final : Final library) → final_graph library fuel r fs ≡ result final
      → kept.Holds final.graph
  unfolding final_graph
  final_graph-Holds kept fits fuel final ended =
      let expanded = expand_bb_graph library (function_metas library r fs []) in
      elim (Option-cases (convert_bb_graph library fuel expanded)) [
        | inl out ↦ let e' = rw (final_graph, out) at ended in cc
        | inr (metas, converts) ↦
            combine_libcg_graph-Holds library kept fuel metas final
              (converted-Holds kept fits fuel metas converts) (rw (final_graph, converts) at ended)
      ]

  abbrev module_kept : Kept library
  module_kept = LabelsKept library documented edged labelled FromModule (inl refl)

  -- A label that is neither control flow nor a call of the program's own functions is that of a
  -- call which leaves the program.
  label_leaves :
      (label : Text)
      → FromModule label
      → text_eq label control ≡ false
      → starts_with (codes "user:") label ≡ false
      → (callee : Callee) × CallSite fs callee
        × (label ≡ call_label r callee)
        × (leaves_program r callee ≡ true)
  label_leaves label (inl flow) no_flow no_user = let e = text_eq_refl control in absurd (cc)
  label_leaves label (inr (callee, site, e)) no_flow no_user =
      (callee, site, e, user_label r callee (rw e at no_user))

  -- Over a graph library as documented: where the phases of the pass give a final graph, the label
  -- of every edge between its vertices is that of a call in a function of the module that is not
  -- passed over, and this call leaves the program: its callee is in the listing, is one of LLVM's
  -- intrinsics, or has no body in the module. No control edge and no call of the program's own
  -- functions is left.
  pub final_graph_labels :
      (fuel : ℕ) (final : Final library) (i j : ℕ)
      → final_graph library fuel r fs ≡ result final
      → has_vertex final.graph.graph i ≡ true
      → has_vertex final.graph.graph j ≡ true
      → linked library final.graph.graph i j ≡ true
      → (callee : Callee) × CallSite fs callee
        × (edge final.graph.graph i j ≡ call_label r callee)
        × (leaves_program r callee ≡ true)
  unfolding final_graph
  final_graph_labels fuel final i j ended hi hj l =
      let expanded = expand_bb_graph library (function_metas library r fs []) in
      elim (Option-cases (convert_bb_graph library fuel expanded)) [
        | inl out ↦ let e' = rw (final_graph, out) at ended in cc
        | inr (metas, converts) ↦
            let combines = rw (final_graph, converts) at ended in
            let (in_step, all) =
              final_graph-Holds module_kept (λ label from. from) fuel final ended in
            let (no_flow, no_user) =
              combine_libcg_graph_labels library documented listed fuel metas final combines in_step
                i j hi l in
            label_leaves (edge final.graph.graph i j) (all i j hi hj l) no_flow no_user
      ]
