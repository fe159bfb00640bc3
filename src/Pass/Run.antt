-- ===== src/Pass/Run.antt =====
-- `LibcSandboxing::run` and `runOnModule`: the phases in their order.
pub mod Total
pub mod Accepted
pub mod Labels
pub mod Killed
pub mod Listed
pub mod Changed
use e0256_project_final.Base.{
  ℕ, ◌*◌, Bool, true, false, ◌||◌, List, [], ◌∷◌, Option, none, some, if◌then◌else◌,
}
use e0256_project_final.Base.Text.{Text}
use e0256_project_final.Base.TextMap.{TextMap}
use e0256_project_final.FileMap.{Reader, Instruction, read_file_to_map}
use e0256_project_final.Graaf.{Graaf}
use e0256_project_final.MemGraph.State.{Env, M, ◌>>=◌, return}
use e0256_project_final.MemGraph.Pool.{Buffer}
use e0256_project_final.Pass.Source.{Function, BasicBlock, Ending, result, exception, out_of_fuel}
use e0256_project_final.Pass.Blocks.{function_metas, is_skipped}
use e0256_project_final.Pass.Expand.{expand_bb_graph}
use e0256_project_final.Pass.Merge.{convert_bb_graph}
use e0256_project_final.Pass.Combine.{Final, combine_libcg_graph}
use e0256_project_final.Pass.InMemory.{generate_in_memory_graph}
use e0256_project_final.Pass.Inject.{Body, inject_function, before}

-- The size that `SectionAddressHandler` is given.
abbrev pub section_size : ℕ
section_size = 1024 * 1024

-- The functions after the injection; `none` is an insertion at the null pointer.
unfoldable pub inject_functions : Reader → List Function → Option (List (List Body))
inject_functions r [] = some []
inject_functions r (f ∷ fs) = elim (inject_function r section_size f) [
  | none ↦ none
  | some body ↦ elim (inject_functions r fs) [ none ↦ none | some bodies ↦ some (body ∷ bodies) ]
]

-- `InsertedAtLeastOnePrintf`: whether the pass has put a call before an instruction.
unfoldable pub inserts_in : Reader → List Instruction → Bool
inserts_in r [] = false
inserts_in r (i ∷ is) = elim (before r i) [ [] ↦ inserts_in r is | call ∷ calls ↦ true ]

unfoldable pub inserts_blocks : Reader → List BasicBlock → Bool
inserts_blocks r [] = false
inserts_blocks r (b ∷ bs) = inserts_in r b.instructions || inserts_blocks r bs

unfoldable pub inserts_any : Reader → List Function → Bool
inserts_any r [] = false
inserts_any r (f ∷ fs) =
    (if is_skipped f then false else inserts_blocks r f.blocks) || inserts_any r fs

-- What the pass makes of a module, and its answer: where it has changed nothing all of LLVM's
-- analyses are preserved, and else none.
pub record Output : Type 0 where
  pub embedded : Buffer
  pub functions : List (List Body)
  pub changed : Bool

module _ (library : Graaf) where
  -- The phases before the memory graph; only `CombineLibcgGraph` throws.
  unfoldable pub final_graph : ℕ → Reader → List Function → Ending (Final library)
  final_graph fuel r fs =
      elim (convert_bb_graph library fuel
        (expand_bb_graph library (function_metas library r fs []))) [
          | none ↦ out_of_fuel
          | some metas ↦ combine_libcg_graph library fuel metas
        ]

  module _ (hash : Text → ℕ) (env : Env) (fuel : ℕ) where
    unfoldable pub embed :
        Reader → List Function → Final library → (ℕ → ℕ) → (ℕ → ℕ) → M (Ending Output)
    embed r fs final edges_before neighbors_before = do
      made ← generate_in_memory_graph library r hash env final.graph edges_before neighbors_before
      elim made [
        | none ↦ return exception
        | some embedded ↦ elim (inject_functions r fs) [
          | none ↦ return exception
          | some functions ↦ return (
              result
                (record { embedded = embedded; functions = functions; changed = inserts_any r fs }))
        ]
      ]

    unfoldable pub run_on_module : Reader → List Function → (ℕ → ℕ) → (ℕ → ℕ) → M (Ending Output)
    run_on_module r fs edges_before neighbors_before = elim (final_graph fuel r fs) [
      | exception ↦ return exception
      | out_of_fuel ↦ return out_of_fuel
      | result final ↦ embed r fs final edges_before neighbors_before
    ]

    -- The pass goes on also where the listing did not open.
    unfoldable pub run_pass :
        Option (List Text) → List Function → (ℕ → ℕ) → (ℕ → ℕ) → M (Ending Output)
    run_pass listing fs edges_before neighbors_before =
        elim (read_file_to_map listing (record { string_map = []; loaded = false })) [
          | none ↦ return exception
          | some (opened, r) ↦ run_on_module r fs edges_before neighbors_before
        ]
