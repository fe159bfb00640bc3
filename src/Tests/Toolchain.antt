-- ===== src/Tests/Toolchain.antt =====
-- The listing of a library and the pass over a block.
use e0256_project_final.Base.{
  ℕ, ◌≡◌, refl, true, false, List, [], ◌∷◌, none, some, arith, ◌==◌, if◌then◌else◌,
}
use e0256_project_final.Base.Int.{pos, negsuc}
use e0256_project_final.Base.Text.{Text, codes, text_eq, starts_with}
use e0256_project_final.Base.TextMap.{find}
use e0256_project_final.Pass.Source.{BasicBlock, Function}
use e0256_project_final.Pass.Blocks.{is_skipped}
use e0256_project_final.LibcListGen.{Symbol, Elf, main, dump, untouched}
use e0256_project_final.FileMap.{
  Reader, Instruction, call, other, read_file_to_map, get_value_from_map, is_string_in_map,
  get_library_calls,
}
use e0256_project_final.FileMap.RoundTrip.{last_named, listing_reads_back}
use e0256_project_final.Pass.Inject.{
  original, dummycall, sandbox_init, cleanup, Body, before, is_main, inject_block, inject_init,
  inject_blocks, inject_entry, inject_cleanup, inject_function, reached, last_instruction,
  insert_before, insert_at,
}
use e0256_project_final.Pass.Inject.Order.{
  numbers, label_numbers, numbers-inject_block, code, source_code, code-inject_function,
}

-- Functions `f` and `g`, and `f` again, which counts.
abbrev symbols : ℕ → Symbol
symbols n =
    if n == 1
    then record { type = 2; name = some (codes "g") }
    else if n == 3
    then record { type = 1; name = some (codes "v") }
    else record { type = 2; name = some (codes "f") }

listing_reads_back_example :
    (r : Reader) × (read_file_to_map
        (some (dump symbols 4 0))
        (record { string_map = []; loaded = false })
      ≡ some (true, r))
    × (r.loaded ≡ true)
    × ((s : Text)
        → get_value_from_map s r
          ≡ (elim (last_named s symbols 4 0) [ none ↦ negsuc 0 | some n ↦ pos n ]))
listing_reads_back_example = listing_reads_back symbols 4 (omega arith)

abbrev pub reader : Reader
reader = record { string_map = (codes "puts", pos 7) ∷ []; loaded = true }

abbrev pub block : List Instruction
block =
    other
    ∷ call (some (record { name = codes "puts"; is_intrinsic = false; is_declaration = true }))
    ∷ call none
    ∷ call (some (record { name = codes "work"; is_intrinsic = false; is_declaration = false }))
    ∷ []

numbers-inject_block_example :
    numbers (inject_block reader block) ≡ label_numbers reader (get_library_calls reader block)
numbers-inject_block_example = numbers-inject_block reader block

-- A function `main` of two blocks, the second of which ends in a return.
abbrev pub entry_block : BasicBlock
entry_block = record {
  operand = codes "%0";
  instructions = block;
  successors = 1 ∷ [];
  no_predecessors = true;
  returns = false;
}

abbrev pub exit_block : BasicBlock
exit_block = record {
  operand = codes "%1";
  instructions = other ∷ other ∷ [];
  successors = [];
  no_predecessors = false;
  returns = true;
}

abbrev pub function : Function
function = record {
  name = codes "main";
  is_declaration = false;
  blocks = entry_block ∷ exit_block ∷ [];
}

abbrev pub injected : List Body
injected =
    (
      sandbox_init 1048576
          ∷ original other
          ∷ dummycall (pos 7)
          ∷ original (
              call (
                some (record { name = codes "puts"; is_intrinsic = false; is_declaration = true })))
          ∷ original (call none)
          ∷ original (
              call (
                some
                  (record { name = codes "work"; is_intrinsic = false; is_declaration = false })))
          ∷ [],
      false,
    )
    ∷ (cleanup ∷ original other ∷ original other ∷ [], true)
    ∷ []

pub main_injected : inject_function reader 1048576 function ≡ some injected
unfolding inject_function inject_cleanup inject_entry inject_init inject_blocks inject_block before
    is_main is_skipped starts_with last_instruction reached insert_at insert_before is_string_in_map
    get_value_from_map find text_eq
main_injected = refl

code-inject_function_example : code injected ≡ source_code function.blocks
code-inject_function_example = code-inject_function reader 1048576 function injected main_injected

-- With the wrong number of arguments nothing is written.
usage : (elf : Elf) → main 2 elf ≡ (1, untouched)
unfolding main
usage elf = refl
