-- ===== src/Pass/Inject/Order.antt =====
-- The injected calls follow the labels that the graphs are made of.
use e0256_project_final.Base.{
  ℕ, zero, suc, ◌≡◌, refl, ap, List, [], ◌∷◌, none, some, arith, map, if◌then◌else◌, Bool-cases,
}
use e0256_project_final.Base.Int.{ℤ}
use e0256_project_final.Base.Text.{Text, codes, starts_with, substr_from}
use e0256_project_final.FileMap.{
  Reader, Instruction, call, other, is_string_in_map, get_value_from_map, call_label,
  get_library_calls,
}
use e0256_project_final.Pass.Source.{BasicBlock, Function}
use e0256_project_final.Pass.Blocks.{is_skipped}
use e0256_project_final.Pass.Inject.{
  Injected, original, dummycall, sandbox_init, cleanup, before, inject_block, Body, inject_blocks,
  keep_blocks, inject_entry, inject_init, is_main, insert_before, insert_at, inject_cleanup,
  inject_function,
}

-- The module's own instructions, and the numbers of the injected calls.
unfoldable pub originals : List Injected → List Instruction
originals [] = []
originals (original i ∷ rest) = i ∷ originals rest
originals (dummycall n ∷ rest) = originals rest
originals (sandbox_init n ∷ rest) = originals rest
originals (cleanup ∷ rest) = originals rest

unfoldable pub numbers : List Injected → List ℤ
numbers [] = []
numbers (original i ∷ rest) = numbers rest
numbers (dummycall n ∷ rest) = n ∷ numbers rest
numbers (sandbox_init n ∷ rest) = numbers rest
numbers (cleanup ∷ rest) = numbers rest

-- The numbers of the labels that stand for library calls.
unfoldable pub label_numbers : Reader → List Text → List ℤ
label_numbers r [] = []
label_numbers r (label ∷ labels) =
    let rest = label_numbers r labels in
    if starts_with (codes "libc:") label
    then get_value_from_map (substr_from 5 label) r ∷ rest
    else rest

-- The injection changes no instruction of the program and none of their order.
pub originals-inject_block :
    (r : Reader) (is : List Instruction) → originals (inject_block r is) ≡ is
unfolding originals inject_block before
originals-inject_block r [] = refl
originals-inject_block r (call none ∷ is) = ap (λ t. call none ∷ t) (originals-inject_block r is)
originals-inject_block r (other ∷ is) = ap (λ t. other ∷ t) (originals-inject_block r is)
originals-inject_block r (call (some f) ∷ is) =
    ground (arith, originals-inject_block r is, Bool-cases (is_string_in_map f.name r))

-- The calls that a block makes of `sandbox_dummycall` are, in their order, the numbers of the
-- labels of the block that stand for library calls.
pub numbers-inject_block :
    (r : Reader) (is : List Instruction)
    → numbers (inject_block r is) ≡ label_numbers r (get_library_calls r is)
unfolding numbers inject_block before get_library_calls call_label label_numbers starts_with
    substr_from
numbers-inject_block r [] = refl
numbers-inject_block r (call none ∷ is) = numbers-inject_block r is
numbers-inject_block r (other ∷ is) = numbers-inject_block r is
numbers-inject_block r (call (some f) ∷ is) = ground (arith, numbers-inject_block r is)

-- The program's own instructions of each block, before and after.
unfoldable pub source_code : List BasicBlock → List (List Instruction)
source_code [] = []
source_code (b ∷ bs) = b.instructions ∷ source_code bs

unfoldable pub code : List Body → List (List Instruction)
code [] = []
code ((block, returns) ∷ bs) = originals block ∷ code bs

originals-map : (is : List Instruction) → originals (map original is) ≡ is
unfolding originals
originals-map [] = refl
originals-map (i ∷ is) = ap (λ t. i ∷ t) (originals-map is)

code-inject_blocks :
    (r : Reader) (bs : List BasicBlock) → code (inject_blocks r bs) ≡ source_code bs
unfolding code source_code inject_blocks
code-inject_blocks r [] = refl
code-inject_blocks r (b ∷ bs) =
    ground (arith, originals-inject_block r b.instructions, code-inject_blocks r bs)

code-keep_blocks : (bs : List BasicBlock) → code (keep_blocks bs) ≡ source_code bs
unfolding code source_code keep_blocks
code-keep_blocks [] = refl
code-keep_blocks (b ∷ bs) = ground (arith, originals-map b.instructions, code-keep_blocks bs)

code-inject_entry :
    (f : Function) (size : ℕ) (bs : List Body) → code (inject_entry f size bs) ≡ code bs
unfolding code inject_entry inject_init originals
code-inject_entry f size [] = refl
code-inject_entry f size ((block, returns) ∷ bs) = ground (arith, Bool-cases (is_main f))

originals-insert_before :
    (n : ℕ) (xs : List Injected) → originals (insert_before n xs) ≡ originals xs
unfolding originals insert_before
originals-insert_before n [] = refl
originals-insert_before zero (x ∷ xs) = refl
originals-insert_before (suc n) (original i ∷ xs) = ap (λ t. i ∷ t) (originals-insert_before n xs)
originals-insert_before (suc n) (dummycall m ∷ xs) = originals-insert_before n xs
originals-insert_before (suc n) (sandbox_init m ∷ xs) = originals-insert_before n xs
originals-insert_before (suc n) (cleanup ∷ xs) = originals-insert_before n xs

code-insert_at : (i n : ℕ) (bs : List Body) → code (insert_at i n bs) ≡ code bs
unfolding code insert_at
code-insert_at i n [] = refl
code-insert_at zero n ((block, returns) ∷ bs) =
    ap (λ t. t ∷ code bs) (originals-insert_before n block)
code-insert_at (suc i) n ((block, returns) ∷ bs) =
    ap (λ t. originals block ∷ t) (code-insert_at i n bs)

code-inject_cleanup :
    (f : Function) (bs bs' : List Body) → inject_cleanup f bs ≡ some bs' → code bs' ≡ code bs
unfolding inject_cleanup
code-inject_cleanup f bs bs' h = grind (arith, code-insert_at)

-- Where the pass returns, on any function, each block has the instructions that it had, in their
-- order: the pass only adds calls of its own.
pub code-inject_function :
    (r : Reader) (size : ℕ) (f : Function) (bs : List Body)
    → inject_function r size f ≡ some bs
    → code bs ≡ source_code f.blocks
unfolding inject_function
code-inject_function r size f bs h =
    let blocks = if is_skipped f then keep_blocks f.blocks else inject_blocks r f.blocks in
    ground (
      arith,
      code-inject_cleanup f (inject_entry f size blocks) bs h,
      code-inject_entry f size blocks,
      code-inject_blocks r f.blocks,
      code-keep_blocks f.blocks,
    )
