-- ===== src/Pass/Inject.antt =====
-- The calls of `syscall` that the pass puts into a module: one before each library call, one at the
-- front of `main`, and one near its end.
pub mod Order
use e0256_project_final.Base.{
  ℕ, zero, suc, ◌-◌, Bool, true, false, List, [], ◌∷◌, ◌++◌, Option, none, some, ◌==◌, length, map,
  if◌then◌else◌,
}
use e0256_project_final.Base.Int.{ℤ}
use e0256_project_final.Base.Text.{Text, codes, starts_with}
use e0256_project_final.FileMap.{
  Reader, Callee, Instruction, call, other, is_string_in_map, get_value_from_map,
}
use e0256_project_final.Pass.Source.{BasicBlock, Function}
use e0256_project_final.Pass.Blocks.{is_skipped}

-- An instruction of the module after the pass: one of its own, or a call of `syscall` with number
-- 336 and a library call's number, with 337 and the size of the embedded data, or with 338.
pub data Injected : Type 0 where
  original : Instruction → Injected
  dummycall : ℤ → Injected
  sandbox_init : ℕ → Injected
  cleanup : Injected

-- What `injectDummySyscall` puts before an instruction.
unfoldable pub before : Reader → Instruction → List Injected
before r (call (some f)) =
    if is_string_in_map f.name r then dummycall (get_value_from_map f.name r) ∷ [] else []
before r (call none) = []
before r other = []

-- The loop over the instructions of a block.
unfoldable pub inject_block : Reader → List Instruction → List Injected
inject_block r [] = []
inject_block r (i ∷ is) = before r i ++ original i ∷ inject_block r is

-- The functions whose name begins with `main`.
unfoldable pub is_main : Function → Bool
is_main f = if f.is_declaration then false else starts_with (codes "main") f.name

-- `SectionAddressHandler` puts its call at the front of the entry block of such a function.
unfoldable pub inject_init : Function → ℕ → List Injected → List Injected
inject_init f size block = if is_main f then sandbox_init size ∷ block else block

-- A block after the injection, and whether it ends in a return.
abbrev pub Body : Type 0
Body = List Injected × Bool

unfoldable pub inject_blocks : Reader → List BasicBlock → List Body
inject_blocks r [] = []
inject_blocks r (b ∷ bs) = (inject_block r b.instructions, b.returns) ∷ inject_blocks r bs

-- The entry block is the first one.
unfoldable pub inject_entry : Function → ℕ → List Body → List Body
inject_entry f size [] = []
inject_entry f size ((block, returns) ∷ bodies) = (inject_init f size block, returns) ∷ bodies

-- The number of instructions of a block that the loop of `MemoryCleanupHandler` goes over: it leaves
-- a block at its return.
unfoldable pub reached : Body → ℕ
reached (block, returns) = if returns then length block - 1 else length block

-- `lastInst`: the block and the index in it of the last instruction that the loops go over, where
-- `none` is the null pointer.
unfoldable pub last_instruction : ℕ → List Body → Option (ℕ × ℕ) → Option (ℕ × ℕ)
last_instruction i [] last = last
last_instruction i (b ∷ bs) last =
    last_instruction (suc i) bs (if reached b == 0 then last else some (i, reached b - 1))

unfoldable pub insert_before : ℕ → List Injected → List Injected
insert_before n [] = cleanup ∷ []
insert_before zero (x ∷ xs) = cleanup ∷ x ∷ xs
insert_before (suc n) (x ∷ xs) = x ∷ insert_before n xs

unfoldable pub insert_at : ℕ → ℕ → List Body → List Body
insert_at i n [] = []
insert_at zero n ((block, returns) ∷ bs) = (insert_before n block, returns) ∷ bs
insert_at (suc i) n (b ∷ bs) = b ∷ insert_at i n bs

-- `MemoryCleanupHandler` on a function; `none` is an insertion at the null pointer.
unfoldable pub inject_cleanup : Function → List Body → Option (List Body)
inject_cleanup f bodies =
    if is_main f
    then elim (last_instruction 0 bodies none) [
      | none ↦ none
      | some (i, n) ↦ some (insert_at i n bodies)
    ]
    else some bodies

-- The blocks of a function that the pass goes by.
unfoldable pub keep_blocks : List BasicBlock → List Body
keep_blocks [] = []
keep_blocks (b ∷ bs) = (map original b.instructions, b.returns) ∷ keep_blocks bs

-- The blocks of a function after the pass, where `size` bytes of data are embedded in the program.
unfoldable pub inject_function : Reader → ℕ → Function → Option (List Body)
inject_function r size f =
    inject_cleanup f (
      inject_entry f size (if is_skipped f then keep_blocks f.blocks else inject_blocks r f.blocks))
