-- ===== src/Pass/Run/Changed.antt =====
-- The answer of `runOnModule`, `InsertedAtLeastOnePrintf`, and the injected calls.
use e0256_project_final.Base.{false, List, [], ◌∷◌, ◌++◌, ◌≡◌, refl, ap, arith, map}
use e0256_project_final.FileMap.{Reader, Instruction}
use e0256_project_final.Pass.Source.{BasicBlock, Function}
use e0256_project_final.Pass.Blocks.{is_skipped}
use e0256_project_final.Pass.Inject.{
  Injected, original, before, inject_block, inject_blocks, keep_blocks,
}
use e0256_project_final.Pass.Run.{inserts_in, inserts_blocks, inserts_any}

-- The head of a block with an instruction before which the pass puts these calls.
head_unchanged :
    (calls : List Injected) (i : Instruction) (r : Reader) (is : List Instruction)
    → before r i ≡ calls
    → inserts_in r (i ∷ is) ≡ false
    → (calls ≡ []) × (inserts_in r is ≡ false)
unfolding inserts_in
head_unchanged [] i r is e h = (refl, ground (arith, e))
head_unchanged (c ∷ cs) i r is e h = absurd (ground (arith, e))

-- A block for which the answer is `false` is left as it is.
block_unchanged :
    (r : Reader) (is : List Instruction)
    → inserts_in r is ≡ false
    → inject_block r is ≡ map original is
unfolding inject_block
block_unchanged r [] h = refl
block_unchanged r (i ∷ is) h =
    let (none_before, later) = head_unchanged (before r i) i r is refl h in
    rw (inject_block, none_before) (ap (λ xs. original i ∷ xs) (block_unchanged r is later))

blocks_unchanged :
    (r : Reader) (bs : List BasicBlock)
    → inserts_blocks r bs ≡ false
    → inject_blocks r bs ≡ keep_blocks bs
unfolding inserts_blocks inject_blocks keep_blocks
blocks_unchanged r [] h = refl
blocks_unchanged r (b ∷ bs) h =
    ground (arith, block_unchanged r b.instructions, blocks_unchanged r bs)

-- Where the answer is `false`, the loop over the functions has put no call into a block of a
-- function that it does not pass over.
pub unchanged :
    (r : Reader) (before_it after_it : List Function) (f : Function)
    → inserts_any r (before_it ++ f ∷ after_it) ≡ false
    → is_skipped f ≡ false
    → inject_blocks r f.blocks ≡ keep_blocks f.blocks
unfolding inserts_any
unchanged r [] fs f h own = blocks_unchanged r f.blocks (ground (arith, own))
unchanged r (f' ∷ fs') fs f h own = unchanged r fs' fs f (ground arith) own
