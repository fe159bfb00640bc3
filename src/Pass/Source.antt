-- ===== src/Pass/Source.antt =====
-- What the pass reads of an LLVM module, and the data that it keeps for a function.
use e0256_project_final.Base.{ℕ, Bool, List, [], ◌++◌, ◌≡◌}
use e0256_project_final.Base.Text.{Text, codes}
use e0256_project_final.Base.TextMap.{TextMap}
use e0256_project_final.FileMap.{Instruction}
use e0256_project_final.Graaf.{Graaf}
use e0256_project_final.GraphLib.{LibcCallgraph, new_graph}

-- A basic block: what `printAsOperand` prints for it, its instructions in order, the indices of its
-- successors, and whether it has no predecessor and ends in a return.
pub record BasicBlock : Type 0 where
  pub operand : Text
  pub instructions : List Instruction
  pub successors : List ℕ
  pub no_predecessors : Bool
  pub returns : Bool

pub record Function : Type 0 where
  pub name : Text
  pub is_declaration : Bool
  pub blocks : List BasicBlock

-- `nameBasicBlocks`: the name that a block is given.
unfoldable pub block_name : Text → BasicBlock → Text
block_name func b = codes "[" ++ func ++ codes "]" ++ b.operand

-- How a phase ends: with a result, with an exception or an access that C++ leaves undefined, or not
-- within the fuel.
pub data Ending (A : Type 0) : Type 0 where
  result : A → Ending A
  exception : Ending A
  out_of_fuel : Ending A

pub result_inj : {A : Type 0} {x y : A} → result x ≡ result y → x ≡ y
result_inj e = cc

module _ (library : Graaf) where
  -- `struct funcBBGraphMeta`.
  pub record FuncMeta : Type 0 where
    pub func_name : Text
    pub entry_node : Text
    pub exit_node : Text
    pub bb_to_libc_map : TextMap (List Text)
    pub bb_graph : LibcCallgraph library
    pub bb_expanded_graph : LibcCallgraph library
    pub libc_call_graph : LibcCallgraph library

  unfoldable pub new_meta : FuncMeta
  unfolding new_graph
  new_meta = record {
    func_name = [];
    entry_node = [];
    exit_node = [];
    bb_to_libc_map = [];
    bb_graph = new_graph library;
    bb_expanded_graph = new_graph library;
    libc_call_graph = new_graph library;
  }
