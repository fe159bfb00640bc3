-- ===== src/LibcListGen.antt =====
-- LibcListGen/LibcFuncDump.cpp: the listing of a shared library's functions. What libelf and the
-- file system answer is a parameter, a record of their answers.
use Prim.Native.Nat.{zero, suc}
use e0256_project_final.Base.{
  ℕ, ◌/◌, Bool, List, [], ◌∷◌, ◌++◌, Option, none, some, ◌==◌, ◌||◌, if◌then◌else◌,
}
use e0256_project_final.Base.Int.{ℤ, pos, negsuc, int_of_word}
use e0256_project_final.Base.Text.{Text}
use e0256_project_final.Base.Decimal.{decimal}

-- The type of a symbol is `GELF_ST_TYPE(sym.st_info)`; its name is what `elf_strptr` finds.
pub record Symbol : Type 0 where
  pub type : ℕ
  pub name : Option Text

pub record Section : Type 0 where
  pub sh_type : ℕ
  pub sh_size : ℕ
  pub sh_entsize : ℕ
  -- `elf_getdata` and `gelf_getsym` on the section.
  pub symbols : Option (ℕ → Symbol)

pub record Elf : Type 0 where
  pub version_known : Bool
  pub opened : Bool
  pub begun : Bool
  pub sections : List Section
  pub output_opened : Bool

abbrev pub sht_symtab : ℕ
sht_symtab = 2

abbrev pub sht_dynsym : ℕ
sht_dynsym = 11

abbrev pub stt_func : ℕ
stt_func = 2

-- The first section that is a symbol table.
unfoldable pub find_table : List Section → Option Section
find_table [] = none
find_table (s ∷ rest) =
    if (s.sh_type == sht_symtab) || (s.sh_type == sht_dynsym) then some s else find_table rest

-- `outFile << i << ":" << name << std::endl`, as the line that is written.
unfoldable pub line : ℕ → Text → Text
line i name = decimal i ++ b':' ∷ name

-- What is written for the symbol of index `i`.
unfoldable pub symbol_lines : ℕ → Symbol → List Text
unfolding line
symbol_lines i sym =
    if sym.type == stt_func then elim sym.name [ none ↦ [] | some name ↦ line i name ∷ [] ] else []

-- The loop from index `i`, with `k` rounds left.
unfoldable pub dump : (ℕ → Symbol) → ℕ → ℕ → List Text
unfolding symbol_lines
dump symbols zero i = []
dump symbols (suc k) i = symbol_lines i (symbols i) ++ dump symbols k (suc i)

-- The rounds that an `int` count gives.
abbrev pub rounds : ℤ → ℕ
rounds (pos n) = n
rounds (negsuc n) = 0

-- What becomes of the output file.
pub data Listing : Type 0 where
  untouched : Listing
  written : List Text → Listing
  -- A division by an entry size of 0.
  crashed : Listing

unfoldable pub dump_table : Section → (ℕ → Symbol) → Listing
unfolding dump int_of_word
dump_table table symbols =
    if table.sh_entsize == 0
    then crashed
    else written (dump symbols (rounds (int_of_word (table.sh_size / table.sh_entsize))) 0)

unfoldable pub list_table : Bool → Section → Listing
unfolding dump_table
list_table output_opened table = elim table.symbols [
  | none ↦ untouched
  | some symbols ↦ if output_opened then dump_table table symbols else untouched
]

unfoldable pub extract_function_names : Elf → Listing
unfolding find_table list_table
extract_function_names elf =
    if elf.version_known
    then (if elf.opened
        then (if elf.begun
            then elim (find_table elf.sections) [
              | none ↦ untouched
              | some table ↦ list_table elf.output_opened table
            ]
            else untouched)
        else untouched)
    else untouched

-- The exit code of the program, and what becomes of the output file.
unfoldable pub main : ℕ → Elf → ℕ × Listing
unfolding extract_function_names
main argc elf = if argc == 3 then (0, extract_function_names elf) else (1, untouched)
