-- ===== src/FileMap.antt =====
-- LLVM/LibcCallGraphUtils.h, `FileToMapReader`: the map from a function's name to its number.
pub mod RoundTrip
use e0256_project_final.Base.{
  ℕ, Bool, true, false, List, [], ◌∷◌, Option, none, some, ◌==◌, if◌then◌else◌, ◌++◌, ◌||◌,
}
use e0256_project_final.Base.Int.{ℤ, negsuc}
use e0256_project_final.Base.Text.{Text, codes}
use e0256_project_final.Base.Decimal.{stoi}
use e0256_project_final.Base.TextMap.{TextMap, find, assign}

-- `std::map<std::string, int>`.
abbrev pub StringMap : Type 0
StringMap = TextMap ℤ

pub record Reader : Type 0 where
  pub string_map : StringMap
  pub loaded : Bool

unfoldable pub is_loaded : Reader → Bool
is_loaded r = r.loaded

-- The parts of a line before and behind its first colon.
unfoldable pub split_colon : Text → Option (Text × Text)
split_colon [] = none
split_colon (c ∷ cs) =
    if c == b':'
    then some ([], cs)
    else elim (split_colon cs) [ none ↦ none | some (before, behind) ↦ some (c ∷ before, behind) ]

-- One round of the loop: a line with no colon is reported and passed over, and `none` is the
-- exception of `std::stoi`.
unfoldable pub read_line : StringMap → Text → Option StringMap
unfolding split_colon
read_line m text = elim (split_colon text) [
  | none ↦ some m
  | some (before, behind) ↦ elim (stoi before) [
    | none ↦ none
    | some value ↦ some (assign behind value m)
  ]
]

unfoldable pub read_lines : StringMap → List Text → Option StringMap
unfolding read_line
read_lines m [] = some m
read_lines m (l ∷ ls) = elim (read_line m l) [ none ↦ none | some m' ↦ read_lines m' ls ]

-- The result of `readFileToMap` and the reader after it; `none` is the exception. The file is the
-- list of its lines, if it opens.
unfoldable pub read_file_to_map : Option (List Text) → Reader → Option (Bool × Reader)
unfolding read_lines
read_file_to_map none r = some (false, record r { loaded = false })
read_file_to_map (some file) r = elim (read_lines r.string_map file) [
  | none ↦ none
  | some m ↦ some (true, record { string_map = m; loaded = true })
]

unfoldable pub is_string_in_map : Text → Reader → Bool
is_string_in_map s r =
    if r.loaded then elim (find s r.string_map) [ none ↦ false | some _ ↦ true ] else false

unfoldable pub get_value_from_map : Text → Reader → ℤ
get_value_from_map s r = elim (find s r.string_map) [ none ↦ negsuc 0 | some v ↦ v ]

-- What the pass reads of the function that a call instruction names.
pub record Callee : Type 0 where
  pub name : Text
  pub is_intrinsic : Bool
  pub is_declaration : Bool

-- An instruction of a basic block: a call, whose callee may not be known, or another one.
pub data Instruction : Type 0 where
  call : Option Callee → Instruction
  other : Instruction

unfoldable pub call_label : Reader → Callee → Text
unfolding is_string_in_map
call_label r f =
    if is_string_in_map f.name r
    then codes "libc:" ++ f.name
    else if f.is_intrinsic
    then codes "llvm:" ++ f.name
    else if f.is_declaration
    then codes "decl:" ++ f.name
    else codes "user:" ++ f.name

unfoldable pub get_library_calls : Reader → List Instruction → List Text
unfolding call_label
get_library_calls r [] = []
get_library_calls r (call none ∷ rest) = get_library_calls r rest
get_library_calls r (call (some f) ∷ rest) = call_label r f ∷ get_library_calls r rest
get_library_calls r (other ∷ rest) = get_library_calls r rest
