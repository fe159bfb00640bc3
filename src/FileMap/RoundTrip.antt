-- ===== src/FileMap/RoundTrip.antt =====
-- The listing that LibcListGen writes, read by `FileToMapReader`.
use e0256_project_final.Base.{
  ℕ, zero, suc, ◌+◌, ◌≤◌, ◌<◌, ◌^◌, ◌≡◌, refl, ◌∙◌, Bool, true, false, List, [], ◌∷◌, ◌++◌, Option,
  none, some, arith, ◌==◌, if◌then◌else◌, Option-cases, inl, inr,
}
use e0256_project_final.Base.Int.{ℤ, pos, negsuc}
use e0256_project_final.Base.Text.{Text, text_eq}
use e0256_project_final.Base.Decimal.{decimal, AllDigits, decimal-AllDigits, stoi-decimal}
use e0256_project_final.LibcListGen.{Symbol, stt_func, line, symbol_lines, dump}
use e0256_project_final.FileMap.{
  StringMap, Reader, split_colon, read_line, read_lines, read_file_to_map, get_value_from_map,
}
use e0256_project_final.Base.TextMap.{find, assign, find-assign}

split_digits : (ds name : Text) → AllDigits ds → split_colon (ds ++ b':' ∷ name) ≡ some (ds, name)
unfolding split_colon
split_digits [] name h = refl
split_digits (d ∷ ds) name h = ground (arith, split_digits ds name)

read_line-line :
    (m : StringMap) (i : ℕ) (name : Text)
    → i < 2 ^ 31
    → read_line m (line i name) ≡ some (assign name (pos i) m)
unfolding read_line line
read_line-line m i name h =
    ground (arith, split_digits (decimal i) name (decimal-AllDigits i), stoi-decimal i h)

-- The map after the line of a symbol.
abbrev listed : ℕ → Symbol → StringMap → StringMap
listed i sym m =
    if sym.type == stt_func
    then elim sym.name [ none ↦ m | some name ↦ assign name (pos i) m ]
    else m

read_none : (m : StringMap) → read_lines m [] ≡ some m
unfolding read_lines
read_none m = refl

read_symbol :
    (m : StringMap) (i : ℕ) (sym : Symbol) (rest : List Text)
    → i < 2 ^ 31
    → read_lines m (symbol_lines i sym ++ rest) ≡ read_lines (listed i sym m) rest
unfolding symbol_lines read_lines
read_symbol m i sym rest h = elim (Option-cases sym.name) [
  | inl none_there ↦ ground arith
  | inr (name, e) ↦ ground (arith, read_line-line m i name h)
]

-- Whether a symbol is a function of this name.
unfoldable pub is_named : Text → Symbol → Bool
is_named s sym =
    if sym.type == stt_func
    then elim sym.name [ none ↦ false | some name ↦ text_eq name s ]
    else false

-- The last of `k` symbols from index `i` that is a function of this name.
unfoldable pub last_named : Text → (ℕ → Symbol) → ℕ → ℕ → Option ℕ
last_named s symbols zero i = none
last_named s symbols (suc k) i = elim (last_named s symbols k (suc i)) [
  | some n ↦ some n
  | none ↦ if is_named s (symbols i) then some i else none
]

abbrev or_else : Option ℕ → Option ℤ → Option ℤ
or_else none v = v
or_else (some n) v = some (pos n)

find-listed :
    (s : Text) (i : ℕ) (sym : Symbol) (m : StringMap)
    → find s (listed i sym m) ≡ (if is_named s sym then some (pos i) else find s m)
unfolding is_named
find-listed s i sym m = elim (Option-cases sym.name) [
  | inl none_there ↦ ground arith
  | inr (name, e) ↦ ground (arith, find-assign name s (pos i) m)
]

read-dump :
    (symbols : ℕ → Symbol) (k i : ℕ) (m : StringMap)
    → i + k ≤ 2 ^ 31
    → (m' : StringMap) × (read_lines m (dump symbols k i) ≡ some m')
      × ((s : Text) → find s m' ≡ or_else (last_named s symbols k i) (find s m))
unfolding dump last_named
read-dump symbols zero i m h = (m, read_none m, λ s. refl)
read-dump symbols (suc k) i m h =
    let (m', reads, finds) = read-dump symbols k (suc i) (listed i (symbols i) m) (omega arith) in
    (
      m',
      read_symbol m i (symbols i) (dump symbols k (suc i)) (omega arith) ∙ reads,
      λ s. ground (
        arith,
        finds s,
        find-listed s i (symbols i) m,
        Option-cases (last_named s symbols k (suc i)),
      ),
    )

-- The reader of the listing of `k` symbols, 2 ^ 31 at most, reads all of its lines and gives each
-- name the index of the last function symbol with that name, and -1 to a name that no function has.
pub listing_reads_back :
    (symbols : ℕ → Symbol) (k : ℕ)
    → k ≤ 2 ^ 31
    → (r : Reader) × (read_file_to_map
          (some (dump symbols k 0))
          (record { string_map = []; loaded = false })
        ≡ some (true, r))
      × (r.loaded ≡ true)
      × ((s : Text)
          → get_value_from_map s r
            ≡ (elim (last_named s symbols k 0) [ none ↦ negsuc 0 | some n ↦ pos n ]))
unfolding read_file_to_map get_value_from_map find
listing_reads_back symbols k h =
    let (m, reads, finds) = read-dump symbols k 0 [] (omega arith) in
    (
      record { string_map = m; loaded = true },
      ground arith,
      refl,
      λ s. ground (arith, finds s, Option-cases (last_named s symbols k 0)),
    )
