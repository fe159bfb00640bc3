-- ===== src/Base/TextMap.antt =====
-- `std::map` and `std::unordered_map` with texts for keys: one entry for a key.
use Prim.Native.Nat.{suc, ◌≤◌}
use mathlib.Core.Path.{◌≡◌, refl}
use mathlib.Core.List.{List, [], ◌∷◌}
use mathlib.Core.Option.{Option, none, some}
use native.Mathlib.Omega.{arith}
use e0256_project_final.Base.Tests.{if◌then◌else◌}
use e0256_project_final.Base.Lists.{length}
use e0256_project_final.Base.Text.{Text, text_eq, text_lt, text_eq_iff}

abbrev pub TextMap {ℓ} : Type ℓ → Type ℓ
TextMap V = List (Text × V)

module _ {ℓ} {V : Type ℓ} where
  -- `m.find(k)`, where `none` is `m.end()`.
  unfoldable pub find : Text → TextMap V → Option V
  find k [] = none
  find k ((j, v) ∷ m) = if text_eq j k then some v else find k m

  -- `m[k] = v`.
  unfoldable pub assign : Text → V → TextMap V → TextMap V
  assign k v [] = (k, v) ∷ []
  assign k v ((j, w) ∷ m) = if text_eq j k then (k, v) ∷ m else (j, w) ∷ assign k v m

  -- `m[k] = v` on a `std::map` whose order is looked at: the keys stay in their order.
  unfoldable pub put : Text → V → TextMap V → TextMap V
  put k v [] = (k, v) ∷ []
  put k v ((j, w) ∷ m) =
      let rest = put k v m in
      if text_eq j k then (k, v) ∷ m else if text_lt k j then (k, v) ∷ (j, w) ∷ m else (j, w) ∷ rest

  -- `m.erase(k)`.
  unfoldable pub erase : Text → TextMap V → TextMap V
  erase k [] = []
  erase k ((j, w) ∷ m) = if text_eq j k then erase k m else (j, w) ∷ erase k m

  -- After an assignment a key reads the value that was assigned to it, and any other key as before.
  pub find-assign :
      (k j : Text) (v : V) (m : TextMap V)
      → find j (assign k v m) ≡ (if text_eq k j then some v else find j m)
  unfolding find assign
  find-assign k j v [] = refl
  find-assign k j v ((i, w) ∷ m) =
      ground (arith, text_eq_iff k j, text_eq_iff i k, text_eq_iff i j, find-assign k j v m)

  -- So too in the ordered map.
  pub find-put :
      (k j : Text) (v : V) (m : TextMap V)
      → find j (put k v m) ≡ (if text_eq k j then some v else find j m)
  unfolding find put
  find-put k j v [] = refl
  find-put k j v ((i, w) ∷ m) =
      ground (arith, text_eq_iff k j, text_eq_iff i k, text_eq_iff i j, find-put k j v m)

  -- After an erasure its key is gone, and any other key reads as before.
  pub find-erase :
      (k j : Text) (m : TextMap V) → find j (erase k m) ≡ (if text_eq k j then none else find j m)
  unfolding find erase
  find-erase k j [] = ground arith
  find-erase k j ((i, w) ∷ m) =
      ground (arith, text_eq_iff k j, text_eq_iff i k, text_eq_iff i j, find-erase k j m)

  pub length-erase : (k : Text) (m : TextMap V) → length (erase k m) ≤ length m
  unfolding erase
  length-erase k [] = omega arith
  length-erase k ((i, w) ∷ m) = ground (arith, length-erase k m)

  -- The erasure of a key that is there shortens the map.
  pub length-erase_found :
      (k : Text) (v : V) (m : TextMap V) → find k m ≡ some v → suc (length (erase k m)) ≤ length m
  unfolding find erase
  length-erase_found k v [] h = cc
  length-erase_found k v ((i, w) ∷ m) h = ground (arith, length-erase k m, length-erase_found k v m)
