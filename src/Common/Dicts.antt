-- ===== src/Common/Dicts.antt =====
-- A JavaScript object used as a dictionary: an association list in the order of insertion, which is
-- the order of `Object.keys`. An assignment to a key that is present keeps the key's place.
use Prim.Native.String.{String}
use mathlib.Core.Path.{◌≡◌, refl, subst}
use mathlib.Core.Logic.{inl, inr}
use mathlib.Core.List.{List, [], ◌∷◌}
use mathlib.Core.Option.{Option, none, some}
use native.Mathlib.Omega.{arith}
use text.Mathlib.Text.{◌==◌ as str_eq}
use text.Mathlib.TextEquality.{eq_iff}
use skorekeeper.Common.Tests.{if◌then◌else◌, Bool-cases}
use skorekeeper.Common.Lists.{All}

abbrev pub Dict {ℓ} : Type ℓ → Type ℓ
Dict V = List (String × V)

module _ {ℓ} {V : Type ℓ} where
  -- `obj[key]`
  unfoldable pub lookup : String → Dict V → Option V
  lookup k [] = none
  lookup k ((j, v) ∷ m) = if str_eq j k then some v else lookup k m

  -- `obj[key] = v`
  unfoldable pub insert : String → V → Dict V → Dict V
  insert k v [] = (k, v) ∷ []
  insert k v ((j, w) ∷ m) = if str_eq j k then (j, v) ∷ m else (j, w) ∷ insert k v m

  -- `delete obj[key]`
  unfoldable pub erase : String → Dict V → Dict V
  erase k [] = []
  erase k ((j, w) ∷ m) = if str_eq j k then erase k m else (j, w) ∷ erase k m

  pub lookup-insert :
      (key other : String) (value : V) (entries : Dict V)
      → lookup other (insert key value entries)
        ≡ (if str_eq key other then some value else lookup other entries)
  unfolding lookup insert
  lookup-insert key other value [] = refl
  lookup-insert key other value ((first, w) ∷ entries) =
      let rest = lookup-insert key other value entries in
      ground (arith, rest, eq_iff first key, eq_iff first other, eq_iff key other)

  pub lookup-erase :
      (k j : String) (m : Dict V) → lookup j (erase k m) ≡ (if str_eq k j then none else lookup j m)
  unfolding lookup erase
  lookup-erase k j [] = ground arith
  lookup-erase k j ((i, w) ∷ m) =
      ground (arith, eq_iff k j, eq_iff i k, eq_iff i j, lookup-erase k j m)

-- Every value of a dictionary.
abbrev pub AllValues {ℓ κ} : {V : Type ℓ} → (V → Type κ) → Dict V → Type κ
AllValues P = All (λ b. P b.1)

module _ {ℓ κ} {V : Type ℓ} (P : V → Type κ) where
  pub AllValues-insert :
      (k : String) (v : V) (m : Dict V) → AllValues P m → P v → AllValues P (insert k v m)
  unfolding insert
  AllValues-insert k v [] h p = (p, tt)
  AllValues-insert k v ((j, w) ∷ m) (q, h) p = ground (arith, AllValues-insert k v m h p)

  pub AllValues-erase : (k : String) (m : Dict V) → AllValues P m → AllValues P (erase k m)
  unfolding erase
  AllValues-erase k [] h = h
  AllValues-erase k ((j, w) ∷ m) (q, h) = ground (arith, AllValues-erase k m h)

  pub AllValues-lookup :
      (k : String) (m : Dict V) {v : V} → AllValues P m → lookup k m ≡ some v → P v
  unfolding lookup
  AllValues-lookup k [] h e = cc
  AllValues-lookup k ((j, w) ∷ m) {v} (q, h) e = elim (Bool-cases (str_eq j k)) [
    | inl same ↦ let found : w ≡ v = ground arith in subst P found q
    | inr other ↦ AllValues-lookup k m h (rw other at e)
  ]
