-- ===== src/Cycle.antt =====
-- A button that goes through its options: `options[(options.indexOf(x) + 1) % options.length]`.
use skorekeeper.Common.{
  ℕ, zero, suc, ◌%◌, Bool, List, [], ◌∷◌, Option, none, some, get_elem?, length, if◌then◌else◌, ◌≡◌,
  All, some_inj, subst,
}

module _ {ℓ} {A : Type ℓ} where
  -- `indexOf(x) + 1`, where the test tells `x` from the others: 0 if it is not there.
  unfoldable pub position_after : (A → Bool) → List A → ℕ
  position_after is_it [] = 0
  position_after is_it (x ∷ xs) =
      if is_it x then 1 else elim (position_after is_it xs) [ zero ↦ 0 | suc n ↦ suc (suc n) ]

  -- `none` where there are no options.
  unfoldable pub next_option : (A → Bool) → List A → Option A
  unfolding position_after
  next_option is_it [] = none
  next_option is_it (x ∷ xs) = get_elem? (x ∷ xs) (position_after is_it (x ∷ xs) % length (x ∷ xs))

get_elem?-All {ℓ κ} :
    {A : Type ℓ} (P : A → Type κ) (xs : List A) (i : ℕ) (y : A)
    → All P xs
    → get_elem? xs i ≡ some y
    → P y
get_elem?-All P [] i y h e = absurd cc
get_elem?-All P (x ∷ xs) zero y (p, h) e = subst P (some_inj x y e) p
get_elem?-All P (x ∷ xs) (suc i) y (p, h) e = get_elem?-All P xs i y h e

-- What all options have, the next one has.
pub next_option-All {ℓ κ} :
    {A : Type ℓ} (P : A → Type κ) (is_it : A → Bool) (options : List A) (y : A)
    → All P options
    → next_option is_it options ≡ some y
    → P y
unfolding next_option
next_option-All P is_it [] y h e = absurd cc
next_option-All P is_it (x ∷ xs) y h e = get_elem?-All P (x ∷ xs) _ y h e
