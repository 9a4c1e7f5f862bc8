-- ===== src/Common/Text/Laws.antt =====
-- Laws of `split`, `join` and decimal texts, used by event keys and column ids.
use Prim.Native.Char.{Char, code}
use Prim.Native.Nat.{ℕ, zero, suc, ◌+◌, ◌/◌, ◌%◌, ◌<◌}
use Prim.Native.String.{String, [], ◌∷◌}
use mathlib.Core.Path.{◌≡◌, refl, ap, ◌∙◌}
use mathlib.Core.Bool.{true}
use mathlib.Core.Option.{some}
use mathlib.Core.Logic.{◌≢◌, inl, inr}
use mathlib.Core.List.{List, [], ◌∷◌}
use native.Mathlib.Omega.{arith}
use text.Mathlib.TextEquality.{Char-path}
use text.Mathlib.TextLemmas.{nil-append, cons-append}
use skorekeeper.Common.Tests.{◌==◌, ltb, Bool-cases}
use skorekeeper.Common.Text.{
  ◌+++◌, split_dash, join_dash, push_first, digit, show_digits, show_nat, is_digit, digits_value,
  parse_int,
}

abbrev pub NoDash : String → Type 0
NoDash [] = Unit
NoDash (c ∷ s) = (code c ≢ b'-') × NoDash s

code-digit : (n : ℕ) → n < 10 → code (digit n) ≡ n + b'0'
unfolding digit
code-digit zero h = refl
code-digit (suc zero) h = refl
code-digit (suc (suc zero)) h = refl
code-digit (suc (suc (suc zero))) h = refl
code-digit (suc (suc (suc (suc zero)))) h = refl
code-digit (suc (suc (suc (suc (suc zero))))) h = refl
code-digit (suc (suc (suc (suc (suc (suc zero)))))) h = refl
code-digit (suc (suc (suc (suc (suc (suc (suc zero))))))) h = refl
code-digit (suc (suc (suc (suc (suc (suc (suc (suc zero)))))))) h = refl
code-digit (suc (suc (suc (suc (suc (suc (suc (suc (suc zero))))))))) h = refl
code-digit (suc (suc (suc (suc (suc (suc (suc (suc (suc (suc n)))))))))) h = absurd (omega arith)

-- Splitting a text that begins with a part free of dashes, and a dash.
pub split_dash-append : (a s : String) → NoDash a → split_dash (a +++ "-" +++ s) ≡ a ∷ split_dash s
unfolding split_dash
split_dash-append [] s h = rw (nil-append, cons-append, nil-append)
split_dash-append (c ∷ a) s (p, h) = rw (cons-append, split_dash-append a s h) (ground arith)

-- A text with no dash is its only part.
pub split_dash-NoDash : (a : String) → NoDash a → split_dash a ≡ a ∷ []
unfolding split_dash push_first
split_dash-NoDash [] h = refl
split_dash-NoDash (c ∷ a) (p, h) = rw (split_dash-NoDash a h) (ground arith)

NoDash-show_digits : (fuel n : ℕ) (acc : String) → NoDash acc → NoDash (show_digits fuel n acc)
unfolding show_digits
NoDash-show_digits zero n acc h = h
NoDash-show_digits (suc fuel) n acc h = ground (
  arith,
  NoDash-show_digits fuel (n / 10) (digit (n % 10) ∷ acc),
  code-digit n,
  code-digit (n % 10),
)

-- The decimal text of a number has no dash.
pub NoDash-show_nat : (n : ℕ) → NoDash (show_nat n)
unfolding show_nat
NoDash-show_nat n = NoDash-show_digits (suc n) n "" tt

cons-push_first : (c : Char) (ws : List String) → join_dash (push_first c ws) ≡ c ∷ join_dash ws
unfolding join_dash push_first
cons-push_first c [] = refl
cons-push_first c (w ∷ []) = refl
cons-push_first c (w ∷ v ∷ ws) = rw cons-append

join_dash-nil_cons : (ws : List String) → ws ≢ [] → join_dash ("" ∷ ws) ≡ "-" +++ join_dash ws
unfolding join_dash
join_dash-nil_cons [] h = absurd (h refl)
join_dash-nil_cons (w ∷ ws) h = rw nil-append

push_first-ne-nil : (c : Char) (ws : List String) → push_first c ws ≢ []
unfolding push_first
push_first-ne-nil c [] = cc
push_first-ne-nil c (w ∷ ws) = cc

split_dash-ne-nil : (s : String) → split_dash s ≢ []
unfolding split_dash
split_dash-ne-nil [] = cc
split_dash-ne-nil (c ∷ s) = ground (arith, push_first-ne-nil c (split_dash s))

-- Splitting loses nothing.
pub join_dash-split_dash : (s : String) → join_dash (split_dash s) ≡ s
unfolding split_dash
join_dash-split_dash [] = unfold join_dash in refl
join_dash-split_dash (c ∷ s) = elim (Bool-cases (code c == b'-')) [
  | inl dash ↦
      rw
        (
          dash,
          join_dash-nil_cons (split_dash s) (split_dash-ne-nil s),
          join_dash-split_dash s,
          cons-append,
          nil-append,
        )
        (ap (λ d. String.◌∷◌ d s) (Char-path "-" c (ground arith)))
  | inr other ↦ rw (other, cons-push_first, join_dash-split_dash s)
]

digits_value-show_digits :
    (fuel n : ℕ) (acc : String)
    → n < fuel
    → digits_value 0 (show_digits fuel n acc) ≡ digits_value n acc
unfolding digits_value show_digits is_digit
digits_value-show_digits zero n acc h = absurd (omega arith)
digits_value-show_digits (suc fuel) n acc h = elim (Bool-cases (ltb n 10)) [
  | inl small ↦ rw small (ground (arith, code-digit n))
  | inr large ↦ rw large (
      digits_value-show_digits fuel (n / 10) (digit (n % 10) ∷ acc) (ground arith)
      ∙ ground (arith, code-digit (n % 10)))
]

abbrev DigitFirst : String → Type 0
DigitFirst [] = ⊥
DigitFirst (c ∷ s) = is_digit c ≡ true

DigitFirst-show_digits :
    (fuel n : ℕ) (acc : String) → n < fuel → DigitFirst (show_digits fuel n acc)
unfolding show_digits is_digit
DigitFirst-show_digits zero n acc h = absurd (omega arith)
DigitFirst-show_digits (suc fuel) n acc h = elim (Bool-cases (ltb n 10)) [
  | inl small ↦ rw small (ground (arith, code-digit n))
  | inr large ↦
      rw large (DigitFirst-show_digits fuel (n / 10) (digit (n % 10) ∷ acc) (ground arith))
]

parse_int_first : (s : String) → DigitFirst s → parse_int s ≡ some (digits_value 0 s)
unfolding parse_int
parse_int_first [] h = absurd h
parse_int_first (c ∷ s) h = rw h

-- `parseInt` reads back the decimal text of a number.
pub parse_int-show_nat : (n : ℕ) → parse_int (show_nat n) ≡ some n
unfolding show_nat
parse_int-show_nat n =
    parse_int_first (show_digits (suc n) n "") (DigitFirst-show_digits (suc n) n "" (omega arith))
    ∙ ap some (digits_value-show_digits (suc n) n "" (omega arith) ∙ unfold digits_value in refl)
