-- ===== src/Common/Text.antt =====
-- Texts as JavaScript uses them: `split('-')`, `join('-')`, `parseInt`, `trim`, `startsWith`, and the
-- decimal text of a number inside a template literal.
pub mod Laws
use Prim.Native.Nat.{ℕ, zero, suc, ◌+◌, ◌-◌, ◌*◌, ◌/◌, ◌%◌}
use Prim.Native.Char.{Char, code}
use Prim.Native.String
use Prim.Native.String.{String, [], ◌∷◌}
use mathlib.Core.Bool.{Bool, true, false, ◌&&◌, ◌||◌}
use mathlib.Core.Option.{Option, none, some}
use mathlib.Core.List.{List, [], ◌∷◌}
use text.Mathlib.Text.{◌==◌ as str_eq}
use skorekeeper.Common.Tests.{◌==◌, ltb, leb, if◌then◌else◌}

infixr 65 ◌+++◌
-- `a + b` on texts
abbrev pub ◌+++◌ : String → String → String
a +++ b = String.◌++◌ a b

push_first : Char → List String → List String
push_first c [] = (c ∷ []) ∷ []
push_first c (w ∷ ws) = (c ∷ w) ∷ ws

-- `s.split('-')`
unfoldable pub split_dash : String → List String
unfolding push_first
split_dash [] = "" ∷ []
split_dash (c ∷ s) =
    let rest = split_dash s in if code c == b'-' then "" ∷ rest else push_first c rest

-- `parts.join('-')`
unfoldable pub join_dash : List String → String
join_dash [] = ""
join_dash (w ∷ []) = w
join_dash (w ∷ v ∷ ws) = w +++ "-" +++ join_dash (v ∷ ws)

digit : ℕ → Char
digit zero = "0"
digit (suc zero) = "1"
digit (suc (suc zero)) = "2"
digit (suc (suc (suc zero))) = "3"
digit (suc (suc (suc (suc zero)))) = "4"
digit (suc (suc (suc (suc (suc zero))))) = "5"
digit (suc (suc (suc (suc (suc (suc zero)))))) = "6"
digit (suc (suc (suc (suc (suc (suc (suc zero))))))) = "7"
digit (suc (suc (suc (suc (suc (suc (suc (suc zero)))))))) = "8"
digit n = "9"

-- `${n}`: the fuel is more than the number of digits.
show_digits : ℕ → ℕ → String → String
show_digits zero n acc = acc
show_digits (suc fuel) n acc =
    let more = show_digits fuel (n / 10) (digit (n % 10) ∷ acc) in
    if ltb n 10 then digit n ∷ acc else more

unfoldable pub show_nat : ℕ → String
unfolding show_digits digit
show_nat n = show_digits (suc n) n ""

is_digit : Char → Bool
is_digit c = leb b'0' (code c) && leb (code c) b'9'

-- The number that the leading digits spell, after the value read so far.
digits_value : ℕ → String → ℕ
digits_value v [] = v
digits_value v (c ∷ s) =
    let rest = digits_value (v * 10 + (code c - b'0')) s in if is_digit c then rest else v

-- `parseInt(s)` on a text with no leading blank or sign; `none` is NaN.
unfoldable pub parse_int : String → Option ℕ
unfolding digits_value is_digit
parse_int [] = none
parse_int (c ∷ s) = if is_digit c then some (digits_value 0 (c ∷ s)) else none

-- The white space of `trim`.
is_space : Char → Bool
is_space c =
    (leb 9 (code c) && leb (code c) 13)
    || (code c == 32)
    || (code c == 160)
    || (code c == 0x1680)
    || (leb 0x2000 (code c) && leb (code c) 0x200a)
    || (code c == 0x2028)
    || (code c == 0x2029)
    || (code c == 0x202f)
    || (code c == 0x205f)
    || (code c == 0x3000)
    || (code c == 0xfeff)

-- `s.trim() === ''`
unfoldable pub is_blank : String → Bool
unfolding is_space
is_blank [] = true
is_blank (c ∷ s) = is_space c && is_blank s

-- `s.replace(/[^0-9]/g, '')`
unfoldable pub only_digits : String → String
unfolding is_digit
only_digits [] = []
only_digits (c ∷ s) = let rest = only_digits s in if is_digit c then c ∷ rest else rest

-- `s.startsWith(p)`
unfoldable pub starts_with : String → String → Bool
starts_with s [] = true
starts_with [] (c ∷ p) = false
starts_with (d ∷ s) (c ∷ p) = (code d == code c) && starts_with s p

-- `s.includes(p)` for a text of one character.
unfoldable pub includes_char : String → ℕ → Bool
includes_char [] n = false
includes_char (c ∷ s) n = (code c == n) || includes_char s n

-- `s.includes(p)`
unfoldable pub includes : String → String → Bool
unfolding starts_with
includes [] p = starts_with "" p
includes (c ∷ s) p = starts_with (c ∷ s) p || includes s p

-- `s.endsWith(p)`
unfoldable pub ends_with : String → String → Bool
ends_with [] p = str_eq "" p
ends_with (c ∷ s) p = str_eq (c ∷ s) p || ends_with s p
