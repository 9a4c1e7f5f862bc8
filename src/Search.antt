-- ===== src/Search.antt =====
-- Search queries: frontend/utils/searchParser.js.
pub mod Words
pub mod Splits
pub mod Filters
pub mod Queries
use skorekeeper.Common.{
  ℕ, String, Bool, true, false, ◌&&◌, ◌||◌, not, List, [], ◌∷◌, ◌++◌, map, Option, none, some,
  str_eq, ◌==◌, if◌then◌else◌,
}
use skorekeeper.Common.Text.{◌+++◌, starts_with, includes, includes_char}
use Prim.Native.Char.{Char, code}
use Prim.Native.String.{[], ◌∷◌}

pub data Operator : Type 0 where
  is within at_least at_most above below : Operator

pub record Filter : Type 0 where
  pub key : String
  pub value : String
  pub operator : Operator
  pub max_value : String

pub record Query : Type 0 where
  pub tokens : List String
  pub filters : List Filter

abbrev pub is_quote : Char → Bool
is_quote c = (code c == b'"') || (code c == 39)

-- The quote that is open after a character; none is `!inQuote`.
abbrev pub next_quote : Char → Option ℕ → Option ℕ
next_quote c none = if is_quote c then some (code c) else none
next_quote c (some q) = if code c == q then none else some q

abbrev pub is_split : Char → Option ℕ → Bool
is_split c none = code c == b' '
is_split c (some q) = false

abbrev pub add_token : String → List String → List String
add_token token tokens = if str_eq token "" then tokens else token ∷ tokens

unfoldable pub tokenize_from : String → String → Option ℕ → List String
tokenize_from [] current quote = add_token current []
tokenize_from (c ∷ s) current quote =
    let splits = is_split c quote in
    let rest = tokenize_from s (if splits then "" else current +++ (c ∷ [])) (next_quote c quote) in
    if splits then add_token current rest else rest

unfoldable pub tokenize : String → List String
unfolding tokenize_from
tokenize input = tokenize_from input "" none

-- `s[s.length - 1]`, after a first character.
abbrev pub last_char : Char → String → Char
last_char c [] = c
last_char c (d ∷ s) = last_char d s

abbrev pub trim_last : String → String
trim_last [] = []
trim_last (c ∷ []) = []
trim_last (c ∷ d ∷ s) = c ∷ trim_last (d ∷ s)

unfoldable pub remove_quotes : String → String
remove_quotes [] = []
remove_quotes (c ∷ []) = c ∷ []
remove_quotes (c ∷ d ∷ s) =
    if is_quote c && (code (last_char d s) == code c) then trim_last (d ∷ s) else c ∷ d ∷ s

unfoldable pub quote_if_need : String → String
quote_if_need s = if includes_char s b' ' then "\"" +++ s +++ "\"" else s

-- `token.split(':')[0]`, and the rest joined again; none without a colon.
unfoldable pub before_colon : String → String
before_colon [] = []
before_colon (c ∷ s) = let rest = before_colon s in if code c == b':' then [] else c ∷ rest

unfoldable pub after_colon : String → Option String
after_colon [] = none
after_colon (c ∷ s) = let rest = after_colon s in if code c == b':' then some s else rest

-- `value.split('..')[0]`, and what follows the first '..'.
unfoldable pub before_dots : String → String
unfolding starts_with
before_dots [] = []
before_dots (c ∷ s) = let rest = before_dots s in if starts_with (c ∷ s) ".." then [] else c ∷ rest

abbrev pub drop_two : String → String
drop_two [] = []
drop_two (c ∷ []) = []
drop_two (c ∷ d ∷ s) = s

abbrev pub drop_one : String → String
drop_one [] = []
drop_one (c ∷ s) = s

unfoldable pub after_dots : String → String
unfolding starts_with
after_dots [] = []
after_dots (c ∷ s) =
    let rest = after_dots s in if starts_with (c ∷ s) ".." then drop_two (c ∷ s) else rest

abbrev pub filter_of : String → String → Operator → String → Filter
filter_of key value operator max_value = record {
  key = key;
  value = remove_quotes value;
  operator = operator;
  max_value = remove_quotes max_value;
}

-- The value and the operator.
unfoldable pub parse_value : String → String → Filter
unfolding remove_quotes before_dots after_dots
parse_value key raw =
    if includes raw ".."
    then filter_of key (before_dots raw) within (before_dots (after_dots raw))
    else if starts_with raw ">="
    then filter_of key (drop_two raw) at_least ""
    else if starts_with raw "<="
    then filter_of key (drop_two raw) at_most ""
    else if starts_with raw ">"
    then filter_of key (drop_one raw) above ""
    else if starts_with raw "<"
    then filter_of key (drop_one raw) below ""
    else filter_of key raw is ""

abbrev pub add_free_text : String → Query → Query
add_free_text token q = record q { tokens = q.tokens ++ remove_quotes token ∷ [] }

-- `toLowerCase` is a parameter.
module _ (to_lower_case : String → String) where
  unfoldable pub parse_token : String → Query → Query
  unfolding parse_value before_colon after_colon remove_quotes
  parse_token token q = elim (after_colon token) [
    | none ↦ add_free_text token q
    | some raw ↦
        let key = to_lower_case (before_colon token) in
        if str_eq (before_colon token) "" || str_eq key "" || str_eq raw ""
        then add_free_text token q
        else record q { filters = q.filters ++ parse_value key raw ∷ [] }
  ]

  unfoldable pub parse_tokens : List String → Query → Query
  unfolding parse_token
  parse_tokens [] q = q
  parse_tokens (token ∷ tokens) q = parse_tokens tokens (parse_token token q)

  unfoldable pub parse_query : String → Query
  unfolding parse_tokens tokenize
  parse_query text =
      if str_eq text ""
      then record { tokens = []; filters = [] }
      else parse_tokens (tokenize text) (record { tokens = []; filters = [] })

abbrev pub value_text : Filter → String
value_text f = elim f.operator [
  | within ↦ quote_if_need f.value +++ ".." +++ quote_if_need f.max_value
  | is ↦ quote_if_need f.value
  | at_least ↦ ">=" +++ quote_if_need f.value
  | at_most ↦ "<=" +++ quote_if_need f.value
  | above ↦ ">" +++ quote_if_need f.value
  | below ↦ "<" +++ quote_if_need f.value
]

abbrev pub filter_text : Filter → String
filter_text f = f.key +++ ":" +++ value_text f

-- `parts.join(' ')`
unfoldable pub join_spaces : List String → String
join_spaces [] = ""
join_spaces (w ∷ []) = w
join_spaces (w ∷ v ∷ ws) = w +++ " " +++ join_spaces (v ∷ ws)

unfoldable pub build_query : Query → String
unfolding join_spaces quote_if_need
build_query q = join_spaces (map filter_text q.filters ++ map quote_if_need q.tokens)
