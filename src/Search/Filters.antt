-- ===== src/Search/Filters.antt =====
-- Filters of a query that are written and read back (frontend/utils/searchParser.js).
use skorekeeper.Common.{
  String, Bool, false, [], ◌∷◌, str_eq, str_eq_ne, if◌then◌else◌, ◌≡◌, refl, sym, ap, ◌∙◌, arith,
}
use skorekeeper.Common.Text.{◌+++◌, starts_with, includes}
use Prim.Native.Char.{Char}
use Prim.Native.String.{[], ◌∷◌}
use text.Mathlib.TextLemmas.{cons-append, cons≢nil}
use skorekeeper.Search.{
  Operator, is, within, at_least, at_most, above, below, Filter, filter_of, parse_value, value_text,
  remove_quotes, quote_if_need, before_dots, after_dots, drop_two,
}
use skorekeeper.Search.Splits.{
  one, two, includes_plain, before_dots_plain, before_dots_lem, after_dots_lem, includes_dots,
}
use skorekeeper.Search.Words.{is_plain, IsPlain, remove_quotes_plain, quote_if_need_plain}

-- A value without a sign in front is taken as it is.
no_sign_plain :
    (v p : String) (d : Char) → IsPlain v → is_plain d ≡ false → starts_with v (d ∷ p) ≡ false
unfolding starts_with
no_sign_plain [] p d h e = refl
no_sign_plain (c ∷ v) p d h e = ground arith

parse_value_is : (key v : String) → IsPlain v → parse_value key v ≡ filter_of key v is ""
unfolding parse_value
parse_value_is key v h =
    rw
      (
        includes_plain v h,
        parse_value,
        no_sign_plain v "=" ">" h refl,
        no_sign_plain v "=" "<" h refl,
        no_sign_plain v "" ">" h refl,
        no_sign_plain v "" "<" h refl,
      )
      refl

parse_value_within :
    (key v m : String)
    → IsPlain v
    → IsPlain m
    → parse_value key (v +++ ".." +++ m) ≡ filter_of key v within m
unfolding parse_value
parse_value_within key v m h k =
    rw
      (
        includes_dots v m,
        parse_value,
        before_dots_lem v m h,
        after_dots_lem v m h,
        before_dots_plain m k,
      )
      refl

-- The first test of `parse_value`, on a value that follows its sign.
abbrev range_or : String → String → Filter → Bool → Filter
range_or key raw other b =
    if b then filter_of key (before_dots raw) within (before_dots (after_dots raw)) else other

parse_value_two :
    (key v : String)
    → IsPlain v
    → (parse_value key (">=" +++ v) ≡ filter_of key v at_least "")
      × (parse_value key ("<=" +++ v) ≡ filter_of key v at_most "")
unfolding parse_value includes starts_with
parse_value_two key v h = (
  ap (parse_value key) (two ">" "=" v)
      ∙ ap (range_or key (">" ∷ "=" ∷ v) (filter_of key v at_least "")) (includes_plain v h),
  ap (parse_value key) (two "<" "=" v)
      ∙ ap (range_or key ("<" ∷ "=" ∷ v) (filter_of key v at_most "")) (includes_plain v h),
)

parse_value_one :
    (key v : String)
    → IsPlain v
    → (parse_value key (">" +++ v) ≡ filter_of key v above "")
      × (parse_value key ("<" +++ v) ≡ filter_of key v below "")
unfolding parse_value includes starts_with
parse_value_one key v h = (
  ap (parse_value key) (one ">" v)
      ∙ ap
          (range_or key (">" ∷ v) (
            if starts_with v "="
            then filter_of key (drop_two (">" ∷ v)) at_least ""
            else filter_of key v above ""))
          (includes_plain v h)
      ∙ ap
          (λ b.
            if b then filter_of key (drop_two (">" ∷ v)) at_least "" else filter_of key v above "")
          (no_sign_plain v "" "=" h refl),
  ap (parse_value key) (one "<" v)
      ∙ ap
          (range_or key ("<" ∷ v) (
            if starts_with v "="
            then filter_of key (drop_two ("<" ∷ v)) at_most ""
            else filter_of key v below ""))
          (includes_plain v h)
      ∙ ap
          (λ b.
            if b then filter_of key (drop_two ("<" ∷ v)) at_most "" else filter_of key v below "")
          (no_sign_plain v "" "=" h refl),
)

abbrev pub HasRange : Operator → String → Type 0
HasRange within m = IsPlain m
HasRange _ m = m ≡ ""

-- A filter whose texts are plain, with a key and a value, and a second value at most for a range.
abbrev pub IsPlainFilter : Filter → Type 0
IsPlainFilter f =
    IsPlain f.key
    × (str_eq f.key "" ≡ false)
    × IsPlain f.value
    × (str_eq f.value "" ≡ false)
    × HasRange f.operator f.max_value

-- The filter with the operator and the texts, since none of these has quotes.
filter_of_plain :
    (key v m : String) (op : Operator)
    → IsPlain v
    → IsPlain m
    → filter_of key v op m ≡ record { key = key; value = v; operator = op; max_value = m }
filter_of_plain key v m op h k =
    ap (λ x. record { key = key; value = x; operator = op; max_value = remove_quotes m })
      (remove_quotes_plain v h)
    ∙ ap (λ x. record { key = key; value = v; operator = op; max_value = x })
        (remove_quotes_plain m k)

abbrev pub with_texts : String → String → Operator → String → Filter
with_texts key v op m = record { key = key; value = v; operator = op; max_value = m }

read_back :
    (key v m : String) (op : Operator)
    → IsPlain v
    → HasRange op m
    → parse_value key (value_text (with_texts key v op m)) ≡ with_texts key v op m
read_back key v m is h range =
    ap (parse_value key) (quote_if_need_plain v h)
    ∙ parse_value_is key v h
    ∙ filter_of_plain key v "" is h refl
    ∙ ap (with_texts key v is) (sym range)
read_back key v m within h range =
    ap (λ x. parse_value key (x +++ ".." +++ quote_if_need m)) (quote_if_need_plain v h)
    ∙ ap (λ x. parse_value key (v +++ ".." +++ x)) (quote_if_need_plain m range)
    ∙ parse_value_within key v m h range
    ∙ filter_of_plain key v m within h range
read_back key v m at_least h range =
    ap (λ x. parse_value key (">=" +++ x)) (quote_if_need_plain v h)
    ∙ (parse_value_two key v h).0
    ∙ filter_of_plain key v "" at_least h refl
    ∙ ap (with_texts key v at_least) (sym range)
read_back key v m at_most h range =
    ap (λ x. parse_value key ("<=" +++ x)) (quote_if_need_plain v h)
    ∙ (parse_value_two key v h).1
    ∙ filter_of_plain key v "" at_most h refl
    ∙ ap (with_texts key v at_most) (sym range)
read_back key v m above h range =
    ap (λ x. parse_value key (">" +++ x)) (quote_if_need_plain v h)
    ∙ (parse_value_one key v h).0
    ∙ filter_of_plain key v "" above h refl
    ∙ ap (with_texts key v above) (sym range)
read_back key v m below h range =
    ap (λ x. parse_value key ("<" +++ x)) (quote_if_need_plain v h)
    ∙ (parse_value_one key v h).1
    ∙ filter_of_plain key v "" below h refl
    ∙ ap (with_texts key v below) (sym range)

pub parse_value-value_text : (f : Filter) → IsPlainFilter f → parse_value f.key (value_text f) ≡ f
parse_value-value_text f (key, some_key, value, some_value, range) =
    read_back f.key f.value f.max_value f.operator value range

some_cons : (c : Char) (s : String) → str_eq (c ∷ s) "" ≡ false
some_cons c s = str_eq_ne (c ∷ s) "" (λ e. cons≢nil e)

pub some_append : (s t : String) → str_eq s "" ≡ false → str_eq (s +++ t) "" ≡ false
some_append [] t h = absurd cc
some_append (c ∷ s) t h = ap (λ x. str_eq x "") (cons-append c s t) ∙ some_cons c (s +++ t)

pub value_text_some : (f : Filter) → IsPlainFilter f → str_eq (value_text f) "" ≡ false
value_text_some f (key, some_key, value, some_value, range) =
    texts f.operator (ap (λ x. str_eq x "") (quote_if_need_plain f.value value) ∙ some_value)
  where
    texts :
        (op : Operator)
        → str_eq (quote_if_need f.value) "" ≡ false
        → str_eq (value_text (with_texts f.key f.value op f.max_value)) "" ≡ false
    texts is h = h
    texts within h = some_append (quote_if_need f.value) (".." +++ quote_if_need f.max_value) h
    texts at_least h = some_append ">=" (quote_if_need f.value) refl
    texts at_most h = some_append "<=" (quote_if_need f.value) refl
    texts above h = some_append ">" (quote_if_need f.value) refl
    texts below h = some_append "<" (quote_if_need f.value) refl
