-- ===== src/Search/Queries.antt =====
-- Queries that are built and parsed (frontend/utils/searchParser.js).
use skorekeeper.Common.{
  String, Bool, true, false, ◌||◌, List, [], ◌∷◌, ◌++◌, none, some, str_eq, if◌then◌else◌, ◌≡◌,
  refl, sym, ap, ◌∙◌, arith, All, All-append, map, Bool-cases, inl, inr, eq_iff, subst,
}
use skorekeeper.Common.Text.{◌+++◌}
use Prim.Native.String.{[], ◌∷◌}
use mathlib.Core.List.{append-nil as list-append-nil, append_assoc as list-append_assoc}
use skorekeeper.Search.{
  quote_if_need, tokenize, tokenize_from, parse_token, parse_tokens, parse_query, build_query,
  add_free_text, Operator, is, within, at_least, at_most, above, below, Filter, Query, parse_value,
  value_text, filter_text, before_colon,
}
use skorekeeper.Search.Filters.{
  with_texts, HasRange, IsPlainFilter, parse_value-value_text, some_append, value_text_some,
}
use skorekeeper.Search.Splits.{before_colon_lem, after_colon_lem, after_colon_plain}
use skorekeeper.Search.Words.{
  is_word_char, all_chars, all_chars-append, plain_is_word, IsPlain, IsWord, tokenize-join_spaces,
  remove_quotes_plain, quote_if_need_plain,
}

-- The filters and the free text of a query are plain, and no text is empty.
abbrev pub IsPlainQuery : Query → Type 0
IsPlainQuery q = All IsPlainFilter q.filters × All (λ t. IsPlain t × (str_eq t "" ≡ false)) q.tokens

word_append :
    (s t : String)
    → all_chars is_word_char s ≡ true
    → all_chars is_word_char t ≡ true
    → all_chars is_word_char (s +++ t) ≡ true
word_append s t h k = all_chars-append is_word_char s t ∙ ground arith

quoted_word : (s : String) → IsPlain s → all_chars is_word_char (quote_if_need s) ≡ true
quoted_word s h = ap (all_chars is_word_char) (quote_if_need_plain s h) ∙ plain_is_word s h

filter_text-IsWord : (f : Filter) → IsPlainFilter f → IsWord (filter_text f)
filter_text-IsWord f (key, some_key, value, some_value, range) = (
  word_append f.key (":" +++ value_text f) (plain_is_word f.key key)
      (word_append ":" (value_text f) refl (texts f.operator range)),
  some_append f.key (":" +++ value_text f) some_key,
)
  where
    texts :
        (op : Operator)
        → HasRange op f.max_value
        → all_chars is_word_char (value_text (with_texts f.key f.value op f.max_value)) ≡ true
    texts is range = quoted_word f.value value
    texts within range =
        word_append (quote_if_need f.value) (".." +++ quote_if_need f.max_value)
          (quoted_word f.value value)
          (word_append ".." (quote_if_need f.max_value) refl (quoted_word f.max_value range))
    texts at_least range = word_append ">=" (quote_if_need f.value) refl (quoted_word f.value value)
    texts at_most range = word_append "<=" (quote_if_need f.value) refl (quoted_word f.value value)
    texts above range = word_append ">" (quote_if_need f.value) refl (quoted_word f.value value)
    texts below range = word_append "<" (quote_if_need f.value) refl (quoted_word f.value value)

-- The state of the parser after some tokens.
abbrev with_rest : Query → List Filter → List String → Query
with_rest q fs ts = record { tokens = q.tokens ++ ts; filters = q.filters ++ fs }

abbrev no_query : Query
no_query = record { tokens = []; filters = [] }

filter_words : (fs : List Filter) → All IsPlainFilter fs → All IsWord (map filter_text fs)
filter_words [] h = h
filter_words (f ∷ fs) (plain, h) = (filter_text-IsWord f plain, filter_words fs h)

free_words :
    (ts : List String)
    → All (λ t. IsPlain t × (str_eq t "" ≡ false)) ts
    → All IsWord (map quote_if_need ts)
free_words [] h = h
free_words (t ∷ ts) ((plain, some_text), h) = (
  (quoted_word t plain, ap (λ x. str_eq x "") (quote_if_need_plain t plain) ∙ some_text),
  free_words ts h,
)

module _ (to_lower_case : String → String) where
  parse_token-filter_text :
      (f : Filter) (q : Query)
      → IsPlainFilter f
      → to_lower_case f.key ≡ f.key
      → parse_token to_lower_case (filter_text f) q ≡ record q { filters = q.filters ++ f ∷ [] }
  unfolding parse_token
  parse_token-filter_text f q h lower =
      let token = filter_text f in
      let raw = value_text f in
      let kept = before_colon_lem f.key raw h.0 in
      let read : Bool → String → Query = λ b key.
        if b
        then add_free_text token q
        else record q { filters = q.filters ++ parse_value key raw ∷ [] } in
      ap
        (λ o. elim o [
          | none ↦ add_free_text token q
          | some raw ↦
              let key = to_lower_case (before_colon token) in
              if str_eq (before_colon token) "" || str_eq key "" || str_eq raw ""
              then add_free_text token q
              else record q { filters = q.filters ++ parse_value key raw ∷ [] }
        ])
        (after_colon_lem f.key raw h.0)
      ∙ ap
          (λ x.
            let key = to_lower_case x in read (str_eq x "" || str_eq key "" || str_eq raw "") key)
          kept
      ∙ ap (λ key. read (str_eq f.key "" || str_eq key "" || str_eq raw "") key) lower
      ∙ ap (λ b. read (b || b || str_eq raw "") f.key) h.1
      ∙ ap (λ b. read b f.key) (value_text_some f h)
      ∙ ap (λ x. record q { filters = q.filters ++ x ∷ [] }) (parse_value-value_text f h)

  parse_token_plain :
      (t : String) (q : Query)
      → IsPlain t
      → parse_token to_lower_case t q ≡ record q { tokens = q.tokens ++ t ∷ [] }
  unfolding parse_token
  parse_token_plain t q h =
      rw (after_colon_plain t h, parse_token)
        (ap (λ x. record q { tokens = q.tokens ++ x ∷ [] }) (remove_quotes_plain t h))

  parse_tokens_plain :
      (ts : List String) (q : Query)
      → All (λ t. IsPlain t × (str_eq t "" ≡ false)) ts
      → parse_tokens to_lower_case (map quote_if_need ts) q ≡ with_rest q [] ts
  unfolding parse_tokens
  parse_tokens_plain [] q h =
      ap (λ x. record q { tokens = x }) (sym (list-append-nil q.tokens))
      ∙ ap (λ x. record q { tokens = q.tokens ++ []; filters = x })
          (sym (list-append-nil q.filters))
  parse_tokens_plain (t ∷ ts) q ((plain, some_text), h) =
      ap (λ x. parse_tokens to_lower_case (map quote_if_need ts) (parse_token to_lower_case x q))
        (quote_if_need_plain t plain)
      ∙ ap (parse_tokens to_lower_case (map quote_if_need ts)) (parse_token_plain t q plain)
      ∙ parse_tokens_plain ts (record q { tokens = q.tokens ++ t ∷ [] }) h
      ∙ ap (λ x. record (with_rest q [] (t ∷ ts)) { tokens = x })
          (list-append_assoc q.tokens (t ∷ []) ts)

  parse_tokens-build :
      (fs : List Filter) (ts : List String) (q : Query)
      → All IsPlainFilter fs
      → All (λ f. to_lower_case f.key ≡ f.key) fs
      → All (λ t. IsPlain t × (str_eq t "" ≡ false)) ts
      → parse_tokens to_lower_case (map filter_text fs ++ map quote_if_need ts) q
        ≡ with_rest q fs ts
  unfolding parse_tokens
  parse_tokens-build [] ts q h lower k = parse_tokens_plain ts q k
  parse_tokens-build (f ∷ fs) ts q (plain, h) (low, lower) k =
      ap (parse_tokens to_lower_case (map filter_text fs ++ map quote_if_need ts))
        (parse_token-filter_text f q plain low)
      ∙ parse_tokens-build fs ts (record q { filters = q.filters ++ f ∷ [] }) h lower k
      ∙ ap (λ x. record (with_rest q (f ∷ fs) ts) { filters = x })
          (list-append_assoc q.filters (f ∷ []) fs)

  parse_query_lem :
      (text : String)
      → parse_query to_lower_case text ≡ parse_tokens to_lower_case (tokenize text) no_query
  unfolding parse_query tokenize tokenize_from parse_tokens
  parse_query_lem text = elim (Bool-cases (str_eq text "")) [
    | inl empty ↦
        subst (λ x. parse_query to_lower_case x ≡ parse_tokens to_lower_case (tokenize x) no_query)
          (sym ((eq_iff text "").0 empty)) refl
    | inr some_text ↦ rw (some_text, parse_query) refl
  ]

  -- A query whose texts have no space, quote, colon, dot or sign of comparison, with lower-case keys, no empty text,
  -- and a second value for ranges only, is what its text is parsed to.
  pub parse_query-build_query :
      (q : Query)
      → IsPlainQuery q
      → All (λ f. to_lower_case f.key ≡ f.key) q.filters
      → parse_query to_lower_case (build_query q) ≡ q
  unfolding build_query
  parse_query-build_query q h lower =
      parse_query_lem (build_query q)
      ∙ ap (λ ws. parse_tokens to_lower_case ws no_query)
          (tokenize-join_spaces (map filter_text q.filters ++ map quote_if_need q.tokens) (
            All-append IsWord (map filter_text q.filters) (map quote_if_need q.tokens)
              (filter_words q.filters h.0) (free_words q.tokens h.1)))
      ∙ parse_tokens-build q.filters q.tokens no_query h.0 lower h.1
