-- ===== src/Search/Words.antt =====
-- Words without the characters that frontend/utils/searchParser.js gives a meaning.
use skorekeeper.Common.{
  String, Bool, true, false, ◌&&◌, not, List, [], ◌∷◌, none, str_eq, ◌==◌, if◌then◌else◌, ◌≡◌, refl,
  sym, ap, ◌∙◌, arith, All,
}
use skorekeeper.Common.Text.{◌+++◌, includes_char}
use Prim.Native.Char.{Char, code}
use Prim.Native.String.{[], ◌∷◌}
use text.Mathlib.TextLemmas.{nil-append, cons-append, append-nil, append_assoc}
use skorekeeper.Search.{
  is_quote, add_token, tokenize_from, tokenize, remove_quotes, quote_if_need, join_spaces,
}

-- A character that is no space, quote, colon, dot or comparison.
abbrev pub is_plain : Char → Bool
is_plain c =
    not (code c == b' ')
    && not (is_quote c)
    && not (code c == b':')
    && not (code c == b'.')
    && not (code c == b'<')
    && not (code c == b'>')
    && not (code c == b'=')

-- A character that is no space or quote.
abbrev pub is_word_char : Char → Bool
is_word_char c = not (code c == b' ') && not (is_quote c)

abbrev pub all_chars : (Char → Bool) → String → Bool
all_chars p [] = true
all_chars p (c ∷ s) = p c && all_chars p s

abbrev pub IsPlain : String → Type 0
IsPlain s = all_chars is_plain s ≡ true

abbrev pub IsWord : String → Type 0
IsWord s = (all_chars is_word_char s ≡ true) × (str_eq s "" ≡ false)

pub all_chars-append :
    (p : Char → Bool) (s t : String) → all_chars p (s +++ t) ≡ (all_chars p s && all_chars p t)
all_chars-append p [] t = ap (all_chars p) (nil-append t)
all_chars-append p (c ∷ s) t =
    ap (all_chars p) (cons-append c s t) ∙ ground (arith, all_chars-append p s t)

pub plain_is_word : (s : String) → IsPlain s → all_chars is_word_char s ≡ true
plain_is_word [] h = refl
plain_is_word (c ∷ s) h = ground (arith, plain_is_word s)

tokenize_char :
    (c : Char) (s current : String)
    → is_word_char c ≡ true
    → tokenize_from (c ∷ s) current none ≡ tokenize_from s (current +++ (c ∷ [])) none
unfolding tokenize_from
tokenize_char c s current h =
    let no_space : (code c == b' ') ≡ false = ground arith in
    let no_quote : is_quote c ≡ false = ground arith in rw (no_space, no_quote, tokenize_from) refl

tokenize_word :
    (w rest current : String)
    → all_chars is_word_char w ≡ true
    → tokenize_from (w +++ rest) current none ≡ tokenize_from rest (current +++ w) none
unfolding tokenize_from
tokenize_word [] rest current h =
    ap (λ x. tokenize_from x current none) (nil-append rest)
    ∙ ap (λ x. tokenize_from rest x none) (sym (append-nil current))
tokenize_word (c ∷ w) rest current h =
    ap (λ x. tokenize_from x current none) (cons-append c w rest)
    ∙ tokenize_char c (w +++ rest) current (ground arith)
    ∙ tokenize_word w rest (current +++ (c ∷ [])) (ground arith)
    ∙ ap (λ x. tokenize_from rest x none)
        (append_assoc current (c ∷ []) w
          ∙ ap (λ x. current +++ x) (cons-append c [] w ∙ ap (λ x. c ∷ x) (nil-append w)))

tokenize_spaces : (ws : List String) → All IsWord ws → tokenize_from (join_spaces ws) "" none ≡ ws
unfolding tokenize_from join_spaces
tokenize_spaces [] h = refl
tokenize_spaces (w ∷ []) h =
    ap (λ x. tokenize_from x "" none) (sym (append-nil w))
    ∙ tokenize_word w "" "" h.0.0
    ∙ ap (λ x. add_token x []) (nil-append w)
    ∙ ap (λ b. if b then [] else w ∷ []) h.0.1
tokenize_spaces (w ∷ v ∷ ws) h =
    let rest = join_spaces (v ∷ ws) in
    tokenize_word w (" " +++ rest) "" h.0.0
    ∙ ap (λ x. tokenize_from x ("" +++ w) none)
        (cons-append " " "" rest ∙ ap (λ x. " " ∷ x) (nil-append rest))
    ∙ ap (λ x. add_token x (tokenize_from rest "" none)) (nil-append w)
    ∙ ap (λ b. if b then tokenize_from rest "" none else w ∷ tokenize_from rest "" none) h.0.1
    ∙ ap (w ∷◌) (tokenize_spaces (v ∷ ws) h.1)

-- Words joined by spaces are the tokens of the text.
pub tokenize-join_spaces : (ws : List String) → All IsWord ws → tokenize (join_spaces ws) ≡ ws
unfolding tokenize
tokenize-join_spaces ws h = tokenize_spaces ws h

pub remove_quotes_plain : (s : String) → IsPlain s → remove_quotes s ≡ s
unfolding remove_quotes
remove_quotes_plain [] h = refl
remove_quotes_plain (c ∷ []) h = refl
remove_quotes_plain (c ∷ d ∷ s) h = ground arith

no_space : (s : String) → IsPlain s → includes_char s b' ' ≡ false
unfolding includes_char
no_space [] h = refl
no_space (c ∷ s) h = ground (arith, no_space s)

pub quote_if_need_plain : (s : String) → IsPlain s → quote_if_need s ≡ s
unfolding quote_if_need
quote_if_need_plain s h = rw (no_space s h, quote_if_need) refl
