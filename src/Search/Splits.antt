-- ===== src/Search/Splits.antt =====
-- Where a colon or two dots split a text (frontend/utils/searchParser.js).
use skorekeeper.Common.{
  String, true, false, ◌&&◌, [], ◌∷◌, none, some, ◌==◌, if◌then◌else◌, ◌≡◌, refl, ap, ◌∙◌, arith,
}
use skorekeeper.Common.Text.{◌+++◌, starts_with, includes}
use Prim.Native.Char.{Char, code}
use Prim.Native.String.{[], ◌∷◌}
use text.Mathlib.TextLemmas.{nil-append, cons-append}
use skorekeeper.Search.{before_colon, after_colon, before_dots, after_dots, drop_two}
use skorekeeper.Search.Words.{IsPlain}

pub one : (c : Char) (s : String) → (c ∷ []) +++ s ≡ c ∷ s
one c s = cons-append c "" s ∙ ap (λ x. c ∷ x) (nil-append s)

pub two : (c d : Char) (s : String) → (c ∷ d ∷ []) +++ s ≡ c ∷ d ∷ s
two c d s =
    cons-append c (d ∷ []) s ∙ ap (λ x. c ∷ x) (cons-append d "" s ∙ ap (λ x. d ∷ x) (nil-append s))

pub before_colon_lem : (k v : String) → IsPlain k → before_colon (k +++ ":" +++ v) ≡ k
unfolding before_colon
before_colon_lem [] v h = ap before_colon (nil-append (":" +++ v) ∙ cons-append ":" "" v)
before_colon_lem (c ∷ k) v h =
    let not_colon : (code c == b':') ≡ false = ground arith in
    ap before_colon (cons-append c k (":" +++ v))
    ∙ ap (λ b. if b then "" else c ∷ before_colon (k +++ ":" +++ v)) not_colon
    ∙ ap (λ x. c ∷ x) (before_colon_lem k v (ground arith))

pub after_colon_lem : (k v : String) → IsPlain k → after_colon (k +++ ":" +++ v) ≡ some v
unfolding after_colon
after_colon_lem [] v h =
    ap after_colon (nil-append (":" +++ v) ∙ cons-append ":" "" v) ∙ ap some (nil-append v)
after_colon_lem (c ∷ k) v h =
    let not_colon : (code c == b':') ≡ false = ground arith in
    ap after_colon (cons-append c k (":" +++ v))
    ∙ ap (λ b. if b then some (k +++ ":" +++ v) else after_colon (k +++ ":" +++ v)) not_colon
    ∙ after_colon_lem k v (ground arith)

pub after_colon_plain : (t : String) → IsPlain t → after_colon t ≡ none
unfolding after_colon
after_colon_plain [] h = refl
after_colon_plain (c ∷ t) h = ground (arith, after_colon_plain t)

-- A plain text does not start with a sign.
no_sign :
    (c : Char) (v p : String) (d : Char)
    → (code c == code d) ≡ false
    → starts_with (c ∷ v) (d ∷ p) ≡ false
unfolding starts_with
no_sign c v p d h = ap (λ b. b && starts_with v p) h

pub includes_plain : (v : String) → IsPlain v → includes v ".." ≡ false
unfolding includes starts_with
includes_plain [] h = refl
includes_plain (c ∷ v) h = ground (arith, includes_plain v)

pub before_dots_plain : (v : String) → IsPlain v → before_dots v ≡ v
unfolding before_dots
before_dots_plain [] h = refl
before_dots_plain (c ∷ v) h =
    let no_dot : starts_with (c ∷ v) ".." ≡ false = no_sign c v "." "." (ground arith) in
    ap (λ b. if b then "" else c ∷ before_dots v) no_dot
    ∙ ap (λ x. c ∷ x) (before_dots_plain v (ground arith))

-- The two parts of a range.
pub before_dots_lem : (v m : String) → IsPlain v → before_dots (v +++ ".." +++ m) ≡ v
unfolding before_dots starts_with
before_dots_lem [] m h = ap before_dots (nil-append (".." +++ m) ∙ two "." "." m)
before_dots_lem (c ∷ v) m h =
    let no_dot = no_sign c (v +++ ".." +++ m) "." "." (ground arith) in
    ap before_dots (cons-append c v (".." +++ m))
    ∙ ap (λ b. if b then "" else c ∷ before_dots (v +++ ".." +++ m)) no_dot
    ∙ ap (λ x. c ∷ x) (before_dots_lem v m (ground arith))

pub after_dots_lem : (v m : String) → IsPlain v → after_dots (v +++ ".." +++ m) ≡ m
unfolding after_dots starts_with
after_dots_lem [] m h = ap after_dots (nil-append (".." +++ m) ∙ two "." "." m)
after_dots_lem (c ∷ v) m h =
    let no_dot = no_sign c (v +++ ".." +++ m) "." "." (ground arith) in
    let rest = v +++ ".." +++ m in
    ap after_dots (cons-append c v (".." +++ m))
    ∙ ap (λ b. if b then drop_two (c ∷ rest) else after_dots rest) no_dot
    ∙ after_dots_lem v m (ground arith)

pub includes_dots : (v m : String) → includes (v +++ ".." +++ m) ".." ≡ true
unfolding includes starts_with
includes_dots [] m = ap (λ x. includes x "..") (nil-append (".." +++ m) ∙ two "." "." m)
includes_dots (c ∷ v) m =
    ap (λ x. includes x "..") (cons-append c v (".." +++ m)) ∙ ground (arith, includes_dots v m)
