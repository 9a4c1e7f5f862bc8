-- ===== src/Backup/Lines.antt =====
-- The reader gives the lines of the file, however the stream cuts it into chunks.
use skorekeeper.Common.{
  ℕ, suc, ◌+◌, ◌<◌, String, true, false, not, List, [], ◌∷◌, none, some, filter, ◌==◌,
  if◌then◌else◌, ◌≡◌, refl, sym, ap, subst, ◌∙◌, arith, inl, inr, Bool-cases, Option-cases,
  some_inj,
}
use skorekeeper.Common.Text.{◌+++◌, is_blank}
use Prim.Native.Char.{Char, code}
use Prim.Native.String.{[], ◌∷◌}
use text.Mathlib.TextLemmas.{nil-append, cons-append, append-nil, append_assoc}
use skorekeeper.Backup.{
  Reader, split_line, Round, again, gives, finished, take_line, take_chunk, round,
}

abbrev push_first : Char → List String → List String
push_first c [] = (c ∷ []) ∷ []
push_first c (w ∷ ws) = (c ∷ w) ∷ ws

-- The pieces of a text between its newlines.
unfoldable pub split_lines : String → List String
split_lines [] = "" ∷ []
split_lines (c ∷ s) =
    let rest = split_lines s in if code c == 10 then "" ∷ rest else push_first c rest

-- The pieces that are not blank.
abbrev pub full_lines : String → List String
full_lines text = filter (λ line. not (is_blank line)) (split_lines text)

abbrev pub joined : List String → String
joined [] = ""
joined (c ∷ chunks) = c +++ joined chunks

abbrev pub text_of : Reader → String
text_of r = r.buffer +++ joined r.chunks

abbrev chars : String → ℕ
chars [] = 0
chars (c ∷ s) = suc (chars s)

abbrev chunk_size : List String → ℕ
chunk_size [] = 0
chunk_size (c ∷ chunks) = suc (chars c + chunk_size chunks)

abbrev pub size : Reader → ℕ
size r = chars r.buffer + chunk_size r.chunks

chars-append : (a b : String) → chars (a +++ b) ≡ chars a + chars b
chars-append [] b = ap chars (nil-append b) ∙ omega arith
chars-append (c ∷ a) b = ap chars (cons-append c a b) ∙ omega (arith, chars-append a b)

split_lines-newline :
    (c : Char) (s : String) → (code c == 10) ≡ true → split_lines (c ∷ s) ≡ "" ∷ split_lines s
unfolding split_lines
split_lines-newline c s e =
    ap (λ b. if b then "" ∷ split_lines s else push_first c (split_lines s)) e

split_lines-other :
    (c : Char) (s : String)
    → (code c == 10) ≡ false
    → split_lines (c ∷ s) ≡ push_first c (split_lines s)
unfolding split_lines
split_lines-other c s e = ap (λ b. if b then "" ∷ split_lines s else push_first c (split_lines s)) e

abbrev StartsWith : String → String → String × String → Type 0
StartsWith b t o = (split_lines (b +++ t) ≡ o.0 ∷ split_lines (o.1 +++ t)) × (chars o.1 < chars b)

-- A newline in the buffer ends its first line, whatever comes after the buffer.
split_line-some : (b t : String) (o : String × String) → split_line b ≡ some o → StartsWith b t o
unfolding split_line
split_line-some [] t o e = absurd cc
split_line-some (c ∷ b) t o e = elim (Bool-cases (code c == 10)) [
  | inl newline ↦
      subst (StartsWith (c ∷ b) t) (some_inj _ _ (rw newline at e))
        (ap split_lines (cons-append c b t) ∙ split_lines-newline c (b +++ t) newline, omega arith)
  | inr other ↦ elim (Option-cases (split_line b)) [
    | inl nothing ↦ let raised = rw (other, nothing) at e in absurd cc
    | inr (p, found) ↦
        let rest = split_line-some b t p found in
        subst (StartsWith (c ∷ b) t) (some_inj _ _ (rw (other, found) at e)) (
          ap split_lines (cons-append c b t)
              ∙ split_lines-other c (b +++ t) other
              ∙ ap (push_first c) rest.0,
          omega (arith, rest.1),
        )
  ]
]

split_line-none : (b : String) → split_line b ≡ none → split_lines b ≡ b ∷ []
unfolding split_line split_lines
split_line-none [] e = refl
split_line-none (c ∷ b) e = elim (Bool-cases (code c == 10)) [
  | inl newline ↦ let found = rw newline at e in absurd cc
  | inr other ↦ elim (Option-cases (split_line b)) [
    | inl nothing ↦ split_lines-other c b other ∙ ap (push_first c) (split_line-none b nothing)
    | inr (p, found) ↦ let some_line = rw (other, found) at e in absurd cc
  ]
]

-- What a round does to the lines that are left.
abbrev pub IsRound : Reader → Round → Type 0
IsRound r (again s) = (full_lines (text_of r) ≡ full_lines (text_of s)) × (size s < size r)
IsRound r (gives line s) =
    (full_lines (text_of r) ≡ line ∷ full_lines (text_of s)) × (size s < size r)
IsRound r finished = full_lines (text_of r) ≡ []

take_line-IsRound :
    (r : Reader) (line rest : String)
    → StartsWith r.buffer (joined r.chunks) (line, rest)
    → IsRound r (take_line r line rest)
take_line-IsRound r line rest h = elim (Bool-cases (is_blank line)) [
  | inl blank ↦ rw blank (
    ap (filter (λ l. not (is_blank l))) h.0
        ∙ ap
            (λ b.
              if not b
              then line ∷ full_lines (rest +++ joined r.chunks)
              else full_lines (rest +++ joined r.chunks))
            blank,
    omega (arith, h.1),
  )
  | inr full ↦ rw full (
    ap (filter (λ l. not (is_blank l))) h.0
        ∙ ap
            (λ b.
              if not b
              then line ∷ full_lines (rest +++ joined r.chunks)
              else full_lines (rest +++ joined r.chunks))
            full,
    omega (arith, h.1),
  )
]

last_line :
    (b : String)
    → split_line b ≡ none
    → full_lines (b +++ "") ≡ (if not (is_blank b) then b ∷ [] else [])
last_line b e =
    ap full_lines (append-nil b) ∙ ap (filter (λ l. not (is_blank l))) (split_line-none b e)

chars_pos : (b : String) → is_blank b ≡ false → 0 < chars b
unfolding is_blank
chars_pos [] e = absurd cc
chars_pos (c ∷ b) e = omega arith

take_chunk-IsRound :
    (b : String) (chunks : List String)
    → split_line b ≡ none
    → IsRound (record { buffer = b; chunks = chunks }) (take_chunk b chunks)
unfolding split_lines is_blank
take_chunk-IsRound b (c ∷ chunks) e =
    (ap full_lines (sym (append_assoc b c (joined chunks))), omega (arith, chars-append b c))
take_chunk-IsRound b [] e = elim (Bool-cases (is_blank b)) [
  | inl blank ↦ rw blank (last_line b e ∙ ap (λ t. if not t then b ∷ [] else []) blank)
  | inr full ↦ rw full (
    last_line b e
        ∙ ap (λ t. if not t then b ∷ [] else []) full
        ∙ ap (λ t. b ∷ full_lines t) (sym (nil-append "")),
    omega (arith, chars_pos b full),
  )
]

pub round-IsRound : (r : Reader) → IsRound r (round r)
unfolding round
round-IsRound r = elim (Option-cases (split_line r.buffer)) [
  | inl nothing ↦ rw (nothing, round) (take_chunk-IsRound r.buffer r.chunks nothing)
  | inr (o, found) ↦
      rw (found, round)
        (take_line-IsRound r o.0 o.1 (split_line-some r.buffer (joined r.chunks) o found))
]
