-- ===== src/Backup/Reads.antt =====
-- The calls of `next` end, and give the lines of the file.
use skorekeeper.Common.{
  ℕ, zero, suc, ◌<◌, String, List, [], ◌∷◌, Option, none, some, ◌>>=◌, ◌≡◌, sym, ap, ◌∙◌, arith,
}
use text.Mathlib.TextLemmas.{nil-append}
use skorekeeper.Backup.{Reader, Round, again, gives, finished, round, next, read_lines}
use skorekeeper.Backup.Lines.{full_lines, joined, text_of, size, IsRound, round-IsRound}

-- What a call gives.
abbrev IsCall : Reader → Option (Option (String × Reader)) → Type 0
IsCall r none = ⊥
IsCall r (some none) = full_lines (text_of r) ≡ []
IsCall r (some (some o)) =
    (full_lines (text_of r) ≡ o.0 ∷ full_lines (text_of o.1)) × (size o.1 < size r)

IsCall-later :
    (r s : Reader) (o : Option (Option (String × Reader)))
    → full_lines (text_of r) ≡ full_lines (text_of s)
    → size s < size r
    → IsCall s o
    → IsCall r o
IsCall-later r s none e less h = h
IsCall-later r s (some none) e less h = e ∙ h
IsCall-later r s (some (some o)) e less h = (e ∙ h.0, omega (arith, less, h.1))

abbrev called : ℕ → Round → Option (Option (String × Reader))
called fuel o = elim o [
  | again s ↦ next fuel s
  | gives line s ↦ some (some (line, s))
  | finished ↦ some none
]

IsCall-called :
    (fuel : ℕ) (r : Reader)
    → size r < suc fuel
    → ((s : Reader) → size s < fuel → IsCall s (next fuel s))
    → (o : Round) → IsRound r o
    → IsCall r (called fuel o)
IsCall-called fuel r less ends (again s) h =
    IsCall-later r s (next fuel s) h.0 h.1 (ends s (omega (arith, less, h.1)))
IsCall-called fuel r less ends (gives line s) h = h
IsCall-called fuel r less ends finished h = h

next-IsCall : (fuel : ℕ) (r : Reader) → size r < fuel → IsCall r (next fuel r)
unfolding next
next-IsCall zero r less = absurd (omega (arith, less))
next-IsCall (suc fuel) r less =
    IsCall-called fuel r less (λ s. next-IsCall fuel s) (round r) (round-IsRound r)

abbrev read_on : ℕ → Option (Option (String × Reader)) → Option (List String)
read_on fuel o = elim o [
  | none ↦ none
  | some none ↦ some []
  | some (some o) ↦ read_lines fuel o.1 >>= λ lines. some (o.0 ∷ lines)
]

read_on-eq :
    (fuel : ℕ) (r : Reader)
    → size r < suc fuel
    → ((s : Reader) → size s < fuel → read_lines fuel s ≡ some (full_lines (text_of s)))
    → (o : Option (Option (String × Reader))) → IsCall r o
    → read_on fuel o ≡ some (full_lines (text_of r))
read_on-eq fuel r less reads none h = absurd h
read_on-eq fuel r less reads (some none) h = ap some (sym h)
read_on-eq fuel r less reads (some (some o)) h =
    ap (λ m. m >>= λ lines. some (o.0 ∷ lines)) (reads o.1 (omega (arith, less, h.1)))
    ∙ ap some (sym h.0)

read_lines-text_of :
    (fuel : ℕ) (r : Reader) → size r < fuel → read_lines fuel r ≡ some (full_lines (text_of r))
unfolding read_lines
read_lines-text_of zero r less = absurd (omega (arith, less))
read_lines-text_of (suc fuel) r less =
    read_on-eq fuel r less (λ s. read_lines-text_of fuel s) (next (suc fuel) r)
      (next-IsCall (suc fuel) r less)

-- With more fuel than there are characters and chunks, the reader comes to the end, and has given
-- the lines of the file that are not blank, in order, wherever the chunks cut it.
pub read_lines-eq :
    (fuel : ℕ) (chunks : List String)
    → size (record { buffer = ""; chunks = chunks }) < fuel
    → read_lines fuel (record { buffer = ""; chunks = chunks }) ≡ some (full_lines (joined chunks))
read_lines-eq fuel chunks less =
    read_lines-text_of fuel (record { buffer = ""; chunks = chunks }) less
    ∙ ap (λ t. some (full_lines t)) (nil-append (joined chunks))
