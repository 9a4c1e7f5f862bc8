-- ===== src/Columns/Ids.antt =====
-- Column ids, `col-${inning}-${sub}`, and the choice of a new one (frontend/reducer.js).
use skorekeeper.Common.{
  ℕ, ◌+◌, ◌≤◌, ◌<◌, String, Bool, false, List, [], ◌∷◌, Option, none, some, any, filter, str_eq,
  eq_iff, str_eq_ne, ltb, ◌==◌, if◌then◌else◌, All, ◌≡◌, refl, sym, ap, ◌∙◌, inl, inr, arith,
  Option-cases, Bool-cases, some_inj,
}
use text.Mathlib.TextLemmas.{append_assoc}
use skorekeeper.Common.Text.{◌+++◌, split_dash, show_nat, parse_int}
use skorekeeper.Common.Text.Laws.{
  split_dash-append, split_dash-NoDash, NoDash-show_nat, parse_int-show_nat,
}
use skorekeeper.Game.{Column}
use skorekeeper.Columns.{column_id, sub_index, next_sub, max_inning}

abbrev second_part : List String → String
second_part (v ∷ w ∷ ws) = w
second_part _ = ""

split_dash-column_id : (i s : ℕ) → split_dash (column_id i s) ≡ "col" ∷ show_nat i ∷ show_nat s ∷ []
unfolding column_id
split_dash-column_id i s = rw (
  append_assoc "col" "-" (show_nat i +++ "-" +++ show_nat s),
  split_dash-append "col" _ (ground arith),
  split_dash-append (show_nat i) _ (NoDash-show_nat i),
  split_dash-NoDash (show_nat s) (NoDash-show_nat s),
)

show_nat-ne-nil : (n : ℕ) → str_eq (show_nat n) "" ≡ false
show_nat-ne-nil n = elim (Bool-cases (str_eq (show_nat n) "")) [
  | inl empty ↦
      let nothing : parse_int "" ≡ some n =
        ap parse_int (sym ((eq_iff (show_nat n) "").0 empty)) ∙ parse_int-show_nat n in
      let absent : ◌≡◌ {A = Option ℕ} none (some n) = unfold parse_int in nothing in cc
  | inr full ↦ full
]

-- The sub-index of an id is the number that it was made of.
pub sub_index-column_id : (i s : ℕ) → sub_index (column_id i s) ≡ some s
unfolding sub_index
sub_index-column_id i s =
    rw (split_dash-column_id i s, sub_index, show_nat-ne-nil s, parse_int-show_nat s)

inning-column_id : (i s : ℕ) → parse_int (second_part (split_dash (column_id i s))) ≡ some i
inning-column_id i s = rw (split_dash-column_id i s) (parse_int-show_nat i)

pub column_id-inj : (i s j t : ℕ) → column_id i s ≡ column_id j t → (i ≡ j) × (s ≡ t)
column_id-inj i s j t e = (
  some_inj i j (
      sym (inning-column_id i s)
      ∙ ap (λ id. parse_int (second_part (split_dash id))) e
      ∙ inning-column_id j t),
  some_inj s t (sym (sub_index-column_id i s) ∙ ap sub_index e ∙ sub_index-column_id j t),
)

-- The id spells the column's inning and some sub-index.
abbrev pub IsNumbered : Column → Type 0
IsNumbered c = (s : ℕ) × (c.id ≡ column_id c.inning s)

abbrev pub has_column : String → List Column → Bool
has_column id cols = any (λ c. str_eq c.id id) cols

larger : (n k : ℕ) → (n ≤ (if ltb n k then k else n)) × (k ≤ (if ltb n k then k else n))
larger n k = (ground arith, ground arith)

next_sub-ge : (n : ℕ) (cols : List Column) → n ≤ next_sub n cols
unfolding next_sub
next_sub-ge n [] = omega arith
next_sub-ge n (c ∷ cols) = elim (Option-cases (sub_index c.id)) [
  | inl nan ↦ rw (nan, next_sub) (next_sub-ge n cols)
  | inr (k, e) ↦
      let rest = next_sub-ge (if ltb n (k + 1) then k + 1 else n) cols in
      rw (e, next_sub) (omega (arith, (larger n (k + 1)).0, rest))
]

-- The next sub-index is above that of every column of the inning.
next_sub-gt :
    (n k : ℕ) (c : Column) (cols : List Column)
    → sub_index c.id ≡ some k
    → k < next_sub n (c ∷ cols)
unfolding next_sub
next_sub-gt n k c cols e =
    let rest = next_sub-ge (if ltb n (k + 1) then k + 1 else n) cols in
    rw (e, next_sub) (omega (arith, (larger n (k + 1)).1, rest))

next_sub-cons-ge :
    (n : ℕ) (c : Column) (cols : List Column) → (r : ℕ) × (next_sub n (c ∷ cols) ≡ next_sub r cols)
unfolding next_sub
next_sub-cons-ge n c cols = (_, refl)

-- No column has the id of a sub-index that is not below the next one of the inning.
pub next_sub-new :
    (i n m : ℕ) (cols : List Column)
    → All IsNumbered cols
    → next_sub n (filter (λ c. c.inning == i) cols) ≤ m
    → has_column (column_id i m) cols ≡ false
next_sub-new i n m [] h le = refl
next_sub-new i n m (c ∷ cols) ((k, e), h) le = elim (Bool-cases (c.inning == i)) [
  | inl same ↦
      let rest = filter (λ d. d.inning == i) cols in
      let kept : next_sub n (c ∷ rest) ≤ m = rw same at le in
      let (r, step) = next_sub-cons-ge n c rest in
      let below = next_sub-gt n k c rest (ap sub_index e ∙ sub_index-column_id c.inning k) in
      let differ =
        str_eq_ne c.id (column_id i m)
          (λ q. absurd (omega (arith, (column_id-inj c.inning k i m (sym e ∙ q)).1))) in
      rw differ (next_sub-new i r m cols h (omega arith))
  | inr other ↦
      let differ =
        str_eq_ne c.id (column_id i m)
          (λ q. ground (arith, (column_id-inj c.inning k i m (sym e ∙ q)).0)) in
      rw differ (next_sub-new i n m cols h (rw other at le))
]

max_inning-ge : (m : ℕ) (cols : List Column) → m ≤ max_inning m cols
unfolding max_inning
max_inning-ge m [] = omega arith
max_inning-ge m (c ∷ cols) = ground (arith, max_inning-ge m cols, max_inning-ge c.inning cols)

-- No column has an inning above the maximum.
pub max_inning-new :
    (m n : ℕ) (cols : List Column)
    → All IsNumbered cols
    → max_inning m cols < n
    → has_column (column_id n 0) cols ≡ false
unfolding max_inning
max_inning-new m n [] h lt = refl
max_inning-new m n (c ∷ cols) ((k, e), h) lt =
    let later = if ltb m c.inning then c.inning else m in
    let differ = str_eq_ne c.id (column_id n 0) (λ q.
      ground (arith, (column_id-inj c.inning k n 0 (sym e ∙ q)).0, max_inning-ge later cols)) in
    rw differ (max_inning-new later n cols h lt)
