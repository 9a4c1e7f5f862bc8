-- ===== src/Columns/Order.antt =====
-- The ids and the order of the columns after one is added
-- (`applyAddInning` and `applyAddColumn` of frontend/reducer.js).
use skorekeeper.Common.{
  ℕ, ◌+◌, String, true, false, ◌||◌, List, [], ◌∷◌, ◌++◌, Option, none, some, filter, str_eq,
  str_eq_ne, str_eq_refl, ◌==◌, All, ◌≡◌, refl, ap, ◌∙◌, inl, inr, arith, Bool-cases,
}
use skorekeeper.Game.{Team, Column, new_column, State}
use skorekeeper.Columns.{
  column_id, sub_index, next_sub, max_inning, opt_ltb, comes_after, insert_column, sort_columns,
  apply_add_inning, apply_add_column,
}
use skorekeeper.Columns.Ids.{IsNumbered, has_column, next_sub-new, max_inning-new}

-- Every id spells its column's inning and a sub-index, and no two are equal.
abbrev pub DistinctIds : List Column → Type 0
DistinctIds [] = Unit
DistinctIds (c ∷ cols) = IsNumbered c × (has_column c.id cols ≡ false) × DistinctIds cols

-- No column is after its successor by the comparator.
abbrev pub Leads : Column → List Column → Type 0
Leads c [] = Unit
Leads c (d ∷ _) = comes_after sub_index c d ≡ false

abbrev pub IsSorted : List Column → Type 0
IsSorted [] = Unit
IsSorted (c ∷ cols) = Leads c cols × IsSorted cols

-- The sub-index of a new column of the inning.
abbrev pub sub_of : ℕ → List Column → ℕ
sub_of inning cols = next_sub 0 (filter (λ c. c.inning == inning) cols)

DistinctIds-All : (cols : List Column) → DistinctIds cols → All IsNumbered cols
DistinctIds-All [] h = tt
DistinctIds-All (c ∷ cols) (h, _, rest) = (h, DistinctIds-All cols rest)

has_column-append :
    (id : String) (cols : List Column) (c : Column)
    → has_column id (cols ++ c ∷ []) ≡ (has_column id cols || str_eq c.id id)
has_column-append id [] c = ground arith
has_column-append id (d ∷ cols) c = ground (arith, has_column-append id cols c)

str_eq_sym : (v w : String) → str_eq v w ≡ false → str_eq w v ≡ false
str_eq_sym v w h =
    str_eq_ne w v (λ q. absurd (let eq = ap (λ x. str_eq v x) q ∙ str_eq_refl v in cc))

DistinctIds-append :
    (cols : List Column) (c : Column)
    → DistinctIds cols
    → IsNumbered c
    → has_column c.id cols ≡ false
    → DistinctIds (cols ++ c ∷ [])
DistinctIds-append [] c h n new = (n, refl, tt)
DistinctIds-append (d ∷ cols) c (m, fresh, rest) n new =
    let both : (str_eq d.id c.id ≡ false) × (has_column c.id cols ≡ false) = ground arith in
    (
      m,
      rw (has_column-append d.id cols c, fresh, str_eq_sym d.id c.id both.0) refl,
      DistinctIds-append cols c rest n both.1,
    )

has_column-insert_column :
    (id : String) (c : Column) (cols : List Column)
    → has_column id (insert_column sub_index c cols) ≡ (str_eq c.id id || has_column id cols)
unfolding insert_column
has_column-insert_column id c [] = refl
has_column-insert_column id c (d ∷ cols) = ground (arith, has_column-insert_column id c cols)

has_column-sort_columns :
    (id : String) (cols : List Column)
    → has_column id (sort_columns sub_index cols) ≡ has_column id cols
unfolding sort_columns
has_column-sort_columns id [] = refl
has_column-sort_columns id (c ∷ cols) =
    has_column-insert_column id c (sort_columns sub_index cols)
    ∙ ap (λ b. str_eq c.id id || b) (has_column-sort_columns id cols)

DistinctIds-insert_column :
    (c : Column) (cols : List Column)
    → IsNumbered c
    → has_column c.id cols ≡ false
    → DistinctIds cols
    → DistinctIds (insert_column sub_index c cols)
unfolding insert_column
DistinctIds-insert_column c [] n new h = (n, refl, tt)
DistinctIds-insert_column c (d ∷ cols) n new (m, fresh, rest) =
    let both : (str_eq d.id c.id ≡ false) × (has_column c.id cols ≡ false) = ground arith in
    elim (Bool-cases (comes_after sub_index c d)) [
      | inl after ↦
          rw (after, insert_column)
            (
              m,
              rw (has_column-insert_column d.id c cols, fresh, str_eq_sym d.id c.id both.0) refl,
              DistinctIds-insert_column c cols n both.1 rest,
            )
      | inr before ↦ rw (before, insert_column) (n, new, (m, fresh, rest))
    ]

DistinctIds-sort_columns :
    (cols : List Column) → DistinctIds cols → DistinctIds (sort_columns sub_index cols)
unfolding sort_columns
DistinctIds-sort_columns [] h = tt
DistinctIds-sort_columns (c ∷ cols) (n, new, h) =
    DistinctIds-insert_column c (sort_columns sub_index cols) n
      (has_column-sort_columns c.id cols ∙ new) (DistinctIds-sort_columns cols h)

opt_ltb_asym : (p q : Option ℕ) → opt_ltb p q ≡ true → opt_ltb q p ≡ false
opt_ltb_asym none q h = absurd cc
opt_ltb_asym (some m) none h = absurd cc
opt_ltb_asym (some m) (some n) h = ground arith

comes_after_asym :
    (c d : Column) → comes_after sub_index c d ≡ true → comes_after sub_index d c ≡ false
unfolding comes_after
comes_after_asym c d h = ground (arith, opt_ltb_asym (sub_index d.id) (sub_index c.id))

Leads-insert_column :
    (c d : Column) (cols : List Column)
    → Leads d cols
    → comes_after sub_index d c ≡ false
    → Leads d (insert_column sub_index c cols)
unfolding insert_column
Leads-insert_column c d [] h le = le
Leads-insert_column c d (x ∷ cols) h le = elim (Bool-cases (comes_after sub_index c x)) [
  | inl after ↦ rw (after, insert_column) h
  | inr before ↦ rw (before, insert_column) le
]

IsSorted-insert_column :
    (c : Column) (cols : List Column) → IsSorted cols → IsSorted (insert_column sub_index c cols)
unfolding insert_column
IsSorted-insert_column c [] h = (tt, tt)
IsSorted-insert_column c (d ∷ cols) (lead, h) = elim (Bool-cases (comes_after sub_index c d)) [
  | inl after ↦
      rw (after, insert_column)
        (
          Leads-insert_column c d cols lead (comes_after_asym c d after),
          IsSorted-insert_column c cols h,
        )
  | inr before ↦ rw (before, insert_column) (before, (lead, h))
]

IsSorted-sort_columns : (cols : List Column) → IsSorted (sort_columns sub_index cols)
unfolding sort_columns
IsSorted-sort_columns [] = tt
IsSorted-sort_columns (c ∷ cols) =
    IsSorted-insert_column c (sort_columns sub_index cols) (IsSorted-sort_columns cols)

-- If the column ids are distinct and spell their innings, they still are after an inning is added.
pub apply_add_inning-DistinctIds :
    (state : State) → DistinctIds state.columns → DistinctIds (apply_add_inning state).columns
unfolding apply_add_inning
apply_add_inning-DistinctIds state h =
    let next = max_inning 0 state.columns + 1 in
    DistinctIds-append state.columns (new_column next (column_id next 0) none) h (0, refl)
      (max_inning-new 0 next state.columns (DistinctIds-All state.columns h) (omega arith))

-- If the column ids are distinct and spell their innings, then adding a column to any inning for
-- a team or for both keeps them so, leaves the columns in order by inning and sub-index, and the
-- ids are those that were there and that of the new column.
pub apply_add_column_lem :
    (state : State) (inning : ℕ) (team : Option Team) (id : String)
    → DistinctIds state.columns
    → DistinctIds (apply_add_column state inning team).columns
      × IsSorted (apply_add_column state inning team).columns
      × (has_column id (apply_add_column state inning team).columns ≡ (
          has_column id state.columns
          || str_eq (column_id inning (sub_of inning state.columns)) id))
unfolding apply_add_column
apply_add_column_lem state inning team id h =
    let sub = sub_of inning state.columns in
    let col = new_column inning (column_id inning sub) team in
    let all = state.columns ++ col ∷ [] in
    let new =
      next_sub-new inning 0 sub state.columns (DistinctIds-All state.columns h) (omega arith) in
    (
      DistinctIds-sort_columns all (DistinctIds-append state.columns col h (sub, refl) new),
      IsSorted-sort_columns all,
      has_column-sort_columns id all ∙ has_column-append id state.columns col,
    )
