-- ===== src/Columns/Removal.antt =====
-- Recorded cells and open columns under the removal of a column (`applyRemoveColumn` of frontend/reducer.js).
use skorekeeper.Common.{
  ℕ, String, Bool, true, false, ◌&&◌, not, List, [], ◌∷◌, Option, none, some, Dict, lookup, filter,
  any, find, str_eq, str_eq_refl, ◌==◌, ◌≡◌, refl, ap, inl, inr, arith, Bool-cases, Option-cases,
  some_inj,
}
use skorekeeper.Game.{Team, Event, Column, State}
use skorekeeper.Columns.{
  is_cell_of, is_recorded, has_recorded_data, drop_cells, remaining_columns, remove_found, release,
  released_column, is_empty, is_open_to, apply_remove_column, replace_first,
}

-- Whether an entry of the team's cells in the column has recorded data.
abbrev recorded : Team → String → Dict Event → Bool
recorded team id events = any (λ b. is_cell_of team id b.0 && is_recorded b.1) events

-- A binding that is not of the dropped cells, or is recorded where none of those is, stays.
lookup-drop_cells :
    (team : Team) (id key : String) (ev : Event) (events : Dict Event)
    → recorded team id events ≡ false
    → lookup key events ≡ some ev
    → is_recorded ev ≡ true
    → lookup key (drop_cells team id events) ≡ some ev
unfolding drop_cells lookup
lookup-drop_cells team id key ev [] none_recorded h r = absurd cc
lookup-drop_cells team id key ev ((k, e) ∷ events) none_recorded h r =
    let rest = lookup-drop_cells team id key ev events in
    elim (Bool-cases (is_cell_of team id k)) [
      | inl cell ↦
          let (unrecorded, none_later) : (is_recorded e ≡ false)
              × (recorded team id events ≡ false) =
            ground arith in
          let other : str_eq k key ≡ false = elim (Bool-cases (str_eq k key)) [
            | inl same ↦
                let same_ev : is_recorded e ≡ is_recorded ev =
                  ap is_recorded (some_inj e ev (rw same at h)) in
                absurd cc
            | inr differ ↦ differ
          ] in
          rw (cell, drop_cells) (rest none_later (rw other at h) r)
      | inr kept ↦
          let none_later : recorded team id events ≡ false = ground arith in
          elim (Bool-cases (str_eq k key)) [
            | inl same ↦ rw (kept, drop_cells, same, lookup) (rw same at h)
            | inr differ ↦
                rw (kept, drop_cells, differ, lookup) (rest none_later (rw differ at h) r)
          ]
    ]

release-lookup :
    (state : State) (id : String) (team : Team) (new : Option (Option Column)) (key : String)
    (ev : Event)
    → has_recorded_data state team id ≡ false
    → lookup key state.events ≡ some ev
    → is_recorded ev ≡ true
    → lookup key (release state id team new).events ≡ some ev
unfolding release has_recorded_data
release-lookup state id team none key ev unrecorded h r = h
release-lookup state id team (some new) key ev unrecorded h r =
    lookup-drop_cells team id key ev state.events unrecorded h r

remove_found-lookup :
    (state : State) (id : String) (team : Team) (col : Column) (key : String) (ev : Event)
    → lookup key state.events ≡ some ev
    → is_recorded ev ≡ true
    → lookup key (remove_found state id team col).events ≡ some ev
unfolding remove_found
remove_found-lookup state id team col key ev h r =
    elim (Bool-cases (is_empty (remaining_columns state team col))) [
      | inl last ↦ rw (last, remove_found) h
      | inr more ↦ elim (Bool-cases (has_recorded_data state team id)) [
        | inl kept ↦ rw (more, remove_found, kept, remove_found) h
        | inr dropped ↦
            rw (more, remove_found, dropped, remove_found)
              (release-lookup state id team (released_column team col) key ev dropped h r)
      ]
    ]

-- An event that holds an outcome or a pitch is still there, unchanged, after any column is removed.
pub apply_remove_column-lookup :
    (state : State) (id : String) (team : Team) (key : String) (ev : Event)
    → lookup key state.events ≡ some ev
    → is_recorded ev ≡ true
    → lookup key (apply_remove_column state id team).events ≡ some ev
unfolding apply_remove_column
apply_remove_column-lookup state id team key ev h r =
    elim (Option-cases (find (λ c. str_eq c.id id) state.columns)) [
      | inl missing ↦ rw (missing, apply_remove_column) h
      | inr (col, found) ↦
          rw (found, apply_remove_column) (remove_found-lookup state id team col key ev h r)
    ]

-- Whether the team has a column of the inning.
abbrev pub has_open : Team → ℕ → List Column → Bool
has_open team i cols = any (λ c. (c.inning == i) && is_open_to team c) cols

replaced-any :
    (test : Column → Bool) (new : Option Column) (cols : List Column)
    → any test cols ≡ true
    → any test (elim new [ none ↦ cols | some d ↦ d ∷ cols ]) ≡ true
replaced-any test none cols h = h
replaced-any test (some d) cols h = ground arith

any-replace_first :
    (test : Column → Bool) (id : String) (new : Option Column) (col : Column) (cols : List Column)
    → find (λ c. str_eq c.id id) cols ≡ some col
    → test col ≡ false
    → any test cols ≡ true
    → any test (replace_first id new cols) ≡ true
unfolding replace_first
any-replace_first test id new col [] found fails h = absurd cc
any-replace_first test id new col (c ∷ cols) found fails h = elim (Bool-cases (str_eq c.id id)) [
  | inl here ↦
      let same : test c ≡ test col = ap test (some_inj c col (rw here at found)) in
      let later : any test cols ≡ true = ground arith in
      rw (here, replace_first) (replaced-any test new cols later)
  | inr further ↦
      let rest = any-replace_first test id new col cols (rw further at found) fails in
      rw (further, replace_first)
        (elim (Bool-cases (test c)) [
          | inl holds ↦ rw holds refl
          | inr fails_too ↦ rw fails_too (rest (rw fails_too at h))
        ])
]

any-imp :
    (test other : Column → Bool) (cols : List Column)
    → ((c : Column) → test c ≡ true → other c ≡ true)
    → any test cols ≡ true
    → any other cols ≡ true
any-imp test other [] imp h = absurd cc
any-imp test other (c ∷ cols) imp h = elim (Bool-cases (test c)) [
  | inl holds ↦ rw (imp c holds) refl
  | inr fails ↦ let rest = any-imp test other cols imp (rw fails at h) in ground arith
]

any-filter :
    (test : Column → Bool) (cols : List Column)
    → is_empty (filter test cols) ≡ false
    → any test cols ≡ true
any-filter test [] h = absurd cc
any-filter test (c ∷ cols) h = elim (Bool-cases (test c)) [
  | inl holds ↦ rw holds refl
  | inr fails ↦ rw fails (any-filter test cols (rw fails at h))
]

keeps_open :
    (state : State) (id : String) (team : Team) (i : ℕ) (col : Column) (new : Option Column)
    → find (λ c. str_eq c.id id) state.columns ≡ some col
    → is_empty (remaining_columns state team col) ≡ false
    → has_open team i state.columns ≡ true
    → has_open team i (replace_first id new state.columns) ≡ true
unfolding remaining_columns
keeps_open state id team i col new found more h =
    let at_i : Column → Bool = λ c. (c.inning == i) && is_open_to team c in
    let beside : Column → Bool =
      λ c. (c.inning == col.inning) && is_open_to team c && not (str_eq c.id col.id) in
    elim (Bool-cases (col.inning == i)) [
      | inl same ↦
          any-imp beside at_i (replace_first id new state.columns) (λ c b. ground arith)
            (any-replace_first beside id new col state.columns found
              (rw (str_eq_refl col.id) (ground arith)) (any-filter beside state.columns more))
      | inr other ↦ any-replace_first at_i id new col state.columns found (ground arith) h
    ]

release-has_open :
    (state : State) (id : String) (team : Team) (i : ℕ) (col : Column)
    (new : Option (Option Column))
    → find (λ c. str_eq c.id id) state.columns ≡ some col
    → is_empty (remaining_columns state team col) ≡ false
    → has_open team i state.columns ≡ true
    → has_open team i (release state id team new).columns ≡ true
unfolding release
release-has_open state id team i col none found more h = h
release-has_open state id team i col (some new) found more h =
    keeps_open state id team i col new found more h

remove_found-has_open :
    (state : State) (id : String) (team : Team) (i : ℕ) (col : Column)
    → find (λ c. str_eq c.id id) state.columns ≡ some col
    → has_open team i state.columns ≡ true
    → has_open team i (remove_found state id team col).columns ≡ true
unfolding remove_found
remove_found-has_open state id team i col found h =
    elim (Bool-cases (is_empty (remaining_columns state team col))) [
      | inl last ↦ rw (last, remove_found) h
      | inr more ↦ elim (Bool-cases (has_recorded_data state team id)) [
        | inl kept ↦ rw (more, remove_found, kept, remove_found) h
        | inr dropped ↦
            rw (more, remove_found, dropped, remove_found)
              (release-has_open state id team i col (released_column team col) found more h)
      ]
    ]

-- A team that has a column of an inning, of its own or shared, still has one after it removes
-- any column.
pub apply_remove_column-has_open :
    (state : State) (id : String) (team : Team) (i : ℕ)
    → has_open team i state.columns ≡ true
    → has_open team i (apply_remove_column state id team).columns ≡ true
unfolding apply_remove_column
apply_remove_column-has_open state id team i h =
    elim (Option-cases (find (λ c. str_eq c.id id) state.columns)) [
      | inl missing ↦ rw (missing, apply_remove_column) h
      | inr (col, found) ↦
          rw (found, apply_remove_column) (remove_found-has_open state id team i col found h)
    ]
