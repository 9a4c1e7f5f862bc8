-- ===== src/Columns.antt =====
-- Columns of the scoresheet: adding innings and columns, sorting and removing them
-- (`applyAddInning`, `applyAddColumn`, `applyRemoveColumn`, `applySetInningLead` of
-- frontend/reducer.js, and the column part of `applyMovePlay`).
pub mod Ids
pub mod Order
pub mod Removal
use skorekeeper.Common.{
  ℕ, ◌+◌, String, Bool, true, false, ◌&&◌, ◌||◌, not, List, [], ◌∷◌, ◌++◌, map, Option, none, some,
  Dict, filter, any, find, drop, str_eq, ltb, ◌==◌, if◌then◌else◌,
}
use skorekeeper.Common.Text.{◌+++◌, show_nat, parse_int, split_dash}
use skorekeeper.Game.{
  Team, team_text, other_team, team_eq, Event, Column, new_column, put_side, State, key_team,
  key_col,
}

-- `col-${inning}-${sub}`
unfoldable pub column_id : ℕ → ℕ → String
column_id inning sub = "col-" +++ show_nat inning +++ "-" +++ show_nat sub

abbrev part_or : Option ℕ → List String → Option ℕ
part_or missing [] = missing
part_or missing (w ∷ ws) = parse_int w

-- `parseInt(id.split('-')[2] || 0)`: a missing or empty part counts as 0; `none` is NaN.
unfoldable pub sub_index : String → Option ℕ
sub_index id = elim (drop 2 (split_dash id)) [
  | [] ↦ some 0
  | w ∷ _ ↦ if str_eq w "" then some 0 else parse_int w
]

-- `parseInt(id.split('-')[2])`
unfoldable pub strict_sub_index : String → Option ℕ
strict_sub_index id = part_or none (drop 2 (split_dash id))

-- Whether the comparator is positive on `a`, `b`; a difference with NaN counts as equal.
abbrev pub opt_ltb : Option ℕ → Option ℕ → Bool
opt_ltb (some a) (some b) = ltb a b
opt_ltb _ _ = false

unfoldable pub comes_after : (String → Option ℕ) → Column → Column → Bool
comes_after sub a b =
    if a.inning == b.inning then opt_ltb (sub b.id) (sub a.id) else ltb b.inning a.inning

-- The stable sort of the columns by that comparator.
unfoldable pub insert_column : (String → Option ℕ) → Column → List Column → List Column
insert_column sub c [] = c ∷ []
insert_column sub c (d ∷ cols) =
    if comes_after sub c d then d ∷ insert_column sub c cols else c ∷ d ∷ cols

unfoldable pub sort_columns : (String → Option ℕ) → List Column → List Column
unfolding insert_column comes_after
sort_columns sub [] = []
sort_columns sub (c ∷ cols) = insert_column sub c (sort_columns sub cols)

unfoldable pub max_inning : ℕ → List Column → ℕ
max_inning m [] = m
max_inning m (c ∷ cols) = max_inning (if ltb m c.inning then c.inning else m) cols

unfoldable pub apply_add_inning : State → State
unfolding max_inning column_id
apply_add_inning state =
    let next = max_inning 0 state.columns + 1 in
    record state { columns = state.columns ++ new_column next (column_id next 0) none ∷ [] }

-- `maxSub + 1`, which starts at 0 since `maxSub` starts at -1.
unfoldable pub next_sub : ℕ → List Column → ℕ
next_sub n [] = n
next_sub n (c ∷ cols) =
    next_sub
      (elim (sub_index c.id) [ none ↦ n | some sub ↦ if ltb n (sub + 1) then sub + 1 else n ]) cols

unfoldable pub apply_add_column : State → ℕ → Option Team → State
unfolding next_sub sub_index sort_columns column_id
apply_add_column state target_inning team =
    let sub = next_sub 0 (filter (λ c. c.inning == target_inning) state.columns) in
    let col = new_column target_inning (column_id target_inning sub) team in
    record state { columns = sort_columns sub_index (state.columns ++ col ∷ []) }

-- The column part of `applyMovePlay`.
unfoldable pub add_moved_column : Option Column → List Column → List Column
unfolding sort_columns strict_sub_index
add_moved_column none cols = cols
add_moved_column (some col) cols = sort_columns strict_sub_index (cols ++ col ∷ [])

-- `!c.team || c.team === team`
unfoldable pub is_open_to : Team → Column → Bool
is_open_to team c = elim c.team [ none ↦ true | some t ↦ team_eq t team ]

-- The columns that the team keeps in the inning without this one.
unfoldable pub remaining_columns : State → Team → Column → List Column
unfolding is_open_to
remaining_columns state team col =
    filter (λ c. (c.inning == col.inning) && is_open_to team c && not (str_eq c.id col.id))
      state.columns

unfoldable pub is_recorded : Event → Bool
is_recorded ev = not (str_eq ev.outcome "") || elim ev.pitch_sequence [ [] ↦ false | _ ∷ _ ↦ true ]

-- Whether the key is that of a cell of the team in the column.
unfoldable pub is_cell_of : Team → String → String → Bool
is_cell_of team col_id key = str_eq (key_team key) (team_text team) && str_eq (key_col key) col_id

unfoldable pub has_recorded_data : State → Team → String → Bool
unfolding is_cell_of is_recorded
has_recorded_data state team col_id =
    any (λ b. is_cell_of team col_id b.0 && is_recorded b.1) state.events

unfoldable pub drop_cells : Team → String → Dict Event → Dict Event
unfolding is_cell_of
drop_cells team col_id events = filter (λ b. not (is_cell_of team col_id b.0)) events

-- What becomes of the first column with the id: spliced out, or handed to the other team.
unfoldable pub replace_first : String → Option Column → List Column → List Column
replace_first col_id new [] = []
replace_first col_id new (c ∷ cols) =
    if str_eq c.id col_id
    then elim new [ none ↦ cols | some d ↦ d ∷ cols ]
    else c ∷ replace_first col_id new cols

-- `none` where the column belongs to the other team and stays.
unfoldable pub released_column : Team → Column → Option (Option Column)
released_column team col = elim col.team [
  | none ↦ some (some (record col { team = some (other_team team) }))
  | some t ↦ if team_eq t team then some none else none
]

abbrev pub is_empty : List Column → Bool
is_empty [] = true
is_empty (_ ∷ _) = false

unfoldable pub release : State → String → Team → Option (Option Column) → State
release state col_id team none = state
release state col_id team (some new) = record state {
  columns = replace_first col_id new state.columns;
  events = drop_cells team col_id state.events;
}

-- The column, once found: it stays if it is the team's last in the inning, or has the team's data.
unfoldable pub remove_found : State → String → Team → Column → State
remove_found state col_id team col =
    if is_empty (remaining_columns state team col)
    then state
    else if has_recorded_data state team col_id
    then state
    else release state col_id team (released_column team col)

unfoldable pub apply_remove_column : State → String → Team → State
unfolding remove_found remaining_columns has_recorded_data released_column replace_first drop_cells
    release
apply_remove_column state col_id team = elim (find (λ c. str_eq c.id col_id) state.columns) [
  | none ↦ state
  | some col ↦ remove_found state col_id team col
]

-- `rowId === null` clears the team's lead row.
unfoldable pub apply_set_inning_lead : State → Team → String → Option ℕ → State
apply_set_inning_lead state team col_id row_id = record state {
  columns =
      map
        (λ c.
          if str_eq c.id col_id then record c { lead_row = put_side team row_id c.lead_row } else c)
        state.columns;
}
