-- ===== src/Stats/Scores.antt =====
-- The score: loops of `calculateGameStats` of frontend/game/statsEngine.js, with
-- `calculateTotalRunsInternal`.
use skorekeeper.Common.{
  ℕ, ◌+◌, String, Bool, true, false, ◌&&◌, ◌||◌, List, [], ◌∷◌, Option, none, some, str_eq, ◌==◌,
  if◌then◌else◌, Dict, lookup, insert, get_or, filter, find, max,
}
use skorekeeper.Common.Text.{◌+++◌, starts_with, show_nat, parse_int}
use skorekeeper.Game.{
  State, Team, Event, Column, Score, num, text, side, team_text, key_team, key_col,
}
use skorekeeper.Columns.{is_open_to, is_recorded}
use skorekeeper.Stats.Lines.{InningLine}
use skorekeeper.Stats.Innings.{inning_key}

-- `R`, `H` and `E`.
pub record LineScore : Type 0 where
  pub runs : ℕ
  pub hits : ℕ
  pub errors : ℕ

abbrev pub includes_inning : ℕ → List ℕ → Bool
includes_inning n [] = false
includes_inning n (m ∷ ms) = (m == n) || includes_inning n ms

-- `[...new Set(columns.map(c => c.inning))]`
unfoldable pub unique_innings : List ℕ → List Column → List ℕ
unique_innings seen [] = []
unique_innings seen (c ∷ columns) =
    let more = unique_innings (c.inning ∷ seen) columns in
    let rest = unique_innings seen columns in
    if includes_inning c.inning seen then rest else c.inning ∷ more

abbrev pub runs_in : Option InningLine → ℕ
runs_in none = 0
runs_in (some l) = l.r

abbrev pub sum_runs : Team → Dict InningLine → List Column → ℕ
sum_runs team lines [] = 0
sum_runs team lines (c ∷ columns) =
    runs_in (lookup (inning_key team c) lines) + sum_runs team lines columns

-- `parseInt(override) || 0`
abbrev pub score_value : Score → ℕ
score_value (num n) = n
score_value (text s) = get_or (parse_int s) 0

abbrev pub inning_runs : State → Team → Dict InningLine → ℕ → ℕ
inning_runs game team lines inning = elim (lookup (show_nat inning) (side team game.overrides)) [
  | some value ↦ score_value value
  | none ↦
      sum_runs team lines (filter (λ c. (c.inning == inning) && is_open_to team c) game.columns)
]

abbrev pub total_of : State → Team → Dict InningLine → List ℕ → ℕ
total_of game team lines [] = 0
total_of game team lines (i ∷ innings) =
    inning_runs game team lines i + total_of game team lines innings

unfoldable pub calculate_total_runs_internal : State → Team → Dict InningLine → ℕ
unfolding unique_innings
calculate_total_runs_internal game team lines =
    total_of game team lines (unique_innings [] game.columns)

-- Hits of the columns of the team, and its errors in all columns.
abbrev pub add_column_line : Team → Dict InningLine → Column → LineScore → LineScore
add_column_line team lines c s = elim (lookup (inning_key team c) lines) [
  | none ↦ s
  | some l ↦ record s {
    hits = if is_open_to team c then s.hits + l.h else s.hits;
    errors = s.errors + l.e;
  }
]

unfoldable pub add_columns : Team → Dict InningLine → List Column → LineScore → LineScore
add_columns team lines [] s = s
add_columns team lines (c ∷ columns) s =
    add_columns team lines columns (add_column_line team lines c s)

abbrev pub score_of : State → Team → Dict InningLine → LineScore
score_of game team lines =
    add_columns team lines game.columns
      (record { runs = calculate_total_runs_internal game team lines; hits = 0; errors = 0 })

-- `innings[team]`: the runs of each inning.
abbrev pub add_inning_runs : Team → Dict InningLine → Column → Dict ℕ → Dict ℕ
add_inning_runs team lines c runs = elim (lookup (inning_key team c) lines) [
  | none ↦ runs
  | some l ↦
      if is_open_to team c
      then insert (show_nat c.inning) (get_or (lookup (show_nat c.inning) runs) 0 + l.r) runs
      else runs
]

unfoldable pub innings_of : Team → Dict InningLine → List Column → Dict ℕ → Dict ℕ
innings_of team lines [] runs = runs
innings_of team lines (c ∷ columns) runs =
    innings_of team lines columns (add_inning_runs team lines c runs)

-- The column of a cell.
abbrev pub column_of : List Column → String → Option Column
column_of columns key = find (λ c. str_eq c.id (key_col key)) columns

abbrev pub is_key_of : Team → String → Bool
is_key_of team key = starts_with key (team_text team +++ "-")

-- `hasAB[team]`: the innings with a cell that something is recorded in.
unfoldable pub mark_at_bats : Team → List Column → Dict Event → Dict Bool → Dict Bool
mark_at_bats team columns [] marks = marks
mark_at_bats team columns ((key, evt) ∷ events) marks =
    mark_at_bats team columns events (elim (column_of columns key) [
      | none ↦ marks
      | some c ↦
          if is_key_of team key && is_recorded evt
          then insert (show_nat c.inning) true marks
          else marks
    ])

abbrev pub outs_key : String → ℕ → String
outs_key team inning = team +++ "-" +++ show_nat inning

unfoldable pub inning_outs : List Column → Dict Event → Dict ℕ → Dict ℕ
inning_outs columns [] outs = outs
inning_outs columns ((key, evt) ∷ events) outs =
    inning_outs columns events (elim (column_of columns key) [
      | none ↦ outs
      | some c ↦
          let k = outs_key (key_team key) c.inning in
          insert k (max (get_or (lookup k outs) 0) evt.out_num) outs
    ])
