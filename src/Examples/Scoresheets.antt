-- ===== src/Examples/Scoresheets.antt =====
-- Rosters, columns and edits in the small game, and the reducer on them.
use skorekeeper.Common.{
  true, [], ◌∷◌, none, some, lookup, insert, if◌then◌else◌, ◌++◌, ◌≡◌, refl, ◌||◌, arith, str_eq,
  inr,
}
use skorekeeper.Common.Text.{show_nat}
use skorekeeper.Game.{away, home, PitchEntry, event_key, State, Slot, Action, Body}
use skorekeeper.Outs.Counted.{AllCounted}
use skorekeeper.Roster.{apply_substitution}
use skorekeeper.Edits.{apply_move_play}
use skorekeeper.Edits.Cells.{lookup-apply_move_play}
use skorekeeper.Reducer.{game_reducer}
use skorekeeper.Reducer.Bounds.{HasRoom, AllCounted-game_reducer}
use skorekeeper.Runners.{runners_out, apply_runner_advance}
use skorekeeper.Columns.{is_open_to, column_id, is_recorded, apply_add_column, apply_remove_column}
use skorekeeper.Columns.Ids.{has_column}
use skorekeeper.Columns.Order.{sub_of, DistinctIds, IsSorted, apply_add_column_lem}
use skorekeeper.Columns.Removal.{has_open, apply_remove_column-lookup, apply_remove_column-has_open}
use skorekeeper.Examples.Data.{
  full_count, struck_out, in_progress, two_columns, player, lead_off, second_slot, substitute_for,
  move, advance,
}

abbrev on_field : Slot
on_field = record lead_off { current = player "p3"; history = player "p1" ∷ [] }

abbrev substituted : State
substituted = record in_progress {
  roster = record { of_away = on_field ∷ second_slot ∷ []; of_home = lead_off ∷ second_slot ∷ [] };
  events =
      (
        "away-0-col-1-0",
        record full_count {
          p_id = "p3";
          pitch_sequence = full_count.pitch_sequence ++ PitchEntry.substitution "a3" ∷ [];
        },
      )
      ∷ ("away-1-col-1-0", struck_out)
      ∷ [];
}

substitution_test : apply_substitution in_progress (substitute_for 0) ≡ some substituted
unfolding apply_substitution event_key lookup insert show_nat
substitution_test = refl

lookup-apply_move_play_example :
    lookup "away-0-col-1-1" (apply_move_play in_progress move).events ≡ (
      if str_eq "away-0-col-1-0" "away-0-col-1-1"
      then none
      else if str_eq "away-0-col-1-1" "away-0-col-1-1"
      then some full_count
      else lookup "away-0-col-1-1" in_progress.events)
lookup-apply_move_play_example = lookup-apply_move_play in_progress move "away-0-col-1-1"

abbrev moving : Action
moving = record { id = "m1"; body = Body.move_play move }

in_progress-AllCounted : AllCounted in_progress.events
in_progress-AllCounted = (omega arith, (omega arith, tt))

game_reducer_test : game_reducer in_progress moving ≡ some (apply_move_play in_progress move)
unfolding game_reducer
game_reducer_test = refl

-- A runner advance in which the runner's out comes first.
abbrev advancing : Action
advancing = record { id = "r1"; body = Body.runner_advance advance }

advancing-HasRoom : HasRoom in_progress advancing.body
unfolding runners_out event_key lookup show_nat
advancing-HasRoom = inr (omega arith)

advancing_test :
    game_reducer in_progress advancing ≡ some (apply_runner_advance in_progress advance)
unfolding game_reducer
advancing_test = refl

AllCounted-game_reducer_example : AllCounted (apply_runner_advance in_progress advance).events
AllCounted-game_reducer_example =
    AllCounted-game_reducer in_progress (apply_runner_advance in_progress advance) advancing tt
      advancing-HasRoom in_progress-AllCounted advancing_test

two_columns-DistinctIds : DistinctIds two_columns
unfolding column_id show_nat
two_columns-DistinctIds = ((0, refl), refl, ((1, refl), refl, tt))

apply_add_column_lem_example :
    DistinctIds (apply_add_column in_progress 1 none).columns
    × IsSorted (apply_add_column in_progress 1 none).columns
    × (has_column "col-1-2" (apply_add_column in_progress 1 none).columns ≡ (
        has_column "col-1-2" two_columns || str_eq (column_id 1 (sub_of 1 two_columns)) "col-1-2"))
apply_add_column_lem_example =
    apply_add_column_lem in_progress 1 none "col-1-2" two_columns-DistinctIds

found_test : lookup "away-1-col-1-0" in_progress.events ≡ some struck_out
unfolding lookup
found_test = refl

recorded_test : is_recorded struck_out ≡ true
unfolding is_recorded
recorded_test = refl

apply_remove_column-lookup_example :
    lookup "away-1-col-1-0" (apply_remove_column in_progress "col-1-0" away).events
    ≡ some struck_out
apply_remove_column-lookup_example =
    apply_remove_column-lookup in_progress "col-1-0" away "away-1-col-1-0" struck_out found_test
      recorded_test

open_test : has_open home 1 in_progress.columns ≡ true
unfolding is_open_to
open_test = refl

apply_remove_column-has_open_example :
    has_open home 1 (apply_remove_column in_progress "col-1-0" home).columns ≡ true
apply_remove_column-has_open_example =
    apply_remove_column-has_open in_progress "col-1-0" home 1 open_test
