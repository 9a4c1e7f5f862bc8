-- ===== src/Reducer.antt =====
-- `gameReducer` of frontend/reducer.js: one action on the state. `none` is an exception of
-- `applySubstitution` or `applyLineupUpdate`. The other handlers raise only on a cell or a payload
-- that lacks a field which its type has, and these are outside the model.
pub mod Bounds
use skorekeeper.Common.{Option, some}
use skorekeeper.Game.{State, Action, Body}
use skorekeeper.Pitch.{apply_pitch}
use skorekeeper.Play.{apply_play_result}
use skorekeeper.Runners.{apply_runner_advance, apply_runner_batch_update}
use skorekeeper.Columns.{
  apply_add_inning, apply_add_column, apply_remove_column, apply_set_inning_lead,
}
use skorekeeper.Roster.{apply_game_start, apply_lineup_update, apply_substitution}
use skorekeeper.Edits.{
  apply_game_finalize, apply_game_metadata_update, apply_game_import, apply_clear_data,
  apply_move_play, apply_pitcher_update, apply_score_override, apply_rbi_edit, apply_out_num_update,
  apply_manual_path_override,
}

-- The `switch` on `action.type`.
unfoldable pub reduce_body : State → Body → Option State
reduce_body s (Body.game_import p) = some (apply_game_import s p)
reduce_body s (Body.game_start p) = some (apply_game_start s p)
reduce_body s (Body.pitch p) = some (apply_pitch s p)
reduce_body s (Body.play_result p) = some (apply_play_result s p)
reduce_body s (Body.runner_advance p) = some (apply_runner_advance s p)
reduce_body s (Body.substitution p) = apply_substitution s p
reduce_body s (Body.lineup_update p) = apply_lineup_update s p
reduce_body s (Body.score_override p) = some (apply_score_override s p)
reduce_body s (Body.pitcher_update team pitcher) = some (apply_pitcher_update s team pitcher)
reduce_body s (Body.move_play p) = some (apply_move_play s p)
reduce_body s (Body.clear_data p) = some (apply_clear_data s p)
reduce_body s (Body.runner_batch_update p) = some (apply_runner_batch_update s p)
reduce_body s Body.add_inning = some (apply_add_inning s)
reduce_body s (Body.add_column inning team) = some (apply_add_column s inning team)
reduce_body s (Body.remove_column col_id team) = some (apply_remove_column s col_id team)
reduce_body s (Body.game_metadata_update p) = some (apply_game_metadata_update s p)
reduce_body s (Body.set_inning_lead team col_id row) =
    some (apply_set_inning_lead s team col_id row)
reduce_body s Body.game_finalize = some (apply_game_finalize s)
reduce_body s (Body.rbi_edit key player) = some (apply_rbi_edit s key player)
reduce_body s (Body.out_num_update key n) = some (apply_out_num_update s key n)
reduce_body s (Body.manual_path_override key d) = some (apply_manual_path_override s key d)
reduce_body s (Body.undo ref_id) = some s
reduce_body s (Body.unknown type) = some s

unfoldable pub game_reducer : State → Action → Option State
unfolding reduce_body
game_reducer s a = reduce_body s a.body
