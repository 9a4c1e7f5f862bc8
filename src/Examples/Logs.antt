-- ===== src/Examples/Logs.antt =====
-- Undo, redo and replay of a short log.
use skorekeeper.Common.{arith, eq_iff, true, List, [], ◌∷◌, ◌++◌, some, elem, ◌≡◌, refl, ◌↔◌, inr}
use skorekeeper.Game.{initial_state, Action}
use skorekeeper.Reducer.{game_reducer}
use skorekeeper.Edits.{apply_pitcher_update}
use skorekeeper.Log.{is_undo, undo_target, Game, effectively_undone, compute_state_from_log}
use skorekeeper.Log.Undone.{IsUndone, elem-effectively_undone_iff}
use skorekeeper.Log.Ids.{UniqueIds, IsFresh}
use skorekeeper.Log.Replay.{reduce_all}
use skorekeeper.Log.Runs.{Runs, compute_state_from_log-Runs}
use skorekeeper.Columns.{apply_add_inning}
use skorekeeper.History.{get_effective_log, get_undo_target_id, get_redo_target_id}
use skorekeeper.History.Undo.{undo_action, state_of, undo_last}
use skorekeeper.History.Redo.{redo-undo}
use skorekeeper.Dispatch.{dispatch}
use skorekeeper.Dispatch.Refinement.{IsReplayed, dispatch-IsReplayed}
use skorekeeper.Examples.Data.{add_inning, new_pitcher, short_log}

abbrev undone_log : List Action
undone_log = short_log ++ undo_action "u1" "a2" ∷ []

short_log-UniqueIds : UniqueIds short_log
short_log-UniqueIds = (refl, (refl, tt))

u1-IsFresh : IsFresh "u1" short_log
unfolding undo_target
u1-IsFresh = record { unused = refl; unnamed = refl; nonempty = ground (arith, eq_iff "u1" "") }

undo_target_test : get_undo_target_id short_log ≡ some "a2"
unfolding get_undo_target_id effectively_undone is_undo
undo_target_test = refl

redo-undo_example :
    (get_redo_target_id (short_log ++ undo_action "u1" "a2" ∷ []) ≡ some "u1")
    × (get_effective_log (short_log ++ undo_action "u1" "a2" ∷ undo_action "u2" "u1" ∷ [])
        ≡ get_effective_log short_log)
    × (state_of
          (compute_state_from_log (short_log ++ undo_action "u1" "a2" ∷ undo_action "u2" "u1" ∷ []))
        ≡ state_of (compute_state_from_log short_log))
redo-undo_example =
    redo-undo short_log "u1" "u2" "a2" short_log-UniqueIds u1-IsFresh
      (ground (arith, eq_iff "a2" "")) undo_target_test

effective_test : get_effective_log short_log ≡ (add_inning ∷ []) ++ new_pitcher ∷ []
unfolding get_effective_log effectively_undone is_undo
effective_test = refl

undo_last_example :
    (get_undo_target_id short_log ≡ some "a2")
    × (get_effective_log (short_log ++ undo_action "u1" "a2" ∷ []) ≡ add_inning ∷ [])
    × (state_of (compute_state_from_log (short_log ++ undo_action "u1" "a2" ∷ []))
        ≡ reduce_all initial_state (add_inning ∷ []))
undo_last_example =
    undo_last short_log "u1" (add_inning ∷ []) new_pitcher short_log-UniqueIds
      (ground (arith, eq_iff "a2" "")) effective_test

elem-effectively_undone_iff_example :
    (elem "a2" (effectively_undone undone_log) ≡ true) ↔ IsUndone "a2" undone_log
elem-effectively_undone_iff_example = elem-effectively_undone_iff undone_log "a2"

-- The game after the log with the undo: the new pitcher is taken back.
abbrev one_more_inning : Game
one_more_inning = record { state = apply_add_inning initial_state; action_log = undone_log }

compute_state_from_log-Runs_example : (compute_state_from_log undone_log ≡ some one_more_inning) ↔ (
    (one_more_inning.action_log ≡ undone_log)
    × Runs undone_log initial_state undone_log one_more_inning.state)
compute_state_from_log-Runs_example = compute_state_from_log-Runs undone_log one_more_inning

undone_test : compute_state_from_log undone_log ≡ some one_more_inning
unfolding compute_state_from_log effectively_undone is_undo game_reducer
undone_test = refl

abbrev new_game : Game
new_game = record { state = initial_state; action_log = [] }

new_game-IsReplayed : IsReplayed new_game
unfolding compute_state_from_log
new_game-IsReplayed = refl

abbrev with_pitcher : Game
with_pitcher = record {
  state = record initial_state { pitchers = record { of_away = "p9"; of_home = "" } };
  action_log = new_pitcher ∷ [];
}

dispatch_test : dispatch new_game new_pitcher ≡ some with_pitcher
unfolding dispatch is_undo game_reducer apply_pitcher_update
dispatch_test = refl

dispatch-IsReplayed_example : IsReplayed with_pitcher
unfolding undo_target
dispatch-IsReplayed_example =
    dispatch-IsReplayed new_game with_pitcher new_pitcher new_game-IsReplayed (inr refl)
      dispatch_test
