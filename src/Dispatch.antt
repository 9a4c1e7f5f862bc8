-- ===== src/Dispatch.antt =====
-- `dispatch` of frontend/controllers/ActiveGameController.js: an action enters the log of the active
-- game, and the state follows, step by step or by replay.
pub mod Refinement
use skorekeeper.Common.{
  String, List, [], ◌∷◌, ◌++◌, Bool, Option, some, any, str_eq, if◌then◌else◌, ◌>>=◌,
}
use skorekeeper.Game.{Action}
use skorekeeper.Reducer.{game_reducer}
use skorekeeper.Log.{is_undo, Game, compute_state_from_log}

-- `actionLog.some(a => a.id === actionData.id)`
abbrev pub in_log : String → List Action → Bool
in_log id log = any (λ a. str_eq a.id id) log

-- An action that the log has is ignored; an undo replays the log; any other is applied to the state.
unfoldable pub dispatch : Game → Action → Option Game
dispatch g a =
    let log = g.action_log ++ a ∷ [] in
    if in_log a.id g.action_log
    then some g
    else if is_undo a.body
    then compute_state_from_log log
    else (game_reducer g.state a >>= λ s. some (record { state = s; action_log = log }))

-- A session: dispatches one after another, up to the first that raises.
unfoldable pub dispatch_all : Game → List Action → Option Game
unfolding dispatch
dispatch_all g [] = some g
dispatch_all g (a ∷ actions) = dispatch g a >>= λ h. dispatch_all h actions
