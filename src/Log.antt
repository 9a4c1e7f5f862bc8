-- ===== src/Log.antt =====
-- The action log: which actions are undone, and `computeStateFromLog` of frontend/reducer.js.
pub mod Undone
pub mod Ids
pub mod Replay
pub mod Runs
use skorekeeper.Common.{
  String, Bool, true, false, ◌&&◌, not, List, [], ◌∷◌, Option, none, some, filter, elem, str_eq,
  if◌then◌else◌, ◌>>=◌,
}
use skorekeeper.Game.{State, initial_state, Action, Body}
use skorekeeper.Reducer.{game_reducer}

unfoldable pub is_undo : Body → Bool
is_undo (Body.undo ref_id) = true
is_undo _ = false

-- What an active action adds to the set of undone ids.
unfoldable pub undo_target : Body → Option String
undo_target (Body.undo ref_id) = if str_eq ref_id "" then none else some ref_id
undo_target _ = none

abbrev add_target : Option String → List String → List String
add_target none undone = undone
add_target (some id) undone = id ∷ undone

-- One round of the backward loop: an undone action has no effect.
unfoldable pub mark_undone : List String → Action → List String
unfolding undo_target
mark_undone undone a = if elem a.id undone then undone else add_target (undo_target a.body) undone

-- The backward loop, from the set found in what follows the log.
unfoldable pub undone_from : List Action → List String → List String
unfolding mark_undone
undone_from [] undone = undone
undone_from (a ∷ log) undone = mark_undone (undone_from log undone) a

-- `effectivelyUndone`
unfoldable pub effectively_undone : List Action → List String
unfolding undone_from
effectively_undone log = undone_from log []

abbrev pub is_effective : List String → Action → Bool
is_effective undone a = not (elem a.id undone) && not (is_undo a.body)

-- The forward loop; `none` once an action raises.
unfoldable pub replay : List String → State → List Action → Option State
replay undone s [] = some s
replay undone s (a ∷ log) =
    let next = game_reducer s a >>= λ t. replay undone t log in
    let skipped = replay undone s log in if is_effective undone a then next else skipped

pub record Game : Type 0 where
  pub state : State
  pub action_log : List Action

abbrev pub attach_log : List Action → Option State → Option Game
attach_log log none = none
attach_log log (some s) = some (record { state = s; action_log = log })

unfoldable pub compute_state_from_log : List Action → Option Game
unfolding replay effectively_undone
compute_state_from_log [] = some (record { state = initial_state; action_log = [] })
compute_state_from_log (a ∷ log) =
    attach_log (a ∷ log) (replay (effectively_undone (a ∷ log)) initial_state (a ∷ log))
