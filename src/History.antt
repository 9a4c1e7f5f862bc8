-- ===== src/History.antt =====
-- `HistoryManager` of frontend/game/historyManager.js: the effective log, undo and redo.
pub mod Undo
pub mod Redo
use skorekeeper.Common.{
  String, Bool, true, false, not, List, [], ◌∷◌, Option, none, some, filter, elem, str_eq,
  if◌then◌else◌,
}
use skorekeeper.Game.{Action, Body}
use skorekeeper.Log.{is_undo, effectively_undone, is_effective}

-- `_getEffectivelyUndoneSet` is the loop of `computeStateFromLog` once more.
unfoldable pub get_effective_log : List Action → List Action
get_effective_log log = filter (is_effective (effectively_undone log)) log

-- The backward search for the last effective action.
undo_target_from : List String → List Action → Option String
undo_target_from undone [] = none
undo_target_from undone (a ∷ log) = elim (undo_target_from undone log) [
  | some id ↦ some id
  | none ↦ if is_effective undone a then some a.id else none
]

unfoldable pub get_undo_target_id : List Action → Option String
unfolding undo_target_from
get_undo_target_id log = undo_target_from (effectively_undone log) log

-- `actionMap.get(id)`: the last action with the id.
unfoldable pub find_action : String → List Action → Option Action
find_action id [] = none
find_action id (a ∷ log) = elim (find_action id log) [
  | some b ↦ some b
  | none ↦ if str_eq a.id id then some a else none
]

-- The backward search of `getRedoTargetId`: it goes on, or stops with a result.
pub data Search : Type 0 where
  searching : Search
  stop : Option String → Search

abbrev names_other : Option Action → Bool
names_other none = false
names_other (some a) = not (is_undo a.body)

abbrev ref_of : Body → String
ref_of (Body.undo ref_id) = ref_id
ref_of _ = ""

-- One round, at an action that the loop reaches.
unfoldable pub redo_step : List String → List Action → Action → Search
unfolding find_action
redo_step undone log a =
    if is_undo a.body
    then (if elem a.id undone
        then searching
        else if names_other (find_action (ref_of a.body) log)
        then stop (some a.id)
        else searching)
    else (if elem a.id undone then searching else stop none)

redo_target_from : List String → List Action → List Action → Search
redo_target_from undone all [] = searching
redo_target_from undone all (a ∷ log) = elim (redo_target_from undone all log) [
  | stop r ↦ stop r
  | searching ↦ redo_step undone all a
]

abbrev found : Search → Option String
found searching = none
found (stop r) = r

unfoldable pub get_redo_target_id : List Action → Option String
unfolding redo_target_from redo_step
get_redo_target_id log = found (redo_target_from (effectively_undone log) log log)

-- What `undo` and `redo` dispatch, if anything.
abbrev dispatched : Bool → Option String → Option Body
dispatched read_only none = none
dispatched read_only (some id) =
    if read_only then none else if str_eq id "" then none else some (Body.undo id)

unfoldable pub undo : List Action → Bool → Option Body
unfolding get_undo_target_id
undo log read_only = dispatched read_only (get_undo_target_id log)

unfoldable pub redo : List Action → Bool → Option Body
unfolding get_redo_target_id
redo log read_only = dispatched read_only (get_redo_target_id log)
