-- ===== src/Feed.antt =====
-- The linear history of `HistoryManager` (frontend/game/historyManager.js): one item for each play of
-- a cell, with the actions that made it. Rows puts the headings in, Snapshots the states.
pub mod Rows
pub mod Narrative
pub mod Snapshots
pub mod Latest
pub mod Cells
pub mod Steps
pub mod Items
pub mod Routed
pub mod Replayed
use skorekeeper.Common.{
  ℕ, suc, String, Bool, true, false, ◌&&◌, ◌||◌, not, List, [], ◌∷◌, ◌++◌, Option, none, some, Dict,
  lookup, insert, any, filter, find, last?, get_or, foldl, str_eq, ◌==◌, if◌then◌else◌,
}
use skorekeeper.Common.Text.{◌+++◌, show_nat, ends_with}
use skorekeeper.Game.{Team, team_text, Ctx, MovePayload, Body, Action, key_team}

pub record Item : Type 0 where
  pub id : String
  pub ctx_key : String
  pub is_stricken : Bool
  pub was_cleared : Bool
  pub is_correction : Bool
  pub events : List Action

-- `history`, `contextMap` and `currentCtxKey`.
pub record Feed : Type 0 where
  pub history : List Item
  pub seen : Dict ℕ
  pub current : Option String

abbrev pub empty_feed : Feed
empty_feed = record { history = []; seen = []; current = none }

-- `payload.activeCtx` with `payload.activeTeam || payload.team`
unfoldable pub body_ctx : Body → Option (Ctx × Team)
body_ctx (Body.pitch p) = some (p.active_ctx, p.active_team)
body_ctx (Body.play_result p) = some (p.active_ctx, p.active_team)
body_ctx (Body.runner_advance p) = p.active
body_ctx (Body.runner_batch_update p) = some (p.active_ctx, p.active_team)
body_ctx (Body.clear_data p) = some (p.active_ctx, p.active_team)
body_ctx (Body.substitution p) = elim p.active_ctx [ none ↦ none | some c ↦ some (c, p.team) ]
body_ctx _ = none

unfoldable pub ctx_key_of : Ctx × Team → String
ctx_key_of (c, team) =
    show_nat c.i +++ "-" +++ team_text team +++ "-" +++ show_nat c.b +++ "-" +++ c.col

-- The cell of an action: its own, or the one in view.
unfoldable pub key_for : Option String → Body → Option String
unfolding body_ctx
key_for current body = elim (body_ctx body) [ none ↦ current | some c ↦ some (ctx_key_of c) ]

unfoldable pub create_history_item : String → List Action → ℕ → Bool → Item
create_history_item key events count is_correction = record {
  id = key +++ "-" +++ show_nat count;
  ctx_key = key;
  is_stricken = false;
  was_cleared = false;
  is_correction = is_correction;
  events = events;
}

abbrev pub has_key : String → Item → Bool
has_key key h = str_eq h.ctx_key key

-- `contextItems`
unfoldable pub items_of : String → List Item → List Item
items_of key history = filter (has_key key) history

-- An assignment to a field of the last one of `contextItems`.
unfoldable pub change_latest : String → (Item → Item) → List Item → List Item
change_latest key f [] = []
change_latest key f (h ∷ history) =
    let rest = change_latest key f history in
    if has_key key h && not (any (has_key key) history) then f h ∷ history else h ∷ rest

abbrev pub is_clear : Body → Bool
is_clear (Body.clear_data p) = true
is_clear _ = false

-- `isGenerativeAction`
abbrev pub is_generative : Body → Bool
is_generative (Body.play_result p) = true
is_generative (Body.clear_data p) = true
is_generative _ = false

abbrev pub has_generative : Item → Bool
has_generative h = any (λ a. is_generative a.body) h.events

-- `latestIsCleared`
abbrev pub is_cleared : Item → Bool
is_cleared h = any (λ a. is_clear a.body) h.events

abbrev pub strike : Item → Item
strike h = record h { is_stricken = true }

-- `latestItem.isStricken = true`, and `wasCleared` where the new action clears the cell.
abbrev pub strike_for : Action → Item → Item
strike_for a h = record h { is_stricken = true; was_cleared = is_clear a.body || h.was_cleared }

abbrev pub push_event : Action → Item → Item
push_event a h = record h { events = h.events ++ a ∷ [] }

abbrev pub seen_of : String → Feed → ℕ
seen_of key feed = get_or (lookup key feed.seen) 0

unfoldable pub append_item : String → Action → ℕ → Bool → Feed → Feed
unfolding create_history_item
append_item key a count is_correction feed = record feed {
  history = feed.history ++ create_history_item key (a ∷ []) count is_correction ∷ [];
  seen = insert key (suc count) feed.seen;
}

unfoldable pub set_latest : String → (Item → Item) → Feed → Feed
set_latest key f feed = record feed { history = change_latest key f feed.history }

-- The new action supersedes the latest play of the cell.
unfoldable pub supersedes : Action → Item → Bool
supersedes a latest = is_generative a.body && has_generative latest && not (is_cleared latest)

-- The new action starts another item.
unfoldable pub starts_item : Action → Item → Bool
starts_item a latest = is_generative a.body && has_generative latest || is_cleared latest

unfoldable pub extend_cell : String → Action → Item → Feed → Feed
unfolding supersedes starts_item append_item set_latest
extend_cell key a latest feed =
    if starts_item a latest
    then (let struck = if supersedes a latest then set_latest key (strike_for a) feed else feed in
        append_item key a (seen_of key feed) true struck)
    else set_latest key (push_event a) feed

unfoldable pub place : String → Action → Feed → Feed
unfolding append_item extend_cell
place key a feed =
    if seen_of key feed == 0
    then append_item key a 0 false feed
    else elim (last? (items_of key feed.history)) [
      | none ↦ append_item key a 0 false feed
      | some latest ↦ extend_cell key a latest feed
    ]

-- `findFullCtxKey`
unfoldable pub find_full_ctx_key : String → List Item → Option String
find_full_ctx_key key history = elim (find (λ h. ends_with h.ctx_key ("-" +++ key)) history) [
  | none ↦ none
  | some h ↦ some h.ctx_key
]

abbrev inferred_target : Option String → String → Option String
inferred_target none target = none
inferred_target (some source) target = some (key_team source +++ "-" +++ target)

-- `targetCtxKey`
unfoldable pub move_target : MovePayload → List Item → Option String
unfolding find_full_ctx_key
move_target p history =
    if str_eq p.target_key "" then none else elim (find_full_ctx_key p.target_key history) [
      | some key ↦ some key
      | none ↦ inferred_target (find_full_ctx_key p.source_key history) p.target_key
    ]

abbrev strike_source : Option String → Feed → Feed
strike_source none feed = feed
strike_source (some key) feed = set_latest key strike feed

-- The play arrives in its target, over what stood there.
unfoldable pub land_play : String → Action → Feed → Feed
unfolding append_item set_latest
land_play key a feed =
    let is_taken = not (seen_of key feed == 0) in
    let struck = if is_taken then set_latest key strike feed else feed in
    record (append_item key a (seen_of key feed) is_taken struck) { current = some key }

unfoldable pub record_move : MovePayload → Action → Feed → Feed
unfolding move_target find_full_ctx_key land_play set_latest
record_move p a feed =
    let struck = strike_source (find_full_ctx_key p.source_key feed.history) feed in
    elim (move_target p feed.history) [ none ↦ struck | some key ↦ land_play key a struck ]

abbrev pub as_move : Body → Option MovePayload
as_move (Body.move_play p) = some p
as_move _ = none

-- An action that is no move: it goes to its cell, if there is one.
unfoldable pub record_play : Feed → Action → Feed
unfolding place key_for
record_play feed a = elim (key_for feed.current a.body) [
  | none ↦ feed
  | some key ↦ place key a (record feed { current = some key })
]

-- One round of the replay.
unfoldable pub record_action : Feed → Action → Feed
unfolding record_move record_play
record_action feed a = elim (as_move a.body) [
  | some p ↦ record_move p a feed
  | none ↦ record_play feed a
]

unfoldable pub build_feed : List Action → Feed
unfolding record_action
build_feed log = foldl record_action empty_feed log
