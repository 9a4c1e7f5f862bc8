-- ===== src/Feed/Snapshots.antt =====
-- `propagateStates` of frontend/game/historyManager.js: the state
-- before and after every item. The names that `augmentActionWithNames` writes into the payloads,
-- which the reducer never reads, are left out. `none` stands for a raised exception.
use skorekeeper.Common.{
  ℕ, String, Bool, true, false, List, [], ◌∷◌, ◌++◌, map, Option, none, some, ◌>>=◌, get_elem?,
  last?, any, str_eq, if◌then◌else◌,
}
use skorekeeper.Common.Text.{split_dash, parse_int}
use skorekeeper.Game.{
  PerTeam, Player, Slot, new_column, State, initial_state, GameStatus, Action, final, ongoing,
}
use skorekeeper.Reducer.{game_reducer}
use skorekeeper.History.{get_effective_log}
use skorekeeper.Feed.{body_ctx, build_feed}
use skorekeeper.Feed.Rows.{Row, header, play, inning_of, team_part, insert_headers}
use skorekeeper.Feed.Narrative.{Narrative, roster_of, player_at, map_internal_state_to_narrative}

-- An item of the history with what is attached to it.
pub record Snap : Type 0 where
  pub row : Row
  pub state_before : Narrative
  pub batter : Option Player
  pub state_after : Option Narrative

abbrev pub row_key : Row → String
row_key (header h) = h.ctx_key
row_key (play h) = h.ctx_key

abbrev pub narrative_for : String → State → Option Narrative
narrative_for key s = map_internal_state_to_narrative s (team_part key) (inning_of key)

abbrev slot_index : Option String → Option ℕ
slot_index none = none
slot_index (some w) = parse_int w

abbrev batter_in : Option String → Option ℕ → State → Option Player
batter_in none i s = none
batter_in (some team) i s = roster_of team s >>= player_at i

-- `item.batter`
unfoldable pub batter_of : String → State → Option Player
unfolding roster_of player_at
batter_of key s = batter_in (team_part key) (slot_index (get_elem? (split_dash key) 2)) s

-- The column of the action, where the state lacks it.
unfoldable pub infer_column : Action → State → State
unfolding body_ctx
infer_column a s = elim (body_ctx a.body) [
  | none ↦ s
  | some (c, team) ↦
      if any (λ col. str_eq col.id c.col) s.columns
      then s
      else record s { columns = s.columns ++ new_column c.i c.col none ∷ [] }
]

unfoldable pub apply_events : State → List Action → Option State
unfolding infer_column
apply_events s [] = some s
apply_events s (a ∷ events) = game_reducer (infer_column a s) a >>= λ t. apply_events t events

-- The end of a round: a struck play leaves the state as it was.
unfoldable pub leave : State → State → Snap → String → Bool → Option (Snap × State)
leave s reached snap key true = some (snap, s)
leave s reached snap key false =
    narrative_for key reached >>= λ after. some (record snap { state_after = some after }, reached)

-- One round of `propagateStates`: the item and the state for the next one.
unfoldable pub visit : State → Row → Option (Snap × State)
unfolding batter_of leave
visit s (header h) = narrative_for h.ctx_key s >>= λ before. some (
  record {
    row = header h;
    state_before = before;
    batter = batter_of h.ctx_key s;
    state_after = none;
  },
  s,
)
visit s (play h) = narrative_for h.ctx_key s >>= λ before. apply_events s h.events >>= λ reached.
    leave s reached
      (record {
        row = play h;
        state_before = before;
        batter = batter_of h.ctx_key s;
        state_after = none;
      })
      h.ctx_key h.is_stricken

unfoldable pub propagate_from : State → List Row → Option (List Snap)
unfolding visit
propagate_from s [] = some []
propagate_from s (r ∷ rows) =
    visit s r >>= λ o. propagate_from o.1 rows >>= λ rest. some (o.0 ∷ rest)

abbrev reset_slot : Slot → Slot
reset_slot slot = record slot { current = slot.starter; history = [] }

-- The state before the first item: the starters of the roster, and nothing else.
unfoldable pub start_state : PerTeam (List Slot) → State
start_state roster = record initial_state {
  roster = record {
    of_away = map reset_slot roster.of_away;
    of_home = map reset_slot roster.of_home;
  };
}

unfoldable pub propagate_states : PerTeam (List Slot) → List Row → Option (List Snap)
unfolding propagate_from start_state
propagate_states roster rows = propagate_from (start_state roster) rows

-- The state of the item `final-summary`; of a game without items it has a score only.
pub data Summary : Type 0 where
  nothing_played : Summary
  closing : Narrative → Summary

pub record LinearHistory : Type 0 where
  pub items : List Snap
  pub summary : Option Summary

unfoldable pub closing_state : Option Snap → Summary
closing_state none = nothing_played
closing_state (some snap) = elim snap.state_after [
  | none ↦ closing snap.state_before
  | some after ↦ closing after
]

abbrev summary_of : GameStatus → List Snap → Option Summary
summary_of ongoing items = none
summary_of final items = some (closing_state (last? items))

unfoldable pub generate_linear_history : State → List Action → Option LinearHistory
unfolding propagate_states closing_state
generate_linear_history game log =
    let history = (build_feed (get_effective_log log)).history in
    propagate_states game.roster (insert_headers game.team_name history) >>= λ items.
    some (record { items = items; summary = summary_of game.status items })
