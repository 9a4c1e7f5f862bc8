-- ===== src/Roster.antt =====
-- Rosters: the start of a game, lineup updates and substitutions (`applyGameStart`,
-- `applyLineupUpdate`, `applySubstitution` of frontend/reducer.js).
pub mod Slots
use skorekeeper.Common.{
  ℕ, zero, suc, ◌+◌, String, List, [], ◌∷◌, ◌++◌, Option, none, some, lookup, insert, get_or,
  get_elem?, set, str_eq, ◌==◌, if◌then◌else◌, ◌>>=◌,
}
use skorekeeper.Common.Text.{◌+++◌, show_nat}
use skorekeeper.Game.{
  Team, away, home, PitchEntry, Event, blank_event, side, put_side, Player, Slot, Column,
  new_column, no_permissions, current_schema_version, State, StartPayload, LineupPayload,
  SubstitutionPayload, event_key,
}
use skorekeeper.Columns.{column_id}

-- `col-1-0`, `col-2-0`, …: one column for each of `n` innings from `i` on.
start_columns : ℕ → ℕ → List Column
start_columns zero i = []
start_columns (suc n) i = new_column i (column_id i 0) none ∷ start_columns n (i + 1)

abbrev name_prefix : Team → String
name_prefix away = "Player "
name_prefix home = "H Player "

-- The player of the slot at index `i`: the one given, or a made-up one with the id given.
start_player : Team → List (Option Player) → List String → ℕ → Player
start_player team players ids i = elim (get_elem? players i) [
  | some (some p) ↦ p
  | _ ↦ record {
    id = get_or (get_elem? ids i) "";
    name = name_prefix team +++ show_nat (i + 1);
    number = show_nat (i + 1);
    pos = "";
  }
]

start_slot : Team → List (Option Player) → List String → ℕ → Slot
unfolding start_player
start_slot team players ids i =
    let player = start_player team players ids i in
    record { slot = i + 1; starter = player; current = player; history = [] }

start_slots : Team → List (Option Player) → List String → ℕ → ℕ → List Slot
start_slots team players ids zero i = []
start_slots team players ids (suc n) i =
    start_slot team players ids i ∷ start_slots team players ids n (i + 1)

unfoldable pub start_roster : StartPayload → Team → List Slot
unfolding start_slots start_slot
start_roster p team =
    start_slots team (side team p.initial_rosters) (side team p.initial_roster_ids) 9 0

unfoldable pub apply_game_start : State → StartPayload → State
unfolding start_roster start_columns column_id
apply_game_start state p = record state {
  id = p.id;
  schema_version = if p.schema_version == 0 then current_schema_version else p.schema_version;
  date = p.date;
  event = p.event;
  location = p.location;
  team_name = p.team_name;
  team_id = p.team_id;
  owner_id = p.owner_id;
  permissions = get_or p.permissions no_permissions;
  columns = start_columns 7 1;
  roster = record { of_away = start_roster p away; of_home = start_roster p home };
  subs = p.initial_subs;
}

-- The deep clone of what the payload lacks raises: `JSON.parse(JSON.stringify(undefined))`.
unfoldable pub apply_lineup_update : State → LineupPayload → Option State
apply_lineup_update state p = do
  roster ← p.roster
  subs ← p.subs
  some (record state {
    team_name =
        if str_eq p.team_name ""
        then state.team_name
        else put_side p.team p.team_name state.team_name;
    roster = put_side p.team roster state.roster;
    subs = put_side p.team subs state.subs;
  })

-- The slot with the new player on the field and the old one behind the others in its history.
unfoldable pub substitute : Player → Slot → Slot
substitute player s = record s { history = s.history ++ s.current ∷ []; current = player }

unfoldable pub note_substitution : String → String → Option Event → Event
note_substitution id action_id found =
    let ev = get_or found (blank_event id) in
    record ev {
      p_id = id;
      pitch_sequence = ev.pitch_sequence ++ PitchEntry.substitution action_id ∷ [];
    }

-- Where a context is given, the active cell takes the new player too.
note_in_cell : State → SubstitutionPayload → State
note_in_cell state p = elim p.active_ctx [
  | none ↦ state
  | some ctx ↦
      let key = event_key p.team p.roster_index ctx.col in
      record state {
        events =
            insert key (note_substitution p.sub_params.id p.action_id (lookup key state.events))
              state.events;
      }
]

-- An index out of range raises: `JSON.parse(JSON.stringify(undefined))`.
unfoldable pub apply_substitution : State → SubstitutionPayload → Option State
unfolding substitute note_in_cell note_substitution
apply_substitution state p = elim (get_elem? (side p.team state.roster) p.roster_index) [
  | none ↦ none
  | some s ↦
      let slots = set (side p.team state.roster) p.roster_index (substitute p.sub_params s) in
      some (note_in_cell (record state { roster = put_side p.team slots state.roster }) p)
]
