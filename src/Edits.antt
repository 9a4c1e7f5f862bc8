-- ===== src/Edits.antt =====
-- The remaining handlers of frontend/reducer.js: game data, overrides, and edits of single cells.
pub mod Cells
use skorekeeper.Common.{
  ℕ, String, Bool, true, false, Option, none, some, Dict, lookup, insert, erase, get_or, or_text,
  str_eq, if◌then◌else◌,
}
use skorekeeper.Common.Text.{is_blank}
use skorekeeper.Game.{
  Team, GameStatus, Event, blank_event, PerTeam, side, put_side, Score, State, ImportPayload,
  ScorePayload, MovePayload, ClearPayload, MetadataPayload, EventPatch, event_key,
}
use skorekeeper.Columns.{add_moved_column}

unfoldable pub apply_game_finalize : State → State
apply_game_finalize state = record state { status = GameStatus.final }

abbrev or_names : PerTeam String → PerTeam String → PerTeam String
or_names new old = record {
  of_away = or_text new.of_away old.of_away;
  of_home = or_text new.of_home old.of_home;
}

abbrev or_ids : PerTeam (Option (Option String)) → PerTeam (Option String) → PerTeam (Option String)
or_ids new old = record {
  of_away = get_or new.of_away old.of_away;
  of_home = get_or new.of_home old.of_home;
}

unfoldable pub apply_game_metadata_update : State → MetadataPayload → State
apply_game_metadata_update state p = record state {
  team_name = or_names p.team_name state.team_name;
  team_id = or_ids p.team_id state.team_id;
  date = or_text p.date state.date;
  event = get_or p.event state.event;
  location = get_or p.location state.location;
  permissions = get_or p.permissions state.permissions;
}

-- What the payload lacks stays, but for the event and the location, which become empty.
unfoldable pub apply_game_import : State → ImportPayload → State
apply_game_import state p = record {
  id = p.id;
  schema_version = get_or p.schema_version state.schema_version;
  date = p.date;
  location = get_or p.location "";
  event = get_or p.event "";
  team_name = p.team_name;
  status = get_or p.status state.status;
  owner_id = get_or p.owner_id state.owner_id;
  team_id = or_ids p.team_id state.team_id;
  pitchers = get_or p.pitchers state.pitchers;
  overrides = get_or p.overrides state.overrides;
  events = get_or p.events state.events;
  columns = get_or p.columns state.columns;
  pitch_log = get_or p.pitch_log state.pitch_log;
  permissions = get_or p.permissions state.permissions;
  roster = get_or p.roster state.roster;
  subs = get_or p.subs state.subs;
}

unfoldable pub apply_clear_data : State → ClearPayload → State
apply_clear_data state p = record state {
  events =
      insert (event_key p.active_team p.active_ctx.b p.active_ctx.col) (blank_event p.batter_id)
        state.events;
}

unfoldable pub apply_move_play : State → MovePayload → State
apply_move_play state p = record state {
  columns = add_moved_column p.new_column state.columns;
  events = erase p.source_key (insert p.target_key p.event_data state.events);
}

unfoldable pub apply_pitcher_update : State → Team → String → State
apply_pitcher_update state team pitcher = record state {
  pitchers = put_side team pitcher state.pitchers;
}

-- `score === null || score === undefined || score.trim() === ''`
unfoldable pub is_no_score : Option Score → Bool
is_no_score none = true
is_no_score (some (Score.num _)) = false
is_no_score (some (Score.text s)) = is_blank s

unfoldable pub override_score : String → Option Score → Dict Score → Dict Score
unfolding is_no_score
override_score inning score scores = elim score [
  | none ↦ erase inning scores
  | some s ↦ if is_no_score (some s) then erase inning scores else insert inning s scores
]

unfoldable pub apply_score_override : State → ScorePayload → State
unfolding override_score
apply_score_override state p = record state {
  overrides =
      put_side p.team (override_score p.inning p.score (side p.team state.overrides))
        state.overrides;
}

-- An edit of a cell that exists; other cells stay.
abbrev pub edit_event : String → (Event → Event) → State → State
edit_event key f state = elim (lookup key state.events) [
  | none ↦ state
  | some ev ↦ record state { events = insert key (f ev) state.events }
]

unfoldable pub apply_rbi_edit : State → String → String → State
apply_rbi_edit state key rbi_credited_to =
    edit_event key
      (λ ev. record ev {
        score_info = some (record {
          rbi_credited_to = if str_eq rbi_credited_to "" then none else some rbi_credited_to;
        });
      })
      state

unfoldable pub apply_out_num_update : State → String → ℕ → State
apply_out_num_update state key out_num =
    edit_event key (λ ev. record ev { out_num = out_num }) state

abbrev or_some {ℓ} : {A : Type ℓ} → Option A → Option A → Option A
or_some none old = old
or_some (some a) old = some a

-- `{ ...event, ...data }`
unfoldable pub patch_event : EventPatch → Event → Event
patch_event d ev = record {
  outcome = get_or d.outcome ev.outcome;
  balls = get_or d.balls ev.balls;
  strikes = get_or d.strikes ev.strikes;
  out_num = get_or d.out_num ev.out_num;
  paths = get_or d.paths ev.paths;
  path_info = get_or d.path_info ev.path_info;
  pitch_sequence = get_or d.pitch_sequence ev.pitch_sequence;
  p_id = get_or d.p_id ev.p_id;
  out_pos = or_some d.out_pos ev.out_pos;
  hit_data = or_some d.hit_data ev.hit_data;
  bip_state = or_some d.bip_state ev.bip_state;
  score_info = or_some d.score_info ev.score_info;
}

unfoldable pub apply_manual_path_override : State → String → EventPatch → State
unfolding patch_event
apply_manual_path_override state key d = record state {
  events =
      insert key (patch_event d (get_or (lookup key state.events) (blank_event ""))) state.events;
}
