-- ===== src/Play.antt =====
-- `applyPlayResult` of frontend/reducer.js: a ball in play, the batter's cell and the runners'.
pub mod Outcome
pub mod Bounds
use skorekeeper.Common.{
  ℕ, ◌+◌, ◌-◌, min, String, Bool, true, false, ◌&&◌, ◌||◌, not, List, [], ◌∷◌, ◌++◌, Option, none,
  some, lookup, insert, ltb, ◌==◌, if◌then◌else◌, Dict,
}
use skorekeeper.Common.Int.{inc}
use skorekeeper.Common.Text.{includes_char}
use skorekeeper.Game.{
  Team, other_team, BipResult, BipBase, RunnerOutcome, OutSequencing, is_runner_out, PathMark, Legs,
  legs, Event, Slot, side, LogType, State, BipState, Runner, PlayPayload, event_key,
}
use skorekeeper.Outs.{inning_col_ids, calculate_inning_outs_exclude}
use skorekeeper.Pitch.{batter_name, count_text, own_event}
use skorekeeper.Runners.{
  move_runner, credit_rbi, set_out_num, Outs, runners_out, next_out_num, take_out_start,
}
use Outcome.{is_air_out, is_batter_out, is_home, play_outcome}

-- The out number of the batter, from the outs that the inning had without this cell.
unfoldable pub batter_out_num : BipState → ℕ → ℕ → ℕ
unfolding is_air_out is_batter_out
batter_out_num bip inning_outs total_outs =
    if is_batter_out bip.res
    then min 3 (inning_outs + (if is_air_out bip then 1 else total_outs))
    else 0

abbrev pub mark_safe : BipBase → Event → Event
mark_safe BipBase.base_unset ev = ev
mark_safe BipBase.base_1b ev = record ev {
  paths = legs PathMark.safe PathMark.unset PathMark.unset PathMark.unset;
}
mark_safe BipBase.base_2b ev = record ev {
  paths = legs PathMark.safe PathMark.safe PathMark.unset PathMark.unset;
}
mark_safe BipBase.base_3b ev = record ev {
  paths = legs PathMark.safe PathMark.safe PathMark.safe PathMark.unset;
}
mark_safe BipBase.base_home ev = record ev {
  paths = legs PathMark.safe PathMark.safe PathMark.safe PathMark.safe;
}

abbrev pub mark_out : BipBase → Event → Event
mark_out BipBase.base_unset ev = ev
mark_out BipBase.base_1b ev = record ev {
  paths = legs PathMark.out PathMark.unset PathMark.unset PathMark.unset;
  out_pos = some (legs 75 0 0 0);
}
mark_out BipBase.base_2b ev = record ev {
  paths = legs PathMark.safe PathMark.out PathMark.unset PathMark.unset;
  out_pos = some (legs 0 75 0 0);
}
mark_out BipBase.base_3b ev = record ev {
  paths = legs PathMark.safe PathMark.safe PathMark.out PathMark.unset;
  out_pos = some (legs 0 0 75 0);
}
mark_out BipBase.base_home ev = record ev {
  paths = legs PathMark.safe PathMark.safe PathMark.safe PathMark.out;
  out_pos = some (legs 0 0 0 75);
}

-- Where the play leaves the batter: on the base reached, out on the way to it, or where he stood.
unfoldable pub mark_batter : BipState → Event → Event
unfolding is_air_out is_batter_out
mark_batter bip ev =
    if not (is_batter_out bip.res)
    then mark_safe bip.base ev
    else if is_air_out bip
    then ev
    else mark_out bip.base ev

-- A home run credits the batter, unless the outcome names an error.
unfoldable pub credit_home_run : PlayPayload → String → Event → Event
unfolding is_batter_out is_home
credit_home_run p outcome ev =
    credit_rbi
      (not (is_batter_out p.bip_state.res)
        && is_home p.bip_state.base
        && not (includes_char outcome b'E'))
      p.batter_id RunnerOutcome.score ev

-- The outs of the play: the batter's and the runners'.
unfoldable pub total_outs : PlayPayload → ℕ
unfolding is_batter_out runners_out
total_outs p = (if is_batter_out p.bip_state.res then 1 else 0) + runners_out p.runner_advancements

unfoldable pub play_event : PlayPayload → ℕ → Event → Event
unfolding batter_out_num mark_batter credit_home_run total_outs play_outcome
play_event p inning_outs ev =
    let outcome = play_outcome p.bip_mode p.bip_state (total_outs p) in
    let numbered = record ev {
      hit_data = p.hit_data;
      bip_state = some p.bip_state;
      out_num = batter_out_num p.bip_state inning_outs (total_outs p);
    } in
    credit_home_run p outcome (record (mark_batter p.bip_state numbered) { outcome = outcome })

-- The loop over `runnerAdvancements`: on a ground ball the runners' outs come before the batter's.
unfoldable pub play_sequencing : BipState → OutSequencing
unfolding is_air_out
play_sequencing bip =
    if is_air_out bip then OutSequencing.batter_first else OutSequencing.runners_first

unfoldable pub play_out_start : PlayPayload → ℕ → ℕ
unfolding play_sequencing is_air_out runners_out
play_out_start p out_num =
    if not (is_air_out p.bip_state) && ltb 0 out_num && ltb 0 (runners_out p.runner_advancements)
    then out_num - runners_out p.runner_advancements
    else 0

-- `res === 'Safe' || !(isDP || isTP)`
abbrev pub rbi_eligible : PlayPayload → Bool
rbi_eligible p =
    if is_batter_out p.bip_state.res then not ((total_outs p == 2) || (total_outs p == 3)) else true

module _ (p : PlayPayload) (col_ids : List String) where
  unfoldable pub play_runner_event : Runner → Outs → Event → Event
  play_runner_event r o ev =
      let moved = record ev { paths = move_runner r.outcome r.base ev.paths } in
      let number =
        next_out_num (play_sequencing p.bip_state) (some (p.active_team, col_ids)) r.key o in
      credit_rbi (rbi_eligible p) p.batter_id r.outcome
        (if is_runner_out r.outcome then set_out_num number moved else moved)

  unfoldable pub play_runner : Outs → Runner → Outs
  play_runner o r = elim (lookup r.key o.events) [
    | none ↦ o
    | some ev ↦ record {
      events = insert r.key (play_runner_event r o ev) o.events;
      out_start =
          if is_runner_out r.outcome
          then take_out_start (play_sequencing p.bip_state) o
          else o.out_start;
    }
  ]

  unfoldable pub play_runners : Outs → List Runner → Outs
  play_runners o [] = o
  play_runners o (r ∷ runners) = play_runners (play_runner o r) runners

-- The batter's cell before the play, and the events after it.
abbrev pub batter_before : State → PlayPayload → Event
batter_before state p =
    own_event p.batter_id
      (lookup (event_key p.active_team p.active_ctx.b p.active_ctx.col) state.events)

unfoldable pub play_events : State → PlayPayload → Dict Event
play_events state p =
    let key = event_key p.active_team p.active_ctx.b p.active_ctx.col in
    let col_ids = inning_col_ids p.active_ctx.i state.columns in
    let inning_outs = calculate_inning_outs_exclude state.events p.active_team col_ids key in
    let event = play_event p inning_outs (batter_before state p) in
    let start : Outs = record {
      events = insert key event state.events;
      out_start = play_out_start p event.out_num;
    } in
    (play_runners p col_ids start p.runner_advancements).events

unfoldable pub apply_play_result : State → PlayPayload → State
unfolding play_events play_event play_out_start play_runners play_runner play_runner_event
    move_runner credit_rbi next_out_num take_out_start play_sequencing
apply_play_result state p = record state {
  events = play_events state p;
  pitch_log =
      state.pitch_log
      ++ record {
        inning = p.active_ctx.i;
        team = p.active_team;
        batter = batter_name p.batter_id (side p.active_team state.roster);
        pitcher = side (other_team p.active_team) state.pitchers;
        type = LogType.bip p.bip_state.res;
        count = count_text (batter_before state p);
      }
        ∷ [];
}
