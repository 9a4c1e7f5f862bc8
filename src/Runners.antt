-- ===== src/Runners.antt =====
-- Runners: what a runner's outcome does to the legs of the cell, `applyRunnerAdvance` and
-- `applyRunnerBatchUpdate` of frontend/reducer.js.
pub mod Bounds
use skorekeeper.Common.{
  ℕ, zero, suc, ◌+◌, min, String, Bool, true, false, ◌&&◌, ◌||◌, not, List, [], ◌∷◌, Option, none,
  some, Dict, lookup, insert, filter, any, length, str_eq, ltb, if◌then◌else◌,
}
use skorekeeper.Common.Int.{ℤ, pos, negsuc, inc}
use skorekeeper.Common.Text.{starts_with}
use skorekeeper.Game.{
  Team, RunnerOutcome, OutSequencing, is_runner_out, is_runners_first, PathMark, Legs, legs,
  put_leg, put_leg_at, Event, blank_event, State, Ctx, Runner, AdvancePayload, BatchUpdate,
  BatchPayload, event_key,
}
use skorekeeper.Outs.{inning_col_ids, in_inning, outs_from, calculate_inning_outs_exclude}

-- `for (b = base + 1; b <= 3; b++) paths[b] = 1`, from the leg after the base on.
unfoldable pub run_home : ℤ → Legs PathMark → Legs PathMark
run_home (pos zero) p = legs PathMark.safe PathMark.safe PathMark.safe PathMark.safe
run_home (pos (suc zero)) p = record p {
  leg_1 = PathMark.safe;
  leg_2 = PathMark.safe;
  leg_3 = PathMark.safe;
}
run_home (pos (suc (suc zero))) p = record p { leg_2 = PathMark.safe; leg_3 = PathMark.safe }
run_home (pos (suc (suc (suc zero)))) p = record p { leg_3 = PathMark.safe }
run_home (pos (suc (suc (suc (suc n))))) p = p
run_home (negsuc n) p = legs PathMark.safe PathMark.safe PathMark.safe PathMark.safe

-- `base === 0`
abbrev is_first : ℤ → Bool
is_first (pos zero) = true
is_first _ = false

-- The legs after an outcome, the same in `applyRunnerAdvance` and `applyPlayResult`.
unfoldable pub move_runner : RunnerOutcome → ℤ → Legs PathMark → Legs PathMark
unfolding run_home
move_runner RunnerOutcome.stay base p = p
move_runner RunnerOutcome.to_2nd base p = put_leg 1 PathMark.safe p
move_runner RunnerOutcome.to_3rd base p =
    put_leg 2 PathMark.safe (if is_first base then put_leg 1 PathMark.safe p else p)
move_runner RunnerOutcome.score base p = run_home (inc base) p
move_runner RunnerOutcome.out base p = put_leg_at (inc base) PathMark.out p

-- `event.scoreInfo = { rbiCreditedTo: batterId }` where the run earns one.
unfoldable pub credit_rbi : Bool → String → RunnerOutcome → Event → Event
credit_rbi eligible batter_id RunnerOutcome.score ev =
    if eligible && not (str_eq batter_id "")
    then record ev { score_info = some (record { rbi_credited_to = some batter_id }) }
    else ev
credit_rbi eligible batter_id _ ev = ev

-- The loops over runners carry the events and `runnerOutStart`.
pub record Outs : Type 0 where
  pub events : Dict Event
  pub out_start : ℕ

-- `runners.filter(r => r.outcome === RunnerActionOut).length`
unfoldable pub runners_out : List Runner → ℕ
runners_out runners = length (filter (λ r. is_runner_out r.outcome) runners)

-- The number of an out: the next of those set aside for the runners, or one more than the inning has.
-- `none` leaves the number as it is.
unfoldable pub next_out_num : OutSequencing → Option (Team × List String) → String → Outs → Option ℕ
next_out_num sequencing active key o =
    if is_runners_first sequencing && ltb 0 o.out_start then some o.out_start else elim active [
      | none ↦ none
      | some a ↦ some (min 3 (calculate_inning_outs_exclude o.events a.0 a.1 key + 1))
    ]

unfoldable pub take_out_start : OutSequencing → Outs → ℕ
take_out_start sequencing o =
    if is_runners_first sequencing && ltb 0 o.out_start then o.out_start + 1 else o.out_start

abbrev pub set_out_num : Option ℕ → Event → Event
set_out_num none ev = ev
set_out_num (some n) ev = record ev { out_num = n }

abbrev pub advance_info : RunnerOutcome → ℤ → Event → Event
advance_info RunnerOutcome.out base ev = record ev {
  path_info = put_leg_at (inc base) "" ev.path_info;
}
advance_info _ base ev = ev

module _ (batter_id : String) (rbi_eligible : Bool) (sequencing : OutSequencing)
    (active : Option (Team × List String)) where
  -- One round of the loop over `runners`, for a cell that exists.
  unfoldable pub advance_event : Runner → Outs → Event → Event
  advance_event r o ev =
      let moved = record ev { paths = move_runner r.outcome r.base ev.paths } in
      let told = advance_info r.outcome r.base moved in
      let numbered =
        if is_runner_out r.outcome
        then set_out_num (next_out_num sequencing active r.key o) told
        else told in
      credit_rbi rbi_eligible batter_id r.outcome numbered

  unfoldable pub advance_runner : Outs → Runner → Outs
  advance_runner o r = elim (lookup r.key o.events) [
    | none ↦ o
    | some ev ↦ record {
      events = insert r.key (advance_event r o ev) o.events;
      out_start = if is_runner_out r.outcome then take_out_start sequencing o else o.out_start;
    }
  ]

  unfoldable pub advance_runners : Outs → List Runner → Outs
  advance_runners o [] = o
  advance_runners o (r ∷ runners) = advance_runners (advance_runner o r) runners

-- In 'RunnersFirst' order the batter's out moves behind those of the runners.
unfoldable pub shift_batter : AdvancePayload → Option String → Dict Event → Outs
unfolding runners_out
shift_batter p none events = record { events = events; out_start = 0 }
shift_batter p (some batter_key) events = elim (lookup batter_key events) [
  | none ↦ record { events = events; out_start = 0 }
  | some ev ↦
      if is_runners_first p.out_sequencing && ltb 0 ev.out_num && ltb 0 (runners_out p.runners)
      then record {
        events =
            insert batter_key (record ev { out_num = min 3 (ev.out_num + runners_out p.runners) })
              events;
        out_start = ev.out_num;
      }
      else record { events = events; out_start = 0 }
]

abbrev pub batter_key_of : Option (Ctx × Team) → Option String
batter_key_of none = none
batter_key_of (some (ctx, team)) = some (event_key team ctx.b ctx.col)

abbrev pub active_cols : State → Option (Ctx × Team) → Option (Team × List String)
active_cols state none = none
active_cols state (some (ctx, team)) = some (team, inning_col_ids ctx.i state.columns)

unfoldable pub apply_runner_advance : State → AdvancePayload → State
unfolding shift_batter advance_runners advance_runner advance_event move_runner credit_rbi
    next_out_num take_out_start
apply_runner_advance state p =
    let start = shift_batter p (batter_key_of p.active) state.events in
    let final =
      advance_runners p.batter_id p.rbi_eligible p.out_sequencing (active_cols state p.active) start
        p.runners in
    record state { events = final.events }

-- The actions that leave the runner safe on the next base, and those that put the runner out.
unfoldable pub is_safe_action : String → Bool
is_safe_action a =
    str_eq a "SB"
    || str_eq a "Adv"
    || str_eq a "Place"
    || str_eq a "BK"
    || starts_with a "CR"
    || starts_with a "E"

unfoldable pub is_picked_off : String → Bool
is_picked_off a =
    str_eq a "PO"
    || str_eq a "LE"
    || str_eq a "LB"
    || str_eq a "INT"
    || str_eq a "Left Early"
    || str_eq a "Look Back"
    || str_eq a "Int"

unfoldable pub is_out_action : String → Bool
unfolding is_picked_off
is_out_action a = str_eq a "CS" || str_eq a "Out" || is_picked_off a

-- Where on the leg the out is drawn, in hundredths.
unfoldable pub out_position : String → ℕ
unfolding is_picked_off
out_position a =
    if str_eq a "CS" || str_eq a "Tag" || str_eq a "Force"
    then 80
    else if is_picked_off a
    then 20
    else 50

-- `nextPathIdx > 3`
abbrev past_home : ℤ → Bool
past_home (pos n) = ltb 3 n
past_home (negsuc n) = false

-- `runningOutNum` and the cell after one update.
unfoldable pub update_event : ℕ → BatchUpdate → Event → ℕ × Event
unfolding is_safe_action is_out_action out_position
update_event outs u ev =
    let idx = inc u.base in
    let positions : Legs ℕ = elim ev.out_pos [ none ↦ legs 50 50 50 50 | some p ↦ p ] in
    let placed = record ev { out_pos = some positions } in
    if past_home idx
    then (outs, placed)
    else if is_safe_action u.action
    then (
      outs,
      record placed {
        paths = put_leg_at idx PathMark.safe ev.paths;
        path_info = put_leg_at idx u.action ev.path_info;
      },
    )
    else if is_out_action u.action
    then (
      outs + 1,
      record placed {
        paths = put_leg_at idx PathMark.out ev.paths;
        path_info = put_leg_at idx u.action ev.path_info;
        out_pos = some (put_leg_at idx (out_position u.action) positions);
        out_num = min 3 (outs + 1);
      },
    )
    else (outs, placed)

abbrev pub event_or_blank : String → Option Event → Event
event_or_blank batter_id none = blank_event batter_id
event_or_blank batter_id (some ev) = ev

unfoldable pub run_updates : String → ℕ → Dict Event → List BatchUpdate → Dict Event
run_updates batter_id outs events [] = events
run_updates batter_id outs events (u ∷ us) =
    let step = update_event outs u (event_or_blank batter_id (lookup u.key events)) in
    run_updates batter_id step.0 (insert u.key step.1 events) us

-- The outs of the inning outside the cells that the batch updates.
unfoldable pub outs_before_batch : BatchPayload → State → ℕ
unfolding outs_from in_inning
outs_before_batch p state =
    outs_from
      (λ k.
        in_inning p.active_team (inning_col_ids p.active_ctx.i state.columns) k
        && not (any (λ u. str_eq u.key k) p.updates))
      0 state.events

unfoldable pub apply_runner_batch_update : State → BatchPayload → State
unfolding outs_before_batch run_updates update_event
apply_runner_batch_update state p = record state {
  events = run_updates p.batter_id (outs_before_batch p state) state.events p.updates;
}
