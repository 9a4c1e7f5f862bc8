-- ===== src/Examples/Data.antt =====
-- A small game: two batters on each side, two columns, an inning in progress.
use skorekeeper.Common.{ℕ, String, List, [], ◌∷◌, none, some, true}
use skorekeeper.Common.Int.{ℤ}
use skorekeeper.Game.{
  away, both, Player, Slot, Column, new_column, State, initial_state, PitchType, PitchCode, Ctx,
  PitchEntry, Event, blank_event, PitchPayload, Action, Body, RunnerOutcome, OutSequencing, Runner,
  AdvancePayload, PlayPayload, SubstitutionPayload, MovePayload, BipResult, BipBase, BipType,
  BipMode,
}

abbrev pub player : String → Player
player id = record { id = id; name = "Ann"; number = "7"; pos = "P" }

abbrev pub lead_off : Slot
lead_off = record { slot = 1; starter = player "p1"; current = player "p1"; history = [] }

abbrev pub second_slot : Slot
second_slot = record { slot = 2; starter = player "p2"; current = player "p2"; history = [] }

abbrev pub two_columns : List Column
two_columns = new_column 1 "col-1-0" none ∷ new_column 1 "col-1-1" (some away) ∷ []

abbrev pub ctx : Ctx
ctx = record { b = 0; i = 1; col = "col-1-0" }

abbrev pub pitched : PitchType → PitchEntry
pitched type = PitchEntry.pitch type PitchCode.swinging "h1"

-- Three balls and two strikes.
abbrev pub full_count : Event
full_count = record (blank_event "p1") {
  balls = 3;
  strikes = 2;
  pitch_sequence =
      pitched PitchType.ball
      ∷ pitched PitchType.ball
      ∷ pitched PitchType.strike
      ∷ pitched PitchType.strike
      ∷ pitched PitchType.ball
      ∷ [];
}

abbrev pub struck_out : Event
struck_out = record (blank_event "p2") { outcome = "K"; strikes = 3; out_num = 1 }

abbrev pub in_progress : State
in_progress = record initial_state {
  id = "g1";
  columns = two_columns;
  pitchers = both "h1";
  roster = both (lead_off ∷ second_slot ∷ []);
  events = ("away-0-col-1-0", full_count) ∷ ("away-1-col-1-0", struck_out) ∷ [];
}

abbrev pub pitch_of : PitchType → PitchPayload
pitch_of type = record {
  active_ctx = ctx;
  type = type;
  code = PitchCode.called;
  active_team = away;
  batter_id = "p1";
}

abbrev pub add_inning : Action
add_inning = record { id = "a1"; body = Body.add_inning }

abbrev pub new_pitcher : Action
new_pitcher = record { id = "a2"; body = Body.pitcher_update away "p9" }

abbrev pub short_log : List Action
short_log = add_inning ∷ new_pitcher ∷ []

abbrev pub substitute_for : ℕ → SubstitutionPayload
substitute_for index = record {
  team = away;
  roster_index = index;
  sub_params = player "p3";
  active_ctx = some ctx;
  action_id = "a3";
}

abbrev pub move : MovePayload
move = record {
  source_key = "away-0-col-1-0";
  target_key = "away-0-col-1-1";
  event_data = full_count;
  new_column = none;
}

abbrev pub runner_out : Runner
runner_out = record { key = "away-1-col-1-0"; base = ℤ.pos 0; outcome = RunnerOutcome.out }

abbrev pub advance : AdvancePayload
advance = record {
  runners = runner_out ∷ [];
  batter_id = "p1";
  rbi_eligible = true;
  out_sequencing = OutSequencing.runners_first;
  active = some (ctx, away);
}

abbrev pub double_play : PlayPayload
double_play = record {
  active_ctx = ctx;
  active_team = away;
  bip_state = record {
    res = BipResult.ground;
    base = BipBase.base_unset;
    type = BipType.dp;
    seq = "6" ∷ "4" ∷ "3" ∷ [];
  };
  batter_id = "p1";
  bip_mode = BipMode.normal;
  hit_data = none;
  runner_advancements = runner_out ∷ [];
}
