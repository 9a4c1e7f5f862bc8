-- ===== src/Examples/Cells.antt =====
-- Pitches, plays and runners in the small game.
use skorekeeper.Common.{
  ◌+◌, ◌≤◌, ◌<◌, min, some, lookup, eq_iff, ◌≡◌, refl, ◌≢◌, ◌⊎◌, arith, [], ◌∷◌,
}
use skorekeeper.Game.{away, PitchType, State, Event, event_key, key_team, key_col, team_text}
use skorekeeper.Common.Text.{show_nat}
use skorekeeper.Game.KeyLaws.{event_key-parts}
use skorekeeper.Pitch.{recount, apply_pitch}
use skorekeeper.Pitch.Bounds.{is_ball, is_strike, is_foul, count_if, recount_bounds}
use skorekeeper.Pitch.Cell.{pitch_key, cell_before, pitches, other_outs, apply_pitch_strikeout}
use skorekeeper.Examples.Data.{full_count, in_progress, pitch_of, pitched}

recount_bounds_example :
    ((recount full_count.pitch_sequence).balls ≡ min 4 (count_if is_ball full_count.pitch_sequence))
    × (min 3 (count_if is_strike full_count.pitch_sequence)
        ≤ (recount full_count.pitch_sequence).strikes)
    × ((recount full_count.pitch_sequence).strikes
        ≤ min 3 (
            count_if is_strike full_count.pitch_sequence
            + count_if is_foul full_count.pitch_sequence))
    × ((0 < count_if is_strike full_count.pitch_sequence)
        ⊎ ((recount full_count.pitch_sequence).strikes
            ≡ min 2 (count_if is_foul full_count.pitch_sequence)))
recount_bounds_example = recount_bounds full_count.pitch_sequence

other_key : "away-1-col-1-0" ≢ pitch_key (pitch_of PitchType.ball)
unfolding event_key show_nat
other_key = ground (arith, eq_iff "away-1-col-1-0" "away-0-col-1-0")

four_balls : 4 ≤ count_if is_ball (pitches in_progress (pitch_of PitchType.ball))
unfolding event_key lookup show_nat
four_balls = omega arith

-- A batter with two fouls and no strike.
abbrev fouled_off : State
fouled_off = record in_progress {
  events =
      (
        "away-0-col-1-0",
        record full_count {
          balls = 0;
          pitch_sequence = pitched PitchType.foul ∷ pitched PitchType.foul ∷ [];
        },
      )
      ∷ [];
}

two_fouls :
    2
    ≤ count_if is_strike (cell_before fouled_off (pitch_of PitchType.strike)).pitch_sequence
      + count_if is_foul (cell_before fouled_off (pitch_of PitchType.strike)).pitch_sequence
unfolding event_key lookup show_nat
two_fouls = omega arith

no_ball : count_if is_ball (pitches fouled_off (pitch_of PitchType.strike)) < 4
unfolding event_key lookup show_nat
no_ball = omega arith

apply_pitch_strikeout_example :
    (after : Event) × (lookup
        (pitch_key (pitch_of PitchType.strike))
        (apply_pitch fouled_off (pitch_of PitchType.strike)).events
      ≡ some after)
    × (after.outcome ≡ "ꓘ")
    × (after.out_num ≡ min 3 (other_outs fouled_off (pitch_of PitchType.strike) + 1))
apply_pitch_strikeout_example =
    apply_pitch_strikeout fouled_off (pitch_of PitchType.strike) refl no_ball two_fouls

event_key-parts_example :
    (key_team (event_key away 3 "col-2-1") ≡ team_text away)
    × (key_col (event_key away 3 "col-2-1") ≡ "col-2-1")
event_key-parts_example = event_key-parts away 3 "col-2-1"
