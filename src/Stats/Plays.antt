-- ===== src/Stats/Plays.antt =====
-- What one cell adds to the lines: the first loop of `calculateGameStats` of
-- frontend/game/statsEngine.js.
use skorekeeper.Common.{
  ℕ, ◌+◌, ◌-◌, max, String, Bool, true, false, ◌&&◌, ◌||◌, not, List, [], ◌∷◌, Option, none, some,
  str_eq, if◌then◌else◌, Dict, get_elem?, last?,
}
use skorekeeper.Common.Text.{◌+++◌, starts_with, includes}
use skorekeeper.Game.{
  State, Team, away, home, Event, PathMark, PitchType, PitchEntry, ball, strike, foul, out, in_play,
  pitch, substitution, side, key_team, key_col, key_slot,
}
use skorekeeper.Stats.Lines.{
  PlayerLine, InningLine, PitcherLine, GameLines, touch_player, touch_pitcher, modify, count_when,
  is_walk, is_hbp, is_int, is_at_bat, is_hit, is_strikeout, is_error, is_flyout,
}

abbrev pub count_at_bat : String → PlayerLine → PlayerLine
count_at_bat o l = record l {
  ab = count_when (is_at_bat o) l.ab;
  sh = count_when (includes o "SH") l.sh;
  sf = count_when (includes o "SF") l.sf;
  hbp = count_when (is_hbp o) l.hbp;
}

abbrev pub count_hit : String → PlayerLine → PlayerLine
count_hit o l =
    if str_eq o "1B"
    then record l { h = l.h + 1; singles = l.singles + 1 }
    else if str_eq o "2B"
    then record l { h = l.h + 1; doubles = l.doubles + 1 }
    else if str_eq o "3B"
    then record l { h = l.h + 1; triples = l.triples + 1 }
    else if str_eq o "HR"
    then record l { h = l.h + 1; hr = l.hr + 1 }
    else l

-- An out that is neither of the kinds before.
abbrev pub is_other_out : String → Bool
is_other_out o =
    not (is_hit o) && not (is_walk o) && not (is_hbp o) && not (is_int o) && not (is_strikeout o)

abbrev pub count_kind : String → PlayerLine → PlayerLine
count_kind o l =
    if is_error o
    then record l { roe = l.roe + 1 }
    else if is_flyout o
    then record l { flyouts = l.flyouts + 1 }
    else if starts_with o "L"
    then record l { lineouts = l.lineouts + 1 }
    else if includes o "-"
    then record l { groundouts = l.groundouts + 1 }
    else if is_other_out o
    then record l { other_outs = l.other_outs + 1 }
    else l

abbrev pub count_strikeout : String → PlayerLine → PlayerLine
count_strikeout o l = record l {
  k = count_when (is_strikeout o) l.k;
  called_strikes = count_when (str_eq o "ꓘ") l.called_strikes;
}

abbrev pub count_walk : String → PlayerLine → PlayerLine
count_walk o l = record l { bb = count_when (is_walk o) l.bb }

abbrev pub count_outcome : String → PlayerLine → PlayerLine
count_outcome o l =
    if str_eq o ""
    then l
    else count_walk o (count_strikeout o (count_kind o (count_hit o (count_at_bat o l))))

abbrev pub is_strike_type : PitchType → Bool
is_strike_type strike = true
is_strike_type _ = false

-- The entries of type 'strike'.
abbrev pub strikes_in : List PitchEntry → ℕ
strikes_in [] = 0
strikes_in (pitch type code pitcher ∷ ps) = count_when (is_strike_type type) (strikes_in ps)
strikes_in (substitution _ ∷ ps) = strikes_in ps

abbrev pub is_safe_mark : PathMark → Bool
is_safe_mark PathMark.safe = true
is_safe_mark _ = false

-- `evt.paths[3] === 1`
abbrev pub has_scored : Event → Bool
has_scored evt = is_safe_mark evt.paths.leg_3

-- The batter's own line.
unfoldable pub count_batter : Event → PlayerLine → PlayerLine
count_batter evt l =
    let l = count_outcome evt.outcome (record l { pa = l.pa + 1 }) in
    record l {
      called_strikes = l.called_strikes + strikes_in evt.pitch_sequence;
      r = count_when (has_scored evt) l.r;
    }

-- Runs batted in, for the player that they are credited to.
abbrev pub credit_run : Event → String → Dict PlayerLine → Dict PlayerLine
credit_run evt team lines = elim evt.score_info [
  | none ↦ lines
  | some info ↦ elim info.rbi_credited_to [
    | none ↦ lines
    | some id ↦
        if has_scored evt && not (str_eq id "")
        then modify id (λ l. record l { rbi = l.rbi + 1 }) (touch_player id "" team lines)
        else lines
  ]
]

-- The inning of the team at bat.
abbrev pub count_inning : Event → InningLine → InningLine
count_inning evt l =
    let runs = count_when (has_scored evt) l.r in
    let outs = max l.outs evt.out_num in
    record l {
      pa = l.pa + 1;
      outs = outs;
      h = count_when (is_hit evt.outcome) l.h;
      r = runs;
      lob = l.pa + 1 - outs - runs;
    }

-- The errors of the team in the field, in the same inning.
abbrev pub count_errors : Event → InningLine → InningLine
count_errors evt l = record l {
  e = count_when (is_error evt.path_info.leg_0) (
      count_when (is_error evt.path_info.leg_1) (
        count_when (is_error evt.path_info.leg_2)
          (count_when (is_error evt.path_info.leg_3) (count_when (is_error evt.outcome) l.e))));
}

abbrev pub team_of : String → Option Team
team_of team =
    if str_eq team "away" then some away else if str_eq team "home" then some home else none

-- `game.roster[team][slot].current.name`, where there is one.
abbrev pub name_in_slot : State → String → String
name_in_slot game key = elim (team_of (key_team key)) [
  | none ↦ ""
  | some team ↦ elim (key_slot key) [
    | none ↦ ""
    | some slot ↦ elim (get_elem? (side team game.roster) slot) [
      | none ↦ ""
      | some s ↦ s.current.name
    ]
  ]
]

abbrev pub batting_name : State → String → String
batting_name game key =
    if str_eq (key_team key) "away" then side away game.team_name else side home game.team_name

abbrev pub fielding_name : State → String → String
fielding_name game key =
    if str_eq (key_team key) "away" then side home game.team_name else side away game.team_name

abbrev pub batting_inning : String → String
batting_inning key = key_team key +++ "-" +++ key_col key

abbrev pub fielding_inning : String → String
fielding_inning key =
    (if str_eq (key_team key) "away" then "home" else "away") +++ "-" +++ key_col key

unfoldable pub count_plate_appearance : State → String → Event → GameLines → GameLines
unfolding count_batter
count_plate_appearance game key evt t = if str_eq evt.p_id "" then t else record t {
  player_stats = credit_run evt (batting_name game key) (
      modify evt.p_id (count_batter evt)
        (touch_player evt.p_id (name_in_slot game key) (batting_name game key) t.player_stats));
  inning_stats =
      modify (fielding_inning key) (count_errors evt)
        (modify (batting_inning key) (count_inning evt) t.inning_stats);
}

abbrev pub count_thrown : PitchType → PitcherLine → PitcherLine
count_thrown strike l = record l { pitches = l.pitches + 1; strikes = l.strikes + 1 }
count_thrown foul l = record l { pitches = l.pitches + 1; strikes = l.strikes + 1 }
count_thrown out l = record l { pitches = l.pitches + 1; strikes = l.strikes + 1 }
count_thrown ball l = record l { pitches = l.pitches + 1; balls = l.balls + 1 }
count_thrown in_play l = record l { pitches = l.pitches + 1 }

abbrev pub count_entry : String → PitchEntry → Dict PitcherLine → Dict PitcherLine
count_entry team (pitch type code pitcher) lines =
    if str_eq pitcher ""
    then lines
    else modify pitcher (count_thrown type) (touch_pitcher pitcher team lines)
count_entry team (substitution _) lines = lines

unfoldable pub count_entries : String → List PitchEntry → Dict PitcherLine → Dict PitcherLine
count_entries team [] lines = lines
count_entries team (p ∷ ps) lines = count_entries team ps (count_entry team p lines)

abbrev pub final_pitcher : Event → String
final_pitcher evt = elim (last? evt.pitch_sequence) [
  | none ↦ ""
  | some p ↦ elim p [ pitch type code pitcher ↦ pitcher | substitution _ ↦ "" ]
]

abbrev pub is_ball_in_play : String → Bool
is_ball_in_play o =
    not (str_eq o "")
    && not (is_strikeout o)
    && not (starts_with o "BB" || starts_with o "IBB" || starts_with o "HBP" || starts_with o "CI")

-- The line of the pitcher who faced the batter last; a ball in play is a pitch and a strike.
unfoldable pub count_batter_faced : Event → PitcherLine → PitcherLine
count_batter_faced evt l = record l {
  bf = l.bf + 1;
  strikes = count_when (is_ball_in_play evt.outcome) l.strikes;
  pitches = count_when (is_ball_in_play evt.outcome) l.pitches;
  bb = count_when (is_walk evt.outcome) l.bb;
  hbp = count_when (is_hbp evt.outcome) l.hbp;
  h = count_when (is_hit evt.outcome) l.h;
  k = count_when (is_strikeout evt.outcome) l.k;
  errors = count_when (is_error evt.outcome) l.errors;
  er = count_when (has_scored evt) l.er;
}

unfoldable pub count_pitching : State → String → Event → GameLines → GameLines
unfolding count_entries count_batter_faced
count_pitching game key evt t =
    let team = fielding_name game key in
    let thrown = count_entries team evt.pitch_sequence t.pitcher_stats in
    let pitcher = final_pitcher evt in
    record t {
      pitcher_stats =
          if str_eq pitcher ""
          then thrown
          else modify pitcher (count_batter_faced evt) (touch_pitcher pitcher team thrown);
    }

unfoldable pub count_cells : State → Dict Event → GameLines → GameLines
unfolding count_plate_appearance count_pitching
count_cells game [] t = t
count_cells game ((key, evt) ∷ events) t =
    count_cells game events (count_pitching game key evt (count_plate_appearance game key evt t))
