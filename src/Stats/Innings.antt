-- ===== src/Stats/Innings.antt =====
-- Innings pitched, and all lines of a game: loops of `calculateGameStats` of
-- frontend/game/statsEngine.js.
use skorekeeper.Common.{
  ℕ, ◌+◌, ◌-◌, ◌/◌, ◌%◌, String, Bool, false, ◌&&◌, not, List, [], ◌∷◌, ◌++◌, Option, some, str_eq,
  ltb, if◌then◌else◌, Dict, lookup, insert, get_or,
}
use skorekeeper.Common.Text.{◌+++◌, show_nat}
use skorekeeper.Game.{State, Team, away, home, Event, Column, team_text, key_slot}
use skorekeeper.Stats.Lines.{
  InningLine, PitcherLine, GameLines, new_inning_line, touch_pitcher, modify, is_strikeout,
}
use skorekeeper.Stats.Plays.{count_cells, final_pitcher, batting_inning}

-- A cell with its slot; none is NaN.
abbrev pub SlotCell : Type 0
SlotCell = Option ℕ × Event

abbrev pub add_cell : String → SlotCell → Dict (List SlotCell) → Dict (List SlotCell)
add_cell key cell groups = insert key (get_or (lookup key groups) [] ++ cell ∷ []) groups

-- `teamInningEvents`
unfoldable pub by_inning : Dict Event → Dict (List SlotCell) → Dict (List SlotCell)
by_inning [] groups = groups
by_inning ((key, evt) ∷ events) groups =
    by_inning events (add_cell (batting_inning key) (key_slot key, evt) groups)

-- `a.slot - b.slot > 0`
abbrev pub is_after : Option ℕ → Option ℕ → Bool
is_after (some a) (some b) = ltb b a
is_after _ _ = false

unfoldable pub insert_cell : SlotCell → List SlotCell → List SlotCell
insert_cell x [] = x ∷ []
insert_cell x (y ∷ ys) =
    let rest = insert_cell x ys in if is_after x.0 y.0 then y ∷ rest else x ∷ y ∷ ys

unfoldable pub sort_cells : List SlotCell → List SlotCell
unfolding insert_cell
sort_cells [] = []
sort_cells (x ∷ xs) = insert_cell x (sort_cells xs)

-- The outs of a plate appearance, for the pitcher; those that are no strikeout are the defence's.
unfoldable pub credit_outs : ℕ → Event → PitcherLine → PitcherLine
credit_outs outs evt l = record l {
  ip_outs = l.ip_outs + outs;
  defensive_outs = l.defensive_outs + (outs - (if is_strikeout evt.outcome then 1 else 0));
}

unfoldable pub credit_inning : ℕ → List SlotCell → Dict PitcherLine → Dict PitcherLine
unfolding credit_outs
credit_inning last_outs [] lines = lines
credit_inning last_outs ((slot, evt) ∷ cells) lines =
    let outs = evt.out_num - last_outs in
    let pitcher = final_pitcher evt in
    credit_inning evt.out_num cells (
      if ltb 0 outs && not (str_eq pitcher "")
      then modify pitcher (credit_outs outs evt) (touch_pitcher pitcher "" lines)
      else lines)

unfoldable pub credit_innings : Dict (List SlotCell) → Dict PitcherLine → Dict PitcherLine
unfolding credit_inning sort_cells
credit_innings [] lines = lines
credit_innings ((_, cells) ∷ groups) lines =
    credit_innings groups (credit_inning 0 (sort_cells cells) lines)

-- `${team}-${column.id}`
abbrev pub inning_key : Team → Column → String
inning_key team c = team_text team +++ "-" +++ c.id

unfoldable pub open_innings : List Column → Dict InningLine → Dict InningLine
open_innings [] lines = lines
open_innings (c ∷ columns) lines =
    open_innings columns (
      insert (inning_key home c) new_inning_line (insert (inning_key away c) new_inning_line lines))

abbrev pub start_lines : State → GameLines
start_lines game = record {
  player_stats = [];
  inning_stats = open_innings game.columns [];
  pitcher_stats = [];
}

unfoldable pub lines_of : State → GameLines
unfolding count_cells credit_innings by_inning open_innings
lines_of game =
    let counted = count_cells game game.events (start_lines game) in
    record counted {
      pitcher_stats = credit_innings (by_inning game.events []) counted.pitcher_stats;
    }

unfoldable pub format_ip : ℕ → String
format_ip outs = show_nat (outs / 3) +++ "." +++ show_nat (outs % 3)
