-- ===== src/Outs.antt =====
-- Out counting: `calculateInningOutsExclude` and the columns of an inning (frontend/reducer.js).
pub mod Counted
use skorekeeper.Common.{
  ℕ, max, String, Bool, ◌&&◌, not, List, [], ◌∷◌, map, Dict, filter, elem, str_eq, ◌==◌,
  if◌then◌else◌,
}
use skorekeeper.Game.{Team, team_text, Event, Column, key_team, key_col}

-- `columns.filter(c => c.inning === i).map(c => c.id)`
unfoldable pub inning_col_ids : ℕ → List Column → List String
inning_col_ids i columns = map (λ c. c.id) (filter (λ c. c.inning == i) columns)

-- Whether the cell counts towards the outs of the team in these columns.
unfoldable pub in_inning : Team → List String → String → Bool
in_inning team col_ids key = str_eq (key_team key) (team_text team) && elem (key_col key) col_ids

-- The loop over `Object.keys(state.events)`, from the maximum so far. The source skips an out
-- number of 0, which changes no maximum.
unfoldable pub outs_from : (String → Bool) → ℕ → Dict Event → ℕ
outs_from counts outs [] = outs
outs_from counts outs ((k, ev) ∷ events) =
    outs_from counts (if counts k then max outs ev.out_num else outs) events

unfoldable pub calculate_inning_outs_exclude : Dict Event → Team → List String → String → ℕ
unfolding in_inning outs_from
calculate_inning_outs_exclude events team col_ids exclude_key =
    outs_from (λ k. in_inning team col_ids k && not (str_eq k exclude_key)) 0 events
