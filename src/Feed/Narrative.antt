-- ===== src/Feed/Narrative.antt =====
-- `mapInternalStateToNarrative` of frontend/game/historyManager.js: the runners, outs and score of a
-- state. `none` stands for a raised exception.
use skorekeeper.Common.{
  ℕ, zero, suc, ◌+◌, ◌%◌, max, String, Bool, true, false, ◌&&◌, List, [], ◌∷◌, Option, none, some,
  ◌>>=◌, get_elem?, elem, str_eq, if◌then◌else◌, Dict,
}
use skorekeeper.Game.{
  PerTeam, both, Player, Slot, Column, State, Event, Legs, PathMark, key_team, key_col, key_slot,
}
use skorekeeper.Outs.{inning_col_ids}

-- `runners`
pub record OnBase : Type 0 where
  pub first : Option Player
  pub second : Option Player
  pub third : Option Player

pub record Narrative : Type 0 where
  pub outs : ℕ
  pub runners : OnBase
  pub score : PerTeam ℕ
  pub hits : PerTeam ℕ

abbrev pub leg : ℕ → Legs PathMark → PathMark
leg zero p = p.leg_0
leg (suc zero) p = p.leg_1
leg (suc (suc zero)) p = p.leg_2
leg (suc (suc (suc n))) p = p.leg_3

abbrev is_taken_leg : PathMark → Bool
is_taken_leg PathMark.safe = true
is_taken_leg _ = false

abbrev is_open_leg : PathMark → Bool
is_open_leg PathMark.unset = true
is_open_leg _ = false

-- `evt.paths[b] === 1 && evt.paths[b + 1] === 0`
unfoldable pub stands_on : ℕ → Event → Bool
stands_on b ev = is_taken_leg (leg b ev.paths) && is_open_leg (leg (suc b) ev.paths)

abbrev put_runner : ℕ → Player → OnBase → OnBase
put_runner zero p r = record r { first = some p }
put_runner (suc zero) p r = record r { second = some p }
put_runner (suc (suc n)) p r = record r { third = some p }

-- `state.roster[team]`
unfoldable pub roster_of : String → State → Option (List Slot)
roster_of team s =
    if str_eq team "away"
    then some s.roster.of_away
    else if str_eq team "home"
    then some s.roster.of_home
    else none

abbrev current_of : Option Slot → Option Player
current_of none = none
current_of (some slot) = some slot.current

-- `roster[i]?.current`
unfoldable pub player_at : Option ℕ → List Slot → Option Player
player_at none slots = none
player_at (some i) slots = current_of (get_elem? slots i)

-- What the loop over the events keeps.
pub record Tally : Type 0 where
  pub max_out_num : ℕ
  pub seated : OnBase
  pub runs : PerTeam ℕ

abbrev seat : ℕ → Option Player → Tally → Tally
seat b none t = t
seat b (some p) t = record t { seated = put_runner b p t.seated }

unfoldable pub see_base : State → String → Event → ℕ → Tally → Option Tally
unfolding stands_on roster_of player_at
see_base s key ev b t =
    if stands_on b ev
    then (roster_of (key_team key) s >>= λ slots. some (seat b (player_at (key_slot key) slots) t))
    else some t

-- `score[evtTeam]++`: nothing reads the score of another team than the two.
unfoldable pub add_run : String → PerTeam ℕ → PerTeam ℕ
add_run team score =
    if str_eq team "away"
    then record score { of_away = score.of_away + 1 }
    else if str_eq team "home"
    then record score { of_home = score.of_home + 1 }
    else score

unfoldable pub count_run : String → Event → Tally → Tally
unfolding add_run
count_run key ev t =
    if is_taken_leg ev.paths.leg_3 then record t { runs = add_run (key_team key) t.runs } else t

abbrev same_side : String → Option String → Bool
same_side key none = false
same_side key (some team) = str_eq (key_team key) team

-- One cell; a maximum with an out number of 0, which the source skips, changes nothing.
unfoldable pub see_cell :
    State → Option String → List String → String → Event → Tally → Option Tally
unfolding count_run see_base
see_cell s team col_ids key ev t =
    let counted = count_run key ev t in
    let outs = record counted { max_out_num = max counted.max_out_num ev.out_num } in
    if same_side key team && elem (key_col key) col_ids
    then see_base s key ev 0 outs >>= see_base s key ev 1 >>= see_base s key ev 2
    else some counted

see_cells : State → Option String → List String → Dict Event → Tally → Option Tally
unfolding see_cell
see_cells s team col_ids [] t = some t
see_cells s team col_ids ((key, ev) ∷ events) t =
    see_cell s team col_ids key ev t >>= see_cells s team col_ids events

abbrev no_runners : OnBase
no_runners = record { first = none; second = none; third = none }

abbrev columns_in : Option ℕ → List Column → List String
columns_in none columns = []
columns_in (some i) columns = inning_col_ids i columns

abbrev narrate : Tally → Narrative
narrate t = record { outs = t.max_out_num % 3; runners = t.seated; score = t.runs; hits = both 0 }

unfoldable pub map_internal_state_to_narrative : State → Option String → Option ℕ → Option Narrative
unfolding see_cells
map_internal_state_to_narrative s team inning =
    see_cells s team (columns_in inning s.columns) s.events
      (record { max_out_num = 0; seated = no_runners; runs = both 0 })
    >>= λ t. some (narrate t)
