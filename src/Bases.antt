-- ===== src/Bases.antt =====
-- `getRunnersOnBase` of frontend/game/runnerManager.js: who is on base when a batter comes up.
pub mod Prior
pub mod Latest
pub mod Sorted
pub mod Once
pub mod OnBase
use skorekeeper.Common.{
  ℕ, zero, suc, ◌+◌, ◌-◌, ◌%◌, String, Bool, true, false, ◌&&◌, ◌||◌, not, List, [], ◌∷◌, ◌++◌,
  Option, none, some, lookup, Dict, any, filter, get_or, get_elem?, length, str_eq, ltb, leb, ◌==◌,
  if◌then◌else◌,
}
use skorekeeper.Common.Int.{ℤ}
use skorekeeper.Game.{
  Team, PathMark, Legs, PitchEntry, Event, Slot, Column, side, State, Ctx, event_key,
}
use skorekeeper.Outs.{inning_col_ids}
use skorekeeper.Columns.{sub_index, opt_ltb}

pub record BaseRunner : Type 0 where
  pub idx : ℕ
  pub name : String
  pub base : ℕ
  pub key : String

abbrev negate : ℕ → ℤ
negate zero = ℤ.pos 0
negate (suc n) = ℤ.negsuc n

-- `(b - leadRow + rosterLen) % rosterLen`, which has the sign of the dividend.
unfoldable pub batting_pos : ℕ → ℕ → ℕ → ℤ
batting_pos b lead_row roster_len =
    if leb lead_row (b + roster_len)
    then ℤ.pos ((b + roster_len - lead_row) % roster_len)
    else negate ((lead_row - (b + roster_len)) % roster_len)

abbrev int_ltb : ℤ → ℤ → Bool
int_ltb (ℤ.pos m) (ℤ.pos n) = ltb m n
int_ltb (ℤ.pos m) (ℤ.negsuc n) = false
int_ltb (ℤ.negsuc m) (ℤ.pos n) = true
int_ltb (ℤ.negsuc m) (ℤ.negsuc n) = ltb n m

abbrev pub is_pitch : PitchEntry → Bool
is_pitch (PitchEntry.pitch _ _ _) = true
is_pitch (PitchEntry.substitution _) = false

abbrev is_set : PathMark → Bool
is_set PathMark.unset = false
is_set _ = true

abbrev any_leg : Legs PathMark → Bool
any_leg p = is_set p.leg_0 || is_set p.leg_1 || is_set p.leg_2 || is_set p.leg_3

-- A runner that was put on base without a plate appearance.
unfoldable pub is_placed_runner : Event → Bool
is_placed_runner ev =
    str_eq ev.outcome "" && not (any is_pitch ev.pitch_sequence) && any_leg ev.paths

-- Whether the cell of a batter in a column counts before the current context.
unfoldable pub is_prior : Ctx → Bool → String → Event → Bool
unfolding is_placed_runner sub_index
is_prior ctx prior_batter col_id ev =
    opt_ltb (sub_index col_id) (sub_index ctx.col)
    || str_eq col_id ctx.col && (prior_batter || is_placed_runner ev)

abbrev pub when_prior : Ctx → Bool → String → String → Option Event → Option (String × Event)
when_prior ctx prior_batter col_id key none = none
when_prior ctx prior_batter col_id key (some ev) =
    if is_prior ctx prior_batter col_id ev then some (key, ev) else none

-- The loop over the columns of the inning, from the last one on: the first cell that counts.
unfoldable pub prior_cell :
    Dict Event → Team → Ctx → ℕ → Bool → List String → Option (String × Event)
prior_cell events team ctx idx prior_batter [] = none
prior_cell events team ctx idx prior_batter (col_id ∷ cols) =
    elim (prior_cell events team ctx idx prior_batter cols) [
      | some cell ↦ some cell
      | none ↦
          let key = event_key team idx col_id in
          when_prior ctx prior_batter col_id key (lookup key events)
    ]

-- The base that the paths leave the runner on: none if he is out, home, or never got on.
unfoldable pub on_base : Legs PathMark → Option ℕ
on_base p = elim p.leg_3 [
  | PathMark.safe ↦ none
  | PathMark.out ↦ none
  | PathMark.unset ↦ elim p.leg_2 [
    | PathMark.safe ↦ some 2
    | PathMark.out ↦ none
    | PathMark.unset ↦ elim p.leg_1 [
      | PathMark.safe ↦ some 1
      | PathMark.out ↦ none
      | PathMark.unset ↦ elim p.leg_0 [
        | PathMark.safe ↦ some 0
        | PathMark.out ↦ none
        | PathMark.unset ↦ none
      ]
    ]
  ]
]

abbrev lead_of : Team → List Column → ℕ
lead_of team [] = 0
lead_of team (c ∷ cols) = get_or (side team c.lead_row) 0

abbrev inning_columns : ℕ → List Column → List Column
inning_columns i cols = filter (λ c. c.inning == i) cols

abbrev pub lead_row_of : State → Team → Ctx → ℕ
lead_row_of game team ctx = lead_of team (inning_columns ctx.i game.columns)

-- Whether the batter at the index comes before the one at bat, from the lead-off batter on.
abbrev pub is_prior_batter : State → Team → Ctx → ℕ → Bool
is_prior_batter game team ctx idx =
    let roster_len = length (side team game.roster) in
    let lead_row = lead_row_of game team ctx in
    int_ltb (batting_pos idx lead_row roster_len) (batting_pos ctx.b lead_row roster_len)

abbrev pub at_base : ℕ → String → String → Option ℕ → List BaseRunner
at_base idx name key none = []
at_base idx name key (some base) = record { idx = idx; name = name; base = base; key = key } ∷ []

abbrev pub runner_at : ℕ → String → Option (String × Event) → List BaseRunner
runner_at idx name none = []
runner_at idx name (some (key, ev)) = at_base idx name key (on_base ev.paths)

-- What one slot of the roster adds.
unfoldable pub slot_runner : State → Team → Ctx → ℕ → Slot → List BaseRunner
unfolding prior_cell batting_pos on_base
slot_runner game team ctx idx slot =
    if idx == ctx.b
    then []
    else runner_at idx slot.current.name (
        prior_cell game.events team ctx idx (is_prior_batter game team ctx idx)
          (inning_col_ids ctx.i game.columns))

unfoldable pub runners_from : State → Team → Ctx → ℕ → List Slot → List BaseRunner
unfolding slot_runner
runners_from game team ctx idx [] = []
runners_from game team ctx idx (slot ∷ roster) =
    slot_runner game team ctx idx slot ++ runners_from game team ctx (idx + 1) roster

-- `runners.sort((a, b) => b.base - a.base)`, which is stable.
unfoldable pub insert_runner : BaseRunner → List BaseRunner → List BaseRunner
insert_runner r [] = r ∷ []
insert_runner r (q ∷ rs) = if ltb r.base q.base then q ∷ insert_runner r rs else r ∷ q ∷ rs

unfoldable pub sort_runners : List BaseRunner → List BaseRunner
unfolding insert_runner
sort_runners [] = []
sort_runners (r ∷ rs) = insert_runner r (sort_runners rs)

unfoldable pub get_runners_on_base : State → Team → Ctx → List BaseRunner
unfolding runners_from sort_runners
get_runners_on_base game team ctx =
    sort_runners (runners_from game team ctx 0 (side team game.roster))
