-- ===== src/Advances.antt =====
-- `calculateDefaultAdvances` of frontend/game/runnerManager.js: what the runners
-- are taken to do on a play until the scorer says otherwise.
pub mod Forced
pub mod Defaults
use skorekeeper.Common.{
  ℕ, zero, suc, ◌+◌, ◌%◌, ◌==◌, String, Bool, true, false, ◌&&◌, ◌||◌, not, List, [], ◌∷◌, Option,
  none, some, map, lookup, Dict, get_or, get_elem?, set, length, is_some, str_eq, ltb, leb,
  if◌then◌else◌,
}
use skorekeeper.Game.{PathMark, Legs, Event, BipState, BipResult, BipBase, BipType, RunnerOutcome}
use skorekeeper.Columns.{is_recorded}
use skorekeeper.Bases.{BaseRunner}

pub record Pending : Type 0 where
  pub runner : BaseRunner
  pub outcome : RunnerOutcome

abbrev is_safe_mark : PathMark → Bool
is_safe_mark PathMark.safe = true
is_safe_mark _ = false

abbrev is_out_mark : PathMark → Bool
is_out_mark PathMark.out = true
is_out_mark _ = false

-- `paths[i] === 2`, which no entry past the fourth is.
abbrev is_out_at : ℕ → Legs PathMark → Bool
is_out_at zero p = is_out_mark p.leg_0
is_out_at (suc zero) p = is_out_mark p.leg_1
is_out_at (suc (suc zero)) p = is_out_mark p.leg_2
is_out_at (suc (suc (suc zero))) p = is_out_mark p.leg_3
is_out_at _ p = false

-- What a recorded cell says that the runner did.
abbrev recorded_outcome : ℕ → Event → RunnerOutcome
recorded_outcome base ev =
    if is_safe_mark ev.paths.leg_3
    then RunnerOutcome.score
    else if is_safe_mark ev.paths.leg_2 && ltb base 2
    then RunnerOutcome.to_3rd
    else if is_safe_mark ev.paths.leg_1 && ltb base 1
    then RunnerOutcome.to_2nd
    else if is_out_at (base + 1) ev.paths
    then RunnerOutcome.out
    else RunnerOutcome.stay

unfoldable pub initial_outcome : Dict Event → BaseRunner → RunnerOutcome
initial_outcome events r = elim (lookup r.key events) [
  | none ↦ RunnerOutcome.stay
  | some ev ↦ if is_recorded ev then recorded_outcome r.base ev else RunnerOutcome.stay
]

abbrev pub pending_of : Dict Event → BaseRunner → Pending
pending_of events r = record { runner = r; outcome = initial_outcome events r }

abbrev is_air : BipResult → Bool
is_air BipResult.fly = true
is_air BipResult.line = true
is_air BipResult.iff = true
is_air _ = false

abbrev is_plain_out : BipResult → Bool
is_plain_out BipResult.out = true
is_plain_out _ = false

abbrev is_safe_result : BipResult → Bool
is_safe_result BipResult.safe = true
is_safe_result _ = false

-- `batterIsOut`
unfoldable pub is_batter_retired : BipResult → Bool
is_batter_retired res = is_air res || is_plain_out res

-- 'BB', 'IBB', 'HBP', 'CI'
unfoldable pub is_free_pass : BipType → Bool
is_free_pass BipType.bb = true
is_free_pass BipType.ibb = true
is_free_pass BipType.hbp = true
is_free_pass BipType.ci = true
is_free_pass _ = false

unfoldable pub is_sacrifice : BipType → Bool
is_sacrifice BipType.sf = true
is_sacrifice BipType.sh = true
is_sacrifice _ = false

-- 'Out', 'Int', 'BOO', 'SO', 'Interference'
unfoldable pub is_generic_type : BipType → Bool
is_generic_type BipType.plain_out = true
is_generic_type BipType.int = true
is_generic_type BipType.boo = true
is_generic_type BipType.so = true
is_generic_type BipType.interference = true
is_generic_type _ = false

-- `onBase[base]`: the last of the runners on the base.
unfoldable pub runner_on : ℕ → List BaseRunner → Option BaseRunner
runner_on base [] = none
runner_on base (r ∷ rs) = elim (runner_on base rs) [
  | some q ↦ some q
  | none ↦ if r.base == base then some r else none
]

abbrev is_stay : RunnerOutcome → Bool
is_stay RunnerOutcome.stay = true
is_stay _ = false

-- `getRS(key)` gets the outcome, if it is still 'Stay'.
unfoldable pub move_first : String → RunnerOutcome → List Pending → List Pending
move_first key outcome [] = []
move_first key outcome (p ∷ ps) =
    if str_eq p.runner.key key
    then (if is_stay p.outcome then record p { outcome = outcome } ∷ ps else p ∷ ps)
    else p ∷ move_first key outcome ps

-- The chain of a walk: first, then second if first is taken, then third if both are.
unfoldable pub push_chain : List BaseRunner → List Pending → List Pending
unfolding runner_on move_first
push_chain runners pending = elim (runner_on 0 runners) [
  | none ↦ pending
  | some r1 ↦
      let first = move_first r1.key RunnerOutcome.to_2nd pending in
      elim (runner_on 1 runners) [
        | none ↦ first
        | some r2 ↦
            let second = move_first r2.key RunnerOutcome.to_3rd first in
            elim (runner_on 2 runners) [
              | none ↦ second
              | some r3 ↦ move_first r3.key RunnerOutcome.score second
            ]
      ]
]

abbrev bases_of : BipBase → ℕ
bases_of BipBase.base_unset = 1
bases_of BipBase.base_1b = 1
bases_of BipBase.base_2b = 2
bases_of BipBase.base_3b = 3
bases_of BipBase.base_home = 4

-- `advance`
unfoldable pub advance_by : BipState → ℕ
advance_by bip = if is_safe_result bip.res then bases_of bip.base else 1

-- `forced[base]`
unfoldable pub is_forced : List BaseRunner → ℕ → Bool
unfolding runner_on
is_forced runners zero = is_some (runner_on 0 runners)
is_forced runners (suc zero) = is_some (runner_on 1 runners) && is_some (runner_on 0 runners)
is_forced runners (suc (suc zero)) =
    is_some (runner_on 2 runners) && is_some (runner_on 1 runners) && is_some (runner_on 0 runners)
is_forced runners _ = false

unfoldable pub should_advance : BipState → List BaseRunner → BaseRunner → Bool
unfolding is_forced is_sacrifice is_generic_type
should_advance bip runners r =
    if is_safe_result bip.res || is_sacrifice bip.type
    then true
    else not (is_plain_out bip.res && is_generic_type bip.type) && is_forced runners r.base

-- The outcome of a runner that gets to `nb`; at 0 there is none.
abbrev outcome_at : ℕ → Option RunnerOutcome
outcome_at zero = none
outcome_at (suc zero) = some RunnerOutcome.to_2nd
outcome_at (suc (suc zero)) = some RunnerOutcome.to_3rd
outcome_at (suc (suc (suc n))) = some RunnerOutcome.score

abbrev move_to : String → Option RunnerOutcome → List Pending → List Pending
move_to key none pending = pending
move_to key (some outcome) pending = move_first key outcome pending

-- The loop over the runners.
unfoldable pub advance_all :
    BipState → List BaseRunner → List BaseRunner → List Pending → List Pending
unfolding should_advance advance_by move_first
advance_all bip runners [] pending = pending
advance_all bip runners (r ∷ rs) pending =
    let moved =
      if should_advance bip runners r
      then move_to r.key (outcome_at (r.base + advance_by bip)) pending
      else pending in
    advance_all bip runners rs moved

unfoldable pub calculate_default_advances :
    List BaseRunner → BipState → Dict Event → ℕ → List Pending
unfolding initial_outcome is_batter_retired is_free_pass push_chain advance_all
calculate_default_advances runners bip events current_outs =
    let pending = map (pending_of events) runners in
    if is_batter_retired bip.res && leb 2 current_outs
    then pending
    else if is_free_pass bip.type
    then push_chain runners pending
    else if is_air bip.res
    then pending
    else advance_all bip runners runners pending
