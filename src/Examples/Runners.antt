-- ===== src/Examples/Runners.antt =====
-- Runners on base in the small game, and what they are taken to do.
use mathlib.Core.List.{Memᴰ}
use skorekeeper.Common.{[], ◌∷◌, ◌↔◌, true, ◌≡◌, refl, lookup}
use skorekeeper.Common.Text.{show_nat, split_dash, parse_int}
use skorekeeper.Outs.{inning_col_ids}
use skorekeeper.Game.{
  away, legs, PathMark, Event, blank_event, BipState, BipResult, BipBase, BipType, State, Ctx,
  event_key, side,
}
use skorekeeper.Bases.{BaseRunner, is_prior, get_runners_on_base}
use skorekeeper.Bases.Sorted.{IsDescending, IsDistinct}
use skorekeeper.Bases.OnBase.{IsRunnerFrom, get_runners_on_base_lem}
use skorekeeper.Advances.{is_free_pass}
use skorekeeper.Examples.Data.{in_progress}

abbrev on_first : Event
on_first = record (blank_event "p1") {
  outcome = "1B";
  paths = legs PathMark.safe PathMark.unset PathMark.unset PathMark.unset;
}

abbrev runner_on_first : State
runner_on_first = record in_progress { events = ("away-0-col-1-0", on_first) ∷ [] }

abbrev second_batter : Ctx
second_batter = record { b = 1; i = 1; col = "col-1-0" }

abbrev first_runner : BaseRunner
first_runner = record { idx = 0; name = "Ann"; base = 0; key = "away-0-col-1-0" }

on_base_test : get_runners_on_base runner_on_first away second_batter ≡ first_runner ∷ []
unfolding get_runners_on_base event_key show_nat lookup inning_col_ids is_prior split_dash parse_int
on_base_test = refl

get_runners_on_base_lem_example :
    ((r : BaseRunner)
      → Memᴰ r (get_runners_on_base runner_on_first away second_batter)
        ↔ IsRunnerFrom runner_on_first away second_batter 0 (side away runner_on_first.roster) r)
    × IsDistinct (get_runners_on_base runner_on_first away second_batter)
    × IsDescending (get_runners_on_base runner_on_first away second_batter)
get_runners_on_base_lem_example = get_runners_on_base_lem runner_on_first away second_batter

abbrev walk : BipState
walk = record { res = BipResult.safe; base = BipBase.base_1b; type = BipType.bb; seq = [] }

is_ball_four : is_free_pass BipType.bb ≡ true
unfolding is_free_pass
is_ball_four = refl
