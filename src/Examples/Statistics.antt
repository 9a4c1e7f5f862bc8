-- ===== src/Examples/Statistics.antt =====
-- Statistics of two short games.
use skorekeeper.Common.{List, [], ◌∷◌, some, map, ◌≡◌, refl, AllValues}
use skorekeeper.Game.{State, both, blank_event, legs, PathMark, GameStatus}
use skorekeeper.Stats.{aggregate_stats, aggregate_precalculated_stats, game_with_id, format_ip}
use skorekeeper.Common.Text.{show_nat}
use skorekeeper.Stats.Consistency.{IsConsistent, aggregate_stats-IsConsistent}
use skorekeeper.Stats.Balance.{IsBalanced, aggregate_stats-IsBalanced}
use skorekeeper.Stats.Precalculated.{item_of, aggregate_precalculated_stats-eq}
use skorekeeper.Examples.Data.{in_progress}

-- A home run after the strikeout.
abbrev ended : State
ended = record in_progress {
  id = "g2";
  status = GameStatus.final;
  team_id = both (some "t1");
  events =
      (
        "away-0-col-1-0",
        record (blank_event "p1") {
          outcome = "HR";
          paths = legs PathMark.safe PathMark.safe PathMark.safe PathMark.safe;
        },
      )
      ∷ in_progress.events;
}

abbrev begun : State
begun = record in_progress { team_id = both (some "t1") }

abbrev two_games : List State
two_games = begun ∷ ended ∷ []

aggregate_stats-IsConsistent_example :
    AllValues (λ p. IsConsistent p.line) (aggregate_stats two_games).players
aggregate_stats-IsConsistent_example = aggregate_stats-IsConsistent two_games

aggregate_stats-IsBalanced_example :
    AllValues (λ p. IsBalanced p.line) (aggregate_stats two_games).pitchers
aggregate_stats-IsBalanced_example = aggregate_stats-IsBalanced two_games

aggregate_precalculated_stats-eq_example :
    aggregate_precalculated_stats (map item_of two_games) two_games "" ≡ aggregate_stats two_games
unfolding game_with_id
aggregate_precalculated_stats-eq_example =
    aggregate_precalculated_stats-eq two_games (refl, (refl, tt)) ((refl, refl), ((refl, refl), tt))

format_ip_test : format_ip 16 ≡ "5.1"
unfolding format_ip show_nat
format_ip_test = refl
