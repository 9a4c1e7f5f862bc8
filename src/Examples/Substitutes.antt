-- ===== src/Examples/Substitutes.antt =====
-- A bench with a starter on it, who is listed once.
use skorekeeper.Common.{[], ◌∷◌, All}
use skorekeeper.Game.{State, away, both}
use skorekeeper.Bench.{get_all_available_players}
use skorekeeper.Bench.Listed.{IsListed, AreDistinct, get_all_available_players_lem}
use skorekeeper.Examples.Data.{player, in_progress}

abbrev with_bench : State
with_bench = record in_progress { subs = both (player "p9" ∷ player "p1" ∷ []) }

get_all_available_players_example :
    let available = get_all_available_players with_bench away in
    AreDistinct available
    × All (IsListed available) (player "p9" ∷ player "p1" ∷ [])
    × All (IsListed available) (player "p1" ∷ player "p2" ∷ [])
    × All (IsListed available) (player "p1" ∷ player "p2" ∷ [])
get_all_available_players_example = get_all_available_players_lem with_bench away
