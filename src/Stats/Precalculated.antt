-- ===== src/Stats/Precalculated.antt =====
-- Totals from lines that are calculated beforehand are the totals of the games
-- (frontend/game/statsEngine.js).
use skorekeeper.Common.{
  false, List, [], ◌∷◌, none, some, map, str_eq, if◌then◌else◌, ◌≡◌, refl, ap, ◌∙◌, All, Dict,
}
use skorekeeper.Game.{State, Team, away, home, side, PerTeam}
use skorekeeper.Stats.{
  LineScore, TeamTotal, StatsTotals, StatsItem, calculate_game_stats, team_id_of, add_team,
  add_side, add_game, add_games, aggregate_stats, game_with_id, add_precalculated, add_items,
  aggregate_precalculated_stats, no_totals,
}

-- The lines of a game, under its id.
abbrev pub item_of : State → StatsItem
item_of game = record { id = game.id; stats = some (calculate_game_stats game) }

-- Both teams of the game have an id.
abbrev pub HasTeamIds : State → Type 0
HasTeamIds game =
    (str_eq (team_id_of game away) "" ≡ false) × (str_eq (team_id_of game home) "" ≡ false)

add_side-add_team :
    (game : State) (score : PerTeam LineScore) (team : Team) (teams : Dict TeamTotal)
    → str_eq (team_id_of game team) "" ≡ false
    → add_side "" game score team teams ≡ add_team (team_id_of game team) game score team teams
add_side-add_team game score team teams named =
    ap
      (λ b.
        add_team (if b then side team game.team_name else team_id_of game team) game score team
          teams)
      named

add_precalculated-add_game :
    (game : State) (totals : StatsTotals)
    → HasTeamIds game
    → add_precalculated "" (calculate_game_stats game) game totals ≡ add_game game totals
unfolding add_precalculated add_game
add_precalculated-add_game game totals (away_named, home_named) =
    let score = (calculate_game_stats game).score in
    let away_teams = add_team (team_id_of game away) game score away totals.teams in
    ap (λ x. record (add_game game totals) { teams = add_side "" game score home x })
      (add_side-add_team game score away totals.teams away_named)
    ∙ ap (λ x. record (add_game game totals) { teams = x })
        (add_side-add_team game score home away_teams home_named)

add_items-add_games :
    (all games : List State) (totals : StatsTotals)
    → All (λ game. game_with_id game.id all ≡ some game) games
    → All HasTeamIds games
    → add_items "" all (map item_of games) totals ≡ add_games games totals
unfolding add_items add_games
add_items-add_games all [] totals found named = refl
add_items-add_games all (game ∷ games) totals (here, found) (named, others) =
    let stats = calculate_game_stats game in
    ap
      (λ o.
        add_items "" all (map item_of games)
          (elim o [ none ↦ totals | some g ↦ add_precalculated "" stats g totals ]))
      here
    ∙ ap (add_items "" all (map item_of games)) (add_precalculated-add_game game totals named)
    ∙ add_items-add_games all games (add_game game totals) found others

-- Without a filter, the totals from the lines of games, each calculated beforehand and listed under its id, are
-- the totals of the games, if each game is the last of the games with its id and its teams have ids.
pub aggregate_precalculated_stats-eq :
    (games : List State)
    → All (λ game. game_with_id game.id games ≡ some game) games
    → All HasTeamIds games
    → aggregate_precalculated_stats (map item_of games) games "" ≡ aggregate_stats games
unfolding aggregate_precalculated_stats aggregate_stats
aggregate_precalculated_stats-eq games found named =
    add_items-add_games games games no_totals found named
