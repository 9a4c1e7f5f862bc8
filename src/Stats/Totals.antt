-- ===== src/Stats/Totals.antt =====
-- `aggregateStats` and `aggregatePrecalculatedStats` of frontend/game/statsEngine.js: the totals of
-- many games.
use skorekeeper.Common.{
  ℕ, ◌+◌, String, Bool, true, false, ◌&&◌, ◌||◌, List, [], ◌∷◌, Option, none, some, str_eq, ltb,
  if◌then◌else◌, Dict, lookup, insert, get_or, or_text,
}
use skorekeeper.Game.{
  State, Team, away, home, PerTeam, side, other_team, GameStatus, final, ongoing,
}
use skorekeeper.Stats.Lines.{PlayerLine, PitcherLine, new_player_line, new_pitcher_line}
use skorekeeper.Stats.Scores.{LineScore}
use skorekeeper.Stats.Games.{GameStats, calculate_game_stats}

pub record PlayerTotal : Type 0 where
  pub line : PlayerLine
  pub games : ℕ

pub record PitcherTotal : Type 0 where
  pub line : PitcherLine
  pub games : ℕ

pub record TeamTotal : Type 0 where
  pub w : ℕ
  pub l : ℕ
  pub t : ℕ
  pub rs : ℕ
  pub ra : ℕ
  pub games : ℕ
  pub name : String

pub record StatsTotals : Type 0 where
  pub players : Dict PlayerTotal
  pub pitchers : Dict PitcherTotal
  pub teams : Dict TeamTotal

abbrev pub no_totals : StatsTotals
no_totals = record { players = []; pitchers = []; teams = [] }

-- Every number of the second line is added to the first.
abbrev pub add_player_line : PlayerLine → PlayerLine → PlayerLine
add_player_line p s = record p {
  ab = p.ab + s.ab;
  r = p.r + s.r;
  h = p.h + s.h;
  rbi = p.rbi + s.rbi;
  bb = p.bb + s.bb;
  k = p.k + s.k;
  hbp = p.hbp + s.hbp;
  sf = p.sf + s.sf;
  sh = p.sh + s.sh;
  singles = p.singles + s.singles;
  doubles = p.doubles + s.doubles;
  triples = p.triples + s.triples;
  hr = p.hr + s.hr;
  sb = p.sb + s.sb;
  pa = p.pa + s.pa;
  flyouts = p.flyouts + s.flyouts;
  lineouts = p.lineouts + s.lineouts;
  groundouts = p.groundouts + s.groundouts;
  other_outs = p.other_outs + s.other_outs;
  roe = p.roe + s.roe;
  called_strikes = p.called_strikes + s.called_strikes;
}

abbrev pub add_pitcher_line : PitcherLine → PitcherLine → PitcherLine
add_pitcher_line p s = record p {
  ip_outs = p.ip_outs + s.ip_outs;
  h = p.h + s.h;
  bb = p.bb + s.bb;
  er = p.er + s.er;
  k = p.k + s.k;
  hbp = p.hbp + s.hbp;
  pitches = p.pitches + s.pitches;
  strikes = p.strikes + s.strikes;
  balls = p.balls + s.balls;
  bf = p.bf + s.bf;
  defensive_outs = p.defensive_outs + s.defensive_outs;
  errors = p.errors + s.errors;
}

abbrev pub add_to_player : PlayerLine → PlayerTotal → PlayerTotal
add_to_player s p = record { line = add_player_line p.line s; games = p.games + 1 }

abbrev pub add_to_pitcher : PitcherLine → PitcherTotal → PitcherTotal
add_to_pitcher s p = record { line = add_pitcher_line p.line s; games = p.games + 1 }

abbrev pub new_player_total : String → PlayerTotal
new_player_total name = record { line = new_player_line name ""; games = 0 }

abbrev pub new_pitcher_total : PitcherTotal
new_pitcher_total = record { line = new_pitcher_line ""; games = 0 }

abbrev pub add_player : String → PlayerLine → Dict PlayerTotal → Dict PlayerTotal
add_player id s players =
    insert id (add_to_player s (get_or (lookup id players) (new_player_total s.name))) players

abbrev pub add_pitcher : String → PitcherLine → Dict PitcherTotal → Dict PitcherTotal
add_pitcher id s pitchers =
    insert id (add_to_pitcher s (get_or (lookup id pitchers) new_pitcher_total)) pitchers

-- The players of a game whose team is one of those chosen.
unfoldable pub add_players : (String → Bool) → Dict PlayerLine → Dict PlayerTotal → Dict PlayerTotal
add_players chosen [] players = players
add_players chosen ((id, s) ∷ lines) players =
    add_players chosen lines (if chosen s.team then add_player id s players else players)

unfoldable pub add_pitchers :
    (String → Bool) → Dict PitcherLine → Dict PitcherTotal → Dict PitcherTotal
add_pitchers chosen [] pitchers = pitchers
add_pitchers chosen ((id, s) ∷ lines) pitchers =
    add_pitchers chosen lines (if chosen s.team then add_pitcher id s pitchers else pitchers)

abbrev pub new_team_total : String → TeamTotal
new_team_total name = record { w = 0; l = 0; t = 0; rs = 0; ra = 0; games = 0; name = name }

abbrev pub is_final : GameStatus → Bool
is_final final = true
is_final ongoing = false

-- The result of a final game.
abbrev pub add_result : Bool → ℕ → ℕ → TeamTotal → TeamTotal
add_result over own other x =
    if over
    then (if ltb other own
        then record x { w = x.w + 1 }
        else if ltb own other
        then record x { l = x.l + 1 }
        else record x { t = x.t + 1 })
    else x

abbrev pub add_score : String → Bool → ℕ → ℕ → TeamTotal → TeamTotal
add_score name over own other x = add_result over own other (record x {
  name = or_text x.name name;
  rs = x.rs + own;
  ra = x.ra + other;
  games = x.games + 1;
})

-- One side of a game, under an id; nothing happens without one.
unfoldable pub add_team :
    String → State → PerTeam LineScore → Team → Dict TeamTotal → Dict TeamTotal
add_team id game score team teams =
    let name = side team game.team_name in
    if str_eq id ""
    then teams
    else insert id
        (add_score name (is_final game.status) (side team score).runs
          (side (other_team team) score).runs (get_or (lookup id teams) (new_team_total name)))
        teams

abbrev pub team_id_of : State → Team → String
team_id_of game team = get_or (side team game.team_id) ""

unfoldable pub add_game : State → StatsTotals → StatsTotals
unfolding add_players add_pitchers add_team calculate_game_stats
add_game game totals =
    let stats = calculate_game_stats game in
    record {
      players = add_players (λ _. true) stats.lines.player_stats totals.players;
      pitchers = add_pitchers (λ _. true) stats.lines.pitcher_stats totals.pitchers;
      teams =
          add_team (team_id_of game home) game stats.score home
            (add_team (team_id_of game away) game stats.score away totals.teams);
    }

unfoldable pub add_games : List State → StatsTotals → StatsTotals
unfolding add_game
add_games [] totals = totals
add_games (game ∷ games) totals = add_games games (add_game game totals)

unfoldable pub aggregate_stats : List State → StatsTotals
unfolding add_games
aggregate_stats games = add_games games no_totals

-- `{ id, stats }`
pub record StatsItem : Type 0 where
  pub id : String
  pub stats : Option GameStats

-- The last game with the id, since a later entry of the map replaces an earlier one.
unfoldable pub game_with_id : String → List State → Option State
game_with_id id [] = none
game_with_id id (game ∷ games) = elim (game_with_id id games) [
  | some later ↦ some later
  | none ↦ if str_eq game.id id then some game else none
]

-- Whether a side counts, for a filter that is not empty.
abbrev pub is_side : String → State → Team → Bool
is_side filter game team =
    str_eq (side team game.team_name) filter || str_eq (team_id_of game team) filter

abbrev pub is_counted : String → State → Team → Bool
is_counted filter game team = str_eq filter "" || is_side filter game team

abbrev pub is_valid_team : String → State → String → Bool
is_valid_team filter game team =
    str_eq filter ""
    || (is_side filter game away && str_eq (side away game.team_name) team)
    || (is_side filter game home && str_eq (side home game.team_name) team)

abbrev pub add_side : String → State → PerTeam LineScore → Team → Dict TeamTotal → Dict TeamTotal
add_side filter game score team teams =
    if is_counted filter game team
    then add_team (or_text (team_id_of game team) (side team game.team_name)) game score team teams
    else teams

unfoldable pub add_precalculated : String → GameStats → State → StatsTotals → StatsTotals
unfolding add_players add_pitchers add_team
add_precalculated filter stats game totals =
    if is_counted filter game away || is_counted filter game home
    then record {
      players = add_players (is_valid_team filter game) stats.lines.player_stats totals.players;
      pitchers = add_pitchers (is_valid_team filter game) stats.lines.pitcher_stats totals.pitchers;
      teams =
          add_side filter game stats.score home
            (add_side filter game stats.score away totals.teams);
    }
    else totals

abbrev pub add_item : String → List State → StatsItem → StatsTotals → StatsTotals
add_item filter games item totals = elim item.stats [
  | none ↦ totals
  | some stats ↦ elim (game_with_id item.id games) [
    | none ↦ totals
    | some game ↦ add_precalculated filter stats game totals
  ]
]

unfoldable pub add_items : String → List State → List StatsItem → StatsTotals → StatsTotals
unfolding game_with_id add_precalculated
add_items filter games [] totals = totals
add_items filter games (item ∷ items) totals =
    add_items filter games items (add_item filter games item totals)

unfoldable pub aggregate_precalculated_stats : List StatsItem → List State → String → StatsTotals
unfolding add_items
aggregate_precalculated_stats items games filter = add_items filter games items no_totals
