-- ===== src/Stats/Games.antt =====
-- The plate appearance in progress, and the statistics of a game as a whole (`calculateGameStats` of
-- frontend/game/statsEngine.js).
use skorekeeper.Common.{
  ℕ, String, Bool, false, ◌&&◌, List, [], ◌∷◌, Option, none, some, ltb, ◌==◌, if◌then◌else◌, Dict,
  lookup,
}
use skorekeeper.Game.{
  Legs, PathMark, legs, State, Team, away, home, Event, Column, PerTeam, team_text, event_key,
  key_col, key_slot,
}
use skorekeeper.Stats.Lines.{GameLines}
use skorekeeper.Stats.Scores.{
  unique_innings, LineScore, score_of, innings_of, mark_at_bats, column_of, is_key_of, inning_outs,
  outs_key, add_columns, calculate_total_runs_internal,
}
use skorekeeper.Stats.Innings.{lines_of}

pub record CurrentPa : Type 0 where
  pub inning : ℕ
  pub team : Team
  pub balls : ℕ
  pub strikes : ℕ
  pub outs : ℕ
  pub paths : Legs PathMark

abbrev pub first_pa : CurrentPa
first_pa = record {
  inning = 1;
  team = away;
  balls = 0;
  strikes = 0;
  outs = 0;
  paths = legs PathMark.unset PathMark.unset PathMark.unset PathMark.unset;
}

-- `sort((a, b) => a - b)`
unfoldable pub insert_inning : ℕ → List ℕ → List ℕ
insert_inning x [] = x ∷ []
insert_inning x (y ∷ ys) = let rest = insert_inning x ys in if ltb y x then y ∷ rest else x ∷ y ∷ ys

unfoldable pub sort_innings : List ℕ → List ℕ
unfolding insert_inning
sort_innings [] = []
sort_innings (x ∷ xs) = insert_inning x (sort_innings xs)

-- The slot and the column of the cell that comes last; none is -1.
abbrev pub later : Option (ℕ × String) → ℕ → String → Option (ℕ × String)
later none slot col = some (slot, col)
later (some (last, kept)) slot col = if ltb last slot then some (slot, col) else some (last, kept)

unfoldable pub last_cell :
    Team → ℕ → List Column → Dict Event → Option (ℕ × String) → Option (ℕ × String)
last_cell team inning columns [] last = last
last_cell team inning columns ((key, evt) ∷ events) last =
    last_cell team inning columns events (elim (column_of columns key) [
      | none ↦ last
      | some c ↦ elim (key_slot key) [
        | none ↦ last
        | some slot ↦
            if is_key_of team key && (c.inning == inning)
            then later last slot (key_col key)
            else last
      ]
    ])

abbrev pub has_outs_left : Option ℕ → Bool
has_outs_left none = false
has_outs_left (some outs) = ltb outs 3

-- The cell in progress of a team in an inning, if there is one.
abbrev pub pa_cell : State → Dict ℕ → ℕ → Team → Option (ℕ × String)
pa_cell game outs inning team =
    if has_outs_left (lookup (outs_key (team_text team) inning) outs)
    then last_cell team inning game.columns game.events none
    else none

-- A key without an event, of a slot that is written with a zero in front, raises.
abbrev pub pa_at : State → ℕ → Team → ℕ × String → Option CurrentPa
pa_at game inning team (slot, col) = elim (lookup (event_key team slot col) game.events) [
  | none ↦ none
  | some e ↦ some (record {
    inning = inning;
    team = team;
    balls = e.balls;
    strikes = e.strikes;
    outs = e.out_num;
    paths = e.paths;
  })
]

abbrev pub reverse_onto : List ℕ → List ℕ → List ℕ
reverse_onto [] ys = ys
reverse_onto (x ∷ xs) ys = reverse_onto xs (x ∷ ys)

-- From the last inning on, the home team first.
unfoldable pub search_pa : State → Dict ℕ → List ℕ → Option CurrentPa
unfolding last_cell
search_pa game outs [] = some first_pa
search_pa game outs (i ∷ innings) = elim (pa_cell game outs i home) [
  | some cell ↦ pa_at game i home cell
  | none ↦ elim (pa_cell game outs i away) [
    | some cell ↦ pa_at game i away cell
    | none ↦ search_pa game outs innings
  ]
]

unfoldable pub current_pa : State → Option CurrentPa
unfolding search_pa sort_innings unique_innings inning_outs
current_pa game =
    search_pa game (inning_outs game.columns game.events [])
      (reverse_onto (sort_innings (unique_innings [] game.columns)) [])

pub record GameStats : Type 0 where
  pub lines : GameLines
  pub score : PerTeam LineScore
  pub current_pa : Option CurrentPa
  pub innings : PerTeam (Dict ℕ)
  pub has_ab : PerTeam (Dict Bool)

-- For each team.
abbrev pub for_teams {ℓ} : {A : Type ℓ} → (Team → A) → PerTeam A
for_teams f = record { of_away = f away; of_home = f home }

unfoldable pub calculate_game_stats : State → GameStats
unfolding lines_of add_columns calculate_total_runs_internal innings_of mark_at_bats current_pa
calculate_game_stats game =
    let lines = lines_of game in
    record {
      lines = lines;
      score = for_teams (λ team. score_of game team lines.inning_stats);
      current_pa = current_pa game;
      innings = for_teams (λ team. innings_of team lines.inning_stats game.columns []);
      has_ab = for_teams (λ team. mark_at_bats team game.columns game.events []);
    }
