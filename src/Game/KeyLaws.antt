-- ===== src/Game/KeyLaws.antt =====
-- Keys of cells, written and read back.
use skorekeeper.Common.{ℕ, String, ◌≡◌, refl, arith}
use skorekeeper.Common.Text.{show_nat}
use skorekeeper.Common.Text.Laws.{NoDash, split_dash-append, join_dash-split_dash, NoDash-show_nat}
use skorekeeper.Game.Codes.{Team, away, home, team_text}
use skorekeeper.Game.Keys.{event_key, key_team, key_col}

NoDash-team_text : (team : Team) → NoDash (team_text team)
NoDash-team_text away = ground arith
NoDash-team_text home = ground arith

-- The code that takes a key apart reads back the team and the column that it was made of, whatever
-- dashes the column's id has.
pub event_key-parts :
    (team : Team) (b : ℕ) (col : String)
    → (key_team (event_key team b col) ≡ team_text team) × (key_col (event_key team b col) ≡ col)
unfolding event_key key_team key_col
event_key-parts team b col =
    rw
      (
        split_dash-append (team_text team) _ (NoDash-team_text team),
        split_dash-append (show_nat b) col (NoDash-show_nat b),
      )
      (refl, join_dash-split_dash col)
