-- ===== src/Game/Keys.antt =====
-- The key of a cell in `events`, `${team}-${row}-${col}`, and how the code takes it apart.
use skorekeeper.Common.{ℕ, String, Option, List, [], ◌∷◌, drop}
use skorekeeper.Common.Text.{◌+++◌, split_dash, join_dash, show_nat, parse_int}
use skorekeeper.Game.Codes.{Team, team_text}

unfoldable pub event_key : Team → ℕ → String → String
event_key team b col = team_text team +++ "-" +++ show_nat b +++ "-" +++ col

abbrev first_part : List String → String
first_part [] = ""
first_part (w ∷ ws) = w

-- `key.split('-')[0]`
unfoldable pub key_team : String → String
key_team key = first_part (split_dash key)

-- `key.split('-').slice(2).join('-')`
unfoldable pub key_col : String → String
key_col key = join_dash (drop 2 (split_dash key))

abbrev second_part : List String → String
second_part [] = ""
second_part (w ∷ []) = ""
second_part (w ∷ v ∷ ws) = v

-- `parseInt(key.split('-')[1])`
unfoldable pub key_slot : String → Option ℕ
key_slot key = parse_int (second_part (split_dash key))
