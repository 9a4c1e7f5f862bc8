-- ===== src/Bench.antt =====
-- The players who can be substituted: `getAllAvailablePlayers` of
-- frontend/game/substitutionManager.js.
pub mod Listed
use skorekeeper.Common.{
  String, Bool, true, false, ◌||◌, List, [], ◌∷◌, map, Option, none, some, str_eq, if◌then◌else◌,
  Dict, lookup, insert, is_some,
}
use skorekeeper.Common.Text.{◌+++◌}
use skorekeeper.Game.{State, Team, Player, side}

abbrev pub player_key : Player → String
player_key p = if str_eq p.id "" then p.number +++ "-" +++ p.name else p.id

-- The first player with a key stays.
unfoldable pub add_player_once : Player → Dict Player → Dict Player
add_player_once p players =
    if str_eq (player_key p) "" || is_some (lookup (player_key p) players)
    then players
    else insert (player_key p) p players

unfoldable pub add_all : List Player → Dict Player → Dict Player
unfolding add_player_once
add_all [] players = players
add_all (p ∷ ps) players = add_all ps (add_player_once p players)

-- The bench, then the starters, then those on the field.
unfoldable pub player_map : State → Team → Dict Player
unfolding add_all
player_map game team =
    let roster = side team game.roster in
    add_all (map (λ s. s.current) roster)
      (add_all (map (λ s. s.starter) roster) (add_all (side team game.subs) []))

unfoldable pub get_all_available_players : State → Team → List Player
unfolding player_map
get_all_available_players game team = map (λ b. b.1) (player_map game team)
