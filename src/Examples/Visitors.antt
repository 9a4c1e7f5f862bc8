-- ===== src/Examples/Visitors.antt =====
-- A scorekeeper of a team, and a visitor who is not signed in.
use skorekeeper.Common.{true, [], ◌∷◌, some, lookup, ◌≡◌, refl}
use skorekeeper.Common.Text.{starts_with}
use skorekeeper.Game.{State, both}
use skorekeeper.Access.{TeamRights, can_write_team, has_read_access, is_read_only}
use skorekeeper.Access.Rights.{is_read_only-has_read_access}
use skorekeeper.Examples.Data.{in_progress}

abbrev team_game : State
team_game = record in_progress { owner_id = "owner"; team_id = both (some "t1") }

abbrev local_team : TeamRights
local_team = record {
  id = "t1";
  owner_id = "here";
  admins = [];
  scorekeepers = "ann" ∷ [];
  spectators = [];
}

is_read_only-has_read_access_example :
    has_read_access team_game (local_team ∷ []) "ann" "there" ≡ true
unfolding is_read_only can_write_team starts_with lookup
is_read_only-has_read_access_example =
    is_read_only-has_read_access team_game (local_team ∷ []) "ann" "there" refl refl
