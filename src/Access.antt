-- ===== src/Access.antt =====
-- Who may read and write: `PermissionService` of frontend/services/PermissionService.js.
pub mod Rights
use skorekeeper.Common.{
  String, Bool, true, false, ◌&&◌, ◌||◌, not, List, Option, none, some, str_eq, if◌then◌else◌,
  lookup, find, elem, get_or,
}
use skorekeeper.Common.Text.{starts_with}
use skorekeeper.Game.{State, away, home, side}

-- A team; a list of roles that is missing is empty.
pub record TeamRights : Type 0 where
  pub id : String
  pub owner_id : String
  pub admins : List String
  pub scorekeepers : List String
  pub spectators : List String

-- The id of a user is "" if nobody is signed in.
unfoldable pub can_write_team : String → String → Option TeamRights → Bool
can_write_team user_id local_id none = false
can_write_team user_id local_id (some team) =
    if str_eq team.owner_id local_id
    then true
    else if str_eq user_id ""
    then false
    else if str_eq team.owner_id user_id
    then true
    else elem user_id team.admins || elem user_id team.scorekeepers

unfoldable pub has_team_read_access : String → String → Option TeamRights → Bool
has_team_read_access user_id local_id none = false
has_team_read_access user_id local_id (some team) =
    if str_eq team.owner_id local_id
    then true
    else if not (str_eq user_id "") && str_eq team.owner_id user_id
    then true
    else if str_eq user_id ""
    then false
    else elem user_id team.admins || elem user_id team.scorekeepers || elem user_id team.spectators

-- `teamId && allTeams.find(t => t.id === teamId)`
abbrev pub team_with_id : List TeamRights → Option String → Option TeamRights
team_with_id teams none = none
team_with_id teams (some id) = if str_eq id "" then none else find (λ t. str_eq t.id id) teams

-- Whether a test holds for one of the teams of the game.
abbrev pub check_teams : (Option TeamRights → Bool) → State → List TeamRights → Bool
check_teams test game teams =
    test (team_with_id teams (side away game.team_id))
    || test (team_with_id teams (side home game.team_id))

-- Owner, local owner or demo game.
abbrev pub is_own : State → String → String → Bool
is_own game user_id local_id =
    (not (str_eq user_id "") && str_eq game.owner_id user_id)
    || str_eq game.owner_id local_id
    || starts_with game.id "demo-"

abbrev pub direct_permission : State → String → String
direct_permission game user_id = get_or (lookup user_id game.permissions.users) ""

unfoldable pub has_read_access : State → List TeamRights → String → String → Bool
unfolding has_team_read_access
has_read_access game teams user_id local_id =
    if is_own game user_id local_id
    then true
    else if str_eq game.permissions.public "read"
    then true
    else if str_eq user_id ""
    then false
    else if not (str_eq (direct_permission game user_id) "")
    then true
    else check_teams (has_team_read_access user_id local_id) game teams

unfoldable pub is_read_only : State → String → List TeamRights → String → Bool
unfolding can_write_team
is_read_only game user_id teams local_id =
    if is_own game user_id local_id
    then false
    else if not (str_eq user_id "") && str_eq (direct_permission game user_id) "write"
    then false
    else not (check_teams (can_write_team user_id local_id) game teams)
