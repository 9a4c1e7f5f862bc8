-- ===== src/Access/Rights.antt =====
-- How the rights of frontend/services/PermissionService.js go together.
use skorekeeper.Common.{
  String, Bool, true, false, ◌&&◌, ◌||◌, not, List, Option, none, some, str_eq, eq_iff,
  if◌then◌else◌, ◌≡◌, refl, subst, sym, arith,
}
use skorekeeper.Game.{State, away, home, side}
use skorekeeper.Access.{
  TeamRights, can_write_team, has_team_read_access, team_with_id, check_teams, is_own,
  direct_permission, has_read_access, is_read_only,
}

can_write_team-has_team_read_access :
    (user_id local_id : String) (team : Option TeamRights)
    → can_write_team user_id local_id team ≡ true
    → has_team_read_access user_id local_id team ≡ true
unfolding can_write_team has_team_read_access
can_write_team-has_team_read_access user_id local_id none h = h
can_write_team-has_team_read_access user_id local_id (some team) h = ground arith

check_teams_mono :
    (f g : Option TeamRights → Bool) (game : State) (teams : List TeamRights)
    → ((t : Option TeamRights) → f t ≡ true → g t ≡ true)
    → check_teams f game teams ≡ true
    → check_teams g game teams ≡ true
check_teams_mono f g game teams sub h =
    let a = team_with_id teams (side away game.team_id) in
    let b = team_with_id teams (side home game.team_id) in
    either (f a) (g a) (f b) (g b) (sub a) (sub b) h
  where
    either :
        (p q r s : Bool)
        → (p ≡ true → q ≡ true)
        → (r ≡ true → s ≡ true)
        → (p || r) ≡ true
        → (q || s) ≡ true
    either true q r s left right h = ground (arith, left refl)
    either false q r s left right h = ground (arith, right h)

write_is_some : (p : String) → str_eq p "write" ≡ true → str_eq p "" ≡ false
write_is_some p e = subst (λ x. str_eq x "" ≡ false) (sym ((eq_iff p "write").0 e)) refl

-- The chains of tests of the two functions, for a user who is signed in.
chains :
    (own public absent direct_write no_direct writes reads : Bool)
    → absent ≡ false
    → (direct_write ≡ true → no_direct ≡ false)
    → (writes ≡ true → reads ≡ true)
    → (if own then false else if not absent && direct_write then false else not writes) ≡ false
    → (if own
        then true
        else if public
        then true
        else if absent
        then false
        else if not no_direct
        then true
        else reads)
      ≡ true
chains true public b w n ws rs here direct team h = refl
chains false true b w n ws rs here direct team h = refl
chains false false true w n ws rs here direct team h = absurd cc
chains false false false true n ws rs here direct team h = ground (arith, direct refl)
chains false false false false true ws rs here direct team h = team (ground arith)
chains false false false false false ws rs here direct team h = refl

-- A user who is signed in and for whom the game is not read-only has read access to it.
pub is_read_only-has_read_access :
    (game : State) (teams : List TeamRights) (user_id local_id : String)
    → str_eq user_id "" ≡ false
    → is_read_only game user_id teams local_id ≡ false
    → has_read_access game teams user_id local_id ≡ true
unfolding is_read_only has_read_access
is_read_only-has_read_access game teams user_id local_id signed_in h =
    let direct = direct_permission game user_id in
    let writes = check_teams (can_write_team user_id local_id) game teams in
    let own = is_own game user_id local_id in
    chains own (str_eq game.permissions.public "read") (str_eq user_id "") (str_eq direct "write")
      (str_eq direct "") writes (check_teams (has_team_read_access user_id local_id) game teams)
      signed_in (write_is_some direct)
      (check_teams_mono (can_write_team user_id local_id) (has_team_read_access user_id local_id)
        game teams (can_write_team-has_team_read_access user_id local_id))
      h

-- Where nobody is signed in, a game that is not public, a demo or of the local owner is not read-only if the local
-- owner owns one of its teams, and yet has no read access.
pub has_read_access-anonymous :
    (game : State) (teams : List TeamRights) (local_id : String)
    → is_own game "" local_id ≡ false
    → str_eq game.permissions.public "read" ≡ false
    → check_teams (can_write_team "" local_id) game teams ≡ true
    → (is_read_only game "" teams local_id ≡ false)
      × (has_read_access game teams "" local_id ≡ false)
unfolding is_read_only has_read_access
has_read_access-anonymous game teams local_id foreign private writable =
    (rw (foreign, is_read_only, writable) refl, rw (foreign, has_read_access, private) refl)
