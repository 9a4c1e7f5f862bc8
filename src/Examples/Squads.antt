-- ===== src/Examples/Squads.antt =====
-- A team with one player and one administrator.
use skorekeeper.Common.{
  ℕ, String, Bool, true, false, ◌&&◌, not, List, [], ◌∷◌, map, filter, some, Dict, All, str_eq, ◌≡◌,
  refl,
}
use skorekeeper.Access.{has_team_read_access}
use skorekeeper.Teams.{
  admin_role, scorekeeper_role, spectator_role, TeamState, all_members, RosterRow, TeamForm,
  built_team, StoredTeam, save_team,
}
use skorekeeper.Teams.Board.{TeamBoard}
use skorekeeper.Teams.Loading.{local_teams_loaded, load_teams_view}
use skorekeeper.Teams.Members.{
  IsMembership, MemberEdit, invite, dismiss, edit_members, edit_members-IsMembership,
}
use skorekeeper.Teams.Saved.{IsNamed, IsSaved, save_team_lem}
use skorekeeper.Teams.Stale.{local_teams_loaded-sends}

abbrev fresh_team : TeamState
fresh_team = record {
  id = "";
  owner_id = "a@x";
  roles = record { admins = "a@x" ∷ []; scorekeepers = []; spectators = [] };
}

abbrev edits : List MemberEdit
edits =
    invite "b@x" scorekeeper_role
    ∷ invite "b@x" spectator_role
    ∷ dismiss "a@x" admin_role
    ∷ invite "a@x" spectator_role
    ∷ []

fresh_team-IsMembership : IsMembership fresh_team
unfolding all_members
fresh_team-IsMembership = (refl, tt)

edit_members-IsMembership_example : IsMembership (edit_members edits fresh_team)
edit_members-IsMembership_example =
    edit_members-IsMembership edits fresh_team fresh_team-IsMembership

abbrev one_id : ℕ → String
one_id n = "new"

abbrev row : String → RosterRow
row name = record { pid = ""; name = name; number = "7"; pos = "P" }

abbrev form : TeamForm
form = record {
  id = "";
  name = "Owls";
  short_name = "";
  color = "";
  rows = row "Ann" ∷ row "" ∷ [];
}

save_team_lem_example :
    (after : Dict StoredTeam) × (save_team one_id form fresh_team "a@x" "me" 5 true false []
      ≡ some after)
    × IsSaved (built_team one_id form fresh_team "a@x" "me" 5) (true && false) [] after
    × All IsNamed (built_team one_id form fresh_team "a@x" "me" 5).roster
    × (map (λ p. p.name) (built_team one_id form fresh_team "a@x" "me" 5).roster
        ≡ map (λ r. r.name) (filter (λ r. not (str_eq r.name "")) form.rows))
save_team_lem_example =
    save_team_lem one_id form fresh_team "a@x" "me" 5 true false [] (λ n. refl) refl

abbrev owls : StoredTeam
owls = record {
  team = record {
    id = "t1";
    schema_version = 3;
    name = "Owls";
    short_name = "";
    color = "";
    owner_id = "a@x";
    roles = record { admins = []; scorekeepers = []; spectators = [] };
    updated_at = 0;
    roster = [];
  };
  is_dirty = false;
}

abbrev teams_board : TeamBoard
teams_board = record {
  local_buffer = [];
  remote_buffer = [];
  sync_statuses = [];
  is_loading = false;
  is_fetching_remote = false;
  query = "owls";
  display_limit = 70;
  remote_offset = 50;
  remote_has_more = true;
  teams = [];
}

abbrev lower : String → String
lower s = s

abbrev never_after : String → String → Bool
never_after s t = false

readable :
    has_team_read_access "a@x" "me" (
      some
        (record { id = "t1"; owner_id = "a@x"; admins = []; scorekeepers = []; spectators = [] }))
    ≡ true
unfolding has_team_read_access
readable = refl

local_teams_loaded-sends_example :
    (local_teams_loaded never_after
      (record { is_online = true; is_server_unreachable = false })
      lower
      "a@x"
      "me"
      true
      (owls ∷ [])
      (load_teams_view never_after
        (record { is_online = true; is_server_unreachable = false })
        true
        (record teams_board { query = "" })).0).1
    ≡ owls.team ∷ []
local_teams_loaded-sends_example =
    local_teams_loaded-sends never_after lower "a@x" "me" owls teams_board readable
