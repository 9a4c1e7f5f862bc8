-- ===== src/Teams.antt =====
-- Teams: the editor of frontend/controllers/TeamController.js with the models of frontend/models/Team.js
-- and frontend/models/Player.js. Board has the list of teams, and Loading its
-- loads.
pub mod Board
pub mod Loading
pub mod Members
pub mod Saved
pub mod Stale
use skorekeeper.Common.{
  ℕ, suc, ◌+◌, String, Bool, true, false, ◌&&◌, ◌||◌, not, List, [], ◌∷◌, ◌++◌, map, Option, none,
  some, Dict, lookup, insert, erase, filter, elem, or_text, str_eq, ltb, if◌then◌else◌,
}
use skorekeeper.Common.Text.{includes}
use Prim.Native.Char.{code}
use Prim.Native.String.{[], ◌∷◌}
use skorekeeper.Game.{Player, current_schema_version}

pub record Roles : Type 0 where
  pub admins : List String
  pub scorekeepers : List String
  pub spectators : List String

pub record TeamData : Type 0 where
  pub id : String
  pub schema_version : ℕ
  pub name : String
  pub short_name : String
  pub color : String
  pub owner_id : String
  pub roles : Roles
  pub updated_at : ℕ
  pub roster : List Player

-- The keys of `roles`.
pub data RoleKey : Type 0 where
  admin_role scorekeeper_role spectator_role : RoleKey

abbrev pub members_of : RoleKey → Roles → List String
members_of admin_role r = r.admins
members_of scorekeeper_role r = r.scorekeepers
members_of spectator_role r = r.spectators

abbrev pub put_members : RoleKey → List String → Roles → Roles
put_members admin_role xs r = record r { admins = xs }
put_members scorekeeper_role xs r = record r { scorekeepers = xs }
put_members spectator_role xs r = record r { spectators = xs }

-- `teamState` of the editor.
pub record TeamState : Type 0 where
  pub id : String
  pub owner_id : String
  pub roles : Roles

-- The state of the editor for a team that is there, and for a new one; a nobody has the email "".
unfoldable pub edit_team : String → TeamData → TeamState
edit_team email team = record {
  id = team.id;
  owner_id = or_text team.owner_id email;
  roles = team.roles;
}

unfoldable pub edit_new_team : String → TeamState
edit_new_team email = record {
  id = "";
  owner_id = email;
  roles = record { admins = email ∷ []; scorekeepers = []; spectators = [] };
}

-- `text.length`, in units of 16 bits.
unfoldable pub text_length : String → ℕ
text_length [] = 0
text_length (c ∷ s) = (if ltb (code c) 0x10000 then 1 else 2) + text_length s

-- `validate`: whether the text is short enough.
unfoldable pub validate : String → ℕ → Bool
unfolding text_length
validate val limit = not (ltb limit (text_length val))

-- `allMembers`
unfoldable pub all_members : Roles → List String
all_members r = r.admins ++ r.scorekeepers ++ r.spectators

-- `addTeamMember`, with the text of the field trimmed and in lower case; none where the editor only
-- shows a message or does nothing.
unfoldable pub add_team_member : String → RoleKey → TeamState → Option TeamState
unfolding validate all_members
add_team_member email role s =
    if str_eq email "" || not (validate email 100)
    then none
    else if not (includes email "@")
    then none
    else if elem email (all_members s.roles)
    then none
    else some
        (record s { roles = put_members role (members_of role s.roles ++ email ∷ []) s.roles })

unfoldable pub remove_team_member : String → RoleKey → TeamState → TeamState
remove_team_member email role s = record s {
  roles = put_members role (filter (λ e. not (str_eq e email)) (members_of role s.roles)) s.roles;
}

-- A row of the roster on the page; `pid` is "" for a new player.
pub record RosterRow : Type 0 where
  pub pid : String
  pub name : String
  pub number : String
  pub pos : String

pub record TeamForm : Type 0 where
  pub id : String
  pub name : String
  pub short_name : String
  pub color : String
  pub rows : List RosterRow

-- `generateUUID` is a parameter: the id of the nth call.
module _ (new_id : ℕ → String) where
  -- The rows with a name, from the nth call on.
  unfoldable pub roster_of_rows : ℕ → List RosterRow → List Player
  roster_of_rows n [] = []
  roster_of_rows n (row ∷ rows) =
      let fresh = roster_of_rows (suc n) rows in
      let rest = roster_of_rows n rows in
      if str_eq row.name ""
      then rest
      else record {
        id = or_text row.pid (new_id n);
        name = row.name;
        number = row.number;
        pos = row.pos;
      }
        ∷ (if str_eq row.pid "" then fresh else rest)

  -- `new Team({...})` of `saveTeam`; the id of the team is the first call.
  unfoldable pub built_team : TeamForm → TeamState → String → String → ℕ → TeamData
  unfolding roster_of_rows
  built_team form s user_email local_id now = record {
    id = or_text form.id (new_id 0);
    schema_version = current_schema_version;
    name = form.name;
    short_name = form.short_name;
    color = or_text form.color "#2563eb";
    owner_id = or_text s.owner_id (or_text user_email local_id);
    roles = s.roles;
    updated_at = now;
    roster = roster_of_rows (if str_eq form.id "" then 1 else 0) form.rows;
  }

-- A team in the store `teams`, with its `_dirty`.
pub record StoredTeam : Type 0 where
  pub team : TeamData
  pub is_dirty : Bool

-- `saveTeam`, `markClean` and `deleteTeam` of the database (frontend/services/dbManager.js).
unfoldable pub store_team : TeamData → Dict StoredTeam → Dict StoredTeam
store_team team db = insert team.id (record { team = team; is_dirty = true }) db

abbrev clean : StoredTeam → StoredTeam
clean t = record t { is_dirty = false }

unfoldable pub mark_clean : String → Dict StoredTeam → Dict StoredTeam
mark_clean id db = elim (lookup id db) [ none ↦ db | some t ↦ insert id (clean t) db ]

unfoldable pub delete_stored : String → Dict StoredTeam → Dict StoredTeam
delete_stored id db = erase id db

-- The save: the team is stored as dirty, and cleaned where the server has taken it. Of a user who is
-- not signed in nothing is sent.
unfoldable pub save_to : TeamData → Bool → Bool → Dict StoredTeam → Dict StoredTeam
unfolding store_team mark_clean
save_to team has_user accepted db =
    if has_user && accepted then mark_clean team.id (store_team team db) else store_team team db

unfoldable pub save_team :
    (ℕ → String)
    → TeamForm
    → TeamState
    → String
    → String
    → ℕ
    → Bool
    → Bool
    → Dict StoredTeam
    → Option (Dict StoredTeam)
unfolding built_team save_to
save_team new_id form s user_email local_id now has_user accepted db =
    if str_eq form.name ""
    then none
    else some (save_to (built_team new_id form s user_email local_id now) has_user accepted db)
