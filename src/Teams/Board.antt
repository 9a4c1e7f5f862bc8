-- ===== src/Teams/Board.antt =====
-- The list of teams of frontend/controllers/TeamController.js: what `mergeAndRender` makes of the two
-- buffers, and the sync of a team.
use skorekeeper.Common.{
  ℕ, String, Bool, true, false, ◌||◌, not, List, [], ◌∷◌, map, Option, none, some, Dict, lookup,
  insert, filter, find, get_or, str_eq, if◌then◌else◌,
}
use skorekeeper.Dashboard.{Network, slice_to}
use skorekeeper.Teams.{TeamData, StoredTeam}

pub data TeamStatus : Type 0 where
  team_synced team_remote_only team_local_only team_syncing team_error : TeamStatus

-- `_source` and, where there are both, `_localTeam`.
pub data TeamOrigin : Type 0 where
  local_team remote_team : TeamOrigin
  both_teams : StoredTeam → TeamOrigin

pub record TeamEntry : Type 0 where
  pub item : StoredTeam
  pub origin : TeamOrigin

pub record ListedTeam : Type 0 where
  pub base : StoredTeam
  pub is_local : Bool
  pub sync_status : TeamStatus

-- The fields of the controller with `app.state.teams`; `localMap`, which nothing reads, is left out.
pub record TeamBoard : Type 0 where
  pub local_buffer : List StoredTeam
  pub remote_buffer : List StoredTeam
  pub sync_statuses : Dict TeamStatus
  pub is_loading : Bool
  pub is_fetching_remote : Bool
  pub query : String
  pub display_limit : ℕ
  pub remote_offset : ℕ
  pub remote_has_more : Bool
  pub teams : List ListedTeam

unfoldable pub add_local_teams : List StoredTeam → Dict TeamEntry → Dict TeamEntry
add_local_teams [] merged = merged
add_local_teams (t ∷ teams) merged =
    add_local_teams teams (insert t.team.id (record { item = t; origin = local_team }) merged)

abbrev merge_remote_team : StoredTeam → Option TeamEntry → TeamEntry
merge_remote_team t none = record { item = t; origin = remote_team }
merge_remote_team t (some existing) = record { item = t; origin = both_teams existing.item }

unfoldable pub add_remote_teams : List StoredTeam → Dict TeamEntry → Dict TeamEntry
add_remote_teams [] merged = merged
add_remote_teams (t ∷ teams) merged =
    add_remote_teams teams (insert t.team.id (merge_remote_team t (lookup t.team.id merged)) merged)

-- The status before the one of a running sync is put over it.
unfoldable pub settled_status : Network → TeamEntry → TeamStatus
settled_status net e = elim e.origin [
  | remote_team ↦ team_remote_only
  | local_team ↦
      if e.item.is_dirty
      then team_local_only
      else if not net.is_online || net.is_server_unreachable
      then team_synced
      else team_local_only
  | both_teams existing ↦ if existing.is_dirty then team_local_only else team_synced
]

abbrev pub base_team : TeamEntry → StoredTeam
base_team e = elim e.origin [ both_teams existing ↦ existing | _ ↦ e.item ]

abbrev pub is_stored_team : TeamEntry → Bool
is_stored_team e = elim e.origin [ remote_team ↦ false | _ ↦ true ]

unfoldable pub process_team : Network → Dict TeamStatus → TeamEntry → ListedTeam
unfolding settled_status
process_team net statuses e = record {
  base = base_team e;
  is_local = is_stored_team e;
  sync_status = get_or (lookup e.item.team.id statuses) (settled_status net e);
}

-- `localeCompare` is a parameter: whether it is positive on two names.
module _ (compares_after : String → String → Bool) where
  unfoldable pub insert_team : ListedTeam → List ListedTeam → List ListedTeam
  insert_team t [] = t ∷ []
  insert_team t (u ∷ teams) =
      let rest = insert_team t teams in
      if compares_after t.base.team.name u.base.team.name then u ∷ rest else t ∷ u ∷ teams

  unfoldable pub sort_teams : List ListedTeam → List ListedTeam
  unfolding insert_team
  sort_teams [] = []
  sort_teams (t ∷ teams) = insert_team t (sort_teams teams)

  module _ (net : Network) where
    -- `mergeAndRender`
    unfoldable pub refresh_teams : TeamBoard → TeamBoard
    unfolding sort_teams add_local_teams add_remote_teams process_team
    refresh_teams s = record s {
      teams = slice_to s.display_limit (
          sort_teams (
            map (λ e. process_team net s.sync_statuses e.1)
              (add_remote_teams s.remote_buffer (add_local_teams s.local_buffer []))));
    }

    abbrev put_status : String → TeamStatus → TeamBoard → TeamBoard
    put_status id status s =
        refresh_teams (record s { sync_statuses = insert id status s.sync_statuses })

    abbrev is_syncing : TeamStatus → Bool
    is_syncing team_syncing = true
    is_syncing _ = false

    -- `syncTeam` of a user who is signed in, up to its request: the team that is sent.
    unfoldable pub sync_team : String → TeamBoard → TeamBoard × Option TeamData
    unfolding refresh_teams
    sync_team id s = elim (find (λ t. str_eq t.base.team.id id) s.teams) [
      | none ↦ (s, none)
      | some t ↦
          if is_syncing t.sync_status
          then (s, none)
          else (put_status id team_syncing s, some t.base.team)
    ]

    -- The rest of `syncTeam`; on success the stored team is marked clean as well.
    unfoldable pub sync_answered : String → Bool → TeamBoard → TeamBoard
    unfolding refresh_teams
    sync_answered id success s = put_status id (if success then team_synced else team_error) s

    abbrev pub with_sent : Option TeamData → List TeamData → List TeamData
    with_sent none sent = sent
    with_sent (some t) sent = t ∷ sent

    unfoldable pub sync_all : List String → TeamBoard → TeamBoard × List TeamData
    unfolding sync_team
    sync_all [] s = (s, [])
    sync_all (id ∷ ids) s =
        let next = sync_team id s in
        let rest = sync_all ids next.0 in (rest.0, with_sent next.1 rest.1)

    abbrev is_local_only : TeamStatus → Bool
    is_local_only team_local_only = true
    is_local_only _ = false

    -- `triggerVisibleAutoSync`: the teams on show that seem to be stored here only.
    unfoldable pub trigger_visible_auto_sync : Bool → TeamBoard → TeamBoard × List TeamData
    unfolding sync_all
    trigger_visible_auto_sync has_user s =
        let ids = map (λ t. t.base.team.id) (filter (λ t. is_local_only t.sync_status) s.teams) in
        if has_user then sync_all ids s else (s, [])
