-- ===== src/Teams/Loading.antt =====
-- The loads of the list of teams (frontend/controllers/TeamController.js). What the database and the
-- server answer are steps of their own.
use skorekeeper.Common.{
  ℕ, ◌+◌, String, Bool, true, false, ◌&&◌, ◌||◌, not, List, [], ◌∷◌, ◌++◌, Option, none, some,
  filter, elem, length, str_eq, ltb, if◌then◌else◌,
}
use skorekeeper.Search.{Query, parse_query}
use skorekeeper.Access.{TeamRights, has_team_read_access}
use skorekeeper.Dashboard.{Network}
use skorekeeper.Dashboard.Matching.{has_text, all, asks_for}
use skorekeeper.Dashboard.Loading.{page_size}
use skorekeeper.Teams.{TeamData, StoredTeam}
use skorekeeper.Teams.Board.{TeamBoard, refresh_teams, trigger_visible_auto_sync}

abbrev pub rights_of : TeamData → TeamRights
rights_of t = record {
  id = t.id;
  owner_id = t.owner_id;
  admins = t.roles.admins;
  scorekeepers = t.roles.scorekeepers;
  spectators = t.roles.spectators;
}

module _ (compares_after : String → String → Bool) (net : Network) where
  -- `hasTeamReadAccess` for the user and the local id.
  module _ (to_lower_case : String → String) (user_id local_id : String) where
    unfoldable pub matches_team : StoredTeam → Query → Bool
    matches_team t q =
        all to_lower_case (has_text to_lower_case t.team.name) q.tokens
        && all to_lower_case
            (λ f. if str_eq f.key "name" then has_text to_lower_case t.team.name f.value else true)
            q.filters

    unfoldable pub searched_teams : String → List StoredTeam → List StoredTeam
    unfolding matches_team asks_for parse_query has_team_read_access
    searched_teams text stored =
        let parsed = parse_query to_lower_case text in
        let readable =
          filter (λ t. has_team_read_access user_id local_id (some (rights_of t.team))) stored in
        if asks_for "remote" parsed
        then []
        else if str_eq text ""
        then readable
        else filter (λ t. matches_team t parsed) readable

    -- The end of `loadAllLocalTeams`: the board, and the teams that are sent to the server.
    unfoldable pub local_teams_loaded :
        Bool → List StoredTeam → TeamBoard → TeamBoard × List TeamData
    unfolding trigger_visible_auto_sync refresh_teams searched_teams
    local_teams_loaded has_user stored s = trigger_visible_auto_sync compares_after net has_user (
        refresh_teams compares_after net
          (record s { local_buffer = searched_teams s.query stored; is_loading = false }))

  -- `fetchNextRemoteBatch` up to its request, whose offset is given.
  unfoldable pub fetch_next_teams : TeamBoard → TeamBoard × Option ℕ
  unfolding refresh_teams
  fetch_next_teams s = if s.is_fetching_remote || not s.remote_has_more then (s, none) else (
    refresh_teams compares_after net (record s { is_fetching_remote = true }),
    some s.remote_offset,
  )

  -- The rest of it, for a page.
  unfoldable pub teams_answered : List StoredTeam → TeamBoard → TeamBoard
  unfolding refresh_teams
  teams_answered rows s = refresh_teams compares_after net (record s {
    remote_buffer = s.remote_buffer ++ rows;
    remote_offset = s.remote_offset + length rows;
    remote_has_more = if ltb (length rows) page_size then false else s.remote_has_more;
    is_fetching_remote = false;
  })

  -- The rest of it, without data or on an exception.
  unfoldable pub no_teams_answered : TeamBoard → TeamBoard
  unfolding refresh_teams
  no_teams_answered s =
      refresh_teams compares_after net
        (record s { remote_has_more = false; is_fetching_remote = false })

  -- `handleScroll`, near the bottom or not.
  unfoldable pub scroll_teams : Bool → TeamBoard → TeamBoard × Option ℕ
  unfolding fetch_next_teams refresh_teams
  scroll_teams near_bottom s =
      let more : TeamBoard = record s { display_limit = s.display_limit + 20 } in
      let total = length s.local_buffer + length s.remote_buffer in
      if not near_bottom
      then (s, none)
      else if s.remote_has_more && not s.is_fetching_remote && ltb total (more.display_limit + 20)
      then fetch_next_teams more
      else (refresh_teams compares_after net more, none)

  -- `refreshTeamsData` up to its first answers; `loadTeamsView` clears the list as well.
  unfoldable pub refresh_teams_data : Bool → TeamBoard → TeamBoard × Option ℕ
  unfolding fetch_next_teams
  refresh_teams_data has_user s =
      let cleared : TeamBoard = record s {
        local_buffer = [];
        remote_buffer = [];
        sync_statuses = [];
        display_limit = 50;
        remote_offset = 0;
        remote_has_more = true;
        is_loading = true;
      } in
      if has_user then fetch_next_teams cleared else (cleared, none)

  unfoldable pub load_teams_view : Bool → TeamBoard → TeamBoard × Option ℕ
  unfolding refresh_teams_data
  load_teams_view has_user s = refresh_teams_data has_user (record s { teams = [] })

  unfoldable pub search_teams : Bool → String → TeamBoard → TeamBoard × Option ℕ
  unfolding load_teams_view
  search_teams has_user text s = load_teams_view has_user (record s { query = text })

  abbrev without_teams : List String → List StoredTeam → List StoredTeam
  without_teams ids teams = filter (λ t. not (elem t.team.id ids)) teams

  unfoldable pub team_deletions_answered : List String → TeamBoard → TeamBoard
  unfolding refresh_teams
  team_deletions_answered [] s = s
  team_deletions_answered (id ∷ ids) s = refresh_teams compares_after net (record s {
    local_buffer = without_teams (id ∷ ids) s.local_buffer;
    remote_buffer = without_teams (id ∷ ids) s.remote_buffer;
  })
