-- ===== src/Teams/Stale.antt =====
-- The automatic sync that follows the load of the stored teams.
use skorekeeper.Common.{
  ℕ, String, Bool, true, false, ◌||◌, not, List, [], ◌∷◌, Option, none, some, lookup, insert,
  str_eq, str_eq_refl, find, if◌then◌else◌, ◌≡◌, refl, ap, ◌∙◌, arith, inl, inr, Bool-cases,
}
use skorekeeper.Access.{has_team_read_access}
use skorekeeper.Dashboard.{Network}
use skorekeeper.Teams.{TeamData, StoredTeam}
use skorekeeper.Teams.Board.{
  TeamBoard, local_team, team_local_only, settled_status, process_team, sort_teams, insert_team,
  refresh_teams, ListedTeam, with_sent, sync_team, sync_all, trigger_visible_auto_sync,
}
use skorekeeper.Teams.Loading.{
  rights_of, searched_teams, local_teams_loaded, load_teams_view, refresh_teams_data,
  fetch_next_teams,
}

module _ (compares_after : String → String → Bool) (to_lower_case : String → String)
    (user_id local_id : String) where
  abbrev online : Network
  online = record { is_online = true; is_server_unreachable = false }

  -- A board whose lists were just cleared, without a search.
  abbrev fresh_board : TeamBoard → TeamBoard
  fresh_board s = record s {
    query = "";
    remote_buffer = [];
    sync_statuses = [];
    display_limit = 50;
  }

  one_team :
      (t : StoredTeam)
      → has_team_read_access user_id local_id (some (rights_of t.team)) ≡ true
      → searched_teams compares_after online to_lower_case user_id local_id "" (t ∷ []) ≡ t ∷ []
  unfolding searched_teams
  one_team t readable = rw (readable, searched_teams) refl

  seems_local :
      (t : StoredTeam)
      → settled_status online (record { item = t; origin = local_team }) ≡ team_local_only
  unfolding settled_status
  seems_local t = ground arith

  sync_team_found :
      (id : String) (s : TeamBoard) (l : ListedTeam)
      → find (λ t. str_eq t.base.team.id id) s.teams ≡ some l
      → l.sync_status ≡ team_local_only
      → (sync_team compares_after online id s).1 ≡ some l.base.team
  unfolding sync_team
  sync_team_found id s l found status = rw (found, status, sync_team) refl

  abbrev only : StoredTeam → ListedTeam
  only t = record { base = t; is_local = true; sync_status = team_local_only }

  found_only :
      (t : StoredTeam) → find (λ l. str_eq l.base.team.id t.team.id) (only t ∷ []) ≡ some (only t)
  found_only t = ap (λ b. if b then some (only t) else none) (str_eq_refl t.team.id)

  sends_one :
      (t : StoredTeam) (s : TeamBoard)
      → (trigger_visible_auto_sync compares_after online true (
          refresh_teams compares_after online (record (fresh_board s) { local_buffer = t ∷ [] }))).1
        ≡ t.team ∷ []
  unfolding trigger_visible_auto_sync sync_all refresh_teams sort_teams insert_team process_team
      lookup insert
  sends_one t s = rw (seems_local t) (
      ap (λ o. with_sent compares_after online o [])
        (sync_team_found t.team.id
          (record (fresh_board s) { local_buffer = t ∷ []; teams = only t ∷ [] }) (only t)
          (found_only t) refl))

  cleared-sends :
      (t : StoredTeam) (s : TeamBoard)
      → has_team_read_access user_id local_id (some (rights_of t.team)) ≡ true
      → (local_teams_loaded compares_after online to_lower_case user_id local_id true
          (t ∷ [])
          (record s { query = ""; remote_buffer = []; sync_statuses = []; display_limit = 50 })).1
        ≡ t.team ∷ []
  unfolding local_teams_loaded
  cleared-sends t s readable =
      ap
        (λ stored.
          (trigger_visible_auto_sync compares_after online true (
            refresh_teams compares_after online
              (record (fresh_board s) { local_buffer = stored; is_loading = false }))).1)
        (one_team t readable)
      ∙ sends_one t (record s { is_loading = false })

  -- If a user is signed in and online and the one stored team is readable, then the load of the view
  -- without a search sends the team to the server before any page of the server has come, whether or
  -- not it was changed here.
  pub local_teams_loaded-sends :
      (t : StoredTeam) (s : TeamBoard)
      → has_team_read_access user_id local_id (some (rights_of t.team)) ≡ true
      → (local_teams_loaded compares_after online to_lower_case user_id local_id true
          (t ∷ [])
          (load_teams_view compares_after online true (record s { query = "" })).0).1
        ≡ t.team ∷ []
  unfolding load_teams_view refresh_teams_data fetch_next_teams refresh_teams
  local_teams_loaded-sends t s readable = elim (Bool-cases (s.is_fetching_remote || not true)) [
    | inl held ↦
        ap (λ b. sent (if b then cleared else fetching).0) held ∙ cleared-sends t cleared.0 readable
    | inr free ↦
        ap (λ b. sent (if b then cleared else fetching).0) free
        ∙ cleared-sends t fetching.0 readable
  ]
    where
      sent : TeamBoard → List TeamData
      sent b =
          (local_teams_loaded compares_after online to_lower_case user_id local_id true (t ∷ [])
            b).1

      start : TeamBoard
      start = record s {
        query = "";
        local_buffer = [];
        remote_buffer = [];
        sync_statuses = [];
        display_limit = 50;
        remote_offset = 0;
        remote_has_more = true;
        is_loading = true;
        teams = [];
      }

      cleared : TeamBoard × Option ℕ
      cleared = (start, none)

      fetching : TeamBoard × Option ℕ
      fetching =
          (refresh_teams compares_after online (record start { is_fetching_remote = true }), some 0)
