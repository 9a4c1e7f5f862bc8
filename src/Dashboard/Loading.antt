-- ===== src/Dashboard/Loading.antt =====
-- The loads of `DashboardController`: what is asked for, and what an answer does. Each answer is a step
-- of its own, since the user and the other loads go on before it comes.
use skorekeeper.Common.{
  ℕ, ◌+◌, String, Bool, true, false, ◌&&◌, ◌||◌, not, List, [], ◌∷◌, ◌++◌, Option, none, some, Dict,
  filter, elem, length, str_eq, ltb, leb, if◌then◌else◌,
}
use skorekeeper.Search.{parse_query}
use skorekeeper.Dashboard.{GameSummary, ListedGame, Network, merge_and_render}
use skorekeeper.Dashboard.Matching.{matches_game, asks_for}

-- The fields of the controller with `app.state.games`; `localMap`, which nothing reads, is left out.
pub record Board : Type 0 where
  pub local_buffer : List GameSummary
  pub remote_buffer : List GameSummary
  pub local_revisions : Dict String
  pub is_loading : Bool
  pub is_fetching_remote : Bool
  pub query : String
  pub display_limit : ℕ
  pub remote_offset : ℕ
  pub remote_has_more : Bool
  pub games : List ListedGame

abbrev pub new_board : Board
new_board = record {
  local_buffer = [];
  remote_buffer = [];
  local_revisions = [];
  is_loading = false;
  is_fetching_remote = false;
  query = "";
  display_limit = 50;
  remote_offset = 0;
  remote_has_more = true;
  games = [];
}

-- The arguments of `fetchGameList` that vary.
pub record ListRequest : Type 0 where
  pub offset : ℕ
  pub text : String

-- The answer of `fetchGameList`: a page, an answer without data, or an exception.
pub data Answer : Type 0 where
  page : List GameSummary → Answer
  no_data : Answer
  failed : Answer

abbrev pub page_size : ℕ
page_size = 50

abbrev pub without : List String → List GameSummary → List GameSummary
without ids games = filter (λ g. not (elem g.id ids)) games

abbrev pub reset_buffers : Board → Board
reset_buffers s = record s {
  local_buffer = [];
  remote_buffer = [];
  local_revisions = [];
  remote_offset = 0;
  remote_has_more = true;
}

abbrev pub reset_view : Board → Board
reset_view s = record (reset_buffers s) { display_limit = 50; games = [] }

module _ (to_lower_case : String → String) (time_of : String → Option ℕ) (net : Network) where
  -- `mergeAndRender` on the fields.
  unfoldable pub refresh_list : Board → Board
  unfolding merge_and_render
  refresh_list s = record s {
    games =
        merge_and_render time_of net s.local_revisions s.local_buffer s.remote_buffer
          s.display_limit;
  }

  -- `fetchNextRemoteBatch` up to its request.
  unfoldable pub fetch_next_remote_batch : Board → Board × Option ListRequest
  unfolding refresh_list
  fetch_next_remote_batch s = if s.is_fetching_remote || not s.remote_has_more then (s, none) else (
    refresh_list (record s { is_fetching_remote = true }),
    some (record { offset = s.remote_offset; text = s.query }),
  )

  abbrev take_page : List GameSummary → Board → Board
  take_page rows s = record s {
    remote_buffer = s.remote_buffer ++ rows;
    remote_offset = s.remote_offset + length rows;
    remote_has_more = if ltb (length rows) page_size then false else s.remote_has_more;
  }

  -- The rest of `fetchNextRemoteBatch`.
  unfoldable pub batch_answered : Answer → Board → Board
  unfolding refresh_list
  batch_answered answer s = elim answer [
    | page rows ↦
        refresh_list (record (refresh_list (take_page rows s)) { is_fetching_remote = false })
    | no_data ↦ refresh_list (record (refresh_list (record s { remote_has_more = false })) {
      is_fetching_remote = false;
    })
    | failed ↦ refresh_list (record s { remote_has_more = false; is_fetching_remote = false })
  ]

  -- The stored games that the query asks for.
  unfoldable pub searched_games : String → List GameSummary → List GameSummary
  unfolding matches_game asks_for parse_query
  searched_games text local_games =
      let parsed = parse_query to_lower_case text in
      if asks_for "remote" parsed
      then []
      else if str_eq text ""
      then local_games
      else filter (λ g. matches_game to_lower_case g parsed) local_games

  -- The end of `loadAllLocalGames`, with what the database has.
  unfoldable pub local_games_loaded : Dict String → List GameSummary → Board → Board
  unfolding refresh_list searched_games
  local_games_loaded revisions local_games s = refresh_list (record s {
    local_revisions = revisions;
    local_buffer = searched_games s.query local_games;
    is_loading = false;
  })

  -- The start of `loadAllLocalGames`, and the fetch of a user who is signed in.
  unfoldable pub start_streams : Bool → Board → Board × Option ListRequest
  unfolding fetch_next_remote_batch asks_for parse_query
  start_streams has_user s =
      let loading : Board = record s { is_loading = true } in
      if has_user && not (asks_for "local" (parse_query to_lower_case s.query))
      then fetch_next_remote_batch loading
      else (loading, none)

  -- `loadDashboard` and `refreshDashboardData` up to their first answers.
  unfoldable pub load_dashboard : Bool → Board → Board × Option ListRequest
  unfolding start_streams
  load_dashboard has_user s = start_streams has_user (reset_view s)

  unfoldable pub refresh_dashboard_data : Bool → Board → Board × Option ListRequest
  unfolding start_streams
  refresh_dashboard_data has_user s = start_streams has_user (reset_buffers s)

  unfoldable pub search : Bool → String → Board → Board × Option ListRequest
  unfolding load_dashboard
  search has_user text s = load_dashboard has_user (record s { query = text })

  -- `handleScroll`, near the bottom or not; `displayLimit > totalLoaded - 20`.
  unfoldable pub handle_scroll : Bool → Board → Board × Option ListRequest
  unfolding fetch_next_remote_batch refresh_list
  handle_scroll near_bottom s =
      let more : Board = record s { display_limit = s.display_limit + 20 } in
      let total = length s.local_buffer + length s.remote_buffer in
      if not near_bottom
      then (s, none)
      else if s.remote_has_more && not s.is_fetching_remote && ltb total (more.display_limit + 20)
      then fetch_next_remote_batch more
      else (refresh_list more, none)

  -- The answer of `checkGameDeletions`, the stored games deleted.
  unfoldable pub deletions_answered : List String → Board → Board
  unfolding refresh_list
  deletions_answered [] s = s
  deletions_answered (id ∷ ids) s = refresh_list (record s {
    local_buffer = without (id ∷ ids) s.local_buffer;
    remote_buffer = without (id ∷ ids) s.remote_buffer;
  })

  -- The text under the list.
  unfoldable pub sentinel_text : Board → String
  sentinel_text s =
      let showing_all =
        leb (length s.local_buffer + length s.remote_buffer) (length s.games)
        && not s.remote_has_more in
      if s.is_loading || s.is_fetching_remote
      then "Loading more games..."
      else if not showing_all
      then "Scroll for more"
      else if ltb 0 (length s.games)
      then "All games loaded."
      else ""
