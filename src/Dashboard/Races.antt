-- ===== src/Dashboard/Races.antt =====
-- The loads of the dashboard in any order.
use skorekeeper.Common.{
  ℕ, zero, suc, ◌+◌, ◌≤◌, String, Bool, true, false, ◌&&◌, ◌||◌, not, List, [], ◌∷◌, ◌++◌, Option,
  none, Dict, filter, length, length-append, ltb, ◌≡◌, refl, ap, arith, Bool-cases, inl, inr,
}
use skorekeeper.Search.{parse_query}
use skorekeeper.Dashboard.{GameSummary, Network, slice_to, merge_and_render}
use skorekeeper.Dashboard.Matching.{asks_for}
use skorekeeper.Dashboard.Loading.{
  Board, new_board, Answer, page, no_data, failed, refresh_list, fetch_next_remote_batch,
  batch_answered, local_games_loaded, searched_games, start_streams, load_dashboard,
  refresh_dashboard_data, search, handle_scroll, without, reset_buffers, reset_view,
  deletions_answered,
}

-- What the user does and what comes in.
pub data Happening : Type 0 where
  load : Bool → Happening
  pull : Bool → Happening
  search_for : Bool → String → Happening
  scroll : Bool → Happening
  local_loaded : Dict String → List GameSummary → Happening
  batch_came : Answer → Happening
  deletions : List String → Happening

length-slice_to {ℓ} : {A : Type ℓ} (n : ℕ) (xs : List A) → length (slice_to n xs) ≤ n
length-slice_to zero xs = omega arith
length-slice_to (suc n) [] = omega arith
length-slice_to (suc n) (x ∷ xs) = omega (arith, length-slice_to n xs)

length-filter {ℓ} : {A : Type ℓ} (p : A → Bool) (xs : List A) → length (filter p xs) ≤ length xs
length-filter p [] = omega arith
length-filter p (x ∷ xs) = ground (arith, length-filter p xs)

module _ (to_lower_case : String → String) (time_of : String → Option ℕ) (net : Network) where
  abbrev pub react : Happening → Board → Board
  react (load has_user) s = (load_dashboard to_lower_case time_of net has_user s).0
  react (pull has_user) s = (refresh_dashboard_data to_lower_case time_of net has_user s).0
  react (search_for has_user text) s = (search to_lower_case time_of net has_user text s).0
  react (scroll near) s = (handle_scroll to_lower_case time_of net near s).0
  react (local_loaded revisions games) s =
      local_games_loaded to_lower_case time_of net revisions games s
  react (batch_came answer) s = batch_answered to_lower_case time_of net answer s
  react (deletions ids) s = deletions_answered to_lower_case time_of net ids s

  abbrev pub react_all : List Happening → Board → Board
  react_all [] s = s
  react_all (e ∷ es) s = react_all es (react e s)

  -- At most as many games are shown as the limit says, and the offset is past the games fetched.
  abbrev pub IsPaged : Board → Type 0
  IsPaged s = (length s.games ≤ s.display_limit) × (length s.remote_buffer ≤ s.remote_offset)

  length-merge_and_render :
      (revisions : Dict String) (local_games remote_games : List GameSummary) (limit : ℕ)
      → length (merge_and_render time_of net revisions local_games remote_games limit) ≤ limit
  unfolding merge_and_render
  length-merge_and_render revisions local_games remote_games limit = length-slice_to limit _

  IsPaged-fetch :
      (s : Board) → IsPaged s → IsPaged (fetch_next_remote_batch to_lower_case time_of net s).0
  unfolding fetch_next_remote_batch refresh_list
  IsPaged-fetch s p = elim (Bool-cases (s.is_fetching_remote || not s.remote_has_more)) [
    | inl held ↦ rw held p
    | inr free ↦ rw free (
      length-merge_and_render s.local_revisions s.local_buffer s.remote_buffer s.display_limit,
      p.1,
    )
  ]

  IsPaged-start_streams :
      (has_user : Bool) (s : Board)
      → IsPaged s
      → IsPaged (start_streams to_lower_case time_of net has_user s).0
  unfolding start_streams
  IsPaged-start_streams has_user s p =
      elim (Bool-cases (has_user && not (asks_for "local" (parse_query to_lower_case s.query)))) [
        | inl fetches ↦ rw fetches (IsPaged-fetch (record s { is_loading = true }) p)
        | inr stays ↦ rw stays p
      ]

  IsPaged-batch_answered :
      (answer : Answer) (s : Board)
      → IsPaged s
      → IsPaged (batch_answered to_lower_case time_of net answer s)
  unfolding batch_answered refresh_list
  IsPaged-batch_answered (page rows) s p = (
    length-merge_and_render s.local_revisions s.local_buffer (s.remote_buffer ++ rows)
        s.display_limit,
    (omega (arith, length-append s.remote_buffer rows, p.1)),
  )
  IsPaged-batch_answered no_data s p = (
    length-merge_and_render s.local_revisions s.local_buffer s.remote_buffer s.display_limit,
    p.1,
  )
  IsPaged-batch_answered failed s p = (
    length-merge_and_render s.local_revisions s.local_buffer s.remote_buffer s.display_limit,
    p.1,
  )

  IsPaged-handle_scroll :
      (near : Bool) (s : Board)
      → IsPaged s
      → IsPaged (handle_scroll to_lower_case time_of net near s).0
  unfolding handle_scroll refresh_list
  IsPaged-handle_scroll false s p = p
  IsPaged-handle_scroll true s p =
      let more : Board = record s { display_limit = s.display_limit + 20 } in
      let q : IsPaged more = (omega (arith, p.0), p.1) in
      elim (Bool-cases (
        s.remote_has_more
        && not s.is_fetching_remote
        && ltb (length s.local_buffer + length s.remote_buffer) (s.display_limit + 20 + 20))) [
          | inl fetches ↦ rw fetches (IsPaged-fetch more q)
          | inr stays ↦ rw stays (
            length-merge_and_render s.local_revisions s.local_buffer s.remote_buffer
                more.display_limit,
            q.1,
          )
        ]

  IsPaged-deletions_answered :
      (ids : List String) (s : Board)
      → IsPaged s
      → IsPaged (deletions_answered to_lower_case time_of net ids s)
  unfolding deletions_answered refresh_list
  IsPaged-deletions_answered [] s p = p
  IsPaged-deletions_answered (id ∷ ids) s p = (
    length-merge_and_render s.local_revisions (without (id ∷ ids) s.local_buffer)
        (without (id ∷ ids) s.remote_buffer) s.display_limit,
    (omega (arith, length-filter _ s.remote_buffer, p.1)),
  )

  IsPaged-react : (e : Happening) (s : Board) → IsPaged s → IsPaged (react e s)
  unfolding load_dashboard refresh_dashboard_data search local_games_loaded refresh_list
  IsPaged-react (load has_user) s p =
      IsPaged-start_streams has_user (reset_view s) (omega arith, omega arith)
  IsPaged-react (pull has_user) s p =
      IsPaged-start_streams has_user (reset_buffers s) (p.0, omega arith)
  IsPaged-react (search_for has_user text) s p =
      IsPaged-start_streams has_user (reset_view (record s { query = text }))
        (omega arith, omega arith)
  IsPaged-react (scroll near) s p = IsPaged-handle_scroll near s p
  IsPaged-react (local_loaded revisions games) s p = (
    length-merge_and_render revisions (searched_games to_lower_case time_of net s.query games)
        s.remote_buffer s.display_limit,
    p.1,
  )
  IsPaged-react (batch_came answer) s p = IsPaged-batch_answered answer s p
  IsPaged-react (deletions ids) s p = IsPaged-deletions_answered ids s p

  -- Whatever happens, at most as many games are shown as the limit says, and the offset of the next
  -- page is not before the end of the games fetched.
  pub react_all-IsPaged : (es : List Happening) → IsPaged (react_all es new_board)
  react_all-IsPaged es = run es new_board (omega arith, omega arith)
    where
      run : (es : List Happening) (s : Board) → IsPaged s → IsPaged (react_all es s)
      run [] s p = p
      run (e ∷ es) s p = run es (react e s) (IsPaged-react e s p)

  fetch_held :
      (s : Board)
      → s.is_fetching_remote ≡ true
      → fetch_next_remote_batch to_lower_case time_of net s ≡ (s, none)
  unfolding fetch_next_remote_batch
  fetch_held s h = elim (Bool-cases (s.is_fetching_remote || not s.remote_has_more)) [
    | inl held ↦ rw held refl
    | inr free ↦ absurd (ground arith)
  ]

  start_streams_held :
      (has_user : Bool) (s : Board)
      → s.is_fetching_remote ≡ true
      → start_streams to_lower_case time_of net has_user s ≡ (record s { is_loading = true }, none)
  unfolding start_streams
  start_streams_held has_user s h =
      elim (Bool-cases (has_user && not (asks_for "local" (parse_query to_lower_case s.query)))) [
        | inl fetches ↦ rw fetches (fetch_held (record s { is_loading = true }) h)
        | inr stays ↦ rw stays refl
      ]

  -- A search while a page is awaited sends no request; the page, which answers the query before it,
  -- then makes up the games listed for the new one.
  pub search-stale :
      (s : Board) (has_user : Bool) (text : String) (rows : List GameSummary)
      → s.is_fetching_remote ≡ true
      → ((search to_lower_case time_of net has_user text s).1 ≡ none)
        × ((react (batch_came (page rows)) (react (search_for has_user text) s)).query ≡ text)
        × ((react (batch_came (page rows)) (react (search_for has_user text) s)).remote_buffer
            ≡ rows)
  unfolding search load_dashboard batch_answered refresh_list
  search-stale s has_user text rows h =
      let held = start_streams_held has_user (reset_view (record s { query = text })) h in
      (
        ap (λ o. o.1) held,
        ap (λ o. (batch_answered to_lower_case time_of net (page rows) o.0).query) held,
        ap (λ o. (batch_answered to_lower_case time_of net (page rows) o.0).remote_buffer) held,
      )
