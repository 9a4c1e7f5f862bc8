-- ===== src/Examples/Boards.antt =====
-- A list of two stored games and two of the server.
use skorekeeper.Common.{
  AreUnique, String, Bool, true, false, ◌||◌, List, [], ◌∷◌, none, elem, ◌≡◌, refl,
}
use skorekeeper.Common.Text.{parse_int}
use skorekeeper.Dashboard.{GameSummary, Network, merge_games}
use skorekeeper.Dashboard.Merged.{ids, listed_ids, merge_games-ids}
use skorekeeper.Dashboard.Loading.{Board, new_board, page, failed, search}
use skorekeeper.Dashboard.Races.{
  Happening, load, search_for, scroll, local_loaded, batch_came, deletions, react, react_all,
  IsPaged, react_all-IsPaged, search-stale,
}

abbrev stored : String → Bool → GameSummary
stored id dirty = record {
  id = id;
  date = "2025";
  event = "Cup";
  location = "";
  away = "Owls";
  home = "Bats";
  revision = "r1";
  is_dirty = dirty;
}

abbrev here : List GameSummary
here = stored "g1" true ∷ stored "g2" false ∷ []

abbrev there : List GameSummary
there = stored "g2" false ∷ stored "g3" false ∷ []

abbrev online : Network
online = record { is_online = true; is_server_unreachable = false }

abbrev same_text : String → String
same_text s = s

merge_games-ids_example :
    AreUnique (listed_ids online [] (merge_games here there))
    × ((id : String)
        → elem id (listed_ids online [] (merge_games here there))
          ≡ (elem id (ids here) || elem id (ids there)))
merge_games-ids_example = merge_games-ids online [] here there

there-AreUnique : AreUnique (ids there)
there-AreUnique = (refl, (refl, tt))

abbrev happenings : List Happening
happenings =
    load true
    ∷ local_loaded [] here
    ∷ batch_came (page there)
    ∷ scroll true
    ∷ batch_came failed
    ∷ deletions ("g2" ∷ [])
    ∷ []

react_all-IsPaged_example :
    IsPaged same_text parse_int online (react_all same_text parse_int online happenings new_board)
react_all-IsPaged_example = react_all-IsPaged same_text parse_int online happenings

abbrev waiting : Board
waiting = record new_board { query = "owls"; is_fetching_remote = true }

search-stale_example :
    ((search same_text parse_int online true "bats" waiting).1 ≡ none)
    × ((react same_text parse_int online
          (batch_came (page there))
          (react same_text parse_int online (search_for true "bats") waiting)).query
        ≡ "bats")
    × ((react same_text parse_int online
          (batch_came (page there))
          (react same_text parse_int online (search_for true "bats") waiting)).remote_buffer
        ≡ there)
search-stale_example = search-stale same_text parse_int online waiting true "bats" there refl
