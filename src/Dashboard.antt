-- ===== src/Dashboard.antt =====
-- `DashboardController` of frontend/controllers/DashboardController.js: the list of games. Here are the
-- games of the two buffers, `mergeAndRender` and what it shows; Matching has the search in the local
-- games, Loading the loads, fetches and deletions.
pub mod Matching
pub mod Loading
pub mod Merged
pub mod Sources
pub mod Sorted
pub mod Races
use skorekeeper.Common.{
  ℕ, zero, suc, String, Bool, true, false, ◌&&◌, ◌||◌, not, List, [], ◌∷◌, map, Option, none, some,
  Dict, lookup, insert, get_or, ltb, if◌then◌else◌,
}

-- What the dashboard reads of a game, stored or listed by the server.
pub record GameSummary : Type 0 where
  pub id : String
  pub date : String
  pub event : String
  pub location : String
  pub away : String
  pub home : String
  pub revision : String
  pub is_dirty : Bool

-- `_source`, with `_localGame` where there are both.
pub data Origin : Type 0 where
  from_local from_remote : Origin
  from_both : GameSummary → Origin

pub record Entry : Type 0 where
  pub item : GameSummary
  pub origin : Origin

pub data SyncStatus : Type 0 where
  synced unsynced remote_only local_only : SyncStatus

-- A game of the list on show.
pub record ListedGame : Type 0 where
  pub base : GameSummary
  pub is_local : Bool
  pub local_revision : String
  pub remote_revision : String
  pub sync_status : SyncStatus

-- `navigator.onLine` and `isServerUnreachable`.
pub record Network : Type 0 where
  pub is_online : Bool
  pub is_server_unreachable : Bool

add_local : List GameSummary → Dict Entry → Dict Entry
add_local [] merged = merged
add_local (g ∷ games) merged =
    add_local games (insert g.id (record { item = g; origin = from_local }) merged)

abbrev pub merge_remote : GameSummary → Option Entry → Entry
merge_remote g none = record { item = g; origin = from_remote }
merge_remote g (some existing) = record { item = g; origin = from_both existing.item }

add_remote : List GameSummary → Dict Entry → Dict Entry
add_remote [] merged = merged
add_remote (g ∷ games) merged =
    add_remote games (insert g.id (merge_remote g (lookup g.id merged)) merged)

-- `merged`: the remote games over the local ones.
unfoldable pub merge_games : List GameSummary → List GameSummary → Dict Entry
unfolding add_local add_remote
merge_games local_games remote_games = add_remote remote_games (add_local local_games [])

abbrev pub local_item : Entry → Option GameSummary
local_item e = elim e.origin [
  | from_local ↦ some e.item
  | from_remote ↦ none
  | from_both existing ↦ some existing
]

abbrev pub remote_item : Entry → Option GameSummary
remote_item e = elim e.origin [
  | from_local ↦ none
  | from_remote ↦ some e.item
  | from_both existing ↦ some e.item
]

-- `status`
unfoldable pub status_of : Network → Entry → SyncStatus
status_of net e = elim e.origin [
  | from_remote ↦ remote_only
  | from_local ↦
      if e.item.is_dirty
      then local_only
      else if not net.is_online || net.is_server_unreachable
      then synced
      else local_only
  | from_both existing ↦ if existing.is_dirty then unsynced else synced
]

abbrev prefers_local : SyncStatus → Bool
prefers_local unsynced = true
prefers_local local_only = true
prefers_local _ = false

abbrev has_item : Option GameSummary → Bool
has_item none = false
has_item (some g) = true

-- `base`: `item` stands for an item that is there in any case.
unfoldable pub base_of : SyncStatus → Entry → GameSummary
base_of status e =
    if prefers_local status
    then get_or (local_item e) e.item
    else get_or (remote_item e) (get_or (local_item e) e.item)

abbrev revision_in : Dict String → Option GameSummary → String
revision_in revisions none = ""
revision_in revisions (some g) = get_or (lookup g.id revisions) ""

abbrev remote_revision_of : Option GameSummary → String
remote_revision_of none = ""
remote_revision_of (some g) = g.revision

unfoldable pub process : Network → Dict String → Entry → ListedGame
unfolding status_of base_of
process net revisions e = record {
  base = base_of (status_of net e) e;
  is_local = has_item (local_item e);
  local_revision = revision_in revisions (local_item e);
  remote_revision = remote_revision_of (remote_item e);
  sync_status = status_of net e;
}

-- `array.slice(0, n)`
abbrev pub slice_to {ℓ} : {A : Type ℓ} → ℕ → List A → List A
slice_to zero xs = []
slice_to (suc n) [] = []
slice_to (suc n) (x ∷ xs) = x ∷ slice_to n xs

-- `new Date(date)` as a number is a parameter; none is NaN, and a difference with NaN counts as 0.
abbrev pub is_later : Option ℕ → Option ℕ → Bool
is_later (some a) (some b) = ltb b a
is_later _ _ = false

module _ (time_of : String → Option ℕ) where
  -- The comparator is positive.
  unfoldable pub goes_after : ListedGame → ListedGame → Bool
  goes_after a b = is_later (time_of b.base.date) (time_of a.base.date)

  unfoldable pub insert_game : ListedGame → List ListedGame → List ListedGame
  insert_game g [] = g ∷ []
  insert_game g (h ∷ games) =
      let rest = insert_game g games in if goes_after g h then h ∷ rest else g ∷ h ∷ games

  -- The stable sort.
  unfoldable pub sort_games : List ListedGame → List ListedGame
  unfolding insert_game
  sort_games [] = []
  sort_games (g ∷ games) = insert_game g (sort_games games)

  unfoldable pub merge_and_render :
      Network → Dict String → List GameSummary → List GameSummary → ℕ → List ListedGame
  unfolding sort_games merge_games process
  merge_and_render net revisions local_games remote_games display_limit =
      slice_to display_limit
        (sort_games (map (λ e. process net revisions e.1) (merge_games local_games remote_games)))
