-- ===== src/Lineup.antt =====
-- The lineup editor: `LineupManager` of frontend/game/lineupManager.js, less its rows on the page.
pub mod Moves
pub mod Saving
use skorekeeper.Common.{
  ℕ, zero, suc, ◌-◌, ◌+◌, String, Bool, true, false, ◌&&◌, ◌||◌, not, List, [], ◌∷◌, ◌++◌, map,
  filter, find, elem, length, Option, none, some, str_eq, if◌then◌else◌, or_text,
}
use skorekeeper.Common.Text.{is_blank}
use skorekeeper.Game.{State, Team, Player, Slot, side}

pub record LineupState : Type 0 where
  pub starters : List Player
  pub subs : List Player

pub data Group : Type 0 where
  starter sub : Group

abbrev pub group : Group → LineupState → List Player
group starter s = s.starters
group sub s = s.subs

abbrev pub put_group : Group → List Player → LineupState → LineupState
put_group starter ps s = record s { starters = ps }
put_group sub ps s = record s { subs = ps }

module _ {ℓ} {A : Type ℓ} where
  -- `splice(i, 1)`: the item taken out and what is left.
  unfoldable pub take_out : ℕ → List A → Option (A × List A)
  take_out i [] = none
  take_out zero (x ∷ xs) = some (x, xs)
  take_out (suc i) (x ∷ xs) = elim (take_out i xs) [ none ↦ none | some (y, ys) ↦ some (y, x ∷ ys) ]

  -- `splice(i, 0, item)`: at the end where the index is past it.
  unfoldable pub put_in : ℕ → A → List A → List A
  put_in i y [] = y ∷ []
  put_in zero y (x ∷ xs) = y ∷ x ∷ xs
  put_in (suc i) y (x ∷ xs) = x ∷ put_in i y xs

abbrev pub land :
    Group → ℕ → Group → LineupState → Option (Player × List Player) → Option LineupState
land from_type to_idx to_type s none = none
land from_type to_idx to_type s (some (item, rest)) =
    let taken = put_group from_type rest s in
    some (put_group to_type (put_in to_idx item (group to_type taken)) taken)

-- None where there is no such player, and the source moves undefined.
unfoldable pub move_player : ℕ → Group → ℕ → Group → LineupState → Option LineupState
unfolding take_out put_in
move_player from_idx from_type to_idx to_type s =
    land from_type to_idx to_type s (take_out from_idx (group from_type s))

abbrev pub blank_player : String → Player
blank_player id = record { id = id; name = ""; number = ""; pos = "" }

unfoldable pub add_player_to_group : String → Group → LineupState → LineupState
add_player_to_group new_id type s = put_group type (group type s ++ blank_player new_id ∷ []) s

unfoldable pub remove_player_from_group : ℕ → Group → LineupState → LineupState
unfolding take_out
remove_player_from_group index type s = elim (take_out index (group type s)) [
  | none ↦ s
  | some (item, rest) ↦ put_group type rest s
]

abbrev pub is_named : Player → Bool
is_named p = not (is_blank p.name)

-- One starter of the roster that is saved, at its place.
abbrev pub saved_slot : List Slot → ℕ → Player → Slot
saved_slot roster i p = elim (find (λ s. str_eq s.starter.id p.id) roster) [
  | none ↦ record { slot = i; starter = p; current = p; history = [] }
  | some existing ↦ record existing {
    slot = i;
    starter = p;
    current = if str_eq existing.current.id existing.starter.id then p else existing.current;
  }
]

unfoldable pub saved_slots : List Slot → ℕ → List Player → List Slot
saved_slots roster i [] = []
saved_slots roster i (p ∷ ps) = saved_slot roster i p ∷ saved_slots roster (suc i) ps

-- The roster and the bench that `save` sends.
unfoldable pub saved_roster : LineupState → List Slot → List Slot
unfolding saved_slots
saved_roster s roster = saved_slots roster 0 (filter is_named s.starters)

unfoldable pub saved_subs : LineupState → List Player
saved_subs s = filter (λ p. is_named p || not (is_blank p.number)) s.subs

-- Rows for nine starters at least; `generateUUID` is a parameter.
unfoldable pub padding : (ℕ → String) → ℕ → ℕ → List Player
padding new_id i zero = []
padding new_id i (suc n) = blank_player (new_id i) ∷ padding new_id (suc i) n

abbrev pub starter_rows : (ℕ → String) → List Slot → List Player
starter_rows new_id roster =
    map (λ s. s.starter) roster ++ padding new_id (length roster) (9 - length roster)

unfoldable pub with_ids : (ℕ → String) → ℕ → List Player → List Player
with_ids new_id i [] = []
with_ids new_id i (p ∷ ps) = record p { id = or_text p.id (new_id i) } ∷ with_ids new_id (suc i) ps

abbrev pub sub_rows : (ℕ → String) → ℕ → List Player → List Player
sub_rows new_id i [] = blank_player (new_id i) ∷ []
sub_rows new_id i (p ∷ ps) = with_ids new_id i (p ∷ ps)

-- The players of the team who are in no slot and on no bench; none is a team that is not stored.
abbrev pub missing : List Slot → List Player → Option (List Player) → List Player
missing roster subs none = []
missing roster subs (some team_roster) =
    filter
      (λ p.
        str_eq p.id ""
        || not (elem p.id (map (λ s. s.starter.id) roster) || elem p.id (map (λ s. s.id) subs)))
      team_roster

unfoldable pub get_initial_lineup_state :
    (ℕ → String) → Option (List Player) → State → Team → LineupState
unfolding padding with_ids
get_initial_lineup_state new_id team_roster game team =
    let roster = side team game.roster in
    let subs = side team game.subs in
    record {
      starters = starter_rows new_id roster;
      subs = sub_rows new_id (length roster + 9) (subs ++ missing roster subs team_roster);
    }
