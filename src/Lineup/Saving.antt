-- ===== src/Lineup/Saving.antt =====
-- A lineup that is opened and saved (frontend/game/lineupManager.js).
use skorekeeper.Common.{
  ℕ, zero, suc, ◌-◌, String, Bool, true, false, List, [], ◌∷◌, ◌++◌, map, filter, find, length,
  Option, none, some, str_eq, if◌then◌else◌, ◌≡◌, refl, sym, ap, ◌∙◌,
}
use skorekeeper.Common.Text.{is_blank}
use skorekeeper.Game.{State, Team, Player, Slot, side}
use skorekeeper.Lineup.{is_named, saved_slots, saved_roster, padding, get_initial_lineup_state}

-- Each slot is numbered by its place, has a named starter by whose id it is found, and a player on the field
-- who is the starter if he has the starter's id.
abbrev pub AreSettled : List Slot → ℕ → List Slot → Type 0
AreSettled all i [] = Unit
AreSettled all i (x ∷ xs) =
    (x.slot ≡ i)
    × (is_named x.starter ≡ true)
    × (find (λ s. str_eq s.starter.id x.starter.id) all ≡ some x)
    × (str_eq x.current.id x.starter.id ≡ true → x.starter ≡ x.current)
    × AreSettled all (suc i) xs

filter-padding : (new_id : ℕ → String) (i n : ℕ) → filter is_named (padding new_id i n) ≡ []
unfolding padding is_blank
filter-padding new_id i zero = refl
filter-padding new_id i (suc n) = filter-padding new_id (suc i) n

filter-starters :
    (all xs : List Slot) (i : ℕ) (rest : List Player)
    → AreSettled all i xs
    → filter is_named rest ≡ []
    → filter is_named (map (λ s. s.starter) xs ++ rest) ≡ map (λ s. s.starter) xs
filter-starters all [] i rest h e = e
filter-starters all (x ∷ xs) i rest (number, named, found, same, h) e =
    let kept = filter is_named (map (λ s. s.starter) xs ++ rest) in
    ap (λ b. if b then x.starter ∷ kept else kept) named
    ∙ ap (x.starter ∷◌) (filter-starters all xs (suc i) rest h e)

kept_player :
    (x : Slot) (b : Bool)
    → (b ≡ true → x.starter ≡ x.current)
    → (if b then x.starter else x.current) ≡ x.current
kept_player x true same = same refl
kept_player x false same = refl

saved_slots-starters :
    (all xs : List Slot) (i : ℕ)
    → AreSettled all i xs
    → saved_slots all i (map (λ s. s.starter) xs) ≡ xs
unfolding saved_slots
saved_slots-starters all [] i h = refl
saved_slots-starters all (x ∷ xs) i (number, named, found, same, h) =
    let p = x.starter in
    let same_slot =
      ap
        (λ o. elim o [
          | none ↦ record { slot = i; starter = p; current = p; history = [] }
          | some existing ↦ record existing {
            slot = i;
            starter = p;
            current =
                if str_eq existing.current.id existing.starter.id then p else existing.current;
          }
        ])
        found
      ∙ ap (λ c. record x { slot = i; current = c })
          (kept_player x (str_eq x.current.id x.starter.id) same)
      ∙ ap (λ n. record x { slot = n }) (sym number) in
    ap (λ y. y ∷ saved_slots all (suc i) (map (λ s. s.starter) xs)) same_slot
    ∙ ap (x ∷◌) (saved_slots-starters all xs (suc i) h)

-- If the slots of a roster are settled, a lineup that is opened and saved unchanged leaves the roster as
-- it was, whoever else is in the team.
pub saved_roster-get_initial_lineup_state :
    (new_id : ℕ → String) (team_roster : Option (List Player)) (game : State) (team : Team)
    → AreSettled (side team game.roster) 0 (side team game.roster)
    → saved_roster (get_initial_lineup_state new_id team_roster game team) (side team game.roster)
      ≡ side team game.roster
unfolding saved_roster get_initial_lineup_state
saved_roster-get_initial_lineup_state new_id team_roster game team h =
    let roster = side team game.roster in
    ap (saved_slots roster 0) (
      filter-starters roster roster 0 (padding new_id (length roster) (9 - length roster)) h
        (filter-padding new_id (length roster) (9 - length roster)))
    ∙ saved_slots-starters roster roster 0 h
