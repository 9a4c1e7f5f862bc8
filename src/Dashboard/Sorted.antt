-- ===== src/Dashboard/Sorted.antt =====
-- The order and the length of the list of games.
use mathlib.Core.List.{Perm}
use mathlib.Core.List.Perm
use skorekeeper.Common.{
  ℕ, String, true, false, List, [], ◌∷◌, Option, none, some, ◌≡◌, refl, arith, Bool-cases, inl, inr,
}
use skorekeeper.Dashboard.{ListedGame, is_later, goes_after, insert_game, sort_games}

module _ (time_of : String → Option ℕ) where
  -- No game stands before one that the comparator puts ahead of it.
  abbrev pub IsOrdered : List ListedGame → Type 0
  IsOrdered [] = Unit
  IsOrdered (g ∷ []) = Unit
  IsOrdered (g ∷ h ∷ games) = (goes_after time_of g h ≡ false) × IsOrdered (h ∷ games)

  goes_after-asym :
      (g h : ListedGame) → goes_after time_of g h ≡ true → goes_after time_of h g ≡ false
  unfolding goes_after
  goes_after-asym g h e = by_time (time_of g.base.date) (time_of h.base.date) e
    where
      by_time : (s t : Option ℕ) → is_later t s ≡ true → is_later s t ≡ false
      by_time none none e = refl
      by_time none (some t) e = refl
      by_time (some s) none e = refl
      by_time (some s) (some t) e = ground arith

  IsOrdered-insert_game :
      (g : ListedGame) (games : List ListedGame)
      → IsOrdered games
      → IsOrdered (insert_game time_of g games)
  unfolding insert_game
  IsOrdered-insert_game g [] o = tt
  IsOrdered-insert_game g (h ∷ []) o = elim (Bool-cases (goes_after time_of g h)) [
    | inl after ↦ rw after (goes_after-asym g h after, tt)
    | inr before ↦ rw before (before, tt)
  ]
  IsOrdered-insert_game g (h ∷ i ∷ games) (p, o) = elim (Bool-cases (goes_after time_of g h)) [
    | inl after ↦ elim (Bool-cases (goes_after time_of g i)) [
      | inl later ↦
          let rest : IsOrdered (insert_game time_of g (i ∷ games)) =
            IsOrdered-insert_game g (i ∷ games) o in
          rw (after, later) (p, rw later at rest)
      | inr before ↦ rw (after, before) (goes_after-asym g h after, (before, o))
    ]
    | inr before ↦ rw before (before, (p, o))
  ]

  IsOrdered-sort_games : (games : List ListedGame) → IsOrdered (sort_games time_of games)
  unfolding sort_games
  IsOrdered-sort_games [] = tt
  IsOrdered-sort_games (g ∷ games) = IsOrdered-insert_game g _ (IsOrdered-sort_games games)

  Perm-insert_game :
      (g : ListedGame) (games : List ListedGame) → Perm (insert_game time_of g games) (g ∷ games)
  unfolding insert_game
  Perm-insert_game g [] = Perm.refl (g ∷ [])
  Perm-insert_game g (h ∷ games) = elim (Bool-cases (goes_after time_of g h)) [
    | inl after ↦
        rw after (Perm.trans (Perm.cons h (Perm-insert_game g games)) (Perm.swap g h games))
    | inr before ↦ rw before (Perm.refl (g ∷ h ∷ games))
  ]

  Perm-sort_games : (games : List ListedGame) → Perm (sort_games time_of games) games
  unfolding sort_games
  Perm-sort_games [] = Perm.refl []
  Perm-sort_games (g ∷ games) =
      Perm.trans (Perm-insert_game g (sort_games time_of games))
        (Perm.cons g (Perm-sort_games games))

  -- The sorted list holds the same games, and no game stands before one with a later date.
  pub sort_games_lem :
      (games : List ListedGame)
      → Perm (sort_games time_of games) games × IsOrdered (sort_games time_of games)
  sort_games_lem games = (Perm-sort_games games, IsOrdered-sort_games games)
