-- ===== src/Bases/Once.antt =====
-- The loop over the roster in `getRunnersOnBase` of frontend/game/runnerManager.js: each batter at
-- most once.
use skorekeeper.Common.{
  ℕ, ◌+◌, ◌≤◌, String, List, [], ◌∷◌, Option, none, some, ◌==◌, ◌≡◌, refl, inl, inr, arith,
  Bool-cases, All, All-append, All-weaken,
}
use skorekeeper.Game.{Team, Event, Slot, State, Ctx}
use skorekeeper.Bases.{BaseRunner, on_base, runner_at, at_base, slot_runner, runners_from}
use skorekeeper.Bases.Sorted.{IsDistinct, IsDistinct-append}

module _ (game : State) (team : Team) (ctx : Ctx) where
  at_base-IsDistinct :
      (idx : ℕ) (name key : String) (o : Option ℕ)
      → All (λ (q : BaseRunner). q.idx ≡ idx) (at_base idx name key o)
        × IsDistinct (at_base idx name key o)
  at_base-IsDistinct idx name key none = (tt, tt)
  at_base-IsDistinct idx name key (some base) = ((refl, tt), (tt, tt))

  runner_at-IsDistinct :
      (idx : ℕ) (name : String) (cell : Option (String × Event))
      → All (λ (q : BaseRunner). q.idx ≡ idx) (runner_at idx name cell)
        × IsDistinct (runner_at idx name cell)
  runner_at-IsDistinct idx name none = (tt, tt)
  runner_at-IsDistinct idx name (some (key, ev)) =
      at_base-IsDistinct idx name key (on_base ev.paths)

  slot_runner-IsDistinct :
      (idx : ℕ) (slot : Slot)
      → All (λ (q : BaseRunner). q.idx ≡ idx) (slot_runner game team ctx idx slot)
        × IsDistinct (slot_runner game team ctx idx slot)
  unfolding slot_runner
  slot_runner-IsDistinct idx slot = elim (Bool-cases (idx == ctx.b)) [
    | inl same ↦ rw (same, slot_runner) (tt, tt)
    | inr other ↦ rw (other, slot_runner) (runner_at-IsDistinct idx slot.current.name _)
  ]

  pub runners_from-IsDistinct :
      (n : ℕ) (roster : List Slot)
      → All (λ (q : BaseRunner). n ≤ q.idx) (runners_from game team ctx n roster)
        × IsDistinct (runners_from game team ctx n roster)
  unfolding runners_from
  runners_from-IsDistinct n [] = (tt, tt)
  runners_from-IsDistinct n (slot ∷ roster) =
      let (at_slot, distinct) = slot_runner-IsDistinct n slot in
      let (later, rest) = runners_from-IsDistinct (n + 1) roster in
      (
        All-append (λ (q : BaseRunner). n ≤ q.idx) (slot_runner game team ctx n slot)
            (runners_from game team ctx (n + 1) roster)
            (All-weaken (λ q e. omega arith) (slot_runner game team ctx n slot) at_slot)
            (All-weaken (λ q le. omega arith) (runners_from game team ctx (n + 1) roster) later),
        IsDistinct-append (slot_runner game team ctx n slot)
            (runners_from game team ctx (n + 1) roster)
            (All-weaken
              (λ x e.
                All-weaken (λ q le. ground arith) (runners_from game team ctx (n + 1) roster) later)
              (slot_runner game team ctx n slot) at_slot)
            distinct rest,
      )
