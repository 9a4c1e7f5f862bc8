-- ===== src/Bases/OnBase.antt =====
-- What `getRunnersOnBase` of frontend/game/runnerManager.js returns.
use mathlib.Core.List.{Memᴰ}
use mathlib.Core.List.Memᴰ.{head, append_left, append_right, append_cases, not-nil, eq_of_singleton}
use skorekeeper.Common.{
  ℕ, zero, suc, ◌+◌, String, List, [], ◌∷◌, ◌++◌, some, ◌==◌, get_elem?, ◌≡◌, refl, sym, ap, subst,
  ◌∙◌, ◌≢◌, ◌↔◌, inl, inr, arith, Bool-cases, Option-cases, some_inj,
}
use skorekeeper.Game.{Team, Event, Slot, State, Ctx, side, event_key}
use skorekeeper.Outs.{inning_col_ids}
use skorekeeper.Bases.{
  BaseRunner, prior_cell, on_base, runner_at, at_base, is_prior_batter, slot_runner, runners_from,
  get_runners_on_base,
}
use skorekeeper.Bases.Sorted.{
  IsDescending, IsDescending-sort_runners, Memᴰ-sort_runners, IsDistinct, IsDistinct-sort_runners,
}
use skorekeeper.Bases.Once.{runners_from-IsDistinct}
use skorekeeper.Bases.Prior.{StandsOn, on_base_iff}
use skorekeeper.Bases.Latest.{IsLatest, prior_cell-IsLatest, IsLatest-prior_cell}

module _ (game : State) (team : Team) (ctx : Ctx) where
  -- A batter of the slot other than the one at bat, whose latest cell that counts leaves him on the
  -- base: the runner has the slot's current player, and the cell's key.
  abbrev pub IsSlotRunner : ℕ → Slot → BaseRunner → Type 0
  IsSlotRunner idx slot r =
      (col_id : String) × (ev : Event) × (r.idx ≡ idx)
      × (idx ≢ ctx.b)
      × (r.name ≡ slot.current.name)
      × (r.key ≡ event_key team idx col_id)
      × IsLatest game.events team ctx idx (is_prior_batter game team ctx idx)
          (inning_col_ids ctx.i game.columns) col_id ev
      × StandsOn ev.paths r.base

  -- A runner of the roster from the index on.
  abbrev pub IsRunnerFrom : ℕ → List Slot → BaseRunner → Type 0
  IsRunnerFrom n roster r =
      (k : ℕ) × (slot : Slot) × (get_elem? roster k ≡ some slot) × IsSlotRunner (n + k) slot r

  at_base-IsSlotRunner :
      (idx : ℕ) (slot : Slot) (key : String) (ev : Event) (r : BaseRunner)
      → Memᴰ r (at_base idx slot.current.name key (on_base ev.paths))
        ↔ ((r.idx ≡ idx) × (r.name ≡ slot.current.name) × (r.key ≡ key) × StandsOn ev.paths r.base)
  at_base-IsSlotRunner idx slot key ev r = elim (Option-cases (on_base ev.paths)) [
    | inl off ↦ rw off (
      λ m. absurd (not-nil m),
      λ (_, _, _, on). let here = (on_base_iff ev.paths r.base).1 on in absurd cc,
    )
    | inr (base, on) ↦ rw on (
      λ m.
          let e = eq_of_singleton m in
          (
            ap (λ (x : BaseRunner). x.idx) e,
            ap (λ (x : BaseRunner). x.name) e,
            ap (λ (x : BaseRunner). x.key) e,
            (on_base_iff ev.paths r.base).0 (on ∙ ap (λ (x : BaseRunner). some x.base) (sym e)),
          ),
      λ (same_idx, same_name, same_key, stands).
          let same_base : base ≡ r.base =
            some_inj base r.base (sym on ∙ (on_base_iff ev.paths r.base).1 stands) in
          head (λ i. record {
            idx = same_idx i;
            name = same_name i;
            base = sym same_base i;
            key = same_key i;
          }),
    )
  ]

  runner_at-IsSlotRunner :
      (idx : ℕ) (slot : Slot) (r : BaseRunner)
      → idx ≢ ctx.b
      → Memᴰ r (
          runner_at idx slot.current.name (
            prior_cell game.events team ctx idx
              (is_prior_batter game team ctx idx)
              (inning_col_ids ctx.i game.columns)))
        ↔ IsSlotRunner idx slot r
  runner_at-IsSlotRunner idx slot r other =
      let before = is_prior_batter game team ctx idx in
      let cols = inning_col_ids ctx.i game.columns in
      elim (Option-cases (prior_cell game.events team ctx idx before cols)) [
        | inl nothing ↦ (
          λ m. absurd (not-nil (rw nothing at m)),
          λ (col_id, ev, _, _, _, _, latest, _).
              let found =
                IsLatest-prior_cell game.events team ctx idx before cols col_id ev latest in
              absurd cc,
        )
        | inr ((key, ev), found) ↦
            let (to, from) = at_base-IsSlotRunner idx slot key ev r in
            let (col_id, is_key, latest) =
              prior_cell-IsLatest game.events team ctx idx before cols key ev found in
            (
              λ m.
                  let (same, name, same_key, on) = to (rw found at m) in
                  (col_id, ev, same, other, name, same_key ∙ is_key, latest, on),
              λ (col, e, same, _, name, same_key, newest, on).
                  let there =
                    IsLatest-prior_cell game.events team ctx idx before cols col e newest in
                  let cell = some_inj (key, ev) (event_key team idx col, e) (sym found ∙ there) in
                  rw found (
                    from (
                      same,
                      name,
                      same_key ∙ ap (λ x. x.0) (sym cell),
                      subst (λ (x : Event). StandsOn x.paths r.base) (ap (λ x. x.1) (sym cell)) on,
                    )),
            )
      ]

  slot_runner-IsSlotRunner :
      (idx : ℕ) (slot : Slot) (r : BaseRunner)
      → Memᴰ r (slot_runner game team ctx idx slot) ↔ IsSlotRunner idx slot r
  unfolding slot_runner
  slot_runner-IsSlotRunner idx slot r = elim (Bool-cases (idx == ctx.b)) [
    | inl same ↦
        rw (same, slot_runner)
          (
            λ m. absurd (not-nil m),
            λ runner. let at_bat : idx ≡ ctx.b = ground arith in absurd (runner.3 at_bat),
          )
    | inr other ↦ rw (other, slot_runner) (runner_at-IsSlotRunner idx slot r (ground arith))
  ]

  runners_from-IsRunnerFrom :
      (n : ℕ) (roster : List Slot) (r : BaseRunner)
      → Memᴰ r (runners_from game team ctx n roster) ↔ IsRunnerFrom n roster r
  unfolding runners_from
  runners_from-IsRunnerFrom n [] r = (λ m. absurd (not-nil m), λ (k, slot, e, _). absurd cc)
  runners_from-IsRunnerFrom n (slot ∷ roster) r =
      let (to_slot, from_slot) = slot_runner-IsSlotRunner n slot r in
      let (to_rest, from_rest) = runners_from-IsRunnerFrom (n + 1) roster r in
      (
        λ m. elim (append_cases (slot_runner game team ctx n slot) m) [
          | inl here ↦
              (0, slot, refl, subst (λ i. IsSlotRunner i slot r) (omega arith) (to_slot here))
          | inr later ↦
              let (k, other, e, runner) = to_rest later in
              (suc k, other, e, subst (λ i. IsSlotRunner i other r) (omega arith) runner)
        ],
        λ (k, other, e, runner). place k other e runner from_slot from_rest,
      )
    where
      place :
          (k : ℕ) (other : Slot)
          → get_elem? (slot ∷ roster) k ≡ some other
          → IsSlotRunner (n + k) other r
          → (IsSlotRunner n slot r → Memᴰ r (slot_runner game team ctx n slot))
          → (IsRunnerFrom (n + 1) roster r → Memᴰ r (runners_from game team ctx (n + 1) roster))
          → Memᴰ r (slot_runner game team ctx n slot ++ runners_from game team ctx (n + 1) roster)
      place zero other e runner from_slot from_rest =
          append_left (runners_from game team ctx (n + 1) roster) (
            from_slot (
              subst (λ x. IsSlotRunner n x r) (sym (some_inj slot other e))
                (subst (λ i. IsSlotRunner i other r) (omega arith) runner)))
      place (suc k) other e runner from_slot from_rest =
          append_right (slot_runner game team ctx n slot)
            (from_rest (k, other, e, subst (λ i. IsSlotRunner i other r) (omega arith) runner))

-- The runners on base are the batters of the roster other than the one at bat whose latest cell of
-- the inning that counts leaves them on a base, first to third: nobody else, each of them, and each
-- once. A runner has the name of the slot's current player, his base, and the key of that cell; the
-- lead runner comes first. A cell counts if its column is an earlier one of the inning than that at
-- bat, or is that column and the batter comes before the one at bat or was put on base by hand.
pub get_runners_on_base_lem :
    (game : State) (team : Team) (ctx : Ctx)
    → ((r : BaseRunner)
        → Memᴰ r (get_runners_on_base game team ctx)
          ↔ IsRunnerFrom game team ctx 0 (side team game.roster) r)
      × IsDistinct (get_runners_on_base game team ctx)
      × IsDescending (get_runners_on_base game team ctx)
unfolding get_runners_on_base
get_runners_on_base_lem game team ctx =
    let found = runners_from game team ctx 0 (side team game.roster) in
    (
      λ r.
          let (to, from) = Memᴰ-sort_runners r found in
          let (to_runner, from_runner) =
            runners_from-IsRunnerFrom game team ctx 0 (side team game.roster) r in
          (λ m. to_runner (to m), λ runner. from (from_runner runner)),
      IsDistinct-sort_runners found
          (runners_from-IsDistinct game team ctx 0 (side team game.roster)).1,
      IsDescending-sort_runners found,
    )
