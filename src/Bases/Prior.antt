-- ===== src/Bases/Prior.antt =====
-- The tests of `getRunnersOnBase` of frontend/game/runnerManager.js on a cell: whether it counts,
-- and which base it leaves the batter on.
use skorekeeper.Common.{
  ℕ, zero, suc, ◌<◌, String, Bool, true, false, List, [], ◌∷◌, Option, none, some, any, All, eq_iff,
  ◌≡◌, refl, ◌≢◌, ◌↔◌, ◌⊎◌, inl, inr, arith, Bool-cases, some_inj,
}
use skorekeeper.Game.{PathMark, Legs, PitchEntry, Event, Ctx}
use skorekeeper.Columns.{sub_index, opt_ltb}
use skorekeeper.Bases.{is_pitch, is_placed_runner, is_prior, on_base}

-- The paths leave the batter on the base: safe there, and nothing marked beyond it.
abbrev pub StandsOn : Legs PathMark → ℕ → Type 0
StandsOn p zero =
    (p.leg_0 ≡ PathMark.safe)
    × (p.leg_1 ≡ PathMark.unset)
    × (p.leg_2 ≡ PathMark.unset)
    × (p.leg_3 ≡ PathMark.unset)
StandsOn p (suc zero) =
    (p.leg_1 ≡ PathMark.safe) × (p.leg_2 ≡ PathMark.unset) × (p.leg_3 ≡ PathMark.unset)
StandsOn p (suc (suc zero)) = (p.leg_2 ≡ PathMark.safe) × (p.leg_3 ≡ PathMark.unset)
StandsOn p _ = ⊥

pub on_base_iff : (p : Legs PathMark) (base : ℕ) → (on_base p ≡ some base) ↔ StandsOn p base
unfolding on_base
on_base_iff p zero = (λ h. ground arith, λ h. ground arith)
on_base_iff p (suc zero) = (λ h. ground arith, λ h. ground arith)
on_base_iff p (suc (suc zero)) = (λ h. ground arith, λ h. ground arith)
on_base_iff p (suc (suc (suc n))) = (λ h. ground arith, λ h. absurd h)

abbrev IsSubstitution : PitchEntry → Type 0
IsSubstitution (PitchEntry.pitch _ _ _) = ⊥
IsSubstitution (PitchEntry.substitution _) = Unit

-- Put on base by hand: no outcome, no pitch, and a mark on some leg.
abbrev pub IsPlaced : Event → Type 0
IsPlaced ev =
    (ev.outcome ≡ "")
    × All IsSubstitution ev.pitch_sequence
    × ((ev.paths.leg_0 ≢ PathMark.unset)
        ⊎ (ev.paths.leg_1 ≢ PathMark.unset)
        ⊎ (ev.paths.leg_2 ≢ PathMark.unset)
        ⊎ (ev.paths.leg_3 ≢ PathMark.unset))

any-is_pitch : (es : List PitchEntry) → (any is_pitch es ≡ false) ↔ All IsSubstitution es
any-is_pitch [] = (λ h. tt, λ h. refl)
any-is_pitch (PitchEntry.pitch t c by ∷ es) = (λ h. cc, λ h. absurd h.0)
any-is_pitch (PitchEntry.substitution r ∷ es) =
    (λ h. (tt, (any-is_pitch es).0 h), λ h. (any-is_pitch es).1 h.1)

is_placed_runner_iff : (ev : Event) → (is_placed_runner ev ≡ true) ↔ IsPlaced ev
unfolding is_placed_runner
is_placed_runner_iff ev =
    let (to, from) = any-is_pitch ev.pitch_sequence in
    (
      λ h. (ground (arith, eq_iff ev.outcome ""), to (ground arith), ground arith),
      λ h.
          let bare = from h.1 in
          let blank = h.0 in let marked = h.2 in ground (arith, eq_iff ev.outcome ""),
    )

-- A cell of a column counts before the context: the column is an earlier one of the inning, or the
-- one of the context, where the batter came up before or was put on base by hand.
abbrev pub IsPrior : Ctx → Bool → String → Event → Type 0
IsPrior ctx came_up col_id ev =
    ((m : ℕ) × (n : ℕ) × (sub_index col_id ≡ some m) × (sub_index ctx.col ≡ some n) × (m < n))
    ⊎ ((col_id ≡ ctx.col) × ((came_up ≡ true) ⊎ IsPlaced ev))

opt_ltb_iff :
    (x y : Option ℕ)
    → (opt_ltb x y ≡ true) ↔ ((m : ℕ) × (n : ℕ) × (x ≡ some m) × (y ≡ some n) × (m < n))
opt_ltb_iff none y = (λ h. absurd cc, λ h. let bad = h.2 in absurd cc)
opt_ltb_iff (some m) none = (λ h. absurd cc, λ h. absurd cc)
opt_ltb_iff (some m) (some n) = (
  λ h. (m, n, refl, refl, ground arith),
  λ (i, j, x, y, less). let same_x = some_inj m i x in let same_y = some_inj n j y in ground arith,
)

pub is_prior_iff :
    (ctx : Ctx) (came_up : Bool) (col_id : String) (ev : Event)
    → (is_prior ctx came_up col_id ev ≡ true) ↔ IsPrior ctx came_up col_id ev
unfolding is_prior
is_prior_iff ctx came_up col_id ev =
    let (to_less, from_less) = opt_ltb_iff (sub_index col_id) (sub_index ctx.col) in
    let (to_placed, from_placed) = is_placed_runner_iff ev in
    (
      λ h. elim (Bool-cases (opt_ltb (sub_index col_id) (sub_index ctx.col))) [
        | inl less ↦ inl (to_less less)
        | inr not_less ↦
            let same : col_id ≡ ctx.col = ground (arith, eq_iff col_id ctx.col) in
            elim (Bool-cases came_up) [
              | inl before ↦ inr (same, inl before)
              | inr later ↦ inr (same, inr (to_placed (ground (arith, eq_iff col_id ctx.col))))
            ]
      ],
      λ h. elim h [
        | inl less ↦ rw (from_less less) refl
        | inr (same, inl before) ↦ ground (arith, eq_iff col_id ctx.col)
        | inr (same, inr placed) ↦
            let put = from_placed placed in ground (arith, eq_iff col_id ctx.col)
      ],
    )
