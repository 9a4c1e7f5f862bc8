-- ===== src/Pitch/Cell.antt =====
-- The cells after `applyPitch` of frontend/reducer.js.
use skorekeeper.Common.{
  ℕ, ◌+◌, ◌≤◌, ◌<◌, min, String, Bool, true, false, List, [], ◌∷◌, ◌++◌, some, last?, Dict,
  AllValues-lookup, lookup, lookup-insert, eq_iff, str_eq_refl, if◌then◌else◌, ◌≡◌, refl, ◌∙◌, ◌≢◌,
  inl, inr, arith, Option-cases,
}
use skorekeeper.Game.{
  other_team, PitchType, PitchCode, PathMark, PitchEntry, pitch, Event, side, State, PitchPayload,
  event_key,
}
use skorekeeper.Outs.{inning_col_ids, calculate_inning_outs_exclude}
use skorekeeper.Outs.Counted.{IsCounted, AllCounted, AllCounted-insert}
use skorekeeper.Pitch.{recount, own_event, push_pitch, settle_count, apply_pitch}
use skorekeeper.Pitch.Bounds.{is_ball, is_strike, is_foul, count_if, recount_bounds, third_strike}

abbrev pub pitch_key : PitchPayload → String
pitch_key p = event_key p.active_team p.active_ctx.b p.active_ctx.col

abbrev pub is_called_code : PitchCode → Bool
is_called_code PitchCode.called = true
is_called_code _ = false

abbrev pub is_dropped_code : PitchCode → Bool
is_dropped_code PitchCode.dropped = true
is_dropped_code _ = false

-- The cell before the pitch, and the pitches with the new one.
abbrev pub cell_before : State → PitchPayload → Event
cell_before s p = own_event p.batter_id (lookup (pitch_key p) s.events)

abbrev pub new_pitch : State → PitchPayload → PitchEntry
new_pitch s p = pitch p.type p.code (side (other_team p.active_team) s.pitchers)

abbrev pub pitches : State → PitchPayload → List PitchEntry
pitches s p = (cell_before s p).pitch_sequence ++ new_pitch s p ∷ []

-- The outs of the inning without the cell.
abbrev pub other_outs : State → PitchPayload → ℕ
other_outs s p =
    calculate_inning_outs_exclude s.events p.active_team (inning_col_ids p.active_ctx.i s.columns)
      (pitch_key p)

abbrev cell_after : State → PitchPayload → Event
cell_after s p = settle_count (other_outs s p) (push_pitch (new_pitch s p) (cell_before s p))

-- A pitch leaves every other cell as it was.
pub lookup-apply_pitch_ne :
    (s : State) (p : PitchPayload) (k : String)
    → k ≢ pitch_key p
    → lookup k (apply_pitch s p).events ≡ lookup k s.events
unfolding apply_pitch
lookup-apply_pitch_ne s p k h =
    lookup-insert (pitch_key p) k (cell_after s p) s.events ∙ ground (arith, eq_iff (pitch_key p) k)

lookup-apply_pitch :
    (s : State) (p : PitchPayload)
    → lookup (pitch_key p) (apply_pitch s p).events ≡ some (cell_after s p)
unfolding apply_pitch
lookup-apply_pitch s p =
    lookup-insert (pitch_key p) (pitch_key p) (cell_after s p) s.events ∙ rw str_eq_refl

last?-concat {ℓ} : {A : Type ℓ} (xs : List A) (x : A) → last? (xs ++ x ∷ []) ≡ some x
last?-concat [] x = refl
last?-concat (y ∷ []) x = refl
last?-concat (y ∷ z ∷ xs) x = last?-concat (z ∷ xs) x

module _ (n : ℕ) (e : PitchEntry) (ev : Event) where
  settle_walk :
      4 ≤ (recount (ev.pitch_sequence ++ e ∷ [])).balls
      → ((settle_count n (push_pitch e ev)).outcome ≡ "BB")
        × ((settle_count n (push_pitch e ev)).paths.leg_0 ≡ PathMark.safe)
        × ((settle_count n (push_pitch e ev)).out_num ≡ ev.out_num)
        × ((settle_count n (push_pitch e ev)).pitch_sequence ≡ ev.pitch_sequence ++ e ∷ [])
  unfolding settle_count push_pitch
  settle_walk h = (ground arith, ground arith, ground arith, ground arith)

settle_strikeout :
    (n : ℕ) (type : PitchType) (code : PitchCode) (by : String) (ev : Event)
    → type ≡ PitchType.strike
    → (recount (ev.pitch_sequence ++ pitch type code by ∷ [])).balls < 4
    → 3 ≤ (recount (ev.pitch_sequence ++ pitch type code by ∷ [])).strikes
    → ((settle_count n (push_pitch (pitch type code by) ev)).outcome
        ≡ (if is_called_code code then "ꓘ" else "K"))
      × ((settle_count n (push_pitch (pitch type code by) ev)).out_num
          ≡ (if is_dropped_code code then ev.out_num else min 3 (n + 1)))
unfolding settle_count push_pitch
settle_strikeout n type code by ev t b s =
    let last = last?-concat ev.pitch_sequence (pitch type code by) in
    (rw last (ground arith), rw last (ground arith))

-- The fourth ball is a walk: the batter is safe at first, and no out is recorded.
pub apply_pitch_walk :
    (s : State) (p : PitchPayload)
    → 4 ≤ count_if is_ball (pitches s p)
    → (after : Event) × (lookup (pitch_key p) (apply_pitch s p).events ≡ some after)
      × (after.outcome ≡ "BB")
      × (after.paths.leg_0 ≡ PathMark.safe)
      × (after.out_num ≡ (cell_before s p).out_num)
      × (after.pitch_sequence ≡ pitches s p)
apply_pitch_walk s p h =
    let four = (recount_bounds (pitches s p)).0 in
    let (outcome, first, outs, seq) =
      settle_walk (other_outs s p) (new_pitch s p) (cell_before s p) (omega arith) in
    (cell_after s p, lookup-apply_pitch s p, outcome, first, outs, seq)

-- After two or more strikes and fouls, counted together, and with less than four balls, a strike
-- pitch is a strikeout: "ꓘ" if called, "K" otherwise. Unless it was dropped, the batter is the next
-- out of the inning, which has three at most; if it was dropped, the out number stays.
pub apply_pitch_strikeout :
    (s : State) (p : PitchPayload)
    → p.type ≡ PitchType.strike
    → count_if is_ball (pitches s p) < 4
    → 2
      ≤ count_if is_strike (cell_before s p).pitch_sequence
        + count_if is_foul (cell_before s p).pitch_sequence
    → (after : Event) × (lookup (pitch_key p) (apply_pitch s p).events ≡ some after)
      × (after.outcome ≡ (if is_called_code p.code then "ꓘ" else "K"))
      × (after.out_num ≡ (
          if is_dropped_code p.code then (cell_before s p).out_num else min 3 (other_outs s p + 1)))
apply_pitch_strikeout s p t b k =
    let bounds = recount_bounds (pitches s p) in
    let (outcome, outs) =
      settle_strikeout (other_outs s p) p.type p.code (side (other_team p.active_team) s.pitchers)
        (cell_before s p) t (omega arith)
        (third_strike (cell_before s p).pitch_sequence p.type p.code
          (side (other_team p.active_team) s.pitchers) t k) in
    (cell_after s p, lookup-apply_pitch s p, outcome, outs)

pub IsCounted-own_event :
    (id key : String) (events : Dict Event)
    → AllCounted events
    → IsCounted (own_event id (lookup key events))
IsCounted-own_event id key events h = elim (Option-cases (lookup key events)) [
  | inl missing ↦ rw missing (omega arith)
  | inr (ev, found) ↦ rw found (AllValues-lookup IsCounted key events h found)
]

IsCounted-settle_count :
    (n : ℕ) (e : PitchEntry) (ev : Event)
    → IsCounted ev
    → IsCounted (settle_count n (push_pitch e ev))
unfolding settle_count push_pitch
IsCounted-settle_count n e ev h = ground arith

-- A pitch keeps every out number at most 3.
pub AllCounted-apply_pitch :
    (s : State) (p : PitchPayload) → AllCounted s.events → AllCounted (apply_pitch s p).events
unfolding apply_pitch
AllCounted-apply_pitch s p h = AllCounted-insert (pitch_key p) (cell_after s p) s.events h (
    IsCounted-settle_count (other_outs s p) (new_pitch s p) (cell_before s p)
      (IsCounted-own_event p.batter_id (pitch_key p) s.events h))
