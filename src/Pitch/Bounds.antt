-- ===== src/Pitch/Bounds.antt =====
-- The count of a pitch sequence, and the bounds of the cell that `applyPitch` writes.
use skorekeeper.Common.{
  ℕ, ◌+◌, ◌≤◌, ◌<◌, min, Bool, true, false, List, [], ◌∷◌, foldl, ltb, if◌then◌else◌, ◌≡◌, refl,
  ◌⊎◌, arith, String, ◌++◌,
}
use skorekeeper.Game.{PitchType, PitchCode, PitchEntry, pitch, substitution}
use skorekeeper.Pitch.{Count, count_pitch, recount}

-- How many pitches of a type the sequence has.
abbrev pub is_ball : PitchEntry → Bool
is_ball (pitch PitchType.ball _ _) = true
is_ball _ = false

abbrev pub is_strike : PitchEntry → Bool
is_strike (pitch PitchType.strike _ _) = true
is_strike _ = false

abbrev pub is_foul : PitchEntry → Bool
is_foul (pitch PitchType.foul _ _) = true
is_foul _ = false

abbrev pub count_if : (PitchEntry → Bool) → List PitchEntry → ℕ
count_if p [] = 0
count_if p (e ∷ es) = (if p e then 1 else 0) + count_if p es

-- What one round does to the count, in terms of the kind of the entry.
count_pitch-balls :
    (c : Count) (e : PitchEntry)
    → c.balls ≤ 4
    → (count_pitch c e).balls ≡ min 4 (c.balls + (if is_ball e then 1 else 0))
unfolding count_pitch
count_pitch-balls c (substitution r) h = omega arith
count_pitch-balls c (pitch t code by) h = ground arith

record StrikeStep (c d : Count) (strike foul : Bool) : Type 0 where
  struck : strike ≡ true → d.strikes ≡ min 3 (c.strikes + 1)
  fouled : foul ≡ true → d.strikes ≡ (if ltb c.strikes 2 then c.strikes + 1 else c.strikes)
  other : strike ≡ false → foul ≡ false → d.strikes ≡ c.strikes
  apart : strike ≡ true → foul ≡ false

count_pitch-StrikeStep :
    (c : Count) (e : PitchEntry)
    → c.strikes ≤ 3
    → StrikeStep c (count_pitch c e) (is_strike e) (is_foul e)
unfolding count_pitch
count_pitch-StrikeStep c (substitution r) h = ground arith
count_pitch-StrikeStep c (pitch t code by) h = ground arith

balls-foldl :
    (c : Count) (es : List PitchEntry)
    → c.balls ≤ 4
    → (foldl count_pitch c es).balls ≡ min 4 (c.balls + count_if is_ball es)
balls-foldl c [] h = omega arith
balls-foldl c (e ∷ es) h = omega (
  arith,
  count_pitch-balls c e h,
  balls-foldl (count_pitch c e) es (omega (arith, count_pitch-balls c e h)),
)

-- The strikes after the sequence, from a count with at most three.
record StrikeBounds (start final strikes fouls : ℕ) : Type 0 where
  least : min 3 (start + strikes) ≤ final
  most : final ≤ min 3 (start + strikes + fouls)
  fouls_only : strikes ≡ 0 → start ≤ 2 → final ≡ min 2 (start + fouls)

strikes-foldl :
    (c : Count) (es : List PitchEntry)
    → c.strikes ≤ 3
    → StrikeBounds c.strikes
        (foldl count_pitch c es).strikes
        (count_if is_strike es)
        (count_if is_foul es)
strikes-foldl c [] h = omega arith
strikes-foldl c (e ∷ es) h =
    let step = count_pitch-StrikeStep c e h in
    let rest = strikes-foldl (count_pitch c e) es (ground arith) in ground arith

-- Strikes and fouls together make two strikes at least, if there are as many.
two_strikes-foldl :
    (c : Count) (es : List PitchEntry)
    → c.strikes ≤ 3
    → min 2 (c.strikes + count_if is_strike es + count_if is_foul es)
      ≤ (foldl count_pitch c es).strikes
two_strikes-foldl c [] h = omega arith
two_strikes-foldl c (e ∷ es) h =
    let step = count_pitch-StrikeStep c e h in
    let rest = two_strikes-foldl (count_pitch c e) es (ground arith) in ground arith

foldl-snoc {ℓ κ} :
    {A : Type ℓ} {B : Type κ} (f : B → A → B) (b : B) (xs : List A) (x : A)
    → foldl f b (xs ++ x ∷ []) ≡ f (foldl f b xs) x
foldl-snoc f b [] x = refl
foldl-snoc f b (y ∷ ys) x = foldl-snoc f (f b y) ys x

count_pitch-third :
    (c : Count) (type : PitchType) (code : PitchCode) (by : String)
    → type ≡ PitchType.strike
    → 2 ≤ c.strikes
    → 3 ≤ (count_pitch c (pitch type code by)).strikes
unfolding count_pitch
count_pitch-third c type code by t h = ground arith

-- After two pitches that are strikes or fouls, a strike pitch is the third strike.
pub third_strike :
    (es : List PitchEntry) (type : PitchType) (code : PitchCode) (by : String)
    → type ≡ PitchType.strike
    → 2 ≤ count_if is_strike es + count_if is_foul es
    → 3 ≤ (recount (es ++ pitch type code by ∷ [])).strikes
unfolding recount
third_strike es type code by t h =
    let start : Count = record { balls = 0; strikes = 0 } in
    let two = two_strikes-foldl start es (omega arith) in
    rw foldl-snoc (count_pitch-third (foldl count_pitch start es) type code by t (omega arith))

-- The recount: balls are the ball pitches, four at most. Strikes are at least the strike pitches,
-- three at most, and at most strikes and fouls together; with no strike pitch at all they are the
-- fouls, two at most, so that fouls alone never make the third strike.
pub recount_bounds :
    (es : List PitchEntry)
    → ((recount es).balls ≡ min 4 (count_if is_ball es))
      × (min 3 (count_if is_strike es) ≤ (recount es).strikes)
      × ((recount es).strikes ≤ min 3 (count_if is_strike es + count_if is_foul es))
      × ((0 < count_if is_strike es) ⊎ ((recount es).strikes ≡ min 2 (count_if is_foul es)))
unfolding recount
recount_bounds es =
    let start : Count = record { balls = 0; strikes = 0 } in
    let balls = balls-foldl start es (omega arith) in
    let strikes = strikes-foldl start es (omega arith) in
    (omega arith, omega arith, omega arith, ground arith)
