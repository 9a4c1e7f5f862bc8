-- ===== src/Lineup/Moves.antt =====
-- Players that are moved in the editor (frontend/game/lineupManager.js).
use skorekeeper.Common.{
  ℕ, zero, suc, ◌≤◌, ◌<◌, List, [], ◌∷◌, length, Option, none, some, ◌≡◌, refl, sym, ap, ◌∙◌, arith,
  Option-cases, inl, inr, some_inj,
}
use skorekeeper.Game.{Player}
use skorekeeper.Lineup.{
  LineupState, Group, starter, sub, group, put_group, take_out, put_in, move_player, land,
}

module _ {ℓ} {A : Type ℓ} where
  take_out-put_in :
      (i : ℕ) (x : A) (xs : List A) → i ≤ length xs → take_out i (put_in i x xs) ≡ some (x, xs)
  unfolding take_out put_in
  take_out-put_in zero x [] h = refl
  take_out-put_in (suc i) x [] h = absurd (omega (arith, h))
  take_out-put_in zero x (y ∷ xs) h = refl
  take_out-put_in (suc i) x (y ∷ xs) h =
      ap (λ o. elim o [ none ↦ none | some (z, zs) ↦ some (z, y ∷ zs) ])
        (take_out-put_in i x xs (omega (arith, h)))

  put_in_zero : (x : A) (xs : List A) → put_in 0 x xs ≡ x ∷ xs
  unfolding put_in
  put_in_zero x [] = refl
  put_in_zero x (y ∷ xs) = refl

  length-put_in : (i : ℕ) (x : A) (xs : List A) → length (put_in i x xs) ≡ suc (length xs)
  unfolding put_in
  length-put_in i x [] = refl
  length-put_in zero x (y ∷ xs) = refl
  length-put_in (suc i) x (y ∷ xs) = omega (arith, length-put_in i x xs)

  -- `take_out` past a first item.
  abbrev after : A → Option (A × List A) → Option (A × List A)
  after y none = none
  after y (some (z, zs)) = some (z, y ∷ zs)

  put_in-take_out :
      (i : ℕ) (xs : List A) (x : A) (rest : List A)
      → take_out i xs ≡ some (x, rest)
      → put_in i x rest ≡ xs
  unfolding take_out put_in
  put_in-take_out i [] x rest h = absurd cc
  put_in-take_out zero (y ∷ xs) x rest h =
      put_in_zero x rest ∙ ap (λ p. p.0 ∷ p.1) (sym (some_inj (y, xs) (x, rest) h))
  put_in-take_out (suc i) (y ∷ xs) x rest h = elim (Option-cases (take_out i xs)) [
    | inl nothing ↦
        let bad : after y none ≡ some (x, rest) = sym (ap (after y) nothing) ∙ h in absurd cc
    | inr (found, e) ↦
        let same = some_inj (found.0, y ∷ found.1) (x, rest) (sym (ap (after y) e) ∙ h) in
        ap (λ p. put_in (suc i) p.0 p.1) (sym same)
        ∙ ap (y ∷◌) (put_in-take_out i xs found.0 found.1 e)
  ]

-- A player who has landed at an index is taken up again from there.
land_back :
    (i j : ℕ) (a b : Group) (s : LineupState) (item : Player) (rest : List Player)
    → take_out i (group a s) ≡ some (item, rest)
    → let taken = put_group a rest s in
      j ≤ length (group b taken)
      → move_player j b i a (put_group b (put_in j item (group b taken)) taken) ≡ some s
unfolding move_player
land_back i j starter starter s item rest e h =
    ap (land starter i starter (record s { starters = put_in j item rest }))
      (take_out-put_in j item rest h)
    ∙ ap (λ xs. some (record s { starters = xs })) (put_in-take_out i s.starters item rest e)
land_back i j starter sub s item rest e h =
    ap (land sub i starter (record s { starters = rest; subs = put_in j item s.subs }))
      (take_out-put_in j item s.subs h)
    ∙ ap (λ xs. some (record s { starters = xs })) (put_in-take_out i s.starters item rest e)
land_back i j sub starter s item rest e h =
    ap (land starter i sub (record s { starters = put_in j item s.starters; subs = rest }))
      (take_out-put_in j item s.starters h)
    ∙ ap (λ xs. some (record s { subs = xs })) (put_in-take_out i s.subs item rest e)
land_back i j sub sub s item rest e h =
    ap (land sub i sub (record s { subs = put_in j item rest })) (take_out-put_in j item rest h)
    ∙ ap (λ xs. some (record s { subs = xs })) (put_in-take_out i s.subs item rest e)

length-landed :
    (j : ℕ) (b : Group) (item : Player) (taken : LineupState)
    → length (group b (put_group b (put_in j item (group b taken)) taken))
      ≡ suc (length (group b taken))
length-landed j starter item taken = length-put_in j item taken.starters
length-landed j sub item taken = length-put_in j item taken.subs

-- A move within a list or between the two is taken back by the opposite move, if the player has landed at the index that
-- he was moved to.
pub move_player-move_player :
    (i j : ℕ) (a b : Group) (s t : LineupState)
    → move_player i a j b s ≡ some t
    → j < length (group b t)
    → move_player j b i a t ≡ some s
unfolding move_player
move_player-move_player i j a b s t moved h = elim (Option-cases (take_out i (group a s))) [
  | inl nothing ↦
      let bad : land a j b s none ≡ some t = sym (ap (land a j b s) nothing) ∙ moved in absurd cc
  | inr (found, e) ↦
      let taken = put_group a found.1 s in
      let landed = put_group b (put_in j found.0 (group b taken)) taken in
      let same : landed ≡ t = some_inj landed t (sym (ap (land a j b s) e) ∙ moved) in
      ap (move_player j b i a) (sym same)
      ∙ land_back i j a b s found.0 found.1 e
          (omega (arith, length-landed j b found.0 taken, ap (λ x. length (group b x)) same))
]
