-- ===== src/Advances/Defaults.antt =====
-- What `calculateDefaultAdvances` of frontend/game/runnerManager.js leaves alone.
use skorekeeper.Common.{
  ℕ, ◌+◌, String, true, false, ◌&&◌, ◌||◌, List, [], ◌∷◌, map, Option, none, some, All, Dict, leb,
  ◌≡◌, refl, ap, ◌∙◌, ◌⊎◌, inl, inr, arith, Bool-cases,
}
use skorekeeper.Game.{Event, BipState, RunnerOutcome}
use skorekeeper.Bases.{BaseRunner}
use skorekeeper.Advances.{
  Pending, pending_of, is_air, is_safe_result, is_batter_retired, is_free_pass, is_sacrifice,
  move_first, push_chain, advance_by, should_advance, outcome_at, move_to, advance_all,
  calculate_default_advances,
}
use skorekeeper.Advances.Forced.{
  runners_of, runners_of-move_first, runners_of-push_chain, is_forced_key, KeepsRecord, MovesForced,
  move_first-KeepsRecord, move_first-MovesForced, push_chain-All, IsCovered, All-IsCovered,
}

-- The loop keeps what each of its moves keeps.
advance_all-All :
    (P : Pending → Type 0) (Q : BaseRunner → Type 0) (bip : BipState) (runners rs : List BaseRunner)
    (ps : List Pending)
    → ((r : BaseRunner) (o : RunnerOutcome) (qs : List Pending)
        → Q r
        → should_advance bip runners r ≡ true
        → All P qs
        → All P (move_first r.key o qs))
    → All Q rs
    → All P ps
    → All P (advance_all bip runners rs ps)
unfolding advance_all
advance_all-All P Q bip runners [] ps step q h = h
advance_all-All P Q bip runners (r ∷ rs) ps step (qr, q) h =
    elim (Bool-cases (should_advance bip runners r)) [
      | inr stays ↦ rw (stays, advance_all) (advance_all-All P Q bip runners rs ps step q h)
      | inl goes ↦
          rw (goes, advance_all)
            (advance_all-All P Q bip runners rs
              (move_to r.key (outcome_at (r.base + advance_by bip)) ps) step q
              (move_to-All P r.key (outcome_at (r.base + advance_by bip)) ps
                (λ o. step r o ps qr goes h) h))
    ]
  where
    move_to-All :
        (P : Pending → Type 0) (key : String) (o : Option RunnerOutcome) (qs : List Pending)
        → ((x : RunnerOutcome) → All P (move_first key x qs))
        → All P qs
        → All P (move_to key o qs)
    move_to-All P key none qs moved h = h
    move_to-All P key (some x) qs moved h = moved x

All-pending :
    (P : Pending → Type 0) (events : Dict Event) (rs : List BaseRunner)
    → ((r : BaseRunner) → P (pending_of events r))
    → All P (map (pending_of events) rs)
All-pending P events [] h = tt
All-pending P events (r ∷ rs) h = (h r, All-pending P events rs h)

runners_of-advance_all :
    (bip : BipState) (runners rs : List BaseRunner) (ps : List Pending)
    → runners_of (advance_all bip runners rs ps) ≡ runners_of ps
unfolding advance_all
runners_of-advance_all bip runners [] ps = refl
runners_of-advance_all bip runners (r ∷ rs) ps = elim (Bool-cases (should_advance bip runners r)) [
  | inr stays ↦ rw (stays, advance_all) (runners_of-advance_all bip runners rs ps)
  | inl goes ↦
      let o = outcome_at (r.base + advance_by bip) in
      rw (goes, advance_all)
        (runners_of-advance_all bip runners rs (move_to r.key o ps) ∙ runners_of-move_to r.key o ps)
]
  where
    runners_of-move_to :
        (key : String) (o : Option RunnerOutcome) (qs : List Pending)
        → runners_of (move_to key o qs) ≡ runners_of qs
    runners_of-move_to key none qs = refl
    runners_of-move_to key (some x) qs = runners_of-move_first key x qs

runners_of-pending :
    (events : Dict Event) (rs : List BaseRunner) → runners_of (map (pending_of events) rs) ≡ rs
runners_of-pending events [] = refl
runners_of-pending events (r ∷ rs) = ap (r ∷◌) (runners_of-pending events rs)

-- Every runner gets one default outcome, in the order of the runners.
pub runners_of-calculate_default_advances :
    (runners : List BaseRunner) (bip : BipState) (events : Dict Event) (outs : ℕ)
    → runners_of (calculate_default_advances runners bip events outs) ≡ runners
unfolding calculate_default_advances
runners_of-calculate_default_advances runners bip events outs =
    let start = runners_of-pending events runners in
    elim (Bool-cases (is_batter_retired bip.res && leb 2 outs)) [
      | inl over ↦ rw (over, calculate_default_advances) start
      | inr on ↦ elim (Bool-cases (is_free_pass bip.type)) [
        | inl walk ↦
            rw (on, calculate_default_advances, walk) (runners_of-push_chain runners _ ∙ start)
        | inr play ↦ elim (Bool-cases (is_air bip.res)) [
          | inl air ↦ rw (on, calculate_default_advances, play, air) start
          | inr grounded ↦
              rw (on, calculate_default_advances, play, grounded)
                (runners_of-advance_all bip runners runners _ ∙ start)
        ]
      ]
    ]

module _ (runners : List BaseRunner) (bip : BipState) (events : Dict Event) (outs : ℕ) where
  -- Each branch keeps what the initial outcomes have and what its moves keep.
  calculate-All :
      (P : Pending → Type 0)
      → All P (map (pending_of events) runners)
      → All P (push_chain runners (map (pending_of events) runners))
      → (is_free_pass bip.type ≡ false
          → All P (advance_all bip runners runners (map (pending_of events) runners)))
      → All P (calculate_default_advances runners bip events outs)
  unfolding calculate_default_advances
  calculate-All P start chained advanced =
      elim (Bool-cases (is_batter_retired bip.res && leb 2 outs)) [
        | inl over ↦ rw (over, calculate_default_advances) start
        | inr on ↦ elim (Bool-cases (is_free_pass bip.type)) [
          | inl walk ↦ rw (on, calculate_default_advances, walk) chained
          | inr play ↦ elim (Bool-cases (is_air bip.res)) [
            | inl air ↦ rw (on, calculate_default_advances, play, air) start
            | inr ground_ball ↦
                rw (on, calculate_default_advances, play, ground_ball) (advanced play)
          ]
        ]
      ]

  -- A runner whose cell already tells an outcome other than to stay keeps it, whatever the play.
  pub calculate_default_advances-KeepsRecord :
      All (KeepsRecord events) (calculate_default_advances runners bip events outs)
  calculate_default_advances-KeepsRecord =
      let start = All-pending (KeepsRecord events) events runners (λ r. inl refl) in
      calculate-All (KeepsRecord events) start
        (push_chain-All (KeepsRecord events) runners _
          (λ key o qs _ h. move_first-KeepsRecord events key o qs h) start)
        (λ _.
          advance_all-All (KeepsRecord events) (IsCovered runners) bip runners runners _
            (λ r o qs _ _ h. move_first-KeepsRecord events r.key o qs h) (All-IsCovered runners)
            start)

  -- On a walk or the like, and where the batter is not safe and it is no sacrifice, only a runner
  -- with the key of a forced one gets another outcome than the one on record.
  pub calculate_default_advances-MovesForced :
      (is_free_pass bip.type ≡ true) ⊎ ((is_safe_result bip.res || is_sacrifice bip.type) ≡ false)
      → All (MovesForced runners events) (calculate_default_advances runners bip events outs)
  unfolding should_advance
  calculate_default_advances-MovesForced no_hit =
      let start = All-pending (MovesForced runners events) events runners (λ r. inl refl) in
      calculate-All (MovesForced runners events) start
        (push_chain-All (MovesForced runners events) runners _
          (λ key o qs forced h. move_first-MovesForced runners events key o qs forced h) start)
        (λ no_walk.
          advance_all-All (MovesForced runners events) (IsCovered runners) bip runners runners _
            (λ r o qs covered goes h.
              move_first-MovesForced runners events r.key o qs (forced r covered goes no_walk) h)
            (All-IsCovered runners) start)
    where
      forced :
          (r : BaseRunner)
          → IsCovered runners r
          → should_advance bip runners r ≡ true
          → is_free_pass bip.type ≡ false
          → is_forced_key runners r.key ≡ true
      forced r covered goes no_walk = ground arith
