-- ===== src/Advances/Forced.antt =====
-- What a move of `calculateDefaultAdvances` (frontend/game/runnerManager.js) may change, and which
-- runners it may move.
use skorekeeper.Common.{
  ℕ, String, Bool, true, false, ◌&&◌, List, [], ◌∷◌, map, none, some, any, All, Dict, str_eq,
  str_eq_refl, eq_iff, ◌==◌, ◌≡◌, refl, sym, ap, ◌∙◌, ◌⊎◌, inl, inr, arith, Bool-cases,
  Option-cases, some_inj,
}
use skorekeeper.Game.{Event, RunnerOutcome}
use skorekeeper.Bases.{BaseRunner}
use skorekeeper.Advances.{
  Pending, initial_outcome, runner_on, is_stay, move_first, push_chain, is_forced,
}

-- Whether a runner with the key stands on a base that he is forced from.
abbrev pub is_forced_key : List BaseRunner → String → Bool
is_forced_key runners key = any (λ r. str_eq r.key key && is_forced runners r.base) runners

-- The outcome is the one that the cell tells, or that one is to stay.
abbrev pub KeepsRecord : Dict Event → Pending → Type 0
KeepsRecord events p =
    (p.outcome ≡ initial_outcome events p.runner)
    ⊎ (is_stay (initial_outcome events p.runner) ≡ true)

-- Only a forced runner gets another outcome.
abbrev pub MovesForced : List BaseRunner → Dict Event → Pending → Type 0
MovesForced runners events p =
    (p.outcome ≡ initial_outcome events p.runner) ⊎ (is_forced_key runners p.runner.key ≡ true)

pub move_first-KeepsRecord :
    (events : Dict Event) (key : String) (o : RunnerOutcome) (ps : List Pending)
    → All (KeepsRecord events) ps
    → All (KeepsRecord events) (move_first key o ps)
unfolding move_first
move_first-KeepsRecord events key o [] h = tt
move_first-KeepsRecord events key o (p ∷ ps) (kept, h) =
    elim (Bool-cases (str_eq p.runner.key key)) [
      | inl here ↦ elim (Bool-cases (is_stay p.outcome)) [
        | inl stays ↦ rw (here, move_first, stays) (ground arith, h)
        | inr other ↦ rw (here, move_first, other) (kept, h)
      ]
      | inr further ↦ rw (further, move_first) (kept, move_first-KeepsRecord events key o ps h)
    ]

pub move_first-MovesForced :
    (runners : List BaseRunner) (events : Dict Event) (key : String) (o : RunnerOutcome)
    (ps : List Pending)
    → is_forced_key runners key ≡ true
    → All (MovesForced runners events) ps
    → All (MovesForced runners events) (move_first key o ps)
unfolding move_first
move_first-MovesForced runners events key o [] forced h = tt
move_first-MovesForced runners events key o (p ∷ ps) forced (kept, h) =
    elim (Bool-cases (str_eq p.runner.key key)) [
      | inl here ↦ elim (Bool-cases (is_stay p.outcome)) [
        | inl stays ↦
            let same : p.runner.key ≡ key = (eq_iff p.runner.key key).0 here in
            rw (here, move_first, stays) (inr (ap (is_forced_key runners) same ∙ forced), h)
        | inr other ↦ rw (here, move_first, other) (kept, h)
      ]
      | inr further ↦
          rw (further, move_first) (kept, move_first-MovesForced runners events key o ps forced h)
    ]

runner_on-eq-some :
    (base : ℕ) (q r : BaseRunner) (rs : List BaseRunner)
    → runner_on base (q ∷ rs) ≡ some r
    → (runner_on base rs ≡ some r) ⊎ ((q ≡ r) × (q.base ≡ base))
unfolding runner_on
runner_on-eq-some base q r rs h = elim (Option-cases (runner_on base rs)) [
  | inl nobody ↦ elim (Bool-cases (q.base == base)) [
    | inl here ↦ inr (some_inj q r (rw (nobody, here) at h), ground arith)
    | inr other ↦ absurd (let gone : none ≡ some r = rw (nobody, other) at h in cc)
  ]
  | inr (x, e) ↦ inl (e ∙ rw e at h)
]

runner_on-base :
    (base : ℕ) (rs : List BaseRunner) (r : BaseRunner) → runner_on base rs ≡ some r → r.base ≡ base
unfolding runner_on
runner_on-base base [] r h = absurd cc
runner_on-base base (q ∷ rs) r h = elim (runner_on-eq-some base q r rs h) [
  | inl later ↦ runner_on-base base rs r later
  | inr (same, at) ↦ sym (ap (λ x. x.base) same) ∙ at
]

any-runner_on :
    (test : BaseRunner → Bool) (base : ℕ) (rs : List BaseRunner) (r : BaseRunner)
    → runner_on base rs ≡ some r
    → test r ≡ true
    → any test rs ≡ true
unfolding runner_on
any-runner_on test base [] r h t = absurd cc
any-runner_on test base (q ∷ rs) r h t = elim (runner_on-eq-some base q r rs h) [
  | inl later ↦ let rest = any-runner_on test base rs r later t in ground arith
  | inr (same, _) ↦ rw (ap test same ∙ t) refl
]

is_forced_key-runner_on :
    (runners : List BaseRunner) (base : ℕ) (r : BaseRunner)
    → runner_on base runners ≡ some r
    → is_forced runners base ≡ true
    → is_forced_key runners r.key ≡ true
is_forced_key-runner_on runners base r on forced =
    any-runner_on (λ q. str_eq q.key r.key && is_forced runners q.base) base runners r on
      (rw (str_eq_refl r.key) (ap (is_forced runners) (runner_on-base base runners r on) ∙ forced))

pub push_chain-All :
    (P : Pending → Type 0) (runners : List BaseRunner) (ps : List Pending)
    → ((key : String) (o : RunnerOutcome) (qs : List Pending)
        → is_forced_key runners key ≡ true
        → All P qs
        → All P (move_first key o qs))
    → All P ps
    → All P (push_chain runners ps)
unfolding push_chain is_forced
push_chain-All P runners ps step h = elim (Option-cases (runner_on 0 runners)) [
  | inl nobody ↦ rw (nobody, push_chain) h
  | inr (r1, on1) ↦
      let first =
        step r1.key RunnerOutcome.to_2nd ps (is_forced_key-runner_on runners 0 r1 on1 (rw on1 refl))
          h in
      elim (Option-cases (runner_on 1 runners)) [
        | inl nobody ↦ rw (on1, push_chain, nobody) first
        | inr (r2, on2) ↦
            let second =
              step r2.key RunnerOutcome.to_3rd _
                (is_forced_key-runner_on runners 1 r2 on2 (rw (on1, on2) refl)) first in
            elim (Option-cases (runner_on 2 runners)) [
              | inl nobody ↦ rw (on1, push_chain, on2, nobody) second
              | inr (r3, on3) ↦
                  rw (on1, push_chain, on2, on3)
                    (step r3.key RunnerOutcome.score _
                      (is_forced_key-runner_on runners 2 r3 on3 (rw (on1, on2, on3) refl)) second)
            ]
      ]
]

-- A runner whose base is not forced, or whose key is that of a forced one.
abbrev pub IsCovered : List BaseRunner → BaseRunner → Type 0
IsCovered runners r = (is_forced runners r.base ≡ false) ⊎ (is_forced_key runners r.key ≡ true)

covered_from :
    (test : BaseRunner → Bool) (runners rs : List BaseRunner)
    → ((p : BaseRunner → Bool) → any p rs ≡ true → any p runners ≡ true)
    → All (λ r. (test r ≡ false) ⊎ (any (λ q. str_eq q.key r.key && test q) runners ≡ true)) rs
covered_from test runners [] inside = tt
covered_from test runners (r ∷ rs) inside =
    let rest = covered_from test runners rs (λ p h. inside p (ground arith)) in
    elim (Bool-cases (test r)) [
      | inl holds ↦
          let here : any (λ q. str_eq q.key r.key && test q) (r ∷ rs) ≡ true =
            rw (str_eq_refl r.key, holds) refl in
          (inr (inside (λ q. str_eq q.key r.key && test q) here), rest)
      | inr fails ↦ (inl fails, rest)
    ]

pub All-IsCovered : (runners : List BaseRunner) → All (IsCovered runners) runners
All-IsCovered runners = covered_from (λ r. is_forced runners r.base) runners runners (λ p h. h)

abbrev pub runners_of : List Pending → List BaseRunner
runners_of ps = map (λ p. p.runner) ps

pub runners_of-move_first :
    (key : String) (o : RunnerOutcome) (ps : List Pending)
    → runners_of (move_first key o ps) ≡ runners_of ps
unfolding move_first
runners_of-move_first key o [] = refl
runners_of-move_first key o (p ∷ ps) = ground (arith, runners_of-move_first key o ps)

pub runners_of-push_chain :
    (runners : List BaseRunner) (ps : List Pending)
    → runners_of (push_chain runners ps) ≡ runners_of ps
unfolding push_chain
runners_of-push_chain runners ps = elim (Option-cases (runner_on 0 runners)) [
  | inl nobody ↦ rw (nobody, push_chain) refl
  | inr (r1, on1) ↦
      let first = runners_of-move_first r1.key RunnerOutcome.to_2nd ps in
      elim (Option-cases (runner_on 1 runners)) [
        | inl nobody ↦ rw (on1, push_chain, nobody) first
        | inr (r2, on2) ↦
            let second = runners_of-move_first r2.key RunnerOutcome.to_3rd _ ∙ first in
            elim (Option-cases (runner_on 2 runners)) [
              | inl nobody ↦ rw (on1, push_chain, on2, nobody) second
              | inr (r3, on3) ↦
                  rw (on1, push_chain, on2, on3)
                    (runners_of-move_first r3.key RunnerOutcome.score _ ∙ second)
            ]
      ]
]
