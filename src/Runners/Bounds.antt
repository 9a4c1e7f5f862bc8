-- ===== src/Runners/Bounds.antt =====
-- Out numbers after `applyRunnerAdvance` and `applyRunnerBatchUpdate` of frontend/reducer.js.
use skorekeeper.Common.{
  ℕ, suc, ◌+◌, ◌≤◌, min, String, Bool, false, ◌&&◌, List, [], ◌∷◌, Option, none, some, Dict, lookup,
  insert, ltb, if◌then◌else◌, ◌≡◌, refl, ◌⊎◌, inl, inr, arith, Option-cases, Bool-cases,
  AllValues-lookup,
}
use skorekeeper.Common.Int.{ℤ}
use skorekeeper.Game.{
  Team, RunnerOutcome, OutSequencing, is_runner_out, is_runners_first, Event, State, Runner,
  AdvancePayload, BatchUpdate, BatchPayload,
}
use skorekeeper.Outs.Counted.{IsCounted, AllCounted, AllCounted-insert}
use skorekeeper.Runners.{
  credit_rbi, Outs, runners_out, next_out_num, take_out_start, advance_event, advance_runner,
  advance_runners, shift_batter, apply_runner_advance, update_event, run_updates,
  apply_runner_batch_update, set_out_num, advance_info, batter_key_of, active_cols,
  outs_before_batch, event_or_blank,
}

pub out_num-credit_rbi :
    (eligible : Bool) (id : String) (outcome : RunnerOutcome) (ev : Event)
    → (credit_rbi eligible id outcome ev).out_num ≡ ev.out_num
unfolding credit_rbi
out_num-credit_rbi eligible id RunnerOutcome.score ev = ground arith
out_num-credit_rbi eligible id _ ev = refl

-- The numbers set aside for `n` runners still to be put out stay within 3.
abbrev pub Fits : Outs → ℕ → Type 0
Fits o n = (o.out_start ≡ 0) ⊎ (o.out_start + n ≤ 4)

abbrev pub one_out : Runner → ℕ
one_out r = if is_runner_out r.outcome then 1 else 0

pub next_out_num-le :
    (sequencing : OutSequencing) (active : Option (Team × List String)) (key : String) (o : Outs)
    {n : ℕ}
    → Fits o 1
    → next_out_num sequencing active key o ≡ some n
    → n ≤ 3
unfolding next_out_num
next_out_num-le sequencing active key o h e = ground arith

pub take_out_start-Fits :
    (sequencing : OutSequencing) (o : Outs) (n : ℕ) (events : Dict Event)
    → Fits o (suc n)
    → Fits (record { events = events; out_start = take_out_start sequencing o }) n
unfolding take_out_start
take_out_start-Fits sequencing o n events h = ground arith

pub runners_out-cons :
    (r : Runner) (rs : List Runner) → runners_out (r ∷ rs) ≡ one_out r + runners_out rs
unfolding runners_out
runners_out-cons r rs = ground arith

pub set_out_num-IsCounted :
    (o : Option ℕ) (ev : Event)
    → ((n : ℕ) → o ≡ some n → n ≤ 3)
    → IsCounted ev
    → IsCounted (set_out_num o ev)
set_out_num-IsCounted none ev h c = c
set_out_num-IsCounted (some n) ev h c = h n refl

out_num-advance_info :
    (outcome : RunnerOutcome) (base : ℤ) (ev : Event)
    → (advance_info outcome base ev).out_num ≡ ev.out_num
out_num-advance_info RunnerOutcome.out base ev = refl
out_num-advance_info _ base ev = refl

module _ (id : String) (eligible : Bool) (sequencing : OutSequencing)
    (active : Option (Team × List String)) where
  IsCounted-advance_event :
      (r : Runner) (o : Outs) (ev : Event) (n : ℕ)
      → Fits o (one_out r + n)
      → IsCounted ev
      → IsCounted (advance_event id eligible sequencing active r o ev)
  unfolding advance_event
  IsCounted-advance_event r o ev n h c = elim (Bool-cases (is_runner_out r.outcome)) [
    | inl out ↦
        let room : Fits o 1 = ground arith in
        rw (out_num-credit_rbi, out)
          (set_out_num-IsCounted (next_out_num sequencing active r.key o) _
            (λ k e. next_out_num-le sequencing active r.key o room e) (rw out_num-advance_info c))
    | inr other ↦ rw (out_num-credit_rbi, other, out_num-advance_info) c
  ]

  advance_runner-Fits :
      (o : Outs) (r : Runner) (n : ℕ)
      → Fits o (one_out r + n)
      → AllCounted o.events
      → Fits (advance_runner id eligible sequencing active o r) n
        × AllCounted (advance_runner id eligible sequencing active o r).events
  unfolding advance_runner
  advance_runner-Fits o r n h c = elim (Option-cases (lookup r.key o.events)) [
    | inl missing ↦ rw (missing, advance_runner) (ground arith, c)
    | inr (ev, found) ↦
        rw (found, advance_runner)
          (
            ground (
              arith,
              take_out_start-Fits sequencing o n
                  (insert r.key (advance_event id eligible sequencing active r o ev) o.events),
            ),
            AllCounted-insert r.key (advance_event id eligible sequencing active r o ev) o.events c
                (IsCounted-advance_event r o ev n h
                  (AllValues-lookup IsCounted r.key o.events c found)),
          )
  ]

  pub AllCounted-advance_runners :
      (o : Outs) (runners : List Runner)
      → Fits o (runners_out runners)
      → AllCounted o.events
      → AllCounted (advance_runners id eligible sequencing active o runners).events
  unfolding advance_runners
  AllCounted-advance_runners o [] h c = c
  AllCounted-advance_runners o (r ∷ runners) h c =
      let (fits, counted) =
        advance_runner-Fits o r (runners_out runners) (rw runners_out-cons at h) c in
      AllCounted-advance_runners (advance_runner id eligible sequencing active o r) runners fits
        counted

-- The batter's out number where the runners' outs come first.
abbrev pub batter_outs : Option String → Dict Event → ℕ
batter_outs none events = 0
batter_outs (some key) events = elim (lookup key events) [ none ↦ 0 | some ev ↦ ev.out_num ]

shift_batter-Fits :
    (p : AdvancePayload) (key : Option String) (events : Dict Event)
    → (is_runners_first p.out_sequencing ≡ false)
      ⊎ (batter_outs key events + runners_out p.runners ≤ 4)
    → AllCounted events
    → Fits (shift_batter p key events) (runners_out p.runners)
      × AllCounted (shift_batter p key events).events
unfolding shift_batter
shift_batter-Fits p none events h c = (inl refl, c)
shift_batter-Fits p (some key) events h c = elim (Option-cases (lookup key events)) [
  | inl missing ↦ rw (missing, shift_batter) (inl refl, c)
  | inr (ev, found) ↦
      let kept =
        AllCounted-insert key (record ev { out_num = min 3 (ev.out_num + runners_out p.runners) })
          events c (omega arith) in
      let room : (is_runners_first p.out_sequencing ≡ false)
          ⊎ (ev.out_num + runners_out p.runners ≤ 4) =
        rw (found, batter_outs) at h in
      elim (Bool-cases
        (is_runners_first p.out_sequencing && ltb 0 ev.out_num && ltb 0 (runners_out p.runners))) [
          | inl first ↦ rw (found, shift_batter, first) (ground arith, kept)
          | inr other ↦ rw (found, shift_batter, other) (inl refl, c)
        ]
]

-- A runner advance keeps every out number at most 3, if the runners' outs do not come first, or if
-- the batter's out number and the runners put out are 4 together at most.
pub AllCounted-apply_runner_advance :
    (s : State) (p : AdvancePayload)
    → (is_runners_first p.out_sequencing ≡ false)
      ⊎ (batter_outs (batter_key_of p.active) s.events + runners_out p.runners ≤ 4)
    → AllCounted s.events
    → AllCounted (apply_runner_advance s p).events
unfolding apply_runner_advance
AllCounted-apply_runner_advance s p h c =
    let (fits, counted) = shift_batter-Fits p (batter_key_of p.active) s.events h c in
    AllCounted-advance_runners p.batter_id p.rbi_eligible p.out_sequencing (active_cols s p.active)
      (shift_batter p (batter_key_of p.active) s.events) p.runners fits counted

update_event-IsCounted :
    (outs : ℕ) (u : BatchUpdate) (ev : Event) → IsCounted ev → IsCounted (update_event outs u ev).1
unfolding update_event
update_event-IsCounted outs u ev c = ground arith

IsCounted-event_or_blank :
    (key id : String) (events : Dict Event)
    → AllCounted events
    → IsCounted (event_or_blank id (lookup key events))
IsCounted-event_or_blank key id events c = elim (Option-cases (lookup key events)) [
  | inl missing ↦ rw missing (omega arith)
  | inr (ev, found) ↦ rw found (AllValues-lookup IsCounted key events c found)
]

AllCounted-run_updates :
    (id : String) (outs : ℕ) (events : Dict Event) (us : List BatchUpdate)
    → AllCounted events
    → AllCounted (run_updates id outs events us)
unfolding run_updates
AllCounted-run_updates id outs events [] c = c
AllCounted-run_updates id outs events (u ∷ us) c =
    let step = update_event outs u (event_or_blank id (lookup u.key events)) in
    AllCounted-run_updates id step.0 (insert u.key step.1 events) us (
      AllCounted-insert u.key step.1 events c (
        update_event-IsCounted outs u (event_or_blank id (lookup u.key events))
          (IsCounted-event_or_blank u.key id events c)))

-- A batch of runner actions keeps every out number at most 3.
pub AllCounted-apply_runner_batch_update :
    (s : State) (p : BatchPayload)
    → AllCounted s.events
    → AllCounted (apply_runner_batch_update s p).events
unfolding apply_runner_batch_update
AllCounted-apply_runner_batch_update s p c =
    AllCounted-run_updates p.batter_id (outs_before_batch p s) s.events p.updates c
