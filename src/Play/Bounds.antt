-- ===== src/Play/Bounds.antt =====
-- Out numbers after `applyPlayResult` of frontend/reducer.js.
use skorekeeper.Common.{
  ℕ, ◌+◌, ◌≤◌, String, List, [], ◌∷◌, some, insert, lookup, ◌≡◌, refl, inl, inr, arith,
  Option-cases, Bool-cases, AllValues-lookup,
}
use skorekeeper.Game.{
  is_runner_out, BipState, BipBase, Event, State, Runner, PlayPayload, event_key,
}
use skorekeeper.Outs.{inning_col_ids, calculate_inning_outs_exclude}
use skorekeeper.Outs.Counted.{IsCounted, AllCounted, AllCounted-insert}
use skorekeeper.Runners.{Outs, runners_out, next_out_num}
use skorekeeper.Runners.Bounds.{
  out_num-credit_rbi, Fits, one_out, next_out_num-le, take_out_start-Fits, runners_out-cons,
  set_out_num-IsCounted,
}
use skorekeeper.Play.{
  batter_out_num, mark_batter, mark_safe, mark_out, credit_home_run, total_outs, play_event,
  play_sequencing, play_out_start, play_runner_event, play_runner, play_runners, apply_play_result,
  play_events, batter_before,
}

module _ (p : PlayPayload) (col_ids : List String) where
  IsCounted-play_runner_event :
      (r : Runner) (o : Outs) (ev : Event) (n : ℕ)
      → Fits o (one_out r + n)
      → IsCounted ev
      → IsCounted (play_runner_event p col_ids r o ev)
  unfolding play_runner_event
  IsCounted-play_runner_event r o ev n h c = elim (Bool-cases (is_runner_out r.outcome)) [
    | inl out ↦
        let room : Fits o 1 = ground arith in
        rw (out_num-credit_rbi, out)
          (set_out_num-IsCounted
            (next_out_num (play_sequencing p.bip_state) (some (p.active_team, col_ids)) r.key o) _
            (λ k e.
              next_out_num-le (play_sequencing p.bip_state) (some (p.active_team, col_ids)) r.key o
                room e)
            c)
    | inr other ↦ rw (out_num-credit_rbi, other) c
  ]

  play_runner-Fits :
      (o : Outs) (r : Runner) (n : ℕ)
      → Fits o (one_out r + n)
      → AllCounted o.events
      → Fits (play_runner p col_ids o r) n × AllCounted (play_runner p col_ids o r).events
  unfolding play_runner
  play_runner-Fits o r n h c = elim (Option-cases (lookup r.key o.events)) [
    | inl missing ↦ rw (missing, play_runner) (ground arith, c)
    | inr (ev, found) ↦
        let events = insert r.key (play_runner_event p col_ids r o ev) o.events in
        rw (found, play_runner)
          (
            ground (arith, take_out_start-Fits (play_sequencing p.bip_state) o n events),
            AllCounted-insert r.key (play_runner_event p col_ids r o ev) o.events c (
                IsCounted-play_runner_event r o ev n h
                  (AllValues-lookup IsCounted r.key o.events c found)),
          )
  ]

  AllCounted-play_runners :
      (o : Outs) (runners : List Runner)
      → Fits o (runners_out runners)
      → AllCounted o.events
      → AllCounted (play_runners p col_ids o runners).events
  unfolding play_runners
  AllCounted-play_runners o [] h c = c
  AllCounted-play_runners o (r ∷ runners) h c =
      let (fits, counted) =
        play_runner-Fits o r (runners_out runners) (rw runners_out-cons at h) c in
      AllCounted-play_runners (play_runner p col_ids o r) runners fits counted

batter_out_num-le : (bip : BipState) (n t : ℕ) → batter_out_num bip n t ≤ 3
unfolding batter_out_num
batter_out_num-le bip n t = ground arith

out_num-mark_safe : (base : BipBase) (ev : Event) → (mark_safe base ev).out_num ≡ ev.out_num
out_num-mark_safe BipBase.base_1b ev = refl
out_num-mark_safe _ ev = refl

out_num-mark_out : (base : BipBase) (ev : Event) → (mark_out base ev).out_num ≡ ev.out_num
out_num-mark_out BipBase.base_1b ev = refl
out_num-mark_out _ ev = refl

out_num-mark_batter : (bip : BipState) (ev : Event) → (mark_batter bip ev).out_num ≡ ev.out_num
unfolding mark_batter
out_num-mark_batter bip ev =
    ground (arith, out_num-mark_safe bip.base ev, out_num-mark_out bip.base ev)

pub out_num-play_event :
    (p : PlayPayload) (n : ℕ) (ev : Event)
    → (play_event p n ev).out_num ≡ batter_out_num p.bip_state n (total_outs p)
unfolding play_event credit_home_run
out_num-play_event p n ev = rw (out_num-credit_rbi, out_num-mark_batter)

play_out_start-Fits :
    (p : PlayPayload) (n : ℕ) (events : List (String × Event))
    → n ≤ 3
    → Fits
        (record { events = events; out_start = play_out_start p n })
        (runners_out p.runner_advancements)
unfolding play_out_start
play_out_start-Fits p n events h = ground arith

AllCounted-play_events :
    (s : State) (p : PlayPayload) → AllCounted s.events → AllCounted (play_events s p)
unfolding play_events
AllCounted-play_events s p c =
    let key = event_key p.active_team p.active_ctx.b p.active_ctx.col in
    let col_ids = inning_col_ids p.active_ctx.i s.columns in
    let inning_outs = calculate_inning_outs_exclude s.events p.active_team col_ids key in
    let event = play_event p inning_outs (batter_before s p) in
    let few : event.out_num ≤ 3 = rw out_num-play_event (batter_out_num-le p.bip_state _ _) in
    AllCounted-play_runners p col_ids
      (record { events = insert key event s.events; out_start = play_out_start p event.out_num })
      p.runner_advancements (play_out_start-Fits p event.out_num (insert key event s.events) few)
      (AllCounted-insert key event s.events c few)

-- A ball in play keeps every out number at most 3, also where the runners put out with the batter
-- take numbers before his.
pub AllCounted-apply_play_result :
    (s : State) (p : PlayPayload) → AllCounted s.events → AllCounted (apply_play_result s p).events
unfolding apply_play_result
AllCounted-apply_play_result s p c = AllCounted-play_events s p c
