-- ===== src/Sync/Acks.antt =====
-- A server that acknowledges gets all actions in their order (frontend/services/syncManager.js).
use skorekeeper.Common.{
  ℕ, zero, suc, ◌+◌, ◌*◌, ◌≤◌, true, false, ◌&&◌, List, [], ◌∷◌, ◌++◌, none, some, drop, length,
  str_eq, ◌==◌, if◌then◌else◌, ◌≡◌, refl, sym, ap, subst, ◌∙◌, arith, Bool-cases, inl, inr,
}
use skorekeeper.Sync.{
  Status, Effect, Msg, Request, Response, ServerMsg, Http, Sync, take, known_game_id, max_batch,
  http_response, settle_response, finish, settle_status, handle_message, stop_syncing, answered,
  reset_retries, note, set_status, marked_clean, drain_on, has_queue, unlock, has_pending,
  SyncEvent, step, run_events, post_batch,
}
use skorekeeper.Sync.Delivery.{take-drop, posts_lem, current_response, posted_request}
use skorekeeper.Sync.Stuck.{process_http_queue-locked}
use mathlib.Core.List.{append_assoc, append-nil}

length-drop_bound {ℓ} :
    {A : Type ℓ} (k n : ℕ) (xs : List A) → length xs ≤ k + n → length (drop k xs) ≤ n
length-drop_bound zero n xs h = omega arith
length-drop_bound (suc k) n [] h = omega arith
length-drop_bound (suc k) n (x ∷ xs) h = length-drop_bound k n xs (omega arith)

-- All messages of the requests, in their order.
abbrev pub sent : List Request → List Msg
sent [] = []
sent (r ∷ rs) = r.batch ++ sent rs

-- A request of the current generation is awaited, with all that it takes to go on after it.
abbrev pub IsDelivering : Request → Sync → Type 0
IsDelivering r s =
    (s.app.is_online ≡ true)
    × (s.is_connected ≡ true)
    × (str_eq s.game_id "" ≡ false)
    × (s.http.is_draining ≡ true)
    × (s.http.in_flight ≡ some r)
    × ((s.http.generation == r.generation) ≡ true)

-- Nothing waits, and nothing is awaited.
abbrev pub IsIdle : Http → Type 0
IsIdle h = (h.queue ≡ []) × (h.is_draining ≡ false) × (h.in_flight ≡ none)

abbrev acknowledged : Status → List Effect → Sync → Sync
acknowledged status effects s = record s {
  is_syncing_history = false;
  current_status = status;
  effects = effects;
  http = record s.http { in_flight = none; retry_count = 0; is_draining = false };
}

settle_status_lem :
    (s : Sync)
    → (status : Status) × (effects : List Effect) × (settle_status s
        ≡ record s { current_status = status; effects = effects })
settle_status_lem s = elim (Bool-cases (has_pending s)) [
  | inl pending ↦ (
    s.current_status,
    s.effects,
    ap (λ b. if b then s else note (marked_clean s.game_id) (set_status Status.synced s)) pending,
  )
  | inr settled ↦ (
    Status.synced,
    s.effects ++ marked_clean s.game_id ∷ [],
    ap (λ b. if b then s else note (marked_clean s.game_id) (set_status Status.synced s)) settled,
  )
]

http_response-ack :
    (r : Request) (s : Sync)
    → IsDelivering r s
    → (status : Status) × (effects : List Effect) × (http_response
          (Response.success ServerMsg.ack)
          s
        ≡ drain_on (has_queue s) (acknowledged status effects s))
unfolding settle_response handle_message finish
http_response-ack r s (online, linked, known, draining, awaited, current) =
    let u = stop_syncing (answered s) in
    let (status, effects, settled) = settle_status_lem u in
    let v = reset_retries (record u { current_status = status; effects = effects }) in
    (
      status,
      effects,
      current_response (Response.success ServerMsg.ack) r s awaited current
          ∙ ap (λ x. finish r.generation true (reset_retries x))
              (process_http_queue-locked (settle_status u)
                (ap (λ x. x.http.is_draining) settled ∙ draining))
          ∙ ap (λ x. finish r.generation true (reset_retries x)) settled
          ∙ ap (λ b. if b then drain_on (v.app.is_online && has_queue v) (unlock v) else v) current
          ∙ ap (λ b. drain_on (b && has_queue s) (unlock v)) online,
    )

-- The state after an acknowledgement, with the rest of the queue.
ack-last :
    (r : Request) (s : Sync)
    → IsDelivering r s
    → s.http.queue ≡ []
    → let t = http_response (Response.success ServerMsg.ack) s in
      IsIdle t.http × (t.http.posted ≡ s.http.posted)
ack-last r s h empty =
    let (status, effects, e) = http_response-ack r s h in
    let same =
      ap (λ x. x.http) e
      ∙ ap
          (λ q.
            (drain_on (elim q [ [] ↦ false | _ ∷ _ ↦ true ]) (acknowledged status effects s)).http)
          empty in
    (
      (ap (λ x. x.queue) same ∙ empty, ap (λ x. x.is_draining) same, ap (λ x. x.in_flight) same),
      ap (λ x. x.posted) same,
    )

ack-next :
    (r : Request) (s : Sync) (m : Msg) (ms : List Msg)
    → IsDelivering r s
    → s.http.queue ≡ m ∷ ms
    → (status : Status) × (effects : List Effect) × let t = acknowledged status effects s in
        http_response (Response.success ServerMsg.ack) s
        ≡ record t { game_id = known_game_id t; http = post_batch t.http }
ack-next r s m ms h queue =
    let (status, effects, e) = http_response-ack r s h in
    let t = acknowledged status effects s in
    (
      status,
      effects,
      e
          ∙ ap (λ q. drain_on (elim q [ [] ↦ false | _ ∷ _ ↦ true ]) t) queue
          ∙ posts_lem t m ms (ground (arith, h)) (ground (arith, h)) queue (omega arith),
    )

sent-append : (rs : List Request) (r : Request) → sent (rs ++ r ∷ []) ≡ sent rs ++ r.batch
sent-append [] r = append-nil r.batch
sent-append (x ∷ rs) r =
    ap (x.batch ++◌) (sent-append rs r) ∙ sym (append_assoc x.batch (sent rs) r.batch)

-- The server acknowledges request after request.
abbrev pub acks : ℕ → List SyncEvent
acks zero = []
acks (suc n) = SyncEvent.responds (Response.success ServerMsg.ack) ∷ acks n

acks_when_idle : (n : ℕ) (s : Sync) → s.http.in_flight ≡ none → run_events (acks n) s ≡ s
unfolding run_events step http_response
acks_when_idle zero s h = refl
acks_when_idle (suc n) s h =
    let ack = Response.success ServerMsg.ack in
    ap
      (λ o. run_events (acks n) (elim o [
        | none ↦ s
        | some r ↦
            if s.http.generation == r.generation
            then settle_response r ack (answered s)
            else answered s
      ]))
      h
    ∙ acks_when_idle n s h

abbrev IsDelivered : ℕ → Sync → Type 0
IsDelivered n s =
    let t = run_events (acks n) s in
    IsIdle t.http × (sent t.http.posted ≡ sent s.http.posted ++ s.http.queue)

IsDelivered-last :
    (n : ℕ) (r : Request) (s : Sync) → IsDelivering r s → s.http.queue ≡ [] → IsDelivered (suc n) s
unfolding run_events step
IsDelivered-last n r s h empty =
    let (idle, same) = ack-last r s h empty in
    subst (λ x. IsIdle x.http × (sent x.http.posted ≡ sent s.http.posted ++ s.http.queue))
      (sym (acks_when_idle n (http_response (Response.success ServerMsg.ack) s) idle.2))
      (
        idle,
        ap sent same
            ∙ sym (append-nil (sent s.http.posted))
            ∙ ap (sent s.http.posted ++◌) (sym empty),
      )

-- What is posted after an acknowledgement joins on.
sent-next :
    (posted : List Request) (r : Request) (q : List Msg)
    → r.batch ≡ take max_batch q
    → sent (posted ++ r ∷ []) ++ drop max_batch q ≡ sent posted ++ q
sent-next posted r q h =
    ap (λ x. x ++ drop max_batch q) (sent-append posted r)
    ∙ append_assoc (sent posted) r.batch (drop max_batch q)
    ∙ ap (λ x. sent posted ++ (x ++ drop max_batch q)) h
    ∙ ap (sent posted ++◌) (take-drop max_batch q)

IsDelivered-queue :
    (n : ℕ) (q : List Msg) (r : Request) (s : Sync)
    → IsDelivering r s
    → s.http.queue ≡ q
    → length q ≤ n * max_batch
    → IsDelivered (suc n) s
unfolding run_events step
IsDelivered-queue n [] r s h queue bound = IsDelivered-last n r s h queue
IsDelivered-queue zero (m ∷ ms) r s h queue bound = ground (arith, bound)
IsDelivered-queue (suc n) (m ∷ ms) r s h queue bound =
    let (status, effects, e) = ack-next r s m ms h queue in
    let t = acknowledged status effects s in
    let next = record t { game_id = known_game_id t; http = post_batch t.http } in
    let kept : known_game_id t ≡ s.game_id = ground (arith, h) in
    let (idle, same) =
      IsDelivered-queue n (drop max_batch (m ∷ ms)) (posted_request t.http) next
        (h.0, h.1, ap (λ x. str_eq x "") kept ∙ h.2, refl, refl, ground arith)
        (ap (drop max_batch) queue)
        (length-drop_bound max_batch (n * max_batch) (m ∷ ms) (omega arith)) in
    subst
      (λ x.
        IsIdle (run_events (acks (suc n)) x).http
        × (sent (run_events (acks (suc n)) x).http.posted ≡ sent s.http.posted ++ s.http.queue))
      (sym e) (idle, same ∙ sent-next s.http.posted (posted_request t.http) s.http.queue refl)

-- If a request is awaited, online, with the socket open and the game known, and every request is
-- acknowledged, then after one more response than there are batches of 100 actions in the queue, the queue is empty, the
-- lock released and no request awaited, and the queue has been posted whole and in its order.
pub run_events-acks :
    (n : ℕ) (r : Request) (s : Sync)
    → IsDelivering r s
    → length s.http.queue ≤ n * max_batch
    → let t = run_events (acks (suc n)) s in
      IsIdle t.http × (sent t.http.posted ≡ sent s.http.posted ++ s.http.queue)
run_events-acks n r s h bound = IsDelivered-queue n s.http.queue r s h refl bound
