-- ===== src/Sync/Single.antt =====
-- One request at a time: the lock of the HTTP queue and the size of the batches
-- (`processHttpQueue` of frontend/services/syncManager.js).
use skorekeeper.Common.{
  ℕ, zero, suc, ◌≤◌, Bool, true, false, ◌&&◌, List, [], ◌∷◌, none, All, All-append, length, str_eq,
  ltb, ◌==◌, ◌≡◌, refl, sym, ap, subst, ◌∙◌, ◌⊎◌, inl, inr, arith, Bool-cases, Option-cases,
}
use skorekeeper.Sync.{
  Msg, Request, Response, ServerMsg, Http, Sync, take, known_game_id, is_held, max_batch,
  max_retries, drain, disconnect, process_http_queue, http_response, settle_response, finish,
  reset_retries, handle_message, handle_fetch_error, note, timer_set, login_required, has_queue,
  unlock, drain_on, returned, count_retry, answered, post_or_give_up, drain_queue, SyncEvent, step,
  run_events,
}
use skorekeeper.Sync.Steps.{step-kept}
use skorekeeper.Sync.Stuck.{IsLocked, handle_message-IsLocked}

-- The batch of a request is within the limit of the server.
abbrev pub IsBatch : Request → Type 0
IsBatch r = length r.batch ≤ max_batch

-- A request is awaited only while the lock is held, and all batches are within the limit.
abbrev pub IsSingle : Http → Type 0
IsSingle h = ((h.in_flight ≡ none) ⊎ (h.is_draining ≡ true)) × All IsBatch h.posted

length-take {ℓ} : {A : Type ℓ} (n : ℕ) (xs : List A) → length (take n xs) ≤ n
length-take zero xs = omega arith
length-take (suc n) [] = omega arith
length-take (suc n) (x ∷ xs) = omega (arith, length-take n xs)

post_or_give_up-IsSingle :
    (b : Bool) (s : Sync) → All IsBatch s.http.posted → IsSingle (post_or_give_up b s).http
unfolding disconnect
post_or_give_up-IsSingle true s bounded = (inr refl, bounded)
post_or_give_up-IsSingle false s bounded =
    (inr refl, All-append IsBatch s.http.posted _ bounded (length-take max_batch s.http.queue, tt))

drain_queue-IsSingle :
    (q : List Msg) (s : Sync)
    → s.http.in_flight ≡ none
    → All IsBatch s.http.posted
    → IsSingle (drain_queue q s).http
drain_queue-IsSingle [] s free bounded = (inl free, bounded)
drain_queue-IsSingle (_ ∷ _) s free bounded =
    post_or_give_up-IsSingle (ltb max_retries s.http.retry_count) s bounded

free_of_lock : (h : Http) → IsSingle h → h.is_draining ≡ false → h.in_flight ≡ none
free_of_lock h single off = ground (arith, single.0)

processed-IsSingle : (s : Sync) → IsSingle s.http → IsSingle (process_http_queue s).http
unfolding process_http_queue drain
processed-IsSingle s h = elim (Bool-cases (is_held s)) [
  | inl held ↦ rw (held, process_http_queue) h
  | inr free ↦
      let none_awaited = free_of_lock s.http h (ground arith) in
      elim (Bool-cases (str_eq (known_game_id s) "")) [
        | inl unknown ↦ rw (free, process_http_queue, unknown) (inl none_awaited, h.1)
        | inr known ↦
            rw (free, process_http_queue, known)
              (drain_queue-IsSingle s.http.queue (record s { game_id = known_game_id s })
                none_awaited h.1)
      ]
]

drain_on-IsSingle : (b : Bool) (s : Sync) → IsSingle s.http → IsSingle (drain_on b s).http
drain_on-IsSingle true s h = processed-IsSingle s h
drain_on-IsSingle false s h = h

finish-IsSingle :
    (generation : ℕ) (b : Bool) (s : Sync)
    → s.http.in_flight ≡ none
    → All IsBatch s.http.posted
    → IsSingle (finish generation b s).http
unfolding finish
finish-IsSingle generation b s free bounded = elim (Bool-cases (s.http.generation == generation)) [
  | inl same ↦
      rw (same, finish)
        (drain_on-IsSingle (b && s.app.is_online && has_queue s) (unlock s) (inl free, bounded))
  | inr older ↦ rw (older, finish) (inl free, bounded)
]

http-handle_fetch_error : (b : Bool) (s : Sync) → (handle_fetch_error b s).http ≡ s.http
unfolding handle_fetch_error
http-handle_fetch_error true s = refl
http-handle_fetch_error false s = refl

settle_response-IsSingle :
    (r : Request) (response : Response) (s : Sync)
    → IsLocked s.http.posted s.http
    → All IsBatch s.http.posted
    → IsSingle (settle_response r response s).http
unfolding settle_response disconnect
settle_response-IsSingle r (Response.success m) s h bounded =
    let (_, free, same) = handle_message-IsLocked s.http.posted m s h in
    finish-IsSingle r.generation true (reset_retries (handle_message m s)) free
      (subst (All IsBatch) (sym same) bounded)
settle_response-IsSingle r Response.busy s h bounded =
    finish-IsSingle r.generation false (note timer_set (returned r s)) h.1 bounded
settle_response-IsSingle r (Response.rejected m) s h bounded =
    let (_, free, same) = handle_message-IsLocked s.http.posted m s h in
    finish-IsSingle r.generation true (reset_retries (handle_message m s)) free
      (subst (All IsBatch) (sym same) bounded)
settle_response-IsSingle r Response.denied s h bounded =
    let (_, free, same) =
      handle_message-IsLocked s.http.posted (ServerMsg.failure login_required) s h in
    finish-IsSingle r.generation true
      (reset_retries (disconnect true (handle_message (ServerMsg.failure login_required) s))) free
      (subst (All IsBatch) (sym same) bounded)
settle_response-IsSingle r (Response.failed b) s h bounded =
    let same = http-handle_fetch_error b s in
    finish-IsSingle r.generation false
      (note timer_set (count_retry (returned r (handle_fetch_error b s))))
      (ap (λ t. t.in_flight) same ∙ h.1)
      (subst (All IsBatch) (sym (ap (λ t. t.posted) same)) bounded)

http_response-IsSingle :
    (response : Response) (s : Sync) → IsSingle s.http → IsSingle (http_response response s).http
unfolding http_response
http_response-IsSingle response s h = elim (Option-cases s.http.in_flight) [
  | inl free ↦ rw (free, http_response) h
  | inr (r, awaited) ↦ elim (Bool-cases (s.http.generation == r.generation)) [
    | inl current ↦
        let locked : s.http.is_draining ≡ true = ground (arith, h.0) in
        rw (awaited, http_response, current)
          (settle_response-IsSingle r response (answered s) (locked, refl, refl) h.1)
    | inr older ↦ rw (awaited, http_response, older) (inl refl, h.1)
  ]
]

step-IsSingle : (e : SyncEvent) (s : Sync) → IsSingle s.http → IsSingle (step e s).http
step-IsSingle e s h =
    step-kept IsSingle processed-IsSingle (λ m h k. k) (λ h k. k) e s
      (λ r. http_response-IsSingle r s h) h

-- If a request is awaited only while the lock is held, and no posted batch has more than 100
-- actions, the same holds after any events.
pub run_events-IsSingle :
    (es : List SyncEvent) (s : Sync) → IsSingle s.http → IsSingle (run_events es s).http
unfolding run_events
run_events-IsSingle [] s h = h
run_events-IsSingle (e ∷ es) s h = run_events-IsSingle es (step e s) (step-IsSingle e s h)
