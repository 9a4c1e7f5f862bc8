-- ===== src/Sync/Delivery.antt =====
-- A failed request puts its batch back (frontend/services/syncManager.js).
use skorekeeper.Common.{
  ℕ, zero, suc, ◌≤◌, Bool, true, false, List, [], ◌∷◌, ◌++◌, none, some, drop, str_eq, ltb, ◌==◌,
  if◌then◌else◌, ◌≡◌, refl, ap, ◌∙◌, arith,
}
use skorekeeper.Sync.{
  Msg, Request, Response, Http, Sync, take, known_game_id, is_held, max_batch, max_retries,
  process_http_queue, http_response, settle_response, finish, drain, answered, stop_draining,
  drain_queue, post_or_give_up, handle_fetch_error, post_batch,
}

pub take-drop {ℓ} : {A : Type ℓ} (n : ℕ) (xs : List A) → take n xs ++ drop n xs ≡ xs
take-drop zero xs = refl
take-drop (suc n) [] = refl
take-drop (suc n) (x ∷ xs) = ap (x ∷◌) (take-drop n xs)

pub posts_lem :
    (s : Sync) (m : Msg) (ms : List Msg)
    → is_held s ≡ false
    → str_eq (known_game_id s) "" ≡ false
    → s.http.queue ≡ m ∷ ms
    → s.http.retry_count ≤ max_retries
    → process_http_queue s ≡ record s { game_id = known_game_id s; http = post_batch s.http }
unfolding process_http_queue drain
posts_lem s m ms free known queue retries =
    let t = record s { game_id = known_game_id s } in
    ap
      (λ b.
        if b
        then s
        else if str_eq (known_game_id s) ""
        then record t { http = stop_draining t.http }
        else drain t)
      free
    ∙ ap (λ b. if b then record t { http = stop_draining t.http } else drain t) known
    ∙ ap (λ q. drain_queue q t) queue
    ∙ ap (λ b. post_or_give_up b t) (retries_left retries)
  where
    retries_left : s.http.retry_count ≤ max_retries → ltb max_retries s.http.retry_count ≡ false
    retries_left h = ground arith

pub current_response :
    (response : Response) (r : Request) (s : Sync)
    → s.http.in_flight ≡ some r
    → (s.http.generation == r.generation) ≡ true
    → http_response response s ≡ settle_response r response (answered s)
unfolding http_response
current_response response r s awaited current = rw (awaited, http_response, current) refl

settle_failed :
    (b : Bool) (r : Request) (s : Sync)
    → (s.http.generation == r.generation) ≡ true
    → (settle_response r (Response.failed b) s).http ≡ record s.http {
      queue = r.batch ++ s.http.queue;
      is_draining = false;
      retry_count = suc s.http.retry_count;
    }
unfolding settle_response finish handle_fetch_error
settle_failed true r s current = rw (current, finish) refl
settle_failed false r s current = rw (current, finish) refl

abbrev pub posted_request : Http → Request
posted_request h = record { generation = h.generation; batch = take max_batch h.queue }

-- If a batch is posted and the request fails, the queue is as before, the lock is released and no request
-- is awaited.
pub failed-process_http_queue :
    (s : Sync) (m : Msg) (ms : List Msg) (b : Bool)
    → is_held s ≡ false
    → str_eq (known_game_id s) "" ≡ false
    → s.http.queue ≡ m ∷ ms
    → s.http.retry_count ≤ max_retries
    → let t = http_response (Response.failed b) (process_http_queue s) in
      (t.http.queue ≡ s.http.queue) × (t.http.is_draining ≡ false) × (t.http.in_flight ≡ none)
failed-process_http_queue s m ms b free known queue retries =
    let u = record s { game_id = known_game_id s; http = post_batch s.http } in
    let r = posted_request s.http in
    let same =
      ap (λ x. (http_response (Response.failed b) x).http)
        (posts_lem s m ms free known queue retries)
      ∙ ap (λ x. x.http) (current_response (Response.failed b) r u refl (ground arith))
      ∙ settle_failed b r (answered u) (ground arith) in
    (
      ap (λ h. h.queue) same ∙ take-drop max_batch s.http.queue,
      ap (λ h. h.is_draining) same,
      ap (λ h. h.in_flight) same,
    )
