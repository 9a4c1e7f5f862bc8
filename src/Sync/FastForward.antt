-- ===== src/Sync/FastForward.antt =====
-- `resolveFastForward` of frontend/services/syncManager.js while a request is awaited: the queue that
-- it builds, and the lock that nothing releases afterwards.
use skorekeeper.Common.{
  ℕ, suc, ◌<◌, String, Bool, true, false, List, [], ◌∷◌, ◌++◌, map, none, some, drop, str_eq, ltb,
  ◌==◌, if◌then◌else◌, ◌≡◌, refl, sym, ap, subst, ◌∙◌, arith,
}
use mathlib.Core.List.{append_assoc, append-nil}
use skorekeeper.Game.{Action}
use skorekeeper.Sync.{
  Msg, Request, Response, ServerMsg, Http, Sync, track, next_revision, msg_on, push_msg,
  enqueue_http, replay_from, resolve_fast_forward, clear_queue, clear_http, known_game_id, is_held,
  max_batch, max_retries, drain, process_http_queue, disconnect, http_response, settle_response,
  answered, finish, reset_retries, handle_message, handle_sync_conflict, answer_conflict,
  is_blocked, to_replay, log_of, set_status, conflict, stop_syncing, start_resolving,
}
use skorekeeper.Sync.Steps.{http-track}
use skorekeeper.Sync.Stuck.{IsLocked, process_http_queue-locked}

-- The messages are made one on the other, from the base on to the last revision.
abbrev pub IsChain : String → List Msg → String → Type 0
IsChain base [] final = base ≡ final
IsChain base (m ∷ ms) final =
    (m.base_revision ≡ base) × IsChain (next_revision base m.action) ms final

abbrev replayed : String → List Action → List Msg
replayed base [] = []
replayed base (a ∷ actions) = msg_on base a ∷ replayed (next_revision base a) actions

abbrev final_revision : String → List Action → String
final_revision base [] = base
final_revision base (a ∷ actions) = final_revision (next_revision base a) actions

IsChain-replayed :
    (base : String) (actions : List Action)
    → IsChain base (replayed base actions) (final_revision base actions)
IsChain-replayed base [] = refl
IsChain-replayed base (a ∷ actions) = (refl, IsChain-replayed (next_revision base a) actions)

actions-replayed :
    (base : String) (actions : List Action) → map (λ m. m.action) (replayed base actions) ≡ actions
actions-replayed base [] = refl
actions-replayed base (a ∷ actions) = ap (a ∷◌) (actions-replayed (next_revision base a) actions)

enqueue_http-locked :
    (m : Msg) (s : Sync) → s.http.is_draining ≡ true → enqueue_http m s ≡ push_msg m s
unfolding enqueue_http
enqueue_http-locked m s h = process_http_queue-locked (push_msg m s) h

track-locked :
    (a : Action) (s : Sync) → s.http.is_draining ≡ true → (track a s).http.is_draining ≡ true
track-locked a s h = ap (λ t. t.is_draining) (http-track a s) ∙ h

abbrev extended : List Msg → Http → Http
extended ms h = record h { queue = h.queue ++ ms }

http-replay_from :
    (base : String) (actions : List Action) (s : Sync)
    → s.http.is_draining ≡ true
    → (replay_from base actions s).http ≡ extended (replayed base actions) s.http
unfolding replay_from
http-replay_from base [] s h = ap (λ q. record s.http { queue = q }) (sym (append-nil s.http.queue))
http-replay_from base (a ∷ actions) s h =
    let m = msg_on base a in
    let t = track a s in
    let rest = replayed (next_revision base a) actions in
    ap (λ x. (replay_from (next_revision base a) actions x).http)
      (enqueue_http-locked m t (track-locked a s h))
    ∙ http-replay_from (next_revision base a) actions (push_msg m t) (track-locked a s h)
    ∙ ap (λ x. extended rest (extended (m ∷ []) x)) (http-track a s)
    ∙ ap (λ q. record s.http { queue = q }) (append_assoc s.http.queue (m ∷ []) rest)

last_revision-replay_from :
    (base : String) (actions : List Action) (s : Sync)
    → (replay_from base actions s).last_revision ≡ final_revision base actions
unfolding replay_from
last_revision-replay_from base [] s = refl
last_revision-replay_from base (a ∷ actions) s =
    last_revision-replay_from (next_revision base a) actions
      (enqueue_http (msg_on base a) (track a s))

http-resolve_fast_forward :
    (head : String) (actions : List Action) (s : Sync)
    → s.http.is_draining ≡ true
    → (resolve_fast_forward head actions s).http
      ≡ extended (replayed head actions) (clear_http s.http)
unfolding resolve_fast_forward
http-resolve_fast_forward head actions s h = http-replay_from head actions (clear_queue s) h

-- While the lock is held, a fast-forward replaces the queue by the actions, the first one made on
-- the revision of the server, each other one on the action before it, and the last one leads to the last revision. The
-- generation goes up, and nothing is posted.
pub resolve_fast_forward_lem :
    (head : String) (actions : List Action) (s : Sync)
    → s.http.is_draining ≡ true
    → let t = resolve_fast_forward head actions s in
      (map (λ m. m.action) t.http.queue ≡ actions)
      × IsChain head t.http.queue t.last_revision
      × (t.http.generation ≡ suc s.http.generation)
      × (t.http.posted ≡ s.http.posted)
unfolding resolve_fast_forward
resolve_fast_forward_lem head actions s h =
    let same = http-resolve_fast_forward head actions s h in
    (
      ap (λ t. map (λ m. m.action) t.queue) same ∙ actions-replayed head actions,
      subst (λ q. IsChain head q (resolve_fast_forward head actions s).last_revision)
          (sym (ap (λ t. t.queue) same))
          (subst (IsChain head (replayed head actions))
            (sym (last_revision-replay_from head actions (clear_queue s)))
            (IsChain-replayed head actions)),
      ap (λ t. t.generation) same ∙ omega arith,
      ap (λ t. t.posted) same,
    )

stale_response :
    (response : Response) (r : Request) (s : Sync)
    → s.http.in_flight ≡ some r
    → (s.http.generation == r.generation) ≡ false
    → http_response response s ≡ answered s
unfolding http_response
stale_response response r s awaited older = rw (awaited, http_response, older) refl

stale_finish :
    (generation : ℕ) (b : Bool) (s : Sync)
    → (s.http.generation == generation) ≡ false
    → finish generation b s ≡ s
unfolding finish
stale_finish generation b s older = rw (older, finish) refl

http-fast_forward_conflict :
    (base : String) (a : Action) (actions : List Action) (s : Sync)
    → s.http.is_draining ≡ true
    → s.is_listening ≡ true
    → is_blocked s.app ≡ false
    → to_replay base (log_of s.app) ≡ some (a ∷ actions)
    → (handle_message (ServerMsg.conflict_at base) s).http
      ≡ extended (replayed base (a ∷ actions)) (clear_http s.http)
unfolding handle_message handle_sync_conflict
http-fast_forward_conflict base a actions s draining listening free replay =
    let seen = set_status conflict (stop_syncing s) in
    ap (λ b. (if b then handle_sync_conflict base seen else seen).http) listening
    ∙ ap (λ b. (if b then seen else answer_conflict base (to_replay base (log_of s.app)) seen).http)
        free
    ∙ ap (λ o. (answer_conflict base o seen).http) replay
    ∙ http-resolve_fast_forward base (a ∷ actions) (start_resolving seen) draining

-- If a fast-forward comes while the request of the current generation is awaited, the response to that request
-- leaves the queue locked with no request awaited, and posts nothing.
pub late_response-IsLocked :
    (head : String) (actions : List Action) (response : Response) (r : Request) (s : Sync)
    → s.http.is_draining ≡ true
    → s.http.in_flight ≡ some r
    → r.generation ≡ s.http.generation
    → IsLocked s.http.posted (http_response response (resolve_fast_forward head actions s)).http
late_response-IsLocked head actions response r s draining awaited current =
    let t = resolve_fast_forward head actions s in
    let same = http-resolve_fast_forward head actions s draining in
    rw
      (stale_response response r t (ap (λ h. h.in_flight) same ∙ awaited)
        (ap (λ h. h.generation == r.generation) same ∙ ground arith))
      (subst (λ h. IsLocked s.http.posted (record h { in_flight = none })) (sym same)
        (draining, refl, refl))

-- If a request of the current generation is rejected with a conflict that the application answers by a fast-forward, the
-- queue stays locked with no request awaited, and nothing further is posted.
pub rejected-IsLocked :
    (base : String) (a : Action) (actions : List Action) (r : Request) (s : Sync)
    → s.http.is_draining ≡ true
    → s.http.in_flight ≡ some r
    → r.generation ≡ s.http.generation
    → s.is_listening ≡ true
    → is_blocked s.app ≡ false
    → to_replay base (log_of s.app) ≡ some (a ∷ actions)
    → IsLocked s.http.posted (http_response (Response.rejected (ServerMsg.conflict_at base)) s).http
unfolding http_response settle_response
rejected-IsLocked base a actions r s draining awaited current listening free replay =
    let t = handle_message (ServerMsg.conflict_at base) (answered s) in
    let same =
      http-fast_forward_conflict base a actions (answered s) draining listening free replay in
    let here : (s.http.generation == r.generation) ≡ true = ground arith in
    rw
      (
        awaited,
        http_response,
        here,
        stale_finish r.generation true (reset_retries t)
            (ap (λ h. h.generation == r.generation) same ∙ ground arith),
      )
      (subst (λ h. IsLocked s.http.posted (record h { retry_count = 0 })) (sym same)
        (draining, refl, refl))

-- If the queue is processed with more than 5 retries behind it, no request awaited, and messages in it, the first 100 are
-- taken out, none of them is posted, and the queue stays locked.
pub process_http_queue-give_up :
    (s : Sync) (m : Msg) (ms : List Msg)
    → is_held s ≡ false
    → str_eq (known_game_id s) "" ≡ false
    → s.http.queue ≡ m ∷ ms
    → max_retries < s.http.retry_count
    → s.http.in_flight ≡ none
    → IsLocked s.http.posted (process_http_queue s).http
      × ((process_http_queue s).http.queue ≡ drop max_batch (m ∷ ms))
unfolding process_http_queue drain disconnect
process_http_queue-give_up s m ms free known queue retries none_awaited =
    let over : ltb max_retries s.http.retry_count ≡ true = ground arith in
    rw (free, process_http_queue, known, queue, over) ((refl, none_awaited, refl), refl)
