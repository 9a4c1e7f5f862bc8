-- ===== src/Sync/Steps.antt =====
-- What the steps of the manager (frontend/services/syncManager.js) keep of its HTTP queue: each
-- changes the queue only through a few operations.
use skorekeeper.Common.{
  suc, String, Bool, true, false, List, [], ◌∷◌, Option, none, some, if◌then◌else◌, ◌≡◌, refl, sym,
  subst, ◌∙◌, arith, Bool-cases, inl, inr,
}
use skorekeeper.Game.{Action}
use skorekeeper.Sync.{
  Msg, ServerMsg, Response, Http, Sync, Status, set_status, disconnect, process_http_queue,
  enqueue_http, track, next_revision, send_action, replay_from, resolve_fast_forward,
  handle_sync_conflict, answer_conflict, to_replay, log_of, is_blocked, receive, settle_status,
  catch_up, catch_up_all, handle_error, handle_message, http_response, stop_syncing, connect, send,
  send_all, flush_queue, on_open, on_close, on_online, effective_revision, SyncEvent, step, WsMsg,
  ErrorText, push_msg, push_http, clear_http, msg_on, advance_head, clear_queue, start_resolving,
  opened, open_socket, try_again, resolved,
}

pub http-track : (a : Action) (s : Sync) → (track a s).http ≡ s.http
http-track a s = ground arith

http-receive : (a : Action) (s : Sync) → (receive a s).http ≡ s.http
unfolding receive
http-receive a s = ground arith

http-catch_up : (a : Action) (s : Sync) → (catch_up a s).http ≡ s.http
http-catch_up a s = ground arith

http-catch_up_all : (actions : List Action) (s : Sync) → (catch_up_all actions s).http ≡ s.http
unfolding catch_up_all
http-catch_up_all [] s = refl
http-catch_up_all (a ∷ actions) s = http-catch_up_all actions (catch_up a s) ∙ http-catch_up a s

http-settle_status : (s : Sync) → (settle_status s).http ≡ s.http
http-settle_status s = ground arith

http-handle_error : (text : ErrorText) (s : Sync) → (handle_error text s).http ≡ s.http
unfolding handle_error disconnect
http-handle_error ErrorText.login_required s = refl
http-handle_error ErrorText.throttled s = refl
http-handle_error ErrorText.other s = refl

http-connect : (id : String) (o : Option String) (s : Sync) → (connect id o s).http ≡ s.http
unfolding connect disconnect
http-connect id o s = ground arith

http-send : (m : WsMsg) (s : Sync) → (send m s).http ≡ s.http
unfolding send
http-send m s = ground arith

http-send_all : (ms : List WsMsg) (s : Sync) → (send_all ms s).http ≡ s.http
unfolding send_all
http-send_all [] s = refl
http-send_all (m ∷ ms) s = http-send_all ms (send m s) ∙ http-send m s

http-flush_queue : (s : Sync) → (flush_queue s).http ≡ s.http
http-flush_queue s = ground (arith, http-send_all s.ws_queue (record s { ws_queue = [] }))

http-on_close : (s : Sync) → (on_close s).http ≡ s.http
unfolding on_close
http-on_close s = ground arith

http-open_socket : (s : Sync) → (open_socket s).http ≡ s.http
http-open_socket s = http-flush_queue (opened s)

http-try_again : (s : Sync) → (try_again s).http ≡ s.http
http-try_again s = ground (arith, http-connect s.game_id none s)

-- A property of the queue that processing, a push and a clear keep.
module _ (P : Http → Type 0) (processed : (s : Sync) → P s.http → P (process_http_queue s).http)
    (pushed : (m : Msg) (h : Http) → P h → P (push_http m h))
    (cleared : (h : Http) → P h → P (clear_http h)) where
  kept-enqueue_http : (m : Msg) (s : Sync) → P s.http → P (enqueue_http m s).http
  unfolding enqueue_http
  kept-enqueue_http m s h = processed (push_msg m s) (pushed m s.http h)

  kept-send_action : (a : Action) (s : Sync) → P s.http → P (send_action a s).http
  unfolding send_action
  kept-send_action a s h =
      kept-enqueue_http (msg_on s.last_revision a) (advance_head a s)
        (subst P (sym (http-track a s)) h)

  pub kept-replay_from :
      (base : String) (actions : List Action) (s : Sync)
      → P s.http
      → P (replay_from base actions s).http
  unfolding replay_from
  kept-replay_from base [] s h = h
  kept-replay_from base (a ∷ actions) s h =
      kept-replay_from (next_revision base a) actions (enqueue_http (msg_on base a) (track a s))
        (kept-enqueue_http (msg_on base a) (track a s) (subst P (sym (http-track a s)) h))

  kept-resolve_fast_forward :
      (head : String) (actions : List Action) (s : Sync)
      → P s.http
      → P (resolve_fast_forward head actions s).http
  unfolding resolve_fast_forward
  kept-resolve_fast_forward head actions s h =
      kept-replay_from head actions (clear_queue s) (cleared s.http h)

  kept-handle_sync_conflict :
      (base : String) (s : Sync) → P s.http → P (handle_sync_conflict base s).http
  unfolding handle_sync_conflict
  kept-handle_sync_conflict base s h = elim (Bool-cases (is_blocked s.app)) [
    | inl blocked ↦ rw (blocked, handle_sync_conflict) h
    | inr free ↦ rw (free, handle_sync_conflict) (answer (to_replay base (log_of s.app)))
  ]
    where
      answer : (o : Option (List Action)) → P (answer_conflict base o s).http
      answer none = h
      answer (some []) = h
      answer (some (a ∷ actions)) =
          kept-resolve_fast_forward base (a ∷ actions) (start_resolving s) h

  kept-same : (s t : Sync) → t.http ≡ s.http → P s.http → P t.http
  kept-same s t e h = subst P (sym e) h

  kept-if : (b : Bool) (s t : Sync) → P s.http → P t.http → P (if b then s else t).http
  kept-if true s t h k = h
  kept-if false s t h k = k

  pub kept-handle_message : (m : ServerMsg) (s : Sync) → P s.http → P (handle_message m s).http
  unfolding handle_message
  kept-handle_message ServerMsg.ack s h =
      processed (settle_status (stop_syncing s))
        (kept-same s (settle_status (stop_syncing s)) (http-settle_status (stop_syncing s)) h)
  kept-handle_message ServerMsg.pong s h = h
  kept-handle_message (ServerMsg.remote_action none) s h = h
  kept-handle_message (ServerMsg.remote_action (some a)) s h =
      kept-if s.is_listening (receive a s) s (kept-same s (receive a s) (http-receive a s) h) h
  kept-handle_message (ServerMsg.sync_update none) s h = h
  kept-handle_message (ServerMsg.sync_update (some actions)) s h =
      let caught = set_status Status.synced (stop_syncing (catch_up_all actions s)) in
      kept-if s.is_listening (process_http_queue caught) s
        (processed caught (kept-same s caught (http-catch_up_all actions s) h)) h
  kept-handle_message (ServerMsg.conflict_at base) s h =
      let seen = set_status Status.conflict (stop_syncing s) in
      kept-if s.is_listening (handle_sync_conflict base seen) seen
        (kept-handle_sync_conflict base seen h) h
  kept-handle_message (ServerMsg.failure text) s h =
      kept-same s (handle_error text (stop_syncing s)) (http-handle_error text (stop_syncing s)) h
  kept-handle_message ServerMsg.unknown_message s h = h

  kept-on_open : (s : Sync) → P s.http → P (on_open s).http
  unfolding on_open
  kept-on_open s h =
      let done = process_http_queue (open_socket s) in
      let m = WsMsg.join (effective_revision (open_socket s)) in
      kept-same done (send m done) (http-send m done)
        (processed (open_socket s) (kept-same s (open_socket s) (http-open_socket s) h))

  kept-on_online : (s : Sync) → P s.http → P (on_online s).http
  unfolding on_online
  kept-on_online s h =
      let reachable = record s { is_server_unreachable = false } in
      processed (try_again reachable)
        (kept-same s (try_again reachable) (http-try_again reachable) h)

  -- Every step keeps the property, if a response does.
  pub step-kept :
      (e : SyncEvent) (s : Sync)
      → ((r : Response) → P (http_response r s).http)
      → P s.http
      → P (step e s).http
  unfolding step disconnect
  step-kept (SyncEvent.sends a) s responded h = kept-send_action a s h
  step-kept (SyncEvent.connects id o) s responded h =
      kept-same s (connect id o s) (http-connect id o s) h
  step-kept (SyncEvent.disconnects b) s responded h = h
  step-kept SyncEvent.opens s responded h = kept-on_open s h
  step-kept SyncEvent.closes s responded h = kept-same s (on_close s) (http-on_close s) h
  step-kept SyncEvent.fails s responded h = h
  step-kept (SyncEvent.receives m) s responded h = kept-handle_message m s h
  step-kept (SyncEvent.responds r) s responded h = responded r
  step-kept SyncEvent.comes_online s responded h =
      kept-on_online (record s { app = record s.app { is_online = true } }) h
  step-kept SyncEvent.goes_offline s responded h = h
  step-kept SyncEvent.pauses s responded h = h
  step-kept SyncEvent.resumes s responded h = processed (record s { is_paused = false }) h
  step-kept SyncEvent.queue_timer s responded h = processed s h
  step-kept SyncEvent.reconnect_timer s responded h =
      let t = record s { reconnect_attempts = suc s.reconnect_attempts } in
      kept-same t (connect s.game_id none t) (http-connect s.game_id none t) h
  step-kept SyncEvent.rejoin_timer s responded h =
      kept-same s (send (WsMsg.join s.last_revision) s) (http-send (WsMsg.join s.last_revision) s) h
  step-kept SyncEvent.recheck_timer s responded h =
      kept-same s (connect s.game_id (some s.last_revision) (disconnect false s))
        (http-connect s.game_id (some s.last_revision) (disconnect false s)) h
  step-kept SyncEvent.resolved_timer s responded h = processed (resolved s) h
  step-kept (SyncEvent.fast_forwards head actions) s responded h =
      kept-resolve_fast_forward head actions s h
