-- ===== src/Sync/Messages.antt =====
-- Messages and responses: `handleMessage` and the end of `processHttpQueue` of
-- frontend/services/syncManager.js, `handleSyncConflict` of frontend/controllers/AppController.js.
use skorekeeper.Common.{
  ℕ, suc, String, Bool, true, false, ◌&&◌, ◌||◌, not, List, [], ◌∷◌, ◌++◌, Option, none, some, elem,
  str_eq, ◌==◌, if◌then◌else◌,
}
use skorekeeper.Game.{Action}
use skorekeeper.Sync.States.{
  connecting, synced, conflict, error, Msg, ErrorText, login_required, throttled, other, ServerMsg,
  Response, remote, marked_clean, told_error, auth_check, conflict_modal, timer_set, Request, Http,
  App, Sync,
}
use skorekeeper.Sync.Queue.{
  note, set_status, disconnect, handle_fetch_error, stop_draining, process_http_queue, delete_id,
  resolve_fast_forward,
}

-- `log.slice(baseIndex + 1)` at the first action with the id: none if the log has no such action.
unfoldable pub actions_after : String → List Action → Option (List Action)
actions_after base [] = none
actions_after base (a ∷ log) = if str_eq a.id base then some log else actions_after base log

abbrev pub log_of : App → List Action
log_of app = elim app.active_game [ none ↦ [] | some (id, log) ↦ log ]

-- What is to be replayed on a revision; none where the log does not have it.
unfoldable pub to_replay : String → List Action → Option (List Action)
unfolding actions_after
to_replay base log =
    if str_eq base ""
    then elim log [ [] ↦ none | a ∷ rest ↦ some (a ∷ rest) ]
    else actions_after base log

abbrev pub is_blocked : App → Bool
is_blocked app = app.block_conflicts || app.has_pending_conflict || app.is_resolving_conflict

abbrev pub start_resolving : Sync → Sync
start_resolving s = record s {
  app = record s.app { is_resolving_conflict = true };
  is_paused = true;
}

-- The replay: the queue is paused, and a timer is set that resumes it.
abbrev pub fast_forward : String → List Action → Sync → Sync
fast_forward base actions s = note timer_set (resolve_fast_forward base actions (start_resolving s))

abbrev pub answer_conflict : String → Option (List Action) → Sync → Sync
answer_conflict base none s =
    note conflict_modal (record s { app = record s.app { has_pending_conflict = true } })
answer_conflict base (some []) s = set_status synced (record s { last_revision = base })
answer_conflict base (some (a ∷ actions)) s = fast_forward base (a ∷ actions) s

unfoldable pub handle_sync_conflict : String → Sync → Sync
unfolding resolve_fast_forward to_replay
handle_sync_conflict base s =
    if is_blocked s.app then s else answer_conflict base (to_replay base (log_of s.app)) s

abbrev pub has_pending : Sync → Bool
has_pending s = elim s.pending_action_ids [ [] ↦ false | _ ∷ _ ↦ true ]

-- Without pending actions, the game is in step with the server.
abbrev pub settle_status : Sync → Sync
settle_status s = if has_pending s then s else note (marked_clean s.game_id) (set_status synced s)

abbrev pub follow : String → Sync → Sync
follow id s = if str_eq id "" || has_pending s then s else record s { last_revision = id }

-- A broadcast action: the echo of a pending one, or one of another client.
unfoldable pub receive : Action → Sync → Sync
receive a s =
    if not (str_eq a.id "") && elem a.id s.pending_action_ids
    then settle_status
        (follow a.id (record s { pending_action_ids = delete_id a.id s.pending_action_ids }))
    else settle_status (note (remote a) (follow a.id s))

-- One action of a catch-up.
abbrev pub catch_up : Action → Sync → Sync
catch_up a s =
    if str_eq a.id ""
    then note (remote a) s
    else note (remote a)
        (follow a.id (record s { pending_action_ids = delete_id a.id s.pending_action_ids }))

unfoldable pub catch_up_all : List Action → Sync → Sync
catch_up_all [] s = s
catch_up_all (a ∷ actions) s = catch_up_all actions (catch_up a s)

abbrev pub stop_syncing : Sync → Sync
stop_syncing s = record s { is_syncing_history = false }

unfoldable pub handle_error : ErrorText → Sync → Sync
unfolding disconnect
handle_error login_required s = note auth_check (set_status error s)
handle_error throttled s = note timer_set (set_status connecting s)
handle_error other s = note timer_set (disconnect false (note told_error (set_status error s)))

unfoldable pub handle_message : ServerMsg → Sync → Sync
unfolding receive catch_up_all handle_sync_conflict handle_error process_http_queue
handle_message ServerMsg.ack s = process_http_queue (settle_status (stop_syncing s))
handle_message ServerMsg.pong s = s
handle_message (ServerMsg.remote_action none) s = s
handle_message (ServerMsg.remote_action (some a)) s = if s.is_listening then receive a s else s
handle_message (ServerMsg.sync_update none) s = s
handle_message (ServerMsg.sync_update (some actions)) s =
    if s.is_listening
    then process_http_queue (set_status synced (stop_syncing (catch_up_all actions s)))
    else s
handle_message (ServerMsg.conflict_at base) s =
    if s.is_listening
    then handle_sync_conflict base (set_status conflict (stop_syncing s))
    else set_status conflict (stop_syncing s)
handle_message (ServerMsg.failure text) s = handle_error text (stop_syncing s)
handle_message ServerMsg.unknown_message s = s

abbrev pub has_queue : Sync → Bool
has_queue s = elim s.http.queue [ [] ↦ false | _ ∷ _ ↦ true ]

-- The `finally` block of a request: one of an older generation leaves the lock as it is.
abbrev pub unlock : Sync → Sync
unlock s = record s { http = stop_draining s.http }

abbrev pub drain_on : Bool → Sync → Sync
drain_on true s = process_http_queue s
drain_on false s = s

unfoldable pub finish : ℕ → Bool → Sync → Sync
unfolding process_http_queue
finish generation continue_draining s =
    if s.http.generation == generation
    then drain_on (continue_draining && s.app.is_online && has_queue s) (unlock s)
    else s

abbrev pub reset_retries : Sync → Sync
reset_retries s = record s { http = record s.http { retry_count = 0 } }

-- The batch goes back to the front of the queue.
abbrev pub put_back : List Msg → Http → Http
put_back batch h = record h { queue = batch ++ h.queue; is_draining = false }

abbrev pub returned : Request → Sync → Sync
returned r s = record s { http = put_back r.batch s.http }

abbrev pub count_retry : Sync → Sync
count_retry s = record s { http = record s.http { retry_count = suc s.http.retry_count } }

unfoldable pub settle_response : Request → Response → Sync → Sync
unfolding handle_message finish disconnect handle_fetch_error
settle_response r (Response.success m) s =
    finish r.generation true (reset_retries (handle_message m s))
settle_response r Response.busy s = finish r.generation false (note timer_set (returned r s))
settle_response r (Response.rejected m) s =
    finish r.generation true (reset_retries (handle_message m s))
settle_response r Response.denied s =
    finish r.generation true
      (reset_retries (disconnect true (handle_message (ServerMsg.failure login_required) s)))
settle_response r (Response.failed is_network_or_server) s =
    finish r.generation false
      (note timer_set (count_retry (returned r (handle_fetch_error is_network_or_server s))))

-- The request is over; that of an older generation is dropped.
abbrev pub answered : Sync → Sync
answered s = record s { http = record s.http { in_flight = none } }

unfoldable pub http_response : Response → Sync → Sync
unfolding settle_response
http_response response s = elim s.http.in_flight [
  | none ↦ s
  | some r ↦
      if s.http.generation == r.generation
      then settle_response r response (answered s)
      else answered s
]
