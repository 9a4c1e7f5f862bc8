-- ===== src/Sync/Socket.antt =====
-- The socket of `SyncManager` (frontend/services/syncManager.js): connecting, its events and the
-- retries; and the steps of the manager as a whole.
use skorekeeper.Common.{
  ℕ, suc, String, Bool, true, false, ◌&&◌, not, List, [], ◌∷◌, ◌++◌, Option, none, some, str_eq,
  leb, if◌then◌else◌,
}
use skorekeeper.Common.Text.{starts_with}
use skorekeeper.Game.{Action}
use skorekeeper.Sync.States.{
  disconnected, connecting, connected, error, offline, ServerMsg, Response, WsMsg, join, ws_sent,
  told_error, timer_set, App, Sync,
}
use skorekeeper.Sync.Queue.{
  note, set_status, disconnect, process_http_queue, send_action, resolve_fast_forward,
}
use skorekeeper.Sync.Messages.{handle_message, http_response}

abbrev is_shown_demo : String → App → Bool
is_shown_demo id app = elim app.active_game [
  | none ↦ false
  | some (shown, log) ↦ str_eq shown id && starts_with id "demo-"
]

abbrev or_kept : Option String → String → String
or_kept none kept = kept
or_kept (some revision) kept = revision

-- A revision of `none` keeps the last one.
unfoldable pub connect : String → Option String → Sync → Sync
unfolding disconnect
connect id initial_revision s =
    if is_shown_demo id s.app
    then set_status offline s
    else if s.has_socket && str_eq s.game_id id && s.is_connected
    then s
    else (let closed = disconnect false s in
        record closed {
          should_reconnect = true;
          game_id = id;
          last_revision = or_kept initial_revision s.last_revision;
          current_status = connecting;
          has_socket = true;
        })

-- `send`, with the socket open whenever the manager is connected.
unfoldable pub send : WsMsg → Sync → Sync
send m s =
    if s.is_connected && s.has_socket
    then note (ws_sent m) s
    else record s { ws_queue = s.ws_queue ++ m ∷ [] }

unfoldable pub send_all : List WsMsg → Sync → Sync
unfolding send
send_all [] s = s
send_all (m ∷ ms) s = send_all ms (send m s)

-- The messages that waited are sent in their order.
abbrev pub flush_queue : Sync → Sync
flush_queue s =
    if s.is_connected && s.has_socket then send_all s.ws_queue (record s { ws_queue = [] }) else s

-- The revision before the actions that wait in the HTTP queue, if any do.
unfoldable pub effective_revision : Sync → String
effective_revision s = elim s.http.queue [
  | [] ↦ s.last_revision
  | m ∷ _ ↦ if str_eq m.base_revision "" then s.last_revision else m.base_revision
]

abbrev pub opened : Sync → Sync
opened s = record s {
  is_connected = true;
  current_status = connected;
  reconnect_attempts = 0;
  is_syncing_history = true;
}

abbrev pub open_socket : Sync → Sync
open_socket s = flush_queue (opened s)

unfoldable pub on_open : Sync → Sync
unfolding send_all process_http_queue send
on_open s = send (join (effective_revision (open_socket s))) (process_http_queue (open_socket s))

abbrev pub max_reconnect_attempts : ℕ
max_reconnect_attempts = 10

abbrev pub schedule_reconnect : Sync → Sync
schedule_reconnect s =
    if leb max_reconnect_attempts s.reconnect_attempts
    then note told_error (set_status error s)
    else note timer_set s

unfoldable pub on_close : Sync → Sync
on_close s =
    let closed = record s {
      is_connected = false;
      has_socket = false;
      current_status = disconnected;
    } in
    if s.should_reconnect then schedule_reconnect closed else closed

abbrev pub try_again : Sync → Sync
try_again s = if s.should_reconnect && not s.is_connected then connect s.game_id none s else s

unfoldable pub on_online : Sync → Sync
unfolding connect process_http_queue
on_online s = process_http_queue (try_again (record s { is_server_unreachable = false }))

-- What can happen to the manager. A timer may fire at any time.
pub data SyncEvent : Type 0 where
  sends : Action → SyncEvent
  connects : String → Option String → SyncEvent
  disconnects : Bool → SyncEvent
  opens closes fails : SyncEvent
  receives : ServerMsg → SyncEvent
  responds : Response → SyncEvent
  comes_online goes_offline : SyncEvent
  pauses resumes : SyncEvent
  queue_timer reconnect_timer rejoin_timer recheck_timer resolved_timer : SyncEvent
  fast_forwards : String → List Action → SyncEvent

-- The timer of the conflict handler: the conflict is resolved, and the queue resumes.
abbrev pub resolved : Sync → Sync
resolved s = record s { app = record s.app { is_resolving_conflict = false }; is_paused = false }

unfoldable pub step : SyncEvent → Sync → Sync
unfolding send_action connect disconnect on_open on_close handle_message http_response on_online
    process_http_queue send resolve_fast_forward
step (sends a) s = send_action a s
step (connects id revision) s = connect id revision s
step (disconnects stop_retrying) s = disconnect stop_retrying s
step opens s = on_open s
step closes s = on_close s
step fails s = set_status error s
step (receives m) s = handle_message m s
step (responds r) s = http_response r s
step comes_online s = on_online (record s { app = record s.app { is_online = true } })
step goes_offline s = record s { app = record s.app { is_online = false } }
step pauses s = record s { is_paused = true }
step resumes s = process_http_queue (record s { is_paused = false })
step queue_timer s = process_http_queue s
step reconnect_timer s =
    connect s.game_id none (record s { reconnect_attempts = suc s.reconnect_attempts })
step rejoin_timer s = send (join s.last_revision) s
step recheck_timer s = connect s.game_id (some s.last_revision) (disconnect false s)
step resolved_timer s = process_http_queue (resolved s)
step (fast_forwards head actions) s = resolve_fast_forward head actions s

unfoldable pub run_events : List SyncEvent → Sync → Sync
unfolding step
run_events [] s = s
run_events (e ∷ es) s = run_events es (step e s)
