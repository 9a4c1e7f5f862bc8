-- ===== src/Sync/Queue.antt =====
-- The HTTP action queue: `processHttpQueue` up to its request, `enqueueHttp`, `sendAction` and
-- `resolveFastForward` of frontend/services/syncManager.js.
use skorekeeper.Common.{
  ℕ, zero, suc, ◌+◌, String, Bool, true, false, ◌&&◌, ◌||◌, not, List, [], ◌∷◌, ◌++◌, none, some,
  drop, filter, elem, str_eq, ltb, if◌then◌else◌,
}
use skorekeeper.Game.{Action}
use skorekeeper.Sync.States.{Status, disconnected, Msg, Effect, Request, Http, Sync}

abbrev pub take {ℓ} : {A : Type ℓ} → ℕ → List A → List A
take zero xs = []
take (suc n) [] = []
take (suc n) (x ∷ xs) = x ∷ take n xs

abbrev pub note : Effect → Sync → Sync
note e s = record s { effects = s.effects ++ e ∷ [] }

-- `setStatus`; the listener only shows it.
abbrev pub set_status : Status → Sync → Sync
set_status status s = record s { current_status = status }

-- `disconnect`; closing the socket and the timers have no other trace in the state.
unfoldable pub disconnect : Bool → Sync → Sync
disconnect stop_retrying s = record s {
  should_reconnect = s.should_reconnect && not stop_retrying;
  is_connected = false;
  has_socket = false;
}

-- `handleFetchError`, by whether the error is one of the network or the server.
unfoldable pub handle_fetch_error : Bool → Sync → Sync
handle_fetch_error is_network_or_server s =
    if is_network_or_server
    then record s { is_server_unreachable = true; current_status = disconnected }
    else s

-- `this.gameId`, or the id of the game on show.
abbrev pub known_game_id : Sync → String
known_game_id s =
    if str_eq s.game_id ""
    then elim s.app.active_game [ none ↦ "" | some (id, log) ↦ id ]
    else s.game_id

abbrev pub stop_draining : Http → Http
stop_draining h = record h { is_draining = false }

abbrev pub max_batch : ℕ
max_batch = 100

abbrev pub max_retries : ℕ
max_retries = 5

-- The batch is taken out of the queue and sent off.
abbrev pub post_batch : Http → Http
post_batch h =
    let request : Request = record { generation = h.generation; batch = take max_batch h.queue } in
    record h {
      queue = drop max_batch h.queue;
      is_draining = true;
      in_flight = some request;
      posted = h.posted ++ request ∷ [];
    }

-- With too many retries behind it, the batch is taken out all the same, and nothing is sent.
abbrev pub give_up : Http → Http
give_up h = record h { queue = drop max_batch h.queue; is_draining = true }

abbrev pub post_or_give_up : Bool → Sync → Sync
post_or_give_up true s = disconnect true (record s { http = give_up s.http })
post_or_give_up false s = record s { http = post_batch s.http }

abbrev pub drain_queue : List Msg → Sync → Sync
drain_queue [] s = record s { http = stop_draining s.http }
drain_queue (_ ∷ _) s = post_or_give_up (ltb max_retries s.http.retry_count) s

-- What becomes of the queue, for a known game.
unfoldable pub drain : Sync → Sync
unfolding disconnect
drain s = drain_queue s.http.queue s

-- `!isOnline || isSyncingHistory || isHttpDraining || !isConnected`
abbrev pub is_held : Sync → Bool
is_held s = not s.app.is_online || s.is_syncing_history || s.http.is_draining || not s.is_connected

-- `processHttpQueue`, up to the request.
unfoldable pub process_http_queue : Sync → Sync
unfolding drain
process_http_queue s =
    let id = known_game_id s in
    if is_held s
    then s
    else if str_eq id ""
    then record s { game_id = id; http = stop_draining s.http }
    else drain (record s { game_id = id })

abbrev pub push_http : Msg → Http → Http
push_http m h = record h { queue = h.queue ++ m ∷ [] }

abbrev pub push_msg : Msg → Sync → Sync
push_msg m s = record s { http = push_http m s.http }

unfoldable pub enqueue_http : Msg → Sync → Sync
unfolding process_http_queue
enqueue_http m s = process_http_queue (push_msg m s)

abbrev pub add_id : String → List String → List String
add_id id ids = if elem id ids then ids else ids ++ id ∷ []

abbrev pub delete_id : String → List String → List String
delete_id id ids = filter (λ x. not (str_eq x id)) ids

-- The action becomes pending, if it has an id.
abbrev pub track : Action → Sync → Sync
track a s =
    if str_eq a.id "" then s else record s { pending_action_ids = add_id a.id s.pending_action_ids }

-- The revision after an action on a revision.
abbrev pub next_revision : String → Action → String
next_revision base a = if str_eq a.id "" then base else a.id

abbrev pub msg_on : String → Action → Msg
msg_on base a = record { action = a; base_revision = base }

-- The action becomes the last revision.
abbrev pub advance_head : Action → Sync → Sync
advance_head a s = record (track a s) { last_revision = next_revision s.last_revision a }

unfoldable pub send_action : Action → Sync → Sync
unfolding enqueue_http
send_action a s = enqueue_http (msg_on s.last_revision a) (advance_head a s)

-- The loop of `resolveFastForward`, with `currentBase`.
unfoldable pub replay_from : String → List Action → Sync → Sync
unfolding enqueue_http
replay_from base [] s = record s { last_revision = base }
replay_from base (a ∷ actions) s =
    replay_from (next_revision base a) actions (enqueue_http (msg_on base a) (track a s))

-- The pending queue is cleared, and requests that are awaited are of an older generation.
abbrev pub clear_http : Http → Http
clear_http h = record h { queue = []; generation = h.generation + 1 }

abbrev pub clear_queue : Sync → Sync
clear_queue s = record s { http = clear_http s.http }

unfoldable pub resolve_fast_forward : String → List Action → Sync → Sync
unfolding replay_from
resolve_fast_forward head actions s = replay_from head actions (clear_queue s)
