-- ===== src/Examples/Queues.antt =====
-- The HTTP queue of the synchronisation with a few actions in it.
use skorekeeper.Common.{arith, true, false, [], ◌∷◌, some, none, ◌≡◌, refl, inl}
use skorekeeper.Sync.{
  Sync, Http, Msg, Request, Response, ServerMsg, start_sync, start_http, start_app, msg_on,
  run_events, SyncEvent, http_response, process_http_queue, to_replay, actions_after,
}
use skorekeeper.Sync.Stuck.{IsLocked, run_events-IsLocked}
use skorekeeper.Sync.Single.{IsSingle, run_events-IsSingle}
use skorekeeper.Sync.FastForward.{rejected-IsLocked}
use skorekeeper.Sync.Delivery.{failed-process_http_queue}
use skorekeeper.Sync.Acks.{IsIdle, sent, acks, run_events-acks}
use skorekeeper.Examples.Data.{add_inning, new_pitcher}

abbrev first_msg : Msg
first_msg = msg_on "a0" add_inning

abbrev second_msg : Msg
second_msg = msg_on "a1" new_pitcher

-- Online, with the socket open.
abbrev linked : Http → Sync
linked http = record start_sync {
  has_socket = true;
  is_connected = true;
  game_id = "g";
  http = http;
  app = record start_app { active_game = some ("g", add_inning ∷ new_pitcher ∷ []) };
}

abbrev first_request : Request
first_request = record { generation = 0; batch = first_msg ∷ [] }

abbrev full_http : Http
full_http = record start_http { queue = first_msg ∷ second_msg ∷ [] }

abbrev awaiting_http : Http
awaiting_http = record start_http {
  queue = second_msg ∷ [];
  is_draining = true;
  in_flight = some first_request;
  posted = first_request ∷ [];
}

abbrev tired_http : Http
tired_http = record full_http { retry_count = 6 }

abbrev locked_http : Http
locked_http = record full_http { is_draining = true }

run_events-IsLocked_example :
    IsLocked []
      (run_events
        (SyncEvent.queue_timer ∷ SyncEvent.closes ∷ SyncEvent.sends add_inning ∷ [])
        (linked locked_http)).http
run_events-IsLocked_example =
    run_events-IsLocked []
      (SyncEvent.queue_timer ∷ SyncEvent.closes ∷ SyncEvent.sends add_inning ∷ [])
      (linked locked_http) (refl, refl, refl)

run_events-IsSingle_example :
    IsSingle
      (run_events
        (SyncEvent.sends add_inning ∷ SyncEvent.queue_timer ∷ SyncEvent.responds Response.busy ∷ [])
        (linked start_http)).http
run_events-IsSingle_example =
    run_events-IsSingle
      (SyncEvent.sends add_inning ∷ SyncEvent.queue_timer ∷ SyncEvent.responds Response.busy ∷ [])
      (linked start_http) (inl refl, tt)

replay_test : to_replay "a1" (add_inning ∷ new_pitcher ∷ []) ≡ some (new_pitcher ∷ [])
unfolding to_replay actions_after
replay_test = refl

rejected_example :
    IsLocked
      (first_request ∷ [])
      (http_response (Response.rejected (ServerMsg.conflict_at "a1")) (linked awaiting_http)).http
rejected_example =
    rejected-IsLocked "a1" new_pitcher [] first_request (linked awaiting_http) refl refl refl refl
      refl replay_test

failed_example :
    let t = http_response (Response.failed true) (process_http_queue (linked full_http)) in
    (t.http.queue ≡ first_msg ∷ second_msg ∷ [])
    × (t.http.is_draining ≡ false)
    × (t.http.in_flight ≡ none)
failed_example =
    failed-process_http_queue (linked full_http) first_msg (second_msg ∷ []) true refl refl refl
      (omega arith)

acks_example :
    let t = run_events (acks 2) (linked awaiting_http) in
    IsIdle t.http × (sent t.http.posted ≡ first_msg ∷ second_msg ∷ [])
acks_example =
    run_events-acks 1 first_request (linked awaiting_http) (refl, refl, refl, refl, refl, refl)
      (omega arith)
