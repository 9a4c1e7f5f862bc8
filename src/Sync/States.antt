-- ===== src/Sync/States.antt =====
-- The state of `SyncManager` (frontend/services/syncManager.js) and of the part of the application
-- that it calls back (`handleSyncConflict` of frontend/controllers/AppController.js).
use skorekeeper.Common.{ℕ, String, Bool, true, false, List, [], Option, none}
use skorekeeper.Game.{Action}

pub data Status : Type 0 where
  disconnected connecting connected synced conflict error offline : Status

-- A message of the HTTP queue: an action and the revision that it was made on.
pub record Msg : Type 0 where
  pub action : Action
  pub base_revision : String

-- What the error of an `ERROR` message says, by the texts that the handler looks for.
pub data ErrorText : Type 0 where
  login_required throttled other : ErrorText

-- The messages of the server, by their type.
pub data ServerMsg : Type 0 where
  ack pong : ServerMsg
  remote_action : Option Action → ServerMsg
  sync_update : Option (List Action) → ServerMsg
  conflict_at : String → ServerMsg
  failure : ErrorText → ServerMsg
  unknown_message : ServerMsg

-- How a request to /api/action ends; a failure tells if it is of the network or the server.
pub data Response : Type 0 where
  success : ServerMsg → Response
  busy : Response
  rejected : ServerMsg → Response
  denied : Response
  failed : Bool → Response

-- Messages on the socket: JOIN with its revision.
pub data WsMsg : Type 0 where
  join : String → WsMsg

pub data Effect : Type 0 where
  ws_sent : WsMsg → Effect
  remote : Action → Effect
  marked_clean : String → Effect
  told_error : Effect
  auth_check : Effect
  conflict_modal : Effect
  timer_set : Effect

-- A request that waits for its response.
pub record Request : Type 0 where
  pub generation : ℕ
  pub batch : List Msg

-- `httpQueue`, `isHttpDraining`, `httpRetryCount` and `queueGeneration`, with the request that is
-- awaited and all requests made so far.
pub record Http : Type 0 where
  pub queue : List Msg
  pub is_draining : Bool
  pub retry_count : ℕ
  pub generation : ℕ
  pub in_flight : Option Request
  pub posted : List Request

-- The application: the game on show with its log, and the flags of the conflict handler.
pub record App : Type 0 where
  pub is_online : Bool
  pub active_game : Option (String × List Action)
  pub block_conflicts : Bool
  pub has_pending_conflict : Bool
  pub is_resolving_conflict : Bool

-- A `gameId` of null is "". `has_socket` is `socket !== null`, `is_listening` that the callbacks
-- are set.
pub record Sync : Type 0 where
  pub has_socket : Bool
  pub game_id : String
  pub is_connected : Bool
  pub ws_queue : List WsMsg
  pub last_revision : String
  pub current_status : Status
  pub reconnect_attempts : ℕ
  pub should_reconnect : Bool
  pub pending_action_ids : List String
  pub http : Http
  pub is_paused : Bool
  pub is_syncing_history : Bool
  pub is_server_unreachable : Bool
  pub is_listening : Bool
  pub app : App
  pub effects : List Effect

abbrev pub start_http : Http
start_http = record {
  queue = [];
  is_draining = false;
  retry_count = 0;
  generation = 0;
  in_flight = none;
  posted = [];
}

abbrev pub start_app : App
start_app = record {
  is_online = true;
  active_game = none;
  block_conflicts = false;
  has_pending_conflict = false;
  is_resolving_conflict = false;
}

-- The constructor.
abbrev pub start_sync : Sync
start_sync = record {
  has_socket = false;
  game_id = "";
  is_connected = false;
  ws_queue = [];
  last_revision = "";
  current_status = disconnected;
  reconnect_attempts = 0;
  should_reconnect = false;
  pending_action_ids = [];
  http = start_http;
  is_paused = false;
  is_syncing_history = false;
  is_server_unreachable = false;
  is_listening = true;
  app = start_app;
  effects = [];
}
