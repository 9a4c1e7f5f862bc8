-- ===== src/Game/Actions.antt =====
-- Actions and their payloads. A text that the source tests for truth is "" where it is absent.
use skorekeeper.Common.{ℕ, String, Option, Bool, List, Dict}
use skorekeeper.Common.Int.{ℤ}
use skorekeeper.Game.Codes.{
  Team, PitchType, PitchCode, GameStatus, BipMode, RunnerOutcome, OutSequencing,
}
use skorekeeper.Game.Events.{Event, PathMark, Legs, PitchEntry, HitData, BipState, ScoreInfo}
use skorekeeper.Game.States.{PerTeam, Player, Slot, Column, PitchLogEntry, Score, Permissions}

-- The batting row, the inning and the column of a cell.
pub record Ctx : Type 0 where
  pub b : ℕ
  pub i : ℕ
  pub col : String

pub record StartPayload : Type 0 where
  pub id : String
  pub schema_version : ℕ
  pub date : String
  pub event : String
  pub location : String
  pub team_name : PerTeam String
  pub team_id : PerTeam (Option String)
  pub owner_id : String
  pub permissions : Option Permissions
  pub initial_rosters : PerTeam (List (Option Player))
  pub initial_roster_ids : PerTeam (List String)
  pub initial_subs : PerTeam (List Player)

-- An exported game: what it lacks is none.
pub record ImportPayload : Type 0 where
  pub id : String
  pub schema_version : Option ℕ
  pub date : String
  pub location : Option String
  pub event : Option String
  pub team_name : PerTeam String
  pub status : Option GameStatus
  pub owner_id : Option String
  pub team_id : PerTeam (Option (Option String))
  pub pitchers : Option (PerTeam String)
  pub overrides : Option (PerTeam (Dict Score))
  pub events : Option (Dict Event)
  pub columns : Option (List Column)
  pub pitch_log : Option (List PitchLogEntry)
  pub permissions : Option Permissions
  pub roster : Option (PerTeam (List Slot))
  pub subs : Option (PerTeam (List Player))

pub record PitchPayload : Type 0 where
  pub active_ctx : Ctx
  pub type : PitchType
  pub code : PitchCode
  pub active_team : Team
  pub batter_id : String

pub record Runner : Type 0 where
  pub key : String
  pub base : ℤ
  pub outcome : RunnerOutcome

pub record PlayPayload : Type 0 where
  pub active_ctx : Ctx
  pub active_team : Team
  pub bip_state : BipState
  pub batter_id : String
  pub bip_mode : BipMode
  pub hit_data : Option HitData
  pub runner_advancements : List Runner

pub record AdvancePayload : Type 0 where
  pub runners : List Runner
  pub batter_id : String
  pub rbi_eligible : Bool
  pub out_sequencing : OutSequencing
  pub active : Option (Ctx × Team)

pub record BatchUpdate : Type 0 where
  pub key : String
  pub action : String
  pub base : ℤ

pub record BatchPayload : Type 0 where
  pub updates : List BatchUpdate
  pub active_ctx : Ctx
  pub active_team : Team
  pub batter_id : String

pub record ClearPayload : Type 0 where
  pub active_ctx : Ctx
  pub active_team : Team
  pub batter_id : String

pub record MovePayload : Type 0 where
  pub source_key : String
  pub target_key : String
  pub event_data : Event
  pub new_column : Option Column

pub record ScorePayload : Type 0 where
  pub team : Team
  pub inning : String
  pub score : Option Score

-- `none` for a roster or subs that the payload lacks.
pub record LineupPayload : Type 0 where
  pub team : Team
  pub team_name : String
  pub roster : Option (List Slot)
  pub subs : Option (List Player)

pub record SubstitutionPayload : Type 0 where
  pub team : Team
  pub roster_index : ℕ
  pub sub_params : Player
  pub active_ctx : Option Ctx
  pub action_id : String

pub record MetadataPayload : Type 0 where
  pub team_name : PerTeam String
  pub team_id : PerTeam (Option (Option String))
  pub date : String
  pub event : Option String
  pub location : Option String
  pub permissions : Option Permissions

-- The fields that a manual edit gives; the others keep their values.
pub record EventPatch : Type 0 where
  pub outcome : Option String
  pub balls : Option ℕ
  pub strikes : Option ℕ
  pub out_num : Option ℕ
  pub paths : Option (Legs PathMark)
  pub path_info : Option (Legs String)
  pub pitch_sequence : Option (List PitchEntry)
  pub p_id : Option String
  pub out_pos : Option (Legs ℕ)
  pub hit_data : Option HitData
  pub bip_state : Option BipState
  pub score_info : Option ScoreInfo

-- `action.type` with `action.payload`.
pub data Body : Type 0 where
  game_import : ImportPayload → Body
  game_start : StartPayload → Body
  pitch : PitchPayload → Body
  play_result : PlayPayload → Body
  runner_advance : AdvancePayload → Body
  substitution : SubstitutionPayload → Body
  lineup_update : LineupPayload → Body
  score_override : ScorePayload → Body
  pitcher_update : Team → String → Body
  move_play : MovePayload → Body
  clear_data : ClearPayload → Body
  runner_batch_update : BatchPayload → Body
  add_inning : Body
  add_column : ℕ → Option Team → Body
  remove_column : String → Team → Body
  game_metadata_update : MetadataPayload → Body
  set_inning_lead : Team → String → Option ℕ → Body
  game_finalize : Body
  rbi_edit : String → String → Body
  out_num_update : String → ℕ → Body
  manual_path_override : String → EventPatch → Body
  undo : String → Body
  unknown : String → Body

pub record Action : Type 0 where
  pub id : String
  pub body : Body
