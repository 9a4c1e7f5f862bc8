-- ===== src/Game/States.antt =====
-- The game state, less its action log, which the reducer never reads (see `Log`).
use skorekeeper.Common.{ℕ, String, Option, none, some, List, [], Dict}
use skorekeeper.Game.Codes.{Team, away, home, PitchType, PitchCode, GameStatus, ongoing, BipResult}
use skorekeeper.Game.Events.{Event}

pub record PerTeam {ℓ} (A : Type ℓ) : Type ℓ where
  pub of_away : A
  pub of_home : A

module _ {ℓ} {A : Type ℓ} where
  abbrev pub both : A → PerTeam A
  both a = record { of_away = a; of_home = a }

  -- `obj[team]`
  abbrev pub side : Team → PerTeam A → A
  side away p = p.of_away
  side home p = p.of_home

  -- `obj[team] = v`
  abbrev pub put_side : Team → A → PerTeam A → PerTeam A
  put_side away v p = record p { of_away = v }
  put_side home v p = record p { of_home = v }

pub record Player : Type 0 where
  pub id : String
  pub name : String
  pub number : String
  pub pos : String

pub record Slot : Type 0 where
  pub slot : ℕ
  pub starter : Player
  pub current : Player
  pub history : List Player

-- `team` is none for a column that both teams share.
pub record Column : Type 0 where
  pub inning : ℕ
  pub id : String
  pub team : Option Team
  pub lead_row : PerTeam (Option ℕ)

abbrev pub new_column : ℕ → String → Option Team → Column
new_column inning id team = record { inning = inning; id = id; team = team; lead_row = both none }

pub data LogType : Type 0 where
  pitched : PitchType → PitchCode → LogType
  bip : BipResult → LogType

pub record PitchLogEntry : Type 0 where
  pub inning : ℕ
  pub team : Team
  pub batter : String
  pub pitcher : String
  pub type : LogType
  pub count : String

pub data Score : Type 0 where
  num : ℕ → Score
  text : String → Score

pub record Permissions : Type 0 where
  pub public : String
  pub users : Dict String

abbrev pub current_schema_version : ℕ
current_schema_version = 3

-- Texts are "" where the source has null.
pub record State : Type 0 where
  pub id : String
  pub schema_version : ℕ
  pub date : String
  pub location : String
  pub event : String
  pub team_name : PerTeam String
  pub status : GameStatus
  pub owner_id : String
  pub team_id : PerTeam (Option String)
  pub pitchers : PerTeam String
  pub overrides : PerTeam (Dict Score)
  pub events : Dict Event
  pub columns : List Column
  pub pitch_log : List PitchLogEntry
  pub permissions : Permissions
  pub roster : PerTeam (List Slot)
  pub subs : PerTeam (List Player)

abbrev pub no_permissions : Permissions
no_permissions = record { public = "none"; users = [] }

abbrev pub initial_state : State
initial_state = record {
  id = "";
  schema_version = current_schema_version;
  date = "";
  location = "";
  event = "";
  team_name = both "";
  status = ongoing;
  owner_id = "";
  team_id = both (some "");
  pitchers = both "";
  overrides = both [];
  events = [];
  columns = [];
  pitch_log = [];
  permissions = no_permissions;
  roster = both [];
  subs = both [];
}
