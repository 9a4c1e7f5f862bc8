-- ===== src/Game/Codes.antt =====
-- The codes of frontend/constants.js that the game logic branches on, as enumerations.
use skorekeeper.Common.{String, Bool, true, false}

pub data Team : Type 0 where
  away home : Team

abbrev pub team_text : Team → String
team_text away = "away"
team_text home = "home"

-- `activeTeam === TeamAway ? TeamHome : TeamAway`
abbrev pub other_team : Team → Team
other_team away = home
other_team home = away

abbrev pub team_eq : Team → Team → Bool
team_eq away away = true
team_eq home home = true
team_eq _ _ = false

pub data PitchType : Type 0 where
  ball strike foul in_play out : PitchType

pub data PitchCode : Type 0 where
  called swinging foul in_play hit_by_pitch intentional_ball dropped : PitchCode

pub data GameStatus : Type 0 where
  ongoing final : GameStatus

pub data BipResult : Type 0 where
  safe out ground fly line iff : BipResult

pub data BipType : Type 0 where
  hit err out dp tp sh sf fc hbp ibb ci bb boo int so d3 k plain_out interference : BipType

abbrev pub type_text : BipType → String
type_text hit = "HIT"
type_text err = "ERR"
type_text out = "OUT"
type_text dp = "DP"
type_text tp = "TP"
type_text sh = "SH"
type_text sf = "SF"
type_text fc = "FC"
type_text hbp = "HBP"
type_text ibb = "IBB"
type_text ci = "CI"
type_text bb = "BB"
type_text boo = "BOO"
type_text int = "Int"
type_text so = "SO"
type_text d3 = "D3"
type_text k = "K"
type_text plain_out = "Out"
type_text interference = "Interference"

pub data BipBase : Type 0 where
  base_unset base_1b base_2b base_3b base_home : BipBase

pub data BipMode : Type 0 where
  normal dropped : BipMode

pub data RunnerOutcome : Type 0 where
  stay to_2nd to_3rd score out : RunnerOutcome

abbrev pub is_runner_out : RunnerOutcome → Bool
is_runner_out out = true
is_runner_out _ = false

-- `batter_first` stands for every sequencing other than 'RunnersFirst'.
pub data OutSequencing : Type 0 where
  runners_first batter_first : OutSequencing

abbrev pub is_runners_first : OutSequencing → Bool
is_runners_first runners_first = true
is_runners_first batter_first = false
