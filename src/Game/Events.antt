-- ===== src/Game/Events.antt =====
-- One cell of the scoresheet: the plate appearance of a batter in a column.
use skorekeeper.Common.{ℕ, zero, suc, String, Option, none, List, []}
use skorekeeper.Common.Int.{ℤ, pos, negsuc}
use skorekeeper.Game.Codes.{PitchType, PitchCode, BipResult, BipType, BipBase}

-- 0, 1 and 2 in `paths`.
pub data PathMark : Type 0 where
  unset safe out : PathMark

-- An array of four entries, one for each leg: to first, second, third and home.
pub record Legs {ℓ} (A : Type ℓ) : Type ℓ where
  pub leg_0 : A
  pub leg_1 : A
  pub leg_2 : A
  pub leg_3 : A

module _ {ℓ} {A : Type ℓ} where
  abbrev pub legs : A → A → A → A → Legs A
  legs a b c d = record { leg_0 = a; leg_1 = b; leg_2 = c; leg_3 = d }

  -- `p[i] = v`; nothing reads an entry past the fourth.
  abbrev pub put_leg : ℕ → A → Legs A → Legs A
  put_leg zero v p = record p { leg_0 = v }
  put_leg (suc zero) v p = record p { leg_1 = v }
  put_leg (suc (suc zero)) v p = record p { leg_2 = v }
  put_leg (suc (suc (suc zero))) v p = record p { leg_3 = v }
  put_leg (suc (suc (suc (suc n)))) v p = p

  -- The same at a signed index: a negative one names no entry.
  abbrev pub put_leg_at : ℤ → A → Legs A → Legs A
  put_leg_at (pos n) v p = put_leg n v p
  put_leg_at (negsuc n) v p = p

-- An entry of `pitchSequence`.
pub data PitchEntry : Type 0 where
  pitch : PitchType → PitchCode → String → PitchEntry
  substitution : String → PitchEntry

pub record Point : Type 0 where
  pub x : ℕ
  pub y : ℕ

pub record HitData : Type 0 where
  pub location : Option Point
  pub trajectory : String

pub record BipState : Type 0 where
  pub res : BipResult
  pub base : BipBase
  pub type : BipType
  pub seq : List String

pub record ScoreInfo : Type 0 where
  pub rbi_credited_to : Option String

-- A cell with the fields that every cell has which the reducer makes. An imported or moved cell
-- without `pathInfo` or `pitchSequence`, for which the source has guards in some places, is outside
-- the model. `p_id` is "" where the source has '', null or undefined; `out_pos` counts hundredths.
pub record Event : Type 0 where
  pub outcome : String
  pub balls : ℕ
  pub strikes : ℕ
  pub out_num : ℕ
  pub paths : Legs PathMark
  pub path_info : Legs String
  pub pitch_sequence : List PitchEntry
  pub p_id : String
  pub out_pos : Option (Legs ℕ)
  pub hit_data : Option HitData
  pub bip_state : Option BipState
  pub score_info : Option ScoreInfo

-- The literal that the reducer writes for a cell that has no event yet.
abbrev pub blank_event : String → Event
blank_event batter_id = record {
  outcome = "";
  balls = 0;
  strikes = 0;
  out_num = 0;
  paths = legs unset unset unset unset;
  path_info = legs "" "" "" "";
  pitch_sequence = [];
  p_id = batter_id;
  out_pos = none;
  hit_data = none;
  bip_state = none;
  score_info = none;
}
