-- ===== src/Play/Outcome.antt =====
-- The text that a ball in play leaves in the cell: the `out` variable of `applyPlayResult`.
use skorekeeper.Common.{ℕ, String, Bool, true, false, ◌&&◌, ◌||◌, str_eq, ◌==◌, if◌then◌else◌}
use skorekeeper.Common.Text.{◌+++◌, join_dash, only_digits}
use skorekeeper.Game.{BipResult, BipBase, BipType, BipMode, BipState, type_text}

abbrev is_fly : BipResult → Bool
is_fly BipResult.fly = true
is_fly _ = false

abbrev is_line : BipResult → Bool
is_line BipResult.line = true
is_line _ = false

abbrev is_iff : BipResult → Bool
is_iff BipResult.iff = true
is_iff _ = false

abbrev is_out : BipResult → Bool
is_out BipResult.out = true
is_out _ = false

abbrev is_sf : BipType → Bool
is_sf BipType.sf = true
is_sf _ = false

abbrev is_double_play : BipType → Bool
is_double_play BipType.dp = true
is_double_play BipType.tp = true
is_double_play _ = false

-- `res !== 'Safe'`
unfoldable pub is_batter_out : BipResult → Bool
is_batter_out BipResult.safe = false
is_batter_out _ = true

unfoldable pub is_home : BipBase → Bool
is_home BipBase.base_home = true
is_home _ = false

unfoldable pub is_air_out : BipState → Bool
is_air_out bip =
    is_fly bip.res
    || is_line bip.res
    || is_iff bip.res
    || (is_out bip.res && is_sf bip.type)
    || (is_double_play bip.type && (is_fly bip.res || is_line bip.res))

-- `seqStr ? sep + s : ''`
abbrev with_seq : String → String → String → String
with_seq seq sep s = if str_eq seq "" then "" else sep +++ s

abbrev hit_text : BipBase → String
hit_text BipBase.base_1b = "1B"
hit_text BipBase.base_2b = "2B"
hit_text BipBase.base_3b = "3B"
hit_text _ = "HR"

safe_text : BipType → BipBase → String → String
safe_text BipType.err base seq = "E" +++ with_seq seq "-" (only_digits seq)
safe_text BipType.fc base seq = "FC" +++ with_seq seq "-" (only_digits seq)
safe_text BipType.hbp base seq = type_text BipType.hbp
safe_text BipType.ibb base seq = type_text BipType.ibb
safe_text BipType.ci base seq = type_text BipType.ci
safe_text _ base seq = hit_text base

ground_text : BipType → String → String
ground_text BipType.boo seq = type_text BipType.boo
ground_text BipType.int seq = type_text BipType.int
ground_text BipType.so seq = type_text BipType.so
ground_text BipType.sh seq = "SH" +++ seq
ground_text BipType.sf seq = "SF" +++ seq
ground_text _ seq = seq

normal_text : BipResult → BipType → BipBase → String → String
normal_text BipResult.safe type base seq = safe_text type base seq
normal_text BipResult.fly type base seq = (if is_sf type then "SF" else "F") +++ only_digits seq
normal_text BipResult.line type base seq = "L" +++ only_digits seq
normal_text BipResult.iff type base seq = "IFF" +++ only_digits seq
normal_text BipResult.ground type base seq = ground_text type seq
normal_text BipResult.out type base seq = ground_text type seq

-- A dropped third strike: the batter reaches, or is out all the same.
dropped_text : BipResult → BipType → String → String
dropped_text BipResult.safe type seq = type_text type +++ with_seq seq " " seq
dropped_text _ type seq = "K" +++ with_seq seq " " seq

mode_text : BipMode → BipState → String → String
mode_text BipMode.dropped bip seq = dropped_text bip.res bip.type seq
mode_text BipMode.normal bip seq = normal_text bip.res bip.type bip.base seq

unfoldable pub play_outcome : BipMode → BipState → ℕ → String
unfolding safe_text ground_text normal_text dropped_text mode_text
play_outcome mode bip outs =
    let text = mode_text mode bip (join_dash bip.seq) in
    if outs == 3 then "TP " +++ text else if outs == 2 then "DP " +++ text else text
