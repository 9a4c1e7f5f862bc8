-- ===== src/Stats/Lines.antt =====
-- The lines that `calculateGameStats` of frontend/game/statsEngine.js fills, and the tests on an
-- outcome that it branches on.
use skorekeeper.Common.{
  ℕ, ◌+◌, String, Bool, ◌&&◌, ◌||◌, not, str_eq, if◌then◌else◌, Dict, none, some, lookup, insert,
}
use skorekeeper.Common.Text.{starts_with, includes}

pub record PlayerLine : Type 0 where
  pub ab : ℕ
  pub r : ℕ
  pub h : ℕ
  pub rbi : ℕ
  pub bb : ℕ
  pub k : ℕ
  pub hbp : ℕ
  pub sf : ℕ
  pub sh : ℕ
  pub singles : ℕ
  pub doubles : ℕ
  pub triples : ℕ
  pub hr : ℕ
  pub sb : ℕ
  pub pa : ℕ
  pub flyouts : ℕ
  pub lineouts : ℕ
  pub groundouts : ℕ
  pub other_outs : ℕ
  pub roe : ℕ
  pub called_strikes : ℕ
  pub name : String
  pub team : String

pub record InningLine : Type 0 where
  pub r : ℕ
  pub h : ℕ
  pub e : ℕ
  pub lob : ℕ
  pub outs : ℕ
  pub pa : ℕ

pub record PitcherLine : Type 0 where
  pub ip_outs : ℕ
  pub h : ℕ
  pub bb : ℕ
  pub er : ℕ
  pub k : ℕ
  pub hbp : ℕ
  pub pitches : ℕ
  pub strikes : ℕ
  pub balls : ℕ
  pub bf : ℕ
  pub defensive_outs : ℕ
  pub errors : ℕ
  pub team : String

abbrev pub new_player_line : String → String → PlayerLine
new_player_line name team = record {
  ab = 0;
  r = 0;
  h = 0;
  rbi = 0;
  bb = 0;
  k = 0;
  hbp = 0;
  sf = 0;
  sh = 0;
  singles = 0;
  doubles = 0;
  triples = 0;
  hr = 0;
  sb = 0;
  pa = 0;
  flyouts = 0;
  lineouts = 0;
  groundouts = 0;
  other_outs = 0;
  roe = 0;
  called_strikes = 0;
  name = name;
  team = team;
}

abbrev pub new_inning_line : InningLine
new_inning_line = record { r = 0; h = 0; e = 0; lob = 0; outs = 0; pa = 0 }

abbrev pub new_pitcher_line : String → PitcherLine
new_pitcher_line team = record {
  ip_outs = 0;
  h = 0;
  bb = 0;
  er = 0;
  k = 0;
  hbp = 0;
  pitches = 0;
  strikes = 0;
  balls = 0;
  bf = 0;
  defensive_outs = 0;
  errors = 0;
  team = team;
}

-- The lines of a game.
pub record GameLines : Type 0 where
  pub player_stats : Dict PlayerLine
  pub inning_stats : Dict InningLine
  pub pitcher_stats : Dict PitcherLine

-- A text that is kept unless it is empty.
abbrev pub or_new : String → String → String
or_new kept new = if str_eq kept "" then new else kept

-- `getPStats`, for an id that is not empty.
abbrev pub touch_player : String → String → String → Dict PlayerLine → Dict PlayerLine
touch_player id name team lines = elim (lookup id lines) [
  | none ↦ insert id (new_player_line name team) lines
  | some l ↦ insert id (record l { name = or_new l.name name; team = or_new l.team team }) lines
]

-- `getPitcherStats`, for an id that is not empty.
abbrev pub touch_pitcher : String → String → Dict PitcherLine → Dict PitcherLine
touch_pitcher id team lines = elim (lookup id lines) [
  | none ↦ insert id (new_pitcher_line team) lines
  | some l ↦ insert id (record l { team = or_new l.team team }) lines
]

-- A change of the line with a key, if there is one.
abbrev pub modify {ℓ} : {V : Type ℓ} → String → (V → V) → Dict V → Dict V
modify id f lines = elim (lookup id lines) [ none ↦ lines | some l ↦ insert id (f l) lines ]

abbrev pub count_when : Bool → ℕ → ℕ
count_when b n = if b then n + 1 else n

abbrev pub is_sac : String → Bool
is_sac o = includes o "SH" || includes o "SF"

abbrev pub is_walk : String → Bool
is_walk o = starts_with o "BB" || starts_with o "IBB"

abbrev pub is_hbp : String → Bool
is_hbp o = str_eq o "HBP"

abbrev pub is_int : String → Bool
is_int o = includes o "CI" || includes o "INT"

abbrev pub is_at_bat : String → Bool
is_at_bat o = not (is_walk o) && not (is_hbp o) && not (is_sac o) && not (is_int o)

abbrev pub is_hit : String → Bool
is_hit o = str_eq o "1B" || str_eq o "2B" || str_eq o "3B" || str_eq o "HR"

abbrev pub is_strikeout : String → Bool
is_strikeout o = includes o "K" || str_eq o "ꓘ"

abbrev pub is_error : String → Bool
is_error o = starts_with o "E"

-- `/^[FP]/.test(o)`
abbrev pub is_flyout : String → Bool
is_flyout o = starts_with o "F" || starts_with o "P"
