-- ===== src/Cso.antt =====
-- `CSOManager` of frontend/game/csoManager.js: the ball-in-play form of the scoring overlay.
pub mod Options
use skorekeeper.Common.{
  ℕ, zero, suc, get_elem?, ◌==◌, str_eq, String, Bool, true, false, ◌&&◌, ◌||◌, not, List, [], ◌∷◌,
  ◌++◌, Option, none, some, is_some, get_or, or_text, ◌>>=◌, if◌then◌else◌,
}
use skorekeeper.Common.Text.{parse_int}
use skorekeeper.Game.{
  BipResult, BipBase, BipType, BipMode, type_text, BipState, HitData, Point, PitchPayload,
  PitchType, PitchCode, Ctx, Team,
}
use skorekeeper.Cycle.{next_option}

-- The form: the ball in play with the hit that is drawn for it.
pub record Form : Type 0 where
  pub bip : BipState
  pub hit_data : Option HitData

-- What `recordPitch` dispatches, if anything.
unfoldable pub record_pitch :
    Bool → Ctx → Team → String → PitchType → PitchCode → Option PitchPayload
record_pitch read_only ctx team batter_id type code =
    if read_only
    then none
    else some (record {
      active_ctx = ctx;
      type = type;
      code = code;
      active_team = team;
      batter_id = batter_id;
    })

abbrev point : ℕ → ℕ → Point
point x y = record { x = x; y = y }

-- Where the fielders 1 to 9 stand, in two-hundredths of the field.
abbrev positions : List Point
positions =
    point 100 125
    ∷ point 100 185
    ∷ point 155 115
    ∷ point 130 70
    ∷ point 45 115
    ∷ point 70 70
    ∷ point 35 40
    ∷ point 100 25
    ∷ point 165 40
    ∷ []

unfoldable pub get_canonical_position : ℕ → Option Point
get_canonical_position zero = none
get_canonical_position (suc n) = get_elem? positions n

unfoldable pub add_to_sequence : Form → String → Form
add_to_sequence form position = record form {
  bip = record form.bip { seq = form.bip.seq ++ position ∷ [] };
}

abbrev pub without_last : List String → List String
without_last [] = []
without_last (x ∷ []) = []
without_last (x ∷ y ∷ xs) = x ∷ without_last (y ∷ xs)

unfoldable pub backspace_sequence : Form → Form
backspace_sequence form = record form { bip = record form.bip { seq = without_last form.bip.seq } }

abbrev result_text : BipResult → String
result_text BipResult.safe = "Safe"
result_text BipResult.out = "Out"
result_text BipResult.ground = "Ground"
result_text BipResult.fly = "Fly"
result_text BipResult.line = "Line"
result_text BipResult.iff = "IFF"

unfoldable pub get_smart_default_trajectory : BipState → String
get_smart_default_trajectory bip = elim bip.res [
  | BipResult.fly ↦ "Fly"
  | BipResult.iff ↦ "Fly"
  | BipResult.line ↦ "Line"
  | BipResult.safe ↦ "Ground"
  | BipResult.out ↦ "Ground"
  | BipResult.ground ↦ "Ground"
]

abbrev pub has_location : Option HitData → Bool
has_location none = false
has_location (some hit) = is_some hit.location

abbrev trajectory_of : Option HitData → String
trajectory_of none = ""
trajectory_of (some hit) = hit.trajectory

abbrev pub is_drawn : BipResult → Bool
is_drawn BipResult.ground = true
is_drawn BipResult.fly = true
is_drawn BipResult.line = true
is_drawn _ = false

-- The types that `getBipOptions` offers for a result.
unfoldable pub type_options : BipResult → BipMode → List BipType
type_options BipResult.safe BipMode.dropped = BipType.d3 ∷ BipType.fc ∷ []
type_options _ BipMode.dropped = BipType.k ∷ []
type_options BipResult.safe BipMode.normal = BipType.hit ∷ BipType.err ∷ BipType.fc ∷ []
type_options BipResult.out BipMode.normal = BipType.out ∷ BipType.sh ∷ BipType.sf ∷ []
type_options BipResult.ground BipMode.normal = BipType.out ∷ BipType.sh ∷ []
type_options BipResult.fly BipMode.normal = BipType.out ∷ BipType.sf ∷ []
type_options BipResult.line BipMode.normal = BipType.out ∷ []
type_options BipResult.iff BipMode.normal = BipType.out ∷ []

unfoldable pub result_options : BipMode → List BipResult
result_options BipMode.dropped = BipResult.safe ∷ BipResult.out ∷ []
result_options BipMode.normal =
    BipResult.safe ∷ BipResult.out ∷ BipResult.ground ∷ BipResult.fly ∷ BipResult.line
    ∷ BipResult.iff ∷ []

abbrev pub base_options : List BipBase
base_options = BipBase.base_1b ∷ BipBase.base_2b ∷ BipBase.base_3b ∷ BipBase.base_home ∷ []

abbrev same_result : BipResult → BipResult → Bool
same_result a b = str_eq (result_text a) (result_text b)

abbrev pub same_type : BipType → BipType → Bool
same_type a b = str_eq (type_text a) (type_text b)

abbrev base_index : BipBase → ℕ
base_index BipBase.base_unset = 0
base_index BipBase.base_1b = 1
base_index BipBase.base_2b = 2
base_index BipBase.base_3b = 3
base_index BipBase.base_home = 4

unfoldable pub next_result : BipMode → BipResult → BipResult
unfolding next_option result_options
next_result mode res = get_or (next_option (λ r. same_result r res) (result_options mode)) res

unfoldable pub next_type : BipMode → BipResult → BipType → BipType
unfolding next_option type_options
next_type mode res type = get_or (next_option (λ t. same_type t type) (type_options res mode)) type

unfoldable pub next_base : BipBase → BipBase
unfolding next_option
next_base base = get_or (next_option (λ b. base_index b == base_index base) base_options) base

-- A hit with a location gets the trajectory of the play.
abbrev pub redraw : Form → Form
redraw form = elim form.hit_data [
  | none ↦ form
  | some hit ↦
      if is_some hit.location
      then record form {
        hit_data = some (record hit { trajectory = get_smart_default_trajectory form.bip });
      }
      else form
]

abbrev pub first_type : BipMode → BipResult → BipType → BipType
first_type BipMode.dropped res type = type
first_type BipMode.normal res type = elim (type_options res BipMode.normal) [
  | [] ↦ type
  | t ∷ _ ↦ t
]

-- The keys of the form.
pub data BipKey : Type 0 where
  key_res key_base key_type : BipKey

-- The fields of the ball in play after a click on the key.
unfoldable pub cycled : BipState → BipKey → BipMode → BipState
unfolding next_result next_type next_base type_options
cycled bip BipKey.key_res mode =
    let res = next_result mode bip.res in
    record bip { res = res; type = first_type mode res bip.type }
cycled bip BipKey.key_base mode = record bip { base = next_base bip.base }
cycled bip BipKey.key_type mode = record bip { type = next_type mode bip.res bip.type }

unfoldable pub cycle_bip : Form → BipKey → BipMode → Form
unfolding cycled get_smart_default_trajectory
cycle_bip form BipKey.key_base mode = record form { bip = cycled form.bip BipKey.key_base mode }
cycle_bip form key mode = redraw (record form { bip = cycled form.bip key mode })

-- The hit at the position of the first fielder, drawn as the result unless it has a trajectory.
abbrev pub placed_hit : BipResult → Option HitData → Point → HitData
placed_hit res hit position = record {
  location = some position;
  trajectory = or_text (trajectory_of hit) (result_text res);
}

abbrev pub first_fielder : List String → Option ℕ
first_fielder [] = none
first_fielder (x ∷ _) = parse_int x

unfoldable pub apply_smart_defaults : Form → Form
unfolding get_canonical_position
apply_smart_defaults form =
    if is_drawn form.bip.res && not (has_location form.hit_data)
    then elim (first_fielder form.bip.seq >>= get_canonical_position) [
      | none ↦ form
      | some position ↦ record form {
        hit_data = some (placed_hit form.bip.res form.hit_data position);
      }
    ]
    else form
