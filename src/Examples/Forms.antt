-- ===== src/Examples/Forms.antt =====
-- The ball-in-play form, filled in.
use skorekeeper.Common.{[], ◌∷◌, none, some, ◌≡◌, refl}
use skorekeeper.Common.Text.{parse_int}
use skorekeeper.Game.{BipResult, BipBase, BipType}
use skorekeeper.Cso.{Form, type_options, apply_smart_defaults}
use skorekeeper.Cso.Options.{IsOffered}

abbrev grounder : Form
grounder = record {
  bip = record {
    res = BipResult.ground;
    base = BipBase.base_1b;
    type = BipType.out;
    seq = "6" ∷ "3" ∷ [];
  };
  hit_data = none;
}

abbrev drawn : Form
drawn = record grounder {
  hit_data = some (record { location = some (record { x = 70; y = 70 }); trajectory = "Ground" });
}

defaults_test : apply_smart_defaults grounder ≡ drawn
unfolding apply_smart_defaults parse_int
defaults_test = refl

grounder-IsOffered : IsOffered grounder.bip
unfolding type_options
grounder-IsOffered = refl
