-- ===== src/Cso/Options.antt =====
-- What the ball-in-play form offers and keeps (`cycleBiP`, `applySmartDefaults` and
-- `backspaceSequence` of frontend/game/csoManager.js).
use skorekeeper.Common.{
  ℕ, zero, suc, String, true, false, ◌&&◌, not, List, [], ◌∷◌, ◌++◌, Option, none, some, is_some,
  any, All, ◌>>=◌, ◌≡◌, refl, sym, ap, subst, ◌∙◌, arith, Bool-cases, Option-cases, inl, inr,
}
use skorekeeper.Game.{BipState, BipResult, BipType, BipMode, Point}
use skorekeeper.Cycle.{next_option, next_option-All}
use skorekeeper.Cso.{
  Form, BipKey, cycled, cycle_bip, next_result, next_type, type_options, same_type, first_type,
  has_location, is_drawn, placed_hit, first_fielder, get_canonical_position, apply_smart_defaults,
  add_to_sequence, backspace_sequence, without_last, redraw,
}

-- The type is one that the form offers for the result.
abbrev pub IsOffered : BipState → Type 0
IsOffered bip = any (λ t. same_type t bip.type) (type_options bip.res BipMode.normal) ≡ true

offered_options :
    (res : BipResult)
    → All
        (λ t. any (λ u. same_type u t) (type_options res BipMode.normal) ≡ true)
        (type_options res BipMode.normal)
unfolding type_options
offered_options BipResult.safe = (refl, (refl, (refl, tt)))
offered_options BipResult.out = (refl, (refl, (refl, tt)))
offered_options BipResult.ground = (refl, (refl, tt))
offered_options BipResult.fly = (refl, (refl, tt))
offered_options BipResult.line = (refl, tt)
offered_options BipResult.iff = (refl, tt)

redraw-bip : (form : Form) → (redraw form).bip ≡ form.bip
redraw-bip form = elim (Option-cases form.hit_data) [
  | inl nothing ↦ rw nothing refl
  | inr (hit, e) ↦ elim (Bool-cases (is_some hit.location)) [
    | inl drawn ↦ rw (e, drawn) refl
    | inr free ↦ rw (e, free) refl
  ]
]

redrawn :
    (form : Form) (key : BipKey)
    → IsOffered (cycled form.bip key BipMode.normal)
    → IsOffered (redraw (record form { bip = cycled form.bip key BipMode.normal })).bip
redrawn form key h =
    subst IsOffered (sym (redraw-bip (record form { bip = cycled form.bip key BipMode.normal }))) h

next_type-IsOffered :
    (res : BipResult) (type : BipType)
    → any (λ t. same_type t type) (type_options res BipMode.normal) ≡ true
    → any (λ t. same_type t (next_type BipMode.normal res type)) (type_options res BipMode.normal)
      ≡ true
unfolding next_type
next_type-IsOffered res type h =
    elim (Option-cases (next_option (λ t. same_type t type) (type_options res BipMode.normal))) [
      | inl nothing ↦ rw (nothing, next_type) h
      | inr (y, e) ↦
          rw (e, next_type)
            (next_option-All _ _ (type_options res BipMode.normal) y (offered_options res) e)
    ]

first_type-IsOffered :
    (res : BipResult) (type : BipType)
    → any (λ t. same_type t (first_type BipMode.normal res type)) (type_options res BipMode.normal)
      ≡ true
unfolding type_options
first_type-IsOffered BipResult.safe type = refl
first_type-IsOffered BipResult.out type = refl
first_type-IsOffered BipResult.ground type = refl
first_type-IsOffered BipResult.fly type = refl
first_type-IsOffered BipResult.line type = refl
first_type-IsOffered BipResult.iff type = refl

cycled-IsOffered :
    (bip : BipState) (key : BipKey) → IsOffered bip → IsOffered (cycled bip key BipMode.normal)
unfolding cycled
cycled-IsOffered bip BipKey.key_res h =
    first_type-IsOffered (next_result BipMode.normal bip.res) bip.type
cycled-IsOffered bip BipKey.key_base h = h
cycled-IsOffered bip BipKey.key_type h = next_type-IsOffered bip.res bip.type h

-- In normal mode, if the type is one that is offered for the result, it still is after a click on
-- any key of the form.
pub cycle_bip-IsOffered :
    (form : Form) (key : BipKey)
    → IsOffered form.bip
    → IsOffered (cycle_bip form key BipMode.normal).bip
unfolding cycle_bip
cycle_bip-IsOffered form BipKey.key_base h = cycled-IsOffered form.bip BipKey.key_base h
cycle_bip-IsOffered form BipKey.key_res h =
    redrawn form BipKey.key_res (cycled-IsOffered form.bip BipKey.key_res h)
cycle_bip-IsOffered form BipKey.key_type h =
    redrawn form BipKey.key_type (cycled-IsOffered form.bip BipKey.key_type h)

abbrev next_results : ℕ → BipResult → BipResult
next_results zero res = res
next_results (suc n) res = next_results n (next_result BipMode.normal res)

next_results-six : (res : BipResult) → next_results 6 res ≡ res
unfolding next_result
next_results-six BipResult.safe = refl
next_results-six BipResult.out = refl
next_results-six BipResult.ground = refl
next_results-six BipResult.fly = refl
next_results-six BipResult.line = refl
next_results-six BipResult.iff = refl

-- The form after some clicks on the result key.
abbrev pub result_clicks : ℕ → Form → Form
result_clicks zero form = form
result_clicks (suc n) form = result_clicks n (cycle_bip form BipKey.key_res BipMode.normal)

cycle_bip-res :
    (form : Form)
    → (cycle_bip form BipKey.key_res BipMode.normal).bip.res
      ≡ next_result BipMode.normal form.bip.res
unfolding cycle_bip cycled
cycle_bip-res form =
    ap (λ b. b.res)
      (redraw-bip (record form { bip = cycled form.bip BipKey.key_res BipMode.normal }))

result_clicks-res :
    (n : ℕ) (form : Form) → (result_clicks n form).bip.res ≡ next_results n form.bip.res
result_clicks-res zero form = refl
result_clicks-res (suc n) form =
    result_clicks-res n (cycle_bip form BipKey.key_res BipMode.normal)
    ∙ ap (next_results n) (cycle_bip-res form)

-- In normal mode, six clicks on the result key lead back to the result.
pub result_clicks-six : (form : Form) → (result_clicks 6 form).bip.res ≡ form.bip.res
result_clicks-six form = result_clicks-res 6 form ∙ next_results-six form.bip.res

without_last-append : (xs : List String) (x : String) → without_last (xs ++ x ∷ []) ≡ xs
without_last-append [] x = refl
without_last-append (y ∷ []) x = refl
without_last-append (y ∷ z ∷ xs) x = ap (y ∷◌) (without_last-append (z ∷ xs) x)

-- A backspace takes back the position that was added last.
pub backspace_sequence-add_to_sequence :
    (form : Form) (position : String) → backspace_sequence (add_to_sequence form position) ≡ form
unfolding backspace_sequence add_to_sequence
backspace_sequence-add_to_sequence form position =
    ap (λ seq. record form { bip = record form.bip { seq = seq } })
      (without_last-append form.bip.seq position)

apply_smart_defaults-idle :
    (form : Form)
    → (is_drawn form.bip.res && not (has_location form.hit_data)) ≡ false
    → apply_smart_defaults form ≡ form
unfolding apply_smart_defaults
apply_smart_defaults-idle form h = rw (h, apply_smart_defaults) refl

apply_smart_defaults-free :
    (form : Form) (o : Option Point)
    → (is_drawn form.bip.res && not (has_location form.hit_data)) ≡ true
    → (first_fielder form.bip.seq >>= get_canonical_position) ≡ o
    → apply_smart_defaults form ≡ elim o [
      | none ↦ form
      | some position ↦ record form {
        hit_data = some (placed_hit form.bip.res form.hit_data position);
      }
    ]
unfolding apply_smart_defaults
apply_smart_defaults-free form o h e = rw (h, apply_smart_defaults, e) refl

-- The defaults, applied a second time, change nothing more.
pub apply_smart_defaults-twice :
    (form : Form) → apply_smart_defaults (apply_smart_defaults form) ≡ apply_smart_defaults form
apply_smart_defaults-twice form =
    elim (Bool-cases (is_drawn form.bip.res && not (has_location form.hit_data))) [
      | inr done ↦ ap apply_smart_defaults (apply_smart_defaults-idle form done)
      | inl free ↦ elim (Option-cases (first_fielder form.bip.seq >>= get_canonical_position)) [
        | inl nobody ↦ ap apply_smart_defaults (apply_smart_defaults-free form none free nobody)
        | inr (position, at) ↦
            let placed = apply_smart_defaults-free form (some position) free at in
            ap apply_smart_defaults placed
            ∙ apply_smart_defaults-idle
                (record form { hit_data = some (placed_hit form.bip.res form.hit_data position) })
                (ground arith)
            ∙ sym placed
      ]
    ]
