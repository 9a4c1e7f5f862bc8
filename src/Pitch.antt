-- ===== src/Pitch.antt =====
-- `applyPitch` of frontend/reducer.js: one pitch to the batter of the active cell.
pub mod Bounds
pub mod Cell
use skorekeeper.Common.{
  ℕ, ◌+◌, min, String, Bool, true, false, List, [], ◌∷◌, ◌++◌, Option, none, some, foldl, find,
  last?, lookup, insert, or_text, str_eq, ltb, leb, if◌then◌else◌,
}
use skorekeeper.Common.Text.{◌+++◌, show_nat}
use skorekeeper.Game.{
  other_team, PitchType, PitchCode, PathMark, put_leg, PitchEntry, pitch, substitution, Event,
  blank_event, Slot, side, LogType, State, PitchPayload, event_key,
}
use skorekeeper.Outs.{inning_col_ids, calculate_inning_outs_exclude}

pub record Count : Type 0 where
  pub balls : ℕ
  pub strikes : ℕ

-- One round of the recount.
unfoldable pub count_pitch : Count → PitchEntry → Count
count_pitch c (substitution _) = c
count_pitch c (pitch PitchType.ball _ _) =
    if ltb c.balls 4 then record c { balls = c.balls + 1 } else c
count_pitch c (pitch PitchType.strike _ _) =
    if ltb c.strikes 3 then record c { strikes = c.strikes + 1 } else c
count_pitch c (pitch PitchType.foul _ _) =
    if ltb c.strikes 2 then record c { strikes = c.strikes + 1 } else c
count_pitch c (pitch _ _ _) = c

-- The recount of balls and strikes over the whole sequence.
unfoldable pub recount : List PitchEntry → Count
unfolding count_pitch
recount = foldl count_pitch (record { balls = 0; strikes = 0 })

-- The search for the batter's name in the roster, current player first.
slot_name : String → Slot → Option String
slot_name batter_id slot =
    if str_eq slot.current.id batter_id
    then some slot.current.name
    else if str_eq slot.starter.id batter_id
    then some slot.starter.name
    else elim (find (λ h. str_eq h.id batter_id) slot.history) [
      | none ↦ none
      | some h ↦ some h.name
    ]

unfoldable pub batter_name : String → List Slot → String
unfolding slot_name
batter_name batter_id [] = "Unknown"
batter_name batter_id (slot ∷ roster) = elim (slot_name batter_id slot) [
  | none ↦ batter_name batter_id roster
  | some name ↦ name
]

abbrev pub count_text : Event → String
count_text ev = show_nat ev.balls +++ "-" +++ show_nat ev.strikes

-- `!event.pId && batterId`
abbrev pub own_event : String → Option Event → Event
own_event batter_id none = blank_event batter_id
own_event batter_id (some ev) = record ev { p_id = or_text ev.p_id batter_id }

-- The event with the pitch appended and the count taken anew.
unfoldable pub push_pitch : PitchEntry → Event → Event
push_pitch p ev =
    let seq = ev.pitch_sequence ++ p ∷ [] in
    record ev { pitch_sequence = seq; balls = (recount seq).balls; strikes = (recount seq).strikes }

is_called : Option PitchEntry → Bool
is_called (some (pitch PitchType.strike PitchCode.called _)) = true
is_called _ = false

is_dropped : Option PitchEntry → Bool
is_dropped (some (pitch PitchType.strike PitchCode.dropped _)) = true
is_dropped _ = false

-- "Check Outcomes", with the outs that the inning had without this cell.
unfoldable pub settle_count : ℕ → Event → Event
unfolding is_called is_dropped
settle_count inning_outs ev =
    let last = last? ev.pitch_sequence in
    let struck = record ev { outcome = if is_called last then "ꓘ" else "K" } in
    if leb 4 ev.balls
    then record ev { outcome = "BB"; paths = put_leg 0 PathMark.safe ev.paths }
    else if leb 3 ev.strikes
    then (if is_dropped last then struck else record struck { out_num = min 3 (inning_outs + 1) })
    else ev

unfoldable pub apply_pitch : State → PitchPayload → State
unfolding push_pitch settle_count recount
apply_pitch state p =
    let key = event_key p.active_team p.active_ctx.b p.active_ctx.col in
    let pitcher = side (other_team p.active_team) state.pitchers in
    let event =
      push_pitch (pitch p.type p.code pitcher) (own_event p.batter_id (lookup key state.events)) in
    let inning_outs =
      calculate_inning_outs_exclude state.events p.active_team
        (inning_col_ids p.active_ctx.i state.columns) key in
    record state {
      events = insert key (settle_count inning_outs event) state.events;
      pitch_log =
          state.pitch_log
          ++ record {
            inning = p.active_ctx.i;
            team = p.active_team;
            batter = batter_name p.batter_id (side p.active_team state.roster);
            pitcher = pitcher;
            type = LogType.pitched p.type p.code;
            count = count_text event;
          }
            ∷ [];
    }
