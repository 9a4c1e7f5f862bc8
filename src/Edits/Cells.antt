-- ===== src/Edits/Cells.antt =====
-- Cells and overrides under the edits of frontend/reducer.js.
use skorekeeper.Common.{
  ℕ, ◌≤◌, String, Option, none, some, Dict, lookup, insert, lookup-insert, lookup-erase,
  AllValues-lookup, AllValues-erase, get_or, str_eq, if◌then◌else◌, ◌≡◌, ◌∙◌, ap, inl, inr, arith,
  Option-cases,
}
use skorekeeper.Game.{Event, blank_event, State, Score, MovePayload, ClearPayload, EventPatch}
use skorekeeper.Outs.Counted.{IsCounted, AllCounted, AllCounted-insert, IsCounted-found}
use skorekeeper.Edits.{
  apply_clear_data, apply_move_play, is_no_score, override_score, edit_event, apply_rbi_edit,
  apply_out_num_update, patch_event, apply_manual_path_override,
}

-- A moved play: the source cell is gone, also where it is the target; the target cell has the data
-- given; all others are as they were.
pub lookup-apply_move_play :
    (s : State) (p : MovePayload) (k : String)
    → lookup k (apply_move_play s p).events ≡ (
        if str_eq p.source_key k
        then none
        else if str_eq p.target_key k
        then some p.event_data
        else lookup k s.events)
unfolding apply_move_play
lookup-apply_move_play s p k =
    lookup-erase p.source_key k (insert p.target_key p.event_data s.events)
    ∙ ap (λ (o : Option Event). if str_eq p.source_key k then none else o)
        (lookup-insert p.target_key k p.event_data s.events)

-- A score override: a blank one removes the inning's entry, any other sets it, and the entries of
-- other innings stay.
pub lookup-override_score :
    (inning k : String) (score : Option Score) (scores : Dict Score)
    → lookup k (override_score inning score scores)
      ≡ (if str_eq inning k then (if is_no_score score then none else score) else lookup k scores)
unfolding override_score is_no_score
lookup-override_score inning k none scores = lookup-erase inning k scores
lookup-override_score inning k (some (Score.num n)) scores =
    lookup-insert inning k (Score.num n) scores
lookup-override_score inning k (some (Score.text t)) scores =
    ground (arith, lookup-erase inning k scores, lookup-insert inning k (Score.text t) scores)

AllCounted-edit_event :
    (key : String) (f : Event → Event) (s : State)
    → ((ev : Event) → IsCounted ev → IsCounted (f ev))
    → AllCounted s.events
    → AllCounted (edit_event key f s).events
AllCounted-edit_event key f s h c = elim (Option-cases (lookup key s.events)) [
  | inl missing ↦ rw (missing, edit_event) c
  | inr (ev, found) ↦
      rw (found, edit_event)
        (AllCounted-insert key (f ev) s.events c
          (h ev (AllValues-lookup IsCounted key s.events c found)))
]

pub AllCounted-apply_rbi_edit :
    (s : State) (key player : String)
    → AllCounted s.events
    → AllCounted (apply_rbi_edit s key player).events
unfolding apply_rbi_edit
AllCounted-apply_rbi_edit s key player c = AllCounted-edit_event key _ s (λ ev h. h) c

pub AllCounted-apply_out_num_update :
    (s : State) (key : String) (n : ℕ)
    → n ≤ 3
    → AllCounted s.events
    → AllCounted (apply_out_num_update s key n).events
unfolding apply_out_num_update
AllCounted-apply_out_num_update s key n h c = AllCounted-edit_event key _ s (λ ev k. h) c

pub AllCounted-apply_manual_path_override :
    (s : State) (key : String) (d : EventPatch)
    → get_or d.out_num 0 ≤ 3
    → AllCounted s.events
    → AllCounted (apply_manual_path_override s key d).events
unfolding apply_manual_path_override patch_event
AllCounted-apply_manual_path_override s key d h c =
    let before = IsCounted-found key "" s.events c in
    AllCounted-insert key (patch_event d (get_or (lookup key s.events) (blank_event ""))) s.events c
      (patched d.out_num (get_or (lookup key s.events) (blank_event "")).out_num h before)
  where
    patched : (o : Option ℕ) (n : ℕ) → get_or o 0 ≤ 3 → n ≤ 3 → get_or o n ≤ 3
    patched none n h k = k
    patched (some m) n h k = h

pub AllCounted-apply_clear_data :
    (s : State) (p : ClearPayload) → AllCounted s.events → AllCounted (apply_clear_data s p).events
unfolding apply_clear_data
AllCounted-apply_clear_data s p c =
    AllCounted-insert _ (blank_event p.batter_id) s.events c (omega arith)

pub AllCounted-apply_move_play :
    (s : State) (p : MovePayload)
    → IsCounted p.event_data
    → AllCounted s.events
    → AllCounted (apply_move_play s p).events
unfolding apply_move_play
AllCounted-apply_move_play s p h c =
    AllValues-erase IsCounted p.source_key (insert p.target_key p.event_data s.events)
      (AllCounted-insert p.target_key p.event_data s.events c h)
