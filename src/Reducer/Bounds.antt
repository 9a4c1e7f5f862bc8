-- ===== src/Reducer/Bounds.antt =====
-- `gameReducer` of frontend/reducer.js as a whole: the out numbers after an action.
use skorekeeper.Common.{
  ◌+◌, ◌≤◌, String, false, Option, none, some, [], Dict, All-filter, get_or, ◌≡◌, subst, some_inj,
  Option-cases, ◌⊎◌, inl, inr, Bool-cases, find, str_eq,
}
use skorekeeper.Game.{
  Team, Event, Column, State, Action, Body, is_runners_first, ImportPayload, LineupPayload,
}
use skorekeeper.Outs.Counted.{IsCounted, AllCounted}
use skorekeeper.Pitch.{apply_pitch}
use skorekeeper.Play.{apply_play_result}
use skorekeeper.Pitch.Cell.{AllCounted-apply_pitch}
use skorekeeper.Play.Bounds.{AllCounted-apply_play_result}
use skorekeeper.Runners.{
  runners_out, batter_key_of, apply_runner_advance, apply_runner_batch_update,
}
use skorekeeper.Runners.Bounds.{
  batter_outs, AllCounted-apply_runner_advance, AllCounted-apply_runner_batch_update,
}
use skorekeeper.Columns.{
  drop_cells, release, remove_found, released_column, remaining_columns, has_recorded_data,
  is_empty, apply_remove_column, apply_add_inning, apply_add_column, apply_set_inning_lead,
}
use skorekeeper.Roster.{apply_game_start, apply_lineup_update}
use skorekeeper.Roster.Slots.{AllCounted-apply_substitution}
use skorekeeper.Edits.{
  apply_game_finalize, apply_game_metadata_update, apply_game_import, apply_clear_data,
  apply_move_play, apply_pitcher_update, apply_score_override, apply_rbi_edit, apply_out_num_update,
  apply_manual_path_override,
}
use skorekeeper.Edits.Cells.{
  AllCounted-apply_rbi_edit, AllCounted-apply_out_num_update, AllCounted-apply_manual_path_override,
  AllCounted-apply_clear_data, AllCounted-apply_move_play,
}
use skorekeeper.Reducer.{reduce_body, game_reducer}

-- The out numbers that the action itself brings are at most 3.
abbrev pub Supplies : Body → Type 0
Supplies (Body.game_import p) = AllCounted (get_or p.events [])
Supplies (Body.move_play p) = IsCounted p.event_data
Supplies (Body.out_num_update key n) = n ≤ 3
Supplies (Body.manual_path_override key d) = get_or d.out_num 0 ≤ 3
Supplies _ = Unit

-- Of the state: where a runner advance puts the runners' outs first, the batter's out number and
-- the runners put out are 4 together at most. Every other action needs nothing.
abbrev pub HasRoom : State → Body → Type 0
HasRoom s (Body.runner_advance p) =
    (is_runners_first p.out_sequencing ≡ false)
    ⊎ (batter_outs (batter_key_of p.active) s.events + runners_out p.runners ≤ 4)
HasRoom s _ = Unit

AllCounted-apply_game_import :
    (s : State) (p : ImportPayload)
    → AllCounted (get_or p.events [])
    → AllCounted s.events
    → AllCounted (apply_game_import s p).events
unfolding apply_game_import
AllCounted-apply_game_import s p h c = imported p.events h c
  where
    imported :
        (o : Option (Dict Event))
        → AllCounted (get_or o [])
        → AllCounted s.events
        → AllCounted (get_or o s.events)
    imported none h c = c
    imported (some m) h c = h

AllCounted-release :
    (s : State) (id : String) (team : Team) (o : Option (Option Column))
    → AllCounted s.events
    → AllCounted (release s id team o).events
unfolding release drop_cells
AllCounted-release s id team none c = c
AllCounted-release s id team (some new) c = All-filter (λ b. IsCounted b.1) _ s.events c

AllCounted-remove_found :
    (s : State) (id : String) (team : Team) (col : Column)
    → AllCounted s.events
    → AllCounted (remove_found s id team col).events
unfolding remove_found
AllCounted-remove_found s id team col c =
    elim (Bool-cases (is_empty (remaining_columns s team col))) [
      | inl last ↦ rw last c
      | inr more ↦ elim (Bool-cases (has_recorded_data s team id)) [
        | inl recorded ↦ rw (more, recorded) c
        | inr blank ↦ rw (more, blank) (AllCounted-release s id team (released_column team col) c)
      ]
    ]

AllCounted-apply_remove_column :
    (s : State) (id : String) (team : Team)
    → AllCounted s.events
    → AllCounted (apply_remove_column s id team).events
unfolding apply_remove_column
AllCounted-apply_remove_column s id team c = found_case (find (λ c. str_eq c.id id) s.columns)
  where
    found_case :
        (o : Option Column)
        → AllCounted (State.events (elim o [ none ↦ s | some col ↦ remove_found s id team col ]))
    found_case none = c
    found_case (some col) = AllCounted-remove_found s id team col c

AllCounted-apply_lineup_update :
    (s t : State) (p : LineupPayload)
    → AllCounted s.events
    → apply_lineup_update s p ≡ some t
    → AllCounted t.events
unfolding apply_lineup_update
AllCounted-apply_lineup_update s t p c e = elim (Option-cases p.roster) [
  | inl missing ↦ absurd (let bad : none ≡ some t = rw missing at e in cc)
  | inr (roster, given) ↦ elim (Option-cases p.subs) [
    | inl missing ↦ absurd (let bad : none ≡ some t = rw (given, missing) at e in cc)
    | inr (subs, found) ↦
        subst (λ (v : State). AllCounted v.events) (some_inj _ t (rw (given, found) at e)) c
  ]
]

reached : (u t : State) → AllCounted u.events → some u ≡ some t → AllCounted t.events
reached u t c e = subst (λ (v : State). AllCounted v.events) (some_inj u t e) c

AllCounted-reduce_body :
    (s t : State) (b : Body)
    → Supplies b
    → HasRoom s b
    → AllCounted s.events
    → reduce_body s b ≡ some t
    → AllCounted t.events
unfolding reduce_body
AllCounted-reduce_body s t (Body.game_import p) h r c e =
    reached (apply_game_import s p) t (AllCounted-apply_game_import s p h c) e
AllCounted-reduce_body s t (Body.pitch p) h r c e =
    reached (apply_pitch s p) t (AllCounted-apply_pitch s p c) e
AllCounted-reduce_body s t (Body.play_result p) h r c e =
    reached (apply_play_result s p) t (AllCounted-apply_play_result s p c) e
AllCounted-reduce_body s t (Body.runner_advance p) h r c e =
    reached (apply_runner_advance s p) t (AllCounted-apply_runner_advance s p r c) e
AllCounted-reduce_body s t (Body.substitution p) h r c e = AllCounted-apply_substitution s t p c e
AllCounted-reduce_body s t (Body.move_play p) h r c e =
    reached (apply_move_play s p) t (AllCounted-apply_move_play s p h c) e
AllCounted-reduce_body s t (Body.clear_data p) h r c e =
    reached (apply_clear_data s p) t (AllCounted-apply_clear_data s p c) e
AllCounted-reduce_body s t (Body.runner_batch_update p) h r c e =
    reached (apply_runner_batch_update s p) t (AllCounted-apply_runner_batch_update s p c) e
AllCounted-reduce_body s t (Body.remove_column id team) h r c e =
    reached (apply_remove_column s id team) t (AllCounted-apply_remove_column s id team c) e
AllCounted-reduce_body s t (Body.rbi_edit key player) h r c e =
    reached (apply_rbi_edit s key player) t (AllCounted-apply_rbi_edit s key player c) e
AllCounted-reduce_body s t (Body.out_num_update key n) h r c e =
    reached (apply_out_num_update s key n) t (AllCounted-apply_out_num_update s key n h c) e
AllCounted-reduce_body s t (Body.manual_path_override key d) h r c e =
    reached (apply_manual_path_override s key d) t
      (AllCounted-apply_manual_path_override s key d h c) e
AllCounted-reduce_body s t (Body.game_start p) h r c e =
    reached (apply_game_start s p) t (unfold apply_game_start in c) e
AllCounted-reduce_body s t (Body.lineup_update p) h r c e = AllCounted-apply_lineup_update s t p c e
AllCounted-reduce_body s t (Body.score_override p) h r c e =
    reached (apply_score_override s p) t (unfold apply_score_override in c) e
AllCounted-reduce_body s t (Body.pitcher_update team pitcher) h r c e =
    reached (apply_pitcher_update s team pitcher) t (unfold apply_pitcher_update in c) e
AllCounted-reduce_body s t Body.add_inning h r c e =
    reached (apply_add_inning s) t (unfold apply_add_inning in c) e
AllCounted-reduce_body s t (Body.add_column i team) h r c e =
    reached (apply_add_column s i team) t (unfold apply_add_column in c) e
AllCounted-reduce_body s t (Body.game_metadata_update p) h r c e =
    reached (apply_game_metadata_update s p) t (unfold apply_game_metadata_update in c) e
AllCounted-reduce_body s t (Body.set_inning_lead team id row) h r c e =
    reached (apply_set_inning_lead s team id row) t (unfold apply_set_inning_lead in c) e
AllCounted-reduce_body s t Body.game_finalize h r c e =
    reached (apply_game_finalize s) t (unfold apply_game_finalize in c) e
AllCounted-reduce_body s t (Body.undo ref_id) h r c e = reached s t c e
AllCounted-reduce_body s t (Body.unknown type) h r c e = reached s t c e

-- If every out number of the state and every out number that the action itself brings is at most 3,
-- and, for a runner advance with the runners' outs first, the batter's out number and the runners
-- put out are 4 together at most, every out number is at most 3 after the reducer returns.
pub AllCounted-game_reducer :
    (s t : State) (a : Action)
    → Supplies a.body
    → HasRoom s a.body
    → AllCounted s.events
    → game_reducer s a ≡ some t
    → AllCounted t.events
unfolding game_reducer
AllCounted-game_reducer s t a h r c e = AllCounted-reduce_body s t a.body h r c e
