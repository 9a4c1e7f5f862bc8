-- ===== src/Dispatch/Refinement.antt =====
-- The incremental state of `dispatch` (frontend/controllers/ActiveGameController.js) against the
-- replay of the log.
use skorekeeper.Common.{
  true, false, List, [], ◌∷◌, ◌++◌, Option, none, some, ◌≡◌, sym, ap, subst, some_inj, ◌∙◌, ◌⊎◌,
  inl, inr, arith, Bool-cases, Option-cases,
}
use skorekeeper.Game.{State, initial_state, Action}
use skorekeeper.Reducer.{game_reducer}
use skorekeeper.Log.{
  is_undo, mark_undone, undone_from, effectively_undone, Game, attach_log, compute_state_from_log,
}
use skorekeeper.Log.Undone.{
  undone_from-append, undo_target-not_undo, elem-undone_from-no_ref, has_ref,
}
use skorekeeper.Log.Ids.{filter-append}
use skorekeeper.Log.Replay.{reduce_all, reduce_all-append, effective_log, compute_state_from_log-eq}
use skorekeeper.Dispatch.{in_log, dispatch}

-- The state is the one that the log computes.
abbrev pub IsReplayed : Game → Type 0
IsReplayed g = compute_state_from_log g.action_log ≡ some g

attach_log-some :
    (log : List Action) (o : Option State) (g : Game)
    → attach_log log o ≡ some g
    → (g.action_log ≡ log) × (o ≡ some g.state)
attach_log-some log none g h = cc
attach_log-some log (some s) g h = ground arith

IsReplayed-compute :
    (log : List Action) (g : Game) → compute_state_from_log log ≡ some g → IsReplayed g
IsReplayed-compute log g h =
    let (same, _) = attach_log-some log _ g (sym (compute_state_from_log-eq log) ∙ h) in
    ap compute_state_from_log same ∙ h

mark_undone-other : (a : Action) → is_undo a.body ≡ false → mark_undone [] a ≡ []
unfolding mark_undone
mark_undone-other a h = rw (undo_target-not_undo a.body h)

-- A new action that no undo names is effective, and changes nothing for the others.
effective_log-append :
    (log : List Action) (a : Action)
    → is_undo a.body ≡ false
    → has_ref a.id log ≡ false
    → effective_log (log ++ a ∷ []) ≡ effective_log log ++ a ∷ []
unfolding effectively_undone undone_from
effective_log-append log a other unnamed = rw (
  undone_from-append log (a ∷ []) [],
  mark_undone-other a other,
  filter-append,
  elem-undone_from-no_ref log [] a.id unnamed,
  other,
)

-- The replay of the longer log is one more step of the reducer.
reduce_all-dispatched :
    (log : List Action) (a : Action) (s t : State)
    → is_undo a.body ≡ false
    → has_ref a.id log ≡ false
    → reduce_all initial_state (effective_log log) ≡ some s
    → game_reducer s a ≡ some t
    → reduce_all initial_state (effective_log (log ++ a ∷ [])) ≡ some t
reduce_all-dispatched log a s t other unnamed before step =
    ap (reduce_all initial_state) (effective_log-append log a other unnamed)
    ∙ reduce_all-append initial_state (effective_log log) (a ∷ [])
    ∙ rw (before, step)

apply-IsReplayed :
    (g : Game) (a : Action) (t : State)
    → IsReplayed g
    → is_undo a.body ≡ false
    → has_ref a.id g.action_log ≡ false
    → game_reducer g.state a ≡ some t
    → IsReplayed (record { state = t; action_log = g.action_log ++ a ∷ [] })
apply-IsReplayed g a t replayed other unnamed step =
    let log = g.action_log ++ a ∷ [] in
    let before =
      (attach_log-some g.action_log _ g
        (sym (compute_state_from_log-eq g.action_log) ∙ replayed)).1 in
    compute_state_from_log-eq log
    ∙ ap (attach_log log) (reduce_all-dispatched g.action_log a g.state t other unnamed before step)

-- Dispatch keeps the state equal to the replay of the log, for an undo and for an action that no
-- undo of the log names; an action that the log has changes nothing.
pub dispatch-IsReplayed :
    (g h : Game) (a : Action)
    → IsReplayed g
    → (is_undo a.body ≡ true) ⊎ (has_ref a.id g.action_log ≡ false)
    → dispatch g a ≡ some h
    → IsReplayed h
unfolding dispatch
dispatch-IsReplayed g h a replayed named e = elim (Bool-cases (in_log a.id g.action_log)) [
  | inl known ↦ let same : g ≡ h = ground arith in subst IsReplayed same replayed
  | inr new ↦ elim (Bool-cases (is_undo a.body)) [
    | inl undo ↦ IsReplayed-compute (g.action_log ++ a ∷ []) h (ground arith)
    | inr other ↦ elim (Option-cases (game_reducer g.state a)) [
      | inl raised ↦ cc (rw (new, other, raised) at e)
      | inr (t, step) ↦
          let unnamed : has_ref a.id g.action_log ≡ false = ground arith in
          let same : record { state = t; action_log = g.action_log ++ a ∷ [] } ≡ h =
            some_inj _ _ (rw (new, other, step) at e) in
          subst IsReplayed same (apply-IsReplayed g a t replayed other unnamed step)
    ]
  ]
]
