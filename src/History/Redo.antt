-- ===== src/History/Redo.antt =====
-- What redo does to the effective log (`getRedoTargetId` and `redo` of
-- frontend/game/historyManager.js).
use skorekeeper.Common.{
  String, true, false, List, [], ◌∷◌, ◌++◌, Option, none, some, filter, elem, str_eq, eq_iff, ◌≡◌,
  refl, sym, ap, ◌∙◌, ◌≢◌, ◌⊎◌, arith, inl,
}
use mathlib.Core.List.{append-nil}
use skorekeeper.Game.{initial_state, Action}
use skorekeeper.Log.{is_undo, undone_from, effectively_undone, is_effective, compute_state_from_log}
use skorekeeper.Log.Replay.{reduce_all}
use skorekeeper.Log.Undone.{
  undone_from-append, elem-undone_from-cons, elem-undone_from-no_ref, has_id, has_undo_id,
}
use skorekeeper.Log.Ids.{
  UniqueIds, IsFresh, filter-append, filter_effective-unused, has_undo_id_of_has_id,
  has_undo_id-effective, has_id_mono,
}
use skorekeeper.History.{
  get_effective_log, get_undo_target_id, find_action, names_other, redo_step, redo_target_from,
  found, get_redo_target_id, stop,
}
use skorekeeper.History.Undo.{
  undo_action, undone-redo_action, undo_action-inert, effectively_undone-undo, has_id-last?,
  state_of, state_of-compute, get_undo_target_id-eq,
}

find_action-last :
    (id : String) (log : List Action) (y : Action)
    → str_eq y.id id ≡ false
    → find_action id (log ++ y ∷ []) ≡ find_action id log
unfolding find_action
find_action-last id [] y h = rw h
find_action-last id (a ∷ log) y h = rw (find_action-last id log y h)

-- The action that an id names is no undo, where no undo has the id.
find_action-cases :
    (id : String) (log : List Action)
    → has_undo_id id log ≡ false
    → ((find_action id log ≡ none) × (has_id id log ≡ false))
      ⊎ (names_other (find_action id log) ≡ true)
unfolding find_action
find_action-cases id [] n = inl (refl, refl)
find_action-cases id (a ∷ log) n = ground (arith, find_action-cases id log)

names_other-find_action :
    (id : String) (log : List Action)
    → has_id id log ≡ true
    → has_undo_id id log ≡ false
    → names_other (find_action id log) ≡ true
names_other-find_action id log h n = ground (arith, find_action-cases id log n)

redo_target_from-last :
    (undone : List String) (all log : List Action) (y : Action) (r : Option String)
    → redo_step undone all y ≡ stop r
    → redo_target_from undone all (log ++ y ∷ []) ≡ stop r
unfolding redo_target_from
redo_target_from-last undone all [] y r h = h
redo_target_from-last undone all (a ∷ log) y r h = rw (redo_target_from-last undone all log y r h)

module _ (log : List Action) (u : String) (fresh : IsFresh u log) where
  -- The loop of `getRedoTargetId` stops at the undo at the end of the log.
  redo_step-undo_action :
      (t : String)
      → t ≢ ""
      → has_id t log ≡ true
      → has_undo_id t log ≡ false
      → redo_step (undone_from log (t ∷ [])) (log ++ undo_action u t ∷ []) (undo_action u t)
        ≡ stop (some u)
  unfolding redo_step is_undo
  redo_step-undo_action t h known other =
      let differ : str_eq u t ≡ false = ground (arith, eq_iff u t, fresh.unused) in
      let still : elem u (undone_from log (t ∷ [])) ≡ false =
        ground
          (arith, eq_iff t u, eq_iff u t, elem-undone_from-no_ref log (t ∷ []) u fresh.unnamed) in
      rw (
        still,
        find_action-last t log (undo_action u t) differ,
        names_other-find_action t log known other,
      )

  get_redo_target_id-undo :
      (t : String)
      → t ≢ ""
      → has_id t log ≡ true
      → has_undo_id t log ≡ false
      → get_redo_target_id (log ++ undo_action u t ∷ []) ≡ some u
  unfolding get_redo_target_id
  get_redo_target_id-undo t h known other = rw (effectively_undone-undo log u t h) (
      ap found (
        redo_target_from-last (undone_from log (t ∷ [])) (log ++ undo_action u t ∷ []) log
          (undo_action u t) (some u) (redo_step-undo_action t h known other)))

  effectively_undone-redo :
      (t v : String)
      → effectively_undone (log ++ undo_action u t ∷ undo_action v u ∷ [])
        ≡ undone_from log (u ∷ [])
  unfolding effectively_undone
  effectively_undone-redo t v =
      undone_from-append log (undo_action u t ∷ undo_action v u ∷ []) []
      ∙ ap (undone_from log) (undone-redo_action u v t fresh.nonempty)

  get_effective_log-redo :
      (t v : String)
      → get_effective_log (log ++ undo_action u t ∷ undo_action v u ∷ []) ≡ get_effective_log log
  unfolding get_effective_log
  get_effective_log-redo t v =
      let undone = undone_from log (u ∷ []) in
      rw
        (
          effectively_undone-redo t v,
          filter-append,
          undo_action-inert undone u t,
          undo_action-inert undone v u,
          append-nil,
        )
        (filter_effective-unused (effectively_undone log) undone u log
          (λ r.
            unfold effectively_undone in
            elem-undone_from-cons log [] u r (has_undo_id_of_has_id u log fresh.unused))
          fresh.unused)

-- Undo, then redo: in a log with unique ids, after an undo of the action that `getUndoTargetId`
-- names, under a new id, `getRedoTargetId` names that undo; and the undo of the undo, under any id,
-- gives back the effective log and the computed state.
pub redo-undo :
    (log : List Action) (u v t : String)
    → UniqueIds log
    → IsFresh u log
    → t ≢ ""
    → get_undo_target_id log ≡ some t
    → (get_redo_target_id (log ++ undo_action u t ∷ []) ≡ some u)
      × (get_effective_log (log ++ undo_action u t ∷ undo_action v u ∷ []) ≡ get_effective_log log)
      × (state_of (compute_state_from_log (log ++ undo_action u t ∷ undo_action v u ∷ []))
          ≡ state_of (compute_state_from_log log))
redo-undo log u v t unique fresh h target =
    let restored = get_effective_log-redo log u fresh t v in
    (
      get_redo_target_id-undo log u fresh t h
          (has_id_mono (is_effective (effectively_undone log)) t log effective)
          (has_undo_id-effective (effectively_undone log) t log unique effective),
      restored,
      state_of-compute (log ++ undo_action u t ∷ undo_action v u ∷ [])
          ∙ ap (reduce_all initial_state) restored
          ∙ sym (state_of-compute log),
    )
  where
    effective : has_id t (filter (is_effective (effectively_undone log)) log) ≡ true
    effective =
        unfold get_effective_log in
        has_id-last? t (get_effective_log log) (sym (get_undo_target_id-eq log) ∙ target)
