-- ===== src/History/Undo.antt =====
-- What undo does to the effective log (`getUndoTargetId` and `undo` of
-- frontend/game/historyManager.js).
use skorekeeper.Common.{
  String, Bool, true, false, not, List, [], ◌∷◌, ◌++◌, Option, none, some, filter, last?, str_eq,
  eq_iff, ◌≡◌, refl, sym, ap, ◌∙◌, ◌≢◌, arith, if◌then◌else◌, Option-cases, inl, inr,
}
use mathlib.Core.List.{append-nil}
use skorekeeper.Game.{State, initial_state, Action, Body}
use skorekeeper.Log.{
  is_undo, undo_target, mark_undone, undone_from, effectively_undone, is_effective, Game,
  attach_log, compute_state_from_log,
}
use skorekeeper.Log.Replay.{reduce_all, effective_log, compute_state_from_log-eq}
use skorekeeper.Log.Undone.{undone_from-append, elem-undone_from-cons, has_id, has_undo_id}
use skorekeeper.Log.Ids.{
  UniqueIds, filter-append, filter_effective-cons, UniqueIds-filter, has_undo_id-effective,
  has_id-last, filter-last,
}
use skorekeeper.History.{get_effective_log, undo_target_from, get_undo_target_id}

-- The action that `undo` and `redo` append, under a new id.
abbrev pub undo_action : String → String → Action
undo_action u t = record { id = u; body = Body.undo t }

abbrev pub id_of : Option Action → Option String
id_of none = none
id_of (some a) = some a.id

last?-ne-none : (x : Action) (xs : List Action) → last? (x ∷ xs) ≢ none
last?-ne-none x [] = cc
last?-ne-none x (y ∷ xs) = last?-ne-none y xs

last?-cons :
    (x : Action) (xs : List Action)
    → id_of (last? (x ∷ xs)) ≡ elim (id_of (last? xs)) [ some id ↦ some id | none ↦ some x.id ]
last?-cons x [] = refl
last?-cons x (y ∷ xs) = elim (Option-cases (last? (y ∷ xs))) [
  | inl e ↦ absurd (last?-ne-none y xs e)
  | inr (w, e) ↦ rw e
]

keep_some : (o : Option String) → elim o [ some id ↦ some id | none ↦ none ] ≡ o
keep_some none = refl
keep_some (some id) = refl

undo_target_step :
    (kept : Bool) (a : Action) (o : Option String) (rest : List Action)
    → o ≡ id_of (last? rest)
    → elim o [ some id ↦ some id | none ↦ if kept then some a.id else none ]
      ≡ id_of (last? (if kept then a ∷ rest else rest))
undo_target_step true a o rest h = rw h (sym (last?-cons a rest))
undo_target_step false a o rest h = rw h (keep_some (id_of (last? rest)))

undo_target_from-eq :
    (undone : List String) (log : List Action)
    → undo_target_from undone log ≡ id_of (last? (filter (is_effective undone) log))
unfolding undo_target_from
undo_target_from-eq undone [] = refl
undo_target_from-eq undone (a ∷ log) =
    undo_target_step (is_effective undone a) a (undo_target_from undone log)
      (filter (is_effective undone) log) (undo_target_from-eq undone log)

-- `getUndoTargetId` names the last action of the effective log.
pub get_undo_target_id-eq :
    (log : List Action) → get_undo_target_id log ≡ id_of (last? (get_effective_log log))
unfolding get_undo_target_id get_effective_log
get_undo_target_id-eq log = undo_target_from-eq (effectively_undone log) log

last?-append : (xs : List Action) (x : Action) → last? (xs ++ x ∷ []) ≡ some x
last?-append [] x = refl
last?-append (y ∷ []) x = refl
last?-append (y ∷ z ∷ xs) x = last?-append (z ∷ xs) x

undone-undo_action : (u t : String) → t ≢ "" → undone_from (undo_action u t ∷ []) [] ≡ t ∷ []
unfolding undone_from mark_undone undo_target
undone-undo_action u t h = ground (arith, eq_iff t "")

-- Behind a redo, the undo that it names does not count.
pub undone-redo_action :
    (u v t : String) → u ≢ "" → undone_from (undo_action u t ∷ undo_action v u ∷ []) [] ≡ u ∷ []
unfolding undone_from mark_undone undo_target
undone-redo_action u v t h = ground (arith, eq_iff u "", eq_iff u u)

pub undo_action-inert : (s : List String) (u t : String) → is_effective s (undo_action u t) ≡ false
unfolding is_undo
undo_action-inert s u t = ground arith

module _ (log : List Action) (u t : String) where
  pub effectively_undone-undo :
      t ≢ "" → effectively_undone (log ++ undo_action u t ∷ []) ≡ undone_from log (t ∷ [])
  unfolding effectively_undone
  effectively_undone-undo h =
      undone_from-append log (undo_action u t ∷ []) []
      ∙ ap (undone_from log) (undone-undo_action u t h)

  get_effective_log-undo :
      t ≢ ""
      → has_undo_id t log ≡ false
      → get_effective_log (log ++ undo_action u t ∷ [])
        ≡ filter (λ a. not (str_eq t a.id)) (get_effective_log log)
  unfolding get_effective_log
  get_effective_log-undo h n =
      rw
        (
          effectively_undone-undo h,
          filter-append,
          undo_action-inert (undone_from log (t ∷ [])),
          append-nil,
        )
        (filter_effective-cons (effectively_undone log) (undone_from log (t ∷ [])) t log
          (λ r. unfold effectively_undone in elem-undone_from-cons log [] t r n))

pub has_id-last? : (t : String) (xs : List Action) → id_of (last? xs) ≡ some t → has_id t xs ≡ true
has_id-last? t [] e = cc
has_id-last? t (x ∷ []) e = ground (arith, eq_iff x.id t)
has_id-last? t (x ∷ y ∷ xs) e = ground (arith, has_id-last? t (y ∷ xs))

abbrev pub state_of : Option Game → Option State
state_of none = none
state_of (some g) = some g.state

-- The computed state depends on the effective log alone.
pub state_of-compute :
    (log : List Action)
    → state_of (compute_state_from_log log) ≡ reduce_all initial_state (get_effective_log log)
unfolding get_effective_log
state_of-compute log =
    rw (compute_state_from_log-eq log)
      (state_of-attach_log log (reduce_all initial_state (effective_log log)))
  where
    state_of-attach_log : (l : List Action) (o : Option State) → state_of (attach_log l o) ≡ o
    state_of-attach_log l none = refl
    state_of-attach_log l (some s) = refl

-- Undo takes back exactly the last effective action: it names that action, and with the new entry
-- the effective log is the old one without it, and the computed state is the reducer's result
-- over that rest.
pub undo_last :
    (log : List Action) (u : String) (es : List Action) (x : Action)
    → UniqueIds log
    → x.id ≢ ""
    → get_effective_log log ≡ es ++ x ∷ []
    → (get_undo_target_id log ≡ some x.id)
      × (get_effective_log (log ++ undo_action u x.id ∷ []) ≡ es)
      × (state_of (compute_state_from_log (log ++ undo_action u x.id ∷ []))
          ≡ reduce_all initial_state es)
undo_last log u es x unique h e =
    let rest =
      get_effective_log-undo log u x.id h no_undo ∙ rw e (filter-last es x (rw e at kept)) in
    (
      get_undo_target_id-eq log ∙ ap (λ l. id_of (last? l)) e ∙ ap id_of (last?-append es x),
      rest,
      state_of-compute (log ++ undo_action u x.id ∷ []) ∙ ap (reduce_all initial_state) rest,
    )
  where
    kept : UniqueIds (get_effective_log log)
    kept =
        unfold get_effective_log in
        UniqueIds-filter (is_effective (effectively_undone log)) log unique

    effective : filter (is_effective (effectively_undone log)) log ≡ es ++ x ∷ []
    effective = unfold get_effective_log in e

    no_undo : has_undo_id x.id log ≡ false
    no_undo =
        has_undo_id-effective (effectively_undone log) x.id log unique
          (rw effective (has_id-last es x))
