-- ===== src/Log/Runs.antt =====
-- `computeStateFromLog` against a semantics of its own: what a log means, step by step.
use skorekeeper.Common.{
  String, true, false, List, [], ◌∷◌, Option, none, some, elem, ◌≡◌, refl, ap, ◌∙◌, sym, subst, ◌≢◌,
  ◌↔◌, Bool-cases, Option-cases, some_inj, inl, inr, arith,
}
use skorekeeper.Game.{State, initial_state, Action, Body}
use skorekeeper.Reducer.{game_reducer}
use skorekeeper.Log.{
  is_undo, is_effective, effectively_undone, replay, Game, attach_log, compute_state_from_log,
}
use skorekeeper.Log.Undone.{IsUndone, elem-effectively_undone_iff}

-- The rest of the log leads from one state to another: an undo, and an action that the log undoes,
-- change nothing; any other action is a step of the reducer.
pub data Runs (log : List Action) : State → List Action → State → Type 0 where
  done : {s : State} → Runs log s [] s
  undo :
      {s t : State} {rest : List Action} (a : Action) (ref_id : String)
      → a.body ≡ Body.undo ref_id
      → Runs log s rest t
      → Runs log s (a ∷ rest) t
  undone :
      {s t : State} {rest : List Action} (a : Action)
      → IsUndone a.id log
      → Runs log s rest t
      → Runs log s (a ∷ rest) t
  active :
      {s u t : State} {rest : List Action} (a : Action)
      → ((ref_id : String) → a.body ≢ Body.undo ref_id)
      → (¬ IsUndone a.id log)
      → game_reducer s a ≡ some u
      → Runs log u rest t
      → Runs log s (a ∷ rest) t

is_undo-eq-true : (b : Body) → is_undo b ≡ true → (ref_id : String) × (b ≡ Body.undo ref_id)
unfolding is_undo
is_undo-eq-true (Body.undo ref_id) h = (ref_id, refl)
is_undo-eq-true _ h = absurd cc

is_undo-undo : (b : Body) (ref_id : String) → b ≡ Body.undo ref_id → is_undo b ≡ true
unfolding is_undo
is_undo-undo b ref_id e = ap is_undo e

module _ (log : List Action) where
  undone_not_effective :
      (a : Action) → IsUndone a.id log → is_effective (effectively_undone log) a ≡ false
  undone_not_effective a u = let e = (elem-effectively_undone_iff log a.id).1 u in rw e refl

  undo_not_effective :
      (a : Action) (ref_id : String)
      → a.body ≡ Body.undo ref_id
      → is_effective (effectively_undone log) a ≡ false
  undo_not_effective a ref_id e = let undo = is_undo-undo a.body ref_id e in ground (arith, undo)

  active_effective :
      (a : Action)
      → ((ref_id : String) → a.body ≢ Body.undo ref_id)
      → (¬ IsUndone a.id log)
      → is_effective (effectively_undone log) a ≡ true
  active_effective a named live = elim (Bool-cases (is_undo a.body)) [
    | inl yes_undo ↦ let (r, e) = is_undo-eq-true a.body yes_undo in absurd (named r e)
    | inr other ↦ elim (Bool-cases (elem a.id (effectively_undone log))) [
      | inl found ↦ absurd (live ((elem-effectively_undone_iff log a.id).0 found))
      | inr free ↦ rw (free, other) refl
    ]
  ]

  replay-Runs :
      (s t : State) (rest : List Action)
      → replay (effectively_undone log) s rest ≡ some t
      → Runs log s rest t
  unfolding replay
  replay-Runs s t [] h = subst (λ u. Runs log s [] u) (some_inj s t h) done
  replay-Runs s t (a ∷ rest) h = elim (Bool-cases (elem a.id (effectively_undone log))) [
    | inl found ↦
        undone a ((elem-effectively_undone_iff log a.id).0 found)
          (replay-Runs s t rest (rw found at h))
    | inr free ↦ elim (Bool-cases (is_undo a.body)) [
      | inl names ↦
          let (r, e) = is_undo-eq-true a.body names in
          undo a r e (replay-Runs s t rest (rw (free, names) at h))
      | inr other ↦ elim (Option-cases (game_reducer s a)) [
        | inl raised ↦ absurd (let bad : none ≡ some t = rw (free, other, raised) at h in cc)
        | inr (u, step) ↦
            active a (λ r e. let named = is_undo-undo a.body r e in cc)
              (λ gone. let found = (elem-effectively_undone_iff log a.id).1 gone in cc) step
              (replay-Runs u t rest (rw (free, other, step) at h))
      ]
    ]
  ]

  Runs-replay :
      {s t : State} {rest : List Action}
      → Runs log s rest t
      → replay (effectively_undone log) s rest ≡ some t
  unfolding replay
  Runs-replay done = refl
  Runs-replay (undo a r e run) = rw (undo_not_effective a r e) (Runs-replay run)
  Runs-replay (undone a u run) = rw (undone_not_effective a u) (Runs-replay run)
  Runs-replay (active a named live step run) =
      rw (active_effective a named live, step) (Runs-replay run)

attach_log-eq-some :
    (log : List Action) (o : Option State) (g : Game)
    → attach_log log o ≡ some g
    → (g.action_log ≡ log) × (o ≡ some g.state)
attach_log-eq-some log none g h = absurd cc
attach_log-eq-some log (some s) g h =
    let same = some_inj (record { state = s; action_log = log }) g h in
    (ap Game.action_log (sym same), ap (λ (x : Game). some x.state) same)

replay-eq-compute_state_from_log :
    (log : List Action)
    → compute_state_from_log log
      ≡ attach_log log (replay (effectively_undone log) initial_state log)
unfolding compute_state_from_log replay
replay-eq-compute_state_from_log [] = refl
replay-eq-compute_state_from_log (a ∷ log) = refl

-- `computeStateFromLog` returns a game exactly if the log, step by step, leads from the initial
-- state to the state of the game, and the game has the log as its action log. In the steps an undo
-- changes nothing, nor does an action whose id some undo names that is not itself undone by what
-- follows it; every other action is the reducer's step, and where that raises there is no step.
pub compute_state_from_log-Runs :
    (log : List Action) (g : Game)
    → (compute_state_from_log log ≡ some g)
      ↔ ((g.action_log ≡ log) × Runs log initial_state log g.state)
compute_state_from_log-Runs log g = (
  λ h.
      let (same, ran) =
        attach_log-eq-some log (replay (effectively_undone log) initial_state log) g
          (sym (replay-eq-compute_state_from_log log) ∙ h) in
      (same, replay-Runs log initial_state g.state log ran),
  λ h.
      replay-eq-compute_state_from_log log
      ∙ ap (attach_log log) (Runs-replay log h.1)
      ∙ ap (λ l. some (record { state = g.state; action_log = l })) (sym h.0),
)
