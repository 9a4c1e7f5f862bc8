-- ===== src/Log/Replay.antt =====
-- `computeStateFromLog` against its specification: the reducer run over the effective actions.
use skorekeeper.Common.{
  String, List, [], ◌∷◌, ◌++◌, Option, none, some, filter, ◌≡◌, refl, ap, Bool-cases, Option-cases,
  inl, inr, ◌>>=◌,
}
use skorekeeper.Game.{State, initial_state, Action}
use skorekeeper.Reducer.{game_reducer}
use skorekeeper.Log.{effectively_undone, is_effective, replay, attach_log, compute_state_from_log}

-- The reducer run over a list of actions, up to the first that raises.
abbrev pub reduce_all : State → List Action → Option State
reduce_all s [] = some s
reduce_all s (a ∷ log) = game_reducer s a >>= λ t. reduce_all t log

-- `getEffectiveLog` of the same log.
abbrev pub effective_log : List Action → List Action
effective_log log = filter (is_effective (effectively_undone log)) log

next-eq :
    (undone : List String) (log : List Action) (o : Option State)
    → ((t : State) → replay undone t log ≡ reduce_all t (filter (is_effective undone) log))
    → (o >>= λ t. replay undone t log)
      ≡ (o >>= λ t. reduce_all t (filter (is_effective undone) log))
next-eq undone log none ih = refl
next-eq undone log (some t) ih = ih t

-- The loop that skips undone actions is the reducer over the list without them.
pub replay-eq-reduce_all :
    (undone : List String) (s : State) (log : List Action)
    → replay undone s log ≡ reduce_all s (filter (is_effective undone) log)
unfolding replay
replay-eq-reduce_all undone s [] = refl
replay-eq-reduce_all undone s (a ∷ log) = elim (Bool-cases (is_effective undone a)) [
  | inl effective ↦
      rw effective (next-eq undone log (game_reducer s a) (λ t. replay-eq-reduce_all undone t log))
  | inr other ↦ rw other (replay-eq-reduce_all undone s log)
]

pub reduce_all-append :
    (s : State) (xs ys : List Action)
    → reduce_all s (xs ++ ys) ≡ (reduce_all s xs >>= λ t. reduce_all t ys)
reduce_all-append s [] ys = refl
reduce_all-append s (a ∷ xs) ys = elim (Option-cases (game_reducer s a)) [
  | inl raised ↦ rw raised
  | inr (t, done) ↦ rw done (reduce_all-append t xs ys)
]

-- The computed state is the reducer's result over the effective actions, in their order, from the
-- initial state, with the whole log attached; it raises when the reducer does.
pub compute_state_from_log-eq :
    (log : List Action)
    → compute_state_from_log log ≡ attach_log log (reduce_all initial_state (effective_log log))
unfolding compute_state_from_log
compute_state_from_log-eq [] = refl
compute_state_from_log-eq (a ∷ log) =
    ap (attach_log (a ∷ log))
      (replay-eq-reduce_all (effectively_undone (a ∷ log)) initial_state (a ∷ log))
