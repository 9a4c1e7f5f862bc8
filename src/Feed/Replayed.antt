-- ===== src/Feed/Replayed.antt =====
-- The states that the history shows are those that the reducer reaches.
use skorekeeper.Common.{
  suc, String, Bool, true, false, List, [], ◌∷◌, ◌++◌, Option, none, some, ◌>>=◌, get_elem?, length,
  if◌then◌else◌, ◌≡◌, refl, sym, ap, ◌∙◌, inl, inr, Bool-cases, Option-cases, some_inj,
}
use mathlib.Core.List.{append-nil}
use skorekeeper.Game.{State, Action}
use skorekeeper.Reducer.{game_reducer}
use skorekeeper.Feed.{Item}
use skorekeeper.Feed.Rows.{Row, header, play}
use skorekeeper.Feed.Snapshots.{
  Snap, row_key, narrative_for, infer_column, apply_events, leave, visit, propagate_from,
}

-- The actions of the plays that are not struck.
abbrev pub live_events : List Row → List Action
live_events [] = []
live_events (header h ∷ rows) = live_events rows
live_events (play h ∷ rows) =
    let rest = live_events rows in if h.is_stricken then rest else h.events ++ rest

apply_events-append :
    (s : State) (xs ys : List Action)
    → apply_events s (xs ++ ys) ≡ (apply_events s xs >>= λ t. apply_events t ys)
unfolding apply_events
apply_events-append s [] ys = refl
apply_events-append s (a ∷ xs) ys = elim (Option-cases (game_reducer (infer_column a s) a)) [
  | inl raised ↦ rw raised refl
  | inr (t, next) ↦ rw next (apply_events-append t xs ys)
]

-- What the snapshot before a row tells: the state after the events, seen for the row.
abbrev pub ShowsState : State → List Action → Row → Option Snap → Type 0
ShowsState s events r shown =
    (t : State) × (snap : Snap) × (apply_events s events ≡ some t)
    × (shown ≡ some snap)
    × (snap.row ≡ r)
    × (narrative_for (row_key r) t ≡ some snap.state_before)

bind-some {ℓ κ} :
    {A : Type ℓ} {B : Type κ} (o : Option A) (f : A → Option B) {b : B}
    → (o >>= f) ≡ some b
    → (a : A) × (o ≡ some a) × (f a ≡ some b)
bind-some none f h = absurd cc
bind-some (some a) f h = (a, refl, h)

leave_lem :
    (s reached : State) (snap : Snap) (key : String) (b : Bool) (o : Snap × State)
    → leave s reached snap key b ≡ some o
    → (o.0.row ≡ snap.row)
      × (o.0.state_before ≡ snap.state_before)
      × (o.1 ≡ (if b then s else reached))
unfolding leave
leave_lem s reached snap key true o e =
    let same = some_inj _ _ e in
    (ap (λ v. v.0.row) (sym same), ap (λ v. v.0.state_before) (sym same), ap (λ v. v.1) (sym same))
leave_lem s reached snap key false o e =
    let (after, known, made) =
      bind-some (narrative_for key reached)
        (λ after. some (record snap { state_after = some after }, reached)) e in
    let same = some_inj _ _ made in
    (ap (λ v. v.0.row) (sym same), ap (λ v. v.0.state_before) (sym same), ap (λ v. v.1) (sym same))

apply_events-live :
    (s reached : State) (h : Item)
    → apply_events s h.events ≡ some reached
    → apply_events s (live_events (play h ∷ [])) ≡ some (if h.is_stricken then s else reached)
unfolding apply_events
apply_events-live s reached h e = elim (Bool-cases h.is_stricken) [
  | inl struck ↦ rw struck refl
  | inr live ↦ rw live (ap (apply_events s) (append-nil h.events) ∙ e)
]

-- What one round leaves.
abbrev IsVisit : State → Row → Snap → State → Type 0
IsVisit s r snap t =
    (snap.row ≡ r)
    × (narrative_for (row_key r) s ≡ some snap.state_before)
    × (apply_events s (live_events (r ∷ [])) ≡ some t)

IsVisit-visit :
    (s : State) (r : Row) (snap : Snap) (t : State)
    → visit s r ≡ some (snap, t)
    → IsVisit s r snap t
unfolding visit apply_events
IsVisit-visit s (header h) snap t e =
    let (before, seen, made) = bind-some _ _ e in
    let same = some_inj _ _ made in
    (
      ap (λ o. o.0.row) (sym same),
      seen ∙ ap (λ o. some o.0.state_before) same,
      ap (λ o. some o.1) same,
    )
IsVisit-visit s (play h) snap t e =
    let (before, seen, more) = bind-some _ _ e in
    let (reached, applied, left) = bind-some _ _ more in
    let facts = leave_lem s reached _ h.ctx_key h.is_stricken (snap, t) left in
    (
      facts.0,
      seen ∙ ap some (sym facts.1),
      apply_events-live s reached h applied ∙ ap some (sym facts.2),
    )

live_events-cons :
    (r : Row) (rows : List Row) → live_events (r ∷ rows) ≡ live_events (r ∷ []) ++ live_events rows
live_events-cons (header h) rows = refl
live_events-cons (play h) rows = elim (Bool-cases h.is_stricken) [
  | inl struck ↦ rw struck refl
  | inr live ↦ rw live (ap (λ xs. xs ++ live_events rows) (sym (append-nil h.events)))
]

propagate_from-cons :
    (s : State) (r : Row) (rows : List Row) (shown : List Snap)
    → propagate_from s (r ∷ rows) ≡ some shown
    → (snap : Snap) × (t : State) × (rest : List Snap) × IsVisit s r snap t
      × (propagate_from t rows ≡ some rest)
      × (snap ∷ rest ≡ shown)
unfolding propagate_from
propagate_from-cons s r rows shown e =
    let (o, visited, more) =
      bind-some (visit s r) (λ o. propagate_from o.1 rows >>= λ rest. some (o.0 ∷ rest)) e in
    let (rest, gone, made) = bind-some (propagate_from o.1 rows) (λ rest. some (o.0 ∷ rest)) more in
    (o.0, o.1, rest, IsVisit-visit s r o.0 o.1 visited, gone, some_inj _ _ made)

-- If the states can be computed, the snapshot before a row is that of the state which the actions of
-- the plays above it lead to, those of the struck plays left out.
pub propagate_from-before :
    (above : List Row) (r : Row) (below : List Row) (s : State) (shown : List Snap)
    → propagate_from s (above ++ r ∷ below) ≡ some shown
    → ShowsState s (live_events above) r (get_elem? shown (length above))
unfolding apply_events
propagate_from-before [] r below s shown e =
    let (snap, t, rest, facts, gone, made) = propagate_from-cons s r below shown e in
    (s, snap, refl, ap (λ xs. get_elem? xs 0) (sym made), facts.0, facts.1)
propagate_from-before (q ∷ above) r below s shown e =
    let (snap, t, rest, facts, gone, made) = propagate_from-cons s q (above ++ r ∷ below) shown e in
    let (u, found, reached, listed, row, before) =
      propagate_from-before above r below t rest gone in
    (
      u,
      found,
      ap (apply_events s) (live_events-cons q above)
          ∙ apply_events-append s (live_events (q ∷ [])) (live_events above)
          ∙ ap (λ o. o >>= λ v. apply_events v (live_events above)) facts.2
          ∙ reached,
      ap (λ xs. get_elem? xs (suc (length above))) (sym made) ∙ listed,
      row,
      before,
    )
