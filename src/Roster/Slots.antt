-- ===== src/Roster/Slots.antt =====
-- Slots of the roster under `applySubstitution` of frontend/reducer.js.
use skorekeeper.Common.{
  ℕ, zero, suc, ◌+◌, String, List, [], ◌∷◌, ◌++◌, Option, none, some, lookup, get_or, length,
  length-set, get_elem?, set, subst, ◌≡◌, refl, sym, some_inj, ◌∙◌, ap, ◌↔◌, ◌≢◌, inl, inr, arith,
  Option-cases,
}
use skorekeeper.Game.{
  Team, away, home, Event, blank_event, PerTeam, side, put_side, other_team, Player, Slot, State,
  SubstitutionPayload, event_key,
}
use skorekeeper.Outs.Counted.{IsCounted, AllCounted, AllCounted-insert, IsCounted-found}
use skorekeeper.Roster.{
  start_slots, substitute, note_substitution, note_in_cell, apply_substitution,
}

start_slots-slot :
    (team : Team) (players : List (Option Player)) (ids : List String) (n i : ℕ)
    → length (start_slots team players ids n i) ≡ n
unfolding start_slots
start_slots-slot team players ids zero i = refl
start_slots-slot team players ids (suc n) i = ap suc (start_slots-slot team players ids n (i + 1))

get_elem?-set_self :
    (xs : List Slot) (i : ℕ) (v : Slot) {x : Slot}
    → get_elem? xs i ≡ some x
    → get_elem? (set xs i v) i ≡ some v
get_elem?-set_self [] i v h = cc
get_elem?-set_self (x ∷ xs) zero v h = refl
get_elem?-set_self (x ∷ xs) (suc i) v h = get_elem?-set_self xs i v h

get_elem?-set_ne :
    (xs : List Slot) (i j : ℕ) (v : Slot) → i ≢ j → get_elem? (set xs i v) j ≡ get_elem? xs j
get_elem?-set_ne [] i j v h = refl
get_elem?-set_ne (x ∷ xs) zero zero v h = absurd (h refl)
get_elem?-set_ne (x ∷ xs) zero (suc j) v h = refl
get_elem?-set_ne (x ∷ xs) (suc i) zero v h = refl
get_elem?-set_ne (x ∷ xs) (suc i) (suc j) v h = get_elem?-set_ne xs i j v (λ e. h (ap suc e))

side-put_side {ℓ} :
    {A : Type ℓ} (team : Team) (a : A) (p : PerTeam A) → side team (put_side team a p) ≡ a
side-put_side away a p = refl
side-put_side home a p = refl

side-put_side_other {ℓ} :
    {A : Type ℓ} (team : Team) (a : A) (p : PerTeam A)
    → side (other_team team) (put_side team a p) ≡ side (other_team team) p
side-put_side_other away a p = refl
side-put_side_other home a p = refl

roster-note_in_cell : (s : State) (p : SubstitutionPayload) → (note_in_cell s p).roster ≡ s.roster
unfolding note_in_cell
roster-note_in_cell s p = ground arith

-- A substitution in a slot that exists: the new player is on the field, the old one is the last of
-- the slot's history, the starter stays; the other slots, the size of the roster and the other
-- team's roster stay.
pub apply_substitution_lem :
    (s t : State) (p : SubstitutionPayload) (old : Slot) (j : ℕ)
    → get_elem? (side p.team s.roster) p.roster_index ≡ some old
    → p.roster_index ≢ j
    → apply_substitution s p ≡ some t
    → (get_elem? (side p.team t.roster) p.roster_index
        ≡ some (record old { current = p.sub_params; history = old.history ++ old.current ∷ [] }))
      × (get_elem? (side p.team t.roster) j ≡ get_elem? (side p.team s.roster) j)
      × (length (side p.team t.roster) ≡ length (side p.team s.roster))
      × (side (other_team p.team) t.roster ≡ side (other_team p.team) s.roster)
unfolding apply_substitution
apply_substitution_lem s t p old j found ne e =
    let slots = set (side p.team s.roster) p.roster_index (substitute p.sub_params old) in
    let done : t.roster ≡ put_side p.team slots s.roster =
      ap (λ (u : State). u.roster) (sym (some_inj _ _ (rw (found, apply_substitution) at e)))
      ∙ roster-note_in_cell (record s { roster = put_side p.team slots s.roster }) p in
    let own = ap (side p.team) done ∙ side-put_side p.team slots s.roster in
    (
      ap (λ l. get_elem? l p.roster_index) own
          ∙ get_elem?-set_self (side p.team s.roster) p.roster_index (substitute p.sub_params old)
              found,
      ap (λ l. get_elem? l j) own
          ∙ get_elem?-set_ne (side p.team s.roster) p.roster_index j (substitute p.sub_params old)
              ne,
      ap length own
          ∙ length-set (side p.team s.roster) p.roster_index (substitute p.sub_params old),
      ap (side (other_team p.team)) done ∙ side-put_side_other p.team slots s.roster,
    )

-- A substitution raises exactly when the roster has no slot at the index.
apply_substitution-eq-none_iff :
    (s : State) (p : SubstitutionPayload)
    → (apply_substitution s p ≡ none) ↔ (get_elem? (side p.team s.roster) p.roster_index ≡ none)
unfolding apply_substitution
apply_substitution-eq-none_iff s p = ground arith

IsCounted-note_substitution :
    (id action : String) (o : Option Event)
    → IsCounted (get_or o (blank_event id))
    → IsCounted (note_substitution id action o)
unfolding note_substitution
IsCounted-note_substitution id action o c = c

AllCounted-note_in_cell :
    (s : State) (p : SubstitutionPayload)
    → AllCounted s.events
    → AllCounted (note_in_cell s p).events
unfolding note_in_cell
AllCounted-note_in_cell s p c = elim (Option-cases p.active_ctx) [
  | inl absent ↦ rw (absent, note_in_cell) c
  | inr (ctx, given) ↦
      let key = event_key p.team p.roster_index ctx.col in
      rw (given, note_in_cell)
        (AllCounted-insert key (note_substitution p.sub_params.id p.action_id (lookup key s.events))
          s.events c
          (IsCounted-note_substitution p.sub_params.id p.action_id (lookup key s.events)
            (IsCounted-found key p.sub_params.id s.events c)))
]

pub AllCounted-apply_substitution :
    (s t : State) (p : SubstitutionPayload)
    → AllCounted s.events
    → apply_substitution s p ≡ some t
    → AllCounted t.events
unfolding apply_substitution
AllCounted-apply_substitution s t p c e =
    elim (Option-cases (get_elem? (side p.team s.roster) p.roster_index)) [
      | inl missing ↦ cc (rw (missing, apply_substitution) at e)
      | inr (old, found) ↦
          subst (λ (u : State). AllCounted u.events)
            (some_inj _ _ (rw (found, apply_substitution) at e)) (AllCounted-note_in_cell _ p c)
    ]
