-- ===== src/Bases/Latest.antt =====
-- Which cell `getRunnersOnBase` of frontend/game/runnerManager.js takes for a batter.
use skorekeeper.Common.{
  ℕ, String, Bool, List, [], ◌∷◌, none, some, lookup, All, Dict, ◌≡◌, refl, sym, ap, ◌∙◌, ◌⊎◌, inl,
  inr, Bool-cases, Option-cases, some_inj, subst,
}
use skorekeeper.Game.{Team, Event, Ctx, event_key}
use skorekeeper.Bases.{is_prior, when_prior, prior_cell}
use skorekeeper.Bases.Prior.{IsPrior, is_prior_iff}

module _ (events : Dict Event) (team : Team) (ctx : Ctx) (idx : ℕ) (came_up : Bool) where
  -- The batter has a cell in the column that counts.
  abbrev pub Counts : String → Event → Type 0
  Counts col_id ev =
      (lookup (event_key team idx col_id) events ≡ some ev) × IsPrior ctx came_up col_id ev

  abbrev pub IsSilent : String → Type 0
  IsSilent col_id = ¬ ((ev : Event) × Counts col_id ev)

  -- The column holds the cell of the batter that counts, and no later column has one.
  abbrev pub IsLatest : List String → String → Event → Type 0
  IsLatest [] col_id ev = ⊥
  IsLatest (c ∷ cols) col_id ev =
      IsLatest cols col_id ev ⊎ ((c ≡ col_id) × Counts col_id ev × All IsSilent cols)

  IsLatest-not-IsSilent :
      (cols : List String) (col_id : String) (ev : Event)
      → IsLatest cols col_id ev
      → ¬ All IsSilent cols
  IsLatest-not-IsSilent [] col_id ev l h = l
  IsLatest-not-IsSilent (c ∷ cols) col_id ev (inl l) h = IsLatest-not-IsSilent cols col_id ev l h.1
  IsLatest-not-IsSilent (c ∷ cols) col_id ev (inr (e, k, _)) h =
      h.0 (ev, subst (λ x. Counts x ev) (sym e) k)

  when_prior-Counts :
      (col_id key k : String) (ev : Event)
      → key ≡ event_key team idx col_id
      → when_prior ctx came_up col_id key (lookup key events) ≡ some (k, ev)
      → (k ≡ event_key team idx col_id) × Counts col_id ev
  when_prior-Counts col_id key k ev is_key h = elim (Option-cases (lookup key events)) [
    | inl missing ↦ absurd (let bad : none ≡ some (k, ev) = rw missing at h in cc)
    | inr (e, found) ↦ elim (Bool-cases (is_prior ctx came_up col_id e)) [
      | inl counts ↦
          let same = some_inj (key, e) (k, ev) (rw (found, counts) at h) in
          let same_ev : e ≡ ev = ap (λ x. x.1) same in
          (
            ap (λ x. x.0) (sym same) ∙ is_key,
            (
              ap (λ x. lookup x events) (sym is_key) ∙ found ∙ ap (λ x. some x) same_ev,
              (is_prior_iff ctx came_up col_id ev).0
                  (ap (λ x. is_prior ctx came_up col_id x) (sym same_ev) ∙ counts),
            ),
          )
      | inr skipped ↦ absurd (let bad : none ≡ some (k, ev) = rw (found, skipped) at h in cc)
    ]
  ]

  Counts-when_prior :
      (col_id : String) (ev : Event)
      → Counts col_id ev
      → when_prior ctx came_up col_id
          (event_key team idx col_id)
          (lookup (event_key team idx col_id) events)
        ≡ some (event_key team idx col_id, ev)
  Counts-when_prior col_id ev (found, prior) =
      rw (found, (is_prior_iff ctx came_up col_id ev).1 prior) refl

  IsSilent-when_prior :
      (col_id : String)
      → IsSilent col_id
      → when_prior ctx came_up col_id
          (event_key team idx col_id)
          (lookup (event_key team idx col_id) events)
        ≡ none
  IsSilent-when_prior col_id h =
      elim (Option-cases (
        when_prior ctx came_up col_id (event_key team idx col_id)
          (lookup (event_key team idx col_id) events))) [
            | inl nothing ↦ nothing
            | inr (cell, here) ↦
                absurd (h (cell.1, (when_prior-Counts col_id _ cell.0 cell.1 refl here).1))
          ]

  IsSilent-prior_cell :
      (cols : List String) → All IsSilent cols → prior_cell events team ctx idx came_up cols ≡ none
  unfolding prior_cell
  IsSilent-prior_cell [] h = refl
  IsSilent-prior_cell (c ∷ cols) (h, hs) =
      rw (IsSilent-prior_cell cols hs) (IsSilent-when_prior c h)

  prior_cell-IsSilent :
      (cols : List String) → prior_cell events team ctx idx came_up cols ≡ none → All IsSilent cols
  unfolding prior_cell
  prior_cell-IsSilent [] h = tt
  prior_cell-IsSilent (c ∷ cols) h =
      elim (Option-cases (prior_cell events team ctx idx came_up cols)) [
        | inl nothing ↦ (
          λ (ev, k).
              let bad : some (event_key team idx c, ev) ≡ none =
                sym (Counts-when_prior c ev k) ∙ rw nothing at h in
              cc,
          prior_cell-IsSilent cols nothing,
        )
        | inr (cell, found) ↦ absurd (let bad : some cell ≡ none = rw found at h in cc)
      ]

  -- What the search returns is the latest cell that counts, with its key.
  pub prior_cell-IsLatest :
      (cols : List String) (k : String) (ev : Event)
      → prior_cell events team ctx idx came_up cols ≡ some (k, ev)
      → (col_id : String) × (k ≡ event_key team idx col_id) × IsLatest cols col_id ev
  unfolding prior_cell
  prior_cell-IsLatest [] k ev h = absurd cc
  prior_cell-IsLatest (c ∷ cols) k ev h =
      elim (Option-cases (prior_cell events team ctx idx came_up cols)) [
        | inl nothing ↦
            let (key, counts) = when_prior-Counts c _ k ev refl (rw nothing at h) in
            (c, key, inr (refl, counts, prior_cell-IsSilent cols nothing))
        | inr (cell, found) ↦
            let (col_id, key, latest) = prior_cell-IsLatest cols k ev (found ∙ rw found at h) in
            (col_id, key, inl latest)
      ]

  pub IsLatest-prior_cell :
      (cols : List String) (col_id : String) (ev : Event)
      → IsLatest cols col_id ev
      → prior_cell events team ctx idx came_up cols ≡ some (event_key team idx col_id, ev)
  unfolding prior_cell
  IsLatest-prior_cell [] col_id ev h = absurd h
  IsLatest-prior_cell (c ∷ cols) col_id ev (inl h) = rw (IsLatest-prior_cell cols col_id ev h) refl
  IsLatest-prior_cell (c ∷ cols) col_id ev (inr (e, k, silent)) =
      rw (IsSilent-prior_cell cols silent, e) (Counts-when_prior col_id ev k)
