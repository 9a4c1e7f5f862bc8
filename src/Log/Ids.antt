-- ===== src/Log/Ids.antt =====
-- Ids in a log: uniqueness, freshness, and what filtering keeps of them.
use skorekeeper.Common.{
  String, Bool, true, false, ◌||◌, not, List, [], ◌∷◌, ◌++◌, filter, elem, str_eq, eq_iff,
  str_eq_refl, ◌≡◌, refl, ap, ◌≢◌, arith, Bool-cases, inl, inr,
}
use skorekeeper.Game.{Action}
use skorekeeper.Log.{is_effective}
use skorekeeper.Log.Undone.{has_id, has_ref, has_undo_id}

-- No two actions of the log have one id.
abbrev pub UniqueIds : List Action → Type 0
UniqueIds [] = Unit
UniqueIds (a ∷ log) = (has_id a.id log ≡ false) × UniqueIds log

-- A new id: no action has it and no undo names it.
pub record IsFresh (id : String) (log : List Action) : Type 0 where
  pub unused : has_id id log ≡ false
  pub unnamed : has_ref id log ≡ false
  pub nonempty : id ≢ ""

pub filter-append {ℓ} :
    {A : Type ℓ} (p : A → Bool) (xs ys : List A) → filter p (xs ++ ys) ≡ filter p xs ++ filter p ys
filter-append p [] ys = refl
filter-append p (x ∷ xs) ys = elim (Bool-cases (p x)) [
  | inl kept ↦ rw kept (ap (x ∷◌) (filter-append p xs ys))
  | inr gone ↦ rw gone (filter-append p xs ys)
]

-- One more undone id takes its actions out of the effective ones.
pub filter_effective-cons :
    (s s' : List String) (t : String) (log : List Action)
    → ((r : String) → elem r s' ≡ (str_eq t r || elem r s))
    → filter (is_effective s') log ≡ filter (λ a. not (str_eq t a.id)) (filter (is_effective s) log)
filter_effective-cons s s' t [] h = refl
filter_effective-cons s s' t (a ∷ log) h =
    ground (arith, h a.id, filter_effective-cons s s' t log h)

-- An id that no action has takes nothing out.
pub filter_effective-unused :
    (s s' : List String) (u : String) (log : List Action)
    → ((r : String) → elem r s' ≡ (str_eq u r || elem r s))
    → has_id u log ≡ false
    → filter (is_effective s') log ≡ filter (is_effective s) log
filter_effective-unused s s' u [] h n = refl
filter_effective-unused s s' u (a ∷ log) h n =
    ground (arith, h a.id, eq_iff u a.id, eq_iff a.id u, filter_effective-unused s s' u log h)

pub has_id-filter :
    (p : Action → Bool) (id : String) (log : List Action)
    → has_id id log ≡ false
    → has_id id (filter p log) ≡ false
has_id-filter p id [] h = refl
has_id-filter p id (a ∷ log) h = ground (arith, has_id-filter p id log)

pub UniqueIds-filter :
    (p : Action → Bool) (log : List Action) → UniqueIds log → UniqueIds (filter p log)
UniqueIds-filter p [] h = h
UniqueIds-filter p (a ∷ log) h = ground (arith, has_id-filter p a.id log, UniqueIds-filter p log)

pub has_undo_id_of_has_id :
    (id : String) (log : List Action) → has_id id log ≡ false → has_undo_id id log ≡ false
has_undo_id_of_has_id id [] h = refl
has_undo_id_of_has_id id (a ∷ log) h = ground (arith, has_undo_id_of_has_id id log)

-- The id of an effective action is the id of no undo.
pub has_undo_id-effective :
    (s : List String) (t : String) (log : List Action)
    → UniqueIds log
    → has_id t (filter (is_effective s) log) ≡ true
    → has_undo_id t log ≡ false
has_undo_id-effective s t [] h e = refl
has_undo_id-effective s t (a ∷ log) h e = ground (
  arith,
  eq_iff a.id t,
  has_undo_id_of_has_id t log,
  has_id-filter (is_effective s) t log,
  has_undo_id-effective s t log h.1,
)

has_id-append-cons :
    (xs : List Action) (x : Action) (ys : List Action) → has_id x.id (xs ++ x ∷ ys) ≡ true
has_id-append-cons [] x ys = rw str_eq_refl
has_id-append-cons (a ∷ xs) x ys = ground (arith, has_id-append-cons xs x ys)

pub has_id-last : (xs : List Action) (x : Action) → has_id x.id (xs ++ x ∷ []) ≡ true
has_id-last xs x = has_id-append-cons xs x []

-- Taking out the last id of a list with unique ids leaves the rest.
pub filter-last :
    (xs : List Action) (x : Action)
    → UniqueIds (xs ++ x ∷ [])
    → filter (λ a. not (str_eq x.id a.id)) (xs ++ x ∷ []) ≡ xs
filter-last [] x h = rw str_eq_refl
filter-last (a ∷ xs) x h =
    ground (arith, eq_iff x.id a.id, has_id-append-cons xs x [], filter-last xs x h.1)

pub has_id_mono :
    (p : Action → Bool) (id : String) (log : List Action)
    → has_id id (filter p log) ≡ true
    → has_id id log ≡ true
has_id_mono p id [] h = h
has_id_mono p id (a ∷ log) h = ground (arith, has_id_mono p id log)
