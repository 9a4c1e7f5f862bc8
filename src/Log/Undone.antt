-- ===== src/Log/Undone.antt =====
-- The set of undone ids, as a function of the log and of what follows it.
use skorekeeper.Common.{
  String, Bool, true, false, ◌&&◌, ◌||◌, List, [], ◌∷◌, ◌++◌, Option, none, some, elem, any, str_eq,
  eq_iff, ◌≡◌, refl, ap, ◌∙◌, ◌≢◌, ◌↔◌, ◌⊎◌, arith, Bool-cases, inl, inr,
}
use skorekeeper.Game.{Action, Body}
use skorekeeper.Log.{add_target, is_undo, undo_target, mark_undone, undone_from, effectively_undone}

-- Whether an undo of the log has the id.
abbrev pub has_undo_id : String → List Action → Bool
has_undo_id id log = any (λ a. str_eq a.id id && is_undo a.body) log

-- Whether an action of the log has the id, and whether an undo of the log names it.
abbrev pub has_id : String → List Action → Bool
has_id id log = any (λ a. str_eq a.id id) log

abbrev target_is : String → Option String → Bool
target_is id none = false
target_is id (some ref_id) = str_eq ref_id id

abbrev pub has_ref : String → List Action → Bool
has_ref id log = any (λ a. target_is id (undo_target a.body)) log

pub undone_from-append :
    (xs ys : List Action) (s : List String)
    → undone_from (xs ++ ys) s ≡ undone_from xs (undone_from ys s)
unfolding undone_from
undone_from-append [] ys s = refl
undone_from-append (a ∷ xs) ys s = rw (undone_from-append xs ys s)

-- Only an undo adds an id to the set, the one that it names.
pub undo_target-not_undo : (b : Body) → is_undo b ≡ false → undo_target b ≡ none
unfolding undo_target is_undo
undo_target-not_undo (Body.undo ref_id) h = cc
undo_target-not_undo _ h = refl

undo_target-eq-some :
    (b : Body) (r : String) → undo_target b ≡ some r → (b ≡ Body.undo r) × (r ≢ "")
unfolding undo_target
undo_target-eq-some (Body.undo ref_id) r h = ground (arith, eq_iff ref_id "")
undo_target-eq-some _ r h = cc

undo_target-undo : (r : String) → r ≢ "" → undo_target (Body.undo r) ≡ some r
unfolding undo_target
undo_target-undo r h = ground (arith, eq_iff r "")

elem-add_target :
    (o : Option String) (s s' : List String) (t r : String)
    → elem r s' ≡ (str_eq t r || elem r s)
    → elem r (add_target o s') ≡ (str_eq t r || elem r (add_target o s))
elem-add_target none s s' t r h = h
elem-add_target (some id) s s' t r h = ground arith

elem-mark_undone :
    (s s' : List String) (a : Action) (t r : String)
    → (str_eq a.id t && is_undo a.body) ≡ false
    → elem a.id s' ≡ (str_eq t a.id || elem a.id s)
    → elem r s' ≡ (str_eq t r || elem r s)
    → elem r (mark_undone s' a) ≡ (str_eq t r || elem r (mark_undone s a))
unfolding mark_undone
elem-mark_undone s s' a t r no_undo at_id at_r = elim (Bool-cases (is_undo a.body)) [
  | inl undo ↦
      ground (arith, elem-add_target (undo_target a.body) s s' t r, eq_iff t a.id, eq_iff a.id t)
  | inr other ↦ rw (undo_target-not_undo a.body other) (ground arith)
]

-- An id that no undo of the log has, and that is undone from behind, changes nothing else.
pub elem-undone_from-cons :
    (log : List Action) (s : List String) (t r : String)
    → has_undo_id t log ≡ false
    → elem r (undone_from log (t ∷ s)) ≡ (str_eq t r || elem r (undone_from log s))
unfolding undone_from
elem-undone_from-cons [] s t r h = refl
elem-undone_from-cons (a ∷ log) s t r h =
    let rest : has_undo_id t log ≡ false = ground arith in
    elem-mark_undone (undone_from log s) (undone_from log (t ∷ s)) a t r (ground arith)
      (elem-undone_from-cons log s t a.id rest) (elem-undone_from-cons log s t r rest)

-- An id that nothing in the log names is undone only from behind.
pub elem-undone_from-no_ref :
    (log : List Action) (s : List String) (r : String)
    → has_ref r log ≡ false
    → elem r (undone_from log s) ≡ elem r s
unfolding undone_from mark_undone
elem-undone_from-no_ref [] s r h = refl
elem-undone_from-no_ref (a ∷ log) s r h = ground (arith, elem-undone_from-no_ref log s r)

-- The specification: an id is undone by a log if an undo in it names the id, and that undo is not
-- itself undone by what follows it.
abbrev pub IsUndone : String → List Action → Type 0
IsUndone r [] = ⊥
IsUndone r (a ∷ log) = IsUndone r log ⊎ ((a.body ≡ Body.undo r) × (r ≢ "") × (¬ IsUndone a.id log))

elem-add_target-IsUndone :
    (o : Option String) (s : List String) (r : String)
    → elem r (add_target o s) ≡ true
    → (elem r s ≡ true) ⊎ (o ≡ some r)
elem-add_target-IsUndone none s r h = inl h
elem-add_target-IsUndone (some id) s r h = ground (arith, eq_iff id r)

elem-add_target_of_elem :
    (o : Option String) (s : List String) (r : String)
    → (elem r s ≡ true) ⊎ (o ≡ some r)
    → elem r (add_target o s) ≡ true
elem-add_target_of_elem none s r h = ground arith
elem-add_target_of_elem (some id) s r h = ground (arith, eq_iff id r)

elem-undone_from_iff :
    (log : List Action) (r : String) → (elem r (undone_from log []) ≡ true) ↔ IsUndone r log
unfolding undone_from mark_undone
elem-undone_from_iff [] r = (λ h. cc, λ h. absurd h)
elem-undone_from_iff (a ∷ log) r =
    let (to_r, from_r) = elem-undone_from_iff log r in
    let (to_a, from_a) = elem-undone_from_iff log a.id in
    let s = undone_from log [] in
    elim (Bool-cases (elem a.id (undone_from log []))) [
      | inl undone ↦ (
        λ h. inl (to_r (rw undone at h)),
        λ h. elim h [ inl u ↦ rw undone (from_r u) | inr (e, ne, n) ↦ absurd (n (to_a undone)) ],
      )
      | inr active ↦ (
        λ h. elim (elem-add_target-IsUndone (undo_target a.body) s r (rw active at h)) [
          | inl u ↦ inl (to_r u)
          | inr t ↦ let (e, ne) = undo_target-eq-some a.body r t in inr (e, ne, λ u. cc (from_a u))
        ],
        λ h. rw active (
            elem-add_target_of_elem (undo_target a.body) s r (elim h [
              | inl u ↦ inl (from_r u)
              | inr (e, ne, n) ↦ inr (ap undo_target e ∙ undo_target-undo r ne)
            ])),
      )
    ]

-- The backward loop finds exactly the ids that the log undoes: those that an undo names which is
-- not itself undone by what follows it.
pub elem-effectively_undone_iff :
    (log : List Action) (r : String) → (elem r (effectively_undone log) ≡ true) ↔ IsUndone r log
unfolding effectively_undone
elem-effectively_undone_iff log r = elem-undone_from_iff log r
