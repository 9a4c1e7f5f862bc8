-- ===== src/Stats/Changes.antt =====
-- What a change of one line keeps of all lines (frontend/game/statsEngine.js).
use skorekeeper.Common.{
  String, Bool, true, false, if◌then◌else◌, none, some, Dict, lookup, insert, get_or, AllValues,
  AllValues-insert, AllValues-lookup, ◌≡◌, subst, sym, str_eq, eq_iff, Option-cases, inl, inr,
}
use skorekeeper.Stats.{modify}

pub for_text : (P : String → Type 0) (o w : String) → str_eq o w ≡ true → P w → P o
for_text P o w e p = subst P (sym ((eq_iff o w).0 e)) p

pub if-either {ℓ κ} :
    {A : Type ℓ} (P : A → Type κ) (b : Bool) (x y : A) → P x → P y → P (if b then x else y)
if-either P true x y p q = p
if-either P false x y p q = q

module _ {ℓ κ} {V : Type ℓ} (P : V → Type κ) where
  pub AllValues-modify :
      (id : String) (f : V → V) (lines : Dict V)
      → ((l : V) → P l → P (f l))
      → AllValues P lines
      → AllValues P (modify id f lines)
  AllValues-modify id f lines kept h = elim (Option-cases (lookup id lines)) [
    | inl missing ↦ rw (missing, modify) h
    | inr (l, found) ↦
        rw (found, modify)
          (AllValues-insert P id (f l) lines h (kept l (AllValues-lookup P id lines h found)))
  ]

  -- The line with a key, or a new one.
  pub AllValues-get_or :
      (id : String) (lines : Dict V) (new : V)
      → P new
      → AllValues P lines
      → P (get_or (lookup id lines) new)
  AllValues-get_or id lines new p h = elim (Option-cases (lookup id lines)) [
    | inl missing ↦ rw missing p
    | inr (l, found) ↦ rw found (AllValues-lookup P id lines h found)
  ]

  -- A line that is made, or changed in a way that keeps the property.
  pub AllValues-touch :
      (id : String) (new : V) (f : V → V) (lines : Dict V)
      → P new
      → ((l : V) → P l → P (f l))
      → AllValues P lines
      → AllValues P
          (elim (lookup id lines) [ none ↦ insert id new lines | some l ↦ insert id (f l) lines ])
  AllValues-touch id new f lines p kept h = elim (Option-cases (lookup id lines)) [
    | inl missing ↦ rw missing (AllValues-insert P id new lines h p)
    | inr (l, found) ↦
        rw found
          (AllValues-insert P id (f l) lines h (kept l (AllValues-lookup P id lines h found)))
  ]
