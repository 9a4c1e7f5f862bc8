-- ===== src/Feed/Latest.antt =====
-- The items of a cell in the history, and its latest item.
use skorekeeper.Common.{
  String, Bool, true, false, ◌||◌, List, [], ◌∷◌, ◌++◌, any, filter, str_eq, if◌then◌else◌, ◌≡◌,
  ◌≢◌, refl, sym, ap, ◌∙◌, arith, eq_iff, inl, inr, Bool-cases,
}
use skorekeeper.Feed.{Item, has_key, items_of, change_latest}

abbrev pub at_last : (Item → Item) → List Item → List Item
at_last f [] = []
at_last f (x ∷ []) = f x ∷ []
at_last f (x ∷ y ∷ xs) = x ∷ at_last f (y ∷ xs)

filter_none {ℓ} : {A : Type ℓ} (p : A → Bool) (xs : List A) → any p xs ≡ false → filter p xs ≡ []
filter_none p [] h = refl
filter_none p (x ∷ xs) h = ground (arith, filter_none p xs)

filter_some {ℓ} :
    {A : Type ℓ} (p : A → Bool) (xs : List A)
    → any p xs ≡ true
    → (y : A) × (ys : List A) × (filter p xs ≡ y ∷ ys)
filter_some p [] h = absurd cc
filter_some p (x ∷ xs) h = elim (Bool-cases (p x)) [
  | inl found ↦ (x, filter p xs, ap (λ b. if b then x ∷ filter p xs else filter p xs) found)
  | inr other ↦
      let rest = filter_some p xs (sym (ap (λ b. b || any p xs) other) ∙ h) in
      (rest.0, rest.1, ap (λ b. if b then x ∷ filter p xs else filter p xs) other ∙ rest.2)
]

abbrev pub KeepsKey : (Item → Item) → Type 0
KeepsKey f = (h : Item) → (f h).ctx_key ≡ h.ctx_key

pub items_of-append :
    (k : String) (xs : List Item) (h : Item)
    → items_of k (xs ++ h ∷ []) ≡ items_of k xs ++ (if has_key k h then h ∷ [] else [])
unfolding items_of
items_of-append k [] h = refl
items_of-append k (x ∷ xs) h = ground (arith, items_of-append k xs h)

pub items_of-change_latest :
    (k : String) (f : Item → Item) (xs : List Item)
    → KeepsKey f
    → items_of k (change_latest k f xs) ≡ at_last f (items_of k xs)
unfolding items_of change_latest
items_of-change_latest k f [] keep = refl
items_of-change_latest k f (x ∷ xs) keep = elim (Bool-cases (any (has_key k) xs)) [
  | inl more ↦
      let rest = filter_some (has_key k) xs more in
      ground (arith, more, rest.2, items_of-change_latest k f xs keep)
  | inr last ↦
      let rest = filter_none (has_key k) xs last in
      let same : has_key k (f x) ≡ has_key k x = ap (λ s. str_eq s k) (keep x) in
      ground (arith, last, rest, same, items_of-change_latest k f xs keep)
]

pub items_of_ne-change_latest :
    (j k : String) (f : Item → Item) (xs : List Item)
    → KeepsKey f
    → k ≢ j
    → items_of j (change_latest k f xs) ≡ items_of j xs
unfolding items_of change_latest
items_of_ne-change_latest j k f [] keep ne = refl
items_of_ne-change_latest j k f (x ∷ xs) keep ne =
    let same : has_key j (f x) ≡ has_key j x = ap (λ s. str_eq s j) (keep x) in
    ground (
      arith,
      same,
      ne,
      eq_iff x.ctx_key k,
      eq_iff x.ctx_key j,
      items_of_ne-change_latest j k f xs keep ne,
    )
