-- ===== src/Feed/Items.antt =====
-- The items of one cell follow one another, whatever the log.
use skorekeeper.Common.{
  ℕ, suc, ◌+◌, String, Bool, true, false, ◌||◌, not, List, [], ◌∷◌, ◌++◌, none, some, lookup, last?,
  foldl, length, length-append, ◌==◌, ◌≡◌, refl, sym, ap, subst, ◌∙◌, arith, inl, inr, Bool-cases,
  Option-cases, some_inj,
}
use skorekeeper.Common.Text.{◌+++◌, show_nat}
use skorekeeper.Game.{Action}
use skorekeeper.Feed.{
  Item, Feed, empty_feed, create_history_item, items_of, is_cleared, strike, strike_for, push_event,
  supersedes, starts_item, record_action, build_feed,
}
use skorekeeper.Feed.Latest.{at_last}
use skorekeeper.Feed.Cells.{Cell, cell_of, change_in, add_in, place_in, land_in, extend_in}
use skorekeeper.Feed.Steps.{record_action_keeps}

-- The item is the one of its number in the cell, and is marked as a correction unless it is the first.
abbrev pub IsNth : String → ℕ → Item → Type 0
IsNth k n h = (h.id ≡ k +++ "-" +++ show_nat n) × (h.is_correction ≡ not (n == 0))

-- Struck, or an item that clears the cell.
abbrev pub is_replaced : Item → Bool
is_replaced h = h.is_stricken || is_cleared h

-- Items numbered from `n`, all replaced but the last.
abbrev pub IsSeries : String → ℕ → List Item → Type 0
IsSeries k n [] = Unit
IsSeries k n (h ∷ []) = IsNth k n h
IsSeries k n (h ∷ g ∷ hs) = IsNth k n h × (is_replaced h ≡ true) × IsSeries k (suc n) (g ∷ hs)

abbrev pub IsOrderly : String → Cell → Type 0
IsOrderly k c = (c.count ≡ length c.items) × IsSeries k 0 c.items

IsSeries-at_last :
    (f : Item → Item) (k : String)
    → ((n : ℕ) (h : Item) → IsNth k n h → IsNth k n (f h))
    → (n : ℕ) (xs : List Item) → IsSeries k n xs
    → IsSeries k n (at_last f xs)
IsSeries-at_last f k keep n [] s = tt
IsSeries-at_last f k keep n (x ∷ []) s = keep n x s
IsSeries-at_last f k keep n (x ∷ y ∷ []) (p, r, s) = (p, r, keep (suc n) y s)
IsSeries-at_last f k keep n (x ∷ y ∷ z ∷ xs) (p, r, s) =
    (p, r, IsSeries-at_last f k keep (suc n) (y ∷ z ∷ xs) s)

length-at_last : (f : Item → Item) (xs : List Item) → length (at_last f xs) ≡ length xs
length-at_last f [] = refl
length-at_last f (x ∷ []) = refl
length-at_last f (x ∷ y ∷ xs) = ap suc (length-at_last f (y ∷ xs))

-- The last item is replaced, if there is one.
abbrev IsClosed : List Item → Type 0
IsClosed [] = Unit
IsClosed (x ∷ []) = is_replaced x ≡ true
IsClosed (x ∷ y ∷ xs) = IsClosed (y ∷ xs)

IsClosed-at_last :
    (f : Item → Item)
    → ((h : Item) → is_replaced (f h) ≡ true)
    → (xs : List Item) → IsClosed (at_last f xs)
IsClosed-at_last f closes [] = tt
IsClosed-at_last f closes (x ∷ []) = closes x
IsClosed-at_last f closes (x ∷ y ∷ []) = closes y
IsClosed-at_last f closes (x ∷ y ∷ z ∷ xs) = IsClosed-at_last f closes (y ∷ z ∷ xs)

IsClosed-last :
    (xs : List Item) {latest : Item}
    → last? xs ≡ some latest
    → is_replaced latest ≡ true
    → IsClosed xs
IsClosed-last [] e r = tt
IsClosed-last (x ∷ []) {latest} e r =
    subst (λ h. is_replaced h ≡ true) (sym (some_inj x latest e)) r
IsClosed-last (x ∷ y ∷ xs) e r = IsClosed-last (y ∷ xs) e r

IsSeries-append :
    (k : String) (n m : ℕ) (xs : List Item) (h : Item)
    → IsSeries k n xs
    → IsClosed xs
    → m ≡ n + length xs
    → IsNth k m h
    → IsSeries k n (xs ++ h ∷ [])
IsSeries-append k n m [] h s c e p = subst (λ i. IsNth k i h) (omega (arith, e)) p
IsSeries-append k n m (x ∷ []) h s c e p = (s, c, subst (λ i. IsNth k i h) (omega (arith, e)) p)
IsSeries-append k n m (x ∷ y ∷ xs) h (q, r, s) c e p =
    (q, r, IsSeries-append k (suc n) m (y ∷ xs) h s c (omega (arith, e)) p)

length_snoc : (xs : List Item) (h : Item) → length (xs ++ h ∷ []) ≡ suc (length xs)
length_snoc xs h = omega (arith, length-append xs (h ∷ []))

-- A new item after items that are all replaced.
IsOrderly-add_in :
    (k : String) (a : Action) (b : Bool) (c : Cell)
    → IsOrderly k c
    → IsClosed c.items
    → b ≡ not (c.count == 0)
    → IsOrderly k (add_in k a c.count b c)
unfolding create_history_item
IsOrderly-add_in k a b c (e, s) closed h = (
  ap suc e ∙ sym (length_snoc c.items _),
  IsSeries-append k 0 c.count c.items _ s closed (omega (arith, e)) (refl, h),
)

IsOrderly-change_in :
    (k : String) (f : Item → Item) (c : Cell)
    → ((n : ℕ) (h : Item) → IsNth k n h → IsNth k n (f h))
    → IsOrderly k c
    → IsOrderly k (change_in f c)
IsOrderly-change_in k f c keep (e, s) =
    (e ∙ sym (length-at_last f c.items), IsSeries-at_last f k keep 0 c.items s)

IsClosed-empty : (xs : List Item) → length xs ≡ 0 → IsClosed xs
IsClosed-empty [] e = tt
IsClosed-empty (x ∷ xs) e = absurd (omega (arith, e))

length-last? : (xs : List Item) → last? xs ≡ none → length xs ≡ 0
length-last? [] e = refl
length-last? (x ∷ []) e = absurd cc
length-last? (x ∷ y ∷ xs) e = absurd (omega (arith, length-last? (y ∷ xs) e))

-- An item that another follows without being struck by it was cleared.
IsClosed-starts :
    (a : Action) (latest : Item)
    → starts_item a latest ≡ true
    → supersedes a latest ≡ false
    → is_replaced latest ≡ true
unfolding starts_item supersedes
IsClosed-starts a latest h n = ground arith

IsOrderly-extend_in :
    (k : String) (a : Action) (latest : Item) (c : Cell)
    → IsOrderly k c
    → last? c.items ≡ some latest
    → (c.count == 0) ≡ false
    → IsOrderly k (extend_in k a latest c)
IsOrderly-extend_in k a latest c o found taken = elim (Bool-cases (starts_item a latest)) [
  | inl starts ↦ elim (Bool-cases (supersedes a latest)) [
    | inl struck ↦
        rw (starts, struck)
          (IsOrderly-add_in k a true (change_in (strike_for a) c)
            (IsOrderly-change_in k (strike_for a) c (λ n h p. p) o)
            (IsClosed-at_last (strike_for a) (λ h. refl) c.items) (ap not (sym taken)))
    | inr other ↦
        rw (starts, other)
          (IsOrderly-add_in k a true c o
            (IsClosed-last c.items found (IsClosed-starts a latest starts other))
            (ap not (sym taken)))
  ]
  | inr other ↦ rw other (IsOrderly-change_in k (push_event a) c (λ n h p. p) o)
]

IsOrderly-place_in :
    (k : String) (a : Action) (c : Cell) → IsOrderly k c → IsOrderly k (place_in k a c)
IsOrderly-place_in k a c o = elim (Bool-cases (c.count == 0)) [
  | inl free ↦
      let e : c.count ≡ 0 = ground arith in
      let made =
        IsOrderly-add_in k a false c o (IsClosed-empty c.items (sym o.0 ∙ e)) (ap not (sym free)) in
      rw free (subst (λ n. IsOrderly k (add_in k a n false c)) e made)
  | inr taken ↦ elim (Option-cases (last? c.items)) [
    | inl nothing ↦
        let e : c.count ≡ 0 = o.0 ∙ length-last? c.items nothing in absurd (ground arith)
    | inr (latest, found) ↦ rw (taken, found) (IsOrderly-extend_in k a latest c o found taken)
  ]
]

IsOrderly-land_in :
    (k : String) (a : Action) (c : Cell) → IsOrderly k c → IsOrderly k (land_in k a c)
IsOrderly-land_in k a c o = elim (Bool-cases (c.count == 0)) [
  | inl free ↦
      let e : c.count ≡ 0 = ground arith in
      rw free
        (IsOrderly-add_in k a false c o (IsClosed-empty c.items (sym o.0 ∙ e)) (ap not (sym free)))
  | inr taken ↦ rw taken (
      IsOrderly-add_in k a true (change_in strike c) (IsOrderly-change_in k strike c (λ n h p. p) o)
        (IsClosed-at_last strike (λ h. refl) c.items) (ap not (sym taken)))
]

IsOrderly-foldl :
    (k : String) (log : List Action) (feed : Feed)
    → IsOrderly k (cell_of k feed)
    → IsOrderly k (cell_of k (foldl record_action feed log))
IsOrderly-foldl k [] feed o = o
IsOrderly-foldl k (a ∷ log) feed o = IsOrderly-foldl k log (record_action feed a) (
    record_action_keeps (IsOrderly k) k (λ c p. IsOrderly-change_in k strike c (λ n h q. q) p) a
      (IsOrderly-land_in k a) (IsOrderly-place_in k a) feed o)

-- The items of a cell are numbered in their order, the first one alone is no correction, and all but
-- the last are struck or clear the cell.
pub build_feed-IsSeries :
    (log : List Action) (k : String) → IsSeries k 0 (items_of k (build_feed log).history)
unfolding build_feed items_of lookup
build_feed-IsSeries log k = (IsOrderly-foldl k log empty_feed (refl, tt)).1
