-- ===== src/Feed/Cells.antt =====
-- What the operations of the feed do to the items of one cell.
use skorekeeper.Common.{
  ℕ, suc, String, Bool, true, false, not, List, [], ◌∷◌, ◌++◌, none, some, lookup, lookup-insert,
  last?, get_or, str_eq_ne, str_eq_refl, ◌==◌, if◌then◌else◌, ◌≡◌, ◌≢◌, refl, ap, ◌∙◌, arith, inl,
  inr, Bool-cases, Option-cases,
}
use skorekeeper.Game.{Action}
use skorekeeper.Feed.{
  Item, Feed, create_history_item, items_of, strike, strike_for, push_event, seen_of, append_item,
  set_latest, supersedes, starts_item, extend_cell, place, land_play,
}
use skorekeeper.Feed.Latest.{
  at_last, KeepsKey, items_of-append, items_of-change_latest, items_of_ne-change_latest,
}

-- What the feed holds on one cell: the number of its items, and the items.
pub record Cell : Type 0 where
  pub count : ℕ
  pub items : List Item

abbrev pub cell_of : String → Feed → Cell
cell_of k feed = record { count = seen_of k feed; items = items_of k feed.history }

abbrev pub change_in : (Item → Item) → Cell → Cell
change_in f c = record c { items = at_last f c.items }

abbrev pub add_in : String → Action → ℕ → Bool → Cell → Cell
add_in k a n b c = record {
  count = suc n;
  items = c.items ++ create_history_item k (a ∷ []) n b ∷ [];
}

pub cell_of-set_latest :
    (k : String) (f : Item → Item) (feed : Feed)
    → KeepsKey f
    → cell_of k (set_latest k f feed) ≡ change_in f (cell_of k feed)
unfolding set_latest
cell_of-set_latest k f feed keep =
    ap (λ xs. record { count = seen_of k feed; items = xs })
      (items_of-change_latest k f feed.history keep)

pub cell_of_ne-set_latest :
    (j k : String) (f : Item → Item) (feed : Feed)
    → KeepsKey f
    → k ≢ j
    → cell_of j (set_latest k f feed) ≡ cell_of j feed
unfolding set_latest
cell_of_ne-set_latest j k f feed keep ne =
    ap (λ xs. record { count = seen_of j feed; items = xs })
      (items_of_ne-change_latest j k f feed.history keep ne)

abbrev cell : ℕ → List Item → Cell
cell n xs = record { count = n; items = xs }

cell_eq : {m n : ℕ} {xs ys : List Item} → m ≡ n → xs ≡ ys → cell m xs ≡ cell n ys
cell_eq e h = cc

cell_of-append_item :
    (k : String) (a : Action) (n : ℕ) (b : Bool) (feed : Feed)
    → cell_of k (append_item k a n b feed) ≡ add_in k a n b (cell_of k feed)
unfolding append_item create_history_item
cell_of-append_item k a n b feed =
    cell_eq
      (ap (λ o. get_or o 0)
        (lookup-insert k k (suc n) feed.seen
          ∙ ap (λ t. if t then some (suc n) else lookup k feed.seen) (str_eq_refl k)))
      (items_of-append k feed.history _
        ∙ ap
            (λ t.
              items_of k feed.history
              ++ (if t then create_history_item k (a ∷ []) n b ∷ [] else []))
            (str_eq_refl k))

append_none : (xs : List Item) → xs ++ [] ≡ xs
append_none [] = refl
append_none (x ∷ xs) = ap (λ ys. x ∷ ys) (append_none xs)

cell_of_ne-append_item :
    (j k : String) (a : Action) (n : ℕ) (b : Bool) (feed : Feed)
    → k ≢ j
    → cell_of j (append_item k a n b feed) ≡ cell_of j feed
unfolding append_item create_history_item
cell_of_ne-append_item j k a n b feed ne =
    cell_eq
      (ap (λ o. get_or o 0)
        (lookup-insert k j (suc n) feed.seen
          ∙ ap (λ t. if t then some (suc n) else lookup j feed.seen) (str_eq_ne k j ne)))
      (items_of-append j feed.history _
        ∙ ap
            (λ t.
              items_of j feed.history
              ++ (if t then create_history_item k (a ∷ []) n b ∷ [] else []))
            (str_eq_ne k j ne)
        ∙ append_none (items_of j feed.history))

abbrev pub extend_in : String → Action → Item → Cell → Cell
extend_in k a latest c =
    if starts_item a latest
    then add_in k a c.count true (if supersedes a latest then change_in (strike_for a) c else c)
    else change_in (push_event a) c

abbrev pub place_in : String → Action → Cell → Cell
place_in k a c =
    if c.count == 0
    then add_in k a 0 false c
    else elim (last? c.items) [ none ↦ add_in k a 0 false c | some latest ↦ extend_in k a latest c ]

abbrev pub land_in : String → Action → Cell → Cell
land_in k a c =
    let taken = not (c.count == 0) in
    add_in k a c.count taken (if taken then change_in strike c else c)

cell_of-extend_cell :
    (k : String) (a : Action) (latest : Item) (feed : Feed)
    → cell_of k (extend_cell k a latest feed) ≡ extend_in k a latest (cell_of k feed)
unfolding extend_cell
cell_of-extend_cell k a latest feed = elim (Bool-cases (starts_item a latest)) [
  | inl starts ↦ elim (Bool-cases (supersedes a latest)) [
    | inl struck ↦ ground (
      arith,
      cell_of-append_item k a (seen_of k feed) true (set_latest k (strike_for a) feed),
      cell_of-set_latest k (strike_for a) feed (λ h. refl),
    )
    | inr other ↦ ground (arith, cell_of-append_item k a (seen_of k feed) true feed)
  ]
  | inr other ↦ ground (arith, cell_of-set_latest k (push_event a) feed (λ h. refl))
]

pub cell_of-place :
    (k : String) (a : Action) (feed : Feed)
    → cell_of k (place k a feed) ≡ place_in k a (cell_of k feed)
unfolding place
cell_of-place k a feed = elim (Option-cases (last? (items_of k feed.history))) [
  | inl nothing ↦ ground (arith, nothing, cell_of-append_item k a 0 false feed)
  | inr (latest, found) ↦
      ground
        (arith, found, cell_of-append_item k a 0 false feed, cell_of-extend_cell k a latest feed)
]

cell_of_ne-extend_cell :
    (j k : String) (a : Action) (latest : Item) (feed : Feed)
    → k ≢ j
    → cell_of j (extend_cell k a latest feed) ≡ cell_of j feed
unfolding extend_cell
cell_of_ne-extend_cell j k a latest feed ne = ground (
  arith,
  cell_of_ne-append_item j k a (seen_of k feed) true (set_latest k (strike_for a) feed) ne,
  cell_of_ne-set_latest j k (strike_for a) feed (λ h. refl) ne,
  cell_of_ne-append_item j k a (seen_of k feed) true feed ne,
  cell_of_ne-set_latest j k (push_event a) feed (λ h. refl) ne,
)

pub cell_of_ne-place :
    (j k : String) (a : Action) (feed : Feed) → k ≢ j → cell_of j (place k a feed) ≡ cell_of j feed
unfolding place
cell_of_ne-place j k a feed ne = elim (Option-cases (last? (items_of k feed.history))) [
  | inl nothing ↦ ground (arith, nothing, cell_of_ne-append_item j k a 0 false feed ne)
  | inr (latest, found) ↦ ground (
    arith,
    found,
    cell_of_ne-append_item j k a 0 false feed ne,
    cell_of_ne-extend_cell j k a latest feed ne,
  )
]

pub cell_of-land_play :
    (k : String) (a : Action) (feed : Feed)
    → cell_of k (land_play k a feed) ≡ land_in k a (cell_of k feed)
unfolding land_play
cell_of-land_play k a feed = elim (Bool-cases (seen_of k feed == 0)) [
  | inl free ↦ ground (arith, cell_of-append_item k a (seen_of k feed) false feed)
  | inr taken ↦ ground (
    arith,
    cell_of-append_item k a (seen_of k feed) true (set_latest k strike feed),
    cell_of-set_latest k strike feed (λ h. refl),
  )
]

pub cell_of_ne-land_play :
    (j k : String) (a : Action) (feed : Feed)
    → k ≢ j
    → cell_of j (land_play k a feed) ≡ cell_of j feed
unfolding land_play
cell_of_ne-land_play j k a feed ne = elim (Bool-cases (seen_of k feed == 0)) [
  | inl free ↦ ground (arith, cell_of_ne-append_item j k a (seen_of k feed) false feed ne)
  | inr taken ↦ ground (
    arith,
    cell_of_ne-append_item j k a (seen_of k feed) true (set_latest k strike feed) ne,
    cell_of_ne-set_latest j k strike feed (λ h. refl) ne,
  )
]
