-- ===== src/Feed/Routed.antt =====
-- Which actions the items of a cell hold.
use skorekeeper.Common.{
  String, Bool, true, false, List, [], ◌∷◌, ◌++◌, Option, none, some, last?, foldl, str_eq, ◌==◌,
  if◌then◌else◌, All, ◌≡◌, ◌≢◌, refl, sym, ap, subst, ◌∙◌, arith, eq_iff, inl, inr, Bool-cases,
  Option-cases,
}
use mathlib.Core.List.{append-nil, append_assoc}
use skorekeeper.Game.{Action, Body}
use skorekeeper.Feed.{
  Item, Feed, empty_feed, key_for, create_history_item, items_of, strike_for, push_event,
  append_item, set_latest, supersedes, starts_item, extend_cell, place, record_play, as_move,
  record_action, build_feed,
}
use skorekeeper.Feed.Latest.{at_last}
use skorekeeper.Feed.Cells.{Cell, cell_of, place_in, extend_in, cell_of-place, cell_of_ne-place}

-- The actions of the items, in order.
abbrev pub events_in : List Item → List Action
events_in [] = []
events_in (h ∷ hs) = h.events ++ events_in hs

abbrev is_here : String → Option String → Bool
is_here k none = false
is_here k (some key) = str_eq key k

-- The actions of a log that belong to a cell: an action with no cell of its own goes where the one
-- before it went.
unfoldable pub assigned : String → Option String → List Action → List Action
unfolding key_for
assigned k current [] = []
assigned k current (a ∷ log) =
    let rest = assigned k (key_for current a.body) log in
    if is_here k (key_for current a.body) then a ∷ rest else rest

events_in-append : (xs : List Item) (h : Item) → events_in (xs ++ h ∷ []) ≡ events_in xs ++ h.events
events_in-append [] h = append-nil h.events
events_in-append (x ∷ xs) h =
    ap (λ o. x.events ++ o) (events_in-append xs h)
    ∙ sym (append_assoc x.events (events_in xs) h.events)

events_in-at_last :
    (f : Item → Item)
    → ((h : Item) → (f h).events ≡ h.events)
    → (xs : List Item) → events_in (at_last f xs) ≡ events_in xs
events_in-at_last f keep [] = refl
events_in-at_last f keep (x ∷ []) = ap (λ o. o ++ []) (keep x)
events_in-at_last f keep (x ∷ y ∷ xs) = ap (λ o. x.events ++ o) (events_in-at_last f keep (y ∷ xs))

events_in-push_event :
    (a : Action) (xs : List Item) {latest : Item}
    → last? xs ≡ some latest
    → events_in (at_last (push_event a) xs) ≡ events_in xs ++ a ∷ []
events_in-push_event a [] e = absurd cc
events_in-push_event a (x ∷ []) e = append-nil _ ∙ ap (λ o. o ++ a ∷ []) (sym (append-nil x.events))
events_in-push_event a (x ∷ y ∷ xs) e =
    ap (λ o. x.events ++ o) (events_in-push_event a (y ∷ xs) e)
    ∙ sym (append_assoc x.events (events_in (y ∷ xs)) (a ∷ []))

-- An action that goes to a cell comes after all that is there.
events_in-place_in :
    (k : String) (a : Action) (c : Cell)
    → events_in (place_in k a c).items ≡ events_in c.items ++ a ∷ []
unfolding create_history_item
events_in-place_in k a c = elim (Bool-cases (c.count == 0)) [
  | inl free ↦ rw free (events_in-append c.items _)
  | inr taken ↦ elim (Option-cases (last? c.items)) [
    | inl nothing ↦ rw (taken, nothing) (events_in-append c.items _)
    | inr (latest, found) ↦ rw (taken, found) (extended latest found)
  ]
]
  where
    extended :
        (latest : Item)
        → last? c.items ≡ some latest
        → events_in (extend_in k a latest c).items ≡ events_in c.items ++ a ∷ []
    extended latest found = elim (Bool-cases (starts_item a latest)) [
      | inl starts ↦ elim (Bool-cases (supersedes a latest)) [
        | inl struck ↦
            rw (starts, struck)
              (events_in-append (at_last (strike_for a) c.items) _
                ∙ ap (λ o. o ++ a ∷ []) (events_in-at_last (strike_for a) (λ h. refl) c.items))
        | inr other ↦ rw (starts, other) (events_in-append c.items _)
      ]
      | inr other ↦ rw other (events_in-push_event a c.items found)
    ]

current-extend_cell :
    (k : String) (a : Action) (h : Item) (feed : Feed)
    → (extend_cell k a h feed).current ≡ feed.current
unfolding extend_cell set_latest append_item
current-extend_cell k a h feed = ground arith

current-place : (k : String) (a : Action) (feed : Feed) → (place k a feed).current ≡ feed.current
unfolding place append_item
current-place k a feed = elim (Option-cases (last? (items_of k feed.history))) [
  | inl nothing ↦ ground (arith, nothing)
  | inr (latest, found) ↦ ground (arith, found, current-extend_cell k a latest feed)
]

key_for-none :
    (current : Option String) (body : Body) → key_for current body ≡ none → current ≡ none
unfolding key_for
key_for-none current body h = ground arith

abbrev events_of : String → Feed → List Action
events_of k feed = events_in (items_of k feed.history)

either_append :
    (t : Bool) (xs : List Action) (a : Action) (ys : List Action)
    → (if t then xs ++ a ∷ [] else xs) ++ ys ≡ xs ++ (if t then a ∷ ys else ys)
either_append true xs a ys = append_assoc xs (a ∷ []) ys
either_append false xs a ys = refl

events_of-place :
    (k key : String) (a : Action) (feed : Feed)
    → events_of k (place key a feed)
      ≡ (if str_eq key k then events_of k feed ++ a ∷ [] else events_of k feed)
events_of-place k key a feed = elim (Bool-cases (str_eq key k)) [
  | inl same ↦
      let e : key ≡ k = ground (arith, eq_iff key k) in
      let placed : events_of k (place k a feed) ≡ events_of k feed ++ a ∷ [] =
        ap (λ c. events_in c.items) (cell_of-place k a feed)
        ∙ events_in-place_in k a (cell_of k feed) in
      subst (λ j. events_of k (place j a feed) ≡ events_of k feed ++ a ∷ []) (sym e) placed
      ∙ ap (λ t. if t then events_of k feed ++ a ∷ [] else events_of k feed) (sym same)
  | inr other ↦
      let ne : key ≢ k = ground (arith, eq_iff key k) in
      ap (λ c. events_in c.items) (cell_of_ne-place k key a feed ne)
      ∙ ap (λ t. if t then events_of k feed ++ a ∷ [] else events_of k feed) (sym other)
]

-- One action that is no move.
record_play_lem :
    (k : String) (feed : Feed) (a : Action)
    → ((record_play feed a).current ≡ key_for feed.current a.body)
      × (events_of k (record_play feed a) ≡ (
          if is_here k (key_for feed.current a.body)
          then events_of k feed ++ a ∷ []
          else events_of k feed))
unfolding record_play
record_play_lem k feed a = elim (Option-cases (key_for feed.current a.body)) [
  | inl nothing ↦ rw (nothing, record_play) (key_for-none feed.current a.body nothing, refl)
  | inr (key, found) ↦
      let there : Feed = record feed { current = some key } in
      rw (found, record_play) (current-place key a there, events_of-place k key a there)
]

record_action_still :
    (feed : Feed) (a : Action) → as_move a.body ≡ none → record_action feed a ≡ record_play feed a
unfolding record_action record_play
record_action_still feed a still = rw (record_action, still) refl

events_of-foldl :
    (k : String) (log : List Action) (feed : Feed)
    → All (λ a. as_move a.body ≡ none) log
    → events_of k (foldl record_action feed log) ≡ events_of k feed ++ assigned k feed.current log
unfolding assigned
events_of-foldl k [] feed h = sym (append-nil (events_of k feed))
events_of-foldl k (a ∷ log) feed (still, h) =
    let next = record_play_lem k feed a in
    let tail = assigned k (key_for feed.current a.body) log in
    let rest = events_of-foldl k log (record_play feed a) h in
    ap (λ f. events_of k (foldl record_action f log)) (record_action_still feed a still)
    ∙ rest
    ∙ ap (λ c. events_of k (record_play feed a) ++ assigned k c log) next.0
    ∙ ap (λ o. o ++ tail) next.1
    ∙ either_append (is_here k (key_for feed.current a.body)) (events_of k feed) a tail

-- If the log has no move, the items of a cell hold just the actions that belong to it, in the order
-- of the log.
pub build_feed-events :
    (log : List Action) (k : String)
    → All (λ a. as_move a.body ≡ none) log
    → events_in (items_of k (build_feed log).history) ≡ assigned k none log
unfolding build_feed items_of
build_feed-events log k h = events_of-foldl k log empty_feed h
