-- ===== src/Feed/Steps.antt =====
-- What holds of a cell holds after an action, if the operations on cells keep it.
use skorekeeper.Common.{
  String, Option, none, some, str_eq, ◌≡◌, ◌≢◌, refl, sym, subst, arith, eq_iff, inl, inr,
  Bool-cases, Option-cases,
}
use skorekeeper.Game.{Action, MovePayload}
use skorekeeper.Feed.{
  Feed, key_for, strike, place, record_play, as_move, find_full_ctx_key, move_target, strike_source,
  land_play, record_move, record_action,
}
use skorekeeper.Feed.Cells.{
  Cell, cell_of, change_in, place_in, land_in, cell_of-set_latest, cell_of_ne-set_latest,
  cell_of-place, cell_of_ne-place, cell_of-land_play, cell_of_ne-land_play,
}

-- What an operation leaves of a cell, one way or the other.
module _ {ℓ} (P : Cell → Type ℓ) (k : String)
    (keep_strike : (c : Cell) → P c → P (change_in strike c)) where
  strike_source_keeps :
      (source : Option String) (feed : Feed)
      → P (cell_of k feed)
      → P (cell_of k (strike_source source feed))
  strike_source_keeps none feed p = p
  strike_source_keeps (some key) feed p = elim (Bool-cases (str_eq key k)) [
    | inl same ↦
        let e : key ≡ k = ground (arith, eq_iff key k) in
        rw e (subst P (sym (cell_of-set_latest k strike feed (λ h. refl))) (keep_strike _ p))
    | inr other ↦
        let ne : key ≢ k = ground (arith, eq_iff key k) in
        subst P (sym (cell_of_ne-set_latest k key strike feed (λ h. refl) ne)) p
  ]

  module _ (a : Action) (keep_land : (c : Cell) → P c → P (land_in k a c)) where
    land_keeps :
        (key : String) (feed : Feed) → P (cell_of k feed) → P (cell_of k (land_play key a feed))
    land_keeps key feed p = elim (Bool-cases (str_eq key k)) [
      | inl same ↦
          let e : key ≡ k = ground (arith, eq_iff key k) in
          rw e (subst P (sym (cell_of-land_play k a feed)) (keep_land _ p))
      | inr other ↦
          let ne : key ≢ k = ground (arith, eq_iff key k) in
          subst P (sym (cell_of_ne-land_play k key a feed ne)) p
    ]

    record_move_keeps :
        (m : MovePayload) (feed : Feed) → P (cell_of k feed) → P (cell_of k (record_move m a feed))
    unfolding record_move
    record_move_keeps m feed p =
        let struck = strike_source_keeps (find_full_ctx_key m.source_key feed.history) feed p in
        elim (Option-cases (move_target m feed.history)) [
          | inl nothing ↦ rw (nothing, record_move) struck
          | inr (key, found) ↦ rw (found, record_move) (land_keeps key _ struck)
        ]

    module _ (keep_place : (c : Cell) → P c → P (place_in k a c)) where
      place_keeps :
          (key : String) (feed : Feed) → P (cell_of k feed) → P (cell_of k (place key a feed))
      place_keeps key feed p = elim (Bool-cases (str_eq key k)) [
        | inl same ↦
            let e : key ≡ k = ground (arith, eq_iff key k) in
            rw e (subst P (sym (cell_of-place k a feed)) (keep_place _ p))
        | inr other ↦
            let ne : key ≢ k = ground (arith, eq_iff key k) in
            subst P (sym (cell_of_ne-place k key a feed ne)) p
      ]

      record_play_keeps : (feed : Feed) → P (cell_of k feed) → P (cell_of k (record_play feed a))
      unfolding record_play
      record_play_keeps feed p = elim (Option-cases (key_for feed.current a.body)) [
        | inl nothing ↦ rw (nothing, record_play) p
        | inr (key, found) ↦ rw (found, record_play) (place_keeps key _ p)
      ]

      pub record_action_keeps :
          (feed : Feed) → P (cell_of k feed) → P (cell_of k (record_action feed a))
      unfolding record_action
      record_action_keeps feed p = elim (Option-cases (as_move a.body)) [
        | inl nothing ↦ rw (nothing, record_action) (record_play_keeps feed p)
        | inr (m, found) ↦ rw (found, record_action) (record_move_keeps m feed p)
      ]
