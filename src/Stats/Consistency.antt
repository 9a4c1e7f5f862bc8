-- ===== src/Stats/Consistency.antt =====
-- The lines of the players add up (frontend/game/statsEngine.js).
use skorekeeper.Common.{
  ℕ, ◌+◌, ◌≤◌, String, Bool, true, false, ◌&&◌, not, List, [], ◌∷◌, str_eq, if◌then◌else◌, Dict,
  lookup, AllValues, AllValues-insert, ◌≡◌, sym, ap, subst, ◌∙◌, arith, Bool-cases, Option-cases,
  inl, inr, get_or,
}
use skorekeeper.Common.Text.{starts_with, includes}
use skorekeeper.Game.{State, Event}
use skorekeeper.Stats.Changes.{
  for_text, if-either, AllValues-modify, AllValues-touch, AllValues-get_or,
}
use skorekeeper.Stats.{
  new_player_total, start_lines, or_new, has_scored, PlayerLine, GameLines, new_player_line,
  touch_player, modify, count_when, is_walk, is_hbp, is_hit, is_at_bat, count_at_bat, count_hit,
  count_kind, count_strikeout, count_walk, count_outcome, count_batter, credit_run,
  count_plate_appearance, count_pitching, count_cells, lines_of, calculate_game_stats, PlayerTotal,
  StatsTotals, add_player, add_players, add_to_player, add_game, add_games, aggregate_stats,
  no_totals, batting_name, name_in_slot, is_error, is_flyout, is_other_out, is_strikeout,
}

-- Hits are singles, doubles, triples and home runs, and each is an at bat; at bats, walks and hits by pitch
-- are plate appearances, and so are the kinds of outs.
abbrev pub IsConsistent : PlayerLine → Type 0
IsConsistent l =
    (l.h ≡ l.singles + l.doubles + l.triples + l.hr)
    × (l.h ≤ l.ab)
    × (l.ab + l.bb + l.hbp ≤ l.pa)
    × (l.roe + l.flyouts + l.lineouts + l.groundouts + l.other_outs ≤ l.pa)

-- A new plate appearance with this outcome keeps the line consistent.
abbrev KeepsConsistent : String → Type 0
KeepsConsistent o =
    (l : PlayerLine) → IsConsistent l → IsConsistent (count_outcome o (record l { pa = l.pa + 1 }))

count_hit_lem : (o : String) (l : PlayerLine) → is_hit o ≡ false → count_hit o l ≡ l
count_hit_lem o l e = ground arith

-- One of the kinds, in the order of the tests.
abbrev kind_by : Bool → Bool → Bool → Bool → Bool → PlayerLine → PlayerLine
kind_by e f n d x l =
    if e
    then record l { roe = l.roe + 1 }
    else if f
    then record l { flyouts = l.flyouts + 1 }
    else if n
    then record l { lineouts = l.lineouts + 1 }
    else if d
    then record l { groundouts = l.groundouts + 1 }
    else if x
    then record l { other_outs = l.other_outs + 1 }
    else l

abbrev AreExclusive : Bool → Bool → Type 0
AreExclusive a w = (a ≡ true) → w ≡ false

kind_by-IsConsistent :
    (e f n d x a w : Bool) (sh sf : ℕ) (k c : PlayerLine → ℕ) (l : PlayerLine)
    → AreExclusive a w
    → IsConsistent l
    → let m =
        kind_by e f n d x (record l { pa = l.pa + 1; ab = count_when a l.ab; sh = sh; sf = sf }) in
      IsConsistent (record m { k = k m; called_strikes = c m; bb = count_when w m.bb })
kind_by-IsConsistent true f n d x a w sh sf k c l ex h = ground arith
kind_by-IsConsistent false true n d x a w sh sf k c l ex h = ground arith
kind_by-IsConsistent false false true d x a w sh sf k c l ex h = ground arith
kind_by-IsConsistent false false false true x a w sh sf k c l ex h = ground arith
kind_by-IsConsistent false false false false true a w sh sf k c l ex h = ground arith
kind_by-IsConsistent false false false false false a w sh sf k c l ex h = ground arith

at_bat_no_walk : (o : String) → AreExclusive (is_at_bat o) (is_walk o)
at_bat_no_walk o e = ground arith

other_outcome : (o : String) → is_hit o ≡ false → is_hbp o ≡ false → KeepsConsistent o
other_outcome o no_hit no_hbp l h = elim (Bool-cases (str_eq o "")) [
  | inl empty ↦ rw empty (h.0, h.1, omega (arith, h), omega (arith, h))
  | inr some_text ↦
      let started = record l { pa = l.pa + 1 } in
      let counted = count_at_bat o started in
      rw some_text (
        subst (λ x. IsConsistent (count_walk o (count_strikeout o (count_kind o x))))
          (sym (
            count_hit_lem o counted no_hit
            ∙ ap (λ b. record counted { hbp = count_when b l.hbp }) no_hbp))
          (kind_by-IsConsistent (is_error o) (is_flyout o) (starts_with o "L") (includes o "-")
            (is_other_out o) (is_at_bat o) (is_walk o) (count_when (includes o "SH") l.sh)
            (count_when (includes o "SF") l.sf) (λ m. count_when (is_strikeout o) m.k)
            (λ m. count_when (str_eq o "ꓘ") m.called_strikes) l (at_bat_no_walk o) h))
]

count_outcome-IsConsistent : (o : String) → KeepsConsistent o
unfolding starts_with includes
count_outcome-IsConsistent o = elim (Bool-cases (str_eq o "1B")) [
  | inl e ↦ for_text KeepsConsistent o "1B" e (λ l h. omega (arith, h))
  | inr n1 ↦ elim (Bool-cases (str_eq o "2B")) [
    | inl e ↦ for_text KeepsConsistent o "2B" e (λ l h. omega (arith, h))
    | inr n2 ↦ elim (Bool-cases (str_eq o "3B")) [
      | inl e ↦ for_text KeepsConsistent o "3B" e (λ l h. omega (arith, h))
      | inr n3 ↦ elim (Bool-cases (str_eq o "HR")) [
        | inl e ↦ for_text KeepsConsistent o "HR" e (λ l h. omega (arith, h))
        | inr n4 ↦ elim (Bool-cases (str_eq o "HBP")) [
          | inl e ↦ for_text KeepsConsistent o "HBP" e (λ l h. omega (arith, h))
          | inr n5 ↦ other_outcome o (ground arith) n5
        ]
      ]
    ]
  ]
]

count_batter-IsConsistent :
    (evt : Event) (l : PlayerLine) → IsConsistent l → IsConsistent (count_batter evt l)
unfolding count_batter
count_batter-IsConsistent evt l h = count_outcome-IsConsistent evt.outcome l h

touch_player-IsConsistent :
    (id name team : String) (lines : Dict PlayerLine)
    → AllValues IsConsistent lines
    → AllValues IsConsistent (touch_player id name team lines)
touch_player-IsConsistent id name team lines h =
    AllValues-touch IsConsistent id (new_player_line name team)
      (λ l. record l { name = or_new l.name name; team = or_new l.team team }) lines (omega arith)
      (λ l k. k) h

credit_run-IsConsistent :
    (evt : Event) (team : String) (lines : Dict PlayerLine)
    → AllValues IsConsistent lines
    → AllValues IsConsistent (credit_run evt team lines)
credit_run-IsConsistent evt team lines h = elim (Option-cases evt.score_info) [
  | inl missing ↦ rw missing h
  | inr (info, found) ↦ elim (Option-cases info.rbi_credited_to) [
    | inl missing ↦ rw (found, missing) h
    | inr (id, credited) ↦
        let touched = touch_player id "" team lines in
        rw (found, credited)
          (if-either (AllValues IsConsistent) (has_scored evt && not (str_eq id ""))
            (modify id (λ l. record l { rbi = l.rbi + 1 }) touched) lines
            (AllValues-modify IsConsistent id (λ l. record l { rbi = l.rbi + 1 }) touched (λ l k. k)
              (touch_player-IsConsistent id "" team lines h))
            h)
  ]
]

count_plate_appearance-IsConsistent :
    (game : State) (key : String) (evt : Event) (t : GameLines)
    → AllValues IsConsistent t.player_stats
    → AllValues IsConsistent (count_plate_appearance game key evt t).player_stats
unfolding count_plate_appearance
count_plate_appearance-IsConsistent game key evt t h = elim (Bool-cases (str_eq evt.p_id "")) [
  | inl absent ↦ rw (absent, count_plate_appearance) h
  | inr present ↦
      let name = name_in_slot game key in
      let team = batting_name game key in
      let touched = touch_player evt.p_id name team t.player_stats in
      rw (present, count_plate_appearance)
        (credit_run-IsConsistent evt team (modify evt.p_id (count_batter evt) touched) (
          AllValues-modify IsConsistent evt.p_id (count_batter evt) touched
            (count_batter-IsConsistent evt)
            (touch_player-IsConsistent evt.p_id name team t.player_stats h)))
]

count_cells-IsConsistent :
    (game : State) (events : Dict Event) (t : GameLines)
    → AllValues IsConsistent t.player_stats
    → AllValues IsConsistent (count_cells game events t).player_stats
unfolding count_cells count_pitching
count_cells-IsConsistent game [] t h = h
count_cells-IsConsistent game ((key, evt) ∷ events) t h =
    count_cells-IsConsistent game events
      (count_pitching game key evt (count_plate_appearance game key evt t))
      (count_plate_appearance-IsConsistent game key evt t h)

add_to_player-IsConsistent :
    (s : PlayerLine) (p : PlayerTotal)
    → IsConsistent s
    → IsConsistent p.line
    → IsConsistent (add_to_player s p).line
add_to_player-IsConsistent s p h k =
    (omega (arith, h, k), omega (arith, h, k), omega (arith, h, k), omega (arith, h, k))

add_players-IsConsistent :
    (chosen : String → Bool) (lines : Dict PlayerLine) (players : Dict PlayerTotal)
    → AllValues IsConsistent lines
    → AllValues (λ p. IsConsistent p.line) players
    → AllValues (λ p. IsConsistent p.line) (add_players chosen lines players)
unfolding add_players
add_players-IsConsistent chosen [] players h k = k
add_players-IsConsistent chosen ((id, s) ∷ lines) players h k =
    let new = new_player_total s.name in
    let old = get_or (lookup id players) new in
    add_players-IsConsistent chosen lines
      (if chosen s.team then add_player id s players else players) h.1
      (if-either (AllValues (λ p. IsConsistent p.line)) (chosen s.team) (add_player id s players)
        players
        (AllValues-insert (λ p. IsConsistent p.line) id (add_to_player s old) players k
          (add_to_player-IsConsistent s old h.0
            (AllValues-get_or (λ p. IsConsistent p.line) id players new (omega arith) k)))
        k)

add_games-IsConsistent :
    (games : List State) (totals : StatsTotals)
    → AllValues (λ p. IsConsistent p.line) totals.players
    → AllValues (λ p. IsConsistent p.line) (add_games games totals).players
unfolding add_games add_game calculate_game_stats lines_of
add_games-IsConsistent [] totals h = h
add_games-IsConsistent (game ∷ games) totals h =
    add_games-IsConsistent games (add_game game totals) (
      add_players-IsConsistent (λ _. true) (lines_of game).player_stats totals.players
        (count_cells-IsConsistent game game.events (start_lines game) tt) h)

-- In the totals of any games, the hits of every player are his singles, doubles, triples and home runs, at
-- most as many as his at bats; at bats, walks and hits by pitch together are at most the plate appearances,
-- and so are errors reached on, flyouts, lineouts, groundouts and other outs.
pub aggregate_stats-IsConsistent :
    (games : List State) → AllValues (λ p. IsConsistent p.line) (aggregate_stats games).players
unfolding aggregate_stats
aggregate_stats-IsConsistent games = add_games-IsConsistent games no_totals tt
