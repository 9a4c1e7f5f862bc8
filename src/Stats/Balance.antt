-- ===== src/Stats/Balance.antt =====
-- The lines of the pitchers add up (frontend/game/statsEngine.js).
use skorekeeper.Common.{
  ℕ, ◌+◌, ◌≤◌, ◌-◌, String, Bool, true, false, ◌&&◌, not, List, [], ◌∷◌, str_eq, if◌then◌else◌,
  Dict, lookup, AllValues, AllValues-insert, ◌≡◌, refl, sym, subst, arith, Bool-cases, inl, inr,
  get_or, ltb,
}
use skorekeeper.Common.Text.{starts_with}
use skorekeeper.Game.{State, Event, PitchType, PitchEntry}
use skorekeeper.Stats.Changes.{
  for_text, if-either, AllValues-modify, AllValues-touch, AllValues-get_or,
}
use skorekeeper.Stats.{
  PitcherLine, GameLines, SlotCell, new_pitcher_line, new_pitcher_total, touch_pitcher, modify,
  count_when, is_walk, is_hbp, is_hit, is_strikeout, is_ball_in_play, or_new, count_thrown,
  count_entry, count_entries, count_batter_faced, count_pitching, count_plate_appearance,
  count_cells, final_pitcher, fielding_name, credit_outs, credit_inning, credit_innings, sort_cells,
  by_inning, start_lines, lines_of, calculate_game_stats, PitcherTotal, StatsTotals, add_pitcher,
  add_pitchers, add_to_pitcher, add_game, add_games, aggregate_stats, no_totals,
}

abbrev pub IsBalanced : PitcherLine → Type 0
IsBalanced l =
    (l.strikes + l.balls ≤ l.pitches)
    × (l.h + l.bb + l.hbp ≤ l.bf)
    × (l.k ≤ l.bf)
    × (l.defensive_outs ≤ l.ip_outs)

count_thrown-IsBalanced :
    (type : PitchType) (l : PitcherLine) → IsBalanced l → IsBalanced (count_thrown type l)
count_thrown-IsBalanced PitchType.strike l h = omega (arith, h)
count_thrown-IsBalanced PitchType.foul l h = omega (arith, h)
count_thrown-IsBalanced PitchType.out l h = omega (arith, h)
count_thrown-IsBalanced PitchType.ball l h = omega (arith, h)
count_thrown-IsBalanced PitchType.in_play l h = omega (arith, h)

-- At most one of the three.
abbrev IsOneOf : String → Type 0
IsOneOf o = count_when (is_hit o) 0 + count_when (is_walk o) 0 + count_when (is_hbp o) 0 ≤ 1

one_of : (o : String) → IsOneOf o
unfolding starts_with
one_of o = elim (Bool-cases (str_eq o "1B")) [
  | inl e ↦ for_text IsOneOf o "1B" e (omega arith)
  | inr n1 ↦ elim (Bool-cases (str_eq o "2B")) [
    | inl e ↦ for_text IsOneOf o "2B" e (omega arith)
    | inr n2 ↦ elim (Bool-cases (str_eq o "3B")) [
      | inl e ↦ for_text IsOneOf o "3B" e (omega arith)
      | inr n3 ↦ elim (Bool-cases (str_eq o "HR")) [
        | inl e ↦ for_text IsOneOf o "HR" e (omega arith)
        | inr n4 ↦ elim (Bool-cases (str_eq o "HBP")) [
          | inl e ↦ for_text IsOneOf o "HBP" e (omega arith)
          | inr n5 ↦ rw (n1, n2, n3, n4, n5) (at_most_one (is_walk o))
        ]
      ]
    ]
  ]
]
  where
    at_most_one : (b : Bool) → 0 + count_when b 0 + 0 ≤ 1
    at_most_one true = omega arith
    at_most_one false = omega arith

faced_bound :
    (a b c : Bool) (x y z n : ℕ)
    → count_when a 0 + count_when b 0 + count_when c 0 ≤ 1
    → x + y + z ≤ n
    → count_when a x + count_when b y + count_when c z ≤ n + 1
faced_bound a b c x y z n one h = ground arith

count_batter_faced-IsBalanced :
    (evt : Event) (l : PitcherLine) → IsBalanced l → IsBalanced (count_batter_faced evt l)
unfolding count_batter_faced
count_batter_faced-IsBalanced evt l h =
    let o = evt.outcome in
    (
      pitch_bound (is_ball_in_play o) l.strikes l.balls l.pitches h.0,
      faced_bound (is_hit o) (is_walk o) (is_hbp o) l.h l.bb l.hbp l.bf (one_of o) h.1,
      strikeout_bound (is_strikeout o) l.k l.bf h.2,
      h.3,
    )
  where
    pitch_bound : (b : Bool) (x y n : ℕ) → x + y ≤ n → count_when b x + y ≤ count_when b n
    pitch_bound true x y n h = omega (arith, h)
    pitch_bound false x y n h = h

    strikeout_bound : (b : Bool) (x n : ℕ) → x ≤ n → count_when b x ≤ n + 1
    strikeout_bound true x n h = omega (arith, h)
    strikeout_bound false x n h = omega (arith, h)

credit_outs-IsBalanced :
    (outs : ℕ) (evt : Event) (l : PitcherLine) → IsBalanced l → IsBalanced (credit_outs outs evt l)
unfolding credit_outs
credit_outs-IsBalanced outs evt l h = (h.0, h.1, h.2, omega (arith, h))

touch_pitcher-IsBalanced :
    (id team : String) (lines : Dict PitcherLine)
    → AllValues IsBalanced lines
    → AllValues IsBalanced (touch_pitcher id team lines)
touch_pitcher-IsBalanced id team lines h =
    AllValues-touch IsBalanced id (new_pitcher_line team)
      (λ l. record l { team = or_new l.team team }) lines (omega arith) (λ l k. k) h

-- A change of the line of a pitcher, which is made where there is none.
touched-IsBalanced :
    (b : Bool) (id team : String) (f : PitcherLine → PitcherLine) (lines : Dict PitcherLine)
    → ((l : PitcherLine) → IsBalanced l → IsBalanced (f l))
    → AllValues IsBalanced lines
    → AllValues IsBalanced (if b then lines else modify id f (touch_pitcher id team lines))
touched-IsBalanced b id team f lines kept h =
    if-either (AllValues IsBalanced) b lines (modify id f (touch_pitcher id team lines)) h (
      AllValues-modify IsBalanced id f (touch_pitcher id team lines) kept
        (touch_pitcher-IsBalanced id team lines h))

count_entries-IsBalanced :
    (team : String) (ps : List PitchEntry) (lines : Dict PitcherLine)
    → AllValues IsBalanced lines
    → AllValues IsBalanced (count_entries team ps lines)
unfolding count_entries
count_entries-IsBalanced team [] lines h = h
count_entries-IsBalanced team (PitchEntry.pitch type code pitcher ∷ ps) lines h =
    count_entries-IsBalanced team ps (count_entry team (PitchEntry.pitch type code pitcher) lines) (
      touched-IsBalanced (str_eq pitcher "") pitcher team (count_thrown type) lines
        (count_thrown-IsBalanced type) h)
count_entries-IsBalanced team (PitchEntry.substitution id ∷ ps) lines h =
    count_entries-IsBalanced team ps lines h

count_plate_appearance_pitchers :
    (game : State) (key : String) (evt : Event) (t : GameLines)
    → (count_plate_appearance game key evt t).pitcher_stats ≡ t.pitcher_stats
unfolding count_plate_appearance
count_plate_appearance_pitchers game key evt t = elim (Bool-cases (str_eq evt.p_id "")) [
  | inl absent ↦ rw (absent, count_plate_appearance) refl
  | inr present ↦ rw (present, count_plate_appearance) refl
]

count_cells-IsBalanced :
    (game : State) (events : Dict Event) (t : GameLines)
    → AllValues IsBalanced t.pitcher_stats
    → AllValues IsBalanced (count_cells game events t).pitcher_stats
unfolding count_cells count_pitching
count_cells-IsBalanced game [] t h = h
count_cells-IsBalanced game ((key, evt) ∷ events) t h =
    let u = count_plate_appearance game key evt t in
    let team = fielding_name game key in
    let thrown = count_entries team evt.pitch_sequence u.pitcher_stats in
    count_cells-IsBalanced game events (count_pitching game key evt u) (
      touched-IsBalanced (str_eq (final_pitcher evt) "") (final_pitcher evt) team
        (count_batter_faced evt) thrown (count_batter_faced-IsBalanced evt)
        (count_entries-IsBalanced team evt.pitch_sequence u.pitcher_stats
          (subst (AllValues IsBalanced) (sym (count_plate_appearance_pitchers game key evt t)) h)))

credit_inning-IsBalanced :
    (last_outs : ℕ) (cells : List SlotCell) (lines : Dict PitcherLine)
    → AllValues IsBalanced lines
    → AllValues IsBalanced (credit_inning last_outs cells lines)
unfolding credit_inning
credit_inning-IsBalanced last_outs [] lines h = h
credit_inning-IsBalanced last_outs ((slot, evt) ∷ cells) lines h =
    let outs = evt.out_num - last_outs in
    let pitcher = final_pitcher evt in
    let touched = touch_pitcher pitcher "" lines in
    let b = ltb 0 outs && not (str_eq pitcher "") in
    credit_inning-IsBalanced evt.out_num cells
      (if b then modify pitcher (credit_outs outs evt) touched else lines)
      (if-either (AllValues IsBalanced) b (modify pitcher (credit_outs outs evt) touched) lines
        (AllValues-modify IsBalanced pitcher (credit_outs outs evt) touched
          (credit_outs-IsBalanced outs evt) (touch_pitcher-IsBalanced pitcher "" lines h))
        h)

credit_innings-IsBalanced :
    (groups : Dict (List SlotCell)) (lines : Dict PitcherLine)
    → AllValues IsBalanced lines
    → AllValues IsBalanced (credit_innings groups lines)
unfolding credit_innings
credit_innings-IsBalanced [] lines h = h
credit_innings-IsBalanced ((key, cells) ∷ groups) lines h =
    credit_innings-IsBalanced groups (credit_inning 0 (sort_cells cells) lines)
      (credit_inning-IsBalanced 0 (sort_cells cells) lines h)

lines_of-IsBalanced : (game : State) → AllValues IsBalanced (lines_of game).pitcher_stats
unfolding lines_of
lines_of-IsBalanced game =
    credit_innings-IsBalanced (by_inning game.events [])
      (count_cells game game.events (start_lines game)).pitcher_stats
      (count_cells-IsBalanced game game.events (start_lines game) tt)

add_to_pitcher-IsBalanced :
    (s : PitcherLine) (p : PitcherTotal)
    → IsBalanced s
    → IsBalanced p.line
    → IsBalanced (add_to_pitcher s p).line
add_to_pitcher-IsBalanced s p h k =
    (omega (arith, h, k), omega (arith, h, k), omega (arith, h, k), omega (arith, h, k))

add_pitchers-IsBalanced :
    (chosen : String → Bool) (lines : Dict PitcherLine) (pitchers : Dict PitcherTotal)
    → AllValues IsBalanced lines
    → AllValues (λ p. IsBalanced p.line) pitchers
    → AllValues (λ p. IsBalanced p.line) (add_pitchers chosen lines pitchers)
unfolding add_pitchers
add_pitchers-IsBalanced chosen [] pitchers h k = k
add_pitchers-IsBalanced chosen ((id, s) ∷ lines) pitchers h k =
    let old = get_or (lookup id pitchers) new_pitcher_total in
    add_pitchers-IsBalanced chosen lines
      (if chosen s.team then add_pitcher id s pitchers else pitchers) h.1
      (if-either (AllValues (λ p. IsBalanced p.line)) (chosen s.team) (add_pitcher id s pitchers)
        pitchers
        (AllValues-insert (λ p. IsBalanced p.line) id (add_to_pitcher s old) pitchers k
          (add_to_pitcher-IsBalanced s old h.0 (
            AllValues-get_or (λ p. IsBalanced p.line) id pitchers new_pitcher_total (omega arith)
              k)))
        k)

add_games-IsBalanced :
    (games : List State) (totals : StatsTotals)
    → AllValues (λ p. IsBalanced p.line) totals.pitchers
    → AllValues (λ p. IsBalanced p.line) (add_games games totals).pitchers
unfolding add_games add_game calculate_game_stats
add_games-IsBalanced [] totals h = h
add_games-IsBalanced (game ∷ games) totals h = add_games-IsBalanced games (add_game game totals) (
    add_pitchers-IsBalanced (λ _. true) (lines_of game).pitcher_stats totals.pitchers
      (lines_of-IsBalanced game) h)

-- In the totals of any games, the strikes and balls of every pitcher are together at most his pitches; hits, walks and
-- hit batters are together at most the batters that he faced, and so are his strikeouts; and
-- the outs of the defence are at most the outs of his innings.
pub aggregate_stats-IsBalanced :
    (games : List State) → AllValues (λ p. IsBalanced p.line) (aggregate_stats games).pitchers
unfolding aggregate_stats
aggregate_stats-IsBalanced games = add_games-IsBalanced games no_totals tt
