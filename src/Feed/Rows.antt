-- ===== src/Feed/Rows.antt =====
-- `insertHeaders` of frontend/game/historyManager.js: a heading wherever the inning or the side changes.
use skorekeeper.Common.{
  ℕ, String, Bool, true, false, ◌&&◌, List, [], ◌∷◌, map, Option, none, some, get_elem?, or_text,
  str_eq, ◌==◌, if◌then◌else◌, ◌≡◌, refl, sym, ap, ◌∙◌, arith, eq_iff, inl, inr, Bool-cases,
}
use skorekeeper.Common.Text.{◌+++◌, show_nat, parse_int, split_dash}
use skorekeeper.Game.{PerTeam, key_team}
use skorekeeper.Feed.{Item}

pub data SideName : Type 0 where
  top bottom : SideName

-- An item of type `INNING_HEADER`; `inning` is none for NaN.
pub record Header : Type 0 where
  pub id : String
  pub ctx_key : String
  pub inning : Option ℕ
  pub team : String
  pub side_name : SideName

pub data Row : Type 0 where
  header : Header → Row
  play : Item → Row

-- `parseInt(parts[0], 10)`
unfoldable pub inning_of : String → Option ℕ
inning_of key = parse_int (key_team key)

-- `parts[1]`
unfoldable pub team_part : String → Option String
team_part key = get_elem? (split_dash key) 1

abbrev show_inning : Option ℕ → String
show_inning none = "NaN"
show_inning (some n) = show_nat n

abbrev show_team : Option String → String
show_team none = "undefined"
show_team (some t) = t

abbrev pub is_away : Option String → Bool
is_away none = false
is_away (some t) = str_eq t "away"

abbrev pub side_of : Option String → SideName
side_of team = if is_away team then top else bottom

unfoldable pub make_header : PerTeam String → Option ℕ → Option String → Header
make_header names inning team = record {
  id = "header-" +++ show_inning inning +++ "-" +++ show_team team;
  ctx_key = show_inning inning +++ "-" +++ show_team team +++ "-header";
  inning = inning;
  team = if is_away team then or_text names.of_away "Away" else or_text names.of_home "Home";
  side_name = side_of team;
}

-- `inn === currentInning`, which NaN never is; the inning before the first is none too.
abbrev same_inning : Option ℕ → Option ℕ → Bool
same_inning (some a) (some b) = a == b
same_inning _ _ = false

abbrev same_team : Option String → Option String → Bool
same_team none none = true
same_team (some a) (some b) = str_eq a b
same_team _ _ = false

headers_from : PerTeam String → Option ℕ → Option String → List Item → List Row
unfolding make_header
headers_from names inning team [] = []
headers_from names inning team (h ∷ history) =
    let inn = inning_of h.ctx_key in
    let side = team_part h.ctx_key in
    let rest = headers_from names inn side history in
    if same_inning inn inning && same_team side team
    then play h ∷ headers_from names inning team history
    else header (make_header names inn side) ∷ play h ∷ rest

unfoldable pub insert_headers : PerTeam String → List Item → List Row
unfolding headers_from
insert_headers names history = headers_from names none (some "") history

-- Each play with the inning and the side of the last heading above it.
abbrev pub under : Option ℕ × SideName → List Row → List (Item × (Option ℕ × SideName))
under above [] = []
under above (header h ∷ rows) = under (h.inning, h.side_name) rows
under above (play h ∷ rows) = (h, above) ∷ under above rows

abbrev pub own_heading : Item → Option ℕ × SideName
own_heading h = (inning_of h.ctx_key, side_of (team_part h.ctx_key))

same_inning-eq : (a b : Option ℕ) → same_inning a b ≡ true → a ≡ b
same_inning-eq none b h = absurd cc
same_inning-eq (some a) none h = absurd cc
same_inning-eq (some a) (some b) h = ap some (ground arith)

same_team-eq : (a b : Option String) → same_team a b ≡ true → a ≡ b
same_team-eq none none h = refl
same_team-eq none (some b) h = absurd cc
same_team-eq (some a) none h = absurd cc
same_team-eq (some a) (some b) h = ap some (ground (arith, eq_iff a b))

under-headers_from :
    (names : PerTeam String) (inning : Option ℕ) (team : Option String) (history : List Item)
    → under (inning, side_of team) (headers_from names inning team history)
      ≡ map (λ h. (h, own_heading h)) history
unfolding headers_from make_header
under-headers_from names inning team [] = refl
under-headers_from names inning team (h ∷ history) =
    let inn = inning_of h.ctx_key in
    let here = team_part h.ctx_key in
    elim (Bool-cases (same_inning inn inning && same_team here team)) [
      | inl same ↦
          let e : inn ≡ inning = same_inning-eq inn inning (ground arith) in
          let f : here ≡ team = same_team-eq here team (ground arith) in
          let rest = under-headers_from names inning team history in
          rw same (
            ap (λ xs. (h, (inning, side_of team)) ∷ xs) rest
            ∙ ap (λ i. (h, (i, side_of team)) ∷ map (λ g. (g, own_heading g)) history) (sym e)
            ∙ ap (λ t. (h, (inn, side_of t)) ∷ map (λ g. (g, own_heading g)) history) (sym f))
      | inr other ↦
          rw other
            (ap (λ xs. (h, (inn, side_of here)) ∷ xs) (under-headers_from names inn here history))
    ]

-- With the headings taken out the history is as before, and each play stands under a heading of its
-- own inning and side.
pub under-insert_headers :
    (names : PerTeam String) (history : List Item)
    → under (none, bottom) (insert_headers names history) ≡ map (λ h. (h, own_heading h)) history
unfolding insert_headers
under-insert_headers names history = under-headers_from names none (some "") history
