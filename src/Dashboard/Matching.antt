-- ===== src/Dashboard/Matching.antt =====
-- `_matchesGame` of frontend/controllers/DashboardController.js: whether a stored game answers a query.
use skorekeeper.Common.{
  String, Bool, true, false, ◌&&◌, ◌||◌, not, List, [], ◌∷◌, any, str_eq, ltb, ◌==◌, if◌then◌else◌,
}
use skorekeeper.Common.Text.{◌+++◌, starts_with, includes}
use Prim.Native.Char.{code}
use Prim.Native.String.{[], ◌∷◌}
use skorekeeper.Search.{is, within, at_least, at_most, above, below, Filter, Query}
use skorekeeper.Dashboard.{GameSummary}

-- `s < t` on texts, by the codes of their characters.
unfoldable pub text_ltb : String → String → Bool
text_ltb s [] = false
text_ltb [] (d ∷ t) = true
text_ltb (c ∷ s) (d ∷ t) = ltb (code c) (code d) || (code c == code d) && text_ltb s t

abbrev pub text_leb : String → String → Bool
text_leb s t = not (text_ltb t s)

-- The test of a date by the operator of the filter.
unfoldable pub matches_date : String → Filter → Bool
matches_date d f = elim f.operator [
  | is ↦ starts_with d f.value
  | at_least ↦ text_leb f.value d
  | at_most ↦ text_leb d f.value
  | above ↦ text_ltb f.value d
  | below ↦ text_ltb d f.value
  | within ↦ text_leb f.value d && text_leb d (f.max_value +++ "~")
]

module _ (to_lower_case : String → String) where
  abbrev pub has_text : String → String → Bool
  has_text field t = includes (to_lower_case field) (to_lower_case t)

  unfoldable pub matches_token : GameSummary → String → Bool
  matches_token g token =
      has_text g.event token
      || has_text g.location token
      || has_text g.away token
      || has_text g.home token

  unfoldable pub matches_filter : GameSummary → Filter → Bool
  unfolding matches_date
  matches_filter g f =
      if str_eq f.key "is"
      then true
      else if str_eq f.key "event"
      then has_text g.event f.value
      else if str_eq f.key "location"
      then has_text g.location f.value
      else if str_eq f.key "away"
      then has_text g.away f.value
      else if str_eq f.key "home"
      then has_text g.home f.value
      else if str_eq f.key "date"
      then matches_date g.date f
      else true

  abbrev pub all {ℓ} : {A : Type ℓ} → (A → Bool) → List A → Bool
  all p [] = true
  all p (x ∷ xs) = p x && all p xs

  unfoldable pub matches_game : GameSummary → Query → Bool
  unfolding matches_token matches_filter
  matches_game g q = all (matches_token g) q.tokens && all (matches_filter g) q.filters

-- `parsedQ.filters.some(f => f.key === 'is' && f.value === place)`
unfoldable pub asks_for : String → Query → Bool
asks_for place q = any (λ f. str_eq f.key "is" && str_eq f.value place) q.filters
