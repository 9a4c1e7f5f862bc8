-- ===== src/Dashboard/Sources.antt =====
-- Where the games of the list come from.
use skorekeeper.Common.{
  AreUnique, String, false, List, [], ◌∷◌, Option, none, some, Dict, lookup, insert, lookup-insert,
  elem, str_eq, if◌then◌else◌, ◌≡◌, refl, ap, subst, ◌∙◌, arith, eq_iff, Bool-cases, inl, inr,
}
use skorekeeper.Dashboard.{
  GameSummary, from_local, from_remote, from_both, Entry, add_local, add_remote, merge_remote,
  merge_games,
}
use skorekeeper.Dashboard.Merged.{ids}

-- The last game with the id.
abbrev pub last_with : String → List GameSummary → Option GameSummary
last_with id [] = none
last_with id (g ∷ games) = elim (last_with id games) [
  | some h ↦ some h
  | none ↦ if str_eq g.id id then some g else none
]

-- The entry of a game, from the one in each buffer.
abbrev pub combined : Option GameSummary → Option GameSummary → Option Entry
combined none none = none
combined (some g) none = some (record { item = g; origin = from_local })
combined none (some r) = some (record { item = r; origin = from_remote })
combined (some g) (some r) = some (record { item = r; origin = from_both g })

abbrev local_entry : Option GameSummary → Option Entry → Option Entry
local_entry none e = e
local_entry (some g) e = some (record { item = g; origin = from_local })

abbrev remote_entry : Option GameSummary → Option Entry → Option Entry
remote_entry none e = e
remote_entry (some r) e = some (merge_remote r e)

lookup-add_local :
    (id : String) (games : List GameSummary) (m : Dict Entry)
    → lookup id (add_local games m) ≡ local_entry (last_with id games) (lookup id m)
unfolding add_local
lookup-add_local id [] m = refl
lookup-add_local id (g ∷ games) m =
    let e : Entry = record { item = g; origin = from_local } in
    ground (arith, lookup-add_local id games (insert g.id e m), lookup-insert g.id id e m)

last_with-unknown :
    (id : String) (games : List GameSummary)
    → elem id (ids games) ≡ false
    → last_with id games ≡ none
last_with-unknown id [] h = refl
last_with-unknown id (g ∷ games) h = ground (arith, last_with-unknown id games)

lookup-add_remote :
    (id : String) (games : List GameSummary) (m : Dict Entry)
    → AreUnique (ids games)
    → lookup id (add_remote games m) ≡ remote_entry (last_with id games) (lookup id m)
unfolding add_remote
lookup-add_remote id [] m u = refl
lookup-add_remote id (g ∷ games) m (fresh, u) =
    let e = merge_remote g (lookup g.id m) in
    let rest =
      lookup-add_remote id games (insert g.id e m) u
      ∙ ap (remote_entry (last_with id games)) (lookup-insert g.id id e m) in
    elim (Bool-cases (str_eq g.id id)) [
      | inl same ↦
          let here : g.id ≡ id = ground (arith, eq_iff g.id id) in
          let gone : last_with id games ≡ none =
            last_with-unknown id games (subst (λ k. elem k (ids games) ≡ false) here fresh) in
          let same_entry : lookup g.id m ≡ lookup id m = ap (λ k. lookup k m) here in
          ground (arith, rest, gone, same_entry, same)
      | inr other ↦ ground (arith, rest, other)
    ]

-- If the server lists no game twice, the entry of a game is made of the stored game and the listed
-- one with its id.
pub lookup-merge_games :
    (id : String) (local_games remote_games : List GameSummary)
    → AreUnique (ids remote_games)
    → lookup id (merge_games local_games remote_games)
      ≡ combined (last_with id local_games) (last_with id remote_games)
unfolding merge_games lookup
lookup-merge_games id local_games remote_games u =
    lookup-add_remote id remote_games (add_local local_games []) u
    ∙ ap (remote_entry (last_with id remote_games)) (lookup-add_local id local_games [])
    ∙ both_ways (last_with id local_games) (last_with id remote_games)
  where
    both_ways : (l r : Option GameSummary) → remote_entry r (local_entry l none) ≡ combined l r
    both_ways none none = refl
    both_ways none (some r) = refl
    both_ways (some l) none = refl
    both_ways (some l) (some r) = refl
