-- ===== src/Bench/Listed.antt =====
-- Every player is listed, and once (frontend/game/substitutionManager.js).
use skorekeeper.Common.{
  String, Bool, true, false, ◌||◌, List, [], ◌∷◌, ◌++◌, map, any, All, All-append, none, some,
  str_eq, str_eq_ne, str_eq_refl, if◌then◌else◌, Dict, lookup, insert, is_some, ◌≡◌, refl, sym, ap,
  subst, ◌∙◌, arith, Bool-cases, Option-cases, inl, inr,
}
use skorekeeper.Common.Text.{◌+++◌}
use Prim.Native.String.{[], ◌∷◌}
use text.Mathlib.TextLemmas.{nil-append, cons-append, cons≢nil}
use skorekeeper.Game.{State, Team, Player, side}
use skorekeeper.Bench.{player_key, add_player_once, add_all, player_map, get_all_available_players}

-- A player with the key of this one is in the list.
abbrev pub IsListed : List Player → Player → Type 0
IsListed ps p = any (λ q. str_eq (player_key q) (player_key p)) ps ≡ true

-- No two players of the list have the same key.
abbrev pub AreDistinct : List Player → Type 0
AreDistinct [] = Unit
AreDistinct (p ∷ ps) = All (λ q. str_eq (player_key p) (player_key q) ≡ false) ps × AreDistinct ps

-- The entries of the map stand under the keys of their players.
abbrev IsKeyed : Dict Player → Type 0
IsKeyed [] = Unit
IsKeyed ((k, p) ∷ m) = (player_key p ≡ k) × IsKeyed m

abbrev values : Dict Player → List Player
values m = map (λ b. b.1) m

insert_new :
    (k : String) (p : Player) (m : Dict Player)
    → lookup k m ≡ none
    → insert k p m ≡ m ++ (k, p) ∷ []
unfolding lookup insert
insert_new k p [] h = refl
insert_new k p ((j, q) ∷ m) h = ground (arith, h, insert_new k p m)

values-append :
    (m : Dict Player) (k : String) (p : Player) → values (m ++ (k, p) ∷ []) ≡ values m ++ p ∷ []
values-append [] k p = refl
values-append ((j, q) ∷ m) k p = ap (q ∷◌) (values-append m k p)

IsKeyed-append : (m : Dict Player) (p : Player) → IsKeyed m → IsKeyed (m ++ (player_key p, p) ∷ [])
IsKeyed-append [] p h = (refl, tt)
IsKeyed-append ((j, q) ∷ m) p h = (h.0, IsKeyed-append m p h.1)

AreDistinct-append :
    (ps : List Player) (p : Player)
    → AreDistinct ps
    → All (λ q. str_eq (player_key q) (player_key p) ≡ false) ps
    → AreDistinct (ps ++ p ∷ [])
AreDistinct-append [] p h k = (tt, tt)
AreDistinct-append (q ∷ ps) p h k = (
  All-append (λ x. str_eq (player_key q) (player_key x) ≡ false) ps (p ∷ []) h.0 (k.0, tt),
  AreDistinct-append ps p h.1 k.1,
)

not_listed :
    (k : String) (m : Dict Player)
    → IsKeyed m
    → lookup k m ≡ none
    → All (λ q. str_eq (player_key q) k ≡ false) (values m)
unfolding lookup
not_listed k [] h e = tt
not_listed k ((j, q) ∷ m) h e = elim (Bool-cases (str_eq j k)) [
  | inl same ↦
      let bad : some q ≡ none = sym (ap (λ b. if b then some q else lookup k m) same) ∙ e in
      absurd cc
  | inr other ↦ (
    ap (λ x. str_eq x k) h.0 ∙ other,
    not_listed k m h.1 (sym (ap (λ b. if b then some q else lookup k m) other) ∙ e),
  )
]

IsListed-by_key :
    (p : Player) (m : Dict Player)
    → IsKeyed m
    → is_some (lookup (player_key p) m) ≡ true
    → IsListed (values m) p
unfolding lookup
IsListed-by_key p [] h e = e
IsListed-by_key p ((j, q) ∷ m) h e = elim (Bool-cases (str_eq j (player_key p))) [
  | inl same ↦
      let here = ap (λ x. str_eq x (player_key p)) h.0 ∙ same in
      ap (λ b. b || any (λ x. str_eq (player_key x) (player_key p)) (values m)) here
  | inr other ↦
      let later =
        IsListed-by_key p m h.1
          (sym (ap (λ b. is_some (if b then some q else lookup (player_key p) m)) other) ∙ e) in
      later_listed (str_eq (player_key q) (player_key p)) later
]
  where
    later_listed : (b : Bool) {c : Bool} → c ≡ true → (b || c) ≡ true
    later_listed true h = refl
    later_listed false h = h

IsListed-append : (ps : List Player) (p q : Player) → IsListed ps q → IsListed (ps ++ p ∷ []) q
IsListed-append [] p q h = absurd cc
IsListed-append (x ∷ ps) p q h = ground (arith, IsListed-append ps p q)

IsListed-last : (ps : List Player) (p : Player) → IsListed (ps ++ p ∷ []) p
IsListed-last [] p = ground (arith, str_eq_refl (player_key p))
IsListed-last (x ∷ ps) p = ground (arith, IsListed-last ps p)

dashed_some : (s t : String) → str_eq (s +++ "-" +++ t) "" ≡ false
dashed_some [] t =
    ap (λ x. str_eq x "") (nil-append ("-" +++ t) ∙ cons-append "-" "" t)
    ∙ str_eq_ne ("-" ∷ ("" +++ t)) "" (λ e. cons≢nil e)
dashed_some (c ∷ s) t =
    ap (λ x. str_eq x "") (cons-append c s ("-" +++ t))
    ∙ str_eq_ne (c ∷ (s +++ "-" +++ t)) "" (λ e. cons≢nil e)

player_key_some : (p : Player) → str_eq (player_key p) "" ≡ false
player_key_some p = elim (Bool-cases (str_eq p.id "")) [
  | inl absent ↦
      ap (λ b. str_eq (if b then p.number +++ "-" +++ p.name else p.id) "") absent
      ∙ dashed_some p.number p.name
  | inr present ↦
      ap (λ b. str_eq (if b then p.number +++ "-" +++ p.name else p.id) "") present ∙ present
]

-- What the map keeps while players are added to it.
abbrev IsKept : Dict Player → Type 0
IsKept m = IsKeyed m × AreDistinct (values m)

-- The state of the map after a player: either he was in it, or he is its last entry.
add_player_once_lem :
    (p : Player) (m : Dict Player)
    → IsKept m
    → IsKept (add_player_once p m)
      × IsListed (values (add_player_once p m)) p
      × ((q : Player) → IsListed (values m) q → IsListed (values (add_player_once p m)) q)
unfolding add_player_once
add_player_once_lem p m h = elim (Option-cases (lookup (player_key p) m)) [
  | inl new ↦
      let same : add_player_once p m ≡ m ++ (player_key p, p) ∷ [] =
        ap (λ b. if b || is_some (lookup (player_key p) m) then m else insert (player_key p) p m)
          (player_key_some p)
        ∙ ap (λ o. if is_some o then m else insert (player_key p) p m) new
        ∙ insert_new (player_key p) p m new in
      let listed = values-append m (player_key p) p in
      subst
        (λ x.
          IsKept x
          × IsListed (values x) p
          × ((q : Player) → IsListed (values m) q → IsListed (values x) q))
        (sym same)
        (
          (
            IsKeyed-append m p h.0,
            subst AreDistinct (sym listed)
                (AreDistinct-append (values m) p h.1 (not_listed (player_key p) m h.0 new)),
          ),
          subst (λ x. IsListed x p) (sym listed) (IsListed-last (values m) p),
          λ q k. subst (λ x. IsListed x q) (sym listed) (IsListed-append (values m) p q k),
        )
  | inr (old, found) ↦
      let same : add_player_once p m ≡ m =
        ap (λ b. if b || is_some (lookup (player_key p) m) then m else insert (player_key p) p m)
          (player_key_some p)
        ∙ ap (λ o. if is_some o then m else insert (player_key p) p m) found in
      subst
        (λ x.
          IsKept x
          × IsListed (values x) p
          × ((q : Player) → IsListed (values m) q → IsListed (values x) q))
        (sym same) (h, IsListed-by_key p m h.0 (ap is_some found), λ q k. k)
]

add_all_lem :
    (ps : List Player) (m : Dict Player)
    → IsKept m
    → IsKept (add_all ps m)
      × All (IsListed (values (add_all ps m))) ps
      × ((q : Player) → IsListed (values m) q → IsListed (values (add_all ps m)) q)
unfolding add_all
add_all_lem [] m h = (h, tt, λ q k. k)
add_all_lem (p ∷ ps) m h =
    let (kept, here, stay) = add_player_once_lem p m h in
    let (all_kept, listed, all_stay) = add_all_lem ps (add_player_once p m) kept in
    (all_kept, (all_stay p here, listed), λ q k. all_stay q (stay q k))

All-map_to {ℓ κ μ} :
    {A : Type ℓ} (P : A → Type κ) (Q : A → Type μ) (xs : List A)
    → ((x : A) → P x → Q x)
    → All P xs
    → All Q xs
All-map_to P Q [] f h = tt
All-map_to P Q (x ∷ xs) f h = (f x h.0, All-map_to P Q xs f h.1)

-- Every player of the bench, every starter and every player on the field is among the available players by his key, and
-- no two of these have the same key.
pub get_all_available_players_lem :
    (game : State) (team : Team)
    → let available = get_all_available_players game team in
      AreDistinct available
      × All (IsListed available) (side team game.subs)
      × All (IsListed available) (map (λ s. s.starter) (side team game.roster))
      × All (IsListed available) (map (λ s. s.current) (side team game.roster))
unfolding get_all_available_players player_map
get_all_available_players_lem game team =
    let roster = side team game.roster in
    let subs = side team game.subs in
    let starters = map (λ s. s.starter) roster in
    let currents = map (λ s. s.current) roster in
    let (kept_1, listed_1, stay_1) = add_all_lem subs [] (tt, tt) in
    let (kept_2, listed_2, stay_2) = add_all_lem starters (add_all subs []) kept_1 in
    let (kept_3, listed_3, stay_3) =
      add_all_lem currents (add_all starters (add_all subs [])) kept_2 in
    (
      kept_3.1,
      All-map_to (IsListed (values (add_all subs [])))
          (IsListed (get_all_available_players game team)) subs (λ q k. stay_3 q (stay_2 q k))
          listed_1,
      All-map_to (IsListed (values (add_all starters (add_all subs []))))
          (IsListed (get_all_available_players game team)) starters stay_3 listed_2,
      listed_3,
    )
