-- ===== src/Dashboard/Merged.antt =====
-- What `mergeAndRender` makes of the two buffers: which games, each with which status.
use skorekeeper.Common.{
  AreUnique, String, ◌||◌, List, [], ◌∷◌, map, Option, none, some, Dict, lookup, insert, elem, All,
  str_eq, ◌≡◌, refl, sym, ap, subst, ◌∙◌, arith, eq_iff, Bool-cases, inl, inr,
}
use skorekeeper.Dashboard.{
  GameSummary, Origin, from_local, from_remote, from_both, Entry, Network, add_local, add_remote,
  merge_remote, merge_games, process, base_of,
}

abbrev pub ids : List GameSummary → List String
ids games = map (λ g. g.id) games

abbrev keys : Dict Entry → List String
keys m = map (λ b. b.0) m

elem-insert :
    (j k : String) (e : Entry) (m : Dict Entry)
    → elem j (keys (insert k e m)) ≡ (str_eq k j || elem j (keys m))
unfolding insert
elem-insert j k e [] = refl
elem-insert j k e ((i, f) ∷ m) =
    ground (arith, elem-insert j k e m, eq_iff i k, eq_iff i j, eq_iff k j)

AreUnique-insert :
    (k : String) (e : Entry) (m : Dict Entry) → AreUnique (keys m) → AreUnique (keys (insert k e m))
unfolding insert
AreUnique-insert k e [] u = (refl, tt)
AreUnique-insert k e ((i, f) ∷ m) u =
    ground (arith, AreUnique-insert k e m u.1, elem-insert i k e m, eq_iff i k, eq_iff k i)

-- An entry stands under the id of its game, and of the local one too.
abbrev origin_id : String → Origin → String
origin_id id from_local = id
origin_id id from_remote = id
origin_id id (from_both g) = g.id

abbrev IsFiled : String → Entry → Type 0
IsFiled k e = (e.item.id ≡ k) × (origin_id k e.origin ≡ k)

abbrev AllFiled : Dict Entry → Type 0
AllFiled m = All (λ b. IsFiled b.0 b.1) m

AllFiled-insert :
    (k : String) (e : Entry) (m : Dict Entry) → AllFiled m → IsFiled k e → AllFiled (insert k e m)
unfolding insert
AllFiled-insert k e [] h p = (p, tt)
AllFiled-insert k e ((i, f) ∷ m) h p = elim (Bool-cases (str_eq i k)) [
  | inl same ↦
      let here : i ≡ k = ground (arith, eq_iff i k) in
      rw same (subst (λ j. IsFiled j e) (sym here) p, h.1)
  | inr other ↦ rw other (h.0, AllFiled-insert k e m h.1 p)
]

AllFiled-lookup :
    (k : String) (m : Dict Entry) (e : Entry) → AllFiled m → lookup k m ≡ some e → IsFiled k e
unfolding lookup
AllFiled-lookup k [] e h found = cc
AllFiled-lookup k ((i, f) ∷ m) e h found = elim (Bool-cases (str_eq i k)) [
  | inl same ↦
      let here : i ≡ k = ground (arith, eq_iff i k) in
      let there : f ≡ e = ground arith in
      subst (λ j. IsFiled j e) here (subst (IsFiled i) there h.0)
  | inr other ↦ AllFiled-lookup k m e h.1 (rw other at found)
]

merge_remote-IsFiled :
    (g : GameSummary) (m : Dict Entry) → AllFiled m → IsFiled g.id (merge_remote g (lookup g.id m))
merge_remote-IsFiled g m h = filed (lookup g.id m) refl
  where
    filed : (o : Option Entry) → lookup g.id m ≡ o → IsFiled g.id (merge_remote g o)
    filed none e = (refl, refl)
    filed (some f) e = (refl, (AllFiled-lookup g.id m f h e).0)

-- What the two loops keep and add.
abbrev IsMerge : List String → Dict Entry → Type 0
IsMerge known m =
    AllFiled m × AreUnique (keys m) × ((id : String) → elem id (keys m) ≡ elem id known)

IsMerge-insert :
    (k : String) (e : Entry) (known : List String) (m : Dict Entry)
    → IsFiled k e
    → IsMerge known m
    → IsMerge (k ∷ known) (insert k e m)
IsMerge-insert k e known m p (filed, unique, same) = (
  AllFiled-insert k e m filed p,
  AreUnique-insert k e m unique,
  λ id. elem-insert id k e m ∙ ap (λ b. str_eq k id || b) (same id),
)

-- The ids seen, the last one first.
abbrev seen_first : List GameSummary → List String → List String
seen_first [] known = known
seen_first (g ∷ games) known = seen_first games (g.id ∷ known)

IsMerge-add_local :
    (games : List GameSummary) (known : List String) (m : Dict Entry)
    → IsMerge known m
    → IsMerge (seen_first games known) (add_local games m)
unfolding add_local
IsMerge-add_local [] known m h = h
IsMerge-add_local (g ∷ games) known m h =
    IsMerge-add_local games (g.id ∷ known) _ (IsMerge-insert g.id _ known m (refl, refl) h)

IsMerge-add_remote :
    (games : List GameSummary) (known : List String) (m : Dict Entry)
    → IsMerge known m
    → IsMerge (seen_first games known) (add_remote games m)
unfolding add_remote
IsMerge-add_remote [] known m h = h
IsMerge-add_remote (g ∷ games) known m h =
    IsMerge-add_remote games (g.id ∷ known) _
      (IsMerge-insert g.id _ known m (merge_remote-IsFiled g m h.0) h)

elem-seen_first :
    (id : String) (games : List GameSummary) (known : List String)
    → elem id (seen_first games known) ≡ (elem id (ids games) || elem id known)
elem-seen_first id [] known = refl
elem-seen_first id (g ∷ games) known = ground (arith, elem-seen_first id games (g.id ∷ known))

module _ (net : Network) (revisions : Dict String) where
  process-id : (k : String) (e : Entry) → IsFiled k e → (process net revisions e).base.id ≡ k
  unfolding process base_of
  process-id k e h = by_origin e.item e.origin h
    where
      by_origin :
          (g : GameSummary) (o : Origin)
          → IsFiled k (record { item = g; origin = o })
          → (process net revisions (record { item = g; origin = o })).base.id ≡ k
      by_origin g from_local h = ground (arith, h)
      by_origin g from_remote h = ground (arith, h)
      by_origin g (from_both f) h = ground (arith, h)

  abbrev pub listed_ids : Dict Entry → List String
  listed_ids m = map (λ b. (process net revisions b.1).base.id) m

  listed_ids-keys : (m : Dict Entry) → AllFiled m → listed_ids m ≡ keys m
  listed_ids-keys [] h = refl
  listed_ids-keys ((k, e) ∷ m) h =
      ap (λ id. id ∷ listed_ids m) (process-id k e h.0) ∙ ap (λ ks. k ∷ ks) (listed_ids-keys m h.1)

  -- The list has the games of both buffers, each once.
  pub merge_games-ids :
      (local_games remote_games : List GameSummary)
      → AreUnique (listed_ids (merge_games local_games remote_games))
        × ((id : String)
            → elem id (listed_ids (merge_games local_games remote_games))
              ≡ (elem id (ids local_games) || elem id (ids remote_games)))
  unfolding merge_games
  merge_games-ids local_games remote_games =
      let known = seen_first local_games [] in
      let merge =
        IsMerge-add_remote remote_games known _
          (IsMerge-add_local local_games [] [] (tt, tt, λ id. refl)) in
      let same = listed_ids-keys (merge_games local_games remote_games) merge.0 in
      (
        subst AreUnique (sym same) merge.1,
        λ id. ap (elem id) same ∙ merge.2 id ∙ elem-seen_first id remote_games known ∙ known_in id,
      )
    where
      known_in :
          (id : String)
          → (elem id (ids remote_games) || elem id (seen_first local_games []))
            ≡ (elem id (ids local_games) || elem id (ids remote_games))
      known_in id = ground (arith, elem-seen_first id local_games [])
