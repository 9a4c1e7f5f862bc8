-- ===== src/Bases/Sorted.antt =====
-- The sort of `getRunnersOnBase` of frontend/game/runnerManager.js.
use mathlib.Core.List.{Memᴰ}
use mathlib.Core.List.Memᴰ.{head, tail, cases_cons}
use skorekeeper.Common.{
  ◌≤◌, List, [], ◌∷◌, ◌++◌, ltb, All, All-append, ◌≡◌, sym, ◌≢◌, ◌↔◌, ◌⊎◌, inl, inr, arith,
  Bool-cases,
}
use skorekeeper.Bases.{BaseRunner, insert_runner, sort_runners}

abbrev IsLead : BaseRunner → List BaseRunner → Type 0
IsLead r [] = Unit
IsLead r (q ∷ _) = q.base ≤ r.base

-- Each runner is at least as far as the next one.
abbrev pub IsDescending : List BaseRunner → Type 0
IsDescending [] = Unit
IsDescending (r ∷ rs) = IsLead r rs × IsDescending rs

Memᴰ-insert_runner :
    (q r : BaseRunner) (rs : List BaseRunner) → Memᴰ q (insert_runner r rs) ↔ ((q ≡ r) ⊎ Memᴰ q rs)
unfolding insert_runner
Memᴰ-insert_runner q r [] = (λ m. cases_cons m, λ h. elim h [ inl e ↦ head e | inr m ↦ tail m ])
Memᴰ-insert_runner q r (x ∷ rs) = elim (Bool-cases (ltb r.base x.base)) [
  | inl after ↦
      let (to, from) = Memᴰ-insert_runner q r rs in
      rw (after, insert_runner)
        (
          λ m. elim (cases_cons m) [
            | inl e ↦ inr (head e)
            | inr m' ↦ elim (to m') [ inl e ↦ inl e | inr m'' ↦ inr (tail m'') ]
          ],
          λ h. elim h [
            | inl e ↦ tail (from (inl e))
            | inr m ↦ elim (cases_cons m) [ inl e ↦ head e | inr m' ↦ tail (from (inr m')) ]
          ],
        )
  | inr before ↦
      rw (before, insert_runner)
        (λ m. cases_cons m, λ h. elim h [ inl e ↦ head e | inr m ↦ tail m ])
]

pub Memᴰ-sort_runners :
    (q : BaseRunner) (rs : List BaseRunner) → Memᴰ q (sort_runners rs) ↔ Memᴰ q rs
unfolding sort_runners
Memᴰ-sort_runners q [] = (λ m. m, λ m. m)
Memᴰ-sort_runners q (r ∷ rs) =
    let (to, from) = Memᴰ-sort_runners q rs in
    let (to_insert, from_insert) = Memᴰ-insert_runner q r (sort_runners rs) in
    (
      λ m. elim (to_insert m) [ inl e ↦ head e | inr m' ↦ tail (to m') ],
      λ m. elim (cases_cons m) [
        | inl e ↦ from_insert (inl e)
        | inr m' ↦ from_insert (inr (from m'))
      ],
    )

IsLead-insert_runner :
    (r q : BaseRunner) (rs : List BaseRunner)
    → IsLead q rs
    → r.base ≤ q.base
    → IsLead q (insert_runner r rs)
unfolding insert_runner
IsLead-insert_runner r q [] h le = le
IsLead-insert_runner r q (x ∷ rs) h le = elim (Bool-cases (ltb r.base x.base)) [
  | inl after ↦ rw (after, insert_runner) h
  | inr before ↦ rw (before, insert_runner) le
]

IsDescending-insert_runner :
    (r : BaseRunner) (rs : List BaseRunner) → IsDescending rs → IsDescending (insert_runner r rs)
unfolding insert_runner
IsDescending-insert_runner r [] h = (tt, tt)
IsDescending-insert_runner r (q ∷ rs) (lead, h) = elim (Bool-cases (ltb r.base q.base)) [
  | inl after ↦
      rw (after, insert_runner)
        (IsLead-insert_runner r q rs lead (ground arith), IsDescending-insert_runner r rs h)
  | inr before ↦ rw (before, insert_runner) (ground arith, (lead, h))
]

pub IsDescending-sort_runners : (rs : List BaseRunner) → IsDescending (sort_runners rs)
unfolding sort_runners
IsDescending-sort_runners [] = tt
IsDescending-sort_runners (r ∷ rs) =
    IsDescending-insert_runner r (sort_runners rs) (IsDescending-sort_runners rs)

-- No batter comes twice.
abbrev pub IsDistinct : List BaseRunner → Type 0
IsDistinct [] = Unit
IsDistinct (r ∷ rs) = All (λ (q : BaseRunner). q.idx ≢ r.idx) rs × IsDistinct rs

pub IsDistinct-append :
    (xs ys : List BaseRunner)
    → All (λ (x : BaseRunner). All (λ (q : BaseRunner). q.idx ≢ x.idx) ys) xs
    → IsDistinct xs
    → IsDistinct ys
    → IsDistinct (xs ++ ys)
IsDistinct-append [] ys h d e = e
IsDistinct-append (x ∷ xs) ys (h, hs) (d, ds) e =
    (All-append (λ (q : BaseRunner). q.idx ≢ x.idx) xs ys d h, IsDistinct-append xs ys hs ds e)

insert_runner-All :
    (P : BaseRunner → Type 0) (r : BaseRunner) (rs : List BaseRunner)
    → P r
    → All P rs
    → All P (insert_runner r rs)
unfolding insert_runner
insert_runner-All P r [] p h = (p, tt)
insert_runner-All P r (q ∷ rs) p (pq, h) = elim (Bool-cases (ltb r.base q.base)) [
  | inl after ↦ rw (after, insert_runner) (pq, insert_runner-All P r rs p h)
  | inr before ↦ rw (before, insert_runner) (p, (pq, h))
]

sort_runners-All :
    (P : BaseRunner → Type 0) (rs : List BaseRunner) → All P rs → All P (sort_runners rs)
unfolding sort_runners
sort_runners-All P [] h = tt
sort_runners-All P (r ∷ rs) (p, h) =
    insert_runner-All P r (sort_runners rs) p (sort_runners-All P rs h)

IsDistinct-insert_runner :
    (r : BaseRunner) (rs : List BaseRunner)
    → All (λ (q : BaseRunner). q.idx ≢ r.idx) rs
    → IsDistinct rs
    → IsDistinct (insert_runner r rs)
unfolding insert_runner
IsDistinct-insert_runner r [] h d = (tt, tt)
IsDistinct-insert_runner r (x ∷ rs) (h, hs) (d, ds) = elim (Bool-cases (ltb r.base x.base)) [
  | inl after ↦
      rw (after, insert_runner)
        (
          insert_runner-All (λ (q : BaseRunner). q.idx ≢ x.idx) r rs (λ e. h (sym e)) d,
          IsDistinct-insert_runner r rs hs ds,
        )
  | inr before ↦ rw (before, insert_runner) ((h, hs), (d, ds))
]

pub IsDistinct-sort_runners : (rs : List BaseRunner) → IsDistinct rs → IsDistinct (sort_runners rs)
unfolding sort_runners
IsDistinct-sort_runners [] h = tt
IsDistinct-sort_runners (r ∷ rs) (d, ds) =
    IsDistinct-insert_runner r (sort_runners rs)
      (sort_runners-All (λ (q : BaseRunner). q.idx ≢ r.idx) rs d) (IsDistinct-sort_runners rs ds)
