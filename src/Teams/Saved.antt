-- ===== src/Teams/Saved.antt =====
-- What a save of the team editor leaves in the store.
use skorekeeper.Common.{
  ℕ, suc, String, Bool, true, false, ◌&&◌, not, List, [], ◌∷◌, map, filter, Option, none, some,
  Dict, lookup, insert, lookup-insert, All, str_eq, str_eq_refl, if◌then◌else◌, ◌≡◌, refl, ap, ◌∙◌,
  arith, inl, inr, Bool-cases,
}
use skorekeeper.Game.{Player}
use skorekeeper.Teams.{
  TeamData, TeamState, RosterRow, TeamForm, roster_of_rows, built_team, StoredTeam, store_team,
  mark_clean, save_to, save_team,
}

-- A player has a name and an id.
abbrev pub IsNamed : Player → Type 0
IsNamed p = (str_eq p.name "" ≡ false) × (str_eq p.id "" ≡ false)

module _ (new_id : ℕ → String) (IsId : (n : ℕ) → str_eq (new_id n) "" ≡ false) where
  IsNamed-roster_of_rows :
      (n : ℕ) (rows : List RosterRow) → All IsNamed (roster_of_rows new_id n rows)
  unfolding roster_of_rows
  IsNamed-roster_of_rows n [] = tt
  IsNamed-roster_of_rows n (row ∷ rows) =
      ground (arith, IsNamed-roster_of_rows n rows, IsNamed-roster_of_rows (suc n) rows, IsId n)

names-roster_of_rows :
    (new_id : ℕ → String) (n : ℕ) (rows : List RosterRow)
    → map (λ p. p.name) (roster_of_rows new_id n rows)
      ≡ map (λ row. row.name) (filter (λ row. not (str_eq row.name "")) rows)
unfolding roster_of_rows
names-roster_of_rows new_id n [] = refl
names-roster_of_rows new_id n (row ∷ rows) =
    ground (arith, names-roster_of_rows new_id n rows, names-roster_of_rows new_id (suc n) rows)

lookup-store_team :
    (id : String) (team : TeamData) (db : Dict StoredTeam)
    → lookup id (store_team team db)
      ≡ (if str_eq team.id id then some (record { team = team; is_dirty = true }) else lookup id db)
unfolding store_team
lookup-store_team id team db = lookup-insert team.id id _ db

mark_clean_lem :
    (id : String) (db : Dict StoredTeam) {t : StoredTeam}
    → lookup id db ≡ some t
    → mark_clean id db ≡ insert id (record t { is_dirty = false }) db
unfolding mark_clean
mark_clean_lem id db {t} h = rw (h, mark_clean) refl

lookup-mark_clean :
    (id : String) (team : TeamData) (db : Dict StoredTeam)
    → lookup id (mark_clean team.id (store_team team db)) ≡ (
        if str_eq team.id id then some (record { team = team; is_dirty = false }) else lookup id db)
lookup-mark_clean id team db =
    let own : lookup team.id (store_team team db) ≡ some (record { team = team; is_dirty = true }) =
      lookup-store_team team.id team db
      ∙ ap (λ b. if b then some (record { team = team; is_dirty = true }) else lookup team.id db)
          (str_eq_refl team.id) in
    ap (lookup id) (mark_clean_lem team.id (store_team team db) own)
    ∙ lookup-insert team.id id _ (store_team team db)
    ∙ ap (λ o. if str_eq team.id id then some (record { team = team; is_dirty = false }) else o)
        (lookup-store_team id team db)
    ∙ nested (str_eq team.id id) _ _ _
  where
    nested :
        (b : Bool) (x y z : Option StoredTeam)
        → (if b then x else if b then y else z) ≡ (if b then x else z)
    nested b x y z = ground arith

lookup-save_to :
    (id : String) (team : TeamData) (has_user accepted : Bool) (db : Dict StoredTeam)
    → lookup id (save_to team has_user accepted db) ≡ (
        if str_eq team.id id
        then some (record { team = team; is_dirty = not (has_user && accepted) })
        else lookup id db)
unfolding save_to
lookup-save_to id team has_user accepted db = elim (Bool-cases (has_user && accepted)) [
  | inl taken ↦ rw taken (lookup-mark_clean id team db)
  | inr kept ↦ rw kept (lookup-store_team id team db)
]

-- What the store holds after a save.
abbrev pub IsSaved : TeamData → Bool → Dict StoredTeam → Dict StoredTeam → Type 0
IsSaved team taken before after =
    (id : String)
    → lookup id after ≡ (
        if str_eq team.id id
        then some (record { team = team; is_dirty = not taken })
        else lookup id before)

-- If the form has a name and every new id is a text, the save stores the team of the form under its
-- id, clean exactly if a user is signed in and the server has taken it, and leaves the other teams;
-- the players are the named rows in their order, each with an id.
pub save_team_lem :
    (new_id : ℕ → String) (form : TeamForm) (s : TeamState) (user_email local_id : String) (now : ℕ)
    (has_user accepted : Bool) (db : Dict StoredTeam)
    → ((n : ℕ) → str_eq (new_id n) "" ≡ false)
    → str_eq form.name "" ≡ false
    → (after : Dict StoredTeam) × (save_team new_id form s user_email local_id now has_user accepted
          db
        ≡ some after)
      × IsSaved (built_team new_id form s user_email local_id now) (has_user && accepted) db after
      × All IsNamed (built_team new_id form s user_email local_id now).roster
      × (map (λ p. p.name) (built_team new_id form s user_email local_id now).roster
          ≡ map (λ row. row.name) (filter (λ row. not (str_eq row.name "")) form.rows))
unfolding save_team built_team
save_team_lem new_id form s user_email local_id now has_user accepted db ids named =
    let team = built_team new_id form s user_email local_id now in
    let first = if str_eq form.id "" then 1 else 0 in
    (
      save_to team has_user accepted db,
      ap (λ b. if b then none else some (save_to team has_user accepted db)) named,
      λ id. lookup-save_to id team has_user accepted db,
      IsNamed-roster_of_rows new_id ids first form.rows,
      names-roster_of_rows new_id first form.rows,
    )
