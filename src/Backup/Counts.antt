-- ===== src/Backup/Counts.antt =====
-- What a restore counts and writes.
use skorekeeper.Common.{
  ℕ, suc, ◌+◌, ◌<◌, ◌>>=◌, String, Bool, true, false, List, [], ◌∷◌, Option, none, some, Dict,
  AllValues, AllValues-insert, length, filter, str_eq, if◌then◌else◌, ◌≡◌, refl, ap, arith,
}
use skorekeeper.Backup.{
  Payload, BackupRecord, Reading, value, corrupted, Restored, restore_data, is_wanted, restore_one,
  restore_readings, readings_of, restore_backup,
}
use skorekeeper.Backup.Lines.{full_lines, joined, size}
use skorekeeper.Backup.Reads.{read_lines-eq}

-- The readings that count: corrupted lines and records that are selected.
abbrev pub counts_reading : List String → Reading → Bool
counts_reading selected corrupted = true
counts_reading selected (value json) = is_wanted selected json

-- A game has its id and its log, a team its id and its name.
abbrev pub IsGame : Payload → Type 0
IsGame d = (str_eq d.id "" ≡ false) × (d.has_action_log ≡ true)

abbrev pub IsTeam : Payload → Type 0
IsTeam d = (str_eq d.id "" ≡ false) × (str_eq d.name "" ≡ false)

abbrev pub IsValid : Restored → Type 0
IsValid r = AllValues IsGame r.games × AllValues IsTeam r.teams

abbrev pub total : Restored → ℕ
total r = r.success + r.errors

-- One more is counted, and the stores are as they should be.
abbrev IsStep : Restored → Restored → Type 0
IsStep r s = (total s ≡ suc (total r)) × IsValid s

if_case {ℓ κ} :
    {A : Type ℓ} (P : A → Type κ) (b : Bool) (x y : A)
    → (b ≡ true → P x)
    → (b ≡ false → P y)
    → P (if b then x else y)
if_case P true x y yes_case no_case = yes_case refl
if_case P false x y yes_case no_case = no_case refl

restore_data-IsStep :
    (type : String) (d : Option Payload) (r : Restored)
    → IsValid r
    → IsStep r (restore_data type d r)
unfolding restore_data
restore_data-IsStep type none r valid = (omega arith, valid)
restore_data-IsStep type (some d) r valid =
    if_case (IsStep r) (str_eq d.id "") _ _ (λ _. (omega arith, valid))
      (λ id.
        if_case (IsStep r) (str_eq type "game") _ _
          (λ _.
            if_case (IsStep r) d.has_action_log _ _
              (λ logged. (
                omega arith,
                (AllValues-insert IsGame d.id d r.games valid.0 (id, logged), valid.1),
              ))
              (λ _. (omega arith, valid)))
          (λ _.
            if_case (IsStep r) (str_eq type "team") _ _
              (λ _.
                if_case (IsStep r) (str_eq d.name "") _ _ (λ _. (omega arith, valid))
                  (λ named. (
                    omega arith,
                    (valid.0, AllValues-insert IsTeam d.id d r.teams valid.1 (id, named)),
                  )))
              (λ _. (omega arith, valid))))

restore_one_lem :
    (selected : List String) (o : Reading) (r : Restored)
    → IsValid r
    → (total (restore_one selected o r) ≡ total r + (if counts_reading selected o then 1 else 0))
      × IsValid (restore_one selected o r)
unfolding restore_one
restore_one_lem selected corrupted r valid = (omega arith, valid)
restore_one_lem selected (value json) r valid =
    let step = restore_data-IsStep json.type json.data_block r valid in
    if_cases (is_wanted selected json) _ (omega (arith, step.0), step.1) (omega arith, valid)
  where
    if_cases :
        (b : Bool) (s : Restored)
        → (total s ≡ total r + 1) × IsValid s
        → (total r ≡ total r + 0) × IsValid r
        → (total (if b then s else r) ≡ total r + (if b then 1 else 0))
          × IsValid (if b then s else r)
    if_cases true s h k = h
    if_cases false s h k = k

length-filter :
    (p : Reading → Bool) (o : Reading) (readings : List Reading)
    → length (filter p (o ∷ readings)) ≡ (if p o then 1 else 0) + length (filter p readings)
length-filter p o readings = ground arith

-- A restore counts each corrupted line and each record that is selected once, as a success or as an
-- error; if the stores held only games with an id and a log, and teams with an id and a name, they
-- still do.
pub restore_readings_lem :
    (selected : List String) (readings : List Reading) (r : Restored)
    → IsValid r
    → (total (restore_readings selected readings r)
        ≡ total r + length (filter (counts_reading selected) readings))
      × IsValid (restore_readings selected readings r)
unfolding restore_readings
restore_readings_lem selected [] r valid = (omega arith, valid)
restore_readings_lem selected (o ∷ readings) r valid =
    let one = restore_one_lem selected o r valid in
    let rest = restore_readings_lem selected readings (restore_one selected o r) one.1 in
    (omega (arith, rest.0, one.0, length-filter (counts_reading selected) o readings), rest.1)

-- With more fuel than there are characters and chunks, a restore into stores that are as they should
-- be ends; it has counted each line that is corrupted or selected once, and the stores still are.
pub restore_backup_lem :
    (parse : String → Option BackupRecord) (fuel : ℕ) (chunks selected : List String)
    (games teams : Dict Payload)
    → size (record { buffer = ""; chunks = chunks }) < fuel
    → AllValues IsGame games
    → AllValues IsTeam teams
    → (r : Restored) × (restore_backup parse fuel chunks selected games teams ≡ some r)
      × (r.success + r.errors
          ≡ length
              (filter (counts_reading selected) (readings_of parse (full_lines (joined chunks)))))
      × IsValid r
unfolding restore_backup
restore_backup_lem parse fuel chunks selected games teams less valid_games valid_teams =
    let start : Restored = record { success = 0; errors = 0; games = games; teams = teams } in
    let readings = readings_of parse (full_lines (joined chunks)) in
    let counted = restore_readings_lem selected readings start (valid_games, valid_teams) in
    (
      restore_readings selected readings start,
      ap (λ o. o >>= λ lines. some (restore_readings selected (readings_of parse lines) start))
          (read_lines-eq fuel chunks less),
      omega (arith, counted.0),
      counted.1,
    )
