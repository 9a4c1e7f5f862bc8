-- ===== src/Backup.antt =====
-- `BackupManager` of frontend/services/backupManager.js: the reader of JSON lines and its two clients.
-- `JSON.parse` is a parameter, none where it raises.
pub mod Lines
pub mod Reads
pub mod Counts
use skorekeeper.Common.{
  ℕ, zero, suc, ◌+◌, String, Bool, true, false, ◌&&◌, ◌||◌, not, List, [], ◌∷◌, ◌++◌, Option, none,
  some, ◌>>=◌, Dict, insert, elem, or_text, str_eq, ◌==◌, if◌then◌else◌,
}
use skorekeeper.Common.Text.{◌+++◌, is_blank}
use Prim.Native.Char.{code}
use Prim.Native.String.{[], ◌∷◌}

-- What the clients read of the `data` of a record.
pub record Payload : Type 0 where
  pub id : String
  pub name : String
  pub short_name : String
  pub has_action_log : Bool

-- A line of the file.
pub record BackupRecord : Type 0 where
  pub type : String
  pub id : String
  pub summary : Option String
  pub data_block : Option Payload

pub data Reading : Type 0 where
  value : BackupRecord → Reading
  corrupted : Reading

-- The buffer, and the chunks of the stream that are still to come.
pub record Reader : Type 0 where
  pub buffer : String
  pub chunks : List String

-- The text before the first newline, and the text after it.
unfoldable pub split_line : String → Option (String × String)
split_line [] = none
split_line (c ∷ s) =
    let rest = split_line s in
    if code c == 10 then some ("", s) else rest >>= λ o. some (c ∷ o.0, o.1)

-- One round of `next`: it goes on, gives a line, or is done.
pub data Round : Type 0 where
  again : Reader → Round
  gives : String → Reader → Round
  finished : Round

abbrev pub take_line : Reader → String → String → Round
take_line r line rest =
    if is_blank line
    then again (record r { buffer = rest })
    else gives line (record r { buffer = rest })

abbrev pub take_chunk : String → List String → Round
take_chunk buffer [] =
    if is_blank buffer then finished else gives buffer (record { buffer = ""; chunks = [] })
take_chunk buffer (c ∷ chunks) = again (record { buffer = buffer +++ c; chunks = chunks })

unfoldable pub round : Reader → Round
unfolding split_line is_blank
round r = elim (split_line r.buffer) [
  | some o ↦ take_line r o.0 o.1
  | none ↦ take_chunk r.buffer r.chunks
]

-- What `next` gives, before it is parsed: a line, or none at the end.
unfoldable pub next : ℕ → Reader → Option (Option (String × Reader))
unfolding round
next zero r = none
next (suc fuel) r = elim (round r) [
  | again s ↦ next fuel s
  | gives line s ↦ some (some (line, s))
  | finished ↦ some none
]

-- The lines that the calls of `next` give until it is done.
unfoldable pub read_lines : ℕ → Reader → Option (List String)
unfolding next
read_lines zero r = none
read_lines (suc fuel) r = elim (next (suc fuel) r) [
  | none ↦ none
  | some none ↦ some []
  | some (some o) ↦ read_lines fuel o.1 >>= λ lines. some (o.0 ∷ lines)
]

pub data ScanItem : Type 0 where
  game_item : String → String → ScanItem
  team_item : String → String → String → ScanItem

abbrev summary_text : Option String → String
summary_text none = "?"
summary_text (some s) = s

abbrev scan_team : String → Option Payload → Option ScanItem
scan_team id none = none
scan_team id (some d) = some (team_item id (or_text d.name "Unknown Team") d.short_name)

-- The loop of `scanBackupFile`; `none` where a team without data raises.
unfoldable pub scan_readings : List Reading → Option (List ScanItem)
scan_readings [] = some []
scan_readings (corrupted ∷ readings) = scan_readings readings
scan_readings (value json ∷ readings) =
    let rest = scan_readings readings in
    if str_eq json.type "game"
    then (rest >>= λ items. some (game_item json.id (summary_text json.summary) ∷ items))
    else if str_eq json.type "team"
    then (scan_team json.id json.data_block >>= λ item. rest >>= λ items. some (item ∷ items))
    else rest

-- The counts of `restoreBackup`, with the stores that it writes.
pub record Restored : Type 0 where
  pub success : ℕ
  pub errors : ℕ
  pub games : Dict Payload
  pub teams : Dict Payload

abbrev failed_one : Restored → Restored
failed_one r = record r { errors = r.errors + 1 }

abbrev done_one : Restored → Restored
done_one r = record r { success = r.success + 1 }

-- The restore of one record that is selected; a type that is neither is counted as a success.
unfoldable pub restore_data : String → Option Payload → Restored → Restored
restore_data type none r = failed_one r
restore_data type (some d) r =
    if str_eq d.id ""
    then failed_one r
    else if str_eq type "game"
    then (if d.has_action_log
        then done_one (record r { games = insert d.id d r.games })
        else failed_one r)
    else if str_eq type "team"
    then (if str_eq d.name ""
        then failed_one r
        else done_one (record r { teams = insert d.id d r.teams }))
    else done_one r

abbrev pub is_wanted : List String → BackupRecord → Bool
is_wanted selected json = not (str_eq json.type "header") && elem json.id selected

unfoldable pub restore_one : List String → Reading → Restored → Restored
unfolding restore_data
restore_one selected corrupted r = failed_one r
restore_one selected (value json) r =
    if is_wanted selected json then restore_data json.type json.data_block r else r

-- The loop of `restoreBackup`; the database takes every write.
unfoldable pub restore_readings : List String → List Reading → Restored → Restored
unfolding restore_one
restore_readings selected [] r = r
restore_readings selected (o ∷ readings) r =
    restore_readings selected readings (restore_one selected o r)

module _ (parse : String → Option BackupRecord) where
  abbrev pub reading_of : String → Reading
  reading_of line = elim (parse line) [ none ↦ corrupted | some json ↦ value json ]

  abbrev pub readings_of : List String → List Reading
  readings_of [] = []
  readings_of (line ∷ lines) = reading_of line ∷ readings_of lines

  unfoldable pub scan_backup_file : ℕ → List String → Option (List ScanItem)
  unfolding read_lines scan_readings
  scan_backup_file fuel chunks =
      read_lines fuel (record { buffer = ""; chunks = chunks }) >>= λ lines.
      scan_readings (readings_of lines)

  unfoldable pub restore_backup :
      ℕ → List String → List String → Dict Payload → Dict Payload → Option Restored
  unfolding read_lines restore_readings
  restore_backup fuel chunks selected games teams =
      read_lines fuel (record { buffer = ""; chunks = chunks }) >>= λ lines. some (
        restore_readings selected (readings_of lines)
          (record { success = 0; errors = 0; games = games; teams = teams }))
