-- ===== src/Examples/Backups.antt =====
-- A backup of two lines, cut within the first.
use skorekeeper.Common.{
  ◌+◌, ◌<◌, String, true, List, [], ◌∷◌, Option, none, some, length, filter, str_eq, if◌then◌else◌,
  ◌≡◌, arith,
}
use skorekeeper.Backup.{Payload, BackupRecord, Restored, read_lines, readings_of, restore_backup}
use skorekeeper.Backup.Lines.{full_lines, joined, size}
use skorekeeper.Backup.Reads.{read_lines-eq}
use skorekeeper.Backup.Counts.{counts_reading, IsValid, restore_backup_lem}

abbrev pieces : List String
pieces = "ga" ∷ "me\n\nte" ∷ "am" ∷ []

abbrev game_data : Payload
game_data = record { id = "g1"; name = ""; short_name = ""; has_action_log = true }

abbrev parse : String → Option BackupRecord
parse line =
    if str_eq line "game"
    then some (record { type = "game"; id = "g1"; summary = none; data_block = some game_data })
    else none

enough : size (record { buffer = ""; chunks = pieces }) < 20
enough = omega arith

read_lines-eq_example :
    read_lines 20 (record { buffer = ""; chunks = pieces }) ≡ some (full_lines (joined pieces))
read_lines-eq_example = read_lines-eq 20 pieces enough

restore_backup_lem_example :
    (r : Restored) × (restore_backup parse 20 pieces ("g1" ∷ []) [] [] ≡ some r)
    × (r.success + r.errors
        ≡ length
            (filter (counts_reading ("g1" ∷ [])) (readings_of parse (full_lines (joined pieces)))))
    × IsValid r
restore_backup_lem_example = restore_backup_lem parse 20 pieces ("g1" ∷ []) [] [] enough tt tt
