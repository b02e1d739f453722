-- ===== src/Control/Sqlite.antt =====
-- `SqliteCommandJournal` of backend/src/geopilot/sqlite_journal.py. The table is the list of its rows in
-- the order of `seq`, and each statement is what it does to the rows; a row keeps the record, whose
-- instant and offset go through storage unchanged.
pub mod AppendOnly
pub mod Reused
pub mod Tests
use geopilot_hvac.Prelude.{
  ℕ, Bool, true, false, not, ◌||◌, Option, none, some, List, [], ◌∷◌, ◌++◌, reverse, ℤ, pos,
  pos_part, ltb_ℤ, Text, text, ◌==◌, Result, ok, err, if◌then◌else◌, length, take,
}
use geopilot_hvac.Prelude.Exec.{Exec}
use geopilot_hvac.Prelude.Sort.{keep}
use geopilot_hvac.Datetime.{Datetime, is_aware}
use geopilot_hvac.Control.Record.{CommandRecord}
use geopilot_hvac.Control.Guard.{Journal}
use geopilot_hvac.Control.Memory.{Records, newest_applied}

-- `JournalStorageError`, by the check that raised it
pub data JournalStorageError : Type 0 where
  naive_datetime negative_limit : JournalStorageError

-- the `UNIQUE` constraint: some row has the id
unfoldable pub has_command : Text → Records → Bool
has_command id [] = false
has_command id (row ∷ rows) = row.command_id == id || has_command id rows

-- `INSERT OR IGNORE INTO commands`
unfoldable pub insert_or_ignore : CommandRecord → Records → Records
insert_or_ignore row rows = if has_command row.command_id rows then rows else rows ++ row ∷ []

-- `append`, with the error of `_to_storage`
unfoldable pub append : CommandRecord → Exec Records JournalStorageError (Unit {0})
append row rows =
    if is_aware row.decided_at
    then (ok tt, insert_or_ignore row rows)
    else (err naive_datetime, rows)

-- `recent`
unfoldable pub recent : Option ℤ → Records → Result JournalStorageError Records
recent none rows = ok rows
recent (some limit) rows =
    if ltb_ℤ limit (pos 0)
    then err negative_limit
    else ok (reverse (take (pos_part limit) (reverse rows)))

-- `for_target`
unfoldable pub for_target : Text → Records → Records
for_target target_id rows = keep (λ row. row.target_id == target_id) rows

-- `last_applied_at`: the newest row of the target that was applied
unfoldable pub last_applied_at : Text → Records → Option Datetime
last_applied_at target_id rows = newest_applied target_id (reverse rows)

-- `count`
abbrev pub count : Records → ℕ
count rows = length rows

-- the text of the error that the service sees
error_text : JournalStorageError → Text
error_text naive_datetime = text "a command must be stamped with an aware datetime"
error_text negative_limit = text "a limit cannot be negative"

-- the journal as the service uses it
unfoldable pub sqlite_journal : Journal Records
unfolding error_text
sqlite_journal = record {
  append = λ row rows.
      let (r, rows') = append row rows in
      (elim r [ ok done ↦ ok done | err e ↦ err (error_text e) ], rows');
  last_applied_at = some (λ target_id rows. (ok (last_applied_at target_id rows), rows));
}
