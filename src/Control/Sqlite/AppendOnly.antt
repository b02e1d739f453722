-- ===== src/Control/Sqlite/AppendOnly.antt =====
-- The journal only grows, and has a command id once.
use geopilot_hvac.Prelude.{
  ◌≡◌, refl, sym, ap, ◌∙◌, arith, false, ◌||◌, Bool-cases, inl, inr, List, [], ◌∷◌, ◌++◌, Text,
  ◌==◌, eq_iff,
}
use mathlib.Core.List.{append-nil, append_assoc}
use geopilot_hvac.Datetime.{is_aware}
use geopilot_hvac.Control.Record.{CommandRecord}
use geopilot_hvac.Control.Memory.{Records}
use geopilot_hvac.Control.Sqlite.{has_command, insert_or_ignore, append}

-- No command id occurs twice.
abbrev pub AreUnique : Records → Type 0
AreUnique [] = Unit
AreUnique (row ∷ rows) = (has_command row.command_id rows ≡ false) × AreUnique rows

has_command-append :
    (id : Text) (rows : Records) (row : CommandRecord)
    → has_command id (rows ++ row ∷ []) ≡ (has_command id rows || row.command_id == id)
unfolding has_command
has_command-append id [] row = ground arith
has_command-append id (r ∷ rows) row = ground (arith, has_command-append id rows row)

AreUnique-append :
    (rows : Records) (row : CommandRecord)
    → has_command row.command_id rows ≡ false
    → AreUnique rows
    → AreUnique (rows ++ row ∷ [])
unfolding has_command
AreUnique-append [] row fresh h = (refl, tt)
AreUnique-append (r ∷ rows) row fresh (apart, h) = (
  (has_command-append r.command_id rows row
      ∙ ground (
        arith,
        apart,
        fresh,
        eq_iff r.command_id row.command_id,
        eq_iff row.command_id r.command_id,
      )),
  AreUnique-append rows row (ground (arith, fresh)) h,
)

-- calls of `append` one after another, those that raise included
abbrev pub append_all : List CommandRecord → Records → Records
append_all [] rows = rows
append_all (r ∷ rs) rows = append_all rs (append r rows).1

-- The new rows follow the old ones, and no id occurs twice.
abbrev pub IsGrown : Records → Records → Type 0
IsGrown rows rows' = ((tail : Records) × (rows' ≡ rows ++ tail)) × AreUnique rows'

insert_or_ignore-IsGrown :
    (row : CommandRecord) (rows : Records)
    → AreUnique rows
    → IsGrown rows (insert_or_ignore row rows)
unfolding insert_or_ignore
insert_or_ignore-IsGrown row rows h = elim (Bool-cases (has_command row.command_id rows)) [
  | inl known ↦ rw (known, insert_or_ignore) (([], sym (append-nil rows)), h)
  | inr fresh ↦ rw (fresh, insert_or_ignore) ((row ∷ [], refl), AreUnique-append rows row fresh h)
]

append-IsGrown :
    (row : CommandRecord) (rows : Records) → AreUnique rows → IsGrown rows (append row rows).1
unfolding append
append-IsGrown row rows h = elim (Bool-cases (is_aware row.decided_at)) [
  | inl aware ↦ rw (aware, append) (insert_or_ignore-IsGrown row rows h)
  | inr naive ↦ rw (naive, append) (([], sym (append-nil rows)), h)
]

-- On a SQLite journal whose command ids are unique, any calls of append, those that raise
-- included, leave the rows in place and in order, with new rows behind them, and the command ids
-- unique.
pub append_all-IsGrown :
    (records : List CommandRecord) (rows : Records)
    → AreUnique rows
    → IsGrown rows (append_all records rows)
append_all-IsGrown [] rows h = (([], sym (append-nil rows)), h)
append_all-IsGrown (r ∷ rs) rows h =
    let ((first, e), h') = append-IsGrown r rows h in
    let ((rest, e'), h'') = append_all-IsGrown rs (append r rows).1 h' in
    ((first ++ rest, e' ∙ ap (λ (x : Records). x ++ rest) e ∙ append_assoc rows first rest), h'')
