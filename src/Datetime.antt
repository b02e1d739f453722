-- ===== src/Datetime.antt =====
-- Python's `datetime` as the program uses it, and backend/src/geopilot/domain.py's
-- `epoch_microseconds`.
--
-- A datetime is its instant in whole microseconds since the Unix epoch, with the offset from UTC in
-- seconds; no offset is a naive datetime, one that the program refuses. Equality, order and
-- differences of aware datetimes go by the instant, whatever the offsets.
use geopilot_hvac.Prelude.{
  ℕ, Bool, true, false, Option, none, some, ℤ, pos, ltb_ℤ, ◌-ℤ◌, Result, ok, err,
}

pub record Datetime : Type 0 where
  pub instant : ℤ
  pub offset : Option ℤ

-- `not (value.tzinfo is None or value.utcoffset() is None)`
abbrev pub is_aware : Datetime → Bool
is_aware d = elim d.offset [ none ↦ false | some _ ↦ true ]

-- `a < b`
abbrev pub before : Datetime → Datetime → Bool
before a b = ltb_ℤ a.instant b.instant

-- `a - b` in microseconds
unfoldable pub elapsed : Datetime → Datetime → ℤ
elapsed a b = a.instant -ℤ b.instant

-- `epoch_microseconds` of an aware datetime: `(value - _EPOCH) // _MICROSECOND`
unfoldable pub epoch_microseconds : {E : Type 0} → E → Datetime → Result E ℤ
epoch_microseconds naive d = elim d.offset [ none ↦ err naive | some _ ↦ ok d.instant ]

-- A UTC datetime at `n` microseconds after the epoch.
abbrev pub utc : ℕ → Datetime
utc n = record { instant = pos n; offset = some (pos 0) }
