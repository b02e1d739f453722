-- ===== src/Historian/Sqlite.antt =====
-- `SqliteMeasurementHistorian` of backend/src/geopilot/sqlite_historian.py. The table is the list of its
-- rows in the order of `seq`, and each statement is what it does to the rows or selects from them.
--
-- What the NUMERIC column gives back for a value is a parameter.
pub mod Rows
pub mod Append
pub mod Select
pub mod Refines
pub mod Tests
use geopilot_hvac.Prelude.{
  ℕ, Bool, true, false, not, ◌&&◌, Option, none, some, List, [], ◌∷◌, ◌++◌, ℤ, ltb_ℤ, Text, text,
  ◌==◌, Result, ok, err, map_err, if◌then◌else◌, length,
}
use geopilot_hvac.Prelude.Results.{◌>>=◌, ◌>>◌}
use geopilot_hvac.Prelude.Sort.{keep, sort, leb_text}
use geopilot_hvac.Datetime.{Datetime, epoch_microseconds}
use geopilot_hvac.Domain.{
  DomainError, DataQuality, good, estimated, missing, stale, invalid, unknown,
}
use geopilot_hvac.Domain.Observation.{Measurement, measurement}
use geopilot_hvac.Registry.{AssetRegistry}
use geopilot_hvac.Historian.{
  HistorianError, duplicate_conflict, registry_error, require_identifier, validate_window,
  is_member, sensor_ids_for_system, conflicts_with,
}

-- What a call may raise: `HistorianStorageError` for a naive datetime, the errors that every historian
-- has, what the constructor of a measurement raises, and `ValueError` for a quality that is none.
pub data StorageError : Type 0 where
  naive_timestamp : StorageError
  historian_error : HistorianError → StorageError
  domain_error : DomainError → StorageError
  no_quality : Text → StorageError

-- a row of `measurements`
pub record Row (V : Type 0) : Type 0 where
  pub id : Text
  pub sensor_id : Text
  pub observed_at_us : ℤ
  pub observed_at_offset_s : ℤ
  pub received_at_us : ℤ
  pub received_at_offset_s : ℤ
  pub value : V
  pub unit : Text
  pub quality : Text
  pub source_id : Text

-- `quality.value`
unfoldable pub quality_value : DataQuality → Text
quality_value good = text "good"
quality_value estimated = text "estimated"
quality_value missing = text "missing"
quality_value stale = text "stale"
quality_value invalid = text "invalid"
quality_value unknown = text "unknown"

-- `DataQuality(value)`
unfoldable pub data_quality : Text → Result StorageError DataQuality
data_quality value =
    if value == text "good"
    then ok good
    else if value == text "estimated"
    then ok estimated
    else if value == text "missing"
    then ok missing
    else if value == text "stale"
    then ok stale
    else if value == text "invalid"
    then ok invalid
    else if value == text "unknown"
    then ok unknown
    else err (no_quality value)

-- `_to_storage`
unfoldable pub to_storage : Datetime → Result StorageError (ℤ × ℤ)
to_storage at = elim at.offset [
  | none ↦ err naive_timestamp
  | some offset ↦ ok (at.instant, offset)
]

-- `_from_storage`
abbrev pub from_storage : ℤ → ℤ → Datetime
from_storage microseconds offset_seconds = record {
  instant = microseconds;
  offset = some offset_seconds;
}

-- `_row_to_measurement`
unfoldable pub row_to_measurement : {V : Type 0} → Row V → Result StorageError (Measurement V)
row_to_measurement row = do
  quality ← data_quality row.quality
  map_err domain_error (
      measurement (record {
        id = row.id;
        sensor_id = row.sensor_id;
        observed_at = from_storage row.observed_at_us row.observed_at_offset_s;
        received_at = from_storage row.received_at_us row.received_at_offset_s;
        value = row.value;
        unit = row.unit;
        quality = quality;
        source_id = row.source_id;
      }))

-- the loop of `_select` over the rows
unfoldable pub measurements_of :
    {V : Type 0} → List (Row V) → Result StorageError (List (Measurement V))
measurements_of [] = ok []
measurements_of (row ∷ rows) = do
  m ← row_to_measurement row
  rest ← measurements_of rows
  ok (m ∷ rest)

-- `SELECT ... WHERE id = ?`, of which there is at most one row
unfoldable pub row_with_id : {V : Type 0} → Text → List (Row V) → Option (Row V)
row_with_id id [] = none
row_with_id id (row ∷ rows) = if row.id == id then some row else row_with_id id rows

-- `_fetch_by_id`
unfoldable pub fetch_by_id :
    {V : Type 0} → Text → List (Row V) → Result StorageError (Option (Measurement V))
fetch_by_id id rows = elim (row_with_id id rows) [
  | none ↦ ok none
  | some row ↦ do m ← row_to_measurement row; ok (some m)
]

-- `ORDER BY observed_at_us, received_at_us, id`
unfoldable pub leb_row : {V : Type 0} → Row V → Row V → Bool
leb_row a b =
    if ltb_ℤ a.observed_at_us b.observed_at_us
    then true
    else if ltb_ℤ b.observed_at_us a.observed_at_us
    then false
    else if ltb_ℤ a.received_at_us b.received_at_us
    then true
    else if ltb_ℤ b.received_at_us a.received_at_us
    then false
    else leb_text a.id b.id

-- a bound of `_append_window`
unfoldable pub window_bound : Option Datetime → Result StorageError (Option ℤ)
window_bound none = ok none
window_bound (some at) = do us ← epoch_microseconds naive_timestamp at; ok (some us)

-- `observed_at_us >= ?`, where the clause is there
abbrev pub from_start : Option ℤ → ℤ → Bool
from_start none us = true
from_start (some start) us = not (ltb_ℤ us start)

-- `observed_at_us < ?`, where the clause is there
abbrev pub until_end : Option ℤ → ℤ → Bool
until_end none us = true
until_end (some end) us = ltb_ℤ us end

-- `LIMIT 1` and `fetchone`
abbrev pub first_row : {V : Type 0} → List (Row V) → Option (Row V)
first_row [] = none
first_row (row ∷ rows) = some row

module _ {V : Type 0} where
  -- `_select_where`, with a window from `_append_window` after the first clause
  unfoldable pub select_where :
      (Row V → Bool)
      → Option Datetime
      → Option Datetime
      → List (Row V)
      → Result StorageError (List (Measurement V))
  select_where clause start end rows = do
    start_us ← window_bound start
    end_us ← window_bound end
    measurements_of (
        sort leb_row (
          keep
            (λ row.
              clause row
              && (from_start start_us row.observed_at_us && until_end end_us row.observed_at_us))
            rows))

  -- `all`
  unfoldable pub all_rows : List (Row V) → Result StorageError (List (Measurement V))
  all_rows rows = measurements_of rows

  -- `count`
  abbrev pub count_rows : List (Row V) → ℕ
  count_rows rows = length rows

  -- `latest_for_sensor`
  unfoldable pub latest_row : Text → List (Row V) → Result StorageError (Option (Measurement V))
  latest_row sensor_id rows = do
    map_err historian_error (require_identifier sensor_id)
    elim (first_row (sort (λ a b. leb_row b a) (keep (λ row. row.sensor_id == sensor_id) rows))) [
      | none ↦ ok none
      | some row ↦ do m ← row_to_measurement row; ok (some m)
    ]

  -- `query_sensor`
  unfoldable pub select_sensor :
      Text
      → Option Datetime
      → Option Datetime
      → List (Row V)
      → Result StorageError (List (Measurement V))
  select_sensor sensor_id start end rows = do
    map_err historian_error (require_identifier sensor_id)
    map_err historian_error (validate_window start end)
    select_where (λ row. row.sensor_id == sensor_id) start end rows

  -- the rest of `query_system`, once the sensors are known
  unfoldable pub select_sensors :
      List Text
      → Option Datetime
      → Option Datetime
      → List (Row V)
      → Result StorageError (List (Measurement V))
  select_sensors [] start end rows = ok []
  select_sensors (id ∷ ids) start end rows =
      select_where (λ row. is_member row.sensor_id (id ∷ ids)) start end rows

  -- `query_system`
  unfoldable pub select_system :
      Text
      → AssetRegistry
      → Option Datetime
      → Option Datetime
      → List (Row V)
      → Result StorageError (List (Measurement V))
  select_system system_id registry start end rows = do
    map_err historian_error (require_identifier system_id)
    map_err historian_error (validate_window start end)
    sensor_ids ←
        map_err historian_error (map_err registry_error (sensor_ids_for_system system_id registry))
    select_sensors sensor_ids start end rows

module _ {V : Type 0} (numeric : V → V) where
  -- `INSERT INTO measurements`, of the values that `append` computes
  unfoldable pub insert_row : Measurement V → List (Row V) → Result StorageError (List (Row V))
  insert_row m rows = do
    (observed_us, observed_offset) ← to_storage m.observed_at
    (received_us, received_offset) ← to_storage m.received_at
    ok (
        rows
        ++ record {
          id = m.id;
          sensor_id = m.sensor_id;
          observed_at_us = observed_us;
          observed_at_offset_s = observed_offset;
          received_at_us = received_us;
          received_at_offset_s = received_offset;
          value = numeric m.value;
          unit = m.unit;
          quality = quality_value m.quality;
          source_id = m.source_id;
        }
          ∷ [])

module _ {V : Type 0} (same_value : V → V → Bool) (numeric : V → V) where
  -- `append`, on what `_fetch_by_id` found
  unfoldable pub append_unless :
      Option (Measurement V) → Measurement V → List (Row V) → Result StorageError (List (Row V))
  append_unless (some existing) m rows =
      if conflicts_with same_value existing m
      then err (historian_error (duplicate_conflict m.id))
      else ok rows
  append_unless none m rows = insert_row numeric m rows

  -- `append`
  unfoldable pub append_row : Measurement V → List (Row V) → Result StorageError (List (Row V))
  append_row m rows = do existing ← fetch_by_id m.id rows; append_unless existing m rows
