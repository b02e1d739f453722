-- ===== src/Historian.antt =====
-- `InMemoryMeasurementHistorian` of backend/src/geopilot/historian.py: measurements in the order of
-- their arrival, at most one of an id, and queries over half-open windows.
--
-- Values are compared by a parameter, the `==` of Python's numbers.
pub mod Order
pub mod Index
pub mod Queries
pub mod Sqlite
pub mod Tests
use geopilot_hvac.Prelude.{
  ℕ, Bool, true, false, not, ◌&&◌, ◌||◌, Option, none, some, List, [], ◌∷◌, ◌++◌, map, Text, ◌==◌,
  is_blank, eqb, Result, ok, err, map_err, if◌then◌else◌, length, Dict, lookup, insert,
}
use geopilot_hvac.Prelude.Results.{◌>>=◌, ◌>>◌, raise_if}
use geopilot_hvac.Prelude.Sort.{keep, sort, leb_text}
use geopilot_hvac.Datetime.{Datetime, is_aware, before}
use geopilot_hvac.Domain.{DataQuality, good, estimated, missing, stale, invalid, unknown}
use geopilot_hvac.Domain.Assets.{Equipment}
use geopilot_hvac.Domain.Observation.{Measurement}
use geopilot_hvac.Registry.{
  AssetRegistry, RegistryError, get_asset, list_equipment_for_system, list_sensors_for_equipment,
}

-- `HistorianQueryError`, by the check that raised it, `DuplicateMeasurementConflictError`, and what the
-- registry raises
pub data HistorianError : Type 0 where
  blank_identifier naive_datetime inverted_window : HistorianError
  duplicate_conflict : Text → HistorianError
  registry_error : RegistryError → HistorianError

-- the value of a quality, as far as it tells one from another
quality_code : DataQuality → ℕ
quality_code good = 0
quality_code estimated = 1
quality_code missing = 2
quality_code stale = 3
quality_code invalid = 4
quality_code unknown = 5

-- `a == b` of two aware datetimes
abbrev pub same_instant : Datetime → Datetime → Bool
same_instant a b = not (before a b) && not (before b a)

-- the order of `measurement_sort_key`: observed, then received, then id
unfoldable pub leb_key : {V : Type 0} → Measurement V → Measurement V → Bool
leb_key m n =
    if before m.observed_at n.observed_at
    then true
    else if before n.observed_at m.observed_at
    then false
    else if before m.received_at n.received_at
    then true
    else if before n.received_at m.received_at
    then false
    else leb_text m.id n.id

-- `require_identifier`
abbrev pub require_identifier : Text → Result HistorianError (Unit {0})
require_identifier value = raise_if (is_blank value) blank_identifier

-- `_require_aware_datetime` of a bound that is given
abbrev pub require_aware_bound : Option Datetime → Result HistorianError (Unit {0})
require_aware_bound none = ok tt
require_aware_bound (some value) = raise_if (not (is_aware value)) naive_datetime

-- `start is not None and end is not None and start > end`
abbrev pub is_inverted : Option Datetime → Option Datetime → Bool
is_inverted (some start) (some end) = before end start
is_inverted _ _ = false

-- `validate_window`
unfoldable pub validate_window :
    Option Datetime → Option Datetime → Result HistorianError (Unit {0})
validate_window start end = do
  require_aware_bound start
  require_aware_bound end
  raise_if (is_inverted start end) inverted_window

abbrev pub is_before_start : Option Datetime → Datetime → Bool
is_before_start none at = false
is_before_start (some start) at = before at start

abbrev pub is_past_end : Option Datetime → Datetime → Bool
is_past_end none at = false
is_past_end (some end) at = not (before at end)

-- `_in_window`
unfoldable pub in_window : Option Datetime → Option Datetime → Datetime → Bool
in_window start end at = if is_before_start start at then false else not (is_past_end end at)

-- `sensor_id in sensor_ids`
unfoldable pub is_member : Text → List Text → Bool
is_member k [] = false
is_member k (id ∷ ids) = id == k || is_member k ids

-- the loop of `sensor_ids_for_system` over the equipment
unfoldable pub sensor_ids_of : List Equipment → AssetRegistry → Result RegistryError (List Text)
sensor_ids_of [] registry = ok []
sensor_ids_of (e ∷ es) registry = do
  sensors ← list_sensors_for_equipment e.id registry
  rest ← sensor_ids_of es registry
  ok (map (λ s. s.id) sensors ++ rest)

-- `sensor_ids_for_system`; the set is a list whose repetitions do not matter
unfoldable pub sensor_ids_for_system : Text → AssetRegistry → Result RegistryError (List Text)
sensor_ids_for_system system_id registry = do
  _ ← get_asset system_id registry.hvac_systems
  equipment ← list_equipment_for_system system_id registry
  sensor_ids_of equipment registry

pub record Historian (V : Type 0) : Type 0 where
  pub measurements : List (Measurement V)
  pub by_id : Dict (Measurement V)

-- `InMemoryMeasurementHistorian()`
abbrev pub empty_historian : {V : Type 0} → Historian V
empty_historian = record { measurements = []; by_id = [] }

module _ {V : Type 0} (same_value : V → V → Bool) where
  -- `conflicts_with`: some field but `received_at` differs
  unfoldable pub conflicts_with : Measurement V → Measurement V → Bool
  unfolding quality_code
  conflicts_with m n = not (
      m.id == n.id
      && m.sensor_id == n.sensor_id
      && same_instant m.observed_at n.observed_at
      && same_value m.value n.value
      && m.unit == n.unit
      && eqb (quality_code m.quality) (quality_code n.quality)
      && m.source_id == n.source_id)

  -- `append`
  unfoldable pub append : Measurement V → Historian V → Result HistorianError (Historian V)
  append m h = elim (lookup m.id h.by_id) [
    | some existing ↦ if conflicts_with existing m then err (duplicate_conflict m.id) else ok h
    | none ↦ ok (record { measurements = h.measurements ++ m ∷ []; by_id = insert m.id m h.by_id })
  ]

module _ {V : Type 0} where
  -- `count`
  abbrev pub count : Historian V → ℕ
  count h = length h.measurements

  -- `max(matches, key=measurement_sort_key)` from a candidate on: the first of the greatest
  unfoldable pub greatest : Measurement V → List (Measurement V) → Measurement V
  greatest best [] = best
  greatest best (m ∷ ms) = greatest (if leb_key m best then best else m) ms

  -- `max(matches, key=measurement_sort_key, default=None)`
  unfoldable pub greatest_of : List (Measurement V) → Option (Measurement V)
  greatest_of [] = none
  greatest_of (m ∷ ms) = some (greatest m ms)

  -- `latest_for_sensor`
  unfoldable pub latest_for_sensor :
      Text → Historian V → Result HistorianError (Option (Measurement V))
  latest_for_sensor sensor_id h = do
    require_identifier sensor_id
    ok (greatest_of (keep (λ m. m.sensor_id == sensor_id) h.measurements))

  -- `query_sensor`
  unfoldable pub query_sensor :
      Text
      → Option Datetime
      → Option Datetime
      → Historian V
      → Result HistorianError (List (Measurement V))
  query_sensor sensor_id start end h = do
    require_identifier sensor_id
    validate_window start end
    ok (
        sort leb_key (
          keep (λ m. m.sensor_id == sensor_id && in_window start end m.observed_at) h.measurements))

  -- `query_system`
  unfoldable pub query_system :
      Text
      → AssetRegistry
      → Option Datetime
      → Option Datetime
      → Historian V
      → Result HistorianError (List (Measurement V))
  query_system system_id registry start end h = do
    require_identifier system_id
    validate_window start end
    sensor_ids ← map_err registry_error (sensor_ids_for_system system_id registry)
    ok (
        sort leb_key (
          keep (λ m. is_member m.sensor_id sensor_ids && in_window start end m.observed_at)
            h.measurements))
