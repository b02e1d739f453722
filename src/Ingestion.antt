-- ===== src/Ingestion.antt =====
-- backend/src/geopilot/ingestion.py: raw values become measurements in canonical units, with an
-- identity of their own, and go to a sink.
pub mod Identity
pub mod Units
pub mod Service
pub mod Tests
use geopilot_hvac.Prelude.{
  ℕ, Bool, not, ◌||◌, Option, none, some, List, [], ◌∷◌, ◌++◌, reverse, ℤ, pos, Text, text, ◌==◌,
  is_blank, Result, ok, err, map_err, if◌then◌else◌,
}
use geopilot_hvac.Prelude.Exec.{Exec}
use geopilot_hvac.Prelude.Results.{◌>>=◌, ◌>>◌, raise_if}
use geopilot_hvac.Prelude.Numbers.{Numbers}
use geopilot_hvac.Prelude.Decimal.{show_int}
use geopilot_hvac.Datetime.{Datetime, is_aware, epoch_microseconds}
use geopilot_hvac.Domain.{
  DomainError, naive_datetime, DataQuality, SensorMeasurementKind, temperature, relative_humidity,
  power, state,
}
use geopilot_hvac.Domain.Assets.{Sensor}
use geopilot_hvac.Domain.Observation.{Measurement, measurement}
use geopilot_hvac.Registry.{AssetRegistry, RegistryError, get_asset}

-- `IngestionError`, by the check that raised it, and `IncompatibleMeasurementUnitError`
pub data IngestionError : Type 0 where
  blank_identifier naive_timestamp not_finite unsupported_unit not_a_state : IngestionError
  incompatible_unit no_capability : IngestionError

-- What `ingest` may raise; `E` is what its sink raises.
pub data IngestionFault (E : Type 0) : Type 0 where
  ingestion_error : IngestionError → IngestionFault E
  domain_error : DomainError → IngestionFault E
  registry_error : RegistryError → IngestionFault E
  sink_error : E → IngestionFault E

-- `STATE_UNIT`
abbrev pub state_unit : Text
state_unit = text "state"

pub data MetadataValue (V : Type 0) : Type 0 where
  text_value : Text → MetadataValue V
  number_value : V → MetadataValue V
  bool_value : Bool → MetadataValue V
  no_value : MetadataValue V

pub record RawMeasurement (V : Type 0) : Type 0 where
  pub source_id : Text
  pub sensor_id : Text
  pub value : V
  pub unit : Text
  pub timestamp : Datetime
  pub quality : DataQuality
  pub metadata : List (Text × MetadataValue V)

pub record NormalizedUnit (V : Type 0) : Type 0 where
  pub value : V
  pub unit : Text

-- `_measurement_id`
unfoldable pub measurement_id : {V : Type 0} → RawMeasurement V → Result DomainError Text
measurement_id raw = do
  at ← epoch_microseconds naive_datetime raw.timestamp
  ok (raw.source_id ++ text ":" ++ raw.sensor_id ++ text ":" ++ show_int at)

-- `InMemoryMeasurementSink.append`, on the list of the sink; it raises nothing
abbrev pub memory_sink : {V E : Type 0} → Measurement V → Exec (List (Measurement V)) E (Unit {0})
memory_sink m measurements = (ok tt, measurements ++ m ∷ [])

-- the loop of `InMemoryMeasurementSink.latest_for_sensor`, over the measurements with the newest first
unfoldable pub newest_for_sensor :
    {V : Type 0} → Text → List (Measurement V) → Option (Measurement V)
newest_for_sensor sensor_id [] = none
newest_for_sensor sensor_id (m ∷ ms) =
    if m.sensor_id == sensor_id then some m else newest_for_sensor sensor_id ms

-- `InMemoryMeasurementSink.latest_for_sensor`
unfoldable pub latest_for_sensor :
    {V : Type 0} → Text → List (Measurement V) → Result IngestionError (Option (Measurement V))
latest_for_sensor sensor_id measurements = do
  raise_if (is_blank sensor_id) blank_identifier
  ok (newest_for_sensor sensor_id (reverse measurements))

-- `self._registry.get_sensor(raw.sensor_id)`, where there is a registry
unfoldable pub find_sensor :
    {E : Type 0} → Option AssetRegistry → Text → Result (IngestionFault E) (Option Sensor)
find_sensor none sensor_id = ok none
find_sensor (some registry) sensor_id = do
  sensor ← map_err registry_error (get_asset sensor_id registry.sensors)
  ok (some sensor)

module _ {V : Type 0} (numbers : Numbers V) where
  -- `RawMeasurement(...)`, on the arguments of the call
  unfoldable pub raw_measurement : RawMeasurement V → Result IngestionError (RawMeasurement V)
  raw_measurement raw = do
    raise_if (is_blank raw.source_id) blank_identifier
    raise_if (is_blank raw.sensor_id) blank_identifier
    raise_if (is_blank raw.unit) blank_identifier
    raise_if (not (is_aware raw.timestamp)) naive_timestamp
    raise_if (not (numbers.is_finite raw.value)) not_finite
    ok raw

  -- `(value - 32) * 5 / 9`
  abbrev pub celsius : V → V
  celsius value =
      numbers.divided
        (numbers.times (numbers.minus value (numbers.of_int (pos 32))) (numbers.of_int (pos 5)))
        (numbers.of_int (pos 9))

  -- `_normalize_state`; `int(value)` of an accepted value is 0 or 1
  unfoldable pub normalize_state : V → Text → Result IngestionError (NormalizedUnit V)
  normalize_state value unit =
      if not (unit == state_unit)
      then err incompatible_unit
      else if numbers.same value (numbers.of_int (pos 0))
      then ok (record { value = numbers.of_int (pos 0); unit = state_unit })
      else if numbers.same value (numbers.of_int (pos 1))
      then ok (record { value = numbers.of_int (pos 1); unit = state_unit })
      else err not_a_state

  -- `_normalize_temperature`
  unfoldable pub normalize_temperature : V → Text → Result IngestionError (NormalizedUnit V)
  normalize_temperature value unit =
      if unit == text "degC" || unit == text "°C"
      then ok (record { value = value; unit = text "degC" })
      else if unit == text "degF" || unit == text "°F"
      then ok (record { value = celsius value; unit = text "degC" })
      else err incompatible_unit

  -- `_normalize_relative_humidity`
  unfoldable pub normalize_relative_humidity : V → Text → Result IngestionError (NormalizedUnit V)
  normalize_relative_humidity value unit =
      if unit == text "%"
      then ok (record { value = value; unit = text "%" })
      else err incompatible_unit

  -- `_normalize_power`
  unfoldable pub normalize_power : V → Text → Result IngestionError (NormalizedUnit V)
  normalize_power value unit =
      if unit == text "W"
      then ok (record { value = value; unit = text "W" })
      else if unit == text "kW"
      then ok (record { value = numbers.times value (numbers.of_int (pos 1000)); unit = text "W" })
      else err incompatible_unit

  -- `_normalize_without_sensor`
  unfoldable pub normalize_without_sensor : V → Text → Result IngestionError (NormalizedUnit V)
  normalize_without_sensor value unit =
      if unit == text "degC" || unit == text "°C" || unit == text "degF" || unit == text "°F"
      then normalize_temperature value unit
      else if unit == text "%"
      then normalize_relative_humidity value unit
      else if unit == text "W" || unit == text "kW"
      then normalize_power value unit
      else if unit == state_unit
      then normalize_state value unit
      else err unsupported_unit

  -- the tests of `_normalize_unit` on the capability of the sensor
  unfoldable pub normalize_for :
      Option SensorMeasurementKind → V → Text → Result IngestionError (NormalizedUnit V)
  normalize_for (some temperature) value unit = normalize_temperature value unit
  normalize_for (some relative_humidity) value unit = normalize_relative_humidity value unit
  normalize_for (some power) value unit = normalize_power value unit
  normalize_for (some state) value unit = normalize_state value unit
  normalize_for none value unit = err no_capability

  -- `_normalize_unit`
  unfoldable pub normalize_unit :
      Option Sensor → V → Text → Result IngestionError (NormalizedUnit V)
  normalize_unit none value unit = normalize_without_sensor value unit
  normalize_unit (some sensor) value unit = normalize_for sensor.sensor_kind value unit

  -- `MeasurementNormalizer.normalize`; `now` is what the clock says
  unfoldable pub normalize :
      {E : Type 0}
      → Datetime
      → RawMeasurement V
      → Option Sensor
      → Result (IngestionFault E) (Measurement V)
  normalize now raw sensor = do
    normalized ← map_err ingestion_error (normalize_unit sensor raw.value raw.unit)
    id ← map_err domain_error (measurement_id raw)
    map_err domain_error (
        measurement (record {
          id = id;
          sensor_id = raw.sensor_id;
          observed_at = raw.timestamp;
          received_at = now;
          value = normalized.value;
          unit = normalized.unit;
          quality = raw.quality;
          source_id = raw.source_id;
        }))

  module _ {S E : Type 0} (sink : Measurement V → Exec S E (Unit {0})) where
    -- the end of `ingest`: a measurement goes to the sink, a fault is raised
    unfoldable pub store :
        Result (IngestionFault E) (Measurement V) → Exec S (IngestionFault E) (Measurement V)
    store (err fault) s = (err fault, s)
    store (ok m) s = let (r, s') = sink m s in (map_err sink_error (r >> ok m), s')

    -- `IngestionService.ingest`
    unfoldable pub ingest :
        Option AssetRegistry
        → Datetime
        → RawMeasurement V
        → Exec S (IngestionFault E) (Measurement V)
    ingest registry now raw =
        store (do sensor ← find_sensor registry raw.sensor_id; normalize now raw sensor)
