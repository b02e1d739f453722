-- ===== src/Ingestion/Service.antt =====
-- What `ingest` returns and what its sink gets.
use geopilot_hvac.Prelude.{
  subst, ◌≡◌, refl, arith, ◌⊎◌, inl, inr, Option, none, some, Text, Result, ok, err, map_err,
}
use geopilot_hvac.Prelude.Exec.{Exec}
use geopilot_hvac.Prelude.Results.{◌>>=◌, ◌>>◌}
use geopilot_hvac.Prelude.Numbers.{Numbers}
use geopilot_hvac.Prelude.Results.{then_ok, map_err_ok}
use geopilot_hvac.Datetime.{Datetime}
use geopilot_hvac.Domain.Assets.{Sensor}
use geopilot_hvac.Domain.Observation.{Measurement, measurement}
use geopilot_hvac.Registry.{AssetRegistry, get_asset}
use geopilot_hvac.Ingestion.{
  IngestionFault, RawMeasurement, NormalizedUnit, measurement_id, normalize_unit, normalize,
  find_sensor, store, ingest, domain_error, sink_error, ingestion_error,
}
use geopilot_hvac.Ingestion.{registry_error}

-- A block that returned went through each of its steps.
measurement_same :
    {V : Type 0} (m : Measurement V) {n : Measurement V} → measurement m ≡ ok n → m ≡ n
unfolding measurement
measurement_same m h = ground arith

module _ {V : Type 0} (numbers : Numbers V) where
  -- The measurement that a raw value stands for, at the time of its arrival.
  pub record IsNormalized (sensor : Option Sensor) (now : Datetime) (raw : RawMeasurement V)
      (m : Measurement V) : Type 0 where
    pub value :
        normalize_unit numbers sensor raw.value raw.unit
        ≡ ok (record { value = m.value; unit = m.unit })
    pub id : measurement_id raw ≡ ok m.id
    pub sensor_id : m.sensor_id ≡ raw.sensor_id
    pub source_id : m.source_id ≡ raw.source_id
    pub observed_at : m.observed_at ≡ raw.timestamp
    pub received_at : m.received_at ≡ now
    pub quality : m.quality ≡ raw.quality

  normalize_ok :
      {E : Type 0} (now : Datetime) (raw : RawMeasurement V) (sensor : Option Sensor)
      (m : Measurement V)
      → (let r : Result (IngestionFault E) (Measurement V) = normalize numbers now raw sensor in r)
        ≡ ok m
      → IsNormalized sensor now raw m
  unfolding normalize
  normalize_ok {E} now raw sensor m h =
      let unit : Result (IngestionFault E) (NormalizedUnit V) =
        map_err ingestion_error (normalize_unit numbers sensor raw.value raw.unit) in
      let named : Result (IngestionFault E) Text = map_err domain_error (measurement_id raw) in
      let (n, e, rest) = then_ok _ unit h in
      let (id, e', last) = then_ok _ named rest in
      let same = measurement_same _ (map_err_ok {F = IngestionFault E} domain_error _ last) in
      let unit_ok =
        map_err_ok {F = IngestionFault E} ingestion_error
          (normalize_unit numbers sensor raw.value raw.unit) e in
      let id_ok = map_err_ok {F = IngestionFault E} domain_error (measurement_id raw) e' in
      subst (IsNormalized sensor now raw) same (record {
        value = unit_ok;
        id = id_ok;
        sensor_id = refl;
        source_id = refl;
        observed_at = refl;
        received_at = refl;
        quality = refl;
      })

  -- The sensor that the registry has, where there is a registry.
  abbrev pub IsFound : Option AssetRegistry → Text → Option Sensor → Type 0
  IsFound none sensor_id sensor = sensor ≡ none
  IsFound (some registry) sensor_id sensor =
      (own : Sensor) × (sensor ≡ some own) × (get_asset sensor_id registry.sensors ≡ ok own)

  find_sensor_ok :
      {E : Type 0} (registry : Option AssetRegistry) (sensor_id : Text) (sensor : Option Sensor)
      → (let r : Result (IngestionFault E) (Option Sensor) = find_sensor registry sensor_id in r)
        ≡ ok sensor
      → IsFound registry sensor_id sensor
  unfolding find_sensor
  find_sensor_ok none sensor_id sensor h = cc h
  find_sensor_ok {E} (some registry) sensor_id sensor h =
      let asked : Result (IngestionFault E) Sensor =
        map_err registry_error (get_asset sensor_id registry.sensors) in
      let (own, e, last) = then_ok _ asked h in
      (
        own,
        cc last,
        map_err_ok {F = IngestionFault E} registry_error (get_asset sensor_id registry.sensors) e,
      )

  module _ {S E : Type 0} (sink : Measurement V → Exec S E (Unit {0})) where
    -- the result of `ingest` when the sink answered
    abbrev pub answered :
        Measurement V → Result E (Unit {0}) → Result (IngestionFault E) (Measurement V)
    answered m r = map_err sink_error (r >> ok m)

    -- The call raised before the sink was asked; or the sink got the normalized measurement, once.
    abbrev pub IsIngested :
        Option AssetRegistry
        → Datetime
        → RawMeasurement V
        → S
        → Result (IngestionFault E) (Measurement V) × S
        → Type 0
    IsIngested registry now raw s (r, s') =
        ((fault : IngestionFault E) × (r ≡ err fault) × (s' ≡ s))
        ⊎ ((sensor : Option Sensor) × (m : Measurement V) × (IsFound registry raw.sensor_id sensor)
            × (IsNormalized sensor now raw m)
            × (r ≡ answered m (sink m s).0)
            × (s' ≡ (sink m s).1))

    store_lem :
        (registry : Option AssetRegistry) (now : Datetime) (raw : RawMeasurement V) (s : S)
        (sensor : Option Sensor) (r : Result (IngestionFault E) (Measurement V))
        → IsFound registry raw.sensor_id sensor
        → ((m : Measurement V) → r ≡ ok m → IsNormalized sensor now raw m)
        → IsIngested registry now raw s (store numbers sink r s)
    unfolding store
    store_lem registry now raw s sensor (err fault) found good = inl (fault, refl, refl)
    store_lem registry now raw s sensor (ok m) found good =
        inr (sensor, m, found, good m refl, refl, refl)

    found_lem :
        (registry : Option AssetRegistry) (now : Datetime) (raw : RawMeasurement V) (s : S)
        (r : Result (IngestionFault E) (Option Sensor))
        → ((sensor : Option Sensor) → r ≡ ok sensor → IsFound registry raw.sensor_id sensor)
        → IsIngested registry now raw s (store numbers sink (r >>= normalize numbers now raw) s)
    unfolding store
    found_lem registry now raw s (err fault) found = inl (fault, refl, refl)
    found_lem registry now raw s (ok sensor) found =
        store_lem registry now raw s sensor (normalize numbers now raw sensor) (found sensor refl)
          (normalize_ok now raw sensor)

    -- Ingest either raises and leaves the sink as it was, or it hands the sink one measurement,
    -- once, and returns it or raises what the sink raised; the measurement has the sensor, source,
    -- time and quality of the raw value, the value and unit of its normalisation for the sensor
    -- that the registry has, the identity of the raw value, and the time of its arrival.
    pub ingest-IsIngested :
        (registry : Option AssetRegistry) (now : Datetime) (raw : RawMeasurement V) (s : S)
        → IsIngested registry now raw s (ingest numbers sink registry now raw s)
    unfolding ingest
    ingest-IsIngested registry now raw s =
        found_lem registry now raw s (find_sensor registry raw.sensor_id)
          (find_sensor_ok registry raw.sensor_id)
