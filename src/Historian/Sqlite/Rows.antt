-- ===== src/Historian/Sqlite/Rows.antt =====
-- A measurement that the domain model accepts goes through a row unchanged, but for its value.
use geopilot_hvac.Prelude.{◌≡◌, refl, arith, none, some, List, [], ◌∷◌, map, ℤ, pos, ok}
use geopilot_hvac.Datetime.{Datetime}
use geopilot_hvac.Domain.{DataQuality, good, estimated, missing, stale, invalid, unknown}
use geopilot_hvac.Domain.Observation.{Measurement, measurement}
use geopilot_hvac.Historian.Sqlite.{
  Row, quality_value, data_quality, to_storage, row_to_measurement, measurements_of,
}
use geopilot_hvac.Prelude.Strings.{◌==◌}

-- the offset of an aware datetime
abbrev pub offset_seconds : Datetime → ℤ
offset_seconds at = elim at.offset [ none ↦ pos 0 | some offset ↦ offset ]

data_quality-value : (q : DataQuality) → data_quality (quality_value q) ≡ ok q
unfolding data_quality quality_value ◌==◌
data_quality-value good = refl
data_quality-value estimated = refl
data_quality-value missing = refl
data_quality-value stale = refl
data_quality-value invalid = refl
data_quality-value unknown = refl

module _ {V : Type 0} where
  -- The constructor accepts the measurement.
  abbrev pub IsAccepted : Measurement V → Type 0
  IsAccepted m = measurement m ≡ ok m

  abbrev pub AreAccepted : List (Measurement V) → Type 0
  AreAccepted [] = Unit
  AreAccepted (m ∷ ms) = IsAccepted m × AreAccepted ms

  pub to_storage_accepted :
      (m : Measurement V)
      → IsAccepted m
      → (to_storage m.observed_at ≡ ok (m.observed_at.instant, offset_seconds m.observed_at))
        × (to_storage m.received_at ≡ ok (m.received_at.instant, offset_seconds m.received_at))
  unfolding to_storage measurement
  to_storage_accepted m h = (ground arith, ground arith)

module _ {V : Type 0} (numeric : V → V) where
  -- what a row gives back of a measurement
  abbrev pub stored_form : Measurement V → Measurement V
  stored_form m = record m { value = numeric m.value }

  abbrev pub row_of : Measurement V → Row V
  row_of m = record {
    id = m.id;
    sensor_id = m.sensor_id;
    observed_at_us = m.observed_at.instant;
    observed_at_offset_s = offset_seconds m.observed_at;
    received_at_us = m.received_at.instant;
    received_at_offset_s = offset_seconds m.received_at;
    value = numeric m.value;
    unit = m.unit;
    quality = quality_value m.quality;
    source_id = m.source_id;
  }

  pub row_to_measurement-row_of :
      (m : Measurement V) → IsAccepted m → row_to_measurement (row_of m) ≡ ok (stored_form m)
  unfolding row_to_measurement measurement
  row_to_measurement-row_of m h = rw (data_quality-value m.quality) (ground arith)

  pub measurements_of-map :
      (ms : List (Measurement V))
      → AreAccepted ms
      → measurements_of (map row_of ms) ≡ ok (map stored_form ms)
  unfolding measurements_of
  measurements_of-map [] h = refl
  measurements_of-map (m ∷ ms) (h, hs) =
      rw (row_to_measurement-row_of m h, measurements_of-map ms hs) refl
