-- ===== src/Acquisition/Tests.antt =====
-- The acquisition pipeline on two readings, of which one has a unit that is not known.
use geopilot_hvac.Prelude.{
  is_blank, ◌==◌, ◌≡◌, refl, ℤ, pos, none, some, List, [], ◌∷◌, ◌++◌, length, Text, text,
}
use geopilot_hvac.Prelude.Exec.{Exec}
use geopilot_hvac.Prelude.Decimal.{show_int}
use geopilot_hvac.Datetime.{utc, epoch_microseconds}
use geopilot_hvac.Domain.Observation.{measurement, Measurement}
use geopilot_hvac.Ingestion.{
  RawMeasurement, ingest, store, find_sensor, normalize, normalize_unit, normalize_without_sensor,
  normalize_state, measurement_id,
}
use geopilot_hvac.Ingestion.Tests.{whole_numbers, reading}
use geopilot_hvac.Acquisition.{
  AcquisitionResult, success, failure, normalization_failed, AcquisitionContext,
  successful_measurements,
}
use geopilot_hvac.Acquisition.Stored.{memory_pipeline, ingest_raw_measurements_stored}
use geopilot_hvac.Acquisition.{ingest_raw_measurements}
use geopilot_hvac.Acquisition.{AcquisitionFault}
use geopilot_hvac.Acquisition.{acquire_one}
use geopilot_hvac.Acquisition.{settle}
use geopilot_hvac.Acquisition.{stamped}
use geopilot_hvac.Acquisition.{caught_code}
use geopilot_hvac.Acquisition.{context_from_raw}
use geopilot_hvac.Acquisition.{acquisition_context}
use geopilot_hvac.Acquisition.{register_id_of}

abbrev unknown_unit : RawMeasurement ℤ
unknown_unit = record {
  source_id = text "modbus";
  sensor_id = text "pump";
  value = pos 1;
  unit = text "rpm";
  timestamp = utc 10;
  quality = (reading 10).quality;
  metadata = [];
}

abbrev context : AcquisitionContext
context = record {
  source_id = text "modbus";
  profile_id = none;
  register_id = none;
  sensor_id = some (text "pump");
}

abbrev stored : Measurement ℤ
stored = record {
  id = text "modbus:pump:10";
  sensor_id = text "pump";
  observed_at = utc 10;
  received_at = utc 11;
  value = pos 1;
  unit = text "state";
  quality = (reading 10).quality;
  source_id = text "modbus";
}

abbrev results : List (AcquisitionResult ℤ)
results = failure context normalization_failed (utc 12) ∷ success context stored (utc 12) ∷ []

abbrev pipeline : Exec (List (Measurement ℤ)) (AcquisitionFault Text) (List (AcquisitionResult ℤ))
pipeline =
    memory_pipeline whole_numbers none (λ s. utc 11) (λ s. utc 12) none
      (unknown_unit ∷ reading 10 ∷ [])

ingest_raw_measurements_stored_example :
    (length results ≡ 2) × ((pipeline []).1 ≡ [] ++ successful_measurements results)
unfolding ingest_raw_measurements acquire_one settle stamped caught_code context_from_raw
    acquisition_context register_id_of ingest store find_sensor normalize normalize_unit
    normalize_without_sensor normalize_state measurement_id measurement epoch_microseconds is_blank
    ◌==◌ show_int
ingest_raw_measurements_stored_example =
    ingest_raw_measurements_stored {E = Text} whole_numbers none (λ s. utc 11) (λ s. utc 12) none
      (unknown_unit ∷ reading 10 ∷ []) [] {qs = results} refl
