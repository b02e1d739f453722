-- ===== src/Acquisition.antt =====
-- `AcquisitionPipeline` of backend/src/geopilot/acquisition.py: each raw value becomes a success or a
-- failure, unless something is raised that the pipeline does not catch.
pub mod Stored
pub mod Simulator
pub mod Runner
mod Tests
use geopilot_hvac.Prelude.{
  not, Option, none, some, List, [], ◌∷◌, Text, text, ◌==◌, is_blank, Result, ok, err, map_err,
  if◌then◌else◌,
}
use geopilot_hvac.Prelude.Exec.{Exec, lift, pure, ◌>>=◌}
use geopilot_hvac.Prelude.Results
use geopilot_hvac.Datetime.{Datetime, is_aware}
use geopilot_hvac.Domain.Observation.{Measurement}
use geopilot_hvac.Registry.{asset_not_found}
use geopilot_hvac.Ingestion.{
  IngestionFault, ingestion_error, domain_error, registry_error, sink_error, RawMeasurement,
  MetadataValue, text_value,
}

pub data AcquisitionErrorCode : Type 0 where
  read_failed decode_failed normalization_failed sensor_not_found : AcquisitionErrorCode
  profile_incomplete partial_read unknown_device unknown : AcquisitionErrorCode

-- `AcquisitionResultError`, by the check that raised it
pub data AcquisitionResultError : Type 0 where
  blank_identifier naive_datetime : AcquisitionResultError

-- What the pipeline may raise; `E` is what the sink raises.
pub data AcquisitionFault (E : Type 0) : Type 0 where
  result_error : AcquisitionResultError → AcquisitionFault E
  ingestion_fault : IngestionFault E → AcquisitionFault E

pub record AcquisitionContext : Type 0 where
  pub source_id : Text
  pub profile_id : Option Text
  pub register_id : Option Text
  pub sensor_id : Option Text

-- `AcquisitionSuccess | AcquisitionFailure`
pub data AcquisitionResult (V : Type 0) : Type 0 where
  success : AcquisitionContext → Measurement V → Datetime → AcquisitionResult V
  failure : AcquisitionContext → AcquisitionErrorCode → Datetime → AcquisitionResult V

-- `_require_identifier`
abbrev pub require_identifier : Text → Result AcquisitionResultError (Unit {0})
require_identifier value = if is_blank value then err blank_identifier else ok tt

-- `_require_optional_identifier`
abbrev pub require_optional_identifier : Option Text → Result AcquisitionResultError (Unit {0})
require_optional_identifier none = ok tt
require_optional_identifier (some value) = require_identifier value

-- `AcquisitionContext(...)` with `__post_init__`
unfoldable pub acquisition_context :
    AcquisitionContext → Result AcquisitionResultError AcquisitionContext
acquisition_context c = Results.◌>>◌ (require_identifier c.source_id) (
    Results.◌>>◌ (require_optional_identifier c.profile_id) (
      Results.◌>>◌ (require_optional_identifier c.register_id)
        (Results.◌>>◌ (require_optional_identifier c.sensor_id) (ok c))))

-- `raw.metadata.get("register_id")`, where it is a text
unfoldable pub register_id_of : {V : Type 0} → List (Text × MetadataValue V) → Option Text
register_id_of [] = none
register_id_of ((key, text_value value) ∷ rest) =
    if key == text "register_id" then some value else register_id_of rest
register_id_of ((key, _) ∷ rest) = if key == text "register_id" then none else register_id_of rest

-- `context_from_raw`
unfoldable pub context_from_raw :
    {V : Type 0} → Option Text → RawMeasurement V → Result AcquisitionResultError AcquisitionContext
context_from_raw profile_id raw = acquisition_context (record {
  source_id = raw.source_id;
  profile_id = profile_id;
  register_id = register_id_of raw.metadata;
  sensor_id = some raw.sensor_id;
})

-- The faults that the pipeline catches, with `_code_from_exception`.
unfoldable pub caught_code : {E : Type 0} → IngestionFault E → Option AcquisitionErrorCode
caught_code (registry_error (asset_not_found _)) = some sensor_not_found
caught_code (registry_error _) = none
caught_code (ingestion_error _) = some normalization_failed
caught_code (domain_error _) = none
caught_code (sink_error _) = none

-- `_require_aware_datetime` of `acquired_at`, in `__post_init__` of a result
unfoldable pub stamped :
    {V E : Type 0}
    → Datetime
    → AcquisitionResult V
    → Result (AcquisitionFault E) (AcquisitionResult V)
stamped at result = if is_aware at then ok result else err (result_error naive_datetime)

-- `successful_measurements`
unfoldable pub successful_measurements :
    {V : Type 0} → List (AcquisitionResult V) → List (Measurement V)
successful_measurements [] = []
successful_measurements (success _ m _ ∷ results) = m ∷ successful_measurements results
successful_measurements (failure _ _ _ ∷ results) = successful_measurements results

-- `failures`
unfoldable pub failures : {V : Type 0} → List (AcquisitionResult V) → List (AcquisitionResult V)
failures [] = []
failures (success _ _ _ ∷ results) = failures results
failures (failure c code at ∷ results) = failure c code at ∷ failures results

module _ {V S E : Type 0} (ingest : RawMeasurement V → Exec S (IngestionFault E) (Measurement V))
    (clock : S → Datetime) where
  -- what the loop makes of the outcome of `ingest`
  unfoldable pub settle :
      AcquisitionContext
      → Result (IngestionFault E) (Measurement V) × S
      → Result (AcquisitionFault E) (AcquisitionResult V) × S
  settle context (ok m, s) = (stamped (clock s) (success context m (clock s)), s)
  settle context (err fault, s) = elim (caught_code fault) [
    | none ↦ (err (ingestion_fault fault), s)
    | some code ↦ (stamped (clock s) (failure context code (clock s)), s)
  ]

  -- one round of the loop
  unfoldable pub acquire_one :
      Option Text → RawMeasurement V → Exec S (AcquisitionFault E) (AcquisitionResult V)
  acquire_one profile_id raw = do
    context ← lift (map_err result_error (context_from_raw profile_id raw))
    λ s. settle context (ingest raw s)

  -- `ingest_raw_measurements`
  unfoldable pub ingest_raw_measurements :
      Option Text
      → List (RawMeasurement V)
      → Exec S (AcquisitionFault E) (List (AcquisitionResult V))
  ingest_raw_measurements profile_id [] = pure []
  ingest_raw_measurements profile_id (raw ∷ raws) = do
    result ← acquire_one profile_id raw
    results ← ingest_raw_measurements profile_id raws
    pure (result ∷ results)
