-- ===== src/Acquisition/Simulator/Tests.antt =====
-- The service on two registers, of which the client has one.
use geopilot_hvac.Prelude.{
  refl, ℤ, pos, none, List, [], ◌∷◌, Text, text, ◌==◌, is_blank, lookup, Dict, ◌+ℤ◌, ◌*ℤ◌, ◌-ℤ◌,
}
use geopilot_hvac.Prelude.Exec.{Exec}
use geopilot_hvac.Prelude.Decimal.{show_int}
use geopilot_hvac.Datetime.{utc, epoch_microseconds}
use geopilot_hvac.Domain.{good}
use geopilot_hvac.Domain.Observation.{Measurement, measurement}
use geopilot_hvac.Ingestion.{
  RawMeasurement, IngestionFault, memory_sink, ingest, store, find_sensor, normalize,
  normalize_unit, normalize_without_sensor, normalize_temperature, measurement_id, raw_measurement,
}
use geopilot_hvac.Ingestion.Tests.{whole_numbers}
use geopilot_hvac.Decoder.{RegisterDefinition, RegisterPayload, uint16, decode, decode_words}
use geopilot_hvac.Acquisition.{
  AcquisitionResult, success, failure, read_failed, ingest_raw_measurements, acquire_one, settle,
  stamped, context_from_raw, acquisition_context, register_id_of,
}
use geopilot_hvac.Acquisition.Simulator.{
  ClientFault, read_payload, acquire, read_decode_and_ingest, decode_and_ingest, ingest_decoded,
  pipeline_failure,
}
use geopilot_hvac.Acquisition.Simulator.Service.{AreOwn, own_context, acquire-AreOwn}

abbrev pub definition : Text → RegisterDefinition ℤ
definition id = record {
  register_id = id;
  source_id = text "modbus";
  sensor_id = id;
  unit = text "degC";
  data_type = uint16;
  scale = pos 2;
  offset = pos 1;
  source_reference = text "manual";
}

abbrev pub payloads : Dict RegisterPayload
payloads =
    (text "t1", record { register_id = text "t1"; words = 10 ∷ []; observed_at = utc 10 }) ∷ []

abbrev pub two_definitions : List (RegisterDefinition ℤ)
two_definitions = definition (text "t1") ∷ definition (text "t2") ∷ []

abbrev pub stored : Measurement ℤ
stored = record {
  id = text "modbus:t1:10";
  sensor_id = text "t1";
  observed_at = utc 10;
  received_at = utc 11;
  value = pos 21;
  unit = text "degC";
  quality = good;
  source_id = text "modbus";
}

abbrev pub two_results : List (AcquisitionResult ℤ)
two_results =
    success (own_context none (definition (text "t1"))) stored (utc 12)
    ∷ failure (own_context none (definition (text "t2"))) read_failed (utc 12)
    ∷ []

abbrev pub read_fake :
    RegisterDefinition ℤ → Exec (List (Measurement ℤ)) ClientFault RegisterPayload
read_fake = read_payload (λ id s. s) payloads

abbrev pub ingest_fake :
    RawMeasurement ℤ → Exec (List (Measurement ℤ)) (IngestionFault Text) (Measurement ℤ)
ingest_fake raw s = ingest whole_numbers memory_sink none (utc 11) raw s

acquire-AreOwn_example : AreOwn none two_definitions two_results
unfolding acquire read_decode_and_ingest decode_and_ingest ingest_decoded pipeline_failure
    read_payload decode decode_words ingest_raw_measurements acquire_one settle stamped
    context_from_raw acquisition_context register_id_of ingest store find_sensor normalize
    normalize_unit normalize_without_sensor normalize_temperature measurement_id measurement
    epoch_microseconds raw_measurement is_blank ◌==◌ lookup show_int ◌+ℤ◌ ◌*ℤ◌ ◌-ℤ◌
acquire-AreOwn_example =
    acquire-AreOwn {E = Text} whole_numbers (λ high low. pos 0) ingest_fake (λ s. utc 12) read_fake
      none two_definitions [] {qs = two_results} refl
