-- ===== src/Ingestion/Tests.antt =====
-- Ingestion and decoding on concrete values: whole numbers stand for floats.
use geopilot_hvac.Prelude.{
  ℕ, ◌/◌, ◌≡◌, ◌↔◌, refl, arith, true, not, ◌&&◌, none, List, [], ◌∷◌, ◌++◌, ℤ, pos, negsuc,
  pos_part, ltb_ℤ, ◌+ℤ◌, ◌-ℤ◌, ◌*ℤ◌, ◌≤ℤ◌, Text, text, ◌==◌, is_blank, ok,
}
use geopilot_hvac.Prelude.Exec.{Exec}
use geopilot_hvac.Prelude.Numbers.{Numbers}
use geopilot_hvac.Datetime.{utc}
use geopilot_hvac.Domain.{SensorMeasurementKind, good}
use geopilot_hvac.Domain.Observation.{Measurement}
use geopilot_hvac.Ingestion.{
  RawMeasurement, text_value, NormalizedUnit, measurement_id, normalize_unit,
  normalize_without_sensor, normalize_state, raw_measurement, state_unit, ingest,
}
use geopilot_hvac.Ingestion.Identity.{measurement_id_cancel}
use geopilot_hvac.Ingestion.Units.{HasStates, canonical_unit, normalize_unit_settles}
use geopilot_hvac.Ingestion.Service.{IsIngested, ingest-IsIngested}
use geopilot_hvac.Decoder.{
  RegisterDefinition, RegisterPayload, int16, decode_int16, decode_words, decode,
}
use geopilot_hvac.Decoder.{register_payload, check_words}
use geopilot_hvac.Decoder.Words.{encode_int16, decode_int16-encode, decode_ok, IsValueOf}

abbrev pub whole_numbers : Numbers ℤ
whole_numbers = record {
  of_int = λ n. n;
  plus = λ a b. a +ℤ b;
  minus = λ a b. a -ℤ b;
  times = λ a b. a *ℤ b;
  divided = λ a b. pos (pos_part a / pos_part b);
  is_finite = λ a. true;
  same = λ a b. not (ltb_ℤ a b) && not (ltb_ℤ b a);
}

abbrev pub reading : ℕ → RawMeasurement ℤ
reading at = record {
  source_id = text "modbus";
  sensor_id = text "pump";
  value = pos 1;
  unit = text "state";
  timestamp = utc at;
  quality = good;
  metadata = [];
}

measurement_id_cancel_example :
    (measurement_id (reading 10) ≡ measurement_id (reading 20))
    ↔ ((reading 10).timestamp.instant ≡ (reading 20).timestamp.instant)
measurement_id_cancel_example = measurement_id_cancel (reading 10) (reading 20) refl refl refl refl

abbrev whole_states : HasStates whole_numbers
whole_states = record { zero_zero = refl; one_zero = refl; one_one = refl }

abbrev running : NormalizedUnit ℤ
running = record { value = pos 1; unit = state_unit }

normalize_unit_settles_example :
    ((kind : SensorMeasurementKind) × (running.unit ≡ canonical_unit kind))
    × (normalize_unit whole_numbers none running.value running.unit ≡ ok running)
unfolding normalize_unit normalize_without_sensor normalize_state ◌==◌
normalize_unit_settles_example =
    normalize_unit_settles whole_numbers whole_states none (pos 1) (text "state") running refl

abbrev collect : Measurement ℤ → Exec (List (Measurement ℤ)) Text (Unit {0})
collect m ms = (ok tt, ms ++ m ∷ [])

ingest-IsIngested_example :
    IsIngested whole_numbers collect none
      (utc 11)
      (reading 10)
      []
      (ingest whole_numbers collect none (utc 11) (reading 10) [])
ingest-IsIngested_example = ingest-IsIngested whole_numbers collect none (utc 11) (reading 10) []

decode_int16-encode_example :
    (negsuc 32767 ≤ℤ decode_int16 65535)
    × (decode_int16 65535 ≤ℤ pos 32767)
    × (encode_int16 (decode_int16 65535) ≡ 65535)
decode_int16-encode_example = decode_int16-encode 65535 (omega arith)

abbrev definition : RegisterDefinition ℤ
definition = record {
  register_id = text "t1";
  source_id = text "modbus";
  sensor_id = text "supply";
  unit = text "degC";
  data_type = int16;
  scale = pos 2;
  offset = pos 1;
  source_reference = text "manual";
}

abbrev payload : RegisterPayload
payload = record { register_id = text "t1"; words = 65516 ∷ []; observed_at = utc 5 }

abbrev decoded : RawMeasurement ℤ
decoded = record {
  source_id = text "modbus";
  sensor_id = text "supply";
  value = negsuc 38;
  unit = text "degC";
  timestamp = utc 5;
  quality = good;
  metadata =
      (text "register_id", text_value (text "t1"))
      ∷ (text "source_reference", text_value (text "manual"))
      ∷ [];
}

decode_ok_example :
    (value : ℤ) × IsValueOf whole_numbers
      (λ high low. pos high)
      (pos 65516 ∷ [])
      definition.data_type
      value
    × (decoded.value ≡ value *ℤ definition.scale +ℤ definition.offset)
    × (definition.register_id ≡ text "t1")
    × (decoded.source_id ≡ definition.source_id)
    × (decoded.sensor_id ≡ definition.sensor_id)
    × (decoded.unit ≡ definition.unit)
    × (decoded.timestamp ≡ utc 5)
unfolding register_payload check_words decode decode_words decode_int16 raw_measurement ◌-ℤ◌ ◌+ℤ◌
    ◌*ℤ◌ ◌==◌ is_blank
decode_ok_example =
    decode_ok whole_numbers (λ high low. pos high) definition (text "t1") (pos 65516 ∷ []) (utc 5)
      payload decoded refl refl
