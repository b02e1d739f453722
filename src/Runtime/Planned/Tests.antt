-- ===== src/Runtime/Planned/Tests.antt =====
-- A session with a register, a probe and an inverted bit.
use geopilot_hvac.Prelude
use geopilot_hvac.Prelude.Sort
use geopilot_hvac.Prelude.Strings
use geopilot_hvac.Prelude.Decimal
use geopilot_hvac.Prelude.Int
use geopilot_hvac.Datetime
use geopilot_hvac.Domain.Observation
use geopilot_hvac.Historian
use geopilot_hvac.Ingestion
use geopilot_hvac.Decoder
use geopilot_hvac.Modbus.Boundary
use geopilot_hvac.Acquisition
use geopilot_hvac.Acquisition.Simulator
use geopilot_hvac.Acquisition.Runner
use geopilot_hvac.OneWire
use geopilot_hvac.Configuration
use geopilot_hvac.Configuration.Assembly
use geopilot_hvac.Runtime.Executors
use geopilot_hvac.Runtime.Session
use geopilot_hvac.Prelude.{
  ◌≡◌, refl, ◌+◌, false, true, ℤ, pos, none, List, [], ◌∷◌, ◌++◌, map, length, Text, text, Result,
  ok, err,
}
use geopilot_hvac.Prelude.Results.{ok_cancel}
use geopilot_hvac.Prelude.Exec.{Exec}
use geopilot_hvac.Datetime.{utc, before}
use geopilot_hvac.Domain.Observation.{Measurement}
use geopilot_hvac.Ingestion.Tests.{whole_numbers}
use geopilot_hvac.Decoder.{uint16}
use geopilot_hvac.Modbus.Boundary.{
  ReadRequest, ReadResponse, BitReadRequest, BitReadResponse, TransportFault, input, coil,
}
use geopilot_hvac.Acquisition.{successful_measurements}
use geopilot_hvac.Acquisition.Runner.{
  AcquisitionPlan, AcquisitionRunReport, run, success_count, failure_count, total_count,
}
use geopilot_hvac.OneWire.{OneWireFault, OneWireReading}
use geopilot_hvac.Configuration.Sections.{InstallationConfig}
use geopilot_hvac.Runtime.Executors.{ExecutorFault}
use geopilot_hvac.Runtime.Session.{Factories, AssemblyFault, build_plan}
use geopilot_hvac.Runtime.Assembled.{AreSilent}
use geopilot_hvac.Runtime.Planned.Stored.{
  SessionState, add_new, HaveRows, ingest_row, build_plan_stored,
}
use geopilot_hvac.Historian.Sqlite
use geopilot_hvac.Historian.Sqlite.{StorageError}
use geopilot_hvac.Ingestion.{RawMeasurement, IngestionFault}
use geopilot_hvac.Prelude.{Bool}
use geopilot_hvac.Acquisition.Stored.{put_all}
use geopilot_hvac.Prelude.{ap}
use geopilot_hvac.Prelude.{sym}

-- nothing of the devices changes
abbrev World : Type 0
World = SessionState (Unit {0}) ℤ

abbrev same_number : ℤ → ℤ → Bool
same_number = whole_numbers.same

abbrev numeric : ℤ → ℤ
numeric v = v

abbrev empty : World
empty = record { devices = tt; rows = [] }

abbrev house : InstallationConfig ℤ
house = record {
  version = pos 1;
  database = text "d";
  residence = record { id = text "h"; name = text "h"; timezone = text "UTC"; created_at = utc 0 };
  systems = [];
  equipment = [];
  sensors = [];
  sources =
      record {
        source_id = text "b";
        port = text "/dev/b";
        baudrate = pos 9600;
        parity = text "N";
        stopbits = pos 1;
        bytesize = pos 8;
        timeout = pos 1;
      }
      ∷ [];
  reads =
      record {
        read_id = text "r";
        source_id = text "b";
        sensor_id = text "t";
        unit_id = pos 1;
        register_kind = input;
        address = pos 0;
        quantity = pos 1;
        data_type = uint16;
        unit = text "degC";
        scale = pos 1;
        offset = pos 0;
        source_reference = text "p";
      }
      ∷ [];
  onewire_sources = record { source_id = text "w"; root = text "/sys" } ∷ [];
  onewire_reads =
      record {
        read_id = text "q";
        source_id = text "w";
        sensor_id = text "u";
        device_id = text "28";
        unit = text "degC";
        offset_celsius = pos 0;
        source_reference = text "p";
      }
      ∷ [];
  bit_reads =
      record {
        read_id = text "i";
        source_id = text "b";
        sensor_id = text "v";
        unit_id = pos 1;
        bit_kind = coil;
        address = pos 0;
        inverted = true;
        source_reference = text "p";
      }
      ∷ [];
  control = record { enabled = false; targets = [] };
  control_sources = [];
}

abbrev answer : ReadRequest → Exec World TransportFault ReadResponse
answer request s =
    (ok (record { request_id = request.request_id; words = 7 ∷ []; observed_at = utc 10 }), s)

abbrev probe : Text → Exec World OneWireFault OneWireReading
probe id s = (ok (record { device_id = id; millidegrees = pos 21000; observed_at = utc 10 }), s)

abbrev contact : BitReadRequest → Exec World TransportFault BitReadResponse
contact request s =
    (ok (record { request_id = request.request_id; bits = true ∷ []; observed_at = utc 10 }), s)

abbrev factories : Factories ℤ World Text
factories = record {
  transport_factory = λ source. ok answer;
  onewire_bus_factory = λ source. ok probe;
  bit_transport_factory = λ source. ok contact;
}

abbrev ingest_test : RawMeasurement ℤ → Exec World (IngestionFault StorageError) (Measurement ℤ)
ingest_test = ingest_row same_number numeric whole_numbers none (λ s. utc 11)

abbrev built : Result (AssemblyFault Text) (AcquisitionPlan ℤ World (ExecutorFault StorageError))
built =
    build_plan whole_numbers (λ high low. pos 0) ingest_test (λ s. utc 12) (λ s. utc 12) (λ id s. s)
      factories house

abbrev returned : {E A : Type 0} → A → Result E A → A
returned default (ok a) = a
returned default (err e) = default

abbrev plan : AcquisitionPlan ℤ World (ExecutorFault StorageError)
plan = returned (record { plan_id = []; requests = [] }) built

-- All three readings are stored; the inverted contact is off.
three_stored :
    map (λ r. r.value) (run (λ s. utc 12) plan empty).1.rows ≡ pos 7 ∷ pos 21 ∷ pos 0 ∷ []
unfolding build_plan Session.requests_of Session.register_request Session.probe_request
    Session.bit_request Session.request_of Session.named_request Sort.keep Prelude.◌==◌
    Configuration.each Assembly.build_read_request Boundary.read_request Prelude.is_blank
    Strings.is_space Simulator.request_table Prelude.lookup Prelude.insert
    Assembly.build_register_definition Decoder.register_definition Assembly.build_onewire_definition
    OneWire.sensor_definition Runner.acquisition_request Runner.acquisition_plan
    Runner.check_requests Historian.is_member Prelude.◌-ℤ◌ Sqlite.append_row Sqlite.append_unless
    Sqlite.fetch_by_id Sqlite.row_with_id Sqlite.insert_row Sqlite.to_storage Sqlite.quality_value
    Sqlite.data_quality Sqlite.row_to_measurement Historian.conflicts_with run Runner.run_requests
    Runner.run_report Simulator.acquire Simulator.read_decode_and_ingest Simulator.decode_and_ingest
    Simulator.ingest_decoded Simulator.read_register Simulator.client_fault_of
    Acquisition.ingest_raw_measurements Acquisition.acquire_one Acquisition.settle
    Acquisition.stamped Acquisition.context_from_raw Acquisition.acquisition_context
    Acquisition.register_id_of Decoder.check_words Decoder.register_payload Decoder.decode
    Decoder.decode_words Ingestion.raw_measurement Ingestion.ingest Ingestion.store
    Ingestion.find_sensor Ingestion.normalize Ingestion.normalize_unit
    Ingestion.normalize_without_sensor Ingestion.normalize_temperature Ingestion.normalize_state
    Ingestion.measurement_id Observation.measurement Datetime.epoch_microseconds Decimal.show_int
    Int.◌+ℤ◌ Int.◌*ℤ◌ Executors.execute_registers Executors.execute_probes Executors.execute_bits
    Executors.settle_probe Executors.settle_bit Executors.ingested Executors.ingest_bit
    Executors.read_bit Executors.bit_measurement Executors.asserted_bit OneWire.read_raw_measurement
    Assembly.build_bit_read_request Boundary.bit_read_request
three_stored = refl

-- the session when it has run once
abbrev later : World
later = (run (λ s. utc 12) plan empty).1

-- The second run reads the same at the same times.
abbrev again : AcquisitionRunReport ℤ
again =
    returned (record { plan_id = []; started_at = utc 0; completed_at = utc 0; results = [] })
      (run (λ s. utc 12) plan later).0

-- It reports three successes, and adds no row.
three_repeated : (success_count again ≡ 3) × ((run (λ s. utc 12) plan later).1.rows ≡ later.rows)
unfolding build_plan Session.requests_of Session.register_request Session.probe_request
    Session.bit_request Session.request_of Session.named_request Sort.keep Prelude.◌==◌
    Configuration.each Assembly.build_read_request Boundary.read_request Prelude.is_blank
    Strings.is_space Simulator.request_table Prelude.lookup Prelude.insert
    Assembly.build_register_definition Decoder.register_definition Assembly.build_onewire_definition
    OneWire.sensor_definition Runner.acquisition_request Runner.acquisition_plan
    Runner.check_requests Historian.is_member Prelude.◌-ℤ◌ Sqlite.append_row Sqlite.append_unless
    Sqlite.fetch_by_id Sqlite.row_with_id Sqlite.insert_row Sqlite.to_storage Sqlite.quality_value
    Sqlite.data_quality Sqlite.row_to_measurement Historian.conflicts_with run Runner.run_requests
    Runner.run_report Simulator.acquire Simulator.read_decode_and_ingest Simulator.decode_and_ingest
    Simulator.ingest_decoded Simulator.read_register Simulator.client_fault_of
    Acquisition.ingest_raw_measurements Acquisition.acquire_one Acquisition.settle
    Acquisition.stamped Acquisition.successful_measurements Acquisition.context_from_raw
    Acquisition.acquisition_context Acquisition.register_id_of Decoder.check_words
    Decoder.register_payload Decoder.decode Decoder.decode_words Ingestion.raw_measurement
    Ingestion.ingest Ingestion.store Ingestion.find_sensor Ingestion.normalize
    Ingestion.normalize_unit Ingestion.normalize_without_sensor Ingestion.normalize_temperature
    Ingestion.normalize_state Ingestion.measurement_id Observation.measurement
    Datetime.epoch_microseconds Decimal.show_int Int.◌+ℤ◌ Int.◌*ℤ◌ Executors.execute_registers
    Executors.execute_probes Executors.execute_bits Executors.settle_probe Executors.settle_bit
    Executors.ingested Executors.ingest_bit Executors.read_bit Executors.bit_measurement
    Executors.asserted_bit OneWire.read_raw_measurement Assembly.build_bit_read_request
    Boundary.bit_read_request
three_repeated = (refl, refl)

session_accepted : built ≡ ok plan
unfolding build_plan Session.requests_of Session.register_request Session.probe_request
    Session.bit_request Session.request_of Session.named_request Sort.keep Prelude.◌==◌
    Configuration.each Assembly.build_read_request Boundary.read_request Prelude.is_blank
    Strings.is_space Simulator.request_table Prelude.lookup Prelude.insert
    Assembly.build_register_definition Decoder.register_definition Assembly.build_onewire_definition
    OneWire.sensor_definition Runner.acquisition_request Runner.acquisition_plan
    Runner.check_requests Historian.is_member Prelude.◌-ℤ◌
session_accepted = refl

session_reported : (run (λ s. utc 12) plan later).0 ≡ ok again
unfolding build_plan Session.requests_of Session.register_request Session.probe_request
    Session.bit_request Session.request_of Session.named_request Sort.keep Prelude.◌==◌
    Configuration.each Assembly.build_read_request Boundary.read_request Prelude.is_blank
    Strings.is_space Simulator.request_table Prelude.lookup Prelude.insert
    Assembly.build_register_definition Decoder.register_definition Assembly.build_onewire_definition
    OneWire.sensor_definition Runner.acquisition_request Runner.acquisition_plan
    Runner.check_requests Historian.is_member Prelude.◌-ℤ◌ Sqlite.append_row Sqlite.append_unless
    Sqlite.fetch_by_id Sqlite.row_with_id Sqlite.insert_row Sqlite.to_storage Sqlite.quality_value
    Sqlite.data_quality Sqlite.row_to_measurement Historian.conflicts_with run Runner.run_requests
    Runner.run_report Simulator.acquire Simulator.read_decode_and_ingest Simulator.decode_and_ingest
    Simulator.ingest_decoded Simulator.read_register Simulator.client_fault_of
    Acquisition.ingest_raw_measurements Acquisition.acquire_one Acquisition.settle
    Acquisition.stamped Acquisition.context_from_raw Acquisition.acquisition_context
    Acquisition.register_id_of Decoder.check_words Decoder.register_payload Decoder.decode
    Decoder.decode_words Ingestion.raw_measurement Ingestion.ingest Ingestion.store
    Ingestion.find_sensor Ingestion.normalize Ingestion.normalize_unit
    Ingestion.normalize_without_sensor Ingestion.normalize_temperature Ingestion.normalize_state
    Ingestion.measurement_id Observation.measurement Datetime.epoch_microseconds Decimal.show_int
    Int.◌+ℤ◌ Int.◌*ℤ◌ Executors.execute_registers Executors.execute_probes Executors.execute_bits
    Executors.settle_probe Executors.settle_bit Executors.ingested Executors.ingest_bit
    Executors.read_bit Executors.bit_measurement Executors.asserted_bit OneWire.read_raw_measurement
    Assembly.build_bit_read_request Boundary.bit_read_request
session_reported = refl

all_silent : AreSilent (λ (s : World). s.rows) factories
all_silent = record {
  registers =
      λ source transport opened request s. ap (λ f. (f request s).1.rows) (ok_cancel (sym opened));
  probes = λ source bus opened id s. ap (λ f. (f id s).1.rows) (ok_cancel (sym opened));
  bits =
      λ source transport opened request s. ap (λ f. (f request s).1.rows) (ok_cancel (sym opened));
}

build_plan_stored_example :
    ((run (λ s. utc 12) plan later).1.rows
      ≡ put_all (add_new numeric) (successful_measurements again.results) later.rows)
    × HaveRows (run (λ s. utc 12) plan later).1.rows (successful_measurements again.results)
    × (total_count again ≡ success_count again + failure_count again)
    × (before again.completed_at again.started_at ≡ false)
build_plan_stored_example =
    build_plan_stored same_number numeric whole_numbers none (λ s. utc 11) (λ high low. pos 0)
      (λ s. utc 12) (λ s. utc 12) (λ id s. s) factories house plan later again (λ id s. refl)
      all_silent session_accepted session_reported
