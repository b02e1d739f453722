-- ===== src/Runtime/Executors.antt =====
-- runtime.py: the executors that a session gives its requests. `S` holds the devices and the sink; `clock` is
-- the pipeline's and `utc_now` the executors' own.
use geopilot_hvac.Prelude.{
  Option, none, some, List, [], ◌∷◌, ◌++◌, Bool, not, ◌&&◌, ◌||◌, ℕ, pos, Text, Dict, Result, ok,
  err, map_err, if◌then◌else◌,
}
use geopilot_hvac.Prelude.Results
use geopilot_hvac.Prelude.Exec.{Exec, pure, ◌>>=◌}
use geopilot_hvac.Prelude.Numbers.{Numbers}
use geopilot_hvac.Datetime.{Datetime}
use geopilot_hvac.Domain.{good}
use geopilot_hvac.Domain.Observation.{Measurement}
use geopilot_hvac.Ingestion.{
  IngestionError, IngestionFault, RawMeasurement, raw_measurement, state_unit,
}
use geopilot_hvac.Decoder.{RegisterDefinition}
use geopilot_hvac.Modbus.Boundary.{
  BoundaryError, ReadRequest, ReadResponse, BitReadRequest, BitReadResponse, TransportFault,
  transport_error, boundary, index_fault,
}
use geopilot_hvac.Acquisition.{
  AcquisitionErrorCode, read_failed, AcquisitionContext, acquisition_context, AcquisitionFault,
  result_error, AcquisitionResult, failure, stamped, ingest_raw_measurements,
}
use geopilot_hvac.Acquisition.Simulator.{ServiceFault, acquire, read_register}
use geopilot_hvac.OneWire.{
  OneWireFault, OneWireReading, SensorDefinition, one_wire_error, acquisition_code,
  read_raw_measurement,
}
use geopilot_hvac.Configuration.Sections.{BitReadConfig}
use geopilot_hvac.Configuration.Assembly.{build_bit_read_request}

-- what an executor may raise
pub data ExecutorFault (E : Type 0) : Type 0 where
  service_fault : ServiceFault E → ExecutorFault E
  pipeline_fault : AcquisitionFault E → ExecutorFault E
  probe_fault : OneWireFault → ExecutorFault E
  bit_fault : TransportFault → ExecutorFault E
  raw_fault : IngestionError → ExecutorFault E

-- `AcquisitionFailure(...)` with its context, alone in the results
unfoldable pub failed_result :
    {V E : Type 0}
    → AcquisitionContext
    → AcquisitionErrorCode
    → Datetime
    → Result (AcquisitionFault E) (List (AcquisitionResult V))
failed_result context code at =
    Results.◌>>=◌ (map_err result_error (acquisition_context context))
      λ c. Results.◌>>=◌ (stamped at (failure c code at)) λ result. ok (result ∷ [])

-- `response.bits[0] != read.inverted`
unfoldable pub asserted_bit : Bool → List Bool → Option Bool
asserted_bit inverted [] = none
asserted_bit inverted (bit ∷ bits) = some ((bit && not inverted) || (not bit && inverted))

-- the raw measurement of a bit
unfoldable pub bit_measurement :
    {V : Type 0}
    → Numbers V
    → BitReadConfig
    → Bool
    → Datetime
    → Result IngestionError (RawMeasurement V)
bit_measurement numbers r asserted at = raw_measurement numbers (record {
  source_id = r.source_id;
  sensor_id = r.sensor_id;
  value = if asserted then numbers.of_int (pos 1) else numbers.of_int (pos 0);
  unit = state_unit;
  timestamp = at;
  quality = good;
  metadata = [];
})

-- `transport.read_bits(build_bit_read_request(read))`
unfoldable pub read_bit :
    {S : Type 0}
    → (BitReadRequest → Exec S TransportFault BitReadResponse)
    → Result BoundaryError BitReadRequest
    → Exec S TransportFault BitReadResponse
read_bit read_bits (ok request) s = read_bits request s
read_bit read_bits (err e) s = (err (boundary e), s)

module _ {V S E : Type 0} (numbers : Numbers V) (unpack_float : ℕ → ℕ → V)
    (ingest : RawMeasurement V → Exec S (IngestionFault E) (Measurement V))
    (clock utc_now : S → Datetime) where
  -- `_executor_for`
  unfoldable pub execute_registers :
      (Text → S → S)
      → (ReadRequest → Exec S TransportFault ReadResponse)
      → Dict ReadRequest
      → List (RegisterDefinition V)
      → Exec S (ExecutorFault E) (List (AcquisitionResult V))
  execute_registers note read_registers table definitions s =
      let (r, s') =
        acquire numbers unpack_float ingest clock (read_register note read_registers table) none
          definitions s in
      (map_err service_fault r, s')

  -- `results.append(AcquisitionFailure(...))`
  unfoldable pub failed :
      AcquisitionContext
      → AcquisitionErrorCode
      → Exec S (ExecutorFault E) (List (AcquisitionResult V))
  failed context code s = (map_err pipeline_fault (failed_result context code (utc_now s)), s)

  -- `pipeline.ingest_raw_measurements((raw,))`
  unfoldable pub ingested : RawMeasurement V → Exec S (ExecutorFault E) (List (AcquisitionResult V))
  ingested raw s =
      let (r, s') = ingest_raw_measurements ingest clock none (raw ∷ []) s in
      (map_err pipeline_fault r, s')

  -- what a round of `_onewire_executor_for` makes of a read
  unfoldable pub settle_probe :
      SensorDefinition V
      → Result OneWireFault (RawMeasurement V) × S
      → Result (ExecutorFault E) (List (AcquisitionResult V)) × S
  settle_probe d (ok raw, s) = ingested raw s
  settle_probe d (err (one_wire_error e), s) =
      failed
        (record {
          source_id = d.source_id;
          profile_id = none;
          register_id = some d.device_id;
          sensor_id = some d.sensor_id;
        })
        (acquisition_code e.code) s
  settle_probe d (err fault, s) = (err (probe_fault fault), s)

  -- `_onewire_executor_for`
  unfoldable pub execute_probes :
      (Text → Exec S OneWireFault OneWireReading)
      → List (SensorDefinition V)
      → Exec S (ExecutorFault E) (List (AcquisitionResult V))
  execute_probes read [] = pure []
  execute_probes read (d ∷ ds) = do
    first ← λ s. settle_probe d (read_raw_measurement numbers read d s)
    rest ← execute_probes read ds
    pure (first ++ rest)

  -- the end of a round of `_bit_executor_for`
  unfoldable pub ingest_bit :
      Result IngestionError (RawMeasurement V)
      → Exec S (ExecutorFault E) (List (AcquisitionResult V))
  ingest_bit (ok raw) s = ingested raw s
  ingest_bit (err e) s = (err (raw_fault e), s)

  -- what a round of `_bit_executor_for` makes of a response
  unfoldable pub settle_bit :
      BitReadConfig
      → Result TransportFault BitReadResponse × S
      → Result (ExecutorFault E) (List (AcquisitionResult V)) × S
  settle_bit r (ok response, s) = elim (asserted_bit r.inverted response.bits) [
    | none ↦ (err (bit_fault index_fault), s)
    | some asserted ↦ ingest_bit (bit_measurement numbers r asserted response.observed_at) s
  ]
  settle_bit r (err (transport_error e), s) =
      failed
        (record {
          source_id = r.source_id;
          profile_id = none;
          register_id = some r.read_id;
          sensor_id = some r.sensor_id;
        })
        read_failed s
  settle_bit r (err fault, s) = (err (bit_fault fault), s)

  -- `_bit_executor_for`
  unfoldable pub execute_bits :
      (BitReadRequest → Exec S TransportFault BitReadResponse)
      → List BitReadConfig
      → Exec S (ExecutorFault E) (List (AcquisitionResult V))
  execute_bits read_bits [] = pure []
  execute_bits read_bits (r ∷ rs) = do
    first ← λ s. settle_bit r (read_bit read_bits (build_bit_read_request r) s)
    rest ← execute_bits read_bits rs
    pure (first ++ rest)
