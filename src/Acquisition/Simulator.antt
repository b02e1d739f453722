-- ===== src/Acquisition/Simulator.antt =====
-- backend/src/geopilot/modbus_simulator.py: register clients, and the service that turns what they read into
-- acquisition results. The state `S` holds the devices, the sink and the clients' records.
pub mod Service
pub mod Tests
use geopilot_hvac.Prelude.{
  ℕ, not, Option, none, some, List, [], ◌∷◌, ◌++◌, ℤ, pos, map, Text, ◌==◌, is_blank, Dict, lookup,
  insert, Result, ok, err, map_err, if◌then◌else◌,
}
use geopilot_hvac.Prelude.Exec.{Exec, lift, pure, raise, modify, ◌>>=◌, ◌>>◌}
use geopilot_hvac.Prelude.Numbers.{Numbers}
use geopilot_hvac.Datetime.{Datetime}
use geopilot_hvac.Domain.Observation.{Measurement}
use geopilot_hvac.Ingestion.{IngestionError, IngestionFault, RawMeasurement}
use geopilot_hvac.Decoder.{
  DecoderError, RegisterDefinition, RegisterPayload, register_payload, decode,
}
use geopilot_hvac.Decoder
use geopilot_hvac.Modbus.Boundary.{
  ReadRequest, ReadResponse, TransportFault, transport_error, TransportErrorCode, timeout,
  connection_failed, invalid_response, illegal_function, illegal_address, device_failure, unknown,
}
use geopilot_hvac.Acquisition.{
  AcquisitionErrorCode, read_failed, partial_read, decode_failed, profile_incomplete,
  AcquisitionContext, acquisition_context, AcquisitionFault, result_error, AcquisitionResult,
  failure, stamped, ingest_raw_measurements,
}

-- What a client may raise: `ModbusSimulatorError` with its acquisition code, or what it does not catch.
pub data ClientFault : Type 0 where
  simulator_error : AcquisitionErrorCode → ClientFault
  transport_fault : TransportFault → ClientFault
  payload_fault : DecoderError → ClientFault

-- What the service may raise: what the pipeline raises, and what neither `except` catches.
pub data ServiceFault (E : Type 0) : Type 0 where
  pipeline_fault : AcquisitionFault E → ServiceFault E
  client_fault : ClientFault → ServiceFault E
  raw_fault : IngestionError → ServiceFault E

-- `_acquisition_code_from_transport_error`
unfoldable pub code_from_transport : TransportErrorCode → AcquisitionErrorCode
code_from_transport invalid_response = partial_read
code_from_transport timeout = read_failed
code_from_transport connection_failed = read_failed
code_from_transport illegal_function = read_failed
code_from_transport illegal_address = read_failed
code_from_transport device_failure = read_failed
code_from_transport unknown = read_failed

-- the loop of `SimulatedModbusRegisterClient.__init__`
unfoldable pub payload_table :
    List RegisterPayload → Dict RegisterPayload → Result ClientFault (Dict RegisterPayload)
payload_table [] table = ok table
payload_table (p ∷ ps) table =
    let rest = payload_table ps (insert p.register_id p table) in
    elim (lookup p.register_id table) [ some _ ↦ err (simulator_error read_failed) | none ↦ rest ]

-- the loop of `TransportBackedSimulatedModbusRegisterClient.__init__`
unfoldable pub request_table :
    List (Text × ReadRequest) → Dict ReadRequest → Result ClientFault (Dict ReadRequest)
request_table [] table = ok table
request_table ((id, request) ∷ rs) table =
    let rest = request_table rs (insert id request table) in
    if is_blank id
    then err (simulator_error read_failed)
    else elim (lookup id table) [ some _ ↦ err (simulator_error read_failed) | none ↦ rest ]

-- `except ModbusTransportError` in `read_register`
unfoldable pub client_fault_of : TransportFault → ClientFault
client_fault_of (transport_error e) = simulator_error (code_from_transport e.code)
client_fault_of fault = transport_fault fault

module _ {V S : Type 0} (note : Text → S → S) where
  -- `SimulatedModbusRegisterClient.read_register`; `note` adds an id to `_read_register_ids`
  unfoldable pub read_payload :
      Dict RegisterPayload → RegisterDefinition V → Exec S ClientFault RegisterPayload
  read_payload table d = do
    modify (note d.register_id)
    elim (lookup d.register_id table) [
      | none ↦ raise (simulator_error read_failed)
      | some payload ↦ pure payload
    ]

  -- `TransportBackedSimulatedModbusRegisterClient.read_register`
  unfoldable pub read_register :
      (ReadRequest → Exec S TransportFault ReadResponse)
      → Dict ReadRequest
      → RegisterDefinition V
      → Exec S ClientFault RegisterPayload
  read_register read_registers table d = do
    modify (note d.register_id)
    request ← elim (lookup d.register_id table) [
      | none ↦ raise (simulator_error profile_incomplete)
      | some request ↦ pure request
    ]
    response ← λ s. let (r, s') = read_registers request s in (map_err client_fault_of r, s')
    lift (
        map_err payload_fault
          (register_payload d.register_id (map pos response.words) response.observed_at))

-- what `except RegisterDecoderError` around `decode` does not catch: what `RawMeasurement` raises
unfoldable pub uncaught : DecoderError → Option IngestionError
uncaught (Decoder.ingestion_error e) = some e
uncaught _ = none

module _ {V S E : Type 0} (clock : S → Datetime) where
  -- `pipeline.failure(...)`, alone in the results
  unfoldable pub pipeline_failure :
      AcquisitionContext
      → AcquisitionErrorCode
      → Exec S (ServiceFault E) (List (AcquisitionResult V))
  pipeline_failure context code = do
    result ← λ s. (map_err pipeline_fault (stamped (clock s) (failure context code (clock s))), s)
    pure (result ∷ [])

-- `context_from_definition`
abbrev pub context_from_definition :
    {V E : Type 0} → Option Text → RegisterDefinition V → Result (ServiceFault E) AcquisitionContext
context_from_definition profile_id d =
    map_err (λ e. pipeline_fault (result_error e))
      (acquisition_context (record {
        source_id = d.source_id;
        profile_id = profile_id;
        register_id = some d.register_id;
        sensor_id = some d.sensor_id;
      }))

module _ {V S E : Type 0} (numbers : Numbers V) (unpack_float : ℕ → ℕ → V)
    (ingest : RawMeasurement V → Exec S (IngestionFault E) (Measurement V)) (clock : S → Datetime)
    (read : RegisterDefinition V → Exec S ClientFault RegisterPayload) where
  -- the last part of `_read_decode_and_ingest`, on what `decode` made
  unfoldable pub ingest_decoded :
      AcquisitionContext
      → Option Text
      → Result DecoderError (RawMeasurement V)
      → Exec S (ServiceFault E) (List (AcquisitionResult V))
  ingest_decoded context profile_id (ok raw) = λ s.
      let (r, s') = ingest_raw_measurements ingest clock profile_id (raw ∷ []) s in
      (map_err pipeline_fault r, s')
  ingest_decoded context profile_id (err e) = elim (uncaught e) [
    | some fault ↦ raise (raw_fault fault)
    | none ↦ pipeline_failure clock context decode_failed
  ]

  -- the part of `_read_decode_and_ingest` after the read
  unfoldable pub decode_and_ingest :
      AcquisitionContext
      → Option Text
      → RegisterDefinition V
      → Result ClientFault RegisterPayload × S
      → Result (ServiceFault E) (List (AcquisitionResult V)) × S
  decode_and_ingest context profile_id d (ok payload, s) =
      ingest_decoded context profile_id (decode numbers unpack_float d payload) s
  decode_and_ingest context profile_id d (err (simulator_error code), s) =
      pipeline_failure clock context code s
  decode_and_ingest context profile_id d (err (transport_fault fault), s) =
      (err (client_fault (transport_fault fault)), s)
  decode_and_ingest context profile_id d (err (payload_fault fault), s) =
      (err (client_fault (payload_fault fault)), s)

  -- `_read_decode_and_ingest`
  unfoldable pub read_decode_and_ingest :
      Option Text → RegisterDefinition V → Exec S (ServiceFault E) (List (AcquisitionResult V))
  read_decode_and_ingest profile_id d = do
    context ← lift (context_from_definition profile_id d)
    λ s. decode_and_ingest context profile_id d (read d s)

  -- `acquire`
  unfoldable pub acquire :
      Option Text
      → List (RegisterDefinition V)
      → Exec S (ServiceFault E) (List (AcquisitionResult V))
  acquire profile_id [] = pure []
  acquire profile_id (d ∷ ds) = do
    first ← read_decode_and_ingest profile_id d
    rest ← acquire profile_id ds
    pure (first ++ rest)
