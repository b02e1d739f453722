-- ===== src/Runtime/Session.antt =====
-- runtime.py: `_build_plan`, which turns a configuration into the requests of a plan. What the factories of
-- transports and buses may raise is a parameter `O`.
use geopilot_hvac.Prelude.{none, List, [], ◌∷◌, ◌++◌, ℕ, Text, text, ◌==◌, Result, ok, map_err}
use geopilot_hvac.Prelude.Results.{◌>>=◌}
use geopilot_hvac.Prelude.Exec.{Exec}
use geopilot_hvac.Prelude.Numbers.{Numbers}
use geopilot_hvac.Prelude.Sort.{keep}
use geopilot_hvac.Datetime.{Datetime}
use geopilot_hvac.Domain.Observation.{Measurement}
use geopilot_hvac.Ingestion.{IngestionFault, RawMeasurement}
use geopilot_hvac.Decoder.{DecoderError}
use geopilot_hvac.Modbus.Boundary.{
  BoundaryError, ReadRequest, ReadResponse, BitReadRequest, BitReadResponse, TransportFault,
}
use geopilot_hvac.Acquisition.{AcquisitionResult}
use geopilot_hvac.Acquisition.Simulator.{ClientFault, request_table}
use geopilot_hvac.Acquisition.Runner.{
  RunnerError, AcquisitionRequest, AcquisitionPlan, acquisition_request, acquisition_plan,
}
use geopilot_hvac.OneWire.{OneWireFault, OneWireReading, OneWireBoundaryError}
use geopilot_hvac.Configuration.{each}
use geopilot_hvac.Configuration.Sections.{
  InstallationConfig, SerialSourceConfig, OneWireSourceConfig, RegisterReadConfig,
  OneWireReadConfig, BitReadConfig,
}
use geopilot_hvac.Configuration.Assembly.{
  build_read_request, build_register_definition, build_onewire_definition,
}
use geopilot_hvac.Runtime.Executors.{ExecutorFault, execute_registers, execute_probes, execute_bits}

-- what the assembly of a plan may raise
pub data AssemblyFault (O : Type 0) : Type 0 where
  open_fault : O → AssemblyFault O
  request_refused : BoundaryError → AssemblyFault O
  client_refused : ClientFault → AssemblyFault O
  register_refused : DecoderError → AssemblyFault O
  probe_refused : OneWireBoundaryError → AssemblyFault O
  runner_refused : RunnerError → AssemblyFault O

-- the transports and buses of a session
pub record Factories (V S O : Type 0) : Type 0 where
  pub transport_factory :
      SerialSourceConfig V → Result O (ReadRequest → Exec S TransportFault ReadResponse)
  pub onewire_bus_factory :
      OneWireSourceConfig → Result O (Text → Exec S OneWireFault OneWireReading)
  pub bit_transport_factory :
      SerialSourceConfig V → Result O (BitReadRequest → Exec S TransportFault BitReadResponse)

-- `(read.read_id, build_read_request(read))`
unfoldable pub named_request :
    {V O : Type 0} → RegisterReadConfig V → Result (AssemblyFault O) (Text × ReadRequest)
named_request read = do
  request ← map_err request_refused (build_read_request read)
  ok (read.read_id, request)

module _ {V S E O : Type 0} (numbers : Numbers V) (unpack_float : ℕ → ℕ → V)
    (ingest : RawMeasurement V → Exec S (IngestionFault E) (Measurement V))
    (clock utc_now : S → Datetime) (note : Text → S → S) (factories : Factories V S O) where
  -- `AcquisitionRequest(...)` of an executor
  unfoldable pub request_of :
      Text
      → Exec S (ExecutorFault E) (List (AcquisitionResult V))
      → Result (AssemblyFault O) (List (AcquisitionRequest V S (ExecutorFault E)))
  request_of id executor = do
    request ←
        map_err runner_refused
          (acquisition_request (record { request_id = id; profile_id = none; executor = executor }))
    ok (request ∷ [])

  -- a round of the loop over the sources of registers, on the reads of the source
  unfoldable pub register_request :
      SerialSourceConfig V
      → List (RegisterReadConfig V)
      → Result (AssemblyFault O) (List (AcquisitionRequest V S (ExecutorFault E)))
  register_request source [] = ok []
  register_request source (first ∷ rest) = do
    transport ← map_err open_fault (factories.transport_factory source)
    requests ← each named_request (first ∷ rest)
    table ← map_err client_refused (request_table requests [])
    definitions ←
        each
          (λ read. map_err register_refused (build_register_definition numbers unpack_float read))
          (first ∷ rest)
    request_of source.source_id (
        execute_registers numbers unpack_float ingest clock utc_now note transport table
          definitions)

  -- a round of the loop over the 1-Wire sources
  unfoldable pub probe_request :
      OneWireSourceConfig
      → List (OneWireReadConfig V)
      → Result (AssemblyFault O) (List (AcquisitionRequest V S (ExecutorFault E)))
  probe_request source [] = ok []
  probe_request source (first ∷ rest) = do
    bus ← map_err open_fault (factories.onewire_bus_factory source)
    definitions ←
        each (λ read. map_err probe_refused (build_onewire_definition read)) (first ∷ rest)
    request_of source.source_id
        (execute_probes numbers unpack_float ingest clock utc_now bus definitions)

  -- a round of the loop over the sources of bits
  unfoldable pub bit_request :
      SerialSourceConfig V
      → List BitReadConfig
      → Result (AssemblyFault O) (List (AcquisitionRequest V S (ExecutorFault E)))
  bit_request source [] = ok []
  bit_request source (first ∷ rest) = do
    transport ← map_err open_fault (factories.bit_transport_factory source)
    request_of (source.source_id ++ text ":bits")
        (execute_bits numbers unpack_float ingest clock utc_now transport (first ∷ rest))

  -- a loop that appends to `requests`
  unfoldable pub requests_of :
      {A : Type 0}
      → (A → Result (AssemblyFault O) (List (AcquisitionRequest V S (ExecutorFault E))))
      → List A
      → Result (AssemblyFault O) (List (AcquisitionRequest V S (ExecutorFault E)))
  requests_of request [] = ok []
  requests_of request (a ∷ rest) = do
    first ← request a
    later ← requests_of request rest
    ok (first ++ later)

  -- `_build_plan`
  unfoldable pub build_plan :
      InstallationConfig V → Result (AssemblyFault O) (AcquisitionPlan V S (ExecutorFault E))
  build_plan config = do
    registers ←
        requests_of
          (λ source.
            register_request source (keep (λ r. r.source_id == source.source_id) config.reads))
          config.sources
    probes ←
        requests_of
          (λ source.
            probe_request source (keep (λ r. r.source_id == source.source_id) config.onewire_reads))
          config.onewire_sources
    bits ←
        requests_of
          (λ source.
            bit_request source (keep (λ r. r.source_id == source.source_id) config.bit_reads))
          config.sources
    map_err runner_refused (
        acquisition_plan
          (record { plan_id = text "installation"; requests = registers ++ (probes ++ bits) }))
