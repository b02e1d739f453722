-- ===== src/Runtime/Assembled.antt =====
-- Each request that a session builds of a source has an executor that gives its sink what it reports.
use geopilot_hvac.Prelude.{
  is_blank, ◌≡◌, ap, ◌∙◌, Option-cases, inl, inr, none, List, [], ◌∷◌, ◌++◌, ℕ, Text, text, Dict,
  lookup, Result, ok, map_err, map, pos, subst,
}
use geopilot_hvac.Prelude.Results.{map_err_ok, ok_cancel, then_elim, raise_if_elim}
use geopilot_hvac.Prelude.Exec.{Exec, bind-lift_state}
use geopilot_hvac.Prelude.Numbers.{Numbers}
use geopilot_hvac.Datetime.{Datetime}
use geopilot_hvac.Domain.Observation.{Measurement}
use geopilot_hvac.Ingestion.{IngestionFault, RawMeasurement}
use geopilot_hvac.Decoder.{register_payload, RegisterDefinition}
use geopilot_hvac.Modbus.Boundary.{
  ReadRequest, ReadResponse, BitReadRequest, BitReadResponse, TransportFault,
}
use geopilot_hvac.Acquisition.{AcquisitionResult}
use geopilot_hvac.Acquisition.Stored.{IsKept}
use geopilot_hvac.Acquisition.Simulator.{
  payload_fault, client_fault_of, read_register, request_table,
}
use geopilot_hvac.Acquisition.Runner.{AcquisitionRequest, acquisition_request}
use geopilot_hvac.Acquisition.Runner.Counts.{IsKeeping, AreKeeping}
use geopilot_hvac.Acquisition.Runner.Reads.{acquire-IsKeeping}
use geopilot_hvac.OneWire.{OneWireFault, OneWireReading}
use geopilot_hvac.Configuration.{each}
use geopilot_hvac.Configuration.Sections.{
  SerialSourceConfig, OneWireSourceConfig, RegisterReadConfig, OneWireReadConfig, BitReadConfig,
}
use geopilot_hvac.Configuration.Assembly.{build_register_definition, build_onewire_definition}
use geopilot_hvac.Runtime.Executors.{ExecutorFault, execute_registers, service_fault}
use geopilot_hvac.Runtime.Session.{
  AssemblyFault, Factories, named_request, request_of, register_request, probe_request, bit_request,
  requests_of, open_fault, runner_refused, client_refused, register_refused, probe_refused,
}
use geopilot_hvac.Runtime.Recorded.{execute_probes-IsKeeping, execute_bits-IsKeeping}
use geopilot_hvac.Acquisition.Runner.{RunnerError}

-- The transports and buses of the factories store nothing.
pub record AreSilent {V S O K : Type 0} (sink : S → K) (factories : Factories V S O) : Type 0 where
  pub registers :
      (source : SerialSourceConfig V) (transport : ReadRequest → Exec S TransportFault ReadResponse)
      → factories.transport_factory source ≡ ok transport
      → (request : ReadRequest) (s : S) → sink (transport request s).1 ≡ sink s
  pub probes :
      (source : OneWireSourceConfig) (bus : Text → Exec S OneWireFault OneWireReading)
      → factories.onewire_bus_factory source ≡ ok bus
      → (id : Text) (s : S) → sink (bus id s).1 ≡ sink s
  pub bits :
      (source : SerialSourceConfig V)
      (transport : BitReadRequest → Exec S TransportFault BitReadResponse)
      → factories.bit_transport_factory source ≡ ok transport
      → (request : BitReadRequest) (s : S) → sink (transport request s).1 ≡ sink s

module _ {V S K : Type 0} (note : Text → S → S) (sink : S → K)
    (quiet : (id : Text) (s : S) → sink (note id s) ≡ sink s) where
  -- Reading through a transport that stores nothing stores nothing.
  read_register_silent :
      (transport : ReadRequest → Exec S TransportFault ReadResponse)
      → ((request : ReadRequest) (s : S) → sink (transport request s).1 ≡ sink s)
      → (table : Dict ReadRequest) (d : RegisterDefinition V) (s : S)
      → sink (read_register note transport table d s).1 ≡ sink s
  unfolding read_register
  read_register_silent transport silent table d s =
      elim (Option-cases (lookup d.register_id table)) [
        | inl gone ↦ rw (gone, read_register) (quiet d.register_id s)
        | inr (request, found) ↦
            rw (found, read_register)
              (ap sink (
                  bind-lift_state
                    (λ response. map_err payload_fault (
                      register_payload d.register_id (map pos response.words) response.observed_at))
                    (
                      map_err client_fault_of (transport request (note d.register_id s)).0,
                      (transport request (note d.register_id s)).1,
                    ))
                ∙ silent request (note d.register_id s)
                ∙ quiet d.register_id s)
      ]

module _ {V S F K : Type 0} (put : Measurement V → K → K) (sink : S → K) where
  pub AreKeeping-append :
      (rs qs : List (AcquisitionRequest V S F))
      → AreKeeping put sink rs
      → AreKeeping put sink qs
      → AreKeeping put sink (rs ++ qs)
  AreKeeping-append [] qs good others = others
  AreKeeping-append (r ∷ rs) qs (one, good) others = (one, AreKeeping-append rs qs good others)

module _ {V S E O K : Type 0} (numbers : Numbers V) (unpack_float : ℕ → ℕ → V)
    (ingest : RawMeasurement V → Exec S (IngestionFault E) (Measurement V))
    (clock utc_now : S → Datetime) (note : Text → S → S) (factories : Factories V S O)
    (put : Measurement V → K → K) (sink : S → K)
    (stored : (raw : RawMeasurement V) (s : S) → IsKept put sink s (ingest raw s))
    (quiet : (id : Text) (s : S) → sink (note id s) ≡ sink s)
    (silent : AreSilent sink factories) where
  execute_registers-IsKeeping :
      (transport : ReadRequest → Exec S TransportFault ReadResponse)
      → ((request : ReadRequest) (s : S) → sink (transport request s).1 ≡ sink s)
      → (table : Dict ReadRequest) (ds : List (RegisterDefinition V))
      → IsKeeping put sink
          (execute_registers numbers unpack_float ingest clock utc_now note transport table ds)
  unfolding execute_registers
  execute_registers-IsKeeping transport still table ds s qs h =
      acquire-IsKeeping numbers unpack_float ingest clock (read_register note transport table) none
        put sink stored (read_register_silent note sink quiet transport still table) ds s qs
        (map_err_ok service_fault _ h)

  request_of-AreKeeping :
      (id : Text) (executor : Exec S (ExecutorFault E) (List (AcquisitionResult V)))
      (rs : List (AcquisitionRequest V S (ExecutorFault E)))
      → IsKeeping put sink executor
      → request_of numbers unpack_float ingest clock utc_now note factories id executor ≡ ok rs
      → AreKeeping put sink rs
  unfolding request_of acquisition_request
  request_of-AreKeeping id executor rs good h =
      then_elim
        (map_err runner_refused (
          acquisition_request (record { request_id = id; profile_id = none; executor = executor })))
        h
        λ request made h.
          raise_if_elim (is_blank id) RunnerError.blank_identifier
            (map_err_ok runner_refused _ made)
            λ _ made.
              let same : record { request_id = id; profile_id = none; executor = executor }
                  ≡ request =
                ok_cancel made in
              let e : (request ∷ []) ≡ rs = ok_cancel h in
              subst (λ rs. AreKeeping put sink rs) e
                (subst
                  (λ (r : AcquisitionRequest V S (ExecutorFault E)).
                    IsKeeping put sink r.executor × Unit)
                  same (good, tt))

  pub requests_of-AreKeeping :
      {A : Type 0}
      (request : A → Result (AssemblyFault O) (List (AcquisitionRequest V S (ExecutorFault E))))
      → ((a : A) (rs : List (AcquisitionRequest V S (ExecutorFault E)))
          → request a ≡ ok rs
          → AreKeeping put sink rs)
      → (items : List A) (rs : List (AcquisitionRequest V S (ExecutorFault E)))
      → requests_of numbers unpack_float ingest clock utc_now note factories request items ≡ ok rs
      → AreKeeping put sink rs
  unfolding requests_of
  requests_of-AreKeeping request each_stores [] rs h =
      let e : (let l : List (AcquisitionRequest V S (ExecutorFault E)) = [] in l) ≡ rs =
        ok_cancel h in
      subst (λ rs. AreKeeping put sink rs) e tt
  requests_of-AreKeeping request each_stores (a ∷ items) rs h =
      then_elim (request a) h λ first one h.
        then_elim
          (requests_of numbers unpack_float ingest clock utc_now note factories request items) h
          λ later others h.
            let e : first ++ later ≡ rs = ok_cancel h in
            subst (λ rs. AreKeeping put sink rs) e
              (AreKeeping-append put sink first later (each_stores a first one)
                (requests_of-AreKeeping request each_stores items later others))

  -- what a round of one of the loops gives
  abbrev Stores :
      Result (AssemblyFault O) (List (AcquisitionRequest V S (ExecutorFault E))) → Type 0
  Stores call =
      (rs : List (AcquisitionRequest V S (ExecutorFault E))) → call ≡ ok rs → AreKeeping put sink rs

  none-Stores : Stores (ok [])
  none-Stores rs h =
      let e : (let l : List (AcquisitionRequest V S (ExecutorFault E)) = [] in l) ≡ rs =
        ok_cancel h in
      subst (λ rs. AreKeeping put sink rs) e tt

  pub register_request-Stores :
      (source : SerialSourceConfig V) (reads : List (RegisterReadConfig V))
      → Stores
          (register_request numbers unpack_float ingest clock utc_now note factories source reads)
  unfolding register_request
  register_request-Stores source [] rs h = none-Stores rs h
  register_request-Stores source (read ∷ reads) rs h =
      then_elim (map_err open_fault (factories.transport_factory source)) h λ transport opened h.
        then_elim (each named_request (read ∷ reads)) h λ requests _ h.
          then_elim (map_err client_refused (request_table requests [])) h λ table _ h.
            then_elim
              (each
                (λ read.
                  map_err register_refused (build_register_definition numbers unpack_float read))
                (read ∷ reads))
              h
              λ definitions _ h.
                request_of-AreKeeping source.source_id _ rs
                  (execute_registers-IsKeeping transport
                    (silent.registers source transport (map_err_ok open_fault _ opened)) table
                    definitions)
                  h

  pub probe_request-Stores :
      (source : OneWireSourceConfig) (reads : List (OneWireReadConfig V))
      → Stores (probe_request numbers unpack_float ingest clock utc_now note factories source reads)
  unfolding probe_request
  probe_request-Stores source [] rs h = none-Stores rs h
  probe_request-Stores source (read ∷ reads) rs h =
      then_elim (map_err open_fault (factories.onewire_bus_factory source)) h λ bus opened h.
        then_elim
          (each (λ read. map_err probe_refused (build_onewire_definition read)) (read ∷ reads)) h
          λ definitions _ h.
            request_of-AreKeeping source.source_id _ rs
              (execute_probes-IsKeeping numbers unpack_float ingest clock utc_now put sink stored
                bus (silent.probes source bus (map_err_ok open_fault _ opened)) definitions)
              h

  pub bit_request-Stores :
      (source : SerialSourceConfig V) (reads : List BitReadConfig)
      → Stores (bit_request numbers unpack_float ingest clock utc_now note factories source reads)
  unfolding bit_request
  bit_request-Stores source [] rs h = none-Stores rs h
  bit_request-Stores source (read ∷ reads) rs h =
      then_elim (map_err open_fault (factories.bit_transport_factory source)) h
        λ transport opened h.
          request_of-AreKeeping (source.source_id ++ text ":bits") _ rs
            (execute_bits-IsKeeping numbers unpack_float ingest clock utc_now put sink stored
              transport (silent.bits source transport (map_err_ok open_fault _ opened))
              (read ∷ reads))
            h
