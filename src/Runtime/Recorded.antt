-- ===== src/Runtime/Recorded.antt =====
-- The executors of a session give its sink what they report as successes.
use geopilot_hvac.Prelude.{
  ◌≡◌, refl, sym, ap, ◌∙◌, Option-cases, inl, inr, none, List, [], ◌∷◌, ℕ, Text, Result, ok, err,
  map_err,
}
use geopilot_hvac.Prelude.Results.{map_err_ok, ok_cancel, then_elim}
use geopilot_hvac.Prelude.Exec.{bind-lift_state, Exec}
use geopilot_hvac.Prelude.Numbers.{Numbers}
use geopilot_hvac.Datetime.{Datetime}
use geopilot_hvac.Domain.{good}
use geopilot_hvac.Domain.Observation.{Measurement}
use geopilot_hvac.Ingestion.{raw_measurement, IngestionError, IngestionFault, RawMeasurement}
use geopilot_hvac.Modbus.Boundary.{
  BoundaryError, BitReadRequest, BitReadResponse, TransportFault, transport_error, index_fault,
}
use geopilot_hvac.Acquisition.{
  AcquisitionErrorCode, AcquisitionContext, acquisition_context, AcquisitionFault, result_error,
  AcquisitionResult, failure, stamped, successful_measurements,
}
use geopilot_hvac.Acquisition.Stored.{put_all, IsKept, stamped_ok, all_kept}
use geopilot_hvac.Acquisition.Runner.Counts.{IsKeeping, both-IsKeeping}
use geopilot_hvac.OneWire
use geopilot_hvac.OneWire.{
  OneWireFault, OneWireReading, SensorDefinition, one_wire_error, boundary, ingestion_error,
  read_raw_measurement,
}
use geopilot_hvac.Configuration.Sections.{BitReadConfig}
use geopilot_hvac.Configuration.Assembly.{build_bit_read_request}
use geopilot_hvac.Runtime.Executors.{
  pipeline_fault, failed_result, failed, asserted_bit, ingested, settle_probe, execute_probes,
  bit_measurement, ingest_bit, settle_bit, read_bit, execute_bits,
}

failed_result_ok :
    {V E : Type 0} (context : AcquisitionContext) (code : AcquisitionErrorCode) (at : Datetime)
    (qs : List (AcquisitionResult V))
    → (let r : Result (AcquisitionFault E) (List (AcquisitionResult V)) =
          failed_result context code at in
        r)
      ≡ ok qs
    → successful_measurements qs ≡ []
unfolding failed_result successful_measurements
failed_result_ok {V = V} {E = E} context code at qs h =
    then_elim (map_err result_error (acquisition_context context)) h λ c _ h.
      then_elim (stamped {V = V} {E = E} at (failure c code at)) h λ q stamp h.
        ap successful_measurements (sym (ok_cancel h))
        ∙ ap (λ q. successful_measurements (q ∷ [])) (sym (stamped_ok at (failure c code at) stamp))

module _ {V S E K : Type 0} (numbers : Numbers V) (unpack_float : ℕ → ℕ → V)
    (ingest : RawMeasurement V → Exec S (IngestionFault E) (Measurement V))
    (clock utc_now : S → Datetime) (put : Measurement V → K → K) (sink : S → K)
    (stored : (raw : RawMeasurement V) (s : S) → IsKept put sink s (ingest raw s)) where
  failed-IsKeeping :
      (context : AcquisitionContext) (code : AcquisitionErrorCode)
      → IsKeeping put sink (failed numbers unpack_float ingest clock utc_now context code)
  unfolding failed
  failed-IsKeeping context code s qs h =
      ap (λ l. put_all put l (sink s))
        (sym (failed_result_ok context code (utc_now s) qs (map_err_ok pipeline_fault _ h)))

  ingested-IsKeeping :
      (raw : RawMeasurement V)
      → IsKeeping put sink (ingested numbers unpack_float ingest clock utc_now raw)
  unfolding ingested
  ingested-IsKeeping raw s qs h =
      (all_kept put sink ingest clock none stored (raw ∷ []) s (map_err_ok pipeline_fault _ h)).1

  settle_probe_storing :
      (d : SensorDefinition V) (s : S) (x : Result OneWireFault (RawMeasurement V) × S)
      (qs : List (AcquisitionResult V))
      → sink x.1 ≡ sink s
      → (settle_probe numbers unpack_float ingest clock utc_now d x).0 ≡ ok qs
      → sink (settle_probe numbers unpack_float ingest clock utc_now d x).1
        ≡ put_all put (successful_measurements qs) (sink s)
  unfolding settle_probe
  settle_probe_storing d s (ok raw, t) qs kept h =
      ingested-IsKeeping raw t qs h ∙ ap (put_all put (successful_measurements qs)) kept
  settle_probe_storing d s (err (one_wire_error e), t) qs kept h =
      failed-IsKeeping _ _ t qs h ∙ ap (put_all put (successful_measurements qs)) kept
  settle_probe_storing d s (err (OneWireFault.boundary _), t) qs kept h = cc h
  settle_probe_storing d s (err (OneWireFault.ingestion_error _), t) qs kept h = cc h

  ingest_bit-IsKeeping :
      (raw : Result IngestionError (RawMeasurement V))
      → IsKeeping put sink (ingest_bit numbers unpack_float ingest clock utc_now raw)
  unfolding ingest_bit
  ingest_bit-IsKeeping (ok raw) s qs h = ingested-IsKeeping raw s qs h
  ingest_bit-IsKeeping (err e) s qs h = cc h

  settle_bit_storing :
      (r : BitReadConfig) (s : S) (x : Result TransportFault BitReadResponse × S)
      (qs : List (AcquisitionResult V))
      → sink x.1 ≡ sink s
      → (settle_bit numbers unpack_float ingest clock utc_now r x).0 ≡ ok qs
      → sink (settle_bit numbers unpack_float ingest clock utc_now r x).1
        ≡ put_all put (successful_measurements qs) (sink s)
  unfolding settle_bit
  settle_bit_storing r s (ok response, t) qs kept h =
      elim (Option-cases (asserted_bit r.inverted response.bits)) [
        | inl empty ↦ let bad = rw (empty, settle_bit) at h in cc bad
        | inr (asserted, e) ↦
            rw (e, settle_bit)
              (ingest_bit-IsKeeping (bit_measurement numbers r asserted response.observed_at) t qs
                  (rw (e, settle_bit) at h)
                ∙ ap (put_all put (successful_measurements qs)) kept)
      ]
  settle_bit_storing r s (err (transport_error e), t) qs kept h =
      failed-IsKeeping _ _ t qs h ∙ ap (put_all put (successful_measurements qs)) kept
  settle_bit_storing r s (err (TransportFault.boundary _), t) qs kept h = cc h
  settle_bit_storing r s (err index_fault, t) qs kept h = cc h

  -- Reading a probe stores nothing, where reading the bus stores nothing.
  read_raw_measurement_silent :
      (read : Text → Exec S OneWireFault OneWireReading)
      → ((id : Text) (s : S) → sink (read id s).1 ≡ sink s)
      → (d : SensorDefinition V) (s : S) → sink (read_raw_measurement numbers read d s).1 ≡ sink s
  unfolding read_raw_measurement
  read_raw_measurement_silent read silent d s =
      ap sink (
        bind-lift_state
          (λ reading. map_err ingestion_error (
            raw_measurement numbers (record {
              source_id = d.source_id;
              sensor_id = d.sensor_id;
              value = numbers.plus (OneWire.celsius numbers read reading) d.offset_celsius;
              unit = d.unit;
              timestamp = reading.observed_at;
              quality = good;
              metadata = [];
            })))
          (read d.device_id s))
      ∙ silent d.device_id s

  pub execute_probes-IsKeeping :
      (read : Text → Exec S OneWireFault OneWireReading)
      → ((id : Text) (s : S) → sink (read id s).1 ≡ sink s)
      → (ds : List (SensorDefinition V))
      → IsKeeping put sink (execute_probes numbers unpack_float ingest clock utc_now read ds)
  unfolding execute_probes successful_measurements
  execute_probes-IsKeeping read silent [] s [] h = refl
  execute_probes-IsKeeping read silent [] s (q ∷ qs) h = cc h
  execute_probes-IsKeeping read silent (d ∷ ds) s qs h =
      both-IsKeeping put sink
        (λ s.
          settle_probe numbers unpack_float ingest clock utc_now d
            (read_raw_measurement numbers read d s))
        (execute_probes numbers unpack_float ingest clock utc_now read ds)
        (λ s qs h. settle_probe_storing d s _ qs (read_raw_measurement_silent read silent d s) h)
        (execute_probes-IsKeeping read silent ds) s qs h

  read_bit_silent :
      (read_bits : BitReadRequest → Exec S TransportFault BitReadResponse)
      → ((request : BitReadRequest) (s : S) → sink (read_bits request s).1 ≡ sink s)
      → (request : Result BoundaryError BitReadRequest) (s : S)
      → sink (read_bit read_bits request s).1 ≡ sink s
  unfolding read_bit
  read_bit_silent read_bits silent (ok request) s = silent request s
  read_bit_silent read_bits silent (err e) s = refl

  pub execute_bits-IsKeeping :
      (read_bits : BitReadRequest → Exec S TransportFault BitReadResponse)
      → ((request : BitReadRequest) (s : S) → sink (read_bits request s).1 ≡ sink s)
      → (rs : List BitReadConfig)
      → IsKeeping put sink (execute_bits numbers unpack_float ingest clock utc_now read_bits rs)
  unfolding execute_bits successful_measurements
  execute_bits-IsKeeping read_bits silent [] s [] h = refl
  execute_bits-IsKeeping read_bits silent [] s (q ∷ qs) h = cc h
  execute_bits-IsKeeping read_bits silent (r ∷ rs) s qs h =
      both-IsKeeping put sink
        (λ s.
          settle_bit numbers unpack_float ingest clock utc_now r
            (read_bit read_bits (build_bit_read_request r) s))
        (execute_bits numbers unpack_float ingest clock utc_now read_bits rs)
        (λ s qs h.
          settle_bit_storing r s _ qs
            (read_bit_silent read_bits silent (build_bit_read_request r) s) h)
        (execute_bits-IsKeeping read_bits silent rs) s qs h
