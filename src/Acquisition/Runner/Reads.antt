-- ===== src/Acquisition/Runner/Reads.antt =====
-- The executor of a source's registers, `SimulatedModbusAcquisitionService.acquire`, gives its sink what it reports.
use geopilot_hvac.Prelude.{
  ℕ, ◌≡◌, refl, ap, ◌∙◌, Option-cases, inl, inr, Option, List, [], ◌∷◌, Text, Result, ok, err,
  map_err,
}
use geopilot_hvac.Prelude.Results.{map_err_ok, ok_cancel}
use geopilot_hvac.Prelude.Exec.{Exec, bind_ok, bind_then}
use geopilot_hvac.Prelude.Numbers.{Numbers}
use geopilot_hvac.Datetime.{Datetime}
use geopilot_hvac.Domain.Observation.{Measurement}
use geopilot_hvac.Ingestion.{IngestionFault, RawMeasurement}
use geopilot_hvac.Decoder.{DecoderError, RegisterDefinition, RegisterPayload, decode}
use geopilot_hvac.Acquisition.{
  AcquisitionErrorCode, AcquisitionContext, AcquisitionFault, AcquisitionResult, failure,
  decode_failed, stamped, successful_measurements, ingest_raw_measurements,
}
use geopilot_hvac.Acquisition.Stored.{put_all, IsKept, stamped_ok, all_kept}
use geopilot_hvac.Acquisition.Simulator.{
  ClientFault, simulator_error, transport_fault, payload_fault, ServiceFault, pipeline_fault,
  pipeline_failure, ingest_decoded, decode_and_ingest, context_from_definition,
  read_decode_and_ingest, acquire, uncaught,
}
use geopilot_hvac.Acquisition.Runner.Counts.{IsKeeping, both-IsKeeping}
use geopilot_hvac.Acquisition.Simulator.{read_payload}
use geopilot_hvac.Prelude.Dicts.{Dict}
use geopilot_hvac.Prelude.Dicts.{lookup}

module _ {V S E K : Type 0} (put : Measurement V → K → K) (sink : S → K)
    (clock : S → Datetime) where
  pipeline_failure-IsKeeping :
      (context : AcquisitionContext) (code : AcquisitionErrorCode)
      → IsKeeping put sink (pipeline_failure {E = E} clock context code)
  unfolding pipeline_failure successful_measurements
  pipeline_failure-IsKeeping context code s qs h =
      let x : Result (AcquisitionFault E) (AcquisitionResult V) =
        stamped (clock s) (failure context code (clock s)) in
      let (q, stamp, last) =
        bind_ok (λ q t. (ok (q ∷ []), t)) (map_err (λ e. pipeline_fault e) x, s) h in
      let same =
        stamped_ok (clock s) (failure context code (clock s)) (map_err_ok pipeline_fault x stamp) in
      ap (λ (y : Result (ServiceFault E) (List (AcquisitionResult V)) × S). sink y.1)
        (bind_then (λ q t. (ok (q ∷ []), t)) (map_err (λ e. pipeline_fault e) x, s) stamp)
      ∙ ap (λ (l : List (AcquisitionResult V)). put_all put (successful_measurements l) (sink s))
          (ap (λ (r : AcquisitionResult V). r ∷ []) same ∙ ok_cancel last)

module _ {V S E K : Type 0} (numbers : Numbers V) (unpack_float : ℕ → ℕ → V)
    (ingest : RawMeasurement V → Exec S (IngestionFault E) (Measurement V)) (clock : S → Datetime)
    (read : RegisterDefinition V → Exec S ClientFault RegisterPayload) (profile_id : Option Text)
    (put : Measurement V → K → K) (sink : S → K)
    (stored : (raw : RawMeasurement V) (s : S) → IsKept put sink s (ingest raw s))
    (silent : (d : RegisterDefinition V) (s : S) → sink (read d s).1 ≡ sink s) where
  ingest_decoded-IsKeeping :
      (context : AcquisitionContext) (r : Result DecoderError (RawMeasurement V))
      → IsKeeping put sink
          (ingest_decoded numbers unpack_float ingest clock read context profile_id r)
  unfolding ingest_decoded
  ingest_decoded-IsKeeping context (ok raw) s qs h =
      (all_kept put sink ingest clock profile_id stored (raw ∷ []) s (
        map_err_ok pipeline_fault (ingest_raw_measurements ingest clock profile_id (raw ∷ []) s).0
          h)).1
  ingest_decoded-IsKeeping context (err e) s qs h = elim (Option-cases (uncaught e)) [
    | inl caught ↦
        rw (caught, ingest_decoded)
          (pipeline_failure-IsKeeping put sink clock context decode_failed s qs
            (rw (caught, ingest_decoded) at h))
    | inr (raised, other) ↦ let bad = rw (other, ingest_decoded) at h in cc bad
  ]

  decode_and_ingest_storing :
      (context : AcquisitionContext) (d : RegisterDefinition V) (s : S)
      (x : Result ClientFault RegisterPayload × S) (qs : List (AcquisitionResult V))
      → sink x.1 ≡ sink s
      → (decode_and_ingest numbers unpack_float ingest clock read context profile_id d x).0 ≡ ok qs
      → sink (decode_and_ingest numbers unpack_float ingest clock read context profile_id d x).1
        ≡ put_all put (successful_measurements qs) (sink s)
  unfolding decode_and_ingest
  decode_and_ingest_storing context d s (ok payload, t) qs kept h =
      ingest_decoded-IsKeeping context (decode numbers unpack_float d payload) t qs h
      ∙ ap (put_all put (successful_measurements qs)) kept
  decode_and_ingest_storing context d s (err (simulator_error code), t) qs kept h =
      pipeline_failure-IsKeeping put sink clock context code t qs h
      ∙ ap (put_all put (successful_measurements qs)) kept
  decode_and_ingest_storing context d s (err (transport_fault _), t) qs kept h = cc h
  decode_and_ingest_storing context d s (err (payload_fault _), t) qs kept h = cc h

  read_decode_and_ingest-IsKeeping :
      (d : RegisterDefinition V)
      → IsKeeping put sink
          (read_decode_and_ingest numbers unpack_float ingest clock read profile_id d)
  unfolding read_decode_and_ingest
  read_decode_and_ingest-IsKeeping d s qs h =
      let f = λ (c : AcquisitionContext) (t : S).
        decode_and_ingest numbers unpack_float ingest clock read c profile_id d (read d t) in
      let (c, made, rest) = bind_ok f (context_from_definition {E = E} profile_id d, s) h in
      ap (λ (x : Result (ServiceFault E) (List (AcquisitionResult V)) × S). sink x.1)
        (bind_then f (context_from_definition {E = E} profile_id d, s) made)
      ∙ decode_and_ingest_storing c d s (read d s) qs (silent d s) rest

  pub acquire-IsKeeping :
      (ds : List (RegisterDefinition V))
      → IsKeeping put sink (acquire numbers unpack_float ingest clock read profile_id ds)
  unfolding acquire successful_measurements
  acquire-IsKeeping [] s [] h = refl
  acquire-IsKeeping [] s (q ∷ qs) h = cc h
  acquire-IsKeeping (d ∷ ds) s qs h =
      both-IsKeeping put sink
        (read_decode_and_ingest numbers unpack_float ingest clock read profile_id d)
        (acquire numbers unpack_float ingest clock read profile_id ds)
        (read_decode_and_ingest-IsKeeping d) (acquire-IsKeeping ds) s qs h

module _ {V S K : Type 0} (note : Text → S → S) (sink : S → K)
    (quiet : (id : Text) (s : S) → sink (note id s) ≡ sink s) where
  -- Reading from the in-memory client stores nothing.
  pub read_payload_silent :
      (table : Dict RegisterPayload) (d : RegisterDefinition V) (s : S)
      → sink (read_payload note table d s).1 ≡ sink s
  unfolding read_payload
  read_payload_silent table d s = elim (Option-cases (lookup d.register_id table)) [
    | inl gone ↦ rw (gone, read_payload) (quiet d.register_id s)
    | inr (payload, found) ↦ rw (found, read_payload) (quiet d.register_id s)
  ]
