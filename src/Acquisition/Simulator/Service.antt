-- ===== src/Acquisition/Simulator/Service.antt =====
-- The service gives one result for each register, which names it.
use geopilot_hvac.Prelude.{
  ◌≡◌, refl, sym, ap, ◌∙◌, arith, Option-cases, inl, inr, Option, some, List, [], ◌∷◌, ◌++◌, Text,
  Result, ok, err, map_err, ℕ,
}
use geopilot_hvac.Prelude.Results.{map_err_ok, ok_cancel}
use geopilot_hvac.Prelude.Exec.{Exec, bind, bind_ok}
use geopilot_hvac.Prelude.Numbers.{Numbers}
use geopilot_hvac.Datetime.{Datetime}
use geopilot_hvac.Domain.Observation.{Measurement}
use geopilot_hvac.Ingestion.{IngestionFault, RawMeasurement}
use geopilot_hvac.Decoder.{DecoderError, RegisterDefinition, RegisterPayload, decode}
use geopilot_hvac.Decoder.Words.{decode_fields, decode_metadata}
use geopilot_hvac.Acquisition.{
  AcquisitionErrorCode, decode_failed, AcquisitionContext, acquisition_context, AcquisitionResult,
  success, failure, stamped, settle, acquire_one, ingest_raw_measurements, context_from_raw,
  caught_code, register_id_of, AcquisitionResultError,
}
use geopilot_hvac.Acquisition.Stored.{stamped_ok}
use geopilot_hvac.Acquisition.Simulator.{
  ClientFault, simulator_error, transport_fault, payload_fault, ServiceFault, pipeline_failure,
  ingest_decoded, decode_and_ingest, context_from_definition, read_decode_and_ingest, acquire,
  uncaught,
}
use geopilot_hvac.Prelude.Strings.{◌==◌}
use geopilot_hvac.Acquisition.{result_error}
use geopilot_hvac.Acquisition.Simulator.{pipeline_fault}
use geopilot_hvac.Prelude.{subst}

-- what an acquisition was of
abbrev pub context_of : {V : Type 0} → AcquisitionResult V → AcquisitionContext
context_of (success context _ _) = context
context_of (failure context _ _) = context

acquisition_context_same : (c c' : AcquisitionContext) → acquisition_context c ≡ ok c' → c ≡ c'
unfolding acquisition_context
acquisition_context_same c c' h = ground arith

module _ {V S E : Type 0} (ingest : RawMeasurement V → Exec S (IngestionFault E) (Measurement V))
    (clock : S → Datetime) where
  settle_context :
      (context : AcquisitionContext) (x : Result (IngestionFault E) (Measurement V) × S)
      {q : AcquisitionResult V}
      → (settle ingest clock context x).0 ≡ ok q
      → context ≡ context_of q
  unfolding settle
  settle_context context (ok m, s) h =
      ap context_of (stamped_ok (clock s) (success context m (clock s)) h)
  settle_context context (err fault, s) h = elim (Option-cases (caught_code fault)) [
    | inl none_caught ↦ let bad = rw (none_caught, settle) at h in cc bad
    | inr (code, caught) ↦
        ap context_of
          (stamped_ok (clock s) (failure context code (clock s)) (rw (caught, settle) at h))
  ]

  acquire_one_context :
      (profile_id : Option Text) (raw : RawMeasurement V) (s : S) {q : AcquisitionResult V}
      → (acquire_one ingest clock profile_id raw s).0 ≡ ok q
      → context_from_raw profile_id raw ≡ ok (context_of q)
  unfolding acquire_one
  acquire_one_context profile_id raw s h =
      let (context, made, settled) =
        bind_ok (λ c t. settle ingest clock c (ingest raw t))
          (map_err result_error (context_from_raw profile_id raw), s) h in
      map_err_ok result_error (context_from_raw profile_id raw) made
      ∙ ap (λ (c : AcquisitionContext). ok c) (settle_context context (ingest raw s) settled)

  single_lem :
      (profile_id : Option Text) (raw : RawMeasurement V) (s : S) {qs : List (AcquisitionResult V)}
      → (ingest_raw_measurements ingest clock profile_id (raw ∷ []) s).0 ≡ ok qs
      → (q : AcquisitionResult V) × (qs ≡ q ∷ [])
        × (context_from_raw profile_id raw ≡ ok (context_of q))
  unfolding ingest_raw_measurements
  single_lem profile_id raw s h =
      let (q, one, rest) =
        bind_ok (λ q t. (ok (q ∷ []), t)) (acquire_one ingest clock profile_id raw s) h in
      (q, sym (ok_cancel rest), acquire_one_context profile_id raw s one)

failure_lem :
    {V S E : Type 0} (clock : S → Datetime) (context : AcquisitionContext)
    (code : AcquisitionErrorCode) (s : S) {qs : List (AcquisitionResult V)}
    → (pipeline_failure {E = E} clock context code s).0 ≡ ok qs
    → (q : AcquisitionResult V) × (qs ≡ q ∷ []) × (context ≡ context_of q)
unfolding pipeline_failure
failure_lem {E = E} clock context code s h =
    let (q, stamp, rest) =
      bind_ok (λ q t. (ok (q ∷ []), t))
        (map_err pipeline_fault (stamped {E = E} (clock s) (failure context code (clock s))), s)
        h in
    (
      q,
      sym (ok_cancel rest),
      ap context_of (
          stamped_ok (clock s) (failure context code (clock s)) (
            map_err_ok pipeline_fault (stamped {E = E} (clock s) (failure context code (clock s)))
              stamp)),
    )

-- the context of a definition
abbrev pub own_context : {V : Type 0} → Option Text → RegisterDefinition V → AcquisitionContext
own_context profile_id d = record {
  source_id = d.source_id;
  profile_id = profile_id;
  register_id = some d.register_id;
  sensor_id = some d.sensor_id;
}

-- One result for each definition, in order, each with the context of its definition.
abbrev pub AreOwn :
    {V : Type 0} → Option Text → List (RegisterDefinition V) → List (AcquisitionResult V) → Type 0
AreOwn profile_id [] [] = Unit
AreOwn profile_id [] (q ∷ qs) = ⊥
AreOwn profile_id (d ∷ ds) [] = ⊥
AreOwn profile_id (d ∷ ds) (q ∷ qs) =
    (context_of q ≡ own_context profile_id d) × AreOwn profile_id ds qs

module _ {V S E : Type 0} (numbers : Numbers V) (unpack_float : ℕ → ℕ → V)
    (ingest : RawMeasurement V → Exec S (IngestionFault E) (Measurement V)) (clock : S → Datetime)
    (read : RegisterDefinition V → Exec S ClientFault RegisterPayload)
    (profile_id : Option Text) where
  -- the results of one definition
  abbrev IsOwn : RegisterDefinition V → List (AcquisitionResult V) → Type 0
  IsOwn d qs = (q : AcquisitionResult V) × (qs ≡ q ∷ []) × (context_of q ≡ own_context profile_id d)

  decoded_context :
      (d : RegisterDefinition V) (payload : RegisterPayload) (raw : RawMeasurement V)
      (c : AcquisitionContext)
      → decode numbers unpack_float d payload ≡ ok raw
      → context_from_raw profile_id raw ≡ ok c
      → c ≡ own_context profile_id d
  unfolding context_from_raw register_id_of ◌==◌
  decoded_context d payload raw c e h =
      let (_, _, _, _, source, sensor, _, _) = decode_fields numbers unpack_float d payload raw e in
      let metadata = decode_metadata numbers unpack_float d payload raw e in
      sym
        (acquisition_context_same (own_context profile_id d) c (rw (source, sensor, metadata) at h))

  failed_lem :
      (d : RegisterDefinition V) (code : AcquisitionErrorCode) (s : S)
      {qs : List (AcquisitionResult V)}
      → (pipeline_failure {E = E} clock (own_context profile_id d) code s).0 ≡ ok qs
      → IsOwn d qs
  failed_lem d code s h =
      let (q, alone, same) = failure_lem clock (own_context profile_id d) code s h in
      (q, alone, sym same)

  ingested_lem :
      (d : RegisterDefinition V) (payload : RegisterPayload)
      (r : Result DecoderError (RawMeasurement V)) (s : S) {qs : List (AcquisitionResult V)}
      → decode numbers unpack_float d payload ≡ r
      → (ingest_decoded numbers unpack_float ingest clock read
          (own_context profile_id d)
          profile_id
          r
          s).0
        ≡ ok qs
      → IsOwn d qs
  unfolding ingest_decoded
  ingested_lem d payload (ok raw) s e h =
      let (q, alone, made) =
        single_lem ingest clock profile_id raw s (map_err_ok pipeline_fault _ h) in
      (q, alone, decoded_context d payload raw (context_of q) e made)
  ingested_lem d payload (err fault) s e h = elim (Option-cases (uncaught fault)) [
    | inl caught ↦ failed_lem d decode_failed s (rw (caught, ingest_decoded) at h)
    | inr (raised, other) ↦ let bad = rw (other, ingest_decoded) at h in cc bad
  ]

  read_lem :
      (d : RegisterDefinition V) (x : Result ClientFault RegisterPayload × S)
      {qs : List (AcquisitionResult V)}
      → (decode_and_ingest numbers unpack_float ingest clock read
          (own_context profile_id d)
          profile_id
          d
          x).0
        ≡ ok qs
      → IsOwn d qs
  unfolding decode_and_ingest
  read_lem d (ok payload, s) h =
      ingested_lem d payload (decode numbers unpack_float d payload) s refl h
  read_lem d (err (simulator_error code), s) h = failed_lem d code s h
  read_lem d (err (transport_fault _), s) h = cc h
  read_lem d (err (payload_fault _), s) h = cc h

  one_lem :
      (d : RegisterDefinition V) (s : S) {qs : List (AcquisitionResult V)}
      → (read_decode_and_ingest numbers unpack_float ingest clock read profile_id d s).0 ≡ ok qs
      → IsOwn d qs
  unfolding read_decode_and_ingest
  one_lem d s {qs = qs} h =
      let (c, made, rest) =
        bind_ok
          (λ (c : AcquisitionContext) (t : S).
            decode_and_ingest numbers unpack_float ingest clock read c profile_id d (read d t))
          (context_from_definition {E = E} profile_id d, s) h in
      read_lem d (read d s) (
        subst
          (λ (c : AcquisitionContext).
            (decode_and_ingest numbers unpack_float ingest clock read c profile_id d (read d s)).0
            ≡ ok qs)
          (sym (
            acquisition_context_same (own_context profile_id d) c (
              map_err_ok
                (λ (e : AcquisitionResultError).
                  let x : ServiceFault E = pipeline_fault (result_error e) in x)
                (acquisition_context (own_context profile_id d)) made)))
          rest)

  -- Where acquire returns, it has one result for each register definition, in order, and the
  -- result, be it a success or a failure, names the definition's source, register and sensor.
  pub acquire-AreOwn :
      (ds : List (RegisterDefinition V)) (s : S) {qs : List (AcquisitionResult V)}
      → (acquire numbers unpack_float ingest clock read profile_id ds s).0 ≡ ok qs
      → AreOwn profile_id ds qs
  unfolding acquire
  acquire-AreOwn [] s {qs = []} h = tt
  acquire-AreOwn [] s {qs = q ∷ qs} h = cc h
  acquire-AreOwn (d ∷ ds) s {qs = qs} h =
      let (first, one, more) =
        bind_ok
          (λ (first : List (AcquisitionResult V)) (t : S).
            bind (λ (rest : List (AcquisitionResult V)) (u : S). (ok (first ++ rest), u))
              (acquire numbers unpack_float ingest clock read profile_id ds t))
          (read_decode_and_ingest numbers unpack_float ingest clock read profile_id d s) h in
      let t = (read_decode_and_ingest numbers unpack_float ingest clock read profile_id d s).1 in
      let (rest, others, last) =
        bind_ok (λ (rest : List (AcquisitionResult V)) (u : S). (ok (first ++ rest), u))
          (acquire numbers unpack_float ingest clock read profile_id ds t) more in
      let (q, alone, own) = one_lem d s one in
      let whole : q ∷ rest ≡ qs =
        ap (λ (f : List (AcquisitionResult V)). f ++ rest) (sym alone) ∙ ok_cancel last in
      subst (λ (x : List (AcquisitionResult V)). AreOwn profile_id (d ∷ ds) x) whole
        (own, acquire-AreOwn ds t others)
