-- ===== src/Acquisition/Stored.antt =====
-- What the pipeline reports as a success is what the sink has stored.
use geopilot_hvac.Prelude.{
  ◌≡◌, refl, sym, ap, ◌∙◌, Bool-cases, Option-cases, ◌⊎◌, inl, inr, Option, List, [], ◌∷◌, ◌++◌,
  length, suc, Text, Result, ok, err, map_err, subst,
}
use mathlib.Core.List.{append-nil, append_assoc}
use geopilot_hvac.Prelude.Exec.{Exec, bind_ok, bind_then}
use geopilot_hvac.Prelude.Numbers.{Numbers}
use geopilot_hvac.Datetime.{Datetime, is_aware}
use geopilot_hvac.Domain.Observation.{Measurement}
use geopilot_hvac.Registry.{AssetRegistry}
use geopilot_hvac.Ingestion.{ingest, IngestionFault, RawMeasurement, memory_sink}
use geopilot_hvac.Ingestion.Service.{ingest-IsIngested}
use geopilot_hvac.Acquisition.{
  AcquisitionContext, AcquisitionFault, result_error, AcquisitionResult, success, failure,
  context_from_raw, caught_code, stamped, successful_measurements, settle, acquire_one,
  ingest_raw_measurements,
}
use geopilot_hvac.Prelude.Exec.{bind}

successful_measurements-cons :
    {V : Type 0} (q : AcquisitionResult V) (qs : List (AcquisitionResult V))
    → successful_measurements (q ∷ qs)
      ≡ successful_measurements (q ∷ []) ++ successful_measurements qs
unfolding successful_measurements
successful_measurements-cons (success c m at) qs = refl
successful_measurements-cons (failure c code at) qs = refl

-- the measurements put one after another into what a sink keeps
abbrev pub put_all : {V K : Type 0} → (Measurement V → K → K) → List (Measurement V) → K → K
put_all put [] k = k
put_all put (m ∷ ms) k = put_all put ms (put m k)

pub put_all-append :
    {V K : Type 0} (put : Measurement V → K → K) (ms ns : List (Measurement V)) (k : K)
    → put_all put (ms ++ ns) k ≡ put_all put ns (put_all put ms k)
put_all-append put [] ns k = refl
put_all-append put (m ∷ ms) ns k = put_all-append put ms ns (put m k)

-- a sink that keeps a list
abbrev pub put_last : {V : Type 0} → Measurement V → List (Measurement V) → List (Measurement V)
put_last m ms = ms ++ m ∷ []

pub put_all_last : {V : Type 0} (ms ns : List (Measurement V)) → put_all put_last ms ns ≡ ns ++ ms
put_all_last [] ns = sym (append-nil ns)
put_all_last (m ∷ ms) ns = put_all_last ms (ns ++ m ∷ []) ∙ append_assoc ns (m ∷ []) ms

module _ {V K : Type 0} (put : Measurement V → K → K) where
  put_all-cons :
      (q : AcquisitionResult V) (results : List (AcquisitionResult V))
      {qs : List (AcquisitionResult V)} (s t : K) {u : K} (raws : List (RawMeasurement V))
      → q ∷ results ≡ qs
      → t ≡ put_all put (successful_measurements (q ∷ [])) s
      → length results ≡ length raws
      → u ≡ put_all put (successful_measurements results) t
      → (length qs ≡ suc (length raws)) × (u ≡ put_all put (successful_measurements qs) s)
  put_all-cons q results s t raws whole first len last = (
    ap length (sym whole) ∙ ap suc len,
    last
        ∙ ap (put_all put (successful_measurements results)) first
        ∙ sym (
            put_all-append put (successful_measurements (q ∷ [])) (successful_measurements results)
              s)
        ∙ ap (λ x. put_all put x s) (sym (successful_measurements-cons q results))
        ∙ ap (λ x. put_all put (successful_measurements x) s) whole,
  )

-- Either the call raised and the sink kept what it had, or the sink was given what it returned.
abbrev pub IsKept :
    {V E S K : Type 0}
    → (Measurement V → K → K)
    → (S → K)
    → S
    → Result (IngestionFault E) (Measurement V) × S
    → Type 0
IsKept {V} {E} {S} {K} put sink s (r, s') =
    ((fault : IngestionFault E) × (r ≡ err fault) × (sink s' ≡ sink s))
    ⊎ ((m : Measurement V) × (r ≡ ok m) × (sink s' ≡ put m (sink s)))

-- Either nothing was stored, and the ingestion raised; or what it returned was stored.
abbrev pub IsStored :
    {V E S : Type 0}
    → (S → List (Measurement V))
    → S
    → Result (IngestionFault E) (Measurement V) × S
    → Type 0
IsStored {V} {E} {S} sink s (r, s') =
    ((fault : IngestionFault E) × (r ≡ err fault) × (sink s' ≡ sink s))
    ⊎ ((m : Measurement V) × (r ≡ ok m) × (sink s' ≡ sink s ++ m ∷ []))

pub stamped_ok :
    {V E : Type 0} (at : Datetime) (result : AcquisitionResult V) {q : AcquisitionResult V}
    → (let r : Result (AcquisitionFault E) (AcquisitionResult V) = stamped at result in r) ≡ ok q
    → result ≡ q
unfolding stamped
stamped_ok at result h = elim (Bool-cases (is_aware at)) [
  | inl aware ↦ cc (rw (aware, stamped) at h)
  | inr naive ↦ let bad = rw (naive, stamped) at h in cc bad
]

-- What a state has stored is `sink` of it, and `put` is what a measurement makes of that.
module _ {V E S K : Type 0} (put : Measurement V → K → K) (sink : S → K) where
  settle_kept :
      (ingest : RawMeasurement V → Exec S (IngestionFault E) (Measurement V)) (clock : S → Datetime)
      (context : AcquisitionContext) (s : S) (x : Result (IngestionFault E) (Measurement V) × S)
      {q : AcquisitionResult V}
      → IsKept put sink s x
      → (settle ingest clock context x).0 ≡ ok q
      → sink (settle ingest clock context x).1
        ≡ put_all put (successful_measurements (q ∷ [])) (sink s)
  unfolding settle successful_measurements
  settle_kept ingest clock context s (ok m, s') (inl (fault, e, kept)) h = cc e
  settle_kept ingest clock context s (ok m, s') (inr (n, e, grown)) h =
      let same = stamped_ok (clock s') (success context m (clock s')) h in
      subst
        (λ (q : AcquisitionResult V).
          sink s' ≡ put_all put (successful_measurements (q ∷ [])) (sink s))
        same (cc (grown, e))
  settle_kept ingest clock context s (err fault, s') (inr (n, e, grown)) h = cc e
  settle_kept ingest clock context s (err fault, s') (inl (f, e, kept)) h =
      elim (Option-cases (caught_code fault)) [
        | inl none_caught ↦ let bad = rw (none_caught, settle) at h in cc bad
        | inr (code, caught) ↦
            let same =
              stamped_ok (clock s') (failure context code (clock s')) (rw (caught, settle) at h) in
            subst
              (λ (q : AcquisitionResult V).
                sink (settle ingest clock context (err fault, s')).1
                ≡ put_all put (successful_measurements (q ∷ [])) (sink s))
              same (rw (caught, settle) (kept))
      ]

  module _ (ingest_raw : RawMeasurement V → Exec S (IngestionFault E) (Measurement V))
      (clock : S → Datetime) (profile_id : Option Text)
      (stored : (raw : RawMeasurement V) (s : S) → IsKept put sink s (ingest_raw raw s)) where
    acquire_one_kept :
        (raw : RawMeasurement V) (s : S) {q : AcquisitionResult V}
        → (acquire_one ingest_raw clock profile_id raw s).0 ≡ ok q
        → sink (acquire_one ingest_raw clock profile_id raw s).1
          ≡ put_all put (successful_measurements (q ∷ [])) (sink s)
    unfolding acquire_one
    acquire_one_kept raw s h =
        let f = λ (context : AcquisitionContext) (t : S).
          settle ingest_raw clock context (ingest_raw raw t) in
        let (context, made, settled) =
          bind_ok f (map_err result_error (context_from_raw profile_id raw), s) h in
        ap (λ (x : Result (AcquisitionFault E) (AcquisitionResult V) × S). sink x.1)
          (bind_then f (map_err result_error (context_from_raw profile_id raw), s) made)
        ∙ settle_kept ingest_raw clock context s (ingest_raw raw s) (stored raw s) settled

    abbrev collect :
        AcquisitionResult V
        → Exec S (AcquisitionFault E) (List (AcquisitionResult V))
        → Exec S (AcquisitionFault E) (List (AcquisitionResult V))
    collect q rest s =
        bind (λ (results : List (AcquisitionResult V)) (u : S). (ok (q ∷ results), u)) (rest s)

    pub all_kept :
        (raws : List (RawMeasurement V)) (s : S) {qs : List (AcquisitionResult V)}
        → (ingest_raw_measurements ingest_raw clock profile_id raws s).0 ≡ ok qs
        → (length qs ≡ length raws)
          × (sink (ingest_raw_measurements ingest_raw clock profile_id raws s).1
              ≡ put_all put (successful_measurements qs) (sink s))
    unfolding ingest_raw_measurements successful_measurements
    all_kept [] s {qs = []} h = (refl, refl)
    all_kept [] s {qs = q ∷ qs} h = cc h
    all_kept (raw ∷ raws) s {qs = qs} h =
        let (q, one, h1) =
          bind_ok (λ q. collect q (ingest_raw_measurements ingest_raw clock profile_id raws))
            (acquire_one ingest_raw clock profile_id raw s) h in
        let t = (acquire_one ingest_raw clock profile_id raw s).1 in
        let x = ingest_raw_measurements ingest_raw clock profile_id raws t in
        let (results, more, h2) = bind_ok (λ results u. (ok (q ∷ results), u)) x h1 in
        let (len, sunk) = all_kept raws t more in
        let final =
          ap (λ (x : Result (AcquisitionFault E) (List (AcquisitionResult V)) × S). sink x.1)
            (bind_then (λ q. collect q (ingest_raw_measurements ingest_raw clock profile_id raws))
                (acquire_one ingest_raw clock profile_id raw s) one
              ∙ bind_then (λ results u. (ok (q ∷ results), u)) x more) in
        put_all-cons put q results (sink s) (sink t) raws (cc h2) (acquire_one_kept raw s one) len
          (final ∙ sunk)

pub ingest-IsStored :
    {V E : Type 0} (numbers : Numbers V) (registry : Option AssetRegistry) (now : Datetime)
    (raw : RawMeasurement V) (s : List (Measurement V))
    → IsStored {E = E} (λ t. t) s (ingest numbers memory_sink registry now raw s)
ingest-IsStored {E = E} numbers registry now raw s =
    elim (ingest-IsIngested numbers {E = E} memory_sink registry now raw s) [
      | inl raised ↦ inl raised
      | inr (sensor, m, found, good, answer, grown) ↦ inr (m, answer, grown)
    ]

module _ {V E : Type 0} (numbers : Numbers V) (registry : Option AssetRegistry)
    (now clock : List (Measurement V) → Datetime) where
  -- the pipeline on an in-memory sink; what a clock tells is a function of what the sink has
  abbrev pub memory_pipeline :
      Option Text
      → List (RawMeasurement V)
      → Exec (List (Measurement V)) (AcquisitionFault E) (List (AcquisitionResult V))
  memory_pipeline =
      ingest_raw_measurements (λ raw s. ingest numbers memory_sink registry (now s) raw s) clock

  -- Where the pipeline over the in-memory sink returns, it returns one result for each raw value,
  -- and the sink has received the measurements of the successes, in order, and nothing else.
  pub ingest_raw_measurements_stored :
      (profile_id : Option Text) (raws : List (RawMeasurement V)) (s : List (Measurement V))
      {qs : List (AcquisitionResult V)}
      → (memory_pipeline profile_id raws s).0 ≡ ok qs
      → (length qs ≡ length raws)
        × ((memory_pipeline profile_id raws s).1 ≡ s ++ successful_measurements qs)
  ingest_raw_measurements_stored profile_id raws s h =
      let (len, kept) =
        all_kept put_last (λ s. s) (λ raw s. ingest numbers memory_sink registry (now s) raw s)
          clock profile_id (λ raw s. ingest-IsStored numbers registry (now s) raw s) raws s h in
      (len, kept ∙ put_all_last _ s)
