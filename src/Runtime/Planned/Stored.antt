-- ===== src/Runtime/Planned/Stored.antt =====
-- `AcquisitionSession` with its sink, the `append` of `SqliteMeasurementHistorian`.
use geopilot_hvac.Prelude.{
  subst, eq_iff, ◌+◌, ◌≡◌, refl, sym, ap, ◌∙◌, arith, false, Option, none, some, Option-cases, inl,
  inr, List, [], ◌∷◌, ◌++◌, ℕ, Text, Result, ok, err, map_err,
}
use geopilot_hvac.Prelude.Exec.{Exec}
use geopilot_hvac.Prelude.Results.{then_ok, ◌>>◌, ok_cancel}
use geopilot_hvac.Prelude.Numbers.{Numbers}
use geopilot_hvac.Datetime.{Datetime, before}
use geopilot_hvac.Domain.Observation.{Measurement}
use geopilot_hvac.Registry.{AssetRegistry}
use geopilot_hvac.Historian.Sqlite.{
  Row, StorageError, row_with_id, fetch_by_id, to_storage, insert_row, append_unless, append_row,
}
use geopilot_hvac.Historian.Sqlite.Rows.{offset_seconds, row_of}
use geopilot_hvac.Ingestion.{ingest, IngestionFault, RawMeasurement, sink_error}
use geopilot_hvac.Ingestion.Service.{ingest-IsIngested}
use geopilot_hvac.Acquisition.{successful_measurements}
use geopilot_hvac.Acquisition.Stored.{IsKept, put_all}
use geopilot_hvac.Acquisition.Runner.{
  AcquisitionPlan, AcquisitionRunReport, run, success_count, failure_count, total_count,
}
use geopilot_hvac.Configuration.Sections.{InstallationConfig}
use geopilot_hvac.Runtime.Executors.{ExecutorFault}
use geopilot_hvac.Runtime.Session.{Factories, build_plan}
use geopilot_hvac.Runtime.Assembled.{AreSilent}
use geopilot_hvac.Runtime.Planned.{build_plan_kept}
use geopilot_hvac.Prelude.Int.{ℤ}
use geopilot_hvac.Prelude.{Bool}

-- What a session works on: its devices, and the rows of its database.
pub record SessionState (D V : Type 0) : Type 0 where
  pub devices : D
  pub rows : List (Row V)

-- A measurement is a new row, unless its id has a row.
abbrev pub add_new : {V : Type 0} → (V → V) → Measurement V → List (Row V) → List (Row V)
add_new numeric m rows = elim (row_with_id m.id rows) [
  | none ↦ rows ++ row_of numeric m ∷ []
  | some row ↦ rows
]

-- Each of the measurements has a row with its id.
abbrev pub HaveRows : {V : Type 0} → List (Row V) → List (Measurement V) → Type 0
HaveRows rows [] = Unit
HaveRows {V} rows (m ∷ ms) = ((row : Row V) × (row_with_id m.id rows ≡ some row)) × HaveRows rows ms

module _ {V : Type 0} (numeric : V → V) where
  row_with_id-append :
      (k : Text) (rows : List (Row V)) (new : Row V) (row : Row V)
      → row_with_id k rows ≡ some row
      → row_with_id k (rows ++ new ∷ []) ≡ some row
  unfolding row_with_id
  row_with_id-append k [] new row h = cc h
  row_with_id-append k (r ∷ rows) new row h = ground (arith, row_with_id-append k rows new row)

  row_with_id-row_of :
      (m : Measurement V) (rows : List (Row V))
      → row_with_id m.id rows ≡ none
      → row_with_id m.id (rows ++ row_of numeric m ∷ []) ≡ some (row_of numeric m)
  unfolding row_with_id
  row_with_id-row_of m [] h = let e = (eq_iff m.id m.id).1 refl in rw e refl
  row_with_id-row_of m (r ∷ rows) h = ground (arith, row_with_id-row_of m rows)

  row_with_id-add_new :
      (k : Text) (m : Measurement V) (rows : List (Row V)) (row : Row V)
      → row_with_id k rows ≡ some row
      → row_with_id k (add_new numeric m rows) ≡ some row
  row_with_id-add_new k m rows row h = elim (Option-cases (row_with_id m.id rows)) [
    | inl fresh ↦ rw (fresh, add_new) (row_with_id-append k rows (row_of numeric m) row h)
    | inr (r, taken) ↦ rw (taken, add_new) h
  ]

  row_with_id-put_all :
      (k : Text) (ms : List (Measurement V)) (rows : List (Row V)) (row : Row V)
      → row_with_id k rows ≡ some row
      → row_with_id k (put_all (add_new numeric) ms rows) ≡ some row
  row_with_id-put_all k [] rows row h = h
  row_with_id-put_all k (m ∷ ms) rows row h =
      row_with_id-put_all k ms (add_new numeric m rows) row (row_with_id-add_new k m rows row h)

  added :
      (m : Measurement V) (rows : List (Row V))
      → (row : Row V) × (row_with_id m.id (add_new numeric m rows) ≡ some row)
  added m rows = elim (Option-cases (row_with_id m.id rows)) [
    | inl fresh ↦ rw (fresh, add_new) (row_of numeric m, row_with_id-row_of m rows fresh)
    | inr (row, taken) ↦ rw (taken, add_new) (row, taken)
  ]

  HaveRows-put_all :
      (ms : List (Measurement V)) (rows : List (Row V))
      → HaveRows (put_all (add_new numeric) ms rows) ms
  HaveRows-put_all [] rows = tt
  HaveRows-put_all (m ∷ ms) rows =
      let (row, there) = added m rows in
      (
        (row, row_with_id-put_all m.id ms (add_new numeric m rows) row there),
        HaveRows-put_all ms (add_new numeric m rows),
      )

to_storage_ok :
    (at : Datetime) (p : ℤ × ℤ) → to_storage at ≡ ok p → p ≡ (at.instant, offset_seconds at)
unfolding to_storage
to_storage_ok at p h = ground arith

module _ {V : Type 0} (same_value : V → V → Bool) (numeric : V → V) where
  insert_row_ok :
      (m : Measurement V) (rows after : List (Row V))
      → insert_row numeric m rows ≡ ok after
      → after ≡ rows ++ row_of numeric m ∷ []
  unfolding insert_row
  insert_row_ok m rows after h =
      let (p, e, h) = then_ok _ (to_storage m.observed_at) h in
      let (q, f, h) = then_ok _ (to_storage m.received_at) h in
      let observed = to_storage_ok m.observed_at p e in
      let received = to_storage_ok m.received_at q f in
      sym (ok_cancel {E = StorageError} h) ∙ rw (observed, received) refl

  -- An append that returns has added the row, or there was one.
  append_row-add_new :
      (m : Measurement V) (rows : List (Row V)) (after : List (Row V))
      → append_row same_value numeric m rows ≡ ok after
      → after ≡ add_new numeric m rows
  unfolding append_row fetch_by_id append_unless
  append_row-add_new m rows after h = ground (arith, insert_row_ok m rows after)

module _ {V D : Type 0} (same_value : V → V → Bool) (numeric : V → V) where
  abbrev settled :
      Result StorageError (List (Row V)) → Exec (SessionState D V) StorageError (Unit {0})
  settled (ok rows) s = (ok tt, record s { rows = rows })
  settled (err e) s = (err e, s)

  -- `self._sink.append(measurement)`, where the sink is the historian of the session
  abbrev pub append_measurement : Measurement V → Exec (SessionState D V) StorageError (Unit {0})
  append_measurement m s = settled (append_row same_value numeric m s.rows) s

  settled-IsKept :
      (m : Measurement V) (s : SessionState D V) (x : Result StorageError (List (Row V)))
      (r : Result (IngestionFault StorageError) (Measurement V)) (s' : SessionState D V)
      → append_row same_value numeric m s.rows ≡ x
      → r ≡ map_err sink_error ((settled x s).0 >> ok m)
      → s' ≡ (settled x s).1
      → IsKept (add_new numeric) (λ (t : SessionState D V). t.rows) s (r, s')
  settled-IsKept m s (ok rows) r s' e answer grown =
      inr
        (m, answer, ap (λ t. t.rows) grown ∙ append_row-add_new same_value numeric m s.rows rows e)
  settled-IsKept m s (err e) r s' h answer grown =
      inl (sink_error e, answer, ap (λ t. t.rows) grown)

  module _ (numbers : Numbers V) (registry : Option AssetRegistry)
      (now : SessionState D V → Datetime) where
    -- the ingestion of a session
    abbrev pub ingest_row :
        RawMeasurement V → Exec (SessionState D V) (IngestionFault StorageError) (Measurement V)
    ingest_row raw s = ingest numbers append_measurement registry (now s) raw s

    ingest_row-IsKept :
        (raw : RawMeasurement V) (s : SessionState D V)
        → IsKept (add_new numeric) (λ (t : SessionState D V). t.rows) s (ingest_row raw s)
    ingest_row-IsKept raw s =
        elim (ingest-IsIngested numbers append_measurement registry (now s) raw s) [
          | inl (fault, e, kept) ↦ inl (fault, e, ap (λ (t : SessionState D V). t.rows) kept)
          | inr (sensor, m, found, good, answer, grown) ↦
              settled-IsKept m s (append_row same_value numeric m s.rows) _ _ refl answer grown
        ]

    -- Where the plan that a session builds of a configuration has run and returned its report, the
    -- rows of the session's SQLite historian are those that it had, followed by a row for each
    -- measurement of the report's successes, in order and from registers, probes and bits alike,
    -- whose id had no row yet; so each success has a row with its id, though a reading that is
    -- repeated counts as a success and adds none. Each result counts as a success or a failure,
    -- and the run was not completed before it was started. The transports, the buses and the
    -- record of what was read leave the rows as they are.
    pub build_plan_stored :
        {O : Type 0} (unpack_float : ℕ → ℕ → V) (clock utc_now : SessionState D V → Datetime)
        (note : Text → SessionState D V → SessionState D V)
        (factories : Factories V (SessionState D V) O) (config : InstallationConfig V)
        (plan : AcquisitionPlan V (SessionState D V) (ExecutorFault StorageError))
        (s : SessionState D V) (report : AcquisitionRunReport V)
        → ((id : Text) (t : SessionState D V) → (note id t).rows ≡ t.rows)
        → AreSilent (λ (t : SessionState D V). t.rows) factories
        → build_plan numbers unpack_float ingest_row clock utc_now note factories config ≡ ok plan
        → (run clock plan s).0 ≡ ok report
        → ((run clock plan s).1.rows
            ≡ put_all (add_new numeric) (successful_measurements report.results) s.rows)
          × HaveRows (run clock plan s).1.rows (successful_measurements report.results)
          × (total_count report ≡ success_count report + failure_count report)
          × (before report.completed_at report.started_at ≡ false)
    build_plan_stored unpack_float clock utc_now note factories config plan s report quiet silent
          built h =
        let (kept, total, forward) =
          build_plan_kept numbers unpack_float ingest_row clock utc_now note factories
            (add_new numeric) (λ t. t.rows) ingest_row-IsKept quiet silent config plan s report
            built h in
        (
          kept,
          subst (λ rows. HaveRows rows (successful_measurements report.results)) (sym kept)
              (HaveRows-put_all numeric (successful_measurements report.results) s.rows),
          total,
          forward,
        )
