-- ===== src/Runtime/Planned.antt =====
-- The run of a plan that a session builds gives its sink what it reports.
pub mod Stored
mod Tests
use geopilot_hvac.Prelude.{
  is_blank, ◌+◌, ◌≡◌, sym, ap, false, Option, List, [], ◌∷◌, ◌++◌, ℕ, Text, text, ◌==◌, length,
  Result, ok, err, map_err, subst,
}
use geopilot_hvac.Prelude.Results.{map_err_ok, ok_cancel, then_elim, raise_if_elim}
use geopilot_hvac.Prelude.Exec.{Exec}
use geopilot_hvac.Prelude.Numbers.{Numbers}
use geopilot_hvac.Prelude.Sort.{keep}
use geopilot_hvac.Datetime.{Datetime, before}
use geopilot_hvac.Domain.Observation.{Measurement}
use geopilot_hvac.Ingestion.{IngestionFault, RawMeasurement}
use geopilot_hvac.Acquisition.{successful_measurements}
use geopilot_hvac.Acquisition.Stored.{put_all, IsKept}
use geopilot_hvac.Acquisition.Runner.{
  AcquisitionPlan, AcquisitionRunReport, RunnerError, acquisition_plan, check_requests, run,
  success_count, failure_count, total_count,
}
use geopilot_hvac.Acquisition.Runner.Counts.{AreKeeping, run_kept}
use geopilot_hvac.Configuration.Sections.{InstallationConfig}
use geopilot_hvac.Runtime.Executors.{ExecutorFault}
use geopilot_hvac.Runtime.Session.{
  Factories, register_request, probe_request, bit_request, requests_of, build_plan, runner_refused,
}
use geopilot_hvac.Runtime.Assembled.{
  AreSilent, AreKeeping-append, requests_of-AreKeeping, register_request-Stores,
  probe_request-Stores, bit_request-Stores,
}

acquisition_plan_same :
    {V S F : Type 0} (p p' : AcquisitionPlan V S F) → acquisition_plan p ≡ ok p' → p ≡ p'
unfolding acquisition_plan
acquisition_plan_same p p' h =
    raise_if_elim (is_blank p.plan_id) RunnerError.blank_identifier h
      λ _ h. then_elim (check_requests p.requests []) h λ _ _ h. ok_cancel h

module _ {V S E O K : Type 0} (numbers : Numbers V) (unpack_float : ℕ → ℕ → V)
    (ingest : RawMeasurement V → Exec S (IngestionFault E) (Measurement V))
    (clock utc_now : S → Datetime) (note : Text → S → S) (factories : Factories V S O)
    (put : Measurement V → K → K) (sink : S → K)
    (stored : (raw : RawMeasurement V) (s : S) → IsKept put sink s (ingest raw s))
    (quiet : (id : Text) (s : S) → sink (note id s) ≡ sink s)
    (silent : AreSilent sink factories) where
  build_plan-AreKeeping :
      (config : InstallationConfig V) (plan : AcquisitionPlan V S (ExecutorFault E))
      → build_plan numbers unpack_float ingest clock utc_now note factories config ≡ ok plan
      → AreKeeping put sink plan.requests
  unfolding build_plan
  build_plan-AreKeeping config plan h =
      then_elim
        (requests_of numbers unpack_float ingest clock utc_now note factories
          (λ source.
            register_request numbers unpack_float ingest clock utc_now note factories source
              (keep (λ r. r.source_id == source.source_id) config.reads))
          config.sources)
        h
        λ registers one h.
          then_elim
            (requests_of numbers unpack_float ingest clock utc_now note factories
              (λ source.
                probe_request numbers unpack_float ingest clock utc_now note factories source
                  (keep (λ r. r.source_id == source.source_id) config.onewire_reads))
              config.onewire_sources)
            h
            λ probes two h.
              then_elim
                (requests_of numbers unpack_float ingest clock utc_now note factories
                  (λ source.
                    bit_request numbers unpack_float ingest clock utc_now note factories source
                      (keep (λ r. r.source_id == source.source_id) config.bit_reads))
                  config.sources)
                h
                λ bits three h.
                  subst
                    (λ (p : AcquisitionPlan V S (ExecutorFault E)). AreKeeping put sink p.requests)
                    (acquisition_plan_same _ plan (map_err_ok runner_refused _ h))
                    (AreKeeping-append put sink registers (probes ++ bits)
                      (requests_of-AreKeeping numbers unpack_float ingest clock utc_now note
                        factories put sink stored quiet silent _
                        (λ source.
                          register_request-Stores numbers unpack_float ingest clock utc_now note
                            factories put sink stored quiet silent source _)
                        config.sources registers one)
                      (AreKeeping-append put sink probes bits
                        (requests_of-AreKeeping numbers unpack_float ingest clock utc_now note
                          factories put sink stored quiet silent _
                          (λ source.
                            probe_request-Stores numbers unpack_float ingest clock utc_now note
                              factories put sink stored quiet silent source _)
                          config.onewire_sources probes two)
                        (requests_of-AreKeeping numbers unpack_float ingest clock utc_now note
                          factories put sink stored quiet silent _
                          (λ source.
                            bit_request-Stores numbers unpack_float ingest clock utc_now note
                              factories put sink stored quiet silent source _)
                          config.sources bits three)))

  -- Where the plan that a session builds of a configuration has run and returned its report, the
  -- sink was given the measurements of its successes.
  pub build_plan_kept :
      (config : InstallationConfig V) (plan : AcquisitionPlan V S (ExecutorFault E)) (s : S)
      (report : AcquisitionRunReport V)
      → build_plan numbers unpack_float ingest clock utc_now note factories config ≡ ok plan
      → (run clock plan s).0 ≡ ok report
      → (sink (run clock plan s).1 ≡ put_all put (successful_measurements report.results) (sink s))
        × (total_count report ≡ success_count report + failure_count report)
        × (before report.completed_at report.started_at ≡ false)
  build_plan_kept config plan s report built h =
      run_kept put sink clock plan s report (build_plan-AreKeeping config plan built) h
