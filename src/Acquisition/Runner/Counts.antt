-- ===== src/Acquisition/Runner/Counts.antt =====
-- What a run reports as successes is what the sink has gained, through the service and the runner.
use geopilot_hvac.Prelude.{
  ◌+◌, ◌≡◌, refl, sym, ap, ◌∙◌, arith, false, List, [], ◌∷◌, ◌++◌, length, length-append, Result,
  ok, map_err, subst,
}
use geopilot_hvac.Prelude.Results.{map_err_ok, ok_cancel}
use geopilot_hvac.Prelude.Exec.{Exec, bind, bind_ok, bind_then}
use geopilot_hvac.Datetime.{Datetime, before}
use geopilot_hvac.Domain.Observation.{Measurement}
use geopilot_hvac.Acquisition.{
  AcquisitionResult, success, failure, successful_measurements, failures,
}
use geopilot_hvac.Acquisition.Stored.{put_all, put_last, put_all-append, put_all_last}
use geopilot_hvac.Acquisition.Runner.{
  RunFault, request_fault, AcquisitionRequest, AcquisitionPlan, AcquisitionRunReport, run_report,
  success_count, failure_count, total_count, run_requests, run,
}
use geopilot_hvac.Acquisition.Runner.{runner_error}
use geopilot_hvac.Acquisition.Runner.{RunnerError}

successful_measurements-append :
    {V : Type 0} (ps qs : List (AcquisitionResult V))
    → successful_measurements (ps ++ qs) ≡ successful_measurements ps ++ successful_measurements qs
unfolding successful_measurements
successful_measurements-append [] qs = refl
successful_measurements-append (success c m at ∷ ps) qs =
    ap (λ l. m ∷ l) (successful_measurements-append ps qs)
successful_measurements-append (failure c code at ∷ ps) qs = successful_measurements-append ps qs

-- Every result is a success or a failure.
pub length-results :
    {V : Type 0} (qs : List (AcquisitionResult V))
    → length qs ≡ length (successful_measurements qs) + length (failures qs)
unfolding successful_measurements failures
length-results [] = refl
length-results (success c m at ∷ qs) = omega (arith, length-results qs)
length-results (failure c code at ∷ qs) = omega (arith, length-results qs)

run_report_same :
    {V : Type 0} (r r' : AcquisitionRunReport V)
    → run_report r ≡ ok r'
    → (r ≡ r') × (before r.completed_at r.started_at ≡ false)
unfolding run_report
run_report_same r r' h = (ground arith, ground arith)

-- What a state has stored is `sink` of it.
module _ {V S : Type 0} (sink : S → List (Measurement V)) where
  -- Where the call returns, the sink has gained the measurements of its successes.
  abbrev pub IsStoring : {F : Type 0} → Exec S F (List (AcquisitionResult V)) → Type 0
  IsStoring call =
      (s : S) (qs : List (AcquisitionResult V))
      → (call s).0 ≡ ok qs
      → sink (call s).1 ≡ sink s ++ successful_measurements qs

module _ {V S F : Type 0} (sink : S → List (Measurement V)) where
  abbrev pub AreStoring : List (AcquisitionRequest V S F) → Type 0
  AreStoring [] = Unit
  AreStoring (r ∷ rs) = IsStoring sink r.executor × AreStoring rs

-- The same for what `put` makes of a measurement and of what `sink` tells of a state.
module _ {V S K : Type 0} (put : Measurement V → K → K) (sink : S → K) where
  -- Where the call returns, the sink was given the measurements of its successes, in order.
  abbrev pub IsKeeping : {F : Type 0} → Exec S F (List (AcquisitionResult V)) → Type 0
  IsKeeping call =
      (s : S) (qs : List (AcquisitionResult V))
      → (call s).0 ≡ ok qs
      → sink (call s).1 ≡ put_all put (successful_measurements qs) (sink s)

  -- one call after another
  abbrev pub both :
      {F : Type 0}
      → Exec S F (List (AcquisitionResult V))
      → Exec S F (List (AcquisitionResult V))
      → Exec S F (List (AcquisitionResult V))
  both first rest s = bind (λ ps t. bind (λ qs u. (ok (ps ++ qs), u)) (rest t)) (first s)

  pub both-IsKeeping :
      {F : Type 0} (first rest : Exec S F (List (AcquisitionResult V)))
      → IsKeeping first
      → IsKeeping rest
      → IsKeeping (both first rest)
  both-IsKeeping first rest one others s qs h =
      let (ps, h1, more) =
        bind_ok (λ ps t. bind (λ qs u. (ok (ps ++ qs), u)) (rest t)) (first s) h in
      let t = (first s).1 in
      let (rs, h2, last) = bind_ok (λ qs u. (ok (ps ++ qs), u)) (rest t) more in
      let final =
        bind_then (λ ps t. bind (λ qs u. (ok (ps ++ qs), u)) (rest t)) (first s) h1
        ∙ bind_then (λ qs u. (ok (ps ++ qs), u)) (rest t) h2 in
      ap (λ x. sink x.1) final
      ∙ others t rs h2
      ∙ ap (put_all put (successful_measurements rs)) (one s ps h1)
      ∙ sym (put_all-append put (successful_measurements ps) (successful_measurements rs) (sink s))
      ∙ ap (λ l. put_all put l (sink s)) (sym (successful_measurements-append ps rs))
      ∙ ap (λ l. put_all put (successful_measurements l) (sink s)) (ok_cancel last)

  module _ {F : Type 0} where
    abbrev pub AreKeeping : List (AcquisitionRequest V S F) → Type 0
    AreKeeping [] = Unit
    AreKeeping (r ∷ rs) = IsKeeping r.executor × AreKeeping rs

    run_requests-IsKeeping :
        (rs : List (AcquisitionRequest V S F)) → AreKeeping rs → IsKeeping (run_requests rs)
    unfolding run_requests successful_measurements
    run_requests-IsKeeping [] good s [] h = refl
    run_requests-IsKeeping [] good s (q ∷ qs) h = cc h
    run_requests-IsKeeping (r ∷ rs) (one, others) s qs h =
        both-IsKeeping (λ s. (map_err request_fault (r.executor s).0, (r.executor s).1))
          (run_requests rs) (λ s qs h. one s qs (map_err_ok request_fault (r.executor s).0 h))
          (run_requests-IsKeeping rs others) s qs h

    -- the report before its checks
    abbrev unchecked :
        (S → Datetime)
        → AcquisitionPlan V S F
        → S
        → List (AcquisitionResult V)
        → S
        → AcquisitionRunReport V
    unchecked clock plan s results t = record {
      plan_id = plan.plan_id;
      started_at = clock s;
      completed_at = clock t;
      results = results;
    }

    abbrev reported :
        (S → Datetime)
        → AcquisitionPlan V S F
        → S
        → List (AcquisitionResult V)
        → S
        → Result RunnerError (AcquisitionRunReport V)
    reported clock plan s results t = run_report (unchecked clock plan s results t)

    -- Where the executors of a plan give the sink what they report as successes, so does the run.
    pub run_kept :
        (clock : S → Datetime) (plan : AcquisitionPlan V S F) (s : S)
        (report : AcquisitionRunReport V)
        → AreKeeping plan.requests
        → (run clock plan s).0 ≡ ok report
        → (sink (run clock plan s).1
            ≡ put_all put (successful_measurements report.results) (sink s))
          × (total_count report ≡ success_count report + failure_count report)
          × (before report.completed_at report.started_at ≡ false)
    unfolding run
    run_kept clock plan s report good h =
        let f : List (AcquisitionResult V) → Exec S (RunFault F) (AcquisitionRunReport V) =
          λ results t.
            (map_err {F = RunFault F} runner_error (reported clock plan s results t), t) in
        let (results, e, last) = bind_ok f (run_requests plan.requests s) h in
        let t = (run_requests plan.requests s).1 in
        let (same, forward) =
          run_report_same (unchecked clock plan s results t) report
            (map_err_ok {F = RunFault F} runner_error (reported clock plan s results t) last) in
        let sunk : sink (run clock plan s).1
            ≡ put_all put (successful_measurements report.results) (sink s) =
          ap (λ x. sink x.1) (bind_then f (run_requests plan.requests s) e)
          ∙ run_requests-IsKeeping plan.requests good s results e
          ∙ ap
              (λ (r : AcquisitionRunReport V).
                put_all put (successful_measurements r.results) (sink s))
              same in
        (
          sunk,
          length-results report.results,
          subst (λ (r : AcquisitionRunReport V). before r.completed_at r.started_at ≡ false) same
              forward,
        )

module _ {V S F : Type 0} (sink : S → List (Measurement V)) where
  pub IsKeeping-last :
      (call : Exec S F (List (AcquisitionResult V)))
      → IsKeeping put_last sink call
      → IsStoring sink call
  IsKeeping-last call good s qs h = good s qs h ∙ put_all_last (successful_measurements qs) (sink s)

  AreStoring-AreKeeping :
      (rs : List (AcquisitionRequest V S F)) → AreStoring sink rs → AreKeeping put_last sink rs
  AreStoring-AreKeeping [] good = tt
  AreStoring-AreKeeping (r ∷ rs) (one, good) = (
    λ s qs h. one s qs h ∙ sym (put_all_last (successful_measurements qs) (sink s)),
    AreStoring-AreKeeping rs good,
  )

  -- Where the executors of a plan store what they report as successes, so does the run: the sink
  -- has gained the measurements of the report's successes, in order, as many as success_count
  -- says; each result counts as a success or a failure, and the run was not completed before it
  -- was started.
  pub run_stored :
      (clock : S → Datetime) (plan : AcquisitionPlan V S F) (s : S)
      (report : AcquisitionRunReport V)
      → AreStoring sink plan.requests
      → (run clock plan s).0 ≡ ok report
      → (sink (run clock plan s).1 ≡ sink s ++ successful_measurements report.results)
        × (length (sink (run clock plan s).1) ≡ length (sink s) + success_count report)
        × (total_count report ≡ success_count report + failure_count report)
        × (before report.completed_at report.started_at ≡ false)
  run_stored clock plan s report good h =
      let (kept, total, forward) =
        run_kept put_last sink clock plan s report (AreStoring-AreKeeping plan.requests good) h in
      let sunk = kept ∙ put_all_last (successful_measurements report.results) (sink s) in
      (
        sunk,
        ap length sunk ∙ length-append (sink s) (successful_measurements report.results),
        total,
        forward,
      )
