-- ===== src/Acquisition/Runner/Totals.antt =====
-- What a polling report counts.
use geopilot_hvac.Prelude.{
  ◌+◌, ◌≡◌, refl, sym, ap, ◌∙◌, arith, false, List, [], ◌∷◌, Result, ok, map_err, subst,
}
use geopilot_hvac.Prelude.Results.{map_err_ok, ok_cancel}
use geopilot_hvac.Prelude.Exec.{Exec, bind, bind_ok, bind_then}
use geopilot_hvac.Datetime.{Datetime, before}
use geopilot_hvac.Acquisition.Runner.{
  AcquisitionRunReport, run, success_count, failure_count, total_count,
}
use geopilot_hvac.Acquisition.Runner.Counts.{length-results}
use geopilot_hvac.Acquisition.Runner.Polling.{
  PollingFault, polling_error, run_fault, PollingCycle, PollingPlan, CycleReport, PollingReport,
  cycle_report, polling_report, sum_over, polled_successes, polled_failures, polled_total,
  poll_cycles, poll,
}

sum_over-total :
    {V : Type 0} (rs : List (CycleReport V))
    → sum_over total_count rs ≡ sum_over success_count rs + sum_over failure_count rs
sum_over-total [] = refl
sum_over-total (r ∷ rs) = omega (arith, length-results r.run_report.results, sum_over-total rs)

cycle_report_same : {V : Type 0} (r r' : CycleReport V) → cycle_report r ≡ ok r' → r ≡ r'
unfolding cycle_report
cycle_report_same r r' h = ground arith

polling_report_same :
    {V : Type 0} (r r' : PollingReport V)
    → polling_report r ≡ ok r'
    → (r ≡ r') × (before r.completed_at r.started_at ≡ false)
unfolding polling_report
polling_report_same r r' h = (ground arith, ground arith)

module _ {V S F : Type 0} (clock runner_clock : S → Datetime) where
  -- From one state to another, the reports are those of the cycles' runs, each of which goes on
  -- from the state that the one before it left.
  abbrev pub AreRuns : List (PollingCycle V S F) → S → List (CycleReport V) → S → Type 0
  AreRuns [] s [] t = s ≡ t
  AreRuns [] s (r ∷ rs) t = ⊥
  AreRuns (c ∷ cs) s [] t = ⊥
  AreRuns (c ∷ cs) s (r ∷ rs) t =
      (r.cycle_id ≡ c.cycle_id)
      × ((run runner_clock c.acquisition_plan s).0 ≡ ok r.run_report)
      × AreRuns cs (run runner_clock c.acquisition_plan s).1 rs t

  poll_cycles-AreRuns :
      (cs : List (PollingCycle V S F)) (s : S) {rs : List (CycleReport V)}
      → (poll_cycles clock runner_clock cs s).0 ≡ ok rs
      → AreRuns cs s rs (poll_cycles clock runner_clock cs s).1
  unfolding poll_cycles
  poll_cycles-AreRuns [] s {rs = []} h = refl
  poll_cycles-AreRuns [] s {rs = r ∷ rs} h = cc h
  poll_cycles-AreRuns (c ∷ cs) s {rs = rs} h =
      let ran : Exec S (PollingFault F) (AcquisitionRunReport V) = λ t. (
        map_err run_fault (run runner_clock c.acquisition_plan t).0,
        (run runner_clock c.acquisition_plan t).1,
      ) in
      let made : AcquisitionRunReport V → Result (PollingFault F) (CycleReport V) = λ r.
        map_err polling_error (cycle_report (record { cycle_id = c.cycle_id; run_report = r })) in
      let end : CycleReport V → Exec S (PollingFault F) (List (CycleReport V)) =
        λ first t. bind (λ rest u. (ok (first ∷ rest), u)) (poll_cycles clock runner_clock cs t) in
      let (r, h1, more) = bind_ok (λ r t. bind end (made r, t)) (ran s) h in
      let (first, h2, more') = bind_ok end (made r, (ran s).1) more in
      let (rest, h3, last) =
        bind_ok (λ rest u. (ok (first ∷ rest), u)) (poll_cycles clock runner_clock cs (ran s).1)
          more' in
      let path : (poll_cycles clock runner_clock (c ∷ cs) s).1
          ≡ (poll_cycles clock runner_clock cs (ran s).1).1 =
        ap (λ x. x.1)
          (bind_then (λ r t. bind end (made r, t)) (ran s) h1
            ∙ bind_then end (made r, (ran s).1) h2
            ∙ bind_then (λ rest u. (ok (first ∷ rest), u))
                (poll_cycles clock runner_clock cs (ran s).1) h3) in
      let same = cycle_report_same _ first (map_err_ok {F = PollingFault F} polling_error _ h2) in
      let whole : first ∷ rest ≡ rs = ok_cancel {E = PollingFault F} last in
      subst (λ rs. AreRuns (c ∷ cs) s rs (poll_cycles clock runner_clock (c ∷ cs) s).1) whole
        (
          ap (λ (x : CycleReport V). x.cycle_id) (sym same),
          map_err_ok {F = PollingFault F} run_fault _ h1
              ∙ ap (λ (x : CycleReport V). ok x.run_report) same,
          subst (λ t. AreRuns cs (ran s).1 rest t) (sym path) (poll_cycles-AreRuns cs (ran s).1 h3),
        )

  -- What the report of a polling run from one state to another is to say.
  pub record IsPolled (plan : PollingPlan V S F) (s : S) (report : PollingReport V) (t : S)
      : Type 0 where
    pub runs : AreRuns plan.cycles s report.cycle_reports t
    pub plan_id : report.plan_id ≡ plan.plan_id
    pub started_at : report.started_at ≡ clock s
    pub completed_at : report.completed_at ≡ clock t
    pub forward : before report.completed_at report.started_at ≡ false
    pub total : polled_total report ≡ polled_successes report + polled_failures report

  -- Where a polling run returns, its report has one cycle report for each cycle of the plan, in
  -- order, with the cycle's id and exactly the report that the run of the cycle's acquisition plan
  -- returned, the first run from the state in which polling started, each later one from the state
  -- that the one before left; the report names the plan, and carries the clock's times of the
  -- first and the last of these states, the latter not before the former; its total is the sum of
  -- its successes and its failures.
  pub poll_ok :
      (plan : PollingPlan V S F) (s : S) (report : PollingReport V)
      → (poll clock runner_clock plan s).0 ≡ ok report
      → IsPolled plan s report (poll clock runner_clock plan s).1
  unfolding poll
  poll_ok plan s report h =
      let f : List (CycleReport V) → Exec S (PollingFault F) (PollingReport V) = λ reports t. (
        map_err polling_error (
            polling_report (record {
              plan_id = plan.plan_id;
              started_at = clock s;
              completed_at = clock t;
              cycle_reports = reports;
            })),
        t,
      ) in
      let (reports, e, last) = bind_ok f (poll_cycles clock runner_clock plan.cycles s) h in
      let path : (poll clock runner_clock plan s).1
          ≡ (poll_cycles clock runner_clock plan.cycles s).1 =
        ap (λ x. x.1) (bind_then f (poll_cycles clock runner_clock plan.cycles s) e) in
      let (same, forward) =
        polling_report_same _ report (map_err_ok {F = PollingFault F} polling_error _ last) in
      subst (IsPolled plan s report) (sym path) (
        subst (λ r. IsPolled plan s r (poll_cycles clock runner_clock plan.cycles s).1) same
          (record {
            runs = poll_cycles-AreRuns plan.cycles s e;
            plan_id = refl;
            started_at = refl;
            completed_at = refl;
            forward = forward;
            total = sum_over-total reports;
          }))
