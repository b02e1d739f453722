-- ===== src/Acquisition/Runner/Polling.antt =====
-- backend/src/geopilot/simulated_polling.py: declared cycles, each of which runs its acquisition plan once.
use geopilot_hvac.Prelude.{
  ℕ, ◌+◌, not, List, [], ◌∷◌, Text, is_blank, Result, ok, err, map_err, if◌then◌else◌, length,
}
use geopilot_hvac.Prelude.Results.{raise_if}
use geopilot_hvac.Prelude.Results
use geopilot_hvac.Prelude.Exec.{Exec, lift, pure, gets, ◌>>=◌}
use geopilot_hvac.Datetime.{Datetime, is_aware, before}
use geopilot_hvac.Historian.{is_member}
use geopilot_hvac.Acquisition.Runner.{
  RunFault, AcquisitionPlan, AcquisitionRunReport, run, success_count, failure_count, total_count,
}

-- `SimulatedPollingError`, by the check that raised it
pub data PollingError : Type 0 where
  blank_identifier naive_datetime inverted_times : PollingError
  duplicate_cycle : Text → PollingError

-- what a polling run may raise
pub data PollingFault (F : Type 0) : Type 0 where
  polling_error : PollingError → PollingFault F
  run_fault : RunFault F → PollingFault F

pub record PollingCycle (V S F : Type 0) : Type 0 where
  pub cycle_id : Text
  pub acquisition_plan : AcquisitionPlan V S F

pub record PollingPlan (V S F : Type 0) : Type 0 where
  pub plan_id : Text
  pub cycles : List (PollingCycle V S F)

pub record CycleReport (V : Type 0) : Type 0 where
  pub cycle_id : Text
  pub run_report : AcquisitionRunReport V

pub record PollingReport (V : Type 0) : Type 0 where
  pub plan_id : Text
  pub started_at : Datetime
  pub completed_at : Datetime
  pub cycle_reports : List (CycleReport V)

-- `_require_identifier`
abbrev pub require_identifier : Text → Result PollingError (Unit {0})
require_identifier value = raise_if (is_blank value) blank_identifier

-- `_require_aware_datetime`
abbrev pub require_aware_datetime : Datetime → Result PollingError (Unit {0})
require_aware_datetime value = raise_if (not (is_aware value)) naive_datetime

module _ {V S F : Type 0} where
  -- `SimulatedPollingCycle(...)` with `__post_init__`
  unfoldable pub polling_cycle : PollingCycle V S F → Result PollingError (PollingCycle V S F)
  polling_cycle c = Results.◌>>◌ (require_identifier c.cycle_id) (ok c)

  -- the loop of `SimulatedPollingPlan.__post_init__`
  unfoldable pub check_cycles :
      List (PollingCycle V S F) → List Text → Result PollingError (Unit {0})
  check_cycles [] cycle_ids = ok tt
  check_cycles (c ∷ cs) cycle_ids =
      let rest = check_cycles cs (c.cycle_id ∷ cycle_ids) in
      if is_member c.cycle_id cycle_ids then err (duplicate_cycle c.cycle_id) else rest

  -- `SimulatedPollingPlan(...)` with `__post_init__`
  unfoldable pub polling_plan : PollingPlan V S F → Result PollingError (PollingPlan V S F)
  polling_plan p =
      Results.◌>>◌ (require_identifier p.plan_id) (Results.◌>>◌ (check_cycles p.cycles []) (ok p))

-- `SimulatedPollingCycleReport(...)` with `__post_init__`
unfoldable pub cycle_report : {V : Type 0} → CycleReport V → Result PollingError (CycleReport V)
cycle_report r = Results.◌>>◌ (require_identifier r.cycle_id) (ok r)

-- `SimulatedPollingReport(...)` with `__post_init__`
unfoldable pub polling_report :
    {V : Type 0} → PollingReport V → Result PollingError (PollingReport V)
polling_report r = Results.◌>>◌ (require_identifier r.plan_id) (
    Results.◌>>◌ (require_aware_datetime r.started_at) (
      Results.◌>>◌ (require_aware_datetime r.completed_at)
        (Results.◌>>◌ (raise_if (before r.completed_at r.started_at) inverted_times) (ok r))))

-- `sum(... for report in self.cycle_reports)`
abbrev pub sum_over : {V : Type 0} → (AcquisitionRunReport V → ℕ) → List (CycleReport V) → ℕ
sum_over count [] = 0
sum_over count (r ∷ rs) = count r.run_report + sum_over count rs

module _ {V : Type 0} where
  -- `cycle_count`
  abbrev pub cycle_count : PollingReport V → ℕ
  cycle_count r = length r.cycle_reports

  -- `success_count`
  abbrev pub polled_successes : PollingReport V → ℕ
  polled_successes r = sum_over success_count r.cycle_reports

  -- `failure_count`
  abbrev pub polled_failures : PollingReport V → ℕ
  polled_failures r = sum_over failure_count r.cycle_reports

  -- `total_count`
  abbrev pub polled_total : PollingReport V → ℕ
  polled_total r = sum_over total_count r.cycle_reports

module _ {V S F : Type 0} (clock runner_clock : S → Datetime) where
  -- the loop of `SimulatedPollingRunner.run`
  unfoldable pub poll_cycles :
      List (PollingCycle V S F) → Exec S (PollingFault F) (List (CycleReport V))
  poll_cycles [] = pure []
  poll_cycles (c ∷ cs) = do
    report ← λ s. let (x, s') = run runner_clock c.acquisition_plan s in (map_err run_fault x, s')
    first ← lift (
        map_err polling_error
          (cycle_report (record { cycle_id = c.cycle_id; run_report = report })))
    rest ← poll_cycles cs
    pure (first ∷ rest)

  -- `SimulatedPollingRunner.run`
  unfoldable pub poll : PollingPlan V S F → Exec S (PollingFault F) (PollingReport V)
  poll plan = do
    started_at ← gets clock
    reports ← poll_cycles plan.cycles
    completed_at ← gets clock
    lift (
        map_err polling_error (
          polling_report (record {
            plan_id = plan.plan_id;
            started_at = started_at;
            completed_at = completed_at;
            cycle_reports = reports;
          })))
