-- ===== src/Acquisition/Runner.antt =====
-- backend/src/geopilot/acquisition_runner.py: the requests of a plan, one after another, and the report of a
-- run. An executor works on a state `S` and may raise `F`.
pub mod Counts
pub mod Reads
pub mod Polling
pub mod Totals
mod Tests
use geopilot_hvac.Prelude.{
  ℕ, Bool, not, ◌||◌, Option, none, some, List, [], ◌∷◌, ◌++◌, map, Text, ◌==◌, is_blank, Result,
  ok, err, map_err, if◌then◌else◌, length,
}
use geopilot_hvac.Prelude.Results.{raise_if}
use geopilot_hvac.Prelude.Results
use geopilot_hvac.Prelude.Exec.{Exec, lift, pure, gets, ◌>>=◌}
use geopilot_hvac.Datetime.{Datetime, is_aware, before}
use geopilot_hvac.Historian.{is_member}
use geopilot_hvac.Acquisition.{AcquisitionResult, successful_measurements, failures}

-- `AcquisitionRunnerError`, by the check that raised it
pub data RunnerError : Type 0 where
  blank_identifier naive_datetime inverted_times : RunnerError
  duplicate_request : Text → RunnerError

-- what a run may raise
pub data RunFault (F : Type 0) : Type 0 where
  runner_error : RunnerError → RunFault F
  request_fault : F → RunFault F

pub record AcquisitionRequest (V S F : Type 0) : Type 0 where
  pub request_id : Text
  pub profile_id : Option Text
  pub executor : Exec S F (List (AcquisitionResult V))

pub record AcquisitionPlan (V S F : Type 0) : Type 0 where
  pub plan_id : Text
  pub requests : List (AcquisitionRequest V S F)

pub record AcquisitionRunReport (V : Type 0) : Type 0 where
  pub plan_id : Text
  pub started_at : Datetime
  pub completed_at : Datetime
  pub results : List (AcquisitionResult V)

-- `_require_identifier`
abbrev pub require_identifier : Text → Result RunnerError (Unit {0})
require_identifier value = raise_if (is_blank value) blank_identifier

-- `_require_optional_identifier`
abbrev pub require_optional_identifier : Option Text → Result RunnerError (Unit {0})
require_optional_identifier none = ok tt
require_optional_identifier (some value) = require_identifier value

-- `_require_aware_datetime`
abbrev pub require_aware_datetime : Datetime → Result RunnerError (Unit {0})
require_aware_datetime value = raise_if (not (is_aware value)) naive_datetime

module _ {V S F : Type 0} where
  -- `AcquisitionRequest(...)` with `__post_init__`
  unfoldable pub acquisition_request :
      AcquisitionRequest V S F → Result RunnerError (AcquisitionRequest V S F)
  acquisition_request r =
      Results.◌>>◌ (require_identifier r.request_id)
        (Results.◌>>◌ (require_optional_identifier r.profile_id) (ok r))

  -- the loop of `AcquisitionPlan.__post_init__`
  unfoldable pub check_requests :
      List (AcquisitionRequest V S F) → List Text → Result RunnerError (Unit {0})
  check_requests [] request_ids = ok tt
  check_requests (r ∷ rs) request_ids =
      let rest = check_requests rs (r.request_id ∷ request_ids) in
      if is_member r.request_id request_ids then err (duplicate_request r.request_id) else rest

  -- `AcquisitionPlan(...)` with `__post_init__`
  unfoldable pub acquisition_plan :
      AcquisitionPlan V S F → Result RunnerError (AcquisitionPlan V S F)
  acquisition_plan p =
      Results.◌>>◌ (require_identifier p.plan_id)
        (Results.◌>>◌ (check_requests p.requests []) (ok p))

module _ {V : Type 0} where
  -- `AcquisitionRunReport(...)` with `__post_init__`
  unfoldable pub run_report : AcquisitionRunReport V → Result RunnerError (AcquisitionRunReport V)
  run_report r = Results.◌>>◌ (require_identifier r.plan_id) (
      Results.◌>>◌ (require_aware_datetime r.started_at) (
        Results.◌>>◌ (require_aware_datetime r.completed_at)
          (Results.◌>>◌ (raise_if (before r.completed_at r.started_at) inverted_times) (ok r))))

  -- `success_count`
  abbrev pub success_count : AcquisitionRunReport V → ℕ
  success_count r = length (successful_measurements r.results)

  -- `failure_count`
  abbrev pub failure_count : AcquisitionRunReport V → ℕ
  failure_count r = length (failures r.results)

  -- `total_count`
  abbrev pub total_count : AcquisitionRunReport V → ℕ
  total_count r = length r.results

module _ {V S F : Type 0} where
  -- the loop of `run`
  unfoldable pub run_requests :
      List (AcquisitionRequest V S F) → Exec S (RunFault F) (List (AcquisitionResult V))
  run_requests [] = pure []
  run_requests (r ∷ rs) = do
    first ← λ s. let (x, s') = r.executor s in (map_err request_fault x, s')
    rest ← run_requests rs
    pure (first ++ rest)

  -- `AcquisitionRunner.run`
  unfoldable pub run :
      (S → Datetime) → AcquisitionPlan V S F → Exec S (RunFault F) (AcquisitionRunReport V)
  run clock plan = do
    started_at ← gets clock
    results ← run_requests plan.requests
    completed_at ← gets clock
    lift (
        map_err runner_error (
          run_report (record {
            plan_id = plan.plan_id;
            started_at = started_at;
            completed_at = completed_at;
            results = results;
          })))
