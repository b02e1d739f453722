-- ===== src/Runtime/Tests.antt =====
-- Runs of a session whose plan fails every time, and stops that a counter asks for.
use geopilot_hvac.Prelude.{
  ◌≡◌, refl, ℕ, zero, suc, ◌<◌, arith, false, eqb, none, some, List, [], ◌∷◌, pos, Text, text, ok,
  err, length,
}
use geopilot_hvac.Datetime.{utc}
use geopilot_hvac.Acquisition.Runner.{AcquisitionPlan, RunFault, request_fault, run, run_requests}
use geopilot_hvac.Runtime.{CycleOutcome, Pacing, run_cycle, run_cycles}
use geopilot_hvac.Runtime.Cycles.{
  Returns, stop_after, IsFailed, AllOutcomes, run_cycles_counted, run_cycles_stopped,
  run_cycles_swallow,
}

-- The state counts the readings of the disk; the disk is full.
abbrev full_disk : AcquisitionPlan ℕ ℕ Text
full_disk = record {
  plan_id = text "installation";
  requests =
      record {
        request_id = text "modbus";
        profile_id = none;
        executor = λ n. (err (text "disk full"), suc n);
      }
      ∷ [];
}

full_disk_raises :
    (n : ℕ) → (fault : RunFault Text) × ((run (λ s. utc 1) full_disk n).0 ≡ err fault)
unfolding run run_requests
full_disk_raises n = (request_fault (text "disk full"), refl)

abbrev three_times : Pacing ℕ ℕ Text
three_times = record {
  cycles = some (pos 3);
  interval_seconds = pos 60;
  sleeper = λ seconds n. n;
  on_cycle = none;
  should_stop = none;
}

abbrev session : ℕ → CycleOutcome ℕ Text × ℕ
session = run_cycle (λ s. utc 1) full_disk

never_stops :
    (p : Pacing ℕ ℕ Text)
    → p.should_stop ≡ none
    → (k index n : ℕ) → stop_after session p index k n ≡ false
never_stops p h zero index n = rw h refl
never_stops p h (suc k) index n = never_stops p h k (suc index) _

run_cycles_counted_example : Returns session three_times 4 3 0
run_cycles_counted_example =
    run_cycles_counted session three_times 3 4 0 refl refl
      (λ k h. never_stops three_times refl k 0 0) (omega arith)

run_cycles_swallow_example :
    (outcomes : List (CycleOutcome ℕ Text)) × (t : ℕ) × (run_cycles session three_times 4 0
      ≡ ok (some (outcomes, t)))
    × (length outcomes ≡ 3)
    × AllOutcomes session three_times IsFailed outcomes
run_cycles_swallow_example =
    run_cycles_swallow (λ s. utc 1) full_disk three_times 3 4 0 full_disk_raises refl refl
      (λ k h. never_stops three_times refl k 0 0) (omega arith)

-- stops when two cycles have been played
abbrev until_two : Pacing ℕ ℕ Text
until_two = record {
  cycles = none;
  interval_seconds = pos 60;
  sleeper = λ seconds n. n;
  on_cycle = none;
  should_stop = some (λ n. (eqb n 2, n));
}

calm_before : (j : ℕ) → j < 1 → stop_after session until_two 0 j 0 ≡ false
unfolding run_cycle run run_requests
calm_before zero h = refl
calm_before (suc j) h = absurd (omega arith)

run_cycles_stopped_example : Returns session until_two 5 2 0
unfolding run_cycle run run_requests
run_cycles_stopped_example =
    run_cycles_stopped session until_two 1 5 0 refl refl calm_before refl (omega arith)
