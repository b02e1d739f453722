-- ===== src/Runtime.antt =====
-- The cycles of backend/src/geopilot/runtime.py: `AcquisitionSession.run_cycle`, `run_cycles` and the numbers
-- of `summarize`. What the exceptions of a run say is not kept, only the fault.
pub mod Cycles
pub mod Executors
pub mod Session
pub mod Recorded
pub mod Assembled
pub mod Planned
mod Tests
use geopilot_hvac.Prelude.{
  ℕ, zero, suc, ◌+◌, Bool, true, false, Option, none, some, List, [], ◌∷◌, ℤ, pos, ltb_ℤ, Result,
  ok, err, if◌then◌else◌,
}
use geopilot_hvac.Datetime.{Datetime}
use geopilot_hvac.Acquisition.Runner.{
  AcquisitionPlan, AcquisitionRunReport, RunFault, run, success_count, failure_count,
}

-- `CycleOutcome`
pub record CycleOutcome (V F : Type 0) : Type 0 where
  pub report : Option (AcquisitionRunReport V)
  pub error : Option (RunFault F)

-- `succeeded`
abbrev pub succeeded : {V F : Type 0} → CycleOutcome V F → Bool
succeeded o = elim o.report [ none ↦ false | some _ ↦ true ]

-- the two ends of `run_cycle`
unfoldable pub outcome_of :
    {V F : Type 0} → Result (RunFault F) (AcquisitionRunReport V) → CycleOutcome V F
outcome_of (ok report) = record { report = some report; error = none }
outcome_of (err fault) = record { report = none; error = some fault }

module _ {V S F : Type 0} (clock : S → Datetime) (plan : AcquisitionPlan V S F) where
  -- `run_cycle`
  unfoldable pub run_cycle : S → CycleOutcome V F × S
  run_cycle s = let (r, s') = run clock plan s in (outcome_of r, s')

-- The arguments of `run_cycles`, with what its callbacks do to the state: `should_stop` answers.
pub record Pacing (V S F : Type 0) : Type 0 where
  pub cycles : Option ℤ
  pub interval_seconds : ℤ
  pub sleeper : ℤ → S → S
  pub on_cycle : Option (ℕ → CycleOutcome V F → S → S)
  pub should_stop : Option (S → Bool × S)

-- `ValueError` of a negative interval
pub data PacingError : Type 0 where
  negative_interval : PacingError

module _ {V S F : Type 0} (session : S → CycleOutcome V F × S) (p : Pacing V S F) where
  -- `cycles is None or index < cycles`
  abbrev pub goes_on : ℕ → Bool
  goes_on index = elim p.cycles [ none ↦ true | some cycles ↦ ltb_ℤ (pos index) cycles ]

  -- `cycles is not None and index >= cycles`
  abbrev pub is_complete : ℕ → Bool
  is_complete index = elim p.cycles [
    | none ↦ false
    | some cycles ↦ if ltb_ℤ (pos index) cycles then false else true
  ]

  abbrev pub announce : ℕ → CycleOutcome V F → S → S
  announce index outcome s = elim p.on_cycle [ none ↦ s | some call ↦ call index outcome s ]

  abbrev pub asks_stop : S → Bool × S
  asks_stop s = elim p.should_stop [ none ↦ (false, s) | some call ↦ call s ]

  -- `if interval_seconds: sleeper(interval_seconds)`
  abbrev pub pause : S → S
  pause s = if ltb_ℤ (pos 0) p.interval_seconds then p.sleeper p.interval_seconds s else s

  -- what a cycle and its callback leave, with the outcome
  abbrev pub played : ℕ → S → CycleOutcome V F × S
  played index s = let (outcome, s') = session s in (outcome, announce index outcome s')

  abbrev pub recorded :
      CycleOutcome V F → Option (List (CycleOutcome V F) × S) → Option (List (CycleOutcome V F) × S)
  recorded outcome none = none
  recorded outcome (some (outcomes, s)) = some (outcome ∷ outcomes, s)

  -- The loop of `run_cycles` after `index` cycles; `none` means that the fuel ran out.
  unfoldable pub cycle_loop : ℕ → ℕ → S → Option (List (CycleOutcome V F) × S)
  cycle_loop zero index s = none
  cycle_loop (suc fuel) index s =
      let (outcome, s1) = played (suc index) s in
      let (stop, s2) = asks_stop s1 in
      let more = recorded outcome (cycle_loop fuel (suc index) (pause s2)) in
      if goes_on index
      then (if is_complete (suc index)
          then some (outcome ∷ [], s1)
          else if stop
          then some (outcome ∷ [], s2)
          else more)
      else some ([], s)

  -- `run_cycles`, on fuel
  unfoldable pub run_cycles : ℕ → S → Result PacingError (Option (List (CycleOutcome V F) × S))
  run_cycles fuel s =
      if ltb_ℤ p.interval_seconds (pos 0) then err negative_interval else ok (cycle_loop fuel 0 s)

-- the measurements that `summarize` calls stored
unfoldable pub stored_measurements : {V F : Type 0} → List (CycleOutcome V F) → ℕ
stored_measurements [] = 0
stored_measurements (o ∷ os) =
    elim o.report [ none ↦ 0 | some report ↦ success_count report ] + stored_measurements os

-- the read failures of `summarize`
unfoldable pub read_failures : {V F : Type 0} → List (CycleOutcome V F) → ℕ
read_failures [] = 0
read_failures (o ∷ os) =
    elim o.report [ none ↦ 0 | some report ↦ failure_count report ] + read_failures os

-- the cycles that `summarize` calls completed
unfoldable pub completed_cycles : {V F : Type 0} → List (CycleOutcome V F) → ℕ
completed_cycles [] = 0
completed_cycles (o ∷ os) = (if succeeded o then 1 else 0) + completed_cycles os
