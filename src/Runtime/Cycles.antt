-- ===== src/Runtime/Cycles.antt =====
-- How long `run_cycles` runs, and that a cycle that fails does not end it.
use geopilot_hvac.Prelude.{
  ℕ, zero, suc, ◌+◌, ◌<◌, ◌≤◌, ◌≡◌, refl, sym, ap, ◌∙◌, arith, Bool, true, false, Bool-cases, inl,
  inr, Option, none, some, List, [], ◌∷◌, pos, ltb_ℤ, ok, err, length,
}
use geopilot_hvac.Runtime.{CycleOutcome, Pacing, cycle_loop, played, asks_stop, pause, run_cycles}
use geopilot_hvac.Runtime.{recorded}
use geopilot_hvac.Runtime.{goes_on}
use geopilot_hvac.Prelude.{subst}
use geopilot_hvac.Runtime.{is_complete}
use geopilot_hvac.Datetime.{Datetime}
use geopilot_hvac.Acquisition.Runner.{RunFault}
use geopilot_hvac.Acquisition.Runner.{AcquisitionPlan}
use geopilot_hvac.Runtime.{run_cycle}
use geopilot_hvac.Acquisition.Runner.{run}
use geopilot_hvac.Runtime.{outcome_of}

module _ {V S F : Type 0} (session : S → CycleOutcome V F × S) (p : Pacing V S F) where
  -- the state when the cycle after `index` cycles has been played and the question of stopping asked
  abbrev after_round : ℕ → S → S
  after_round index s = pause session p (asks_stop session p (played session p (suc index) s).1).1

  -- the answer of `should_stop` after `k` more rounds
  abbrev pub stop_after : ℕ → ℕ → S → Bool
  stop_after index zero s = (asks_stop session p (played session p (suc index) s).1).0
  stop_after index (suc k) s = stop_after (suc index) k (after_round index s)

  -- The loop ends after a number of cycles.
  abbrev pub EndsAfter : ℕ → Option (List (CycleOutcome V F) × S) → Type 0
  EndsAfter n r =
      (outcomes : List (CycleOutcome V F)) × (s : S) × (r ≡ some (outcomes, s))
      × (length outcomes ≡ n)

  within :
      (i m : ℕ)
      → p.cycles ≡ some (pos m)
      → i < m
      → (goes_on session p i ≡ true) × (is_complete session p i ≡ false)
  within i m limit h = rw limit (ground arith, ground arith)

  past :
      (i m : ℕ)
      → p.cycles ≡ some (pos m)
      → m ≤ i
      → (goes_on session p i ≡ false) × (is_complete session p i ≡ true)
  past i m limit h = rw limit (ground arith, ground arith)

  -- A round that goes on adds its cycle to those of the rest.
  one_more :
      (n : ℕ) (outcome : CycleOutcome V F) (r : Option (List (CycleOutcome V F) × S))
      → EndsAfter n r
      → EndsAfter (suc n) (recorded session p outcome r)
  one_more n outcome r (outcomes, s, e, len) =
      (outcome ∷ outcomes, s, ap (recorded session p outcome) e, ap suc len)

  going_round :
      (fuel index : ℕ) (s : S)
      → goes_on session p index ≡ true
      → is_complete session p (suc index) ≡ false
      → stop_after index zero s ≡ false
      → cycle_loop session p (suc fuel) index s
        ≡ recorded session p
            (session s).0
            (cycle_loop session p fuel (suc index) (after_round index s))
  unfolding cycle_loop
  going_round fuel index s go more calm = rw (go, more, calm) refl

  counted_loop :
      (n index fuel : ℕ) (s : S)
      → p.cycles ≡ some (pos (index + n))
      → ((k : ℕ) → suc k < n → stop_after index k s ≡ false)
      → n < fuel
      → EndsAfter n (cycle_loop session p fuel index s)
  unfolding cycle_loop
  counted_loop n index zero s limit calm enough = elim enough [ ]
  counted_loop zero index (suc fuel) s limit calm enough =
      ([], s, rw ((past index (index + 0) limit (omega arith)).0) refl, refl)
  counted_loop (suc zero) index (suc fuel) s limit calm enough =
      let (outcome, s1) = played session p (suc index) s in
      (
        outcome ∷ [],
        s1,
        rw
            (
              (within index (index + 1) limit (omega arith)).0,
              (past (suc index) (index + 1) limit (omega arith)).1,
            )
            refl,
        refl,
      )
  counted_loop (suc (suc n)) index (suc fuel) s limit calm enough =
      subst (λ r. EndsAfter (suc (suc n)) r)
        (sym (
          going_round fuel index s (within index (index + suc (suc n)) limit (omega arith)).0
            (within (suc index) (index + suc (suc n)) limit (omega arith)).1
            (calm 0 (omega arith))))
        (one_more (suc n) (session s).0
          (cycle_loop session p fuel (suc index) (after_round index s))
          (counted_loop (suc n) (suc index) fuel (after_round index s)
            (limit
              ∙ ap (λ (m : ℕ). some (pos m))
                  (let e : index + suc (suc n) ≡ suc index + suc n = omega arith in e))
            (λ k h. calm (suc k) (omega arith)) (omega arith)))

  stopped_loop :
      (k index fuel : ℕ) (s : S)
      → p.cycles ≡ none
      → ((j : ℕ) → j < k → stop_after index j s ≡ false)
      → stop_after index k s ≡ true
      → k < fuel
      → EndsAfter (suc k) (cycle_loop session p fuel index s)
  unfolding cycle_loop
  stopped_loop k index zero s endless calm last enough = elim enough [ ]
  stopped_loop zero index (suc fuel) s endless calm last enough = (
    (session s).0 ∷ [],
    (asks_stop session p (played session p (suc index) s).1).1,
    rw (endless, last) refl,
    refl,
  )
  stopped_loop (suc k) index (suc fuel) s endless calm last enough =
      subst (λ r. EndsAfter (suc (suc k)) r)
        (sym (going_round fuel index s (rw endless refl) (rw endless refl) (calm 0 (omega arith))))
        (one_more (suc k) (session s).0
          (cycle_loop session p fuel (suc index) (after_round index s))
          (stopped_loop k (suc index) fuel (after_round index s) endless
            (λ j h. calm (suc j) (omega arith)) last (omega arith)))

  -- `run_cycles` returns a number of outcomes.
  abbrev pub Returns : ℕ → ℕ → S → Type 0
  Returns fuel n s =
      (outcomes : List (CycleOutcome V F)) × (t : S) × (run_cycles session p fuel s
        ≡ ok (some (outcomes, t)))
      × (length outcomes ≡ n)

  -- A run of n cycles, whose interval is not negative and which is not stopped before its last
  -- cycle, returns n outcomes; n + 1 rounds of fuel are enough.
  pub run_cycles_counted :
      (n fuel : ℕ) (s : S)
      → ltb_ℤ p.interval_seconds (pos 0) ≡ false
      → p.cycles ≡ some (pos n)
      → ((k : ℕ) → suc k < n → stop_after 0 k s ≡ false)
      → n < fuel
      → Returns fuel n s
  unfolding run_cycles
  run_cycles_counted n fuel s positive limit calm enough =
      let (outcomes, t, e, len) =
        counted_loop n 0 fuel s
          (limit ∙ ap (λ (m : ℕ). some (pos m)) (let e : n ≡ 0 + n = omega arith in e)) calm
          enough in
      (outcomes, t, rw positive (ap ok e), len)

  -- A run without a count, whose interval is not negative, ends with the cycle after which
  -- should_stop first says so, and has an outcome for that and each earlier one; fuel for one
  -- round more is enough.
  pub run_cycles_stopped :
      (k fuel : ℕ) (s : S)
      → ltb_ℤ p.interval_seconds (pos 0) ≡ false
      → p.cycles ≡ none
      → ((j : ℕ) → j < k → stop_after 0 j s ≡ false)
      → stop_after 0 k s ≡ true
      → k < fuel
      → Returns fuel (suc k) s
  unfolding run_cycles
  run_cycles_stopped k fuel s positive endless calm last enough =
      let (outcomes, t, e, len) = stopped_loop k 0 fuel s endless calm last enough in
      (outcomes, t, rw positive (ap ok e), len)

  -- Every outcome has the property.
  abbrev pub AllOutcomes : (CycleOutcome V F → Type 0) → List (CycleOutcome V F) → Type 0
  AllOutcomes P [] = Unit
  AllOutcomes P (o ∷ os) = P o × AllOutcomes P os

  module _ (P : CycleOutcome V F → Type 0) (always : (s : S) → P (session s).0) where
    abbrev AllOf : Option (List (CycleOutcome V F) × S) → Type 0
    AllOf none = Unit
    AllOf (some (os, t)) = AllOutcomes P os

    recorded-AllOf :
        (s : S) (r : Option (List (CycleOutcome V F) × S))
        → AllOf r
        → AllOf (recorded session p (session s).0 r)
    recorded-AllOf s none rest = tt
    recorded-AllOf s (some (os, t)) rest = (always s, rest)

    cycle_loop-AllOf : (fuel index : ℕ) (s : S) → AllOf (cycle_loop session p fuel index s)
    unfolding cycle_loop
    cycle_loop-AllOf zero index s = tt
    cycle_loop-AllOf (suc fuel) index s = elim (Bool-cases (goes_on session p index)) [
      | inr over ↦ rw over tt
      | inl go ↦ elim (Bool-cases (is_complete session p (suc index))) [
        | inl done ↦ rw (go, done) (always s, tt)
        | inr more ↦ elim (Bool-cases (stop_after index zero s)) [
          | inl stop ↦ rw (go, more, stop) (always s, tt)
          | inr calm ↦
              rw (go, more, calm)
                (recorded-AllOf s (cycle_loop session p fuel (suc index) (after_round index s))
                  (cycle_loop-AllOf fuel (suc index) (after_round index s)))
        ]
      ]
    ]

-- The cycle failed: it has an error and no report.
abbrev pub IsFailed : {V F : Type 0} → CycleOutcome V F → Type 0
IsFailed {V} {F} o = (o.report ≡ none) × ((fault : RunFault F) × (o.error ≡ some fault))

module _ {V S F : Type 0} (clock : S → Datetime) (plan : AcquisitionPlan V S F)
    (p : Pacing V S F) where
  run_cycle-IsFailed :
      (s : S) {fault : RunFault F}
      → (run clock plan s).0 ≡ err fault
      → IsFailed (run_cycle clock plan s).0
  unfolding run_cycle outcome_of
  run_cycle-IsFailed s {fault = fault} h = rw h (refl, (fault, refl))

  -- Where every run of the plan raises, whatever it raises, a counted run of cycles that is not
  -- stopped returns all the same: it has all its outcomes, each without a report and with an
  -- error.
  pub run_cycles_swallow :
      (n fuel : ℕ) (s : S)
      → ((t : S) → (fault : RunFault F) × ((run clock plan t).0 ≡ err fault))
      → ltb_ℤ p.interval_seconds (pos 0) ≡ false
      → p.cycles ≡ some (pos n)
      → ((k : ℕ) → suc k < n → stop_after (run_cycle clock plan) p 0 k s ≡ false)
      → n < fuel
      → (outcomes : List (CycleOutcome V F)) × (t : S) × (run_cycles (run_cycle clock plan) p fuel s
          ≡ ok (some (outcomes, t)))
        × (length outcomes ≡ n)
        × AllOutcomes (run_cycle clock plan) p IsFailed outcomes
  unfolding run_cycles
  run_cycles_swallow n fuel s raises positive limit calm enough =
      let session = run_cycle clock plan in
      let (outcomes, t, e, len) =
        counted_loop session p n 0 fuel s
          (limit ∙ ap (λ (m : ℕ). some (pos m)) (let e : n ≡ 0 + n = omega arith in e)) calm
          enough in
      (
        outcomes,
        t,
        rw positive (ap ok e),
        len,
        subst (λ r. AllOf session p IsFailed (λ t. run_cycle-IsFailed t (raises t).1) r) e
            (cycle_loop-AllOf session p IsFailed (λ t. run_cycle-IsFailed t (raises t).1) fuel 0 s),
      )
