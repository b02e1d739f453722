-- ===== src/Control/Guard/RateLimit.antt =====
-- The rate limit of `_execute`, over any sequence of commands.
use geopilot_hvac.Prelude.{
  ℕ, zero, suc, ◌≡◌, refl, arith, inl, inr, ◌-◌, ◌+◌, ◌++◌, ◌∙◌, length, Option, none, some, Text,
  lookup, List, [], ◌∷◌, ◌≤ℤ◌, ◌+ℤ◌, pos,
}
use geopilot_hvac.Datetime.{Datetime}
use geopilot_hvac.Control.Policy.{ControlTarget, find_target}
use geopilot_hvac.Control.Record.{CommandRequest}
use geopilot_hvac.Control.Guard.{ControlService, State, execute, execute_all}
use geopilot_hvac.Control.Guard.Observed.{logging, count}
use geopilot_hvac.Control.Guard.Spacing.{IsLater, Moves, execute-Moves}

abbrev pub add_time : Option Datetime → List Datetime → List Datetime
add_time none times = times
add_time (some d) times = d ∷ times

abbrev repeated : ℕ → Datetime → List Datetime
repeated zero d = []
repeated (suc n) d = d ∷ repeated n d

-- The times at which a run of commands operated one target, in order: for each command the time
-- that the clock showed it, once for every write of the target that the log gained by it.
abbrev pub operated_times :
    {J B : Type 0} (c : ControlService J B)
    → Text
    → List CommandRequest
    → State J (B × List Text)
    → List Datetime
operated_times c t [] s = []
operated_times c t (command ∷ commands) s =
    let s' = (execute (logging c) command s).1 in
    repeated (count t s'.bus.1 - count t s.bus.1) (c.clock s.ticks)
    ++ operated_times c t commands s'

-- Each time is at least `m` microseconds after the one before it.
abbrev pub IsSpaced : ℕ → List Datetime → Type 0
IsSpaced m [] = Unit
IsSpaced m (d ∷ []) = Unit
IsSpaced m (d ∷ e ∷ times) = (d.instant +ℤ pos m ≤ℤ e.instant) × IsSpaced m (e ∷ times)

IsSpaced-tail :
    (m : ℕ) (d : Datetime) (times : List Datetime) → IsSpaced m (d ∷ times) → IsSpaced m times
IsSpaced-tail m d [] h = tt
IsSpaced-tail m d (e ∷ times) h = h.1

IsSpaced-add_time :
    (m : ℕ) (o : Option Datetime) (times : List Datetime)
    → IsSpaced m (add_time o times)
    → IsSpaced m times
IsSpaced-add_time m none times h = h
IsSpaced-add_time m (some d) times h = IsSpaced-tail m d times h

IsSpaced-IsLater :
    (m : ℕ) (o : Option Datetime) (d : Datetime) (times : List Datetime)
    → IsLater m o d
    → IsSpaced m (d ∷ times)
    → IsSpaced m (add_time o (d ∷ times))
IsSpaced-IsLater m none d times h spaced = spaced
IsSpaced-IsLater m (some p) d times h spaced = (h, spaced)

-- One call in front of a spaced run.
IsSpaced-Moves :
    {J B : Type 0} (m : ℕ) (t : Text) (now : Datetime) (s s' : State J (B × List Text))
    (times : List Datetime)
    → Moves m t now s s'
    → IsSpaced m (add_time (lookup t s'.last_applied) times)
    → let here = repeated (count t s'.bus.1 - count t s.bus.1) now in
      IsSpaced m (add_time (lookup t s.last_applied) (here ++ times))
      × (length (here ++ times) + count t s.bus.1 ≡ length times + count t s'.bus.1)
IsSpaced-Moves m t now s s' times (inl (e, inl unknown)) spaced =
    let none_left : count t s.bus.1 - count t s.bus.1 ≡ 0 = omega arith in
    rw (e, unknown, none_left) (IsSpaced-add_time m (lookup t s'.last_applied) times spaced, refl)
IsSpaced-Moves m t now s s' times (inl (e, inr known)) spaced =
    let none_left : count t s.bus.1 - count t s.bus.1 ≡ 0 = omega arith in
    rw (e, known, none_left) (spaced, refl)
IsSpaced-Moves m t now s s' times (inr (e, after, later)) spaced =
    let one : suc (count t s.bus.1) - count t s.bus.1 ≡ 1 = omega arith in
    rw (e, one)
      (
        IsSpaced-IsLater m (lookup t s.last_applied) now times later (rw after at spaced),
        omega arith,
      )

module _ {J B : Type 0} (c : ControlService J B) where
  -- Whatever the journal, the transport and the clock do, and whichever commands are refused, fail
  -- or raise, the times of the operations of a target of the policy in a run of commands are at
  -- least the target's minimum interval apart, the first of them also after the time that the
  -- service already knew. An operation is a write of the target for which the transport returned a
  -- response, whatever becomes of the command afterwards, seen in a log on the transport; its time
  -- is the clock's reading for the command; and each such write of the run is one of them. A write
  -- that raised is no operation, even where it moved the relay.
  pub execute_all-IsSpaced :
      (commands : List CommandRequest) (t : Text) (own : ControlTarget)
      (s : State J (B × List Text))
      → find_target t c.policy.targets ≡ some own
      → let times = operated_times c t commands s in
        IsSpaced own.minimum_interval (add_time (lookup t s.last_applied) times)
        × (length times + count t s.bus.1 ≡ count t (execute_all (logging c) commands s).1.bus.1)
  unfolding execute_all
  execute_all-IsSpaced [] t own s found = (
    elim (lookup t s.last_applied) as (λ o. IsSpaced own.minimum_interval (add_time o [])) [
      | none ↦ tt
      | some p ↦ tt
    ],
    omega arith,
  )
  execute_all-IsSpaced (command ∷ commands) t own s found =
      let s' = (execute (logging c) command s).1 in
      let (spaced, all) = execute_all-IsSpaced commands t own s' found in
      let (apart, counted) =
        IsSpaced-Moves own.minimum_interval t (c.clock s.ticks) s s'
          (operated_times c t commands s') (execute-Moves c command t own s found) spaced in
      (apart, counted ∙ all)
