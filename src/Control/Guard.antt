-- ===== src/Control/Guard.antt =====
-- `ControlService`: decide, execute and record one command.
pub mod Cache
pub mod Observed
pub mod Spacing
pub mod RateLimit
use geopilot_hvac.Prelude.{
  ℕ, ◌+◌, Option, none, some, List, [], ◌∷◌, ◌++◌, ℤ, pos, ltb_ℤ, ◌-ℤ◌, Text, text, Dict, lookup,
  insert, Result, ok, err, map_err, if◌then◌else◌,
}
use geopilot_hvac.Prelude.Exec.{Exec, pure, raise, modify, ◌>>=◌, ◌>>◌}
use geopilot_hvac.Datetime.{Datetime, elapsed}
use geopilot_hvac.Modbus.Write.{
  CoilWriteRequest, CoilWriteResponse, WriteFault, write_error, boundary, other_fault,
  coil_write_request,
}
use geopilot_hvac.Control.Policy.{ControlTarget, ControlPolicy, find_target}
use geopilot_hvac.Control.Record.{
  CommandStatus, issued, applied, refused, failed, Detail, control_disabled, unknown_target,
  rate_limited, no_transport, write_issued, empty_detail, write_failed, CommandRequest,
  CommandRecord,
}

-- `CommandJournal`, with the `last_applied_at` that `_remember` looks for by `getattr`. A journal
-- that cannot be written or asked raises a fault.
pub record Journal (J : Type 0) : Type 0 where
  pub append : CommandRecord → Exec J Text (Unit {0})
  pub last_applied_at : Option (Text → Exec J Text (Option Datetime))

-- The arguments of `ControlService(...)`; `B` is the state of the bus behind the transport.
pub record ControlService (J B : Type 0) : Type 0 where
  pub policy : ControlPolicy
  pub write_coil : Option (CoilWriteRequest → Exec B WriteFault CoilWriteResponse)
  pub journal : Journal J
  pub clock : ℕ → Datetime

-- What the service and its collaborators keep between two commands. `ticks` counts the clock's
-- readings.
pub record State (J B : Type 0) : Type 0 where
  pub journal : J
  pub bus : B
  pub last_applied : Dict Datetime
  pub ticks : ℕ

-- What `execute` may raise.
pub data Fault : Type 0 where
  journal_fault : Text → Fault
  transport_fault : WriteFault → Fault

-- the suffix that keeps the intent apart from the outcome
abbrev pub issued_id : Text → Text
issued_id command_id = command_id ++ text "/issued"

-- the record of `command` that `_record` builds
abbrev pub record_of : CommandRequest → CommandStatus → Detail → Datetime → CommandRecord
record_of command status detail now = record {
  command_id = command.command_id;
  target_id = command.target_id;
  closed = command.closed;
  reason = command.reason;
  status = status;
  detail = detail;
  decided_at = now;
}

-- the intent that goes to the journal before the bus is touched
abbrev pub issued_record : CommandRequest → Datetime → CommandRecord
issued_record command now = record (record_of command issued write_issued now) {
  command_id = issued_id command.command_id;
}

-- how much of the minimum interval is left, if any; the TypeError of a naive and an aware time is left out
unfoldable pub remaining : ControlTarget → Datetime → Option Datetime → Option ℤ
remaining target now none = none
remaining target now (some previous) =
    let gone = elapsed now previous in
    if ltb_ℤ gone (pos target.minimum_interval)
    then some (pos target.minimum_interval -ℤ gone)
    else none

module _ {J B : Type 0} (c : ControlService J B) where
  -- `self._clock()`
  abbrev pub read_clock : Exec (State J B) Fault Datetime
  read_clock s = (ok (c.clock s.ticks), record s { ticks = s.ticks + 1 })

  -- `self._journal.append(record)`
  abbrev pub append : CommandRecord → Exec (State J B) Fault (Unit {0})
  append r s =
      let (outcome, journal) = c.journal.append r s.journal in
      (map_err journal_fault outcome, record s { journal = journal })

  -- `_record`
  abbrev pub record_outcome :
      CommandRequest → CommandStatus → Detail → Datetime → Exec (State J B) Fault CommandRecord
  record_outcome command status detail now = do
    append (record_of command status detail now)
    pure (record_of command status detail now)

  -- what `_remember` makes of the journal's answer: a fault counts as no answer
  unfoldable pub recalled :
      Text → Result Text (Option Datetime) → State J B → Option Datetime × State J B
  recalled target_id (ok (some at)) s =
      (some at, record s { last_applied = insert target_id at s.last_applied })
  recalled target_id (ok none) s = (none, s)
  recalled target_id (err _) s = (none, s)

  -- `_remember`
  unfoldable pub remember : Text → State J B → Option Datetime × State J B
  remember target_id s = elim (lookup target_id s.last_applied) [
    | some cached ↦ (some cached, s)
    | none ↦ elim c.journal.last_applied_at [
      | none ↦ (none, s)
      | some ask ↦
          let (answer, journal) = ask target_id s.journal in
          recalled target_id answer (record s { journal = journal })
    ]
  ]

  -- the end of `_execute`: the write has returned or raised
  unfoldable pub conclude :
      CommandRequest
      → ControlTarget
      → Datetime
      → Result WriteFault CoilWriteResponse
      → Exec (State J B) Fault CommandRecord
  conclude command target now (ok response) = do
    modify (λ s. record s { last_applied = insert target.target_id now s.last_applied })
    record_outcome command applied empty_detail now
  conclude command target now (err (write_error error)) =
      record_outcome command failed (write_failed error.code) now
  conclude command target now (err (boundary e)) = raise (transport_fault (boundary e))
  conclude command target now (err (other_fault e)) = raise (transport_fault (other_fault e))

  -- the `try` of `_execute`: build the request and hand it to the transport
  unfoldable pub send :
      (CoilWriteRequest → Exec B WriteFault CoilWriteResponse)
      → CommandRequest
      → ControlTarget
      → State J B
      → Result WriteFault CoilWriteResponse × State J B
  send write_coil command target s =
      elim (coil_write_request command.command_id target.target_id (pos target.unit_id)
        (pos target.address) command.closed) [
          | err e ↦ (err (boundary e), s)
          | ok request ↦ let (r, bus) = write_coil request s.bus in (r, record s { bus = bus })
        ]

  -- intent, write, outcome
  unfoldable pub issue :
      (CoilWriteRequest → Exec B WriteFault CoilWriteResponse)
      → CommandRequest
      → ControlTarget
      → Datetime
      → Exec (State J B) Fault CommandRecord
  issue write_coil command target now = do
    append (issued_record command now)
    λ s. let (r, s') = send write_coil command target s in conclude command target now r s'

  -- `_execute` from the rate limit on
  unfoldable pub limited :
      (CoilWriteRequest → Exec B WriteFault CoilWriteResponse)
      → CommandRequest
      → ControlTarget
      → Datetime
      → Exec (State J B) Fault CommandRecord
  limited write_coil command target now s =
      let (previous, s') = remember target.target_id s in
      elim (remaining target now previous) [
        | some left ↦ record_outcome command refused (rate_limited left) now s'
        | none ↦ issue write_coil command target now s'
      ]

  -- `_execute` from the test of the transport on
  unfoldable pub permitted :
      Option (CoilWriteRequest → Exec B WriteFault CoilWriteResponse)
      → CommandRequest
      → ControlTarget
      → Datetime
      → Exec (State J B) Fault CommandRecord
  permitted none command target now = record_outcome command failed no_transport now
  permitted (some write_coil) command target now = limited write_coil command target now

  -- `_execute` from the lookup of the target on
  unfoldable pub targeted : CommandRequest → Datetime → Exec (State J B) Fault CommandRecord
  targeted command now = elim (find_target command.target_id c.policy.targets) [
    | none ↦ record_outcome command refused unknown_target now
    | some target ↦ permitted c.write_coil command target now
  ]

  -- `_execute`
  unfoldable pub execute : CommandRequest → Exec (State J B) Fault CommandRecord
  execute command = do
    now ← read_clock
    if c.policy.enabled
        then targeted command now
        else record_outcome command refused control_disabled now

  -- Commands one after another: a caller goes on after a refusal, a failure or a fault.
  unfoldable pub execute_all :
      List CommandRequest → State J B → List (Result Fault CommandRecord) × State J B
  execute_all [] s = ([], s)
  execute_all (command ∷ commands) s =
      let (r, s') = execute command s in let (rs, s'') = execute_all commands s' in (r ∷ rs, s'')
