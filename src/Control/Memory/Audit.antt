-- ===== src/Control/Memory/Audit.antt =====
-- What the journal holds after a command: nothing moves without a record.
use geopilot_hvac.Prelude.{
  ℕ, ◌≡◌, refl, ◌⊎◌, inl, inr, true, false, Option, none, some, Result, if◌then◌else◌, Option-cases,
  [], ◌∷◌, ◌++◌, ◌+◌, ap,
}
use geopilot_hvac.Prelude.Exec.{Exec}
use geopilot_hvac.Datetime.{Datetime}
use geopilot_hvac.Modbus.Write.{CoilWriteRequest, CoilWriteResponse, WriteFault}
use geopilot_hvac.Control.Policy.{ControlTarget, ControlPolicy, find_target}
use geopilot_hvac.Control.Record.{
  CommandRequest, CommandRecord, CommandStatus, refused, failed, Detail, rate_limited,
  unknown_target, no_transport, control_disabled,
}
use geopilot_hvac.Control.Guard.{
  ControlService, State, Fault, remember, issue, remaining, limited, permitted, targeted, execute,
  record_outcome, record_of,
}
use geopilot_hvac.Control.Memory.{Records, memory_service}
use geopilot_hvac.Control.Memory.Trail.{Untouched, Attempted, remember_lem, issue_lem}

module _ {B : Type 0} (policy : ControlPolicy)
    (write_coil : Option (CoilWriteRequest → Exec B WriteFault CoilWriteResponse))
    (clock : ℕ → Datetime) where
  abbrev service : ControlService Records B
  service = memory_service policy write_coil clock

  record_outcome-Untouched :
      (command : CommandRequest) (status : CommandStatus) (detail : Detail) (now : Datetime)
      (s u : State Records B)
      → s.journal ≡ u.journal
      → s.bus ≡ u.bus
      → (status ≡ refused) ⊎ (status ≡ failed)
      → let (r, s') = record_outcome service command status detail now s in Untouched u r s'
  record_outcome-Untouched command status detail now s u same_journal same_bus kind = record {
    outcome = record_of command status detail now;
    bus = same_bus;
    returned = refl;
    journal = ap (λ (x : Records). x ++ record_of command status detail now ∷ []) same_journal;
    kind = kind;
  }

  -- What a call makes of the state in which it was made.
  abbrev pub Audited :
      CommandRequest → State Records B → Result Fault CommandRecord × State Records B → Type 0
  Audited command s (r, s') = Untouched s r s' ⊎ Attempted service command s r s'

  limited_audit :
      (write : CoilWriteRequest → Exec B WriteFault CoilWriteResponse) (command : CommandRequest)
      (target : ControlTarget) (s : State Records B)
      → policy.enabled ≡ true
      → find_target command.target_id policy.targets ≡ some target
      → write_coil ≡ some write
      → Audited command s
          (limited service write command target (clock s.ticks) (record s { ticks = s.ticks + 1 }))
  unfolding limited
  limited_audit write command target s on permitted configured =
      let now = clock s.ticks in
      let s1 = record s { ticks = s.ticks + 1 } in
      let (previous, s2) = remember service target.target_id s1 in
      let (kept, bus) = remember_lem policy write_coil clock target.target_id s1 in
      elim (remaining target now previous)
        as (λ o. Audited command s (elim o [
          | some left ↦ record_outcome service command refused (rate_limited left) now s2
          | none ↦ issue service write command target now s2
        ])) [
          | some left ↦ inl (
              record_outcome-Untouched command refused (rate_limited left) now s2 s kept bus
                (inl refl))
          | none ↦
              let (trail, journal, sent, concluded) =
                issue_lem policy write_coil clock write command target now s2 s kept bus in
              inr (record {
                target = target;
                write = write;
                trail = trail;
                enabled = on;
                permitted = permitted;
                configured = configured;
                journal = journal;
                bus = sent;
                concluded = concluded;
              })
        ]

  permitted_audit :
      (w : Option (CoilWriteRequest → Exec B WriteFault CoilWriteResponse))
      (command : CommandRequest) (target : ControlTarget) (s : State Records B)
      → policy.enabled ≡ true
      → find_target command.target_id policy.targets ≡ some target
      → write_coil ≡ w
      → Audited command s
          (permitted service w command target (clock s.ticks) (record s { ticks = s.ticks + 1 }))
  unfolding permitted
  permitted_audit none command target s on listed absent =
      let s1 = record s { ticks = s.ticks + 1 } in
      inl (
        record_outcome-Untouched command failed no_transport (clock s.ticks) s1 s refl refl
          (inr refl))
  permitted_audit (some write) command target s on listed configured =
      limited_audit write command target s on listed configured

  targeted_audit :
      (command : CommandRequest) (s : State Records B)
      → policy.enabled ≡ true
      → Audited command s
          (targeted service command (clock s.ticks) (record s { ticks = s.ticks + 1 }))
  unfolding targeted
  targeted_audit command s on =
      let now = clock s.ticks in
      let s1 = record s { ticks = s.ticks + 1 } in
      elim (Option-cases (find_target command.target_id policy.targets)) [
        | inl stranger ↦
            rw (stranger, targeted)
              (inl (
                record_outcome-Untouched command refused unknown_target now s1 s refl refl
                  (inl refl)))
        | inr (target, listed) ↦
            rw (listed, targeted) (permitted_audit write_coil command target s on listed refl)
      ]

  -- With a memory journal, every command ends in one of two ways: either the bus is as it was, and
  -- the journal has one new record, a refusal or a failure, which is the result; or control is
  -- enabled, the policy lists the target, the journal has the intent, the bus is what the one
  -- write of that target made of it, and what the journal has behind the intent, and the result,
  -- are the outcome of that write: applied, failed with its code, or nothing and the fault that it
  -- raised.
  pub execute_audit :
      (command : CommandRequest) (s : State Records B)
      → Audited command s (execute service command s)
  unfolding execute
  execute_audit command s =
      let now = clock s.ticks in
      let s1 = record s { ticks = s.ticks + 1 } in
      (elim policy.enabled
          as (λ on.
            policy.enabled ≡ on
            → Audited command s (
                (if on
                    then targeted service command now
                    else record_outcome service command refused control_disabled now)
                  s1)) [
                    | true ↦ targeted_audit command s
                    | false ↦ λ _. inl (
                        record_outcome-Untouched command refused control_disabled now s1 s refl refl
                          (inl refl))
                  ])
        refl
