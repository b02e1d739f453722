-- ===== src/Control/Sqlite/Reused.antt =====
-- A command whose id the journal already has.
use geopilot_hvac.Prelude.{
  subst, ℕ, ◌≡◌, refl, sym, ap, ◌∙◌, arith, true, false, ◌⊎◌, Bool-cases, Option-cases, inl, inr,
  Option, none, some, [], ◌∷◌, ◌++◌, Text, Result, ok, err, if◌then◌else◌,
}
use geopilot_hvac.Prelude.Exec.{Exec, bind}
use geopilot_hvac.Datetime.{Datetime, is_aware}
use geopilot_hvac.Modbus.Write.{
  CoilWriteRequest, CoilWriteResponse, WriteFault, write_error, boundary, other_fault,
}
use geopilot_hvac.Control.Policy.{ControlTarget, ControlPolicy, find_target}
use geopilot_hvac.Control.Record.{
  CommandRequest, CommandRecord, CommandStatus, Detail, applied, failed, refused, empty_detail,
  write_failed, rate_limited, unknown_target, no_transport, control_disabled,
}
use geopilot_hvac.Control.Guard.{
  ControlService, State, Fault, remember, recalled, issue, send, conclude, remaining, limited,
  permitted, targeted, execute, record_outcome, record_of, issued_record,
}
use geopilot_hvac.Control.Guard
use geopilot_hvac.Control.Memory.{Records}
use geopilot_hvac.Control.Sqlite.{has_command, insert_or_ignore, append, sqlite_journal}
use geopilot_hvac.Prelude.Int.{ℤ}
use geopilot_hvac.Prelude.{◌+◌}

append_known :
    (r : CommandRecord) (rows : Records)
    → has_command r.command_id rows ≡ true
    → (append r rows).1 ≡ rows
unfolding append insert_or_ignore
append_known r rows known = ground (arith, known)

has_command_more :
    (id : Text) (rows more : Records)
    → has_command id rows ≡ true
    → has_command id (rows ++ more) ≡ true
unfolding has_command
has_command_more id [] more h = cc h
has_command_more id (r ∷ rows) more h = ground (arith, has_command_more id rows more)

-- The service on a SQLite journal.
abbrev pub sqlite_service :
    {B : Type 0}
    → ControlPolicy
    → Option (CoilWriteRequest → Exec B WriteFault CoilWriteResponse)
    → (ℕ → Datetime)
    → ControlService Records B
sqlite_service policy write_coil clock = record {
  policy = policy;
  write_coil = write_coil;
  journal = sqlite_journal;
  clock = clock;
}

-- The journal is as it was, or has the intent besides.
abbrev pub IsSwallowed : CommandRequest → Datetime → Records → Records → Type 0
IsSwallowed command now rows rows' =
    (rows' ≡ rows) ⊎ (rows' ≡ rows ++ issued_record command now ∷ [])

module _ {B : Type 0} (policy : ControlPolicy)
    (write_coil : Option (CoilWriteRequest → Exec B WriteFault CoilWriteResponse))
    (clock : ℕ → Datetime) where
  abbrev service : ControlService Records B
  service = sqlite_service policy write_coil clock

  record_outcome_known :
      (command : CommandRequest) (status : CommandStatus) (note : Detail) (now : Datetime)
      (s : State Records B)
      → has_command command.command_id s.journal ≡ true
      → (record_outcome service command status note now s).1.journal ≡ s.journal
  unfolding sqlite_journal append insert_or_ignore
  record_outcome_known command status note now s known = ground (arith, known)

  conclude_known :
      (command : CommandRequest) (target : ControlTarget) (now : Datetime)
      (w : Result WriteFault CoilWriteResponse) (s : State Records B)
      → has_command command.command_id s.journal ≡ true
      → (conclude service command target now w s).1.journal ≡ s.journal
  unfolding conclude
  conclude_known command target now (ok response) s known =
      record_outcome_known command applied empty_detail now _ known
  conclude_known command target now (err (write_error e)) s known =
      record_outcome_known command failed (write_failed e.code) now s known
  conclude_known command target now (err (boundary e)) s known = refl
  conclude_known command target now (err (other_fault e)) s known = refl

  send_known :
      (write : CoilWriteRequest → Exec B WriteFault CoilWriteResponse) (command : CommandRequest)
      (target : ControlTarget) (s : State Records B)
      → (send service write command target s).1.journal ≡ s.journal
  unfolding send
  send_known write command target s = ground arith

  remember_known : (t : Text) (s : State Records B) → (remember service t s).1.journal ≡ s.journal
  unfolding remember recalled sqlite_journal
  remember_known t s = ground arith

  -- what the intent makes of the journal
  intent_known :
      (command : CommandRequest) (now : Datetime) (s : State Records B)
      → has_command command.command_id s.journal ≡ true
      → let s' = (Guard.append service (issued_record command now) s).1 in
        IsSwallowed command now s.journal s'.journal
        × (has_command command.command_id s'.journal ≡ true)
  unfolding sqlite_journal append insert_or_ignore
  intent_known command now s known =
      let id = (issued_record command now).command_id in
      elim (Bool-cases (is_aware now)) [
        | inr naive ↦ rw (naive, append) (inl refl, known)
        | inl aware ↦ elim (Bool-cases (has_command id s.journal)) [
          | inl again ↦ rw (aware, again, append) (inl refl, known)
          | inr fresh ↦
              rw (aware, fresh, append)
                (
                  inr refl,
                  has_command_more command.command_id s.journal (issued_record command now ∷ [])
                      known,
                )
        ]
      ]

  -- what follows the intent leaves the journal alone
  after_intent :
      (write : CoilWriteRequest → Exec B WriteFault CoilWriteResponse) (command : CommandRequest)
      (target : ControlTarget) (now : Datetime) (rows : Records)
      (x : Result Fault (Unit {0}) × State Records B)
      → IsSwallowed command now rows x.1.journal
      → has_command command.command_id x.1.journal ≡ true
      → IsSwallowed command now rows
          (bind
            (λ _ s.
              let (r, s') = send service write command target s in
              conclude service command target now r s')
            x).1.journal
  after_intent write command target now rows (err e, s) swallowed known = swallowed
  after_intent write command target now rows (ok _, s) swallowed known =
      let sent = send_known write command target s in
      let (r, s') = send service write command target s in
      let kept : (conclude service command target now r s').1.journal ≡ s.journal =
        conclude_known command target now r s' (ap (has_command command.command_id) sent ∙ known)
        ∙ sent in
      subst (IsSwallowed command now rows) (sym kept) swallowed

  issue_known :
      (write : CoilWriteRequest → Exec B WriteFault CoilWriteResponse) (command : CommandRequest)
      (target : ControlTarget) (now : Datetime) (s : State Records B)
      → has_command command.command_id s.journal ≡ true
      → IsSwallowed command now s.journal (issue service write command target now s).1.journal
  unfolding issue
  issue_known write command target now s known =
      let (swallowed, still) = intent_known command now s known in
      after_intent write command target now s.journal
        (Guard.append service (issued_record command now) s) swallowed still

  limited_known :
      (write : CoilWriteRequest → Exec B WriteFault CoilWriteResponse) (command : CommandRequest)
      (target : ControlTarget) (now : Datetime) (s : State Records B)
      → has_command command.command_id s.journal ≡ true
      → IsSwallowed command now s.journal (limited service write command target now s).1.journal
  unfolding limited
  limited_known write command target now s known =
      let same = remember_known target.target_id s in
      let (previous, s') = remember service target.target_id s in
      let known' = ap (has_command command.command_id) same ∙ known in
      let swallowed : IsSwallowed command now s'.journal
          (limited service write command target now s).1.journal =
        elim (remaining target now previous)
          as (λ (o : Option ℤ).
            IsSwallowed command now s'.journal
              (let x : Result Fault CommandRecord × State Records B = elim o [
                | some left ↦ record_outcome service command refused (rate_limited left) now s'
                | none ↦ issue service write command target now s'
              ] in
                x).1.journal) [
                  | some left ↦
                      inl (record_outcome_known command refused (rate_limited left) now s' known')
                  | none ↦ issue_known write command target now s' known'
                ] in
      subst
        (λ (rows : Records).
          IsSwallowed command now rows (limited service write command target now s).1.journal)
        same swallowed

  permitted_known :
      (transport : Option (CoilWriteRequest → Exec B WriteFault CoilWriteResponse))
      (command : CommandRequest) (target : ControlTarget) (now : Datetime) (s : State Records B)
      → has_command command.command_id s.journal ≡ true
      → IsSwallowed command now s.journal
          (permitted service transport command target now s).1.journal
  unfolding permitted
  permitted_known none command target now s known =
      inl (record_outcome_known command failed no_transport now s known)
  permitted_known (some write) command target now s known =
      limited_known write command target now s known

  targeted_known :
      (command : CommandRequest) (now : Datetime) (s : State Records B)
      → has_command command.command_id s.journal ≡ true
      → IsSwallowed command now s.journal (targeted service command now s).1.journal
  unfolding targeted
  targeted_known command now s known =
      elim (Option-cases (find_target command.target_id policy.targets)) [
        | inl stranger ↦
            rw (stranger, targeted)
              (inl (record_outcome_known command refused unknown_target now s known))
        | inr (target, listed) ↦
            rw (listed, targeted) (permitted_known write_coil command target now s known)
      ]

  -- A command whose id the SQLite journal already has leaves the journal as it was, or adds its
  -- intent alone: whatever becomes of the command, its outcome is not stored.
  pub execute-IsSwallowed :
      (command : CommandRequest) (s : State Records B)
      → has_command command.command_id s.journal ≡ true
      → IsSwallowed command (clock s.ticks) s.journal (execute service command s).1.journal
  unfolding execute
  execute-IsSwallowed command s known =
      let now = clock s.ticks in
      let s1 = record s { ticks = s.ticks + 1 } in
      elim policy.enabled
        as (λ on.
          IsSwallowed command now s.journal
            ((if on
                then targeted service command now
                else record_outcome service command refused control_disabled now)
              s1).1.journal) [
                | true ↦ targeted_known command now s1 known
                | false ↦ inl (record_outcome_known command refused control_disabled now s1 known)
              ]
