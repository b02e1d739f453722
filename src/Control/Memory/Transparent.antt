-- ===== src/Control/Memory/Transparent.antt =====
-- A restart of the service, which empties its cache, changes nothing of what it does.
use geopilot_hvac.Prelude.{
  ℕ, ◌≡◌, refl, sym, ap, ◌∙◌, true, false, inl, inr, Option, none, some, Option-cases, List, [],
  ◌∷◌, Text, lookup, Result, if◌then◌else◌,
}
use geopilot_hvac.Prelude.Exec.{Exec}
use geopilot_hvac.Datetime.{Datetime}
use geopilot_hvac.Modbus.Write.{CoilWriteRequest, CoilWriteResponse, WriteFault}
use geopilot_hvac.Control.Policy.{ControlTarget, ControlPolicy, find_target}
use geopilot_hvac.Control.Record.{CommandRequest, CommandRecord, refused, failed}
use geopilot_hvac.Control.Guard.{
  ControlService, State, Fault, remember, recalled, issue, remaining, limited, permitted, targeted,
  execute, execute_all, record_outcome,
}
use geopilot_hvac.Control.Guard.Spacing.{find_target_id}
use geopilot_hvac.Control.Memory.{Records, memory_service, last_applied_at}
use geopilot_hvac.Control.Memory.Restart.{
  IsCached, restarted, IsSame, IsAlike, IsAlike-cache, IsCached-insert,
}
use geopilot_hvac.Prelude.{ap₂}
use geopilot_hvac.Control.Record.{unknown_target}
use geopilot_hvac.Control.Record.{rate_limited}
use geopilot_hvac.Control.Record.{no_transport}
use geopilot_hvac.Prelude.Int.{ℤ}
use geopilot_hvac.Prelude.{◌+◌}
use geopilot_hvac.Control.Record.{control_disabled}
use geopilot_hvac.Control.Memory.Alike.{IsAlike-then, record_outcome-IsAlike, issue-IsAlike}

module _ {B : Type 0} (policy : ControlPolicy)
    (write_coil : Option (CoilWriteRequest → Exec B WriteFault CoilWriteResponse))
    (clock : ℕ → Datetime) where
  abbrev service : ControlService Records B
  service = memory_service policy write_coil clock

  -- What the service remembers is what the journal says.
  record Recalls (t : Text) (s : State Records B) (x : Option Datetime × State Records B)
      : Type 0 where
    previous : x.0 ≡ last_applied_at t s.journal
    state : restarted x.1 ≡ restarted s
    cached : IsCached x.1

  remember-Recalls :
      (t : Text) (s : State Records B) → IsCached s → Recalls t s (remember service t s)
  unfolding remember recalled
  remember-Recalls t s good = elim (Option-cases (lookup t s.last_applied)) [
    | inr (d, known) ↦
        rw (known, remember)
          (record { previous = sym (good t d known); state = refl; cached = good })
    | inl missing ↦ elim (Option-cases (last_applied_at t s.journal)) [
      | inl never ↦
          rw (missing, remember)
            (rw never (record { previous = sym never; state = refl; cached = good }))
      | inr (at, known) ↦
          rw (missing, remember)
            (rw known (record {
              previous = sym known;
              state = refl;
              cached = IsCached-insert s t at known good;
            }))
    ]
  ]

  remember-IsAlike : (t : Text) → IsAlike (remember service t)
  remember-IsAlike t s s' e good good' =
      let here = remember-Recalls t s good in
      let there = remember-Recalls t s' good' in
      record {
        result =
            here.previous
            ∙ ap (λ (x : State Records B). last_applied_at t x.journal) e
            ∙ sym there.previous;
        state = here.state ∙ e ∙ sym there.state;
        left = here.cached;
        right = there.cached;
      }

  limited-IsAlike :
      (write : CoilWriteRequest → Exec B WriteFault CoilWriteResponse) (command : CommandRequest)
      (target : ControlTarget) (now : Datetime)
      → command.target_id ≡ target.target_id
      → IsAlike (limited service write command target now)
  unfolding limited
  limited-IsAlike write command target now own =
      IsAlike-then (remember service target.target_id)
        (λ previous s. elim (remaining target now previous) [
          | some left ↦ record_outcome service command refused (rate_limited left) now s
          | none ↦ issue service write command target now s
        ])
        (remember-IsAlike target.target_id)
        (λ previous.
          elim (remaining target now previous)
            as (λ (o : Option ℤ). IsAlike {B = B} {R = Result Fault CommandRecord} (λ s. elim o [
              | some left ↦ record_outcome service command refused (rate_limited left) now s
              | none ↦ issue service write command target now s
            ])) [
              | some left ↦
                  record_outcome-IsAlike policy write_coil clock command refused (rate_limited left)
                    now refl
              | none ↦ issue-IsAlike policy write_coil clock write command target now own
            ])

  permitted-IsAlike :
      (transport : Option (CoilWriteRequest → Exec B WriteFault CoilWriteResponse))
      (command : CommandRequest) (target : ControlTarget) (now : Datetime)
      → command.target_id ≡ target.target_id
      → IsAlike (permitted service transport command target now)
  unfolding permitted
  permitted-IsAlike none command target now own =
      record_outcome-IsAlike policy write_coil clock command failed no_transport now refl
  permitted-IsAlike (some write) command target now own =
      limited-IsAlike write command target now own

  targeted-IsAlike :
      (command : CommandRequest) (now : Datetime) → IsAlike (targeted service command now)
  unfolding targeted
  targeted-IsAlike command now =
      elim (Option-cases (find_target command.target_id policy.targets)) [
        | inl stranger ↦
            rw (stranger, targeted)
              (record_outcome-IsAlike policy write_coil clock command refused unknown_target now
                refl)
        | inr (target, listed) ↦
            rw (listed, targeted)
              (permitted-IsAlike write_coil command target now
                (sym (find_target_id command.target_id policy.targets listed)))
      ]

  execute-IsAlike : (command : CommandRequest) → IsAlike (execute service command)
  unfolding execute
  execute-IsAlike command =
      IsAlike-then (λ s. (clock s.ticks, record s { ticks = s.ticks + 1 }))
        (λ now.
          if policy.enabled
          then targeted service command now
          else record_outcome service command refused control_disabled now)
        (IsAlike-cache {R = Datetime} _ (λ s cache good good'. record {
          result = refl;
          state = refl;
          left = good;
          right = good';
        }))
        (λ now.
          elim policy.enabled
            as (λ b. IsAlike {B = B} {R = Result Fault CommandRecord} (
              if b
              then targeted service command now
              else record_outcome service command refused control_disabled now)) [
                | true ↦ targeted-IsAlike command now
                | false ↦
                    record_outcome-IsAlike policy write_coil clock command refused control_disabled
                      now refl
              ])

  execute_all-restarted :
      (commands : List CommandRequest) (s s' : State Records B)
      → restarted s ≡ restarted s'
      → IsCached s
      → IsCached s'
      → IsSame (execute_all service commands s) (execute_all service commands s')
  unfolding execute_all
  execute_all-restarted [] s s' e good good' = record {
    result = refl;
    state = e;
    left = good;
    right = good';
  }
  execute_all-restarted (command ∷ commands) s s' e good good' =
      let first = execute-IsAlike command s s' e good good' in
      let rest = execute_all-restarted commands _ _ first.state first.left first.right in
      record {
        result =
            ap₂
              (λ (r : Result Fault CommandRecord) (rs : List (Result Fault CommandRecord)). r ∷ rs)
              first.result rest.result;
        state = rest.state;
        left = rest.left;
        right = rest.right;
      }

  -- a service that was just made, with an empty journal
  abbrev pub started : B → ℕ → State Records B
  started bus ticks = record { journal = []; bus = bus; last_applied = []; ticks = ticks }

  -- On a memory journal, a service that is restarted after any commands, and so has lost its
  -- cache, answers all later commands as it would have without the restart: the results, the
  -- journal, the bus and the readings of the clock are the same, and in both runs the cache has no
  -- time that is not the journal's.
  pub execute_all-IsSame :
      (earlier later : List CommandRequest) (bus : B) (ticks : ℕ)
      → let s = (execute_all service earlier (started bus ticks)).1 in
        IsSame (execute_all service later s) (execute_all service later (restarted s))
  unfolding lookup
  execute_all-IsSame earlier later bus ticks =
      let empty : IsCached (started bus ticks) = λ t d found. cc found in
      let ran =
        execute_all-restarted earlier (started bus ticks) (started bus ticks) refl empty empty in
      execute_all-restarted later _ _ refl ran.left (λ t d found. cc found)
