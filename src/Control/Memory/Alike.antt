-- ===== src/Control/Memory/Alike.antt =====
-- The steps of a command do the same whatever the cache, as long as the journal explains it.
use geopilot_hvac.Prelude.{subst, ℕ, ◌≡◌, refl, false, Option, Result, ok, err}
use geopilot_hvac.Prelude.Exec.{Exec}
use geopilot_hvac.Datetime.{Datetime}
use geopilot_hvac.Modbus.Write.{
  CoilWriteRequest, CoilWriteResponse, WriteFault, write_error, boundary, other_fault,
  coil_write_request, WriteBoundaryError,
}
use geopilot_hvac.Control.Policy.{ControlTarget, ControlPolicy}
use geopilot_hvac.Control.Record.{
  CommandRequest, CommandStatus, is_applied, applied, failed, Detail, empty_detail, write_failed,
}
use geopilot_hvac.Control.Guard.{
  ControlService, State, issue, send, conclude, record_outcome, record_of, issued_record,
}
use geopilot_hvac.Control.Memory.{Records, memory_service}
use geopilot_hvac.Control.Memory.Restart.{
  with_cache, IsSame, IsAlike, IsAlike-cache, IsCached-append, IsCached-applied,
}
use geopilot_hvac.Prelude.{pos}
use geopilot_hvac.Control.Guard.{append}

-- One method behind another, with what the first returned.
pub IsAlike-then :
    {B R Q : Type 0} (f : State Records B → R × State Records B)
    (g : R → State Records B → Q × State Records B)
    → IsAlike f
    → ((r : R) → IsAlike (g r))
    → IsAlike (λ s. g (f s).0 (f s).1)
IsAlike-then f g first second s s' e good good' =
    let same = first s s' e good good' in
    subst (λ r. IsSame (g (f s).0 (f s).1) (g r (f s').1)) same.result
      (second (f s).0 (f s).1 (f s').1 same.state same.left same.right)

module _ {B : Type 0} (policy : ControlPolicy)
    (write_coil : Option (CoilWriteRequest → Exec B WriteFault CoilWriteResponse))
    (clock : ℕ → Datetime) where
  abbrev service : ControlService Records B
  service = memory_service policy write_coil clock

  pub record_outcome-IsAlike :
      (command : CommandRequest) (status : CommandStatus) (detail : Detail) (now : Datetime)
      → is_applied status ≡ false
      → IsAlike (record_outcome service command status detail now)
  record_outcome-IsAlike command status note now plain = IsAlike-cache _ (λ s cache good good'.
      record {
        result = refl;
        state = refl;
        left = IsCached-append s (record_of command status note now) plain good;
        right =
            IsCached-append (with_cache cache s) (record_of command status note now) plain good';
      })

  pub conclude-IsAlike :
      (command : CommandRequest) (target : ControlTarget) (now : Datetime)
      (w : Result WriteFault CoilWriteResponse)
      → command.target_id ≡ target.target_id
      → IsAlike (conclude service command target now w)
  unfolding conclude
  conclude-IsAlike command target now (ok response) own = IsAlike-cache _ (λ s cache good good'.
      record {
        result = refl;
        state = refl;
        left =
            IsCached-applied s (record_of command applied empty_detail now) target.target_id refl
              own good;
        right =
            IsCached-applied (with_cache cache s) (record_of command applied empty_detail now)
              target.target_id refl own good';
      })
  conclude-IsAlike command target now (err (write_error error)) own =
      record_outcome-IsAlike command failed (write_failed error.code) now refl
  conclude-IsAlike command target now (err (boundary e)) own =
      IsAlike-cache _
        (λ s cache good good'. record { result = refl; state = refl; left = good; right = good' })
  conclude-IsAlike command target now (err (other_fault e)) own =
      IsAlike-cache _
        (λ s cache good good'. record { result = refl; state = refl; left = good; right = good' })

  pub send-IsAlike :
      (write : CoilWriteRequest → Exec B WriteFault CoilWriteResponse) (command : CommandRequest)
      (target : ControlTarget)
      → IsAlike (send service write command target)
  unfolding send
  send-IsAlike write command target = IsAlike-cache _ (λ s cache good good'.
      (elim (coil_write_request command.command_id target.target_id (pos target.unit_id)
          (pos target.address) command.closed)
        as (λ (q : Result WriteBoundaryError CoilWriteRequest).
          IsSame {B = B} {R = Result WriteFault CoilWriteResponse}
            (elim q [
              | err e ↦ (err (boundary e), s)
              | ok request ↦ let (r, bus) = write request s.bus in (r, record s { bus = bus })
            ])
            (elim q [
              | err e ↦ (err (boundary e), with_cache cache s)
              | ok request ↦
                  let (r, bus) = write request s.bus in
                  (r, record (with_cache cache s) { bus = bus })
            ])) [
              | err e ↦ record { result = refl; state = refl; left = good; right = good' }
              | ok request ↦ record { result = refl; state = refl; left = good; right = good' }
            ]))

  pub issue-IsAlike :
      (write : CoilWriteRequest → Exec B WriteFault CoilWriteResponse) (command : CommandRequest)
      (target : ControlTarget) (now : Datetime)
      → command.target_id ≡ target.target_id
      → IsAlike (issue service write command target now)
  unfolding issue
  issue-IsAlike write command target now own =
      IsAlike-then (append service (issued_record command now))
        (λ _ s.
          let (r, s') = send service write command target s in
          conclude service command target now r s')
        (IsAlike-cache (append service (issued_record command now)) (λ s cache good good'. record {
          result = refl;
          state = refl;
          left = IsCached-append s (issued_record command now) refl good;
          right = IsCached-append (with_cache cache s) (issued_record command now) refl good';
        }))
        (λ _.
          IsAlike-then (send service write command target) (conclude service command target now)
            (send-IsAlike write command target) (λ w. conclude-IsAlike command target now w own))
