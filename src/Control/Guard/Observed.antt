-- ===== src/Control/Guard/Observed.antt =====
-- The transport of the command guard, watched from outside.
use geopilot_hvac.Prelude.{
  ℕ, suc, ◌≡◌, ◌⊎◌, inl, inr, Option, none, some, List, [], ◌∷◌, Text, ◌==◌, Dict, insert, Result,
  ok, err, arith, if◌then◌else◌, Bool, ℤ,
}
use geopilot_hvac.Prelude.Exec.{Exec}
use geopilot_hvac.Datetime.{Datetime}
use geopilot_hvac.Modbus.Write.{CoilWriteRequest, CoilWriteResponse, WriteFault, coil_write_request}
use geopilot_hvac.Control.Policy.{ControlTarget}
use geopilot_hvac.Control.Record.{CommandRequest}
use geopilot_hvac.Control.Guard.{
  ControlService, State, conclude, send, issue, append, issued_record,
}
use geopilot_hvac.Prelude.{◌∙◌}
use geopilot_hvac.Prelude.{ap}

-- the target is noted if the write returned a response
abbrev pub noted : Result WriteFault CoilWriteResponse → Text → List Text → List Text
noted (ok response) target_id log = target_id ∷ log
noted (err _) target_id log = log

-- The same transport, on a bus that carries a log of the writes that returned a response.
abbrev pub logged :
    {B : Type 0}
    → (CoilWriteRequest → Exec B WriteFault CoilWriteResponse)
    → CoilWriteRequest
    → Exec (B × List Text) WriteFault CoilWriteResponse
logged write_coil request (bus, log) =
    let (r, bus') = write_coil request bus in (r, (bus', noted r request.target_id log))

abbrev pub logged_transport :
    {B : Type 0}
    → Option (CoilWriteRequest → Exec B WriteFault CoilWriteResponse)
    → Option (CoilWriteRequest → Exec (B × List Text) WriteFault CoilWriteResponse)
logged_transport none = none
logged_transport (some write_coil) = some (logged write_coil)

-- The same service, whose writes are logged.
abbrev pub logging : {J B : Type 0} → ControlService J B → ControlService J (B × List Text)
logging c = record {
  policy = c.policy;
  write_coil = logged_transport c.write_coil;
  journal = c.journal;
  clock = c.clock;
}

-- how often a target stands in a log
abbrev pub count : Text → List Text → ℕ
count t [] = 0
count t (x ∷ xs) = if x == t then suc (count t xs) else count t xs

-- what the cache becomes by a write
abbrev noted_time :
    Result WriteFault CoilWriteResponse → Text → Datetime → Dict Datetime → Dict Datetime
noted_time (ok response) target_id now times = insert target_id now times
noted_time (err _) target_id now times = times

-- Nothing was written and the cache stayed as it was, or one write of the target returned a
-- response and the cache has its time.
abbrev pub Effect :
    {J B : Type 0} → Text → Datetime → State J (B × List Text) → State J (B × List Text) → Type 0
Effect target_id now s s' =
    ((s'.last_applied ≡ s.last_applied) × (s'.bus.1 ≡ s.bus.1))
    ⊎ ((s'.last_applied ≡ insert target_id now s.last_applied) × (s'.bus.1 ≡ target_id ∷ s.bus.1))

target_id-coil_write_request :
    (id target_id : Text) (unit address : ℤ) (closed : Bool) {request : CoilWriteRequest}
    → coil_write_request id target_id unit address closed ≡ ok request
    → request.target_id ≡ target_id
unfolding coil_write_request
target_id-coil_write_request id target_id unit address closed h = ground arith

module _ {J B : Type 0} (c : ControlService J B) where
  send-logged :
      (write_coil : CoilWriteRequest → Exec B WriteFault CoilWriteResponse)
      (command : CommandRequest) (target : ControlTarget) (s : State J (B × List Text))
      → let (r, s') = send (logging c) (logged write_coil) command target s in
        (s'.last_applied ≡ s.last_applied) × (s'.bus.1 ≡ noted r target.target_id s.bus.1)
  unfolding send
  send-logged write_coil command target s = grind (arith, target_id-coil_write_request)

  conclude_noted :
      (command : CommandRequest) (target : ControlTarget) (now : Datetime)
      (r : Result WriteFault CoilWriteResponse) (s : State J (B × List Text))
      → let s' = (conclude (logging c) command target now r s).1 in
        (s'.last_applied ≡ noted_time r target.target_id now s.last_applied) × (s'.bus ≡ s.bus)
  unfolding conclude
  conclude_noted command target now r s = ground arith

  noted-Effect :
      (target_id : Text) (now : Datetime) (r : Result WriteFault CoilWriteResponse)
      (s s' : State J (B × List Text))
      → s'.last_applied ≡ noted_time r target_id now s.last_applied
      → s'.bus.1 ≡ noted r target_id s.bus.1
      → Effect target_id now s s'
  noted-Effect target_id now (ok response) s s' h k = inr (h, k)
  noted-Effect target_id now (err _) s s' h k = inl (h, k)

  pub issue-Effect :
      (write_coil : CoilWriteRequest → Exec B WriteFault CoilWriteResponse)
      (command : CommandRequest) (target : ControlTarget) (now : Datetime)
      (s : State J (B × List Text))
      → Effect target.target_id now s (issue (logging c) (logged write_coil) command target now s).1
  unfolding issue
  issue-Effect write_coil command target now s =
      let s1 = (append (logging c) (issued_record command now) s).1 in
      let (r, s2) = send (logging c) (logged write_coil) command target s1 in
      let s3 = (conclude (logging c) command target now r s2).1 in
      let (known, written) = send-logged write_coil command target s1 in
      let (times, bus) = conclude_noted command target now r s2 in
      ground (
        arith,
        noted-Effect target.target_id now r s s3
            (times ∙ ap (noted_time r target.target_id now) known) (ap (λ b. b.1) bus ∙ written),
      )
