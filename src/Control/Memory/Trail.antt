-- ===== src/Control/Memory/Trail.antt =====
-- What the steps of a command leave in the journal.
use geopilot_hvac.Prelude.{
  ℕ, ◌≡◌, refl, ◌⊎◌, true, Option, some, Text, Result, ok, err, arith, List, [], ◌∷◌, ◌++◌, sym, ap,
  subst, ◌∙◌,
}
use mathlib.Core.List.{append-nil, append_assoc}
use geopilot_hvac.Prelude.Exec.{Exec}
use geopilot_hvac.Datetime.{Datetime}
use geopilot_hvac.Modbus.Write.{
  CoilWriteRequest, CoilWriteResponse, WriteFault, write_error, other_fault, boundary,
}
use geopilot_hvac.Control.Policy.{ControlTarget, ControlPolicy, find_target}
use geopilot_hvac.Control.Record.{
  CommandRequest, CommandRecord, applied, refused, failed, write_failed, empty_detail,
}
use geopilot_hvac.Control.Guard.{
  ControlService, State, Fault, remember, recalled, issue, send, conclude, transport_fault,
  issued_record, record_of,
}
use geopilot_hvac.Control.Memory.{Records, memory_service}

-- The bus was left alone, and the one new record is the result: a refusal or a failure.
pub record Untouched {B : Type 0} (s : State Records B) (r : Result Fault CommandRecord)
    (s' : State Records B) : Type 0 where
  pub outcome : CommandRecord
  pub bus : s'.bus ≡ s.bus
  pub returned : r ≡ ok outcome
  pub journal : s'.journal ≡ s.journal ++ outcome ∷ []
  pub kind : (outcome.status ≡ refused) ⊎ (outcome.status ≡ failed)

-- What follows the intent in the journal, by how the write ended.
abbrev pub Concluded :
    Result WriteFault CoilWriteResponse → Result Fault CommandRecord → List CommandRecord → Type 0
Concluded (ok _) r trail =
    (outcome : CommandRecord) × (r ≡ ok outcome)
    × (trail ≡ outcome ∷ [])
    × (outcome.status ≡ applied)
Concluded (err (write_error e)) r trail =
    (outcome : CommandRecord) × (r ≡ ok outcome)
    × (trail ≡ outcome ∷ [])
    × (outcome.status ≡ failed)
    × (outcome.detail ≡ write_failed e.code)
Concluded (err f) r trail = (r ≡ err (transport_fault f)) × (trail ≡ [])

-- The write was permitted, its intent was journaled, and the outcome follows the intent.
pub record Attempted {B : Type 0} (c : ControlService Records B) (command : CommandRequest)
    (s : State Records B) (r : Result Fault CommandRecord) (s' : State Records B) : Type 0 where
  pub target : ControlTarget
  pub write : CoilWriteRequest → Exec B WriteFault CoilWriteResponse
  pub trail : List CommandRecord
  pub enabled : c.policy.enabled ≡ true
  pub permitted : find_target command.target_id c.policy.targets ≡ some target
  pub configured : c.write_coil ≡ some write
  pub journal : s'.journal ≡ s.journal ++ issued_record command (c.clock s.ticks) ∷ trail
  pub bus : s'.bus ≡ (send c write command target s).1.bus
  pub concluded : Concluded (send c write command target s).0 r trail

module _ {B : Type 0} (policy : ControlPolicy)
    (write_coil : Option (CoilWriteRequest → Exec B WriteFault CoilWriteResponse))
    (clock : ℕ → Datetime) where
  abbrev service : ControlService Records B
  service = memory_service policy write_coil clock

  pub remember_lem :
      (t : Text) (s : State Records B)
      → let s' = (remember service t s).1 in (s'.journal ≡ s.journal) × (s'.bus ≡ s.bus)
  unfolding remember recalled
  remember_lem t s = ground arith

  pub conclude_lem :
      (command : CommandRequest) (target : ControlTarget) (now : Datetime)
      (w : Result WriteFault CoilWriteResponse) (s : State Records B)
      → let (r, s') = conclude service command target now w s in
        (trail : List CommandRecord) × (s'.journal ≡ s.journal ++ trail)
        × (s'.bus ≡ s.bus)
        × Concluded w r trail
  unfolding conclude
  conclude_lem command target now (ok response) s =
      let outcome = record_of command applied empty_detail now in
      (outcome ∷ [], refl, refl, (outcome, refl, refl, refl))
  conclude_lem command target now (err (write_error e)) s =
      let outcome = record_of command failed (write_failed e.code) now in
      (outcome ∷ [], refl, refl, (outcome, refl, refl, refl, refl))
  conclude_lem command target now (err (boundary e)) s =
      ([], sym (append-nil s.journal), refl, (refl, refl))
  conclude_lem command target now (err (other_fault e)) s =
      ([], sym (append-nil s.journal), refl, (refl, refl))

  -- Building and sending the request does not look at the journal, and leaves it alone.
  pub send_lem :
      (write : CoilWriteRequest → Exec B WriteFault CoilWriteResponse) (command : CommandRequest)
      (target : ControlTarget) (s t : State Records B)
      → s.bus ≡ t.bus
      → let (r, s') = send service write command target s in
        let (q, t') = send service write command target t in
        (s'.journal ≡ s.journal) × (s'.bus ≡ t'.bus) × (r ≡ q)
  unfolding send
  send_lem write command target s t h = ground arith

  pub issue_lem :
      (write : CoilWriteRequest → Exec B WriteFault CoilWriteResponse) (command : CommandRequest)
      (target : ControlTarget) (now : Datetime) (s u : State Records B)
      → s.journal ≡ u.journal
      → s.bus ≡ u.bus
      → let (r, s') = issue service write command target now s in
        (trail : List CommandRecord) × (s'.journal ≡ u.journal ++ issued_record command now ∷ trail)
        × (s'.bus ≡ (send service write command target u).1.bus)
        × Concluded (send service write command target u).0 r trail
  unfolding issue
  issue_lem write command target now s u same_journal same_bus =
      let intent = issued_record command now in
      let s1 = record s { journal = s.journal ++ intent ∷ [] } in
      let (w, s2) = send service write command target s1 in
      let (trail, journal, bus, concluded) = conclude_lem command target now w s2 in
      let (kept, sent, result) = send_lem write command target s1 u same_bus in
      (
        trail,
        journal
            ∙ ap (λ (x : Records). x ++ trail) kept
            ∙ append_assoc s.journal (intent ∷ []) trail
            ∙ ap (λ (x : Records). x ++ intent ∷ trail) same_journal,
        bus ∙ sent,
        subst
            (λ (x : Result WriteFault CoilWriteResponse).
              Concluded x (conclude service command target now w s2).0 trail)
            result concluded,
      )
