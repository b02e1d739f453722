-- ===== src/Control/Guard/Spacing.antt =====
-- One command keeps the operations of a target apart.
use geopilot_hvac.Prelude.{
  ℕ, suc, ◌≡◌, refl, ◌⊎◌, inl, inr, true, false, Option, none, some, Text, ◌==◌, eq_iff, lookup,
  arith, if◌then◌else◌, Option-cases, Bool-cases, sym, ◌∙◌, subst, ◌+◌, List, [], ◌∷◌, ◌≤ℤ◌, ◌+ℤ◌,
  pos, -ℤ_parts, +ℤ_parts, lookup-insert, ap,
}
use geopilot_hvac.Prelude.Exec.{Exec}
use geopilot_hvac.Datetime.{Datetime, elapsed}
use geopilot_hvac.Modbus.Write.{CoilWriteRequest, CoilWriteResponse, WriteFault}
use geopilot_hvac.Control.Policy.{ControlTarget, find_target}
use geopilot_hvac.Control.Record.{
  CommandRequest, CommandStatus, Detail, refused, failed, rate_limited, control_disabled,
  unknown_target, no_transport,
}
use geopilot_hvac.Control.Guard.{
  ControlService, State, remember, issue, remaining, limited, permitted, targeted, execute,
  record_outcome,
}
use geopilot_hvac.Control.Guard.Cache.{lookup-remember_self, lookup-remember_learns, bus-remember}
use geopilot_hvac.Control.Guard.Observed.{
  logged, logged_transport, logging, count, Effect, issue-Effect,
}

-- `now` is at least `m` microseconds after the time that is known, if one is.
abbrev pub IsLater : ℕ → Option Datetime → Datetime → Type 0
IsLater m none now = Unit
IsLater m (some p) now = p.instant +ℤ pos m ≤ℤ now.instant

-- Outside the minimum interval nothing remains of it.
pub remaining_none :
    (target : ControlTarget) (now : Datetime) {previous : Option Datetime} {p : Datetime}
    → remaining target now previous ≡ none
    → previous ≡ some p
    → p.instant +ℤ pos target.minimum_interval ≤ℤ now.instant
unfolding remaining elapsed
remaining_none target now {previous} {p} h e =
    ground (arith, -ℤ_parts now.instant p.instant, +ℤ_parts p.instant (pos target.minimum_interval))

remaining-IsLater :
    (target : ControlTarget) (now : Datetime) (previous : Option Datetime)
    → remaining target now previous ≡ none
    → IsLater target.minimum_interval previous now
remaining-IsLater target now none h = tt
remaining-IsLater target now (some p) h = remaining_none target now h refl

pub find_target_id :
    (t : Text) (targets : List ControlTarget) {target : ControlTarget}
    → find_target t targets ≡ some target
    → target.target_id ≡ t
unfolding find_target
find_target_id t [] h = cc
find_target_id t (x ∷ xs) {target} h =
    ground (arith, eq_iff x.target_id t, find_target_id t xs {target = target})

-- From one state to another no write of `t` returned a response and a known time of it stayed; or
-- one did, at `now`, which is late enough and is known afterwards.
abbrev pub Moves :
    {J B : Type 0}
    → ℕ
    → Text
    → Datetime
    → State J (B × List Text)
    → State J (B × List Text)
    → Type 0
Moves m t now s s' =
    ((count t s'.bus.1 ≡ count t s.bus.1)
      × ((lookup t s.last_applied ≡ none) ⊎ (lookup t s.last_applied ≡ lookup t s'.last_applied)))
    ⊎ ((count t s'.bus.1 ≡ suc (count t s.bus.1))
        × (lookup t s'.last_applied ≡ some now)
        × IsLater m (lookup t s.last_applied) now)

module _ {J B : Type 0} (c : ControlService J B) where
  record_outcome_quiet :
      (command : CommandRequest) (status : CommandStatus) (detail : Detail) (now : Datetime)
      (s : State J (B × List Text))
      → let s' = (record_outcome (logging c) command status detail now s).1 in
        (s'.bus.1 ≡ s.bus.1) × (s'.last_applied ≡ s.last_applied)
  record_outcome_quiet command status detail now s = ground arith

  record_outcome-Moves :
      (m : ℕ) (t : Text) (command : CommandRequest) (status : CommandStatus) (detail : Detail)
      (now : Datetime) (s : State J (B × List Text))
      → Moves m t now s (record_outcome (logging c) command status detail now s).1
  record_outcome-Moves m t command status detail now s =
      let (e, f) = record_outcome_quiet command status detail now s in
      inl (ap (count t) e, inr (sym (ap (lookup t) f)))

  -- An allowed write, seen at `t`, after the journal was asked.
  Effect-Moves :
      (target own : ControlTarget) (now : Datetime) (t : Text) (s s' : State J (B × List Text))
      → (target.target_id ≡ t → target ≡ own)
      → let (previous, s1) = remember (logging c) target.target_id s in
        remaining target now previous ≡ none
        → Effect target.target_id now s1 s'
        → Moves own.minimum_interval t now s s'
  Effect-Moves target own now t s s' same free (inl (e, f)) = inl (
    ap (count t) (f ∙ ap (λ b. b.1) (bus-remember (logging c) target.target_id s)),
    elim (lookup-remember_learns (logging c) target.target_id t s) [
      | inl unknown ↦ inl unknown
      | inr known ↦ inr (known ∙ sym (ap (lookup t) e))
    ],
  )
  Effect-Moves target own now t s s' same free (inr (e, f)) =
      let id = target.target_id in
      let (previous, s1) = remember (logging c) id s in
      let log : s'.bus.1 ≡ id ∷ s.bus.1 = f ∙ ap (λ b. id ∷ b.1) (bus-remember (logging c) id s) in
      let times : lookup t s'.last_applied
          ≡ (if id == t then some now else lookup t s1.last_applied) =
        ap (lookup t) e ∙ lookup-insert id t now s1.last_applied in
      elim (Bool-cases (id == t)) [
        | inl hit ↦
            let it : id ≡ t = (eq_iff id t).0 hit in
            inr (
              ap (count t) log ∙ rw hit refl,
              times ∙ rw hit refl,
              elim (lookup-remember_learns (logging c) id t s) [
                | inl unknown ↦ rw unknown tt
                | inr known ↦
                    let known' : lookup t s.last_applied ≡ previous =
                      known
                      ∙ subst (λ k. lookup k s1.last_applied ≡ previous) it
                          (lookup-remember_self (logging c) id s) in
                    rw known' (
                      subst (λ (x : ControlTarget). IsLater x.minimum_interval previous now)
                        (same it) (remaining-IsLater target now previous free))
              ],
            )
        | inr other ↦ inl (
          ap (count t) log ∙ rw other refl,
          elim (lookup-remember_learns (logging c) id t s) [
            | inl unknown ↦ inl unknown
            | inr known ↦ inr (known ∙ sym (times ∙ rw other refl))
          ],
        )
      ]

  -- A refusal after the journal was asked.
  refusal-Moves :
      (id : Text) (m : ℕ) (now : Datetime) (t : Text) (s s' : State J (B × List Text))
      → let s1 = (remember (logging c) id s).1 in
        (s'.bus.1 ≡ s1.bus.1) × (s'.last_applied ≡ s1.last_applied) → Moves m t now s s'
  refusal-Moves id m now t s s' (e, f) = inl (
    ap (count t) (e ∙ ap (λ b. b.1) (bus-remember (logging c) id s)),
    elim (lookup-remember_learns (logging c) id t s) [
      | inl unknown ↦ inl unknown
      | inr known ↦ inr (known ∙ sym (ap (lookup t) f))
    ],
  )

  limited-Moves :
      (write_coil : CoilWriteRequest → Exec B WriteFault CoilWriteResponse)
      (command : CommandRequest) (target own : ControlTarget) (now : Datetime) (t : Text)
      (s : State J (B × List Text))
      → (target.target_id ≡ t → target ≡ own)
      → Moves own.minimum_interval t now s
          (limited (logging c) (logged write_coil) command target now s).1
  unfolding limited
  limited-Moves write_coil command target own now t s same =
      let (previous, s1) = remember (logging c) target.target_id s in
      elim (Option-cases (remaining target now previous)) [
        | inl free ↦
            rw (free, limited)
              (Effect-Moves target own now t s
                (issue (logging c) (logged write_coil) command target now s1).1 same free
                (issue-Effect c write_coil command target now s1))
        | inr (left, e) ↦
            rw (e, limited)
              (refusal-Moves target.target_id own.minimum_interval now t s
                (record_outcome (logging c) command refused (rate_limited left) now s1).1
                (record_outcome_quiet command refused (rate_limited left) now s1))
      ]

  permitted-Moves :
      (w : Option (CoilWriteRequest → Exec B WriteFault CoilWriteResponse))
      (command : CommandRequest) (target own : ControlTarget) (now : Datetime) (t : Text)
      (s : State J (B × List Text))
      → (target.target_id ≡ t → target ≡ own)
      → Moves own.minimum_interval t now s
          (permitted (logging c) (logged_transport w) command target now s).1
  unfolding permitted
  permitted-Moves none command target own now t s same =
      record_outcome-Moves own.minimum_interval t command failed no_transport now s
  permitted-Moves (some write_coil) command target own now t s same =
      limited-Moves write_coil command target own now t s same

  targeted-Moves :
      (command : CommandRequest) (now : Datetime) (t : Text) (own : ControlTarget)
      (s : State J (B × List Text))
      → find_target t c.policy.targets ≡ some own
      → Moves own.minimum_interval t now s (targeted (logging c) command now s).1
  unfolding targeted
  targeted-Moves command now t own s found =
      elim (Option-cases (find_target command.target_id c.policy.targets)) [
        | inl stranger ↦
            rw (stranger, targeted)
              (record_outcome-Moves own.minimum_interval t command refused unknown_target now s)
        | inr (target, asked) ↦
            let named = find_target_id command.target_id c.policy.targets asked in
            rw (asked, targeted)
              (permitted-Moves c.write_coil command target own now t s
                (λ e. cc (asked, found, e, named)))
      ]

  -- One command, whatever becomes of it, moves the time of a target on as `Moves` says.
  pub execute-Moves :
      (command : CommandRequest) (t : Text) (own : ControlTarget) (s : State J (B × List Text))
      → find_target t c.policy.targets ≡ some own
      → Moves own.minimum_interval t (c.clock s.ticks) s (execute (logging c) command s).1
  unfolding execute
  execute-Moves command t own s found =
      let s1 = record s { ticks = s.ticks + 1 } in
      let now = c.clock s.ticks in
      elim c.policy.enabled
        as (λ on.
          Moves own.minimum_interval t now s
            ((if on
                then targeted (logging c) command now
                else record_outcome (logging c) command refused control_disabled now)
              s1).1) [
                | true ↦ targeted-Moves command now t own s1 found
                | false ↦
                    record_outcome-Moves own.minimum_interval t command refused control_disabled now
                      s1
              ]
