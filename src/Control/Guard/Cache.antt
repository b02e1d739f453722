-- ===== src/Control/Guard/Cache.antt =====
-- `_remember`: what is known of the times at which targets were last operated.
use geopilot_hvac.Prelude.{
  Option-cases, Bool-cases, sym, subst, eq_iff, inl, inr, ◌≡◌, refl, ◌⊎◌, false, Option, none, some,
  Text, ◌==◌, lookup, Result, ok, err, arith, lookup-insert, lookup-insert_self,
}
use geopilot_hvac.Datetime.{Datetime}
use geopilot_hvac.Control.Guard.{ControlService, State, recalled, remember}

module _ {J B : Type 0} (c : ControlService J B) where
  recalled_self :
      (target_id : Text) (answer : Result Text (Option Datetime)) (s : State J B)
      → lookup target_id s.last_applied ≡ none
      → lookup target_id (recalled c target_id answer s).1.last_applied
        ≡ (recalled c target_id answer s).0
  unfolding recalled
  recalled_self target_id (ok (some at)) s h = lookup-insert_self target_id at s.last_applied
  recalled_self target_id (ok none) s h = h
  recalled_self target_id (err _) s h = h

  -- Asking for one target keeps what is known of the others.
  recalled_ne :
      (target_id t : Text) (answer : Result Text (Option Datetime)) (s : State J B)
      → target_id == t ≡ false
      → lookup t (recalled c target_id answer s).1.last_applied ≡ lookup t s.last_applied
  unfolding recalled
  recalled_ne target_id t (ok (some at)) s h = rw (lookup-insert, h)
  recalled_ne target_id t (ok none) s h = refl
  recalled_ne target_id t (err _) s h = refl

  pub lookup-remember_self :
      (target_id : Text) (s : State J B)
      → lookup target_id (remember c target_id s).1.last_applied ≡ (remember c target_id s).0
  unfolding remember
  lookup-remember_self target_id s = grind (arith, recalled_self)

  pub lookup-remember_ne :
      (target_id t : Text) (s : State J B)
      → target_id == t ≡ false
      → lookup t (remember c target_id s).1.last_applied ≡ lookup t s.last_applied
  unfolding remember
  lookup-remember_ne target_id t s h = grind (arith, recalled_ne)

  pub remember_known :
      (target_id : Text) (s : State J B) {p : Datetime}
      → lookup target_id s.last_applied ≡ some p
      → (remember c target_id s).0 ≡ some p
  unfolding remember
  remember_known target_id s h = ground arith

  pub bus-remember : (target_id : Text) (s : State J B) → (remember c target_id s).1.bus ≡ s.bus
  unfolding remember recalled
  bus-remember target_id s = ground arith

  -- Asking the journal may teach the time of a target, and never changes one that is known.
  pub lookup-remember_learns :
      (target_id t : Text) (s : State J B)
      → (lookup t s.last_applied ≡ none)
        ⊎ (lookup t s.last_applied ≡ lookup t (remember c target_id s).1.last_applied)
  lookup-remember_learns target_id t s = elim (Bool-cases (target_id == t)) [
    | inl same ↦ elim (Option-cases (lookup t s.last_applied)) [
      | inl unknown ↦ inl unknown
      | inr (p, known) ↦ inr (
          let e : target_id ≡ t = (eq_iff target_id t).0 same in
          cc (
            e,
            known,
            lookup-remember_self target_id s,
            remember_known target_id s
                (subst (λ k. lookup k s.last_applied ≡ some p) (sym e) known),
          ))
    ]
    | inr other ↦ inr (sym (lookup-remember_ne target_id t s other))
  ]
