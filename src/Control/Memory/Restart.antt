-- ===== src/Control/Memory/Restart.antt =====
-- With a journal that remembers, the cache of the service is only a cache: a restart, which empties it,
-- changes nothing of what the service does.
use geopilot_hvac.Prelude.{
  subst, subst, ◌≡◌, sym, ap, ◌∙◌, arith, true, false, ◌&&◌, Bool-cases, inl, inr, some, [], ◌∷◌,
  ◌++◌, Text, ◌==◌, eq_iff, lookup, insert, lookup-insert, if◌then◌else◌,
}
use mathlib.Core.List.{reverse-append}
use geopilot_hvac.Datetime.{Datetime}
use geopilot_hvac.Control.Record.{CommandRecord, is_applied}
use geopilot_hvac.Control.Guard.{State}
use geopilot_hvac.Control.Memory.{Records, newest_applied, last_applied_at}
use geopilot_hvac.Prelude.Dicts.{Dict}

last_applied_at-append :
    (t : Text) (records : Records) (r : CommandRecord)
    → last_applied_at t (records ++ r ∷ []) ≡ (
        if r.target_id == t && is_applied r.status
        then some r.decided_at
        else last_applied_at t records)
unfolding last_applied_at newest_applied
last_applied_at-append t records r = ap (newest_applied t) (reverse-append records (r ∷ []))

module _ {B : Type 0} where
  -- The cache has nothing that the journal does not have.
  abbrev pub IsCached : State Records B → Type 0
  IsCached s =
      (t : Text) (d : Datetime)
      → lookup t s.last_applied ≡ some d
      → last_applied_at t s.journal ≡ some d

  -- the state after a restart of the service
  abbrev pub restarted : State Records B → State Records B
  restarted s = record s { last_applied = [] }

  -- Two outcomes that differ only in the cache, which the journal explains in both.
  pub record IsSame {R : Type 0} (x y : R × State Records B) : Type 0 where
    pub result : x.0 ≡ y.0
    pub state : restarted x.1 ≡ restarted y.1
    pub left : IsCached x.1
    pub right : IsCached y.1

  -- the state with another cache
  abbrev pub with_cache : Dict Datetime → State Records B → State Records B
  with_cache cache s = record s { last_applied = cache }

  -- A record that is no operation leaves the cache explained.
  pub IsCached-append :
      (s : State Records B) (r : CommandRecord)
      → is_applied r.status ≡ false
      → IsCached s
      → IsCached (record s { journal = s.journal ++ r ∷ [] })
  IsCached-append s r plain good t d found =
      let at = last_applied_at-append t s.journal r in at ∙ ground (arith, good t d found, plain)

  -- An operation that is noted in the cache and in the journal leaves the cache explained.
  pub IsCached-applied :
      (s : State Records B) (r : CommandRecord) (t : Text)
      → is_applied r.status ≡ true
      → r.target_id ≡ t
      → IsCached s
      → IsCached (record s {
        journal = s.journal ++ r ∷ [];
        last_applied = insert t r.decided_at s.last_applied;
      })
  IsCached-applied s r t hit own good u d found =
      let at = last_applied_at-append u s.journal r in
      let cached = lookup-insert t u r.decided_at s.last_applied in
      elim (Bool-cases (t == u)) [
        | inl e ↦
            let same : some r.decided_at ≡ some d = sym (rw e at cached) ∙ found in
            let named : r.target_id == u ≡ true = ap (λ x. x == u) own ∙ e in
            at ∙ rw (named, hit) same
        | inr e ↦
            let named : r.target_id == u ≡ false = ap (λ x. x == u) own ∙ e in
            at ∙ rw named (good u d (sym (rw e at cached) ∙ found))
      ]

  pub IsCached-insert :
      (s : State Records B) (t : Text) (at : Datetime)
      → last_applied_at t s.journal ≡ some at
      → IsCached s
      → IsCached (record s { last_applied = insert t at s.last_applied })
  IsCached-insert s t at known good u d found =
      let cached = lookup-insert t u at s.last_applied in
      elim (Bool-cases (t == u)) [
        | inl e ↦
            let same : some at ≡ some d = sym (rw e at cached) ∙ found in
            subst (λ (x : Text). last_applied_at x s.journal ≡ some d) ((eq_iff t u).0 e)
              (known ∙ same)
        | inr e ↦ good u d (sym (rw e at cached) ∙ found)
      ]

  -- A method that does the same whatever the cache, as long as the journal explains it.
  abbrev pub IsAlike : {R : Type 0} → (State Records B → R × State Records B) → Type 0
  IsAlike f =
      (s s' : State Records B)
      → restarted s ≡ restarted s'
      → IsCached s
      → IsCached s'
      → IsSame (f s) (f s')

  pub IsAlike-cache :
      {R : Type 0} (f : State Records B → R × State Records B)
      → ((s : State Records B) (cache : Dict Datetime)
          → IsCached s
          → IsCached (with_cache cache s)
          → IsSame (f s) (f (with_cache cache s)))
      → IsAlike f
  IsAlike-cache f h s s' e good good' =
      let shape : with_cache s'.last_applied s ≡ s' =
        ap (λ (x : State Records B). with_cache s'.last_applied x) e in
      subst (λ (x : State Records B). IsSame (f s) (f x)) shape
        (h s s'.last_applied good (subst IsCached (sym shape) good'))
