-- ===== src/Historian/Index.antt =====
-- The index by id and the measurements of the historian agree, whatever is appended.
use geopilot_hvac.Prelude.{
  subst, ◌≡◌, refl, sym, ap, ◌∙◌, arith, Bool, true, false, Bool-cases, Option-cases, inl, inr,
  none, some, List, [], ◌∷◌, ◌++◌, map, Text, ◌==◌, eq_iff, eq_refl, Dict, lookup, insert,
  lookup-insert, lookup-insert_self, Result, ok, err,
}
use mathlib.Core.List.{Mem, mem-append, mem-cons_self}
use geopilot_hvac.Domain.Observation.{Measurement}
use geopilot_hvac.Historian.{
  HistorianError, Historian, empty_historian, append, conflicts_with, is_member,
}

module _ {V : Type 0} where
  -- Each measurement is what the index has under its id.
  abbrev pub AreIndexed : Dict (Measurement V) → List (Measurement V) → Type 0
  AreIndexed d [] = Unit
  AreIndexed d (m ∷ ms) = (lookup m.id d ≡ some m) × AreIndexed d ms

  -- No two measurements have one id.
  abbrev pub AreDistinct : List (Measurement V) → Type 0
  AreDistinct [] = Unit
  AreDistinct (m ∷ ms) = (is_member m.id (map (λ n. n.id) ms) ≡ false) × AreDistinct ms

  pub record IsIndexed (h : Historian V) : Type 0 where
    pub indexed : AreIndexed h.by_id h.measurements
    pub distinct : AreDistinct h.measurements
    pub stored :
        (k : Text) (m : Measurement V)
        → lookup k h.by_id ≡ some m
        → (m.id ≡ k) × Mem m h.measurements

  fresh_id :
      (d : Dict (Measurement V)) (m n : Measurement V)
      → lookup n.id d ≡ none
      → lookup m.id d ≡ some m
      → n.id == m.id ≡ false
  fresh_id d m n fresh known = elim (Bool-cases (n.id == m.id)) [
    | inr e ↦ e
    | inl e ↦
        let same = (eq_iff n.id m.id).0 e in
        let bad : none ≡ some m = sym fresh ∙ ap (λ k. lookup k d) same ∙ known in absurd (cc bad)
  ]

  AreIndexed-append :
      (d : Dict (Measurement V)) (ms : List (Measurement V)) (n : Measurement V)
      → lookup n.id d ≡ none
      → AreIndexed d ms
      → AreIndexed (insert n.id n d) (ms ++ n ∷ [])
  AreIndexed-append d [] n fresh h = (lookup-insert_self n.id n d, tt)
  AreIndexed-append d (m ∷ ms) n fresh (known, h) =
      let at = lookup-insert n.id m.id n d in
      let other = fresh_id d m n fresh known in
      (rw other at at ∙ known, AreIndexed-append d ms n fresh h)

  is_member-append :
      (k : Text) (ms : List (Measurement V)) (n : Measurement V)
      → is_member k (map (λ m. m.id) ms) ≡ false
      → n.id == k ≡ false
      → is_member k (map (λ m. m.id) (ms ++ n ∷ [])) ≡ false
  unfolding is_member
  is_member-append k [] n h other = rw other refl
  is_member-append k (m ∷ ms) n h other = ground (arith, is_member-append k ms n)

  AreDistinct-append :
      (d : Dict (Measurement V)) (ms : List (Measurement V)) (n : Measurement V)
      → lookup n.id d ≡ none
      → AreIndexed d ms
      → AreDistinct ms
      → AreDistinct (ms ++ n ∷ [])
  unfolding is_member
  AreDistinct-append d [] n fresh known h = (refl, tt)
  AreDistinct-append d (m ∷ ms) n fresh (known, rest) (apart, h) = (
    is_member-append m.id ms n apart (fresh_id d m n fresh known),
    AreDistinct-append d ms n fresh rest h,
  )

  stored-append :
      (h : Historian V) (n : Measurement V)
      → IsIndexed h
      → (k : Text) (m : Measurement V) → lookup k (insert n.id n h.by_id) ≡ some m
      → (m.id ≡ k) × Mem m (h.measurements ++ n ∷ [])
  stored-append h n good k m found =
      let at = lookup-insert n.id k n h.by_id in
      elim (Bool-cases (n.id == k)) [
        | inl e ↦
            let same : some n ≡ some m = sym (rw e at at) ∙ found in
            let named = (eq_iff n.id k).0 e in
            (
              cc (same, named),
              mem-append.1 ∣ inr (subst (λ x. Mem x (n ∷ [])) (cc same) mem-cons_self) ∣₁,
            )
        | inr e ↦
            let (named, there) = good.stored k m (sym (rw e at at) ∙ found) in
            (named, mem-append.1 ∣ inl there ∣₁)
      ]

module _ {V : Type 0} (same_value : V → V → Bool) where
  -- the historian with a measurement of a new id
  abbrev pub extended : Measurement V → Historian V → Historian V
  extended m h = record { measurements = h.measurements ++ m ∷ []; by_id = insert m.id m h.by_id }

  pub ok_cancel :
      (g h : Historian V) → (let r : Result HistorianError (Historian V) = ok g in r) ≡ ok h → g ≡ h
  ok_cancel g h e = cc e

  pub append-IsIndexed :
      (m : Measurement V) (h h' : Historian V)
      → IsIndexed h
      → append same_value m h ≡ ok h'
      → IsIndexed h'
  unfolding append
  append-IsIndexed m h h' good e = elim (Option-cases (lookup m.id h.by_id)) [
    | inl fresh ↦
        subst (λ (g : Historian V). IsIndexed g)
          (ok_cancel (extended m h) h' (rw (fresh, append) at e))
          (record {
            indexed = AreIndexed-append h.by_id h.measurements m fresh good.indexed;
            distinct = AreDistinct-append h.by_id h.measurements m fresh good.indexed good.distinct;
            stored = stored-append h m good;
          })
    | inr (n, taken) ↦ elim (Bool-cases (conflicts_with same_value n m)) [
      | inl clash ↦ let bad = rw (taken, clash, append) at e in cc bad
      | inr agree ↦
          subst (λ (g : Historian V). IsIndexed g) (ok_cancel h h' (rw (taken, agree, append) at e))
            good
    ]
  ]

  -- what is kept after a call: a conflict leaves the historian as it was
  abbrev pub kept : Historian V → Result HistorianError (Historian V) → Historian V
  kept h (ok h') = h'
  kept h (err _) = h

  -- calls of `append` one after another
  abbrev pub append_all : List (Measurement V) → Historian V → Historian V
  append_all [] h = h
  append_all (m ∷ ms) h = append_all ms (kept h (append same_value m h))

  kept-IsIndexed :
      (h : Historian V) (r : Result HistorianError (Historian V))
      → ((h' : Historian V) → r ≡ ok h' → IsIndexed h')
      → IsIndexed h
      → IsIndexed (kept h r)
  kept-IsIndexed h (ok h') good old = good h' refl
  kept-IsIndexed h (err _) good old = old

  append_all-IsIndexed :
      (ms : List (Measurement V)) (h : Historian V) → IsIndexed h → IsIndexed (append_all ms h)
  append_all-IsIndexed [] h good = good
  append_all-IsIndexed (m ∷ ms) h good =
      append_all-IsIndexed ms _
        (kept-IsIndexed h (append same_value m h) (λ h'. append-IsIndexed m h h' good) good)

  -- After any calls of append on a new historian, those that raised a conflict included, no two
  -- measurements have one id, each of them is what the index has under its id, and all that the
  -- index has is stored, under its own id.
  pub append_all-empty_historian :
      (ms : List (Measurement V)) → IsIndexed (append_all ms empty_historian)
  unfolding lookup
  append_all-empty_historian ms =
      append_all-IsIndexed ms empty_historian
        (record { indexed = tt; distinct = tt; stored = λ k m found. cc found })

  conflicts_with_self :
      ((v : V) → same_value v v ≡ true)
      → (m : Measurement V) → conflicts_with same_value m m ≡ false
  unfolding conflicts_with
  conflicts_with_self reflexive m = ground (
    arith,
    reflexive m.value,
    eq_refl m.id,
    eq_refl m.sensor_id,
    eq_refl m.unit,
    eq_refl m.source_id,
  )

  append_known :
      (m n : Measurement V) (h : Historian V)
      → lookup m.id h.by_id ≡ some n
      → conflicts_with same_value n m ≡ false
      → append same_value m h ≡ ok h
  unfolding append
  append_known m n h taken agree = rw (taken, agree, append) refl

  -- Where every value equals itself, a measurement that was appended is accepted a second time,
  -- and that leaves the historian as it is.
  pub append_again :
      ((v : V) → same_value v v ≡ true)
      → (m : Measurement V) (h h' : Historian V) → append same_value m h ≡ ok h'
      → append same_value m h' ≡ ok h'
  unfolding append
  append_again reflexive m h h' e = elim (Option-cases (lookup m.id h.by_id)) [
    | inl fresh ↦
        subst (λ (g : Historian V). append same_value m g ≡ ok g)
          (ok_cancel (extended m h) h' (rw (fresh, append) at e))
          (append_known m m (extended m h) (lookup-insert_self m.id m h.by_id)
            (conflicts_with_self reflexive m))
    | inr (n, taken) ↦ elim (Bool-cases (conflicts_with same_value n m)) [
      | inl clash ↦ let bad = rw (taken, clash, append) at e in cc bad
      | inr agree ↦
          subst (λ (g : Historian V). append same_value m g ≡ ok g)
            (ok_cancel h h' (rw (taken, agree, append) at e)) (append_known m n h taken agree)
    ]
  ]
