-- ===== src/Historian/Sqlite/Append.antt =====
-- What `append` does to the rows is what the in-memory historian does to its measurements.
use geopilot_hvac.Prelude.{
  ◌≡◌, refl, sym, ap, ◌∙◌, arith, Bool, Bool-cases, Option-cases, inl, inr, Option, none, some,
  List, [], ◌∷◌, ◌++◌, map, Text, ◌==◌, eq_iff, Dict, lookup, if◌then◌else◌, Result, ok, err,
  map_err,
}
use mathlib.Core.List.{Mem, mem-cons, not-mem-nil}
use mathlib.Core.Logic.Or
use mathlib.Core.Option
use geopilot_hvac.Prelude.Results.{◌>>=◌}
use geopilot_hvac.Domain.Observation.{Measurement}
use geopilot_hvac.Historian.{HistorianError, Historian, append, conflicts_with}
use geopilot_hvac.Historian.Index.{IsIndexed, AreIndexed}
use geopilot_hvac.Historian.Sqlite.{
  StorageError, historian_error, Row, row_with_id, fetch_by_id, insert_row, append_unless,
  append_row,
}
use geopilot_hvac.Historian.Sqlite.Rows.{
  stored_form, row_of, IsAccepted, AreAccepted, row_to_measurement-row_of, to_storage_accepted,
}
use mathlib.Core.List.{map-append}

module _ {V : Type 0} where
  -- the first measurement of an id
  with_id : Text → List (Measurement V) → Option (Measurement V)
  with_id k [] = none
  with_id k (m ∷ ms) = if m.id == k then some m else with_id k ms

  with_id-found :
      (k : Text) (ms : List (Measurement V)) (d : Dict (Measurement V)) {m : Measurement V}
      → AreIndexed d ms
      → with_id k ms ≡ some m
      → lookup k d ≡ some m
  unfolding with_id
  with_id-found k [] d h e = cc e
  with_id-found k (n ∷ ms) d (h, hs) e = elim (Bool-cases (n.id == k)) [
    | inl same ↦ ap (λ x. lookup x d) (sym ((eq_iff n.id k).0 same)) ∙ h ∙ rw (same, with_id) at e
    | inr other ↦ with_id-found k ms d hs (rw (other, with_id) at e)
  ]

  with_id-missed :
      (k : Text) (ms : List (Measurement V)) (m : Measurement V)
      → with_id k ms ≡ none
      → Mem m ms
      → m.id ≡ k
      → ⊥
  unfolding with_id
  with_id-missed k [] m e there same = not-mem-nil there
  with_id-missed k (n ∷ ms) m e there same = elim (Bool-cases (n.id == k)) [
    | inl hit ↦ let bad = rw (hit, with_id) at e in cc bad
    | inr miss ↦
        Or.elim {C = ⊥} (hlevel) (mem-cons.0 there)
          (λ (here : m ≡ n).
            let bad = (eq_iff n.id k).1 (sym (ap (λ x. x.id) here) ∙ same) in cc (bad, miss))
          (λ later. with_id-missed k ms m (rw (miss, with_id) at e) later same)
  ]

  -- The index by id and the scan of the measurements find the same.
  with_id-lookup :
      (k : Text) (h : Historian V) → IsIndexed h → with_id k h.measurements ≡ lookup k h.by_id
  with_id-lookup k h good = elim (Option-cases (with_id k h.measurements)) [
    | inr (m, found) ↦ found ∙ sym (with_id-found k h.measurements h.by_id good.indexed found)
    | inl missed ↦ elim (Option-cases (lookup k h.by_id)) [
      | inl gone ↦ missed ∙ sym gone
      | inr (m, found) ↦
          let (named, there) = good.stored k m found in
          absurd (with_id-missed k h.measurements m missed there named)
    ]
  ]

module _ {V : Type 0} (numeric : V → V) where
  fetch_by_id-with_id :
      (k : Text) (ms : List (Measurement V))
      → AreAccepted ms
      → fetch_by_id k (map (row_of numeric) ms)
        ≡ ok (Option.map (stored_form numeric) (with_id k ms))
  unfolding fetch_by_id row_with_id with_id
  fetch_by_id-with_id k [] h = refl
  fetch_by_id-with_id k (m ∷ ms) (h, hs) =
      ground (arith, row_to_measurement-row_of numeric m h, fetch_by_id-with_id k ms hs)

  -- the historian's rows
  abbrev pub rows_of : Historian V → List (Row V)
  rows_of h = map (row_of numeric) h.measurements

  abbrev pub through : {A B : Type 0} → (A → B) → Result HistorianError A → Result StorageError B
  through f (ok a) = ok (f a)
  through f (err e) = err (historian_error e)

  -- A call that both make first, and may raise in.
  pub through_bind :
      {A B C : Type 0} (k : A → B) (r : Result HistorianError C) (f : C → Result StorageError B)
      (g : C → Result HistorianError A)
      → ((c : C) → r ≡ ok c → f c ≡ through k (g c))
      → (map_err historian_error r >>= f) ≡ through k (r >>= g)
  through_bind k (ok c) f g same = same c refl
  through_bind k (err e) f g same = refl

  insert_row_accepted :
      (m : Measurement V) (rows : List (Row V))
      → IsAccepted m
      → insert_row numeric m rows ≡ ok (rows ++ row_of numeric m ∷ [])
  unfolding insert_row
  insert_row_accepted m rows h =
      let (observed, received) = to_storage_accepted m h in rw (observed, received) refl

  fetch_by_id-rows_of :
      (k : Text) (h : Historian V)
      → IsIndexed h
      → AreAccepted h.measurements
      → fetch_by_id k (rows_of h) ≡ ok (Option.map (stored_form numeric) (lookup k h.by_id))
  fetch_by_id-rows_of k h good accepted =
      fetch_by_id-with_id k h.measurements accepted
      ∙ ap (λ (o : Option (Measurement V)). ok (Option.map (stored_form numeric) o))
          (with_id-lookup k h good)

  module _ (same_value : V → V → Bool)
      (same_stored : (v w : V) → same_value (numeric v) w ≡ same_value v w) where
    conflicts_with-stored_form :
        (m n : Measurement V)
        → conflicts_with same_value (stored_form numeric m) n ≡ conflicts_with same_value m n
    unfolding conflicts_with
    conflicts_with-stored_form m n = rw (same_stored m.value n.value) refl

    -- t
    pub append_row-rows_of :
        (m : Measurement V) (h : Historian V)
        → IsIndexed h
        → AreAccepted h.measurements
        → IsAccepted m
        → append_row same_value numeric m (rows_of h) ≡ through rows_of (append same_value m h)
    unfolding append_row append_unless append
    append_row-rows_of m h good accepted new =
        rw (fetch_by_id-rows_of m.id h good accepted) (elim (Option-cases (lookup m.id h.by_id)) [
          | inl fresh ↦ ground (
            arith,
            insert_row_accepted m (rows_of h) new,
            map-append (row_of numeric) h.measurements (m ∷ []),
          )
          | inr (n, taken) ↦ ground (arith, conflicts_with-stored_form n m)
        ])
