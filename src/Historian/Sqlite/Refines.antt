-- ===== src/Historian/Sqlite/Refines.antt =====
-- The contract `MeasurementHistorian` of backend/src/geopilot/historian.py: a client that makes any calls of
-- it gets the same answers from the SQLite historian as from the in-memory one.
use geopilot_hvac.Prelude.{
  ℕ, ◌≡◌, refl, ap, ap₂, ◌∙◌, Bool, Bool-cases, Option-cases, inl, inr, Option, List, [], ◌∷◌, ◌++◌,
  map, Text, lookup, Result, ok, err, map_err, length, subst, suc,
}
use mathlib.Core.Option
use geopilot_hvac.Datetime.{Datetime}
use geopilot_hvac.Domain.Observation.{Measurement}
use geopilot_hvac.Registry.{AssetRegistry}
use geopilot_hvac.Historian.{
  HistorianError, Historian, empty_historian, append, conflicts_with, count, latest_for_sensor,
  query_sensor, query_system,
}
use geopilot_hvac.Historian.Index.{IsIndexed, append-IsIndexed, ok_cancel, extended}
use geopilot_hvac.Historian.Sqlite.{
  StorageError, historian_error, Row, append_row, all_rows, count_rows, latest_row, select_sensor,
  select_system,
}
use geopilot_hvac.Historian.Sqlite.Rows.{
  stored_form, row_of, IsAccepted, AreAccepted, measurements_of-map,
}
use geopilot_hvac.Historian.Sqlite.Append.{rows_of, through, append_row-rows_of}
use geopilot_hvac.Historian.Sqlite.Select.{
  latest_row-rows_of, select_sensor-rows_of, select_system-rows_of,
}

-- the methods of `MeasurementHistorian`, with their arguments
pub data Call (V : Type 0) : Type 0 where
  append_call : Measurement V → Call V
  all_call count_call : Call V
  latest_call : Text → Call V
  sensor_call : Text → Option Datetime → Option Datetime → Call V
  system_call : Text → AssetRegistry → Option Datetime → Option Datetime → Call V

-- what a method returns
pub data Answer (V : Type 0) : Type 0 where
  nothing : Answer V
  counted : ℕ → Answer V
  one : Option (Measurement V) → Answer V
  many : List (Measurement V) → Answer V

abbrev pub Outcome : Type 0 → Type 0
Outcome V = Result StorageError (Answer V)

-- the answer of a query, and the state unchanged
abbrev answered : {V S A : Type 0} → (A → Answer V) → S → Result StorageError A → Outcome V × S
answered f s (ok a) = (ok (f a), s)
answered f s (err e) = (err e, s)

-- the end of `append`: what it raised leaves the state as it was
abbrev changed : {V S : Type 0} → S → Result StorageError S → Outcome V × S
changed s (ok s') = (ok nothing, s')
changed s (err e) = (err e, s)

module _ {V : Type 0} (same_value : V → V → Bool) where
  -- a call on the in-memory historian
  abbrev pub memory_call : Call V → Historian V → Outcome V × Historian V
  memory_call (append_call m) h = changed h (map_err historian_error (append same_value m h))
  memory_call all_call h = (ok (many h.measurements), h)
  memory_call count_call h = (ok (counted (count h)), h)
  memory_call (latest_call id) h = answered one h (map_err historian_error (latest_for_sensor id h))
  memory_call (sensor_call id start end) h =
      answered many h (map_err historian_error (query_sensor id start end h))
  memory_call (system_call id registry start end) h =
      answered many h (map_err historian_error (query_system id registry start end h))

  -- a call on the SQLite historian
  abbrev pub sqlite_call : (V → V) → Call V → List (Row V) → Outcome V × List (Row V)
  sqlite_call numeric (append_call m) rows = changed rows (append_row same_value numeric m rows)
  sqlite_call numeric all_call rows = answered many rows (all_rows rows)
  sqlite_call numeric count_call rows = (ok (counted (count_rows rows)), rows)
  sqlite_call numeric (latest_call id) rows = answered one rows (latest_row id rows)
  sqlite_call numeric (sensor_call id start end) rows =
      answered many rows (select_sensor id start end rows)
  sqlite_call numeric (system_call id registry start end) rows =
      answered many rows (select_system id registry start end rows)

-- the answers to calls, one after another
abbrev pub answers :
    {V S : Type 0} → (Call V → S → Outcome V × S) → List (Call V) → S → List (Outcome V)
answers step [] s = []
answers step (c ∷ cs) s = (step c s).0 ∷ answers step cs (step c s).1

-- The measurements that a client appends are ones that the constructor accepts.
abbrev pub Accepts : {V : Type 0} → List (Call V) → Type 0
Accepts [] = Unit
Accepts (append_call m ∷ cs) = IsAccepted m × Accepts cs
Accepts (_ ∷ cs) = Accepts cs

length-map : {A B : Type 0} (f : A → B) (xs : List A) → length (map f xs) ≡ length xs
length-map f [] = refl
length-map f (x ∷ xs) = ap suc (length-map f xs)

module _ {V : Type 0} (numeric : V → V) where
  -- an answer with its values as the column gives them back
  abbrev pub read_answer : Answer V → Answer V
  read_answer nothing = nothing
  read_answer (counted n) = counted n
  read_answer (one o) = one (Option.map (stored_form numeric) o)
  read_answer (many ms) = many (map (stored_form numeric) ms)

  abbrev pub read_back : Outcome V → Outcome V
  read_back (ok a) = ok (read_answer a)
  read_back (err e) = err e

  pub record IsKept (h : Historian V) : Type 0 where
    pub indexed : IsIndexed h
    pub accepted : AreAccepted h.measurements

  -- One call: the same answer, and the rows go on being those of the historian.
  abbrev IsAlike : Outcome V × Historian V → Outcome V × List (Row V) → Type 0
  IsAlike (a, h) (b, rows) = IsKept h × (b ≡ read_back a) × (rows ≡ rows_of numeric h)

  answered-IsAlike :
      {A : Type 0} (f : A → Answer V) (g : A → A)
      → ((a : A) → f (g a) ≡ read_answer (f a))
      → (h : Historian V) → IsKept h
      → (r : Result HistorianError A) (q : Result StorageError A) → q ≡ through numeric g r
      → IsAlike (answered f h (map_err historian_error r)) (answered f (rows_of numeric h) q)
  answered-IsAlike f g same h kept (ok a) q e = rw e (kept, ap ok (same a), refl)
  answered-IsAlike f g same h kept (err x) q e = rw e (kept, refl, refl)

  changed-IsAlike :
      (h : Historian V)
      → IsKept h
      → (r : Result HistorianError (Historian V)) (q : Result StorageError (List (Row V)))
      → q ≡ through numeric (rows_of numeric) r
      → ((h' : Historian V) → r ≡ ok h' → IsKept h')
      → IsAlike (changed h (map_err historian_error r)) (changed (rows_of numeric h) q)
  changed-IsAlike h kept (ok h') q e good = rw e (good h' refl, refl, refl)
  changed-IsAlike h kept (err x) q e good = rw e (kept, refl, refl)

  AreAccepted-append :
      (ms : List (Measurement V)) (m : Measurement V)
      → AreAccepted ms
      → IsAccepted m
      → AreAccepted (ms ++ m ∷ [])
  AreAccepted-append [] m hs h = (h, tt)
  AreAccepted-append (n ∷ ms) m (k, ks) h = (k, AreAccepted-append ms m ks h)

  module _ (same_value : V → V → Bool)
      (same_stored : (v w : V) → same_value (numeric v) w ≡ same_value v w) where
    append_accepted :
        (m : Measurement V) (h h' : Historian V)
        → AreAccepted h.measurements
        → IsAccepted m
        → append same_value m h ≡ ok h'
        → AreAccepted h'.measurements
    unfolding append
    append_accepted m h h' old new e = elim (Option-cases (lookup m.id h.by_id)) [
      | inl fresh ↦
          subst (λ (g : Historian V). AreAccepted g.measurements)
            (ok_cancel same_value (extended same_value m h) h' (rw (fresh, append) at e))
            (AreAccepted-append h.measurements m old new)
      | inr (n, taken) ↦ elim (Bool-cases (conflicts_with same_value n m)) [
        | inl clash ↦ let bad = rw (taken, clash, append) at e in cc bad
        | inr agree ↦
            subst (λ (g : Historian V). AreAccepted g.measurements)
              (ok_cancel same_value h h' (rw (taken, agree, append) at e)) old
      ]
    ]

    call-IsAlike :
        (c : Call V) (h : Historian V)
        → IsKept h
        → Accepts (c ∷ [])
        → IsAlike
            (memory_call same_value c h)
            (sqlite_call same_value numeric c (rows_of numeric h))
    unfolding all_rows
    call-IsAlike (append_call m) h kept (new, _) =
        changed-IsAlike h kept (append same_value m h)
          (append_row same_value numeric m (rows_of numeric h))
          (append_row-rows_of numeric same_value same_stored m h kept.indexed kept.accepted new)
          (λ h' e. record {
            indexed = append-IsIndexed same_value m h h' kept.indexed e;
            accepted = append_accepted m h h' kept.accepted new e;
          })
    call-IsAlike all_call h kept _ =
        answered-IsAlike many (map (stored_form numeric)) (λ ms. refl) h kept (ok h.measurements)
          (all_rows (rows_of numeric h)) (measurements_of-map numeric h.measurements kept.accepted)
    call-IsAlike count_call h kept _ =
        (kept, ap (λ (n : ℕ). ok (counted n)) (length-map (row_of numeric) h.measurements), refl)
    call-IsAlike (latest_call id) h kept _ =
        answered-IsAlike one (Option.map (stored_form numeric)) (λ o. refl) h kept
          (latest_for_sensor id h) (latest_row id (rows_of numeric h))
          (latest_row-rows_of numeric id h kept.accepted)
    call-IsAlike (sensor_call id start end) h kept _ =
        answered-IsAlike many (map (stored_form numeric)) (λ ms. refl) h kept
          (query_sensor id start end h) (select_sensor id start end (rows_of numeric h))
          (select_sensor-rows_of numeric id start end h kept.accepted)
    call-IsAlike (system_call id registry start end) h kept _ =
        answered-IsAlike many (map (stored_form numeric)) (λ ms. refl) h kept
          (query_system id registry start end h)
          (select_system id registry start end (rows_of numeric h))
          (select_system-rows_of numeric id registry start end h kept.accepted)

    Accepts-head :
        (c : Call V) (cs : List (Call V)) → Accepts (c ∷ cs) → Accepts (c ∷ []) × Accepts cs
    Accepts-head (append_call m) cs (h, hs) = ((h, tt), hs)
    Accepts-head all_call cs h = (tt, h)
    Accepts-head count_call cs h = (tt, h)
    Accepts-head (latest_call _) cs h = (tt, h)
    Accepts-head (sensor_call _ _ _) cs h = (tt, h)
    Accepts-head (system_call _ _ _ _) cs h = (tt, h)

    answers-rows_of :
        (cs : List (Call V)) (h : Historian V)
        → IsKept h
        → Accepts cs
        → answers (sqlite_call same_value numeric) cs (rows_of numeric h)
          ≡ map read_back (answers (memory_call same_value) cs h)
    answers-rows_of [] h kept new = refl
    answers-rows_of (c ∷ cs) h kept new =
        let (now, later) = Accepts-head c cs new in
        let (kept', same, rows) = call-IsAlike c h kept now in
        ap₂ (λ a rest. a ∷ rest) same
          (ap (answers (sqlite_call same_value numeric) cs) rows
            ∙ answers-rows_of cs (memory_call same_value c h).1 kept' later)

    -- A client of the historian contract, which appends measurements that the domain model
    -- accepts, gets from the SQLite historian, for any calls in any order, the answers and the
    -- errors that it gets from the in-memory one, with each value as the NUMERIC column gives it
    -- back; the column may change a value only into one that compares like it.
    pub answers_refine :
        (cs : List (Call V))
        → Accepts cs
        → answers (sqlite_call same_value numeric) cs []
          ≡ map read_back (answers (memory_call same_value) cs empty_historian)
    unfolding lookup
    answers_refine cs new =
        answers-rows_of cs empty_historian
          (record {
            indexed = record { indexed = tt; distinct = tt; stored = λ k m found. cc found };
            accepted = tt;
          })
          new
