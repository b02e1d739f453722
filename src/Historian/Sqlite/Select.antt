-- ===== src/Historian/Sqlite/Select.antt =====
-- What a query selects from the rows is what the in-memory historian selects from its measurements.
use geopilot_hvac.Prelude.{
  ◌≡◌, refl, sym, ap, ◌∙◌, arith, Bool, Bool-cases, inl, inr, Option, none, some, List, [], ◌∷◌,
  map, Text, ◌==◌, Result, ok, map_err, ◌&&◌, if◌then◌else◌,
}
use mathlib.Core.Option
use geopilot_hvac.Prelude.Sort.{keep, sort, insert_sorted}
use geopilot_hvac.Prelude.Mapped.{keep-map, sort-map, keep_none}
use geopilot_hvac.Datetime.{Datetime}
use geopilot_hvac.Prelude.Results.{◌>>=◌}
use geopilot_hvac.Domain.Observation.{Measurement}
use geopilot_hvac.Historian.{
  Historian, leb_key, validate_window, in_window, greatest, greatest_of, query_sensor, query_system,
  latest_for_sensor, is_member,
}
use geopilot_hvac.Historian.Order.{leb_key_total, leb_key_trans}
use geopilot_hvac.Historian.Sqlite.{
  StorageError, Row, row_to_measurement, leb_row, window_bound, from_start, until_end, first_row,
  select_where, latest_row, select_sensor, select_sensors, select_system, measurements_of,
}
use geopilot_hvac.Historian.Sqlite.Rows.{
  stored_form, row_of, AreAccepted, IsAccepted, measurements_of-map, row_to_measurement-row_of,
}
use geopilot_hvac.Historian.Sqlite.Append.{rows_of, through, through_bind}
use geopilot_hvac.Datetime.{epoch_microseconds}
use geopilot_hvac.Registry.{AssetRegistry}
use geopilot_hvac.Prelude.{ap₂}
use geopilot_hvac.Historian.{require_identifier}
use geopilot_hvac.Historian.{registry_error}
use geopilot_hvac.Historian.{sensor_ids_for_system}

window_bound_valid :
    (start end : Option Datetime)
    → validate_window start end ≡ ok tt
    → (window_bound start ≡ ok (Option.map (λ (d : Datetime). d.instant) start))
      × (window_bound end ≡ ok (Option.map (λ (d : Datetime). d.instant) end))
unfolding validate_window window_bound epoch_microseconds
window_bound_valid start end h = (ground arith, ground arith)

in_window_instants :
    (start end : Option Datetime) (at : Datetime)
    → (from_start (Option.map (λ (d : Datetime). d.instant) start) at.instant
        && until_end (Option.map (λ (d : Datetime). d.instant) end) at.instant)
      ≡ in_window start end at
unfolding in_window
in_window_instants start end at = ground arith

module _ {V : Type 0} where
  AreAccepted-keep :
      (test : Measurement V → Bool) (ms : List (Measurement V))
      → AreAccepted ms
      → AreAccepted (keep test ms)
  unfolding keep
  AreAccepted-keep test [] h = tt
  AreAccepted-keep test (m ∷ ms) (h, hs) = elim (Bool-cases (test m)) [
    | inl e ↦ rw e (h, AreAccepted-keep test ms hs)
    | inr e ↦ rw e (AreAccepted-keep test ms hs)
  ]

  module _ (le : Measurement V → Measurement V → Bool) where
    AreAccepted-insert_sorted :
        (m : Measurement V) (ms : List (Measurement V))
        → IsAccepted m
        → AreAccepted ms
        → AreAccepted (insert_sorted le m ms)
    unfolding insert_sorted
    AreAccepted-insert_sorted m [] h hs = (h, tt)
    AreAccepted-insert_sorted m (n ∷ ms) h (k, ks) = elim (Bool-cases (le m n)) [
      | inl e ↦ rw e (h, (k, ks))
      | inr e ↦ rw e (k, AreAccepted-insert_sorted m ms h ks)
    ]

    AreAccepted-sort : (ms : List (Measurement V)) → AreAccepted ms → AreAccepted (sort le ms)
    unfolding sort
    AreAccepted-sort [] h = tt
    AreAccepted-sort (m ∷ ms) (h, hs) =
        AreAccepted-insert_sorted m (sort le ms) h (AreAccepted-sort ms hs)

  greatest-IsAccepted :
      (m : Measurement V) (ms : List (Measurement V))
      → IsAccepted m
      → AreAccepted ms
      → IsAccepted (greatest m ms)
  unfolding greatest
  greatest-IsAccepted m [] h hs = h
  greatest-IsAccepted m (n ∷ ms) h (k, ks) = elim (Bool-cases (leb_key n m)) [
    | inl e ↦ rw e (greatest-IsAccepted m ms h ks)
    | inr e ↦ rw e (greatest-IsAccepted n ms k ks)
  ]

  -- the order of `ORDER BY ... DESC`
  abbrev geb_key : Measurement V → Measurement V → Bool
  geb_key m n = leb_key n m

  abbrev first_of : List (Measurement V) → Option (Measurement V)
  first_of [] = none
  first_of (m ∷ ms) = some m

  first_of-insert :
      (m : Measurement V) (ms : List (Measurement V))
      → first_of (insert_sorted geb_key m ms)
        ≡ some (elim (first_of ms) [ none ↦ m | some n ↦ if leb_key n m then m else n ])
  unfolding insert_sorted
  first_of-insert m [] = refl
  first_of-insert m (n ∷ ms) = ground arith

  abbrev larger : Measurement V → Measurement V → Measurement V
  larger m n = if leb_key n m then m else n

  larger_assoc : (m n o : Measurement V) → larger (larger m n) o ≡ larger m (larger n o)
  larger_assoc m n o = ground (
    arith,
    leb_key_total m n,
    leb_key_total n m,
    leb_key_total n o,
    leb_key_total o n,
    leb_key_total m o,
    leb_key_total o m,
    leb_key_trans o n m,
    leb_key_trans m n o,
    leb_key_trans n o m,
    leb_key_trans o m n,
  )

  greatest-larger :
      (m n : Measurement V) (ms : List (Measurement V))
      → greatest (larger m n) ms ≡ larger m (greatest n ms)
  unfolding greatest
  greatest-larger m n [] = refl
  greatest-larger m n (o ∷ ms) =
      ap (λ x. greatest x ms) (larger_assoc m n o) ∙ greatest-larger m (larger n o) ms

  -- The first of the greatest heads the descending sort.
  first_of-greatest :
      (m : Measurement V) (ms : List (Measurement V))
      → first_of (sort geb_key (m ∷ ms)) ≡ some (greatest m ms)
  unfolding sort greatest
  first_of-greatest m [] = refl
  first_of-greatest m (n ∷ ms) =
      first_of-insert m (sort geb_key (n ∷ ms))
      ∙ ap (λ (o : Option (Measurement V)). some (elim o [ none ↦ m | some k ↦ larger m k ]))
          (first_of-greatest n ms)
      ∙ ap some (sym (greatest-larger m n ms))

module _ {V : Type 0} (numeric : V → V) where
  leb_row-row_of :
      (m n : Measurement V) → leb_row (row_of numeric m) (row_of numeric n) ≡ leb_key m n
  unfolding leb_row leb_key
  leb_row-row_of m n = refl

  -- sorted rows that pass a test, read back
  read_sorted :
      (le : Measurement V → Measurement V → Bool) (le' : Row V → Row V → Bool)
      (test : Measurement V → Bool) (test' : Row V → Bool)
      → ((m n : Measurement V) → le' (row_of numeric m) (row_of numeric n) ≡ le m n)
      → ((m : Measurement V) → test' (row_of numeric m) ≡ test m)
      → (ms : List (Measurement V))
      → sort le' (keep test' (map (row_of numeric) ms))
        ≡ map (row_of numeric) (sort le (keep test ms))
  read_sorted le le' test test' same_order same_test ms =
      ap (sort le') (keep-map (row_of numeric) test test' same_test ms)
      ∙ sort-map (row_of numeric) le le' same_order (keep test ms)

  select_where-rows_of :
      (clause : Row V → Bool) (test : Measurement V → Bool) (start end : Option Datetime)
      (h : Historian V)
      → ((m : Measurement V) → clause (row_of numeric m) ≡ test m)
      → AreAccepted h.measurements
      → validate_window start end ≡ ok tt
      → select_where clause start end (rows_of numeric h)
        ≡ ok (
            map (stored_form numeric) (
              sort leb_key
                (keep (λ m. test m && in_window start end m.observed_at) h.measurements)))
  unfolding select_where
  select_where-rows_of clause test start end h same accepted valid =
      let (s, e) = window_bound_valid start end valid in
      rw (s, e)
        (ap measurements_of (
            read_sorted leb_key leb_row (λ m. test m && in_window start end m.observed_at)
              (λ row.
                clause row
                && (from_start (Option.map (λ (d : Datetime). d.instant) start) row.observed_at_us
                    && until_end (Option.map (λ (d : Datetime). d.instant) end) row.observed_at_us))
              leb_row-row_of
              (λ m. ap₂ (λ a b. a && b) (same m) (in_window_instants start end m.observed_at))
              h.measurements)
          ∙ measurements_of-map numeric
              (sort leb_key
                (keep (λ m. test m && in_window start end m.observed_at) h.measurements))
              (AreAccepted-sort leb_key
                (keep (λ m. test m && in_window start end m.observed_at) h.measurements)
                (AreAccepted-keep (λ m. test m && in_window start end m.observed_at) h.measurements
                  accepted)))

  pub select_sensor-rows_of :
      (sensor_id : Text) (start end : Option Datetime) (h : Historian V)
      → AreAccepted h.measurements
      → select_sensor sensor_id start end (rows_of numeric h)
        ≡ through numeric (map (stored_form numeric)) (query_sensor sensor_id start end h)
  unfolding select_sensor query_sensor
  select_sensor-rows_of sensor_id start end h accepted =
      through_bind numeric (map (stored_form numeric)) (require_identifier sensor_id) _ _ (λ _ _.
        through_bind numeric (map (stored_form numeric)) (validate_window start end) _ _ (λ _ valid.
          select_where-rows_of (λ row. row.sensor_id == sensor_id) (λ m. m.sensor_id == sensor_id)
            start end h (λ m. refl) accepted valid))

  select_sensors-rows_of :
      (ids : List Text) (start end : Option Datetime) (h : Historian V)
      → AreAccepted h.measurements
      → validate_window start end ≡ ok tt
      → select_sensors ids start end (rows_of numeric h)
        ≡ ok (
            map (stored_form numeric) (
              sort leb_key (
                keep
                  (λ m. is_member m.sensor_id ids && in_window start end m.observed_at)
                  h.measurements)))
  unfolding select_sensors is_member sort
  select_sensors-rows_of [] start end h accepted valid =
      rw
        (keep_none
          (λ (m : Measurement V). is_member m.sensor_id [] && in_window start end m.observed_at)
          (λ m. refl) h.measurements)
        refl
  select_sensors-rows_of (id ∷ ids) start end h accepted valid =
      select_where-rows_of (λ row. is_member row.sensor_id (id ∷ ids))
        (λ m. is_member m.sensor_id (id ∷ ids)) start end h (λ m. refl) accepted valid

  pub select_system-rows_of :
      (system_id : Text) (registry : AssetRegistry) (start end : Option Datetime) (h : Historian V)
      → AreAccepted h.measurements
      → select_system system_id registry start end (rows_of numeric h)
        ≡ through numeric (map (stored_form numeric)) (query_system system_id registry start end h)
  unfolding select_system query_system
  select_system-rows_of system_id registry start end h accepted =
      through_bind numeric (map (stored_form numeric)) (require_identifier system_id) _ _ (λ _ _.
        through_bind numeric (map (stored_form numeric)) (validate_window start end) _ _ (λ _ valid.
          through_bind numeric (map (stored_form numeric))
            (map_err registry_error (sensor_ids_for_system system_id registry)) _ _
            (λ ids _. select_sensors-rows_of ids start end h accepted valid)))

  first_row-map :
      (ms : List (Measurement V))
      → first_row (map (row_of numeric) ms) ≡ Option.map (row_of numeric) (first_of ms)
  first_row-map [] = refl
  first_row-map (m ∷ ms) = refl

  -- the row that was selected, read back
  abbrev read_first : Option (Row V) → Result StorageError (Option (Measurement V))
  read_first o = elim o [ none ↦ ok none | some row ↦ row_to_measurement row >>= λ m. ok (some m) ]

  read_first-greatest :
      (ms : List (Measurement V))
      → AreAccepted ms
      → read_first (first_row (map (row_of numeric) (sort geb_key ms)))
        ≡ ok (Option.map (stored_form numeric) (greatest_of ms))
  unfolding greatest_of sort
  read_first-greatest [] h = refl
  read_first-greatest (m ∷ ms) h =
      ap read_first (first_row-map (sort geb_key (m ∷ ms)))
      ∙ ap (λ (o : Option (Measurement V)). read_first (Option.map (row_of numeric) o))
          (first_of-greatest m ms)
      ∙ ap (λ (r : Result StorageError (Measurement V)). r >>= λ (n : Measurement V). ok (some n))
          (row_to_measurement-row_of numeric (greatest m ms) (greatest-IsAccepted m ms h.0 h.1))

  latest_of-keep :
      (sensor_id : Text) (ms : List (Measurement V))
      → AreAccepted ms
      → read_first (
          first_row (
            sort
              (λ a b. leb_row b a)
              (keep (λ row. row.sensor_id == sensor_id) (map (row_of numeric) ms))))
        ≡ ok (
            Option.map
              (stored_form numeric)
              (greatest_of (keep (λ m. m.sensor_id == sensor_id) ms)))
  latest_of-keep sensor_id ms h =
      ap (λ rows. read_first (first_row rows))
        (read_sorted geb_key (λ a b. leb_row b a) (λ m. m.sensor_id == sensor_id)
          (λ row. row.sensor_id == sensor_id) (λ m n. leb_row-row_of n m) (λ m. refl) ms)
      ∙ read_first-greatest (keep (λ m. m.sensor_id == sensor_id) ms)
          (AreAccepted-keep (λ m. m.sensor_id == sensor_id) ms h)

  pub latest_row-rows_of :
      (sensor_id : Text) (h : Historian V)
      → AreAccepted h.measurements
      → latest_row sensor_id (rows_of numeric h)
        ≡ through numeric (Option.map (stored_form numeric)) (latest_for_sensor sensor_id h)
  unfolding latest_row latest_for_sensor
  latest_row-rows_of sensor_id h accepted =
      through_bind numeric (Option.map (stored_form numeric)) (require_identifier sensor_id) _ _
        (λ _ _. latest_of-keep sensor_id h.measurements accepted)
