-- ===== src/Historian/Tests.antt =====
-- The historian on a few temperatures, with whole numbers as values.
use geopilot_hvac.Prelude.{
  ℕ, ◌≡◌, refl, true, eqb, eqb_iff, some, List, [], ◌∷◌, text, ◌==◌, is_blank, lookup, insert, ok,
}
use mathlib.Core.List.{Mem, mem-cons_self, mem-cons_of_mem}
use geopilot_hvac.Datetime.{utc}
use geopilot_hvac.Domain
use geopilot_hvac.Domain.Observation.{Measurement}
use geopilot_hvac.Prelude.Sort.{IsSorted, keep, sort, insert_sorted, leb_text}
use geopilot_hvac.Historian.{
  Historian, empty_historian, append, leb_key, query_sensor, latest_for_sensor, greatest,
  greatest_of, in_window, validate_window,
}
use geopilot_hvac.Historian.Index.{IsIndexed, append_all, append_all-empty_historian, append_again}
use geopilot_hvac.Historian.Queries.{IsInWindow, query_sensor_sound, latest_for_sensor_greatest}

abbrev reading : ℕ → ℕ → Measurement ℕ
reading at value = record {
  id = at ∷ [];
  sensor_id = text "supply";
  observed_at = utc at;
  received_at = utc at;
  value = value;
  unit = text "degC";
  quality = Domain.good;
  source_id = text "simulator";
}

-- out of order, and one of them twice
abbrev three_readings : List (Measurement ℕ)
three_readings = reading 30 21 ∷ reading 10 20 ∷ reading 30 21 ∷ reading 20 22 ∷ []

append_all-empty_historian_example : IsIndexed (append_all eqb three_readings empty_historian)
append_all-empty_historian_example = append_all-empty_historian eqb three_readings

abbrev one_reading : Historian ℕ
one_reading = record { measurements = reading 30 21 ∷ []; by_id = (30 ∷ [], reading 30 21) ∷ [] }

append_again_example : append eqb (reading 30 21) one_reading ≡ ok one_reading
unfolding append lookup insert ◌==◌
append_again_example =
    append_again eqb (λ v. (eqb_iff v v).1 refl) (reading 30 21) empty_historian one_reading refl

abbrev stored : Historian ℕ
stored = record { measurements = reading 30 21 ∷ reading 10 20 ∷ reading 20 22 ∷ []; by_id = [] }

query_sensor_sound_example :
    IsSorted leb_key (reading 10 20 ∷ reading 20 22 ∷ [])
    × ((m : Measurement ℕ)
        → (Mem m (reading 10 20 ∷ reading 20 22 ∷ [])
            → Mem m stored.measurements
              × (m.sensor_id ≡ text "supply")
              × IsInWindow (some (utc 10)) (some (utc 30)) m.observed_at)
          × (Mem m stored.measurements
              → m.sensor_id ≡ text "supply"
              → IsInWindow (some (utc 10)) (some (utc 30)) m.observed_at
              → Mem m (reading 10 20 ∷ reading 20 22 ∷ [])))
unfolding query_sensor validate_window in_window keep sort insert_sorted leb_key leb_text is_blank
    ◌==◌
query_sensor_sound_example =
    query_sensor_sound (text "supply") (some (utc 10)) (some (utc 30)) stored
      (reading 10 20 ∷ reading 20 22 ∷ []) refl

latest_for_sensor_greatest_example :
    (best : Measurement ℕ) × (some (reading 30 21) ≡ some best)
    × (Mem best stored.measurements)
    × (best.sensor_id ≡ text "supply")
    × (leb_key (reading 10 20) best ≡ true)
unfolding latest_for_sensor greatest_of greatest keep leb_key leb_text is_blank ◌==◌
latest_for_sensor_greatest_example =
    latest_for_sensor_greatest (text "supply") stored (some (reading 30 21)) refl (reading 10 20)
      (mem-cons_of_mem (reading 30 21) mem-cons_self) refl
