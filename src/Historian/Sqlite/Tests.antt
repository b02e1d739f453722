-- ===== src/Historian/Sqlite/Tests.antt =====
-- Calls on the SQLite historian: a float that is whole comes back from the NUMERIC column as an integer.
use geopilot_hvac.Prelude.{
  ℕ, ◌≡◌, refl, Bool, true, false, eqb, none, some, List, [], ◌∷◌, map, text, is_blank,
}
use geopilot_hvac.Datetime.{utc}
use geopilot_hvac.Domain
use geopilot_hvac.Domain.Observation.{Measurement, measurement}
use geopilot_hvac.Historian.{empty_historian}
use geopilot_hvac.Historian.Sqlite.Refines.{
  Call, append_call, all_call, count_call, latest_call, sensor_call, memory_call, sqlite_call,
  answers, read_back, answers_refine,
}
use geopilot_hvac.Prelude.{◌+◌}

-- a number, and whether it is a float
abbrev Number : Type 0
Number = ℕ × Bool

abbrev same_number : Number → Number → Bool
same_number (a, _) (b, _) = eqb a b

abbrev numeric : Number → Number
numeric (a, _) = (a, false)

abbrev reading : ℕ → ℕ → Measurement Number
reading at value = record {
  id = (97 + at) ∷ [];
  sensor_id = text "supply";
  observed_at = utc at;
  received_at = utc at;
  value = (value, true);
  unit = text "degC";
  quality = Domain.good;
  source_id = text "simulator";
}

-- the second call conflicts with the first, the third is the same observation again
abbrev calls : List (Call Number)
calls =
    append_call (reading 2 21)
    ∷ append_call (reading 2 22)
    ∷ append_call (reading 2 21)
    ∷ append_call (reading 1 20)
    ∷ count_call
    ∷ latest_call (text "supply")
    ∷ sensor_call (text "supply") (some (utc 0)) none
    ∷ all_call
    ∷ []

answers_refine_example :
    answers (sqlite_call same_number numeric) calls []
    ≡ map (read_back numeric) (answers (memory_call same_number) calls empty_historian)
unfolding measurement is_blank
answers_refine_example =
    answers_refine numeric same_number (λ v w. refl) calls (refl, (refl, (refl, (refl, tt))))
