-- ===== src/Connectivity/Tests.antt =====
-- Two sensors on a bus, one of which was never heard; and a sensor whose unit was changed.
use geopilot_hvac.Prelude.{
  ◌≡◌, refl, ℕ, none, some, List, [], ◌∷◌, ◌++◌, ℤ, pos, ◌-ℤ◌, Text, text, Dict, length, lookup,
  ◌==◌,
}
use geopilot_hvac.Prelude
use geopilot_hvac.Prelude.Sort
use geopilot_hvac.Connectivity
use geopilot_hvac.Historian
use geopilot_hvac.Connectivity.{
  ConfiguredSensor, SourcePresence, Facts, Group, late, silent, state_of, cadence_of, judge,
  recorded, presence, by_source,
}
use geopilot_hvac.Connectivity.LastRow.{IsVerdict, judge-last_row}
use geopilot_hvac.Connectivity.Counted.{total_of, AreBounded, by_source_counted}

abbrev boiler : ConfiguredSensor
boiler = record { sensor_id = text "a"; name = text "a"; source_id = text "m"; unit = text "kPa" }

abbrev flow : ConfiguredSensor
flow = record { sensor_id = text "b"; name = text "b"; source_id = text "m"; unit = text "L" }

-- a reading each second until the hundredth
abbrev stamps : Text → List ℤ
stamps id = pos 100000000 ∷ pos 99000000 ∷ pos 98000000 ∷ []

abbrev known : Dict Facts
known =
    (
      text "a",
      record { count = 3; unit = text "kPa"; last_seen = pos 100000000; cadence = some 1000000 },
    )
    ∷ []

abbrev adapter : SourcePresence
adapter = record { source_id = text "m"; total = 2; healthy = 1; presence = late }

half_quiet : by_source (presence known (boiler ∷ flow ∷ []) (pos 101000000)) ≡ adapter ∷ []
unfolding Connectivity.by_source Connectivity.presence Connectivity.judge Connectivity.members_of
    Connectivity.add_member Connectivity.summary_of Connectivity.is_unconfigured
    Connectivity.is_healthy Connectivity.healthy_count Connectivity.all_never Connectivity.is_never
    Prelude.lookup Prelude.insert Prelude.◌==◌ Sort.keep Sort.sort Sort.insert_sorted Sort.leb_text
    Connectivity.state_of Prelude.◌-ℤ◌ Historian.is_member
half_quiet = refl

by_source_counted_example :
    (total_of (by_source (presence known (boiler ∷ flow ∷ []) (pos 101000000)))
      ≡ length (boiler ∷ flow ∷ []))
    × AreBounded (by_source (presence known (boiler ∷ flow ∷ []) (pos 101000000)))
by_source_counted_example = by_source_counted known (boiler ∷ flow ∷ []) (pos 101000000)

-- the readings in the new unit, and those in the old one, which the query returns behind them
abbrev in_kpa : Group
in_kpa = record { sensor_id = text "a"; unit = text "kPa"; count = 3; last_us = pos 100000000 }

abbrev in_psi : Group
in_psi = record { sensor_id = text "a"; unit = text "psi"; count = 9; last_us = pos 50000000 }

abbrev of_flow : Group
of_flow = record { sensor_id = text "b"; unit = text "L"; count = 1; last_us = pos 90000000 }

-- The first sensor reported a second ago, and a row of another one follows.
judge-last_row_example : IsVerdict stamps (pos 101000000) (some in_psi) (
    judge boiler
      (lookup (text "a") (recorded stamps (in_kpa ∷ in_psi ∷ of_flow ∷ [])))
      (pos 101000000))
unfolding ◌==◌
judge-last_row_example =
    judge-last_row stamps (in_kpa ∷ in_psi ∷ of_flow ∷ []) boiler (pos 101000000)

called_silent : state_of (pos 51000000) (cadence_of (stamps (text "a"))) ≡ silent
unfolding state_of cadence_of Connectivity.gaps_of Connectivity.twice_median Sort.sort
    Sort.insert_sorted ◌-ℤ◌
called_silent = refl
