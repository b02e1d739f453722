-- ===== src/Connectivity/LastRow.antt =====
-- connectivity.py: of the rows of a sensor, the last one counts.
use geopilot_hvac.Prelude.{
  ◌≡◌, refl, ◌∙◌, Option, none, some, List, [], ◌∷◌, ℤ, ◌-ℤ◌, Text, Dict, lookup,
}
use geopilot_hvac.Prelude.Dicts.{last_with, value_or, value_or-last_with}
use geopilot_hvac.Connectivity.{
  ConfiguredSensor, SensorPresence, Facts, Group, never, cadence_of, recorded_from, recorded,
  state_of, judge,
}

-- the last row of a sensor
abbrev pub last_row : Text → List Group → Option Group
last_row id rows = last_with (λ (g : Group). g.sensor_id) id rows

-- What the verdict on a sensor is to say, by its last row.
abbrev pub IsVerdict : (Text → List ℤ) → ℤ → Option Group → SensorPresence → Type 0
IsVerdict stamps now none v =
    (v.presence ≡ never) × (v.count ≡ 0) × (v.last_seen ≡ none) × (v.since_last ≡ none)
IsVerdict stamps now (some g) v =
    (v.presence ≡ state_of (now -ℤ g.last_us) (cadence_of (stamps g.sensor_id)))
    × (v.count ≡ g.count)
    × (v.last_seen ≡ some g.last_us)
    × (v.since_last ≡ some (now -ℤ g.last_us))

abbrev facts_of : (Text → List ℤ) → Group → Facts
facts_of stamps g = record {
  count = g.count;
  unit = g.unit;
  last_seen = g.last_us;
  cadence = cadence_of (stamps g.sensor_id);
}

lookup-recorded_from :
    (stamps : Text → List ℤ) (id : Text) (rows : List Group) (facts : Dict Facts)
    → lookup id (recorded_from stamps rows facts)
      ≡ value_or (facts_of stamps) (lookup id facts) (last_row id rows)
unfolding recorded_from
lookup-recorded_from stamps id [] facts = refl
lookup-recorded_from stamps id (g ∷ rows) facts =
    lookup-recorded_from stamps id rows _
    ∙ value_or-last_with (λ (r : Group). r.sensor_id) (facts_of stamps) id g rows facts

judge-IsVerdict :
    (stamps : Text → List ℤ) (now : ℤ) (sensor : ConfiguredSensor) (last : Option Group)
    → IsVerdict stamps now last (judge sensor (value_or (facts_of stamps) none last) now)
unfolding judge
judge-IsVerdict stamps now sensor none = (refl, refl, refl, refl)
judge-IsVerdict stamps now sensor (some g) = (refl, refl, refl, refl)

-- Of the rows that the query of _recorded returns, whatever sensors they are of and in whatever
-- order, the verdict on a configured sensor takes its state, count, last time and age from the
-- last row of that sensor, whatever times its other rows have; a sensor without a row was never
-- heard.
pub judge-last_row :
    (stamps : Text → List ℤ) (rows : List Group) (sensor : ConfiguredSensor) (now : ℤ)
    → IsVerdict stamps now
        (last_row sensor.sensor_id rows)
        (judge sensor (lookup sensor.sensor_id (recorded stamps rows)) now)
unfolding lookup
judge-last_row stamps rows sensor now =
    rw (lookup-recorded_from stamps sensor.sensor_id rows [])
      (judge-IsVerdict stamps now sensor (last_row sensor.sensor_id rows))
