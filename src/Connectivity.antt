-- ===== src/Connectivity.antt =====
-- backend/src/geopilot/connectivity.py: which sensors report. A time is its microseconds since the epoch, and
-- a span the whole number of its microseconds; the texts for the reader are left out. What the two queries
-- return is a parameter: a row for each sensor and unit, and a sensor's latest times, the newest first.
pub mod Counted
pub mod LastRow
mod Tests
use geopilot_hvac.Prelude.{
  ℕ, zero, suc, ◌+◌, ◌-◌, ◌*◌, ◌/◌, ◌%◌, Bool, true, false, not, ◌&&◌, ◌||◌, Option, none, some,
  List, [], ◌∷◌, ◌++◌, map, ℤ, pos, negsuc, ltb_ℤ, ◌-ℤ◌, pos_part, Text, ◌==◌, Dict, lookup, insert,
  length, leb, ltb, eqb, get_or, if◌then◌else◌,
}
use geopilot_hvac.Prelude.Sort.{keep, sort, leb_text}
use geopilot_hvac.Historian.{is_member}
use geopilot_hvac.Domain.Assets.{Sensor}

pub data Presence : Type 0 where
  live new late silent never unconfigured : Presence

pub record ConfiguredSensor : Type 0 where
  pub sensor_id : Text
  pub name : Text
  pub source_id : Text
  pub unit : Text

pub record SensorPresence : Type 0 where
  pub sensor_id : Text
  pub name : Text
  pub source_id : Text
  pub unit : Text
  pub presence : Presence
  pub count : ℕ
  pub last_seen : Option ℤ
  pub since_last : Option ℤ
  pub cadence : Option ℕ

pub record SourcePresence : Type 0 where
  pub source_id : Text
  pub total : ℕ
  pub healthy : ℕ
  pub presence : Presence

-- `_Facts`
pub record Facts : Type 0 where
  pub count : ℕ
  pub unit : Text
  pub last_seen : ℤ
  pub cadence : Option ℕ

-- a row of the query of `_recorded`
pub record Group : Type 0 where
  pub sensor_id : Text
  pub unit : Text
  pub count : ℕ
  pub last_us : ℤ

-- `presence in HEALTHY`
unfoldable pub is_healthy : Presence → Bool
is_healthy live = true
is_healthy new = true
is_healthy _ = false

unfoldable pub is_unconfigured : Presence → Bool
is_unconfigured unconfigured = true
is_unconfigured _ = false

unfoldable pub is_never : Presence → Bool
is_never never = true
is_never _ = false

-- `roster_from`, on the sensors of the configuration
unfoldable pub roster_from : List Sensor → List ConfiguredSensor
roster_from sensors =
    map
      (λ (s : Sensor). record {
        sensor_id = s.id;
        name = s.name;
        source_id = s.source_id;
        unit = s.unit;
      })
      sensors

-- the gaps between times that fall
unfoldable pub gaps_of : List ℤ → List ℕ
gaps_of [] = []
gaps_of (earlier ∷ []) = []
gaps_of (earlier ∷ later ∷ stamps) = pos_part (earlier -ℤ later) ∷ gaps_of (later ∷ stamps)

-- `timedelta(microseconds=n / 2)`, which rounds a half to the even neighbour
abbrev pub half_even : ℕ → ℕ
half_even n = if eqb (n % 4) 3 then n / 2 + 1 else n / 2

-- twice `median(gaps)`
unfoldable pub twice_median : List ℕ → ℕ
twice_median gaps =
    let sorted = sort leb gaps in
    let n = length gaps in
    if eqb (n % 2) 1
    then 2 * get_or sorted (n / 2) 0
    else get_or sorted (n / 2 - 1) 0 + get_or sorted (n / 2) 0

-- `_cadence`, on the latest times of the sensor
unfoldable pub cadence_of : List ℤ → Option ℕ
cadence_of stamps =
    let middle = twice_median (gaps_of stamps) in
    if ltb (length stamps) 3 then none else if ltb 0 middle then some (half_even middle) else none

-- the loop of `_recorded`; `stamps` are the latest times of a sensor
unfoldable pub recorded_from : (Text → List ℤ) → List Group → Dict Facts → Dict Facts
recorded_from stamps [] facts = facts
recorded_from stamps (g ∷ rows) facts = recorded_from stamps rows (
    insert g.sensor_id
      (record {
        count = g.count;
        unit = g.unit;
        last_seen = g.last_us;
        cadence = cadence_of (stamps g.sensor_id);
      })
      facts)

-- `_recorded`
abbrev pub recorded : (Text → List ℤ) → List Group → Dict Facts
recorded stamps rows = recorded_from stamps rows []

-- `FUTURE_TOLERANCE`, in microseconds, as the least age
abbrev pub least_age : ℤ
least_age = negsuc 119999999

-- the state of a sensor that has been heard, by its age and its cadence
unfoldable pub state_of : ℤ → Option ℕ → Presence
state_of since none = if ltb_ℤ since least_age then late else new
state_of since (some cadence) =
    if ltb_ℤ since least_age
    then late
    else if not (ltb_ℤ since (pos (cadence * 10)))
    then silent
    else if not (ltb_ℤ since (pos (cadence * 3)))
    then late
    else live

-- `_judge`
unfoldable pub judge : ConfiguredSensor → Option Facts → ℤ → SensorPresence
judge sensor none now = record {
  sensor_id = sensor.sensor_id;
  name = sensor.name;
  source_id = sensor.source_id;
  unit = sensor.unit;
  presence = never;
  count = 0;
  last_seen = none;
  since_last = none;
  cadence = none;
}
judge sensor (some facts) now = record {
  sensor_id = sensor.sensor_id;
  name = sensor.name;
  source_id = sensor.source_id;
  unit = sensor.unit;
  presence = state_of (now -ℤ facts.last_seen) facts.cadence;
  count = facts.count;
  last_seen = some facts.last_seen;
  since_last = some (now -ℤ facts.last_seen);
  cadence = facts.cadence;
}

-- the verdict on a sensor that is recorded but not configured
unfoldable pub unexpected : ℤ → Text × Facts → SensorPresence
unexpected now (sensor_id, facts) = record {
  sensor_id = sensor_id;
  name = [];
  source_id = [];
  unit = facts.unit;
  presence = unconfigured;
  count = facts.count;
  last_seen = some facts.last_seen;
  since_last = some (now -ℤ facts.last_seen);
  cadence = facts.cadence;
}

-- `presence`
unfoldable pub presence : Dict Facts → List ConfiguredSensor → ℤ → List SensorPresence
presence facts roster now =
    map (λ s. judge s (lookup s.sensor_id facts) now) roster
    ++ map (unexpected now) (
        keep (λ row. not (is_member row.0 (map (λ (s : ConfiguredSensor). s.sensor_id) roster)))
          (sort (λ a b. leb_text a.0 b.0) facts))

-- `sources.setdefault(source_id, []).append(verdict)`
unfoldable pub add_member : SensorPresence → Dict (List SensorPresence) → Dict (List SensorPresence)
add_member v sources = elim (lookup v.source_id sources) [
  | none ↦ insert v.source_id (v ∷ []) sources
  | some members ↦ insert v.source_id (members ++ v ∷ []) sources
]

-- the first loop of `by_source`
unfoldable pub members_of :
    List SensorPresence → Dict (List SensorPresence) → Dict (List SensorPresence)
members_of [] sources = sources
members_of (v ∷ verdicts) sources =
    members_of verdicts (if is_unconfigured v.presence then sources else add_member v sources)

-- `all(member.presence is Presence.NEVER for member in members)`
unfoldable pub all_never : List SensorPresence → Bool
all_never [] = true
all_never (v ∷ members) = is_never v.presence && all_never members

-- `sum(1 for member in members if member.healthy)`
unfoldable pub healthy_count : List SensorPresence → ℕ
healthy_count [] = 0
healthy_count (v ∷ members) =
    if is_healthy v.presence then suc (healthy_count members) else healthy_count members

-- what the second loop of `by_source` makes of a source
unfoldable pub summary_of : Text × List SensorPresence → SourcePresence
summary_of (source_id, members) = record {
  source_id = source_id;
  total = length members;
  healthy = healthy_count members;
  presence =
      if eqb (healthy_count members) (length members)
      then live
      else if ltb 0 (healthy_count members)
      then late
      else if all_never members
      then never
      else silent;
}

-- `by_source`
unfoldable pub by_source : List SensorPresence → List SourcePresence
by_source verdicts = map summary_of (sort (λ a b. leb_text a.0 b.0) (members_of verdicts []))
