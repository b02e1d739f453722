-- ===== src/OneWire.antt =====
-- backend/src/geopilot/onewire.py: DS18B20 probes through the kernel's sysfs tree, which is a parameter.
--
-- The decimal digits that `\d` and `int` know are a parameter too: Unicode has more than the ten of ASCII.
pub mod Readings
pub mod Printed
mod Tests
use geopilot_hvac.Prelude.{
  ℕ, zero, suc, ◌+◌, ◌-◌, ◌*◌, Bool, true, false, not, ◌&&◌, Option, none, some, List, [], ◌∷◌,
  ◌++◌, map, ℤ, pos, negsuc, Text, text, ◌==◌, is_blank, Dict, lookup, Result, ok, err, map_err,
  if◌then◌else◌, eqb, get_or,
}
use geopilot_hvac.Prelude.Results
use geopilot_hvac.Prelude.Results.{raise_if}
use geopilot_hvac.Prelude.Exec.{Exec, modify, lift, ◌>>=◌, ◌>>◌}
use geopilot_hvac.Prelude.Sort.{keep, sort, leb_text}
use geopilot_hvac.Prelude.Lines.{starts_with, ends_with, strip, strip_right, split_lines}
use geopilot_hvac.Prelude.Numbers.{Numbers}
use geopilot_hvac.Datetime.{Datetime, is_aware}
use geopilot_hvac.Domain.{good}
use geopilot_hvac.Ingestion.{IngestionError, RawMeasurement, raw_measurement}
use geopilot_hvac.Acquisition.{AcquisitionErrorCode, read_failed, decode_failed}

pub data OneWireErrorCode : Type 0 where
  device_not_found read_error crc_failed invalid_response power_on_reset : OneWireErrorCode

-- `OneWireError`
pub record OneWireError : Type 0 where
  pub code : OneWireErrorCode
  pub device_id : Option Text

-- `OneWireBoundaryError`, by the check that raised it
pub data OneWireBoundaryError : Type 0 where
  blank_identifier blank_reference naive_datetime : OneWireBoundaryError

-- what a read may raise
pub data OneWireFault : Type 0 where
  one_wire_error : OneWireError → OneWireFault
  boundary : OneWireBoundaryError → OneWireFault
  ingestion_error : IngestionError → OneWireFault

-- `POWER_ON_RESET_MILLIDEGREES`
abbrev pub power_on_reset_millidegrees : ℕ
power_on_reset_millidegrees = 85000

-- `acquisition_code`
unfoldable pub acquisition_code : OneWireErrorCode → AcquisitionErrorCode
acquisition_code invalid_response = decode_failed
acquisition_code crc_failed = decode_failed
acquisition_code device_not_found = read_failed
acquisition_code read_error = read_failed
acquisition_code power_on_reset = read_failed

abbrev pub fault : OneWireErrorCode → Text → OneWireFault
fault code device_id = one_wire_error (record { code = code; device_id = some device_id })

pub record OneWireReading : Type 0 where
  pub device_id : Text
  pub millidegrees : ℤ
  pub observed_at : Datetime

-- `OneWireReading(...)` with `__post_init__`
unfoldable pub one_wire_reading : OneWireReading → Result OneWireBoundaryError OneWireReading
one_wire_reading r =
    Results.◌>>◌ (raise_if (is_blank r.device_id) blank_identifier)
      (Results.◌>>◌ (raise_if (not (is_aware r.observed_at)) naive_datetime) (ok r))

pub record SensorDefinition (V : Type 0) : Type 0 where
  pub device_id : Text
  pub source_id : Text
  pub sensor_id : Text
  pub unit : Text
  pub offset_celsius : V
  pub source_reference : Text

-- `OneWireSensorDefinition(...)` with `__post_init__`
unfoldable pub sensor_definition :
    {V : Type 0} → SensorDefinition V → Result OneWireBoundaryError (SensorDefinition V)
sensor_definition d = Results.◌>>◌ (raise_if (is_blank d.device_id) blank_identifier) (
    Results.◌>>◌ (raise_if (is_blank d.source_id) blank_identifier) (
      Results.◌>>◌ (raise_if (is_blank d.sensor_id) blank_identifier) (
        Results.◌>>◌ (raise_if (is_blank d.unit) blank_identifier)
          (Results.◌>>◌ (raise_if (is_blank d.source_reference) blank_reference) (ok d)))))

-- the number that digits stand for, behind a number that was read
unfoldable pub number_of : ℕ → List ℕ → ℕ
number_of n [] = n
number_of n (d ∷ ds) = number_of (n * 10 + d) ds

-- `-n`
abbrev pub negated : ℕ → ℤ
negated zero = pos zero
negated (suc n) = negsuc n

-- `int` of the digits that follow a sign, where there are any
abbrev pub signed : Bool → List ℕ → Option ℤ
signed negative [] = none
signed negative (d ∷ ds) =
    let n = number_of 0 (d ∷ ds) in some (if negative then negated n else pos n)

-- what the tree has under a device: no file, one that cannot be read, or its text
pub data Slave : Type 0 where
  absent unreadable : Slave
  holds : Text → Slave

-- the end of `parse_w1_slave`, on the number that was found
unfoldable pub reading_of : Text → Datetime → Option ℤ → Result OneWireFault OneWireReading
reading_of device_id observed_at none = err (fault invalid_response device_id)
reading_of device_id observed_at (some (negsuc n)) = map_err boundary (
    one_wire_reading
      (record { device_id = device_id; millidegrees = negsuc n; observed_at = observed_at }))
reading_of device_id observed_at (some (pos n)) =
    if eqb n power_on_reset_millidegrees
    then err (fault power_on_reset device_id)
    else map_err boundary (
        one_wire_reading
          (record { device_id = device_id; millidegrees = pos n; observed_at = observed_at }))

module _ (digit : ℕ → Option ℕ) where
  -- the greatest run of digits that a text begins with
  unfoldable pub leading_digits : Text → List ℕ
  leading_digits [] = []
  leading_digits (c ∷ s) =
      let rest = leading_digits s in elim (digit c) [ none ↦ [] | some d ↦ d ∷ rest ]

  -- a match of `(-?\d+)` at the start
  unfoldable pub match_number : Text → Option ℤ
  match_number [] = none
  match_number (c ∷ s) =
      if eqb c 45 then signed true (leading_digits s) else signed false (leading_digits (c ∷ s))

  -- a match of `t=(-?\d+)` at the start
  unfoldable pub match_here : Text → Option ℤ
  match_here [] = none
  match_here (c ∷ []) = none
  match_here (c ∷ d ∷ s) = if eqb c 116 && eqb d 61 then match_number s else none

  -- `_TEMPERATURE_PATTERN.search`: the leftmost match
  unfoldable pub search_temperature : Text → Option ℤ
  search_temperature [] = none
  search_temperature (c ∷ s) =
      let later = search_temperature s in
      elim (match_here (c ∷ s)) [ some n ↦ some n | none ↦ later ]

  -- `parse_w1_slave`, on the lines
  unfoldable pub parse_lines : Text → Datetime → List Text → Result OneWireFault OneWireReading
  parse_lines device_id observed_at [] = err (fault invalid_response device_id)
  parse_lines device_id observed_at (first ∷ []) = err (fault invalid_response device_id)
  parse_lines device_id observed_at (first ∷ second ∷ _) =
      if not (ends_with (text "YES") (strip_right first))
      then err (fault crc_failed device_id)
      else reading_of device_id observed_at (search_temperature second)

  -- `parse_w1_slave`
  unfoldable pub parse_w1_slave : Text → Text → Datetime → Result OneWireFault OneWireReading
  parse_w1_slave device_id content observed_at =
      parse_lines device_id observed_at (split_lines (strip content))

  -- `SysfsOneWireBus.read_temperature`
  unfoldable pub read_temperature :
      {S : Type 0} → (S → Text → Slave) → (S → Datetime) → Text → Exec S OneWireFault OneWireReading
  read_temperature tree clock device_id s = elim (tree s device_id) [
    | absent ↦ (err (fault device_not_found device_id), s)
    | unreadable ↦ (err (fault read_error device_id), s)
    | holds content ↦ (parse_w1_slave device_id content (clock s), s)
  ]

-- `SysfsOneWireBus.available_devices`, on the names below the root, and whether each is a directory
unfoldable pub available_devices : Text → Option (List (Text × Bool)) → List Text
available_devices family none = []
available_devices family (some entries) =
    sort leb_text (map (λ e. e.0) (keep (λ e. e.1 && starts_with (family ++ text "-") e.0) entries))

module _ {V S : Type 0} (numbers : Numbers V)
    (read : Text → Exec S OneWireFault OneWireReading) where
  -- `celsius`
  abbrev pub celsius : OneWireReading → V
  celsius r = numbers.divided (numbers.of_int r.millidegrees) (numbers.of_int (pos 1000))

  -- `OneWireAcquisitionService.read_raw_measurement`
  unfoldable pub read_raw_measurement : SensorDefinition V → Exec S OneWireFault (RawMeasurement V)
  read_raw_measurement d = do
    reading ← read d.device_id
    lift (
        map_err ingestion_error (
          raw_measurement numbers (record {
            source_id = d.source_id;
            sensor_id = d.sensor_id;
            value = numbers.plus (celsius reading) d.offset_celsius;
            unit = d.unit;
            timestamp = reading.observed_at;
            quality = good;
            metadata = [];
          })))

-- `FakeOneWireBus`
pub record FakeBus : Type 0 where
  pub readings : Dict OneWireReading
  pub errors : Dict OneWireError
  pub requested : List Text

-- `FakeOneWireBus.read_temperature`
unfoldable pub fake_read_temperature : Text → Exec FakeBus OneWireFault OneWireReading
fake_read_temperature device_id bus = (
  elim (lookup device_id bus.errors) [
    | some e ↦ err (one_wire_error e)
    | none ↦ elim (lookup device_id bus.readings) [
      | some reading ↦ ok reading
      | none ↦ err (fault device_not_found device_id)
    ]
  ],
  record bus { requested = bus.requested ++ device_id ∷ [] },
)
