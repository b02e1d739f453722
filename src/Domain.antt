-- ===== src/Domain.antt =====
-- The domain model of backend/src/geopilot/domain.py: its enumerations, and the checks that its
-- constructors share. A measured value is of a type `V`, since the program computes with floats.
pub mod Assets
pub mod Observation
use geopilot_hvac.Prelude.{
  Bool, true, false, not, Option, none, some, List, [], ◌∷◌, Text, is_blank, Result, ok, err,
}
use geopilot_hvac.Prelude.Results.{raise_if}
use geopilot_hvac.Datetime.{Datetime, is_aware}

-- `GeoPilotDomainError`, by the check that raised it
pub data DomainError : Type 0 where
  blank_identifier blank_text naive_datetime : DomainError

pub data SystemType : Type 0 where
  forced_air hydronic hybrid unknown : SystemType

pub data EquipmentType : Type 0 where
  heat_pump thermostat meter controller sensor_hub unknown : EquipmentType

pub data MeasurementKind : Type 0 where
  temperature power energy flow pressure humidity : MeasurementKind
  runtime mode state unknown : MeasurementKind

pub data SensorMeasurementKind : Type 0 where
  temperature relative_humidity power state : SensorMeasurementKind

pub data SourceType : Type 0 where
  simulator firmware home_assistant manual_import api unknown : SourceType

pub data ProtocolName : Type 0 where
  mqtt modbus bacnet esphome rest file manual unknown : ProtocolName

pub data DataQuality : Type 0 where
  good estimated missing stale invalid unknown : DataQuality

pub data EquipmentOperationalState : Type 0 where
  off idle heating cooling fan_only defrost unknown : EquipmentOperationalState

pub data Severity : Type 0 where
  info warning critical unknown : Severity

-- `_require_identifier`
abbrev pub require_identifier : Text → Result DomainError (Unit {0})
require_identifier value = raise_if (is_blank value) blank_identifier

-- `_require_text`
abbrev pub require_text : Text → Result DomainError (Unit {0})
require_text value = raise_if (is_blank value) blank_text

-- `_require_aware_datetime`
abbrev pub require_aware_datetime : Datetime → Result DomainError (Unit {0})
require_aware_datetime value = raise_if (not (is_aware value)) naive_datetime

-- a check of a field that may be `None`
abbrev pub when_given :
    {A : Type 0} → (A → Result DomainError (Unit {0})) → Option A → Result DomainError (Unit {0})
when_given check none = ok tt
when_given check (some a) = check a

-- `_sensor_kind_from_measurement_kind`
unfoldable pub sensor_kind_from_measurement_kind : MeasurementKind → Option SensorMeasurementKind
sensor_kind_from_measurement_kind temperature = some temperature
sensor_kind_from_measurement_kind humidity = some relative_humidity
sensor_kind_from_measurement_kind power = some power
sensor_kind_from_measurement_kind _ = none
