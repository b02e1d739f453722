-- ===== src/Domain/Assets.antt =====
-- The assets of domain.py: residences, systems, equipment, sources and sensors.
use geopilot_hvac.Prelude.{Option, none, some, Text, Result, ok}
use geopilot_hvac.Prelude.Results.{◌>>◌}
use geopilot_hvac.Datetime.{Datetime}
use geopilot_hvac.Domain.{
  DomainError, SystemType, EquipmentType, MeasurementKind, SensorMeasurementKind, SourceType,
  ProtocolName, require_identifier, require_text, require_aware_datetime, when_given,
  sensor_kind_from_measurement_kind,
}

-- `Unit`
pub record UnitMetadata : Type 0 where
  pub code : Text
  pub quantity : Text
  pub symbol : Text

-- `Unit(...)` with `__post_init__`
unfoldable pub unit_metadata : UnitMetadata → Result DomainError UnitMetadata
unit_metadata u = do require_identifier u.code; require_text u.quantity; require_text u.symbol; ok u

pub record Residence : Type 0 where
  pub id : Text
  pub name : Text
  pub timezone : Text
  pub created_at : Datetime

-- `Residence(...)` with `__post_init__`, on the fields of the call
unfoldable pub residence : Residence → Result DomainError Residence
residence r = do
  require_identifier r.id
  require_text r.name
  require_text r.timezone
  require_aware_datetime r.created_at
  ok r

pub record HvacSystem : Type 0 where
  pub id : Text
  pub residence_id : Text
  pub name : Text
  pub system_type : SystemType
  pub created_at : Datetime

-- `HVACSystem(...)` with `__post_init__`
unfoldable pub hvac_system : HvacSystem → Result DomainError HvacSystem
hvac_system s = do
  require_identifier s.id
  require_identifier s.residence_id
  require_text s.name
  require_aware_datetime s.created_at
  ok s

pub record Equipment : Type 0 where
  pub id : Text
  pub hvac_system_id : Text
  pub name : Text
  pub equipment_type : EquipmentType
  pub created_at : Datetime
  pub manufacturer : Option Text
  pub model : Option Text

-- `Equipment(...)` with `__post_init__`
unfoldable pub equipment : Equipment → Result DomainError Equipment
equipment e = do
  require_identifier e.id
  require_identifier e.hvac_system_id
  require_text e.name
  require_aware_datetime e.created_at
  when_given require_text e.manufacturer
  when_given require_text e.model
  ok e

pub record ProtocolSource : Type 0 where
  pub id : Text
  pub name : Text
  pub source_type : SourceType
  pub created_at : Datetime
  pub protocol : Option ProtocolName

-- `ProtocolSource(...)` with `__post_init__`
unfoldable pub protocol_source : ProtocolSource → Result DomainError ProtocolSource
protocol_source p = do
  require_identifier p.id
  require_text p.name
  require_aware_datetime p.created_at
  ok p

pub record Sensor : Type 0 where
  pub id : Text
  pub equipment_id : Text
  pub name : Text
  pub measurement_kind : MeasurementKind
  pub unit : Text
  pub source_id : Text
  pub created_at : Datetime
  pub sensor_kind : Option SensorMeasurementKind

-- the capability that is kept: the one that was given, or else that of the measurement kind
abbrev pub resolved_kind :
    MeasurementKind → Option SensorMeasurementKind → Option SensorMeasurementKind
resolved_kind kind none = sensor_kind_from_measurement_kind kind
resolved_kind kind (some given) = some given

-- `Sensor(...)` with `__post_init__`
unfoldable pub sensor : Sensor → Result DomainError Sensor
sensor s = do
  require_identifier s.id
  require_identifier s.equipment_id
  require_text s.name
  require_identifier s.unit
  require_identifier s.source_id
  require_aware_datetime s.created_at
  ok (record s { sensor_kind = resolved_kind s.measurement_kind s.sensor_kind })
