-- ===== src/Configuration/Sections.antt =====
-- configuration.py: the sections of a configuration, and what each enumeration is spelled like in the file.
use geopilot_hvac.Prelude.{Bool, List, [], ◌∷◌, ℤ, Text, text, ◌==◌, Result, ok, err, if◌then◌else◌}
use geopilot_hvac.Domain.{
  SystemType, EquipmentType, MeasurementKind, SensorMeasurementKind, forced_air, hydronic, hybrid,
  unknown, heat_pump, thermostat, meter, controller, sensor_hub, temperature, power, energy, flow,
  pressure, humidity, runtime, mode, state, relative_humidity,
}
use geopilot_hvac.Domain.Assets.{Residence, HvacSystem, Equipment, Sensor}
use geopilot_hvac.Modbus.Boundary.{RegisterKind, BitKind, holding, input, discrete_input, coil}
use geopilot_hvac.Decoder.{RegisterDataType, uint16, int16, float32, float32_swapped}
use geopilot_hvac.Control.{ControlTarget, ControlPolicy}
use geopilot_hvac.Configuration.{ConfigurationError, unknown_source, unknown_target}

pub record SerialSourceConfig (V : Type 0) : Type 0 where
  pub source_id : Text
  pub port : Text
  pub baudrate : ℤ
  pub parity : Text
  pub stopbits : V
  pub bytesize : ℤ
  pub timeout : V

pub record OneWireSourceConfig : Type 0 where
  pub source_id : Text
  pub root : Text

pub record OneWireReadConfig (V : Type 0) : Type 0 where
  pub read_id : Text
  pub source_id : Text
  pub sensor_id : Text
  pub device_id : Text
  pub unit : Text
  pub offset_celsius : V
  pub source_reference : Text

pub record BitReadConfig : Type 0 where
  pub read_id : Text
  pub source_id : Text
  pub sensor_id : Text
  pub unit_id : ℤ
  pub bit_kind : BitKind
  pub address : ℤ
  pub inverted : Bool
  pub source_reference : Text

pub record RegisterReadConfig (V : Type 0) : Type 0 where
  pub read_id : Text
  pub source_id : Text
  pub sensor_id : Text
  pub unit_id : ℤ
  pub register_kind : RegisterKind
  pub address : ℤ
  pub quantity : ℤ
  pub data_type : RegisterDataType
  pub unit : Text
  pub scale : V
  pub offset : V
  pub source_reference : Text

pub record ControlTargetConfig : Type 0 where
  pub target : ControlTarget
  pub source_id : Text

pub record InstallationConfig (V : Type 0) : Type 0 where
  pub version : ℤ
  pub database : Text
  pub residence : Residence
  pub systems : List HvacSystem
  pub equipment : List Equipment
  pub sensors : List Sensor
  pub sources : List (SerialSourceConfig V)
  pub reads : List (RegisterReadConfig V)
  pub onewire_sources : List OneWireSourceConfig
  pub onewire_reads : List (OneWireReadConfig V)
  pub bit_reads : List BitReadConfig
  pub control : ControlPolicy
  pub control_sources : List ControlTargetConfig

-- the loop of `control_source`
unfoldable pub control_source : Text → List ControlTargetConfig → Result ConfigurationError Text
control_source target_id [] = err (unknown_target target_id)
control_source target_id (candidate ∷ rest) =
    let later = control_source target_id rest in
    if candidate.target.target_id == target_id then ok candidate.source_id else later

-- the loop of `source`
unfoldable pub source :
    {V : Type 0}
    → Text
    → List (SerialSourceConfig V)
    → Result ConfigurationError (SerialSourceConfig V)
source source_id [] = err (unknown_source source_id)
source source_id (candidate ∷ rest) =
    let later = source source_id rest in
    if candidate.source_id == source_id then ok candidate else later

-- the values of `SystemType`
unfoldable pub system_types : List (Text × SystemType)
system_types =
    (text "forced_air", forced_air)
    ∷ (text "hydronic", hydronic)
    ∷ (text "hybrid", hybrid)
    ∷ (text "unknown", unknown)
    ∷ []

-- the values of `EquipmentType`
unfoldable pub equipment_types : List (Text × EquipmentType)
equipment_types =
    (text "heat_pump", heat_pump)
    ∷ (text "thermostat", thermostat)
    ∷ (text "meter", meter)
    ∷ (text "controller", controller)
    ∷ (text "sensor_hub", sensor_hub)
    ∷ (text "unknown", unknown)
    ∷ []

-- the values of `MeasurementKind`
unfoldable pub measurement_kinds : List (Text × MeasurementKind)
measurement_kinds =
    (text "temperature", temperature)
    ∷ (text "power", power)
    ∷ (text "energy", energy)
    ∷ (text "flow", flow)
    ∷ (text "pressure", pressure)
    ∷ (text "humidity", humidity)
    ∷ (text "runtime", runtime)
    ∷ (text "mode", mode)
    ∷ (text "state", state)
    ∷ (text "unknown", unknown)
    ∷ []

-- the values of `SensorMeasurementKind`
unfoldable pub sensor_measurement_kinds : List (Text × SensorMeasurementKind)
sensor_measurement_kinds =
    (text "temperature", temperature)
    ∷ (text "relative_humidity", relative_humidity)
    ∷ (text "power", power)
    ∷ (text "state", state)
    ∷ []

-- the values of `ModbusRegisterKind`
unfoldable pub register_kinds : List (Text × RegisterKind)
register_kinds = (text "holding", holding) ∷ (text "input", input) ∷ []

-- the values of `ModbusBitKind`
unfoldable pub bit_kinds : List (Text × BitKind)
bit_kinds = (text "discrete_input", discrete_input) ∷ (text "coil", coil) ∷ []

-- the values of `RegisterDataType`
unfoldable pub register_data_types : List (Text × RegisterDataType)
register_data_types =
    (text "uint16", uint16)
    ∷ (text "int16", int16)
    ∷ (text "float32", float32)
    ∷ (text "float32_swapped", float32_swapped)
    ∷ []
