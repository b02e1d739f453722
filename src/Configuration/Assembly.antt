-- ===== src/Configuration/Assembly.antt =====
-- backend/src/geopilot/runtime.py: what is built of a configuration before acquisition starts.
use geopilot_hvac.Prelude.{List, [], ◌∷◌, pos, Result, ok}
use geopilot_hvac.Prelude.Results.{◌>>=◌}
use geopilot_hvac.Prelude.Numbers.{Numbers}
use geopilot_hvac.Registry.{
  AssetRegistry, RegistryError, empty_registry, add_residence, add_hvac_system, add_equipment,
  add_sensor,
}
use geopilot_hvac.Modbus.Boundary.{
  BoundaryError, ReadRequest, BitReadRequest, read_request, bit_read_request,
}
use geopilot_hvac.Decoder.{DecoderError, RegisterDefinition, register_definition}
use geopilot_hvac.OneWire.{OneWireBoundaryError, SensorDefinition, sensor_definition}
use geopilot_hvac.Configuration.Sections.{
  InstallationConfig, RegisterReadConfig, BitReadConfig, OneWireReadConfig,
}
use geopilot_hvac.Prelude.{ℕ}

-- `for asset in assets: registry.add(asset)`
unfoldable pub add_each :
    {G A : Type 0} → (A → G → Result RegistryError G) → List A → G → Result RegistryError G
add_each add [] g = ok g
add_each add (a ∷ rest) g = do later ← add a g; add_each add rest later

-- `build_registry`
unfoldable pub build_registry :
    {V : Type 0} → InstallationConfig V → Result RegistryError AssetRegistry
build_registry config = do
  with_residence ← add_residence config.residence empty_registry
  with_systems ← add_each add_hvac_system config.systems with_residence
  with_equipment ← add_each add_equipment config.equipment with_systems
  add_each add_sensor config.sensors with_equipment

-- `build_bit_read_request`
unfoldable pub build_bit_read_request : BitReadConfig → Result BoundaryError BitReadRequest
build_bit_read_request read =
    bit_read_request read.read_id read.source_id read.unit_id read.bit_kind read.address (pos 1)

-- `build_read_request`
unfoldable pub build_read_request :
    {V : Type 0} → RegisterReadConfig V → Result BoundaryError ReadRequest
build_read_request read =
    read_request read.read_id read.source_id read.unit_id read.register_kind read.address
      read.quantity

-- `build_onewire_definition`
unfoldable pub build_onewire_definition :
    {V : Type 0} → OneWireReadConfig V → Result OneWireBoundaryError (SensorDefinition V)
build_onewire_definition read = sensor_definition (record {
  device_id = read.device_id;
  source_id = read.source_id;
  sensor_id = read.sensor_id;
  unit = read.unit;
  offset_celsius = read.offset_celsius;
  source_reference = read.source_reference;
})

-- `build_register_definition`
unfoldable pub build_register_definition :
    {V : Type 0}
    → Numbers V
    → (ℕ → ℕ → V)
    → RegisterReadConfig V
    → Result DecoderError (RegisterDefinition V)
build_register_definition numbers unpack_float read =
    register_definition numbers unpack_float (record {
      register_id = read.read_id;
      source_id = read.source_id;
      sensor_id = read.sensor_id;
      unit = read.unit;
      data_type = read.data_type;
      scale = read.scale;
      offset = read.offset;
      source_reference = read.source_reference;
    })
