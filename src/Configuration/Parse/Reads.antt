-- ===== src/Configuration/Parse/Reads.antt =====
-- configuration.py: the sources, the reads and the relays of a configuration, and the whole of it.
use geopilot_hvac.Prelude.{
  false, Option, none, some, List, [], map, ℤ, pos, text, Result, ok, err, map_err, ◌||◌,
}
use geopilot_hvac.Prelude.Results.{◌>>=◌, ◌>>◌, raise_if}
use geopilot_hvac.Prelude.Numbers.{Numbers}
use geopilot_hvac.Datetime.{Datetime}
use geopilot_hvac.Domain.Assets.{HvacSystem, Equipment, Sensor}
use geopilot_hvac.Control
use geopilot_hvac.Control.{ControlPolicy}
use geopilot_hvac.Configuration.{
  end, Table, table_value, ConfigurationError, get, require_table, require_text, optional_text,
  require_int, optional_int, optional_number, optional_bool, require_enum, unsupported_version,
  control_table, control_error,
}
use geopilot_hvac.Configuration.Sections.{
  SerialSourceConfig, OneWireSourceConfig, OneWireReadConfig, BitReadConfig, RegisterReadConfig,
  ControlTargetConfig, InstallationConfig, register_kinds, bit_kinds, register_data_types,
}
use geopilot_hvac.Configuration.Parse.{
  array_of, parse_residence, parse_system, parse_equipment, parse_sensor,
  validate_control_references, validate_references, validate_onewire_references,
  validate_bit_references,
}
use geopilot_hvac.Prelude.Int.{ltb_ℤ}

-- an entry of `[[onewire_source]]`
unfoldable pub parse_onewire_source :
    {V : Type 0} → Table V → Result ConfigurationError OneWireSourceConfig
parse_onewire_source entry = do
  id ← require_text entry (text "id")
  root ← optional_text entry (text "root") (text "/sys/bus/w1/devices")
  ok (record { source_id = id; root = root })

-- an entry of `[[bit_read]]`
unfoldable pub parse_bit_read : {V : Type 0} → Table V → Result ConfigurationError BitReadConfig
parse_bit_read entry = do
  id ← require_text entry (text "id")
  source_id ← require_text entry (text "source_id")
  sensor_id ← require_text entry (text "sensor_id")
  unit_id ← require_int entry (text "unit_id") (pos 0)
  bit_kind ← require_enum bit_kinds entry (text "bit")
  address ← require_int entry (text "address") (pos 0)
  inverted ← optional_bool entry (text "inverted") false
  source_reference ← require_text entry (text "source_reference")
  ok (record {
    read_id = id;
    source_id = source_id;
    sensor_id = sensor_id;
    unit_id = unit_id;
    bit_kind = bit_kind;
    address = address;
    inverted = inverted;
    source_reference = source_reference;
  })

-- `control_table or {}`, where it is a table
unfoldable pub control_section : {V : Type 0} → Table V → Result ConfigurationError (Table V)
control_section document = elim (get (text "control") document) [
  | none ↦ ok end
  | some (table_value t) ↦ ok t
  | some _ ↦ err control_table
]

-- `ControlPolicy(...)` of the optional `[control]` table
unfoldable pub parse_control :
    {V : Type 0} → Table V → List ControlTargetConfig → Result ConfigurationError ControlPolicy
parse_control document control_sources = do
  table ← control_section document
  enabled ← optional_bool table (text "enabled") false
  map_err control_error (Control.control_policy enabled (map (λ c. c.target) control_sources))

-- the checks of the references, on the sections that were read
unfoldable pub validated :
    {V : Type 0} → InstallationConfig V → Result ConfigurationError (InstallationConfig V)
validated c = do
  validate_control_references c.control_sources c.sources
  validate_references c.systems c.equipment c.sensors c.sources c.reads c.residence
      (map (λ s. s.source_id) c.onewire_sources)
  validate_onewire_references c.sensors c.sources c.onewire_sources c.onewire_reads
  validate_bit_references c.sensors c.sources c.bit_reads
  ok c

module _ {V : Type 0} (numbers : Numbers V) (to_float : ℤ → Option V) (microseconds : V → ℤ) where
  -- an entry of `[[source]]`
  unfoldable pub parse_source : Table V → Result ConfigurationError (SerialSourceConfig V)
  parse_source entry = do
    id ← require_text entry (text "id")
    port ← require_text entry (text "port")
    baudrate ← optional_int entry (text "baudrate") (pos 9600)
    parity ← optional_text entry (text "parity") (text "N")
    stopbits ← optional_number to_float entry (text "stopbits") (numbers.of_int (pos 1))
    bytesize ← optional_int entry (text "bytesize") (pos 8)
    timeout ← optional_number to_float entry (text "timeout") (numbers.of_int (pos 1))
    ok (record {
      source_id = id;
      port = port;
      baudrate = baudrate;
      parity = parity;
      stopbits = stopbits;
      bytesize = bytesize;
      timeout = timeout;
    })

  -- an entry of `[[read]]`
  unfoldable pub parse_read : Table V → Result ConfigurationError (RegisterReadConfig V)
  parse_read entry = do
    id ← require_text entry (text "id")
    source_id ← require_text entry (text "source_id")
    sensor_id ← require_text entry (text "sensor_id")
    unit_id ← require_int entry (text "unit_id") (pos 0)
    register_kind ← require_enum register_kinds entry (text "register")
    address ← require_int entry (text "address") (pos 0)
    quantity ← optional_int entry (text "quantity") (pos 1)
    data_type ← require_enum register_data_types entry (text "data_type")
    unit ← require_text entry (text "unit")
    scale ← optional_number to_float entry (text "scale") (numbers.of_int (pos 1))
    offset ← optional_number to_float entry (text "offset") (numbers.of_int (pos 0))
    source_reference ← require_text entry (text "source_reference")
    ok (record {
      read_id = id;
      source_id = source_id;
      sensor_id = sensor_id;
      unit_id = unit_id;
      register_kind = register_kind;
      address = address;
      quantity = quantity;
      data_type = data_type;
      unit = unit;
      scale = scale;
      offset = offset;
      source_reference = source_reference;
    })

  -- an entry of `[[onewire_read]]`
  unfoldable pub parse_onewire_read : Table V → Result ConfigurationError (OneWireReadConfig V)
  parse_onewire_read entry = do
    id ← require_text entry (text "id")
    source_id ← require_text entry (text "source_id")
    sensor_id ← require_text entry (text "sensor_id")
    device_id ← require_text entry (text "device_id")
    unit ← optional_text entry (text "unit") (text "degC")
    offset_celsius ← optional_number to_float entry (text "offset_celsius") (numbers.of_int (pos 0))
    source_reference ← require_text entry (text "source_reference")
    ok (record {
      read_id = id;
      source_id = source_id;
      sensor_id = sensor_id;
      device_id = device_id;
      unit = unit;
      offset_celsius = offset_celsius;
      source_reference = source_reference;
    })

  -- an entry of `[[control_target]]`
  unfoldable pub parse_control_target : Table V → Result ConfigurationError ControlTargetConfig
  parse_control_target entry = do
    id ← require_text entry (text "id")
    unit_id ← require_int entry (text "unit_id") (pos 0)
    address ← require_int entry (text "address") (pos 0)
    interval ←
        optional_number to_float entry (text "minimum_interval_seconds") (numbers.of_int (pos 300))
    description ← optional_text entry (text "description") []
    target ←
        map_err control_error
          (Control.control_target id unit_id address (microseconds interval) description)
    source_id ← require_text entry (text "source_id")
    ok (record { target = target; source_id = source_id })

  -- `parse_configuration`
  unfoldable pub parse_configuration :
      Datetime → Table V → Result ConfigurationError (InstallationConfig V)
  parse_configuration stamp document = do
    version ← require_int document (text "version") (pos 1)
    raise_if (ltb_ℤ version (pos 1) || ltb_ℤ (pos 1) version) (unsupported_version version)
    storage ← require_table document (text "storage")
    database ← require_text storage (text "database")
    residence_table ← require_table document (text "residence")
    residence ← parse_residence stamp residence_table
    systems ←
        array_of document (text "system") (text "system id") (λ (s : HvacSystem). s.id)
          (parse_system stamp residence)
    equipment ←
        array_of document (text "equipment") (text "equipment id") (λ (e : Equipment). e.id)
          (parse_equipment stamp)
    sensors ←
        array_of document (text "sensor") (text "sensor id") (λ (s : Sensor). s.id)
          (parse_sensor stamp)
    sources ←
        array_of document (text "source") (text "source id")
          (λ (s : SerialSourceConfig V). s.source_id) parse_source
    reads ←
        array_of document (text "read") (text "read id") (λ (r : RegisterReadConfig V). r.read_id)
          parse_read
    onewire_sources ←
        array_of document (text "onewire_source") (text "onewire source id")
          (λ (s : OneWireSourceConfig). s.source_id) parse_onewire_source
    onewire_reads ←
        array_of document (text "onewire_read") (text "onewire read id")
          (λ (r : OneWireReadConfig V). r.read_id) parse_onewire_read
    bit_reads ←
        array_of document (text "bit_read") (text "bit read id") (λ (r : BitReadConfig). r.read_id)
          parse_bit_read
    control_sources ←
        array_of document (text "control_target") (text "control target id")
          (λ (c : ControlTargetConfig). c.target.target_id) parse_control_target
    control ← parse_control document control_sources
    validated (record {
      version = version;
      database = database;
      residence = residence;
      systems = systems;
      equipment = equipment;
      sensors = sensors;
      sources = sources;
      reads = reads;
      onewire_sources = onewire_sources;
      onewire_reads = onewire_reads;
      bit_reads = bit_reads;
      control = control;
      control_sources = control_sources;
    })
