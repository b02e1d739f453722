-- ===== src/Configuration/Parse.antt =====
-- configuration.py: `parse_configuration`, section by section, with the checks of the references.
--
-- The time stamp of the assets is a parameter, as are `float` of an integer and a float of seconds as
-- microseconds. A path is its text. Of the ids that a serial and a 1-Wire source share, the error keeps none.
pub mod Reads
use geopilot_hvac.Prelude.{
  Bool, true, false, not, Option, none, some, List, [], ◌∷◌, ◌++◌, map, ℤ, pos, Text, text, ◌==◌,
  is_blank, Result, ok, err, map_err, if◌then◌else◌, eqb, length, ◌||◌,
}
use geopilot_hvac.Prelude.Results.{◌>>=◌, ◌>>◌, raise_if}
use geopilot_hvac.Prelude.Numbers.{Numbers}
use geopilot_hvac.Datetime.{Datetime}
use geopilot_hvac.Domain.Assets
use geopilot_hvac.Domain.Assets.{Residence, HvacSystem, Equipment, Sensor}
use geopilot_hvac.Historian.{is_member}
use geopilot_hvac.Control
use geopilot_hvac.Control.{ControlPolicy}
use geopilot_hvac.Configuration.{
  Value, Table, bool_value, table_value, ConfigurationError, get, require_table, require_array,
  require_text, optional_text, require_int, optional_int, optional_number, optional_bool,
  require_enum, optional_enum, require_unique, each, unsupported_version, no_system, control_table,
  unknown_system, unknown_equipment, unknown_source, unknown_sensor, shared_source, blank_residence,
  domain_error, control_error,
}
use geopilot_hvac.Configuration.Sections.{
  SerialSourceConfig, OneWireSourceConfig, OneWireReadConfig, BitReadConfig, RegisterReadConfig,
  ControlTargetConfig, InstallationConfig, system_types, equipment_types, measurement_kinds,
  sensor_measurement_kinds, register_kinds, bit_kinds, register_data_types,
}

-- `tuple(parse(entry) for entry in _require_array(document, key))` and the check of its ids
unfoldable pub array_of :
    {V A : Type 0}
    → Table V
    → Text
    → Text
    → (A → Text)
    → (Table V → Result ConfigurationError A)
    → Result ConfigurationError (List A)
array_of document key label id parse = do
  entries ← require_array document key
  items ← each parse entries
  require_unique label (map id items)
  ok items

-- `if item.source not in ids: raise`, for each item
unfoldable pub all_known :
    {A : Type 0}
    → (A → Text)
    → List Text
    → (Text → ConfigurationError)
    → List A
    → Result ConfigurationError (Unit {0})
all_known reference ids error [] = ok tt
all_known reference ids error (a ∷ rest) = do
  raise_if (not (is_member (reference a) ids)) (error (reference a))
  all_known reference ids error rest

-- the same, for items with two references
unfoldable pub both_known :
    {A : Type 0}
    → (A → Text)
    → List Text
    → (Text → ConfigurationError)
    → (A → Text)
    → List Text
    → (Text → ConfigurationError)
    → List A
    → Result ConfigurationError (Unit {0})
both_known first firsts error second seconds error' [] = ok tt
both_known first firsts error second seconds error' (a ∷ rest) = do
  raise_if (not (is_member (first a) firsts)) (error (first a))
  raise_if (not (is_member (second a) seconds)) (error' (second a))
  both_known first firsts error second seconds error' rest

-- whether two collections of ids have one in common
unfoldable pub shares : List Text → List Text → Bool
shares [] ids = false
shares (id ∷ rest) ids = is_member id ids || shares rest ids

module _ {V : Type 0} where
  abbrev pub serial_ids : List (SerialSourceConfig V) → List Text
  serial_ids sources = map (λ s. s.source_id) sources

  -- `_validate_control_references`
  unfoldable pub validate_control_references :
      List ControlTargetConfig → List (SerialSourceConfig V) → Result ConfigurationError (Unit {0})
  validate_control_references control_sources sources =
      all_known (λ c. c.source_id) (serial_ids sources) unknown_source control_sources

  -- `_validate_references`; `extra_source_ids` are those of the 1-Wire sources
  unfoldable pub validate_references :
      List HvacSystem
      → List Equipment
      → List Sensor
      → List (SerialSourceConfig V)
      → List (RegisterReadConfig V)
      → Residence
      → List Text
      → Result ConfigurationError (Unit {0})
  validate_references systems equipment sensors sources reads residence extra_source_ids = do
    raise_if (eqb (length systems) 0) no_system
    all_known (λ e. e.hvac_system_id) (map (λ s. s.id) systems) unknown_system equipment
    both_known (λ s. s.equipment_id) (map (λ e. e.id) equipment) unknown_equipment
        (λ s. s.source_id) (serial_ids sources ++ extra_source_ids) unknown_source sensors
    both_known (λ r. r.source_id) (serial_ids sources) unknown_source (λ r. r.sensor_id)
        (map (λ s. s.id) sensors) unknown_sensor reads
    raise_if (is_blank residence.id) blank_residence

  -- `_validate_onewire_references`
  unfoldable pub validate_onewire_references :
      List Sensor
      → List (SerialSourceConfig V)
      → List OneWireSourceConfig
      → List (OneWireReadConfig V)
      → Result ConfigurationError (Unit {0})
  validate_onewire_references sensors sources onewire_sources onewire_reads = do
    raise_if (shares (map (λ s. s.source_id) onewire_sources) (serial_ids sources)) shared_source
    both_known (λ r. r.source_id) (map (λ s. s.source_id) onewire_sources) unknown_source
        (λ r. r.sensor_id) (map (λ s. s.id) sensors) unknown_sensor onewire_reads

  -- `_validate_bit_references`
  unfoldable pub validate_bit_references :
      List Sensor
      → List (SerialSourceConfig V)
      → List BitReadConfig
      → Result ConfigurationError (Unit {0})
  validate_bit_references sensors sources bit_reads =
      both_known (λ r. r.source_id) (serial_ids sources) unknown_source (λ r. r.sensor_id)
        (map (λ s. s.id) sensors) unknown_sensor bit_reads

-- the residence of a configuration
unfoldable pub parse_residence :
    {V : Type 0} → Datetime → Table V → Result ConfigurationError Residence
parse_residence stamp table = do
  id ← require_text table (text "id")
  name ← require_text table (text "name")
  timezone ← require_text table (text "timezone")
  map_err domain_error
      (Assets.residence (record { id = id; name = name; timezone = timezone; created_at = stamp }))

-- an entry of `[[system]]`
unfoldable pub parse_system :
    {V : Type 0} → Datetime → Residence → Table V → Result ConfigurationError HvacSystem
parse_system stamp r entry = do
  id ← require_text entry (text "id")
  name ← require_text entry (text "name")
  system_type ← require_enum system_types entry (text "system_type")
  map_err domain_error (
      Assets.hvac_system (record {
        id = id;
        residence_id = r.id;
        name = name;
        system_type = system_type;
        created_at = stamp;
      }))

-- an entry of `[[equipment]]`
unfoldable pub parse_equipment :
    {V : Type 0} → Datetime → Table V → Result ConfigurationError Equipment
parse_equipment stamp entry = do
  id ← require_text entry (text "id")
  system_id ← require_text entry (text "system_id")
  name ← require_text entry (text "name")
  equipment_type ← require_enum equipment_types entry (text "equipment_type")
  map_err domain_error (
      Assets.equipment (record {
        id = id;
        hvac_system_id = system_id;
        name = name;
        equipment_type = equipment_type;
        created_at = stamp;
        manufacturer = none;
        model = none;
      }))

-- an entry of `[[sensor]]`
unfoldable pub parse_sensor : {V : Type 0} → Datetime → Table V → Result ConfigurationError Sensor
parse_sensor stamp entry = do
  id ← require_text entry (text "id")
  equipment_id ← require_text entry (text "equipment_id")
  name ← require_text entry (text "name")
  measurement_kind ← require_enum measurement_kinds entry (text "measurement_kind")
  unit ← require_text entry (text "unit")
  source_id ← require_text entry (text "source_id")
  sensor_kind ← optional_enum sensor_measurement_kinds entry (text "sensor_kind")
  map_err domain_error (
      Assets.sensor (record {
        id = id;
        equipment_id = equipment_id;
        name = name;
        measurement_kind = measurement_kind;
        unit = unit;
        source_id = source_id;
        created_at = stamp;
        sensor_kind = sensor_kind;
      }))
