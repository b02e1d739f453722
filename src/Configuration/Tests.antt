-- ===== src/Configuration/Tests.antt =====
-- Tests of the configuration: a house with one relay, and a document that names a missing bus.
use mathlib.Core.Path.{◌≡◌, refl}
use geopilot_hvac.Prelude.{
  List, [], ◌∷◌, none, some, Text, text, ℤ, pos, Result, ok, err, Option, true, false, map,
}
use geopilot_hvac.Datetime.{Datetime}
use geopilot_hvac.Domain.{hydronic, heat_pump, temperature}
use geopilot_hvac.Control.{ControlTarget}
use geopilot_hvac.Control
use geopilot_hvac.Configuration
use geopilot_hvac.Configuration.Parse
use geopilot_hvac.Configuration.Parse.Reads
use geopilot_hvac.Domain
use geopilot_hvac.Domain.Assets
use geopilot_hvac.Historian
use geopilot_hvac.Prelude
use geopilot_hvac.Prelude.Strings
use geopilot_hvac.Ingestion.Tests.{whole_numbers}
use geopilot_hvac.Datetime.{utc}
use geopilot_hvac.Configuration.{
  Value, Items, Table, nil, cons, end, slot, text_value, int_value, bool_value, array_value,
  table_value, ConfigurationError, unknown_source,
}
use geopilot_hvac.Configuration.Sections
use geopilot_hvac.Configuration.Sections.{InstallationConfig, control_source, source}
use geopilot_hvac.Configuration.Parse.Reads.{parse_configuration}
use geopilot_hvac.Configuration.Consistent.{IsConsistent, parse_configuration-IsConsistent}
use geopilot_hvac.Configuration.Assembly.{build_registry}
use geopilot_hvac.Configuration.Registration.{registered, build_registry-parsed}
use geopilot_hvac.Configuration.Relays.{source-permitted}

abbrev test_time : Datetime
test_time = utc 0

abbrev named : Text → Text → Table ℤ → Table ℤ
named key value rest = slot key (text_value value) rest

abbrev one : Table ℤ → Value ℤ
one t = array_value (cons (table_value t) nil)

abbrev pump_id : Text
pump_id = text "p"

-- a document whose relay is on a given bus
abbrev document : Text → Table ℤ
document bus = slot (text "version") (int_value (pos 1)) (
    slot (text "storage") (table_value (named (text "database") (text "d") end)) (
      slot (text "residence")
        (table_value (
          named (text "id") (text "h")
            (named (text "name") (text "h") (named (text "timezone") (text "UTC") end))))
        (slot (text "system")
          (one (
            named (text "id") (text "s")
              (named (text "name") (text "s") (named (text "system_type") (text "hydronic") end))))
          (slot (text "equipment")
            (one (
              named (text "id") (text "e") (
                named (text "system_id") (text "s") (
                  named (text "name") (text "e")
                    (named (text "equipment_type") (text "heat_pump") end)))))
            (slot (text "sensor")
              (one (
                named (text "id") (text "t") (
                  named (text "equipment_id") (text "e") (
                    named (text "name") (text "t") (
                      named (text "measurement_kind") (text "temperature") (
                        named (text "unit") (text "degC")
                          (named (text "source_id") (text "b") end)))))))
              (slot (text "source")
                (one (named (text "id") (text "b") (named (text "port") (text "/dev/b") end)))
                (slot (text "control_target")
                  (one (
                    named (text "id") pump_id (
                      slot (text "unit_id") (int_value (pos 1)) (
                        slot (text "address") (int_value (pos 2))
                          (named (text "source_id") bus end)))))
                  (slot (text "control") (table_value (slot (text "enabled") (bool_value true) end))
                    end))))))))

abbrev parsed : Text → Result ConfigurationError (InstallationConfig ℤ)
parsed bus = parse_configuration whole_numbers (λ n. some n) (λ v. v) test_time (document bus)

abbrev pump : ControlTarget
pump = record {
  target_id = pump_id;
  unit_id = 1;
  address = 2;
  minimum_interval = 300;
  description = [];
}

abbrev house : InstallationConfig ℤ
house = record {
  version = pos 1;
  database = text "d";
  residence = record {
    id = text "h";
    name = text "h";
    timezone = text "UTC";
    created_at = test_time;
  };
  systems =
      record {
        id = text "s";
        residence_id = text "h";
        name = text "s";
        system_type = hydronic;
        created_at = test_time;
      }
      ∷ [];
  equipment =
      record {
        id = text "e";
        hvac_system_id = text "s";
        name = text "e";
        equipment_type = heat_pump;
        created_at = test_time;
        manufacturer = none;
        model = none;
      }
      ∷ [];
  sensors =
      record {
        id = text "t";
        equipment_id = text "e";
        name = text "t";
        measurement_kind = temperature;
        unit = text "degC";
        source_id = text "b";
        created_at = test_time;
        sensor_kind = some temperature;
      }
      ∷ [];
  sources =
      record {
        source_id = text "b";
        port = text "/dev/b";
        baudrate = pos 9600;
        parity = text "N";
        stopbits = pos 1;
        bytesize = pos 8;
        timeout = pos 1;
      }
      ∷ [];
  reads = [];
  onewire_sources = [];
  onewire_reads = [];
  bit_reads = [];
  control = record { enabled = true; targets = pump ∷ [] };
  control_sources = record { target = pump; source_id = text "b" } ∷ [];
}

house_accepted : parsed (text "b") ≡ ok house
unfolding parse_configuration Configuration.require_int Configuration.get Prelude.◌==◌
    Configuration.require_table Configuration.require_text Prelude.is_blank Parse.parse_residence
    Assets.residence Parse.array_of Configuration.require_array Configuration.tables_of
    Configuration.each Parse.parse_system Configuration.require_enum Configuration.member_of
    Sections.system_types Reads.control_section Reads.parse_bit_read Reads.parse_control
    Reads.parse_control_target Reads.parse_onewire_read Reads.parse_onewire_source Reads.parse_read
    Reads.parse_source Reads.validated Parse.all_known Parse.both_known Parse.parse_equipment
    Parse.parse_sensor Parse.shares Parse.validate_bit_references Parse.validate_control_references
    Parse.validate_onewire_references Parse.validate_references Sections.bit_kinds
    Sections.equipment_types Sections.measurement_kinds Sections.register_data_types
    Sections.register_kinds Sections.sensor_measurement_kinds Configuration.optional_bool
    Configuration.optional_enum Configuration.optional_int Configuration.optional_number
    Configuration.optional_text Configuration.unique_from Control.check_unique
    Control.control_policy Control.control_target Control.is_seen Assets.equipment
    Assets.hvac_system Assets.sensor Domain.sensor_kind_from_measurement_kind Historian.is_member
    Strings.is_space
house_accepted = refl

-- The relay's bus is not there.
missing_bus_refused : parsed (text "x") ≡ err (unknown_source (text "x"))
unfolding parse_configuration Configuration.require_int Configuration.get Prelude.◌==◌
    Configuration.require_table Configuration.require_text Prelude.is_blank Parse.parse_residence
    Assets.residence Parse.array_of Configuration.require_array Configuration.tables_of
    Configuration.each Parse.parse_system Configuration.require_enum Configuration.member_of
    Sections.system_types Reads.control_section Reads.parse_bit_read Reads.parse_control
    Reads.parse_control_target Reads.parse_onewire_read Reads.parse_onewire_source Reads.parse_read
    Reads.parse_source Reads.validated Parse.all_known Parse.both_known Parse.parse_equipment
    Parse.parse_sensor Parse.shares Parse.validate_bit_references Parse.validate_control_references
    Parse.validate_onewire_references Parse.validate_references Sections.bit_kinds
    Sections.equipment_types Sections.measurement_kinds Sections.register_data_types
    Sections.register_kinds Sections.sensor_measurement_kinds Configuration.optional_bool
    Configuration.optional_enum Configuration.optional_int Configuration.optional_number
    Configuration.optional_text Configuration.unique_from Control.check_unique
    Control.control_policy Control.control_target Control.is_seen Assets.equipment
    Assets.hvac_system Assets.sensor Domain.sensor_kind_from_measurement_kind Historian.is_member
    Strings.is_space
missing_bus_refused = refl

parse_configuration-IsConsistent_example : IsConsistent house
parse_configuration-IsConsistent_example =
    parse_configuration-IsConsistent whole_numbers (λ n. some n) (λ v. v) test_time
      (document (text "b")) house house_accepted

build_registry-parsed_example : build_registry house ≡ ok (registered house)
build_registry-parsed_example =
    build_registry-parsed whole_numbers (λ n. some n) (λ v. v) test_time (document (text "b")) house
      house_accepted

pump_found : Control.find_target pump_id house.control.targets ≡ some pump
unfolding Control.find_target Prelude.◌==◌
pump_found = refl

source-permitted_example :
    (bus : Text) × (s : Sections.SerialSourceConfig ℤ) × (control_source pump_id
        house.control_sources
      ≡ ok bus)
    × (source bus house.sources ≡ ok s)
    × (s.source_id ≡ bus)
source-permitted_example =
    source-permitted whole_numbers (λ n. some n) (λ v. v) test_time (document (text "b")) house
      pump_id pump house_accepted pump_found
