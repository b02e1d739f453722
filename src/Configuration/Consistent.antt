-- ===== src/Configuration/Consistent.antt =====
-- configuration.py: a configuration that `parse_configuration` returns is consistent.
use mathlib.Core.Path.{◌≡◌, sym, subst}
use geopilot_hvac.Prelude.{
  List, Text, text, [], ◌++◌, false, map, Bool, Option, ℤ, pos, length, eqb, ◌||◌, ltb_ℤ,
}
use geopilot_hvac.Prelude.Results.{ok, then_elim, raise_if_elim, map_err_ok, ok_cancel}
use geopilot_hvac.Prelude.Numbers.{Numbers}
use geopilot_hvac.Datetime.{Datetime}
use geopilot_hvac.Domain.Assets.{Residence, HvacSystem, Equipment, Sensor}
use geopilot_hvac.Control
use geopilot_hvac.Control.{ControlPolicy}
use geopilot_hvac.Configuration.{
  Table, require_int, require_table, require_text, optional_bool, control_error,
}
use geopilot_hvac.Configuration.Sections.{
  SerialSourceConfig, OneWireSourceConfig, OneWireReadConfig, RegisterReadConfig,
  ControlTargetConfig, InstallationConfig,
}
use geopilot_hvac.Configuration.Parse.{
  shares, serial_ids, parse_residence, validate_control_references, validate_references,
  validate_onewire_references, validate_bit_references,
}
use geopilot_hvac.Configuration.Parse.Reads.{parse_configuration, parse_control}
use geopilot_hvac.Configuration.Accepted.{
  AllOf, IsDistinct, AreKnown, all_known_elim, both_known_elim, array_of_elim, distinct_elim,
  both_known_ok, parse_system_ok,
}
use geopilot_hvac.Configuration.Parse.Reads.{control_section}
use geopilot_hvac.Configuration.Parse.Reads.{validated}

-- No two entries of a section have the same id.
pub record AreDistinct {V : Type 0} (c : InstallationConfig V) : Type 0 where
  pub systems : IsDistinct (map (λ s. s.id) c.systems)
  pub equipment : IsDistinct (map (λ e. e.id) c.equipment)
  pub sensors : IsDistinct (map (λ s. s.id) c.sensors)
  pub sources : IsDistinct (serial_ids c.sources)
  pub reads : IsDistinct (map (λ r. r.read_id) c.reads)
  pub onewire_sources : IsDistinct (map (λ s. s.source_id) c.onewire_sources)
  pub onewire_reads : IsDistinct (map (λ r. r.read_id) c.onewire_reads)
  pub bit_reads : IsDistinct (map (λ r. r.read_id) c.bit_reads)
  pub targets : IsDistinct (map (λ t. t.target.target_id) c.control_sources)

-- Every reference to another section is to an entry that it has.
pub record AreLinked {V : Type 0} (c : InstallationConfig V) : Type 0 where
  pub equipment_system : AreKnown (λ e. e.hvac_system_id) (map (λ s. s.id) c.systems) c.equipment
  pub sensors_equipment : AreKnown (λ s. s.equipment_id) (map (λ e. e.id) c.equipment) c.sensors
  pub sensors_source :
      AreKnown
        (λ s. s.source_id)
        (serial_ids c.sources ++ map (λ s. s.source_id) c.onewire_sources)
        c.sensors
  pub reads_source : AreKnown (λ r. r.source_id) (serial_ids c.sources) c.reads
  pub reads_sensor : AreKnown (λ r. r.sensor_id) (map (λ s. s.id) c.sensors) c.reads
  pub onewire_source :
      AreKnown (λ r. r.source_id) (map (λ s. s.source_id) c.onewire_sources) c.onewire_reads
  pub onewire_sensor : AreKnown (λ r. r.sensor_id) (map (λ s. s.id) c.sensors) c.onewire_reads
  pub bits_source : AreKnown (λ r. r.source_id) (serial_ids c.sources) c.bit_reads
  pub bits_sensor : AreKnown (λ r. r.sensor_id) (map (λ s. s.id) c.sensors) c.bit_reads
  pub targets_source : AreKnown (λ t. t.source_id) (serial_ids c.sources) c.control_sources
  pub sources_apart :
      shares (map (λ s. s.source_id) c.onewire_sources) (serial_ids c.sources) ≡ false

pub record IsConsistent {V : Type 0} (c : InstallationConfig V) : Type 0 where
  pub distinct : AreDistinct c
  pub linked : AreLinked c
  pub systems_residence : AllOf (λ s. s.residence_id ≡ c.residence.id) c.systems
  pub targets_permitted : c.control.targets ≡ map (λ t. t.target) c.control_sources

control_policy_ok :
    (enabled : Bool) (targets : List Control.ControlTarget) (p : ControlPolicy)
    → Control.control_policy enabled targets ≡ ok p
    → targets ≡ p.targets
unfolding Control.control_policy
control_policy_ok enabled targets p h = then_elim (Control.check_unique [] targets) h λ _ _ h. cc h

module _ {V : Type 0} where
  parse_control_ok :
      (document : Table V) (targets : List ControlTargetConfig) (p : ControlPolicy)
      → parse_control document targets ≡ ok p
      → map (λ t. t.target) targets ≡ p.targets
  unfolding parse_control
  parse_control_ok document targets p h = then_elim (control_section document) h λ table _ h.
      then_elim (optional_bool table (text "enabled") false) h
        λ enabled _ h. control_policy_ok enabled _ p (map_err_ok control_error _ h)

  -- What `_validate_references` establishes, without the sources of sensors.
  validate_references_ok :
      (systems : List HvacSystem) (equipment : List Equipment) (sensors : List Sensor)
      (sources : List (SerialSourceConfig V)) (reads : List (RegisterReadConfig V))
      (residence : Residence) (extra : List Text)
      → validate_references systems equipment sensors sources reads residence extra ≡ ok tt
      → AreKnown (λ e. e.hvac_system_id) (map (λ s. s.id) systems) equipment
        × AreKnown (λ s. s.equipment_id) (map (λ e. e.id) equipment) sensors
        × AreKnown (λ s. s.source_id) (serial_ids sources ++ extra) sensors
        × AreKnown (λ r. r.source_id) (serial_ids sources) reads
        × AreKnown (λ r. r.sensor_id) (map (λ s. s.id) sensors) reads
  unfolding validate_references
  validate_references_ok systems equipment sensors sources reads residence extra h =
      raise_if_elim (eqb (length systems) 0) _ h λ _ h. all_known_elim _ _ _ equipment h λ a h.
        both_known_elim _ _ _ _ _ _ sensors h
          λ b c h. both_known_elim _ _ _ _ _ _ reads h λ d e h. (a, b, c, d, e)

  validate_onewire_references_ok :
      (sensors : List Sensor) (sources : List (SerialSourceConfig V))
      (buses : List OneWireSourceConfig) (reads : List (OneWireReadConfig V))
      → validate_onewire_references sensors sources buses reads ≡ ok tt
      → (shares (map (λ s. s.source_id) buses) (serial_ids sources) ≡ false)
        × AreKnown (λ r. r.source_id) (map (λ s. s.source_id) buses) reads
        × AreKnown (λ r. r.sensor_id) (map (λ s. s.id) sensors) reads
  unfolding validate_onewire_references
  validate_onewire_references_ok sensors sources buses reads h =
      raise_if_elim (shares (map (λ s. s.source_id) buses) (serial_ids sources)) _ h
        λ apart h. let (l, r) = both_known_ok _ _ _ _ _ _ reads h in (apart, l, r)

  validated_ok : (c c' : InstallationConfig V) → validated c ≡ ok c' → (c ≡ c') × AreLinked c
  unfolding validated validate_control_references validate_bit_references
  validated_ok c c' h = all_known_elim _ _ _ c.control_sources h λ relays h.
      then_elim
        (validate_references c.systems c.equipment c.sensors c.sources c.reads c.residence
          (map (λ s. s.source_id) c.onewire_sources))
        h
        λ _ known h.
          then_elim
            (validate_onewire_references c.sensors c.sources c.onewire_sources c.onewire_reads) h
            λ _ wires h. both_known_elim _ _ _ _ _ _ c.bit_reads h λ bit_source bit_sensor h.
              let (e, q, o, r, n) =
                validate_references_ok c.systems c.equipment c.sensors c.sources c.reads c.residence
                  _ known in
              let (apart, w1, w2) =
                validate_onewire_references_ok c.sensors c.sources c.onewire_sources c.onewire_reads
                  wires in
              (
                ok_cancel h,
                record {
                  equipment_system = e;
                  sensors_equipment = q;
                  sensors_source = o;
                  reads_source = r;
                  reads_sensor = n;
                  onewire_source = w1;
                  onewire_sensor = w2;
                  bits_source = bit_source;
                  bits_sensor = bit_sensor;
                  targets_source = relays;
                  sources_apart = apart;
                },
              )

  module _ (numbers : Numbers V) (to_float : ℤ → Option V) (microseconds : V → ℤ) where
    -- A configuration that parse_configuration returns is consistent: no section has an id twice;
    -- the systems belong to the residence; every equipment, sensor, read, probe, bit read and
    -- relay names a system, an equipment, a source or a sensor that the configuration has; no
    -- serial source shares its id with a 1-Wire source; and the relays that the policy permits are
    -- those of the control targets.
    pub parse_configuration-IsConsistent :
        (stamp : Datetime) (document : Table V) (c : InstallationConfig V)
        → parse_configuration numbers to_float microseconds stamp document ≡ ok c
        → IsConsistent c
    unfolding parse_configuration
    parse_configuration-IsConsistent stamp document c h =
        then_elim (require_int document (text "version") (pos 1)) h λ version _ h.
          raise_if_elim (ltb_ℤ version (pos 1) || ltb_ℤ (pos 1) version) _ h λ _ h.
            then_elim (require_table document (text "storage")) h λ storage _ h.
              then_elim (require_text storage (text "database")) h λ database _ h.
                then_elim (require_table document (text "residence")) h λ table _ h.
                  then_elim (parse_residence stamp table) h λ residence _ h.
                    array_of_elim (λ s. s.residence_id ≡ residence.id) _ _ _ _ _ h
                      (parse_system_ok stamp residence)
                      λ systems u1 belong h. distinct_elim _ _ _ _ _ h λ equipment u2 h.
                        distinct_elim _ _ _ _ _ h λ sensors u3 h.
                          distinct_elim _ _ _ _ _ h λ sources u4 h.
                            distinct_elim _ _ _ _ _ h λ reads u5 h.
                              distinct_elim _ _ _ _ _ h λ buses u6 h.
                                distinct_elim _ _ _ _ _ h λ onewire_reads u7 h.
                                  distinct_elim _ _ _ _ _ h λ bit_reads u8 h.
                                    distinct_elim _ _ _ _ _ h λ relays u9 h.
                                      then_elim (parse_control document relays) h
                                        λ control permitted h.
                                          let (at, linked) = validated_ok _ c h in
                                          subst IsConsistent at (record {
                                            distinct = record {
                                              systems = u1;
                                              equipment = u2;
                                              sensors = u3;
                                              sources = u4;
                                              reads = u5;
                                              onewire_sources = u6;
                                              onewire_reads = u7;
                                              bit_reads = u8;
                                              targets = u9;
                                            };
                                            linked = linked;
                                            systems_residence = belong;
                                            targets_permitted = sym (
                                                parse_control_ok document relays control permitted);
                                          })
