-- ===== src/Provenance.antt =====
-- backend/src/geopilot/provenance.py: what each sensor's value is derived from, and what differs between two
-- configurations. The texts of a change, and the digest, are left out.
pub mod Complete
mod Tests
use geopilot_hvac.Prelude.{
  Bool, true, false, not, ◌||◌, Option, none, some, List, [], ◌∷◌, ◌++◌, map, ℤ, pos, Text, text,
  ◌==◌, Dict, lookup, insert, if◌then◌else◌,
}
use geopilot_hvac.Prelude.Decimal.{show_int}
use geopilot_hvac.Prelude.Numbers.{Numbers}
use geopilot_hvac.Prelude.Sort.{keep, sort, leb_text}
use geopilot_hvac.Historian.{is_member}
use geopilot_hvac.Ingestion.{state_unit}
use geopilot_hvac.Modbus.Boundary.{RegisterKind, holding, input, BitKind, discrete_input, coil}
use geopilot_hvac.Configuration.Sections.{
  InstallationConfig, OneWireReadConfig, RegisterReadConfig, BitReadConfig,
}

pub data ProvenanceKind : Type 0 where
  onewire register bit : ProvenanceKind

pub record SensorProvenance (V : Type 0) : Type 0 where
  pub sensor_id : Text
  pub kind : ProvenanceKind
  pub reference : Text
  pub unit : Text
  pub scale : V
  pub offset : V
  pub inverted : Bool

pub data Field : Type 0 where
  kind reference unit scale offset inverted : Field

-- `ProvenanceChange`: a sensor that is new, one that is gone, or a field of one that is different
pub data ProvenanceChange : Type 0 where
  added removed : Text → ProvenanceChange
  changed : Text → Field → ProvenanceChange

-- `str(kind)`
unfoldable pub kind_name : ProvenanceKind → Text
kind_name onewire = text "onewire"
kind_name register = text "register"
kind_name bit = text "bit"

-- `entry.kind != other.kind`, the other way round
unfoldable pub same_kind : ProvenanceKind → ProvenanceKind → Bool
same_kind k l = kind_name k == kind_name l

unfoldable pub register_kind_name : RegisterKind → Text
register_kind_name holding = text "holding"
register_kind_name input = text "input"

unfoldable pub bit_kind_name : BitKind → Text
bit_kind_name discrete_input = text "discrete_input"
bit_kind_name coil = text "coil"

-- `f"{unit_id}:{kind}:{address}"`
abbrev pub address_text : ℤ → Text → ℤ → Text
address_text unit_id name address =
    show_int unit_id ++ text ":" ++ name ++ text ":" ++ show_int address

-- the order of `(entry.sensor_id, str(entry.kind))`
unfoldable pub leb_entry : {V : Type 0} → SensorProvenance V → SensorProvenance V → Bool
leb_entry a b =
    if a.sensor_id == b.sensor_id
    then leb_text (kind_name a.kind) (kind_name b.kind)
    else leb_text a.sensor_id b.sensor_id

-- the dict by sensor of `compare`, where the last entry of a sensor counts
unfoldable pub by_sensor :
    {V : Type 0} → List (SensorProvenance V) → Dict (SensorProvenance V) → Dict (SensorProvenance V)
by_sensor [] d = d
by_sensor (e ∷ es) d = by_sensor es (insert e.sensor_id e d)

abbrev pub keys : {A : Type 0} → Dict A → List Text
keys d = map (λ row. row.0) d

-- `old.keys() | new.keys()`
unfoldable pub union_keys : {A : Type 0} → Dict A → Dict A → List Text
union_keys old new = keys old ++ keep (λ id. not (is_member id (keys old))) (keys new)

module _ {V : Type 0} (numbers : Numbers V) where
  -- `provenance_from`
  unfoldable pub provenance_from : InstallationConfig V → List (SensorProvenance V)
  provenance_from config = sort leb_entry (
      map
        (λ (p : OneWireReadConfig V). record {
          sensor_id = p.sensor_id;
          kind = onewire;
          reference = p.device_id;
          unit = p.unit;
          scale = numbers.of_int (pos 1);
          offset = p.offset_celsius;
          inverted = false;
        })
        config.onewire_reads
      ++ (map
            (λ (r : RegisterReadConfig V). record {
              sensor_id = r.sensor_id;
              kind = register;
              reference = address_text r.unit_id (register_kind_name r.register_kind) r.address;
              unit = r.unit;
              scale = r.scale;
              offset = r.offset;
              inverted = false;
            })
            config.reads
          ++ map
              (λ (b : BitReadConfig). record {
                sensor_id = b.sensor_id;
                kind = bit;
                reference = address_text b.unit_id (bit_kind_name b.bit_kind) b.address;
                unit = state_unit;
                scale = numbers.of_int (pos 1);
                offset = numbers.of_int (pos 0);
                inverted = b.inverted;
              })
              config.bit_reads))

  -- `was != now`, the other way round
  unfoldable pub same_field : Field → SensorProvenance V → SensorProvenance V → Bool
  same_field kind p q = same_kind p.kind q.kind
  same_field reference p q = p.reference == q.reference
  same_field unit p q = p.unit == q.unit
  same_field scale p q = numbers.same p.scale q.scale
  same_field offset p q = numbers.same p.offset q.offset
  same_field inverted p q = if p.inverted then q.inverted else not q.inverted

  -- the loop over `_COMPARED_FIELDS`
  unfoldable pub field_changes :
      Text → List Field → SensorProvenance V → SensorProvenance V → List ProvenanceChange
  field_changes id [] p q = []
  field_changes id (f ∷ fs) p q =
      if same_field f p q then field_changes id fs p q else changed id f ∷ field_changes id fs p q

  -- `_COMPARED_FIELDS`
  abbrev pub compared_fields : List Field
  compared_fields = kind ∷ reference ∷ unit ∷ scale ∷ offset ∷ inverted ∷ []

  -- a round of the loop of `compare`
  unfoldable pub sensor_changes :
      Text → Option (SensorProvenance V) → Option (SensorProvenance V) → List ProvenanceChange
  sensor_changes id none none = []
  sensor_changes id none (some current) = added id ∷ []
  sensor_changes id (some previous) none = removed id ∷ []
  sensor_changes id (some previous) (some current) =
      field_changes id compared_fields previous current

  -- the loop of `compare`
  unfoldable pub changes_for :
      Dict (SensorProvenance V) → Dict (SensorProvenance V) → List Text → List ProvenanceChange
  changes_for old new [] = []
  changes_for old new (id ∷ ids) =
      sensor_changes id (lookup id old) (lookup id new) ++ changes_for old new ids

  -- `compare`
  unfoldable pub compare :
      List (SensorProvenance V) → List (SensorProvenance V) → List ProvenanceChange
  compare before after =
      let old = by_sensor before [] in
      let new = by_sensor after [] in changes_for old new (sort leb_text (union_keys old new))
