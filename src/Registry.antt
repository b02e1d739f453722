-- ===== src/Registry.antt =====
-- `InMemoryAssetRegistry` of backend/src/geopilot/registry.py: four dicts, keyed by id.
pub mod Integrity
pub mod Tests
use geopilot_hvac.Prelude.{
  Bool, Option, none, some, List, Text, ◌==◌, Result, ok, err, Dict, values, lookup, insert,
}
use geopilot_hvac.Prelude.Results.{◌>>=◌, ◌>>◌}
use geopilot_hvac.Prelude.Sort.{keep, sort, leb_text}
use geopilot_hvac.Domain.Assets.{Residence, HvacSystem, Equipment, Sensor}
use geopilot_hvac.Prelude.{[]}

-- `DuplicateAssetError`, `AssetNotFoundError` and `InvalidAssetRelationshipError`, with the id
pub data RegistryError : Type 0 where
  duplicate_asset asset_not_found invalid_relationship : Text → RegistryError

pub record AssetRegistry : Type 0 where
  pub residences : Dict Residence
  pub hvac_systems : Dict HvacSystem
  pub equipment : Dict Equipment
  pub sensors : Dict Sensor

-- `InMemoryAssetRegistry()`
abbrev pub empty_registry : AssetRegistry
empty_registry = record { residences = []; hvac_systems = []; equipment = []; sensors = [] }

-- `assets[id]`, with the `KeyError` turned into `AssetNotFoundError`
unfoldable pub get_asset : {A : Type 0} → Text → Dict A → Result RegistryError A
get_asset id assets = elim (lookup id assets) [
  | none ↦ err (asset_not_found id)
  | some asset ↦ ok asset
]

-- `_reject_duplicate`
unfoldable pub reject_duplicate : {A : Type 0} → Text → Dict A → Result RegistryError (Unit {0})
reject_duplicate id assets = elim (lookup id assets) [
  | none ↦ ok tt
  | some _ ↦ err (duplicate_asset id)
]

-- `if parent_id not in parents: raise InvalidAssetRelationshipError`
unfoldable pub require_parent :
    {A : Type 0} → Text → Text → Dict A → Result RegistryError (Unit {0})
require_parent id parent_id parents = elim (lookup parent_id parents) [
  | none ↦ err (invalid_relationship id)
  | some _ ↦ ok tt
]

-- `add_residence`
unfoldable pub add_residence : Residence → AssetRegistry → Result RegistryError AssetRegistry
add_residence r g = do
  reject_duplicate r.id g.residences
  ok (record g { residences = insert r.id r g.residences })

-- `add_hvac_system`
unfoldable pub add_hvac_system : HvacSystem → AssetRegistry → Result RegistryError AssetRegistry
add_hvac_system s g = do
  reject_duplicate s.id g.hvac_systems
  require_parent s.id s.residence_id g.residences
  ok (record g { hvac_systems = insert s.id s g.hvac_systems })

-- `add_equipment`
unfoldable pub add_equipment : Equipment → AssetRegistry → Result RegistryError AssetRegistry
add_equipment e g = do
  reject_duplicate e.id g.equipment
  require_parent e.id e.hvac_system_id g.hvac_systems
  ok (record g { equipment = insert e.id e g.equipment })

-- `add_sensor`
unfoldable pub add_sensor : Sensor → AssetRegistry → Result RegistryError AssetRegistry
add_sensor s g = do
  reject_duplicate s.id g.sensors
  require_parent s.id s.equipment_id g.equipment
  ok (record g { sensors = insert s.id s g.sensors })

-- `list_equipment_for_system`
unfoldable pub list_equipment_for_system :
    Text → AssetRegistry → Result RegistryError (List Equipment)
list_equipment_for_system system_id g = do
  _ ← get_asset system_id g.hvac_systems
  ok (
      sort (λ e f. leb_text e.id f.id)
        (keep (λ e. e.hvac_system_id == system_id) (values g.equipment)))

-- `list_sensors_for_equipment`
unfoldable pub list_sensors_for_equipment :
    Text → AssetRegistry → Result RegistryError (List Sensor)
list_sensors_for_equipment equipment_id g = do
  _ ← get_asset equipment_id g.equipment
  ok (
      sort (λ s t. leb_text s.id t.id)
        (keep (λ s. s.equipment_id == equipment_id) (values g.sensors)))
