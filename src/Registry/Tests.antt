-- ===== src/Registry/Tests.antt =====
-- The registry on one house.
use geopilot_hvac.Prelude.{List, [], ◌∷◌, text}
use geopilot_hvac.Datetime.{utc}
use geopilot_hvac.Domain
use geopilot_hvac.Domain.Assets.{Residence, HvacSystem}
use geopilot_hvac.Registry.{empty_registry}
use geopilot_hvac.Registry.Integrity.{
  Addition, new_residence, new_system, IsSound, add_all, add_all-empty_registry,
}

abbrev house : Residence
house = record { id = text "home"; name = text "Home"; timezone = text "UTC"; created_at = utc 0 }

abbrev boiler_room : HvacSystem
boiler_room = record {
  id = text "hydronic";
  residence_id = text "home";
  name = text "Boiler room";
  system_type = Domain.hydronic;
  created_at = utc 0;
}

abbrev orphan : HvacSystem
orphan = record boiler_room { id = text "orphan"; residence_id = text "nowhere" }

-- An orphan and a second house of the same id are refused.
abbrev additions : List Addition
additions =
    new_system orphan ∷ new_residence house ∷ new_residence house ∷ new_system boiler_room ∷ []

add_all-empty_registry_example : IsSound (add_all additions empty_registry)
add_all-empty_registry_example = add_all-empty_registry additions
