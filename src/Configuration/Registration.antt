-- ===== src/Configuration/Registration.antt =====
-- runtime.py: the registry of a consistent configuration is built without an error.
use mathlib.Core.Path.{◌≡◌, refl, ◌∙◌, ap}
use geopilot_hvac.Prelude.{[], ◌∷◌, eq_refl, lookup, insert, ok, Option, ℤ}
use geopilot_hvac.Prelude.Results.{◌>>=◌}
use geopilot_hvac.Prelude.Numbers.{Numbers}
use geopilot_hvac.Datetime.{Datetime}
use geopilot_hvac.Registry.{
  AssetRegistry, add_residence, add_hvac_system, add_equipment, add_sensor, reject_duplicate,
}
use geopilot_hvac.Configuration.{Table}
use geopilot_hvac.Configuration.Sections.{InstallationConfig}
use geopilot_hvac.Configuration.Parse.Reads.{parse_configuration}
use geopilot_hvac.Configuration.Consistent.{IsConsistent, parse_configuration-IsConsistent}
use geopilot_hvac.Configuration.Assembly.{add_each, build_registry}
use geopilot_hvac.Configuration.Registered.{
  keyed, AreNew-empty, AllOf-map, add_each-new, checks_pass, AreKnown-found,
}

module _ {V : Type 0} (c : InstallationConfig V) where
  -- the registry with the residence, and all the assets of the configuration under their ids
  abbrev pub registered : AssetRegistry
  registered = record {
    residences = (c.residence.id, c.residence) ∷ [];
    hvac_systems = keyed (λ s. s.id) c.systems;
    equipment = keyed (λ e. e.id) c.equipment;
    sensors = keyed (λ s. s.id) c.sensors;
  }

  -- the registry after the residence, after the systems and after the equipment
  abbrev with_residence : AssetRegistry
  with_residence = record registered { hvac_systems = []; equipment = []; sensors = [] }

  abbrev with_systems : AssetRegistry
  with_systems = record registered { equipment = []; sensors = [] }

  abbrev with_equipment : AssetRegistry
  with_equipment = record registered { sensors = [] }

  module _ (h : IsConsistent c) where
    systems_added : add_each add_hvac_system c.systems with_residence ≡ ok with_systems
    unfolding add_hvac_system lookup
    systems_added =
        add_each-new (λ s. s.id) (λ s. s.residence_id) (λ g. g.hvac_systems) (λ g. g.residences)
          (λ d g. record g { hvac_systems = d }) add_hvac_system
          (λ s g p fresh at.
            checks_pass s.id s.residence_id g.hvac_systems g.residences _ p fresh at)
          (λ d g. refl) (λ d g. refl) (λ d e g. refl) (λ g. refl) c.systems with_residence
          h.distinct.systems (AreNew-empty (λ s. s.id) c.systems)
          (AllOf-map (λ s at. (c.residence, rw (at, eq_refl) refl)) c.systems h.systems_residence)

    equipment_added : add_each add_equipment c.equipment with_systems ≡ ok with_equipment
    unfolding add_equipment
    equipment_added =
        add_each-new (λ e. e.id) (λ e. e.hvac_system_id) (λ g. g.equipment) (λ g. g.hvac_systems)
          (λ d g. record g { equipment = d }) add_equipment
          (λ e g p fresh at.
            checks_pass e.id e.hvac_system_id g.equipment g.hvac_systems _ p fresh at)
          (λ d g. refl) (λ d g. refl) (λ d e g. refl) (λ g. refl) c.equipment with_systems
          h.distinct.equipment (AreNew-empty (λ e. e.id) c.equipment)
          (AreKnown-found (λ s. s.id) (λ e. e.hvac_system_id) c.systems c.equipment
            h.linked.equipment_system)

    sensors_added : add_each add_sensor c.sensors with_equipment ≡ ok registered
    unfolding add_sensor
    sensors_added =
        add_each-new (λ s. s.id) (λ s. s.equipment_id) (λ g. g.sensors) (λ g. g.equipment)
          (λ d g. record g { sensors = d }) add_sensor
          (λ s g p fresh at. checks_pass s.id s.equipment_id g.sensors g.equipment _ p fresh at)
          (λ d g. refl) (λ d g. refl) (λ d e g. refl) (λ g. refl) c.sensors with_equipment
          h.distinct.sensors (AreNew-empty (λ s. s.id) c.sensors)
          (AreKnown-found (λ e. e.id) (λ s. s.equipment_id) c.equipment c.sensors
            h.linked.sensors_equipment)

    build_registry-IsConsistent : build_registry c ≡ ok registered
    unfolding build_registry add_residence reject_duplicate lookup insert
    build_registry-IsConsistent =
        ap
          (λ r. r >>= (λ g. add_each add_equipment c.equipment g >>= add_each add_sensor c.sensors))
          systems_added
        ∙ ap (λ r. r >>= add_each add_sensor c.sensors) equipment_added
        ∙ sensors_added

module _ {V : Type 0} (numbers : Numbers V) (to_float : ℤ → Option V) (microseconds : V → ℤ) where
  -- For a configuration that parse_configuration returned, build_registry does not raise: the
  -- registry that it returns has the residence, and all systems, equipment and sensors of the
  -- configuration, each under its id.
  pub build_registry-parsed :
      (stamp : Datetime) (document : Table V) (c : InstallationConfig V)
      → parse_configuration numbers to_float microseconds stamp document ≡ ok c
      → build_registry c ≡ ok (registered c)
  build_registry-parsed stamp document c h =
      build_registry-IsConsistent c
        (parse_configuration-IsConsistent numbers to_float microseconds stamp document c h)
