-- ===== src/Registry/Integrity.antt =====
-- The registry keeps every asset under its id, below a parent that it has.
use geopilot_hvac.Prelude.{
  [], ◌==◌, eq_iff, sym, ◌∙◌, ◌≡◌, some, Text, Dict, lookup, insert, Result, ok, err,
}
use geopilot_hvac.Domain.Assets.{Residence, HvacSystem, Equipment, Sensor}
use geopilot_hvac.Registry.{
  AssetRegistry, empty_registry, add_residence, add_hvac_system, add_equipment, add_sensor,
}
use geopilot_hvac.Registry.{reject_duplicate}
use geopilot_hvac.Registry.{RegistryError}
use geopilot_hvac.Prelude.Dicts.{lookup-insert}
use geopilot_hvac.Prelude.{List}
use geopilot_hvac.Registry.{require_parent}
use geopilot_hvac.Prelude.Tests.{Bool-cases}
use geopilot_hvac.Prelude.{◌∷◌}
use geopilot_hvac.Prelude.Tests.{Option-cases}
use geopilot_hvac.Prelude.{inr}
use geopilot_hvac.Prelude.{inl}

-- Each asset stands under its own id, and its parent is one of `parents`.
abbrev pub IsLinked : {A P : Type 0} → (A → Text) → (A → Text) → Dict A → Dict P → Type 0
IsLinked {A} {P} id parent assets parents =
    (k : Text) (a : A)
    → lookup k assets ≡ some a
    → (id a ≡ k) × ((p : P) × (lookup (parent a) parents ≡ some p))

pub record IsSound (g : AssetRegistry) : Type 0 where
  pub systems :
      IsLinked (λ (s : HvacSystem). s.id) (λ s. s.residence_id) g.hvac_systems g.residences
  pub equipment :
      IsLinked (λ (e : Equipment). e.id) (λ e. e.hvac_system_id) g.equipment g.hvac_systems
  pub sensors : IsLinked (λ (s : Sensor). s.id) (λ s. s.equipment_id) g.sensors g.equipment

module _ {A P : Type 0} (id parent : A → Text) where
  -- A new asset below a known parent.
  IsLinked-insert :
      (a : A) (p : P) (assets : Dict A) (parents : Dict P)
      → IsLinked id parent assets parents
      → lookup (parent a) parents ≡ some p
      → IsLinked id parent (insert (id a) a assets) parents
  IsLinked-insert a p assets parents linked known k b found =
      let at = lookup-insert (id a) k a assets in
      elim (Bool-cases (id a == k)) [
        | inl same ↦
            let e : some a ≡ some b = sym (rw same at at) ∙ found in
            let named = (eq_iff (id a) k).0 same in (cc (e, named), (p, cc (e, known)))
        | inr other ↦ linked k b (sym (rw other at at) ∙ found)
      ]

  -- A new parent leaves the others in place.
  IsLinked-grow :
      (q : Text) (p : P) (assets : Dict A) (parents : Dict P)
      → IsLinked id parent assets parents
      → IsLinked id parent assets (insert q p parents)
  IsLinked-grow q p assets parents linked k a found =
      let (named, (p', known)) = linked k a found in
      let at = lookup-insert q (parent a) p parents in
      elim (Bool-cases (q == parent a)) [
        | inl same ↦ (named, (p, rw same at at))
        | inr other ↦ (named, (p', rw other at at ∙ known))
      ]

-- A call of one of the four methods.
pub data Addition : Type 0 where
  new_residence : Residence → Addition
  new_system : HvacSystem → Addition
  new_equipment : Equipment → Addition
  new_sensor : Sensor → Addition

abbrev pub add : Addition → AssetRegistry → Result RegistryError AssetRegistry
add (new_residence r) g = add_residence r g
add (new_system s) g = add_hvac_system s g
add (new_equipment e) g = add_equipment e g
add (new_sensor s) g = add_sensor s g

-- what the registry holds after the call: an error leaves it as it was
abbrev pub after : AssetRegistry → Result RegistryError AssetRegistry → AssetRegistry
after g (ok g') = g'
after g (err _) = g

abbrev pub add_all : List Addition → AssetRegistry → AssetRegistry
add_all [] g = g
add_all (x ∷ xs) g = add_all xs (after g (add x g))

add-IsSound : (x : Addition) (g : AssetRegistry) → IsSound g → IsSound (after g (add x g))
unfolding add_residence add_hvac_system add_equipment add_sensor reject_duplicate require_parent
add-IsSound (new_residence r) g h = elim (Option-cases (lookup r.id g.residences)) [
  | inr (_, taken) ↦ rw (taken, after) h
  | inl fresh ↦
      rw (fresh, after)
        (record {
          systems = IsLinked-grow _ _ r.id r g.hvac_systems g.residences h.systems;
          equipment = h.equipment;
          sensors = h.sensors;
        })
]
add-IsSound (new_system s) g h = elim (Option-cases (lookup s.id g.hvac_systems)) [
  | inr (_, taken) ↦ rw (taken, after) h
  | inl fresh ↦ elim (Option-cases (lookup s.residence_id g.residences)) [
    | inl orphan ↦ rw (fresh, orphan, after) h
    | inr (p, known) ↦
        rw (fresh, known, after)
          (record {
            systems = IsLinked-insert _ _ s p g.hvac_systems g.residences h.systems known;
            equipment = IsLinked-grow _ _ s.id s g.equipment g.hvac_systems h.equipment;
            sensors = h.sensors;
          })
  ]
]
add-IsSound (new_equipment e) g h = elim (Option-cases (lookup e.id g.equipment)) [
  | inr (_, taken) ↦ rw (taken, after) h
  | inl fresh ↦ elim (Option-cases (lookup e.hvac_system_id g.hvac_systems)) [
    | inl orphan ↦ rw (fresh, orphan, after) h
    | inr (p, known) ↦
        rw (fresh, known, after)
          (record {
            systems = h.systems;
            equipment = IsLinked-insert _ _ e p g.equipment g.hvac_systems h.equipment known;
            sensors = IsLinked-grow _ _ e.id e g.sensors g.equipment h.sensors;
          })
  ]
]
add-IsSound (new_sensor s) g h = elim (Option-cases (lookup s.id g.sensors)) [
  | inr (_, taken) ↦ rw (taken, after) h
  | inl fresh ↦ elim (Option-cases (lookup s.equipment_id g.equipment)) [
    | inl orphan ↦ rw (fresh, orphan, after) h
    | inr (p, known) ↦
        rw (fresh, known, after)
          (record {
            systems = h.systems;
            equipment = h.equipment;
            sensors = IsLinked-insert _ _ s p g.sensors g.equipment h.sensors known;
          })
  ]
]

-- x
pub add_all-IsSound : (xs : List Addition) (g : AssetRegistry) → IsSound g → IsSound (add_all xs g)
add_all-IsSound [] g h = h
add_all-IsSound (x ∷ xs) g h = add_all-IsSound xs _ (add-IsSound x g h)

empty_registry-IsSound : IsSound empty_registry
unfolding lookup
empty_registry-IsSound = record {
  systems = λ k a. λ h. cc h;
  equipment = λ k a h. cc h;
  sensors = λ k a h. cc h;
}

-- After any additions to an empty registry, those that were refused included, every system,
-- equipment and sensor stands under its own id, and the residence, system or equipment that it
-- names is registered.
pub add_all-empty_registry : (xs : List Addition) → IsSound (add_all xs empty_registry)
add_all-empty_registry xs = add_all-IsSound xs empty_registry empty_registry-IsSound
