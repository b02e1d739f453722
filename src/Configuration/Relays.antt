-- ===== src/Configuration/Relays.antt =====
-- configuration.py: the bus of a relay is found where the relay is.
use mathlib.Core.Path.{◌≡◌, refl, sym, ◌∙◌}
use geopilot_hvac.Prelude.{List, [], ◌∷◌, map, some, Text, ok, Option, ◌==◌, eq_iff, true}
use geopilot_hvac.Prelude.Tests.{Bool-cases}
use geopilot_hvac.Historian.{is_member}
use geopilot_hvac.Control.{ControlTarget, find_target}
use geopilot_hvac.Configuration.{Table}
use geopilot_hvac.Configuration.Sections.{
  InstallationConfig, ControlTargetConfig, SerialSourceConfig, control_source, source,
}
use geopilot_hvac.Configuration.Parse.{serial_ids}
use geopilot_hvac.Configuration.Accepted.{AreKnown}
use geopilot_hvac.Configuration.Consistent.{parse_configuration-IsConsistent}
use geopilot_hvac.Configuration.Parse.Reads.{parse_configuration}
use geopilot_hvac.Datetime.{Datetime}
use geopilot_hvac.Prelude.Numbers.{Numbers}
use geopilot_hvac.Prelude.{ℤ}
use geopilot_hvac.Prelude.{inl}
use geopilot_hvac.Prelude.{inr}

-- A target of the list has a source, which is one of the known ones.
control_source-known :
    (id : Text) (relays : List ControlTargetConfig) (ids : List Text) (t : ControlTarget)
    → AreKnown (λ r. r.source_id) ids relays
    → find_target id (map (λ r. r.target) relays) ≡ some t
    → (bus : Text) × (control_source id relays ≡ ok bus) × (is_member bus ids ≡ true)
unfolding control_source find_target
control_source-known id [] ids t known h = cc h
control_source-known id (r ∷ relays) ids t (here, known) h =
    elim (Bool-cases (r.target.target_id == id)) [
      | inl same ↦ (r.source_id, rw same refl, here)
      | inr other ↦
          rw other
            (control_source-known id relays ids t known (sym (rw (other, find_target) refl) ∙ h))
    ]

module _ {V : Type 0} where
  -- An id of one of the sources finds a source that has it.
  source-known :
      (id : Text) (sources : List (SerialSourceConfig V))
      → is_member id (serial_ids sources) ≡ true
      → (s : SerialSourceConfig V) × (source id sources ≡ ok s) × (s.source_id ≡ id)
  unfolding source is_member
  source-known id [] h = cc h
  source-known id (s ∷ sources) h = elim (Bool-cases (s.source_id == id)) [
    | inl same ↦ (s, rw same refl, (eq_iff s.source_id id).0 same)
    | inr other ↦ rw other (source-known id sources (sym (rw (other, is_member) refl) ∙ h))
  ]

  module _ (numbers : Numbers V) (to_float : ℤ → Option V) (microseconds : V → ℤ) where
    -- In a configuration that parse_configuration returned, every relay that the control policy
    -- lists has a bus: control_source finds the id of its source, and source finds, under that id,
    -- a serial source that has it.
    pub source-permitted :
        (stamp : Datetime) (document : Table V) (c : InstallationConfig V) (id : Text)
        (t : ControlTarget)
        → parse_configuration numbers to_float microseconds stamp document ≡ ok c
        → find_target id c.control.targets ≡ some t
        → (bus : Text) × (s : SerialSourceConfig V) × (control_source id c.control_sources ≡ ok bus)
          × (source bus c.sources ≡ ok s)
          × (s.source_id ≡ bus)
    source-permitted stamp document c id t parsed found =
        let h =
          parse_configuration-IsConsistent numbers to_float microseconds stamp document c parsed in
        let (bus, at, known) =
          control_source-known id c.control_sources (serial_ids c.sources) t h.linked.targets_source
            (rw (sym h.targets_permitted) found) in
        let (s, same, named) = source-known bus c.sources known in (bus, s, at, same, named)
