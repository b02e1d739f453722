-- ===== src/Provenance/Tests.antt =====
-- Two probes in either order, and one whose offset was changed.
use geopilot_hvac.Prelude.{
  ◌≡◌, refl, some, false, List, [], ◌∷◌, ℤ, pos, Text, text, lookup, insert, ◌==◌,
}
use geopilot_hvac.Prelude.Sort
use geopilot_hvac.Historian
use geopilot_hvac.Ingestion.Tests.{whole_numbers}
use geopilot_hvac.Provenance
use geopilot_hvac.Provenance.{
  SensorProvenance, onewire, offset, changed, ProvenanceChange, compare, by_sensor,
}
use geopilot_hvac.Provenance.Complete.{AreAlike, compare_complete}

abbrev probe : Text → ℤ → SensorProvenance ℤ
probe id correction = record {
  sensor_id = id;
  kind = onewire;
  reference = text "28";
  unit = text "degC";
  scale = pos 1;
  offset = correction;
  inverted = false;
}

abbrev loops : List (SensorProvenance ℤ)
loops = probe (text "s") (pos 1) ∷ probe (text "r") (pos 2) ∷ []

abbrev swapped : List (SensorProvenance ℤ)
swapped = probe (text "r") (pos 2) ∷ probe (text "s") (pos 1) ∷ []

order_ignored : compare whole_numbers loops swapped ≡ []
unfolding Provenance.compare Provenance.by_sensor Provenance.changes_for Provenance.sensor_changes
    Provenance.field_changes Provenance.same_field Provenance.same_kind Provenance.kind_name
    Provenance.union_keys lookup insert ◌==◌ Sort.keep Sort.sort Sort.insert_sorted Sort.leb_text
    Historian.is_member
order_ignored = refl

correction_found :
    compare whole_numbers loops (probe (text "r") (pos 3) ∷ probe (text "s") (pos 1) ∷ [])
    ≡ changed (text "r") offset ∷ []
unfolding Provenance.compare Provenance.by_sensor Provenance.changes_for Provenance.sensor_changes
    Provenance.field_changes Provenance.same_field Provenance.same_kind Provenance.kind_name
    Provenance.union_keys lookup insert ◌==◌ Sort.keep Sort.sort Sort.insert_sorted Sort.leb_text
    Historian.is_member
correction_found = refl

-- The configuration names a sensor twice, and the other one differs in the first entry only.
abbrev twice : ℤ → List (SensorProvenance ℤ)
twice earlier = probe (text "r") earlier ∷ probe (text "r") (pos 2) ∷ []

first_ignored : compare whole_numbers (twice (pos 1)) (twice (pos 9)) ≡ []
unfolding Provenance.compare Provenance.by_sensor Provenance.changes_for Provenance.sensor_changes
    Provenance.field_changes Provenance.same_field Provenance.same_kind Provenance.kind_name
    Provenance.union_keys lookup insert ◌==◌ Sort.keep Sort.sort Sort.insert_sorted Sort.leb_text
    Historian.is_member
first_ignored = refl

compare_complete_example :
    AreAlike whole_numbers (some (probe (text "r") (pos 2))) (some (probe (text "r") (pos 2)))
unfolding ◌==◌
compare_complete_example =
    compare_complete whole_numbers (twice (pos 1)) (twice (pos 9)) (text "r") first_ignored
