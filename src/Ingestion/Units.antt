-- ===== src/Ingestion/Units.antt =====
-- What normalisation makes of a value and its unit.
use geopilot_hvac.Prelude.{
  ◌≡◌, refl, arith, true, false, ◌||◌, ◌⊎◌, inl, inr, Bool-cases, Option, none, some, pos, Text,
  text, ◌==◌, ok,
}
use geopilot_hvac.Prelude.Numbers.{Numbers}
use geopilot_hvac.Domain.{SensorMeasurementKind, temperature, relative_humidity, power, state}
use geopilot_hvac.Domain.Assets.{Sensor}
use geopilot_hvac.Ingestion.{
  NormalizedUnit, state_unit, normalize_state, normalize_temperature, normalize_relative_humidity,
  normalize_power, normalize_without_sensor, normalize_for, normalize_unit,
}
use geopilot_hvac.Prelude.{subst}
use geopilot_hvac.Prelude.{ap}
use geopilot_hvac.Prelude.{◌∙◌}
use geopilot_hvac.Prelude.{sym}

-- What Python's `==` says of the integers 0 and 1.
pub record HasStates {V : Type 0} (numbers : Numbers V) : Type 0 where
  pub zero_zero : numbers.same (numbers.of_int (pos 0)) (numbers.of_int (pos 0)) ≡ true
  pub one_zero : numbers.same (numbers.of_int (pos 1)) (numbers.of_int (pos 0)) ≡ false
  pub one_one : numbers.same (numbers.of_int (pos 1)) (numbers.of_int (pos 1)) ≡ true

-- the canonical unit of a capability
abbrev pub canonical_unit : SensorMeasurementKind → Text
canonical_unit temperature = text "degC"
canonical_unit relative_humidity = text "%"
canonical_unit power = text "W"
canonical_unit state = state_unit

module _ {V : Type 0} (numbers : Numbers V) where
  temperature_unit :
      (value : V) (unit : Text) {n : NormalizedUnit V}
      → normalize_temperature numbers value unit ≡ ok n
      → n.unit ≡ text "degC"
  unfolding normalize_temperature
  temperature_unit value unit h = ground arith

  temperature_again :
      (n : NormalizedUnit V)
      → n.unit ≡ text "degC"
      → normalize_temperature numbers n.value n.unit ≡ ok n
  unfolding normalize_temperature ◌==◌
  temperature_again n e =
      subst
        (λ (u : Text).
          normalize_temperature numbers n.value u ≡ ok (record { value = n.value; unit = u }))
        (sym e) refl

  humidity_unit :
      (value : V) (unit : Text) {n : NormalizedUnit V}
      → normalize_relative_humidity numbers value unit ≡ ok n
      → n.unit ≡ text "%"
  unfolding normalize_relative_humidity
  humidity_unit value unit h = ground arith

  power_unit :
      (value : V) (unit : Text) {n : NormalizedUnit V}
      → normalize_power numbers value unit ≡ ok n
      → n.unit ≡ text "W"
  unfolding normalize_power
  power_unit value unit h = ground arith

  -- A state is 0 or 1.
  IsState : NormalizedUnit V → Type 0
  IsState n =
      (n.unit ≡ state_unit)
      × ((n.value ≡ numbers.of_int (pos 0)) ⊎ (n.value ≡ numbers.of_int (pos 1)))

  state_lem :
      (value : V) (unit : Text) {n : NormalizedUnit V}
      → normalize_state numbers value unit ≡ ok n
      → IsState n
  unfolding normalize_state IsState
  state_lem value unit h = ground arith

  humidity_again :
      (n : NormalizedUnit V)
      → n.unit ≡ text "%"
      → normalize_relative_humidity numbers n.value n.unit ≡ ok n
  unfolding normalize_relative_humidity ◌==◌
  humidity_again n e =
      subst
        (λ (u : Text).
          normalize_relative_humidity numbers n.value u ≡ ok (record { value = n.value; unit = u }))
        (sym e) refl

  power_again :
      (n : NormalizedUnit V) → n.unit ≡ text "W" → normalize_power numbers n.value n.unit ≡ ok n
  unfolding normalize_power ◌==◌
  power_again n e =
      subst
        (λ (u : Text).
          normalize_power numbers n.value u ≡ ok (record { value = n.value; unit = u }))
        (sym e) refl

  module _ (laws : HasStates numbers) where
    state_value_again :
        (v : V)
        → ((v ≡ numbers.of_int (pos 0)) ⊎ (v ≡ numbers.of_int (pos 1)))
        → normalize_state numbers v state_unit ≡ ok (record { value = v; unit = state_unit })
    unfolding normalize_state ◌==◌
    state_value_again v (inl e) =
        subst
          (λ (v : V).
            normalize_state numbers v state_unit ≡ ok (record { value = v; unit = state_unit }))
          (sym e) (rw (laws.zero_zero) refl)
    state_value_again v (inr e) =
        subst
          (λ (v : V).
            normalize_state numbers v state_unit ≡ ok (record { value = v; unit = state_unit }))
          (sym e) (rw (laws.one_zero, laws.one_one) refl)

    state_again : (n : NormalizedUnit V) → IsState n → normalize_state numbers n.value n.unit ≡ ok n
    unfolding IsState
    state_again n (e, which) =
        subst
          (λ (u : Text).
            normalize_state numbers n.value u ≡ ok (record { value = n.value; unit = u }))
          (sym e) (state_value_again n.value which)

    -- The result is in the canonical unit, and normalising it again gives it again.
    normalize_for_settles :
        (kind : SensorMeasurementKind) (value : V) (unit : Text) {n : NormalizedUnit V}
        → normalize_for numbers (some kind) value unit ≡ ok n
        → (n.unit ≡ canonical_unit kind) × (normalize_for numbers (some kind) n.value n.unit ≡ ok n)
    unfolding normalize_for IsState
    normalize_for_settles temperature value unit {n} h =
        let e = temperature_unit value unit h in (e, temperature_again n e)
    normalize_for_settles relative_humidity value unit {n} h =
        let e = humidity_unit value unit h in (e, humidity_again n e)
    normalize_for_settles power value unit {n} h =
        let e = power_unit value unit h in (e, power_again n e)
    normalize_for_settles state value unit {n} h =
        let is_state = state_lem value unit h in (is_state.0, state_again n is_state)

    -- Without a sensor, the unit selects the capability.
    without_sensor_selects :
        (value : V) (unit : Text) {n : NormalizedUnit V}
        → normalize_without_sensor numbers value unit ≡ ok n
        → (kind : SensorMeasurementKind) × (normalize_for numbers (some kind) value unit ≡ ok n)
    unfolding normalize_without_sensor normalize_for
    without_sensor_selects value unit h =
        elim (Bool-cases
          (unit == text "degC" || unit == text "°C" || unit == text "degF" || unit == text "°F")) [
            | inl t ↦ (temperature, rw (t, normalize_without_sensor) at h)
            | inr t ↦ elim (Bool-cases (unit == text "%")) [
              | inl r ↦ (relative_humidity, rw (t, r, normalize_without_sensor) at h)
              | inr r ↦ elim (Bool-cases (unit == text "W" || unit == text "kW")) [
                | inl p ↦ (power, rw (t, r, p, normalize_without_sensor) at h)
                | inr p ↦ elim (Bool-cases (unit == state_unit)) [
                  | inl s ↦ (state, rw (t, r, p, s, normalize_without_sensor) at h)
                  | inr s ↦ let bad = rw (t, r, p, s, normalize_without_sensor) at h in cc bad
                ]
              ]
            ]
          ]

    without_sensor_canonical :
        (kind : SensorMeasurementKind) (value : V)
        → normalize_without_sensor numbers value (canonical_unit kind)
          ≡ normalize_for numbers (some kind) value (canonical_unit kind)
    unfolding normalize_without_sensor normalize_for ◌==◌
    without_sensor_canonical temperature value = refl
    without_sensor_canonical relative_humidity value = refl
    without_sensor_canonical power value = refl
    without_sensor_canonical state value = refl

    capability_settles :
        (capability : Option SensorMeasurementKind) (value : V) (unit : Text) {n : NormalizedUnit V}
        → normalize_for numbers capability value unit ≡ ok n
        → ((kind : SensorMeasurementKind) × (n.unit ≡ canonical_unit kind))
          × (normalize_for numbers capability n.value n.unit ≡ ok n)
    unfolding normalize_for
    capability_settles none value unit h = cc h
    capability_settles (some kind) value unit h =
        let (canonical, again) = normalize_for_settles kind value unit h in
        ((kind, canonical), again)

    -- Where 0 and 1 compare as they should, a normalised value is in the canonical unit of a
    -- capability, and normalising it again gives it again.
    pub normalize_unit_settles :
        (sensor : Option Sensor) (value : V) (unit : Text) (n : NormalizedUnit V)
        → normalize_unit numbers sensor value unit ≡ ok n
        → ((kind : SensorMeasurementKind) × (n.unit ≡ canonical_unit kind))
          × (normalize_unit numbers sensor n.value n.unit ≡ ok n)
    unfolding normalize_unit
    normalize_unit_settles none value unit n h =
        let (kind, selected) = without_sensor_selects value unit h in
        let (canonical, again) = normalize_for_settles kind value unit selected in
        (
          (kind, canonical),
          ap (normalize_without_sensor numbers n.value) canonical
              ∙ without_sensor_canonical kind n.value
              ∙ ap (normalize_for numbers (some kind) n.value) (sym canonical)
              ∙ again,
        )
    normalize_unit_settles (some sensor) value unit n h =
        capability_settles sensor.sensor_kind value unit h
