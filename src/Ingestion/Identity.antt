-- ===== src/Ingestion/Identity.antt =====
-- The identity of a measurement: one source, one sensor, one instant.
use geopilot_hvac.Prelude.{◌≡◌, ◌↔◌, refl, true, [], ◌∷◌, ◌++◌, ℤ, Text, text, Result, ok}
use geopilot_hvac.Prelude.Decimal.{show_int, show_int_cancel}
use geopilot_hvac.Datetime.{Datetime, is_aware, epoch_microseconds}
use geopilot_hvac.Domain.{DomainError, naive_datetime}
use geopilot_hvac.Ingestion.{RawMeasurement, measurement_id}
use geopilot_hvac.Prelude.{arith}

front_cancel : (s t u : Text) → s ++ t ≡ s ++ u → t ≡ u
front_cancel [] t u e = e
front_cancel (c ∷ s) t u e = front_cancel s t u (cc e)

ok_cancel : (s t : Text) → (let r : Result DomainError Text = ok s in r) ≡ ok t → s ≡ t
ok_cancel s t e = cc e

-- the identity of an observation by its coordinates
identity : Text → Text → ℤ → Text
identity source_id sensor_id at = source_id ++ text ":" ++ sensor_id ++ text ":" ++ show_int at

epoch_microseconds-aware :
    {E : Type 0} (naive : E) (d : Datetime)
    → is_aware d ≡ true
    → epoch_microseconds naive d ≡ ok d.instant
unfolding epoch_microseconds
epoch_microseconds-aware naive d aware = ground arith

measurement_id_lem :
    {V : Type 0} (raw : RawMeasurement V)
    → is_aware raw.timestamp ≡ true
    → measurement_id raw ≡ ok (identity raw.source_id raw.sensor_id raw.timestamp.instant)
unfolding measurement_id identity
measurement_id_lem raw aware = rw (epoch_microseconds-aware naive_datetime raw.timestamp aware) refl

identity_cancel : (s t : Text) (a b : ℤ) → identity s t a ≡ identity s t b → a ≡ b
unfolding identity
identity_cancel s t a b e =
    let front : Text = s ++ text ":" ++ t ++ text ":" in
    show_int_cancel a b (front_cancel front (show_int a) (show_int b) e)

-- Two raw values of one source and one sensor, with aware timestamps, have the same measurement id
-- exactly if they were observed at the same instant.
pub measurement_id_cancel :
    {V : Type 0} (raw other : RawMeasurement V)
    → is_aware raw.timestamp ≡ true
    → is_aware other.timestamp ≡ true
    → raw.source_id ≡ other.source_id
    → raw.sensor_id ≡ other.sensor_id
    → (measurement_id raw ≡ measurement_id other)
      ↔ (raw.timestamp.instant ≡ other.timestamp.instant)
measurement_id_cancel raw other aware aware' source sensor =
    let here = measurement_id_lem raw aware in
    let there = measurement_id_lem other aware' in
    (
      λ e.
          identity_cancel other.source_id other.sensor_id _ _
            (ok_cancel _ _ (cc (here, there, e, source, sensor))),
      λ e. cc (here, there, e, source, sensor),
    )
