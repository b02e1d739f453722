-- ===== src/OneWire/Readings.antt =====
-- What a payload must be for a reading, and what the kernel's text of a temperature reads as.
use geopilot_hvac.Prelude.{
  ℕ, ◌≡◌, ◌≢◌, refl, sym, ap, ◌∙◌, arith, true, Bool-cases, inl, inr, Option, none, some, List, [],
  ◌∷◌, ℤ, pos, negsuc, Text, text, ok, map_err, eqb,
}
use geopilot_hvac.Prelude.Results.{map_err_ok}
use geopilot_hvac.Prelude.Lines.{ends_with, strip, strip_right, split_lines}
use geopilot_hvac.Datetime.{Datetime}
use geopilot_hvac.OneWire.{
  OneWireReading, one_wire_reading, search_temperature, reading_of, parse_lines, parse_w1_slave,
  power_on_reset_millidegrees,
}
use geopilot_hvac.Prelude.Tests.{eqb_iff}
use geopilot_hvac.OneWire.{boundary}

one_wire_reading_same : (r r' : OneWireReading) → one_wire_reading r ≡ ok r' → r ≡ r'
unfolding one_wire_reading
one_wire_reading_same r r' h = ground arith

module _ (device_id : Text) (observed_at : Datetime) where
  -- the reading of a device and a time, with a temperature that is not the power-on reset
  abbrev pub IsReadingOf : Option ℤ → OneWireReading → Type 0
  IsReadingOf found r =
      (found ≡ some r.millidegrees)
      × (r.millidegrees ≢ pos power_on_reset_millidegrees)
      × (r.device_id ≡ device_id)
      × (r.observed_at ≡ observed_at)

  built_lem :
      (n : ℤ) (r : OneWireReading)
      → n ≢ pos power_on_reset_millidegrees
      → map_err boundary (
          one_wire_reading
            (record { device_id = device_id; millidegrees = n; observed_at = observed_at }))
        ≡ ok r
      → IsReadingOf (some n) r
  built_lem n r real h =
      let same =
        one_wire_reading_same
          (record { device_id = device_id; millidegrees = n; observed_at = observed_at }) r
          (map_err_ok boundary _ h) in
      (
        ap (λ (x : OneWireReading). some x.millidegrees) same,
        λ e. real (ap (λ (x : OneWireReading). x.millidegrees) same ∙ e),
        ap (λ (x : OneWireReading). x.device_id) (sym same),
        ap (λ (x : OneWireReading). x.observed_at) (sym same),
      )

  reading_of_ok :
      (found : Option ℤ) (r : OneWireReading)
      → reading_of device_id observed_at found ≡ ok r
      → IsReadingOf found r
  unfolding reading_of
  reading_of_ok none r h = cc h
  reading_of_ok (some (negsuc n)) r h = built_lem (negsuc n) r (λ e. cc e) h
  reading_of_ok (some (pos n)) r h = elim (Bool-cases (eqb n power_on_reset_millidegrees)) [
    | inl reset ↦ let bad = rw (reset, reading_of) at h in cc bad
    | inr real ↦
        built_lem (pos n) r
          (λ e.
            let same : n ≡ power_on_reset_millidegrees = cc e in
            cc ((eqb_iff n power_on_reset_millidegrees).1 same, real))
          (rw (real, reading_of) at h)
  ]

  module _ (digit : ℕ → Option ℕ) where
    -- The lines of a payload whose checksum the kernel vouches for, and that has a temperature.
    abbrev pub AreSound : List Text → OneWireReading → Type 0
    AreSound lines r =
        (first : Text) × (second : Text) × (rest : List Text) × (lines ≡ first ∷ second ∷ rest)
        × (ends_with (text "YES") (strip_right first) ≡ true)
        × IsReadingOf (search_temperature digit second) r

    parse_lines_ok :
        (lines : List Text) (r : OneWireReading)
        → parse_lines digit device_id observed_at lines ≡ ok r
        → AreSound lines r
    unfolding parse_lines
    parse_lines_ok [] r h = cc h
    parse_lines_ok (first ∷ []) r h = cc h
    parse_lines_ok (first ∷ second ∷ rest) r h =
        elim (Bool-cases (ends_with (text "YES") (strip_right first))) [
          | inl good ↦ (
            first,
            second,
            rest,
            refl,
            good,
            reading_of_ok (search_temperature digit second) r (rw (good, parse_lines) at h),
          )
          | inr bad ↦ let no = rw (bad, parse_lines) at h in cc no
        ]

    -- A reading is only made from a payload whose first line, but for spaces at its end, ends with
    -- YES and whose second line has a temperature; the reading has that temperature, which is not
    -- the power-on reset value, the device and the time.
    pub parse_w1_slave_ok :
        (content : Text) (r : OneWireReading)
        → parse_w1_slave digit device_id content observed_at ≡ ok r
        → AreSound (split_lines (strip content)) r
    unfolding parse_w1_slave
    parse_w1_slave_ok content r h = parse_lines_ok (split_lines (strip content)) r h
