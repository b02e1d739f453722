-- ===== src/OneWire/Tests.antt =====
-- The kernel's text of 21.687 degrees, with the digits of ASCII.
use geopilot_hvac.Prelude.{
  ℕ, ◌-◌, ◌+◌, ◌<◌, ◌&&◌, ◌++◌, ◌≡◌, refl, arith, Option, none, some, [], ◌∷◌, pos, negsuc, Text,
  text, ok, leb, if◌then◌else◌, is_blank,
}
use geopilot_hvac.Prelude.Lines.{split_lines, strip, strip_right, ends_with}
use geopilot_hvac.Prelude.Decimal.{show_int}
use geopilot_hvac.Datetime.{utc}
use geopilot_hvac.OneWire.{
  OneWireReading, parse_w1_slave, parse_lines, search_temperature, match_here, match_number,
  leading_digits, number_of, reading_of, one_wire_reading,
}
use geopilot_hvac.OneWire.Readings.{AreSound, parse_w1_slave_ok}
use geopilot_hvac.OneWire.Printed.{parse_lines-show_int}

ascii_digit : ℕ → Option ℕ
ascii_digit c = if leb 48 c && leb c 57 then some (c - 48) else none

ascii_digit_lem : (d : ℕ) → d < 10 → ascii_digit (48 + d) ≡ some d
unfolding ascii_digit
ascii_digit_lem d h = ground arith

abbrev probe : Text
probe = text "28-1"

abbrev reading : OneWireReading
reading = record { device_id = probe; millidegrees = pos 21687; observed_at = utc 5 }

abbrev payload : Text
payload = text "5b 01 : crc=4f YES" ++ (10 ∷ text "5b 01 t=21687") ++ (10 ∷ [])

parse_w1_slave_ok_example : AreSound probe (utc 5) ascii_digit (split_lines (strip payload)) reading
unfolding parse_w1_slave parse_lines search_temperature match_here match_number leading_digits
    number_of reading_of one_wire_reading split_lines strip strip_right ends_with ascii_digit
    is_blank
parse_w1_slave_ok_example = parse_w1_slave_ok probe (utc 5) ascii_digit payload reading refl

parse_lines-show_int_example :
    parse_lines ascii_digit probe
      (utc 5)
      (text "5b 01 : crc=4f YES" ∷ (text "5b 01 " ++ (116 ∷ 61 ∷ show_int (negsuc 249))) ∷ [])
    ≡ ok (record { device_id = probe; millidegrees = negsuc 249; observed_at = utc 5 })
unfolding ends_with strip_right is_blank
parse_lines-show_int_example =
    parse_lines-show_int ascii_digit ascii_digit_lem probe (utc 5) (text "5b 01 : crc=4f YES")
      (text "5b 01 ") [] (negsuc 249) refl (refl, (refl, (refl, (refl, (refl, (refl, tt))))))
      (λ e. cc e) refl refl
