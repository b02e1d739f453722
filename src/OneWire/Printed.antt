-- ===== src/OneWire/Printed.antt =====
-- The kernel's text of a temperature reads as that temperature.
use geopilot_hvac.Prelude.{
  ℕ, zero, suc, ◌+◌, ◌*◌, ◌/◌, ◌%◌, ◌<◌, ◌≡◌, ◌≢◌, refl, sym, ap, ◌∙◌, arith, true, false,
  Bool-cases, inl, inr, Option, none, some, List, [], ◌∷◌, ◌++◌, map, ℤ, pos, negsuc, Text, text,
  ok, if◌then◌else◌, eqb, ltb, is_blank,
}
use geopilot_hvac.Prelude.Lines.{ends_with, strip_right}
use geopilot_hvac.Prelude.Decimal.{show_int, show_nat, show_from}
use mathlib.Core.List.{map-append}
use geopilot_hvac.Datetime.{Datetime, is_aware}
use geopilot_hvac.OneWire.{
  one_wire_reading, number_of, negated, signed, leading_digits, match_number, match_here,
  search_temperature, reading_of, parse_lines, power_on_reset_millidegrees,
}
use geopilot_hvac.Prelude.Tests.{ltb→lt}
use geopilot_hvac.Prelude.Tests.{eqb_iff}
use geopilot_hvac.Prelude.{Bool}

-- No `t` stands before the temperature.
abbrev pub HasNoT : Text → Type 0
HasNoT [] = Unit
HasNoT (c ∷ s) = (eqb c 116 ≡ false) × HasNoT s

built_ok :
    (device_id : Text) (observed_at : Datetime) (n : ℤ)
    → n ≢ pos power_on_reset_millidegrees
    → is_blank device_id ≡ false
    → is_aware observed_at ≡ true
    → reading_of device_id observed_at (some n)
      ≡ ok (record { device_id = device_id; millidegrees = n; observed_at = observed_at })
unfolding reading_of one_wire_reading
built_ok device_id observed_at (negsuc n) real named aware = rw (named, aware) refl
built_ok device_id observed_at (pos n) real named aware =
    elim (Bool-cases (eqb n power_on_reset_millidegrees)) [
      | inl reset ↦ absurd (real (ap pos ((eqb_iff n power_on_reset_millidegrees).0 reset)))
      | inr other ↦ rw (other, named, aware) refl
    ]

-- the digits of `n`
digits_from : ℕ → ℕ → List ℕ
digits_from zero n = []
digits_from (suc fuel) n =
    let front = digits_from fuel (n / 10) in if ltb n 10 then n ∷ [] else front ++ (n % 10) ∷ []

show_from-digits : (fuel n : ℕ) → show_from fuel n ≡ map (λ d. 48 + d) (digits_from fuel n)
unfolding show_from digits_from
show_from-digits zero n = refl
show_from-digits (suc fuel) n = elim (Bool-cases (ltb n 10)) [
  | inl short ↦ rw short refl
  | inr long ↦ rw long (
      ap (λ s. s ++ (48 + n % 10) ∷ []) (show_from-digits fuel (n / 10))
      ∙ sym (map-append (λ d. 48 + d) (digits_from fuel (n / 10)) ((n % 10) ∷ [])))
]

number_of-append : (n d : ℕ) (ds : List ℕ) → number_of n (ds ++ d ∷ []) ≡ number_of n ds * 10 + d
unfolding number_of
number_of-append n d [] = refl
number_of-append n d (e ∷ ds) = number_of-append (n * 10 + e) d ds

number_of-digits : (fuel n : ℕ) → n < fuel → number_of 0 (digits_from fuel n) ≡ n
unfolding digits_from number_of
number_of-digits zero n h = absurd (omega arith)
number_of-digits (suc fuel) n h = elim (Bool-cases (ltb n 10)) [
  | inl short ↦ rw short (omega arith)
  | inr long ↦ rw long (
      number_of-append 0 (n % 10) (digits_from fuel (n / 10))
      ∙ omega (arith, number_of-digits fuel (n / 10) (ground arith)))
]

snoc_cons : (ds : List ℕ) (e : ℕ) → (d : ℕ) × (rest : List ℕ) × (ds ++ e ∷ [] ≡ d ∷ rest)
snoc_cons [] e = (e, [], refl)
snoc_cons (d ∷ ds) e = (d, ds ++ e ∷ [], refl)

digits_from-cons : (fuel n : ℕ) → (d : ℕ) × (ds : List ℕ) × (digits_from (suc fuel) n ≡ d ∷ ds)
unfolding digits_from
digits_from-cons fuel n = elim (Bool-cases (ltb n 10)) [
  | inl short ↦ (n, [], rw short refl)
  | inr long ↦ let (d, ds, e) = snoc_cons (digits_from fuel (n / 10)) (n % 10) in (d, ds, rw long e)
]

-- Every digit is one.
abbrev AreDigits : List ℕ → Type 0
AreDigits [] = Unit
AreDigits (d ∷ ds) = (d < 10) × AreDigits ds

AreDigits-append : (ds : List ℕ) (d : ℕ) → AreDigits ds → d < 10 → AreDigits (ds ++ d ∷ [])
AreDigits-append [] d h k = (k, tt)
AreDigits-append (e ∷ ds) d (h, hs) k = (h, AreDigits-append ds d hs k)

digits_from-AreDigits : (fuel n : ℕ) → AreDigits (digits_from fuel n)
unfolding digits_from
digits_from-AreDigits zero n = tt
digits_from-AreDigits (suc fuel) n = elim (Bool-cases (ltb n 10)) [
  | inl short ↦ rw short (ltb→lt n 10 short, tt)
  | inr long ↦ rw long (
      AreDigits-append (digits_from fuel (n / 10)) (n % 10) (digits_from-AreDigits fuel (n / 10))
        (omega arith))
]

module _ (digit : ℕ → Option ℕ) (ascii : (d : ℕ) → d < 10 → digit (48 + d) ≡ some d) where
  leading_digits-digits :
      (ds : List ℕ) → AreDigits ds → leading_digits digit (map (λ d. 48 + d) ds) ≡ ds
  unfolding leading_digits
  leading_digits-digits [] h = refl
  leading_digits-digits (d ∷ ds) (h, hs) = rw (ascii d h, leading_digits-digits ds hs) refl

  leading_digits-show_nat : (n : ℕ) → leading_digits digit (show_nat n) ≡ digits_from (suc n) n
  unfolding show_nat
  leading_digits-show_nat n =
      ap (leading_digits digit) (show_from-digits (suc n) n)
      ∙ leading_digits-digits (digits_from (suc n) n) (digits_from-AreDigits (suc n) n)

  match_number-digits :
      (ds : List ℕ) → AreDigits ds → match_number digit (map (λ d. 48 + d) ds) ≡ signed false ds
  unfolding match_number leading_digits
  match_number-digits [] h = refl
  match_number-digits (d ∷ ds) (h, hs) =
      let unsigned : eqb (48 + d) 45 ≡ false = ground arith in
      rw (unsigned) (ap (signed false) (leading_digits-digits (d ∷ ds) (h, hs)))

  signed-digits :
      (negative : Bool) (n : ℕ)
      → signed negative (digits_from (suc n) n) ≡ some (if negative then negated n else pos n)
  signed-digits negative n =
      let (d, ds, e) = digits_from-cons n n in
      ap (signed negative) e
      ∙ ap (λ (m : ℕ). some (if negative then negated m else pos m))
          (ap (number_of 0) (sym e) ∙ number_of-digits (suc n) n (omega arith))

  match_number-show_int : (n : ℤ) → match_number digit (show_int n) ≡ some n
  unfolding match_number show_int show_nat
  match_number-show_int (pos n) =
      ap (match_number digit) (show_from-digits (suc n) n)
      ∙ match_number-digits (digits_from (suc n) n) (digits_from-AreDigits (suc n) n)
      ∙ signed-digits false n
  match_number-show_int (negsuc n) =
      ap (signed true) (leading_digits-show_nat (suc n)) ∙ signed-digits true (suc n)

  match_here_other : (c : ℕ) (s : Text) → eqb c 116 ≡ false → match_here digit (c ∷ s) ≡ none
  unfolding match_here
  match_here_other c [] h = refl
  match_here_other c (d ∷ s) h = rw h refl

  -- the match at a place, or else a later one
  abbrev first_match : Option ℤ → Option ℤ → Option ℤ
  first_match later here = elim here [ some n ↦ some n | none ↦ later ]

  search_temperature-show_int :
      (before : Text) (n : ℤ)
      → HasNoT before
      → search_temperature digit (before ++ (116 ∷ 61 ∷ show_int n)) ≡ some n
  unfolding search_temperature match_here
  search_temperature-show_int [] n h =
      ap (first_match (search_temperature digit (61 ∷ show_int n))) (match_number-show_int n)
  search_temperature-show_int (c ∷ before) n (h, hs) =
      ap (first_match (search_temperature digit (before ++ (116 ∷ 61 ∷ show_int n))))
        (match_here_other c (before ++ (116 ∷ 61 ∷ show_int n)) h)
      ∙ search_temperature-show_int before n hs

  -- Where the digits of ASCII are digits, the device is named, the time is aware and the first
  -- line ends with YES, a second line that ends with t= and a whole number, positive or not, that
  -- is not the power-on reset value, and has no t before, reads as that number.
  pub parse_lines-show_int :
      (device_id : Text) (observed_at : Datetime) (first before : Text) (rest : List Text) (n : ℤ)
      → ends_with (text "YES") (strip_right first) ≡ true
      → HasNoT before
      → n ≢ pos power_on_reset_millidegrees
      → is_blank device_id ≡ false
      → is_aware observed_at ≡ true
      → parse_lines digit device_id observed_at (first ∷ (before ++ (116 ∷ 61 ∷ show_int n)) ∷ rest)
        ≡ ok (record { device_id = device_id; millidegrees = n; observed_at = observed_at })
  unfolding parse_lines
  parse_lines-show_int device_id observed_at first before rest n good plain real named aware =
      rw (good, search_temperature-show_int before n plain)
        (built_ok device_id observed_at n real named aware)
