-- ===== src/Modbus/Serial/Frame.antt =====
-- The tests on the frame of an answer: what a read of a given size and a valid checksum tell.
use geopilot_hvac.Prelude.{
  ℕ, zero, suc, ◌+◌, ◌-◌, ◌≡◌, refl, arith, false, [], ◌∷◌, ◌++◌, Text, Result, ok, err, eqb,
  length, take, drop, Bool-cases, eqb_iff, ap, sym, ap₂, ltb, ◌∙◌, if◌then◌else◌, length-append,
  take-length_append, drop-length_append, get_or,
}
use geopilot_hvac.Modbus.Crc.{Bytes, calculate_crc, little_word}
use geopilot_hvac.Modbus.Serial.{check_read, require_valid_crc, fail}
use geopilot_hvac.Modbus.Boundary.{invalid_response}
use geopilot_hvac.Prelude.{inl}
use geopilot_hvac.Prelude.{inr}

-- The second read brought the data bytes and the checksum of the whole answer: the unit, the function
-- and the byte count that were asked for, and that many data bytes.
pub record IsAnswer (unit code expected : ℕ) (data' : Bytes) (payload : Result Text Bytes)
    : Type 0 where
  pub low : ℕ
  pub high : ℕ
  pub brought : payload ≡ ok (data' ++ low ∷ high ∷ [])
  pub size : length data' ≡ expected
  pub checksum : calculate_crc (unit ∷ code ∷ expected ∷ data') ≡ little_word low high

-- A read of `size` bytes returns exactly so many, or raises.
pub check_read_ok :
    (id : Text) (size : ℕ) (r : Result Text Bytes) {bytes : Bytes}
    → check_read id size r ≡ ok bytes
    → (length bytes ≡ size) × (r ≡ ok bytes)
unfolding check_read
check_read_ok id size (err _) h = cc
check_read_ok id size (ok []) h = cc
check_read_ok id size (ok (b ∷ bs)) h = ground arith

-- A list of `n + 2` items ends in two items behind its first `n`.
pub split_two :
    (n : ℕ) (xs : Bytes)
    → length xs ≡ n + 2
    → (a b : ℕ) × (xs ≡ take n xs ++ a ∷ b ∷ []) × (length (take n xs) ≡ n)
split_two zero [] h = absurd (omega arith)
split_two zero (a ∷ []) h = absurd (omega arith)
split_two zero (a ∷ b ∷ []) h = (a, b, refl, refl)
split_two zero (a ∷ b ∷ c ∷ xs) h = absurd (omega arith)
split_two (suc n) [] h = absurd (omega arith)
split_two (suc n) (x ∷ xs) h =
    let (a, b, e, l) = split_two n xs (omega arith) in (a, b, ap (λ (t : Bytes). x ∷ t) e, ap suc l)

-- The test of the checksum, on a frame in its parts.
pub require_valid_crc_lem :
    (id : Text) (x : ℕ) (body : Bytes) (a b : ℕ)
    → require_valid_crc id (x ∷ body ++ a ∷ b ∷ []) ≡ (
        if eqb (calculate_crc (x ∷ body)) (little_word a b)
        then ok tt
        else fail invalid_response id)
unfolding require_valid_crc
require_valid_crc_lem id x body a b =
    let frame : Bytes = (x ∷ body) ++ a ∷ b ∷ [] in
    let n : length frame - 2 ≡ length (x ∷ body) = omega (arith, length-append body (a ∷ b ∷ [])) in
    let front : take (length frame - 2) frame ≡ x ∷ body =
      ap (λ (k : ℕ). take k frame) n ∙ take-length_append (x ∷ body) (a ∷ b ∷ []) in
    let back : drop (length frame - 2) frame ≡ a ∷ b ∷ [] =
      ap (λ (k : ℕ). drop k frame) n ∙ drop-length_append (x ∷ body) (a ∷ b ∷ []) in
    let long : ltb (length frame) 3 ≡ false = ground (arith, length-append body (a ∷ b ∷ [])) in
    rw (long, require_valid_crc)
      (ap₂
        (λ (f g : Bytes).
          if eqb (calculate_crc f) (little_word (get_or g 0 0) (get_or g 1 0))
          then ok tt
          else fail {A = Unit {0}} invalid_response id)
        front back)

-- A frame whose checksum was accepted, in its parts.
pub accepted :
    (id : Text) (u f n : ℕ) (front : Bytes) (a b : ℕ) {payload : Result Text Bytes}
    → length front ≡ n
    → payload ≡ ok (front ++ a ∷ b ∷ [])
    → require_valid_crc id (u ∷ f ∷ n ∷ front ++ a ∷ b ∷ []) ≡ ok tt
    → IsAnswer u f n front payload
accepted id u f n front a b size brought valid =
    let body : Bytes = f ∷ n ∷ front in
    let test = require_valid_crc_lem id u body a b in
    elim (Bool-cases (eqb (calculate_crc (u ∷ body)) (little_word a b))) [
      | inl same ↦ record {
        low = a;
        high = b;
        brought = brought;
        size = size;
        checksum = (eqb_iff (calculate_crc (u ∷ body)) (little_word a b)).0 same;
      }
      | inr other ↦ absurd (
          let bad : ok tt ≡ fail {A = Unit {0}} invalid_response id =
            sym valid ∙ test ∙ rw other refl in
          cc bad)
    ]
