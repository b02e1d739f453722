-- ===== src/Modbus/Crc/Detect.antt =====
-- What the checksum detects: the checksum of a frame is a bijective function of its state at any
-- point, so a frame that carries its own checksum ends in 0, and a change within one byte shows.
use geopilot_hvac.Prelude.{
  ℕ, zero, suc, ◌/◌, ◌%◌, ◌*◌, ◌<◌, ◌≤◌, bit_xor, [], ◌∷◌, ◌++◌, ◌≡◌, refl, ◌≢◌, arith, ap, ◌∙◌,
  sym, ◌^◌,
}
use native.Mathlib.Nat.{pow-succ'}
use geopilot_hvac.Prelude.Bits.{
  bit_xor_cancel, bit_xor_comm, bit_xor-div_pow, bit_xor-lt_word, bit_xor_low,
}
use geopilot_hvac.Modbus.Crc.{
  Bytes, IsByte, crc_shift, crc_shifts, crc_byte, crc_from, calculate_crc, append_crc, little_bytes,
}

-- The polynomial sets the top bit, which the shift alone leaves clear.
mixed_top : (a : ℕ) → a < 32768 → 32768 ≤ bit_xor a 0xa001
mixed_top a h = ground (arith, bit_xor-div_pow 15 a 0xa001)

crc_shift-lt_word : (a : ℕ) → a < 65536 → crc_shift a < 65536
unfolding crc_shift
crc_shift-lt_word a h = ground (arith, bit_xor-lt_word (a / 2) 0xa001)

-- One round is injective on words.
crc_shift_cancel : (a b : ℕ) → a < 65536 → b < 65536 → crc_shift a ≡ crc_shift b → a ≡ b
unfolding crc_shift
crc_shift_cancel a b h k e =
    ground (arith, mixed_top (a / 2), mixed_top (b / 2), bit_xor_cancel (a / 2) (b / 2) 0xa001)

crc_shifts-lt_word : (n a : ℕ) → a < 65536 → crc_shifts n a < 65536
unfolding crc_shifts
crc_shifts-lt_word zero a h = h
crc_shifts-lt_word (suc n) a h = crc_shifts-lt_word n (crc_shift a) (crc_shift-lt_word a h)

crc_shifts_cancel : (n a b : ℕ) → a < 65536 → b < 65536 → crc_shifts n a ≡ crc_shifts n b → a ≡ b
unfolding crc_shifts
crc_shifts_cancel zero a b h k e = e
crc_shifts_cancel (suc n) a b h k e = crc_shift_cancel a b h k (
    crc_shifts_cancel n (crc_shift a) (crc_shift b) (crc_shift-lt_word a h) (crc_shift-lt_word b k)
      e)

abbrev pub AreBytes : Bytes → Type 0
AreBytes [] = Unit
AreBytes (b ∷ bs) = IsByte b × AreBytes bs

crc_byte-lt_word : (a b : ℕ) → a < 65536 → IsByte b → crc_byte a b < 65536
unfolding crc_byte
crc_byte-lt_word a b h k = crc_shifts-lt_word 8 _ (bit_xor-lt_word a b h (omega arith))

crc_from-lt_word : (frame : Bytes) (a : ℕ) → a < 65536 → AreBytes frame → crc_from a frame < 65536
unfolding crc_from
crc_from-lt_word [] a h bytes = h
crc_from-lt_word (b ∷ frame) a h bytes =
    crc_from-lt_word frame (crc_byte a b) (crc_byte-lt_word a b h bytes.0) bytes.1

-- The checksum fits the two bytes in which a frame carries it.
pub calculate_crc-lt_word : (frame : Bytes) → AreBytes frame → calculate_crc frame < 65536
unfolding calculate_crc
calculate_crc-lt_word frame bytes = crc_from-lt_word frame 0xffff (omega arith) bytes

-- Over the same bytes, two states stay apart.
crc_from_cancel :
    (frame : Bytes) (a b : ℕ)
    → a < 65536
    → b < 65536
    → AreBytes frame
    → crc_from a frame ≡ crc_from b frame
    → a ≡ b
unfolding crc_from crc_byte
crc_from_cancel [] a b h k bytes e = e
crc_from_cancel (x ∷ frame) a b h k bytes e = bit_xor_cancel a b x (
    crc_shifts_cancel 8 (bit_xor a x) (bit_xor b x) (bit_xor-lt_word a x h (omega arith))
      (bit_xor-lt_word b x k (omega arith))
      (crc_from_cancel frame (crc_byte a x) (crc_byte b x) (crc_byte-lt_word a x h bytes.0)
        (crc_byte-lt_word b x k bytes.0) bytes.1 e))

crc_from-append : (xs ys : Bytes) (a : ℕ) → crc_from a (xs ++ ys) ≡ crc_from (crc_from a xs) ys
unfolding crc_from
crc_from-append [] ys a = refl
crc_from-append (x ∷ xs) ys a = crc_from-append xs ys (crc_byte a x)

-- From one state, two bytes lead to two states.
crc_byte_cancel :
    (a x y : ℕ) → a < 65536 → IsByte x → IsByte y → crc_byte a x ≡ crc_byte a y → x ≡ y
unfolding crc_byte
crc_byte_cancel a x y h k l e = bit_xor_cancel x y a (
    bit_xor_comm x a
    ∙ crc_shifts_cancel 8 (bit_xor a x) (bit_xor a y) (bit_xor-lt_word a x h (omega arith))
        (bit_xor-lt_word a y h (omega arith)) e
    ∙ bit_xor_comm a y)

-- Two frames of bytes that differ in exactly one byte have different checksums.
pub calculate_crc_detects :
    (before after : Bytes) (x y : ℕ)
    → AreBytes before
    → AreBytes after
    → IsByte x
    → IsByte y
    → x ≢ y
    → calculate_crc (before ++ x ∷ after) ≢ calculate_crc (before ++ y ∷ after)
unfolding calculate_crc crc_from
calculate_crc_detects before after x y front back hx hy differ e =
    let a = crc_from 0xffff before in
    let word : a < 65536 = crc_from-lt_word before 0xffff (omega arith) front in
    differ (
      crc_byte_cancel a x y word hx hy (
        crc_from_cancel after (crc_byte a x) (crc_byte a y) (crc_byte-lt_word a x word hx)
          (crc_byte-lt_word a y word hy) back
          (sym (crc_from-append before (x ∷ after) 0xffff)
            ∙ e
            ∙ crc_from-append before (y ∷ after) 0xffff)))

-- Shifting a number whose low digits are clear only shifts.
crc_shift_even : (c : ℕ) → crc_shift (2 * c) ≡ c
unfolding crc_shift
crc_shift_even c = ground arith

crc_shifts_clear : (n c : ℕ) → crc_shifts n (c * 2 ^ n) ≡ c
unfolding crc_shifts
crc_shifts_clear zero c = omega arith
crc_shifts_clear (suc n) c =
    ap (crc_shifts n) (
      ap crc_shift (omega (arith, ap (λ (t : ℕ). c * t) (pow-succ' 2 n)))
      ∙ crc_shift_even (c * 2 ^ n))
    ∙ crc_shifts_clear n c

crc_byte_low : (crc : ℕ) → crc_byte crc (crc % 256) ≡ crc / 256
unfolding crc_byte
crc_byte_low crc = ap (crc_shifts 8) (bit_xor_low 8 crc) ∙ crc_shifts_clear 8 (crc / 256)

-- The checksum of a frame of bytes that carries its own checksum is 0.
pub calculate_crc-append_crc :
    (frame : Bytes) → AreBytes frame → calculate_crc (append_crc frame) ≡ 0
unfolding calculate_crc append_crc crc_from
calculate_crc-append_crc frame bytes =
    let crc = calculate_crc frame in
    let word : crc < 65536 = calculate_crc-lt_word frame bytes in
    crc_from-append frame (little_bytes crc) 0xffff
    ∙ ap (λ (t : ℕ). crc_byte t (crc / 256 % 256)) (crc_byte_low crc)
    ∙ ap (crc_byte (crc / 256)) (omega arith)
    ∙ crc_byte_low (crc / 256)
    ∙ omega arith
