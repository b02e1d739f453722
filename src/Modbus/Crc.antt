-- ===== src/Modbus/Crc.antt =====
-- The Modbus RTU checksum of backend/src/geopilot/modbus_pyserial_transport.py.
--
-- Bytes are natural numbers below 256, and the checksum one below 65536. `>>` is a division by a
-- power of two, and `& 0xFF` a remainder.
pub mod Detect
use geopilot_hvac.Prelude.{
  ℕ, zero, suc, ◌+◌, ◌/◌, ◌%◌, ◌*◌, ◌<◌, bit_xor, Bool, List, [], ◌∷◌, ◌++◌, eqb, if◌then◌else◌,
  ◌≡◌, refl,
}

abbrev pub Bytes : Type 0
Bytes = List ℕ

abbrev pub IsByte : ℕ → Type 0
IsByte b = b < 256

-- One round of the inner loop: `crc & 0x0001` decides whether the polynomial is mixed in.
unfoldable pub crc_shift : ℕ → ℕ
crc_shift crc = if eqb (crc % 2) 1 then bit_xor (crc / 2) 0xa001 else crc / 2

-- `for _ in range(n)`
unfoldable pub crc_shifts : ℕ → ℕ → ℕ
unfolding crc_shift
crc_shifts zero crc = crc
crc_shifts (suc n) crc = crc_shifts n (crc_shift crc)

-- One byte of the frame.
unfoldable pub crc_byte : ℕ → ℕ → ℕ
unfolding crc_shifts
crc_byte crc byte = crc_shifts 8 (bit_xor crc byte)

-- the loop over the frame
unfoldable pub crc_from : ℕ → Bytes → ℕ
unfolding crc_byte
crc_from crc [] = crc
crc_from crc (byte ∷ frame) = crc_from (crc_byte crc byte) frame

-- `calculate_crc`
unfoldable pub calculate_crc : Bytes → ℕ
unfolding crc_from
calculate_crc frame = crc_from 0xffff frame

-- `crc.to_bytes(2, byteorder="little")`
abbrev pub little_bytes : ℕ → Bytes
little_bytes n = n % 256 ∷ n / 256 % 256 ∷ []

-- `int.from_bytes(b"..", byteorder="little")` of two bytes
abbrev pub little_word : ℕ → ℕ → ℕ
little_word low high = high * 256 + low

-- `_append_crc`
unfoldable pub append_crc : Bytes → Bytes
unfolding calculate_crc
append_crc frame = frame ++ little_bytes (calculate_crc frame)

-- The frame of a request for two holding registers at address 0 of unit 1 ends in its checksum, 0x0bc4.
append_crc_known :
    append_crc (0x01 ∷ 0x03 ∷ 0x00 ∷ 0x00 ∷ 0x00 ∷ 0x02 ∷ [])
    ≡ 0x01 ∷ 0x03 ∷ 0x00 ∷ 0x00 ∷ 0x00 ∷ 0x02 ∷ 0xc4 ∷ 0x0b ∷ []
unfolding append_crc
append_crc_known = refl
