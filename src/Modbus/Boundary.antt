-- ===== src/Modbus/Boundary.antt =====
-- backend/src/geopilot/modbus_transport.py: requests, responses and errors of the read side.
--
-- Integers that the constructors check to be in range are natural numbers afterwards. An error keeps
-- its code and its request; the texts of messages are not kept.
use geopilot_hvac.Prelude.{
  ℕ, zero, suc, ◌+◌, ◌/◌, ◌%◌, ◌^◌, Bool, true, false, not, ◌||◌, Option, none, some, List, [], ◌∷◌,
  ℤ, pos, ltb_ℤ, pos_part, Text, is_blank, Result, ok, err, if◌then◌else◌, ltb, eqb, get_elem?,
}
use geopilot_hvac.Prelude.Results.{◌>>=◌, ◌>>◌, raise_if}
use geopilot_hvac.Datetime.{Datetime, is_aware}

-- `ModbusTransportBoundaryError`, by the check that raised it.
pub data BoundaryError : Type 0 where
  blank_identifier naive_datetime unsigned_range quantity_range empty_response : BoundaryError
  duplicate_fake missing_request_id : BoundaryError

pub data RegisterKind : Type 0 where
  holding input : RegisterKind

pub data BitKind : Type 0 where
  discrete_input coil : BitKind

pub data TransportErrorCode : Type 0 where
  timeout connection_failed invalid_response illegal_function : TransportErrorCode
  illegal_address device_failure unknown : TransportErrorCode

-- `ModbusTransportError`
pub record TransportError : Type 0 where
  pub code : TransportErrorCode
  pub request_id : Option Text

-- What a read may raise: a transport error, the refusal of a boundary object, or an `IndexError`.
pub data TransportFault : Type 0 where
  transport_error : TransportError → TransportFault
  boundary : BoundaryError → TransportFault
  index_fault : TransportFault

-- `_require_uint8` and `_require_uint16`, by the greatest value
abbrev pub require_unsigned : ℕ → ℤ → Result BoundaryError ℕ
require_unsigned bound value = do
  raise_if (ltb_ℤ value (pos 0) || ltb_ℤ (pos bound) value) unsigned_range
  ok (pos_part value)

-- `quantity < 1 or quantity > bound`
abbrev pub require_quantity : ℕ → ℤ → Result BoundaryError ℕ
require_quantity bound value = do
  raise_if (ltb_ℤ value (pos 1) || ltb_ℤ (pos bound) value) quantity_range
  ok (pos_part value)

pub record ReadRequest : Type 0 where
  pub request_id : Text
  pub source_id : Text
  pub unit_id : ℕ
  pub register_kind : RegisterKind
  pub address : ℕ
  pub quantity : ℕ

-- `ModbusReadRequest(...)` with `__post_init__`
unfoldable pub read_request :
    Text → Text → ℤ → RegisterKind → ℤ → ℤ → Result BoundaryError ReadRequest
read_request request_id source_id unit_id register_kind address quantity = do
  raise_if (is_blank request_id) blank_identifier
  raise_if (is_blank source_id) blank_identifier
  unit ← require_unsigned 0xff unit_id
  start ← require_unsigned 0xffff address
  count ← require_quantity 125 quantity
  ok (record {
    request_id = request_id;
    source_id = source_id;
    unit_id = unit;
    register_kind = register_kind;
    address = start;
    quantity = count;
  })

-- the loop over the words of a response
unfoldable pub check_words : List ℕ → Result BoundaryError (Unit {0})
check_words [] = ok tt
check_words (word ∷ words) =
    let rest = check_words words in if ltb 0xffff word then err unsigned_range else rest

pub record ReadResponse : Type 0 where
  pub request_id : Text
  pub words : List ℕ
  pub observed_at : Datetime

abbrev is_empty : {A : Type 0} → List A → Bool
is_empty [] = true
is_empty (x ∷ xs) = false

-- `ModbusReadResponse(...)` with `__post_init__`
unfoldable pub read_response : Text → List ℕ → Datetime → Result BoundaryError ReadResponse
unfolding check_words
read_response request_id words observed_at = do
  raise_if (is_blank request_id) blank_identifier
  raise_if (not (is_aware observed_at)) naive_datetime
  raise_if (is_empty words) empty_response
  check_words words
  ok (record { request_id = request_id; words = words; observed_at = observed_at })

pub record BitReadRequest : Type 0 where
  pub request_id : Text
  pub source_id : Text
  pub unit_id : ℕ
  pub bit_kind : BitKind
  pub address : ℕ
  pub quantity : ℕ

-- `ModbusBitReadRequest(...)` with `__post_init__`
unfoldable pub bit_read_request :
    Text → Text → ℤ → BitKind → ℤ → ℤ → Result BoundaryError BitReadRequest
bit_read_request request_id source_id unit_id bit_kind address quantity = do
  raise_if (is_blank request_id) blank_identifier
  raise_if (is_blank source_id) blank_identifier
  unit ← require_unsigned 0xff unit_id
  start ← require_unsigned 0xffff address
  count ← require_quantity 2000 quantity
  ok (record {
    request_id = request_id;
    source_id = source_id;
    unit_id = unit;
    bit_kind = bit_kind;
    address = start;
    quantity = count;
  })

pub record BitReadResponse : Type 0 where
  pub request_id : Text
  pub bits : List Bool
  pub observed_at : Datetime

-- `ModbusBitReadResponse(...)` with `__post_init__`
unfoldable pub bit_read_response :
    Text → List Bool → Datetime → Result BoundaryError BitReadResponse
bit_read_response request_id bits observed_at = do
  raise_if (is_blank request_id) blank_identifier
  raise_if (not (is_aware observed_at)) naive_datetime
  raise_if (is_empty bits) empty_response
  ok (record { request_id = request_id; bits = bits; observed_at = observed_at })

-- `bool(byte >> place & 0x01)`
abbrev pub bit_at : ℕ → ℕ → Bool
bit_at byte place = eqb (byte / 2 ^ place % 2) 1

-- The loop of `unpack_bits` from `index` on, `left` rounds; `none` is the `IndexError` of a payload
-- that is too short.
unfoldable pub unpack_from : List ℕ → ℕ → ℕ → Option (List Bool)
unpack_from payload index zero = some []
unpack_from payload index (suc left) =
    let rest = unpack_from payload (index + 1) left in
    elim (get_elem? payload (index / 8)) [
      | none ↦ none
      | some byte ↦ elim rest [ none ↦ none | some bits ↦ some (bit_at byte (index % 8) ∷ bits) ]
    ]

-- `unpack_bits`
unfoldable pub unpack_bits : List ℕ → ℕ → Option (List Bool)
unfolding unpack_from
unpack_bits payload quantity = unpack_from payload 0 quantity
