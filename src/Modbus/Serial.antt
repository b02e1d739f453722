-- ===== src/Modbus/Serial.antt =====
-- The register and bit transports of backend/src/geopilot/modbus_pyserial_transport.py.
--
-- The serial port is pyserial's, so it is a parameter: `SerialPort P` over the port's own state `P`,
-- with nothing assumed of what `write` and `read` return.
pub mod Frame
pub mod Exchange
use geopilot_hvac.Prelude.{
  ℕ, ◌+◌, ◌*◌, ◌/◌, ◌%◌, bit_or, Bool, true, false, not, Option, none, some, List, [], ◌∷◌, ◌++◌,
  Text, Result, ok, err, map_err, if◌then◌else◌, eqb, ltb, length, take, drop, get_or, ◌-◌,
}
use geopilot_hvac.Prelude.Exec.{Exec, lift, raise, ◌>>=◌, ◌>>◌}
use geopilot_hvac.Modbus.Crc.{Bytes, calculate_crc, append_crc, little_word}
use geopilot_hvac.Modbus.Boundary.{
  RegisterKind, holding, input, BitKind, discrete_input, coil, TransportErrorCode, TransportError,
  TransportFault, transport_error, connection_failed, timeout, invalid_response, illegal_function,
  illegal_address, device_failure, unknown, ReadRequest,
}
use geopilot_hvac.Modbus.Lock.{Lock}
use geopilot_hvac.Modbus.Boundary.{BitReadRequest}
use geopilot_hvac.Datetime.{Datetime}
use geopilot_hvac.Modbus.Boundary.{ReadResponse}
use geopilot_hvac.Modbus.Boundary.{BitReadResponse}
use geopilot_hvac.Modbus.Lock.{with_lock}
use geopilot_hvac.Modbus.Boundary.{unpack_bits}
use geopilot_hvac.Modbus.Boundary.{index_fault}
use geopilot_hvac.Modbus.Boundary.{boundary}
use geopilot_hvac.Modbus.Boundary.{read_response}
use geopilot_hvac.Modbus.Boundary.{bit_read_response}

-- `SerialPort`: `write` may say how many bytes it took, and either may raise.
pub record SerialPort (P : Type 0) : Type 0 where
  pub write : Bytes → Exec P Text (Option ℕ)
  pub read : ℕ → Exec P Text Bytes

-- `_function_code`
unfoldable pub function_code : RegisterKind → ℕ
function_code holding = 0x03
function_code input = 0x04

-- `_bit_function_code`
unfoldable pub bit_function_code : BitKind → ℕ
bit_function_code coil = 0x01
bit_function_code discrete_input = 0x02

-- the six bytes of a read request before its checksum
abbrev pub request_body : ℕ → ℕ → ℕ → ℕ → Bytes
request_body unit code address quantity =
    unit ∷ code ∷ address / 256 % 256 ∷ address % 256 ∷ quantity / 256 % 256 ∷ quantity % 256 ∷ []

-- `build_read_request_frame`
unfoldable pub build_read_request_frame : ReadRequest → Bytes
build_read_request_frame r =
    append_crc (request_body r.unit_id (function_code r.register_kind) r.address r.quantity)

-- `build_bit_read_frame`
unfoldable pub build_bit_read_frame : BitReadRequest → Bytes
build_bit_read_frame r =
    append_crc (request_body r.unit_id (bit_function_code r.bit_kind) r.address r.quantity)

-- `_words_from_bytes`; the slice at the end of an odd number of bytes holds one byte
unfoldable pub words_from_bytes : Bytes → List ℕ
words_from_bytes [] = []
words_from_bytes (high ∷ []) = high ∷ []
words_from_bytes (high ∷ low ∷ rest) = (high * 256 + low) ∷ words_from_bytes rest

-- `_error_code_from_exception_code`
unfoldable pub error_code_from_exception_code : ℕ → TransportErrorCode
error_code_from_exception_code exception_code =
    if eqb exception_code 0x01
    then illegal_function
    else if eqb exception_code 0x02
    then illegal_address
    else if eqb exception_code 0x04
    then device_failure
    else unknown

-- `_transport_error`, raised
abbrev pub fail : {A : Type 0} → TransportErrorCode → Text → Result TransportFault A
fail code request_id = err (transport_error (record { code = code; request_id = some request_id }))

-- what `_exchange` makes of the result of `write`
unfoldable pub check_written :
    Text → Bytes → Result Text (Option ℕ) → Result TransportFault (Unit {0})
check_written id frame (err _) = fail connection_failed id
check_written id frame (ok none) = ok tt
check_written id frame (ok (some written)) =
    if eqb written (length frame) then ok tt else fail connection_failed id

-- what `_read_exact` makes of the result of `read`
unfoldable pub check_read : Text → ℕ → Result Text Bytes → Result TransportFault Bytes
check_read id size (err _) = fail connection_failed id
check_read id size (ok []) = fail timeout id
check_read id size (ok (b ∷ data')) =
    if eqb (length (b ∷ data')) size then ok (b ∷ data') else fail invalid_response id

-- `_require_valid_crc`
unfoldable pub require_valid_crc : Text → Bytes → Result TransportFault (Unit {0})
require_valid_crc id frame =
    if ltb (length frame) 3
    then fail invalid_response id
    else let sum = drop (length frame - 2) frame in
      if eqb (calculate_crc (take (length frame - 2) frame))
        (little_word (get_or sum 0 0) (get_or sum 1 0))
      then ok tt
      else fail invalid_response id

-- the end of `PySerialModbusBitTransport._exchange`
unfoldable pub bit_response :
    Text → Datetime → Option (List Bool) → Result TransportFault BitReadResponse
bit_response id now none = err index_fault
bit_response id now (some bits) = map_err boundary (bit_read_response id bits now)

module _ {P : Type 0} (port : SerialPort P) where
  -- the write of `_exchange`
  abbrev pub send : Text → Bytes → Exec P TransportFault (Unit {0})
  send id frame p = let (r, p') = port.write frame p in (check_written id frame r, p')

  -- `_read_exact`
  abbrev pub read_exact : Text → ℕ → Exec P TransportFault Bytes
  read_exact id size p = let (r, p') = port.read size p in (check_read id size r, p')

  -- an exception response: its checksum, and the error that its code stands for
  unfoldable pub exception_response : Text → ℕ → Bytes → Exec P TransportFault Bytes
  exception_response id exception_code header = do
    crc_bytes ← read_exact id 2
    lift (require_valid_crc id (header ++ crc_bytes))
    lift (fail (error_code_from_exception_code exception_code) id)

  -- a response with `byte_count` data bytes and the checksum
  unfoldable pub data_response : Text → ℕ → Bytes → Exec P TransportFault Bytes
  data_response id byte_count header = do
    payload_and_crc ← read_exact id (byte_count + 2)
    lift (require_valid_crc id (header ++ payload_and_crc))
    lift (ok (take byte_count payload_and_crc))

  -- The answer to a request, from the header on: its function and its byte count decide.
  unfoldable pub read_payload : Text → ℕ → ℕ → Bytes → Exec P TransportFault Bytes
  read_payload id code expected header =
      let response_function = get_or header 1 0 in
      let byte_count = get_or header 2 0 in
      if eqb response_function (bit_or code 0x80)
      then exception_response id byte_count header
      else if not (eqb response_function code)
      then lift (fail invalid_response id)
      else if not (eqb byte_count expected)
      then lift (fail invalid_response id)
      else data_response id byte_count header

  -- One request and its answer: the data bytes of the response.
  unfoldable pub transact : Text → ℕ → ℕ → Bytes → ℕ → Exec P TransportFault Bytes
  transact id unit code frame expected = do
    send id frame
    header ← read_exact id 3
    if not (eqb (get_or header 0 0) unit)
        then lift (fail invalid_response id)
        else read_payload id code expected header

  -- `PySerialModbusTransport._exchange`; `now` is the transport's clock
  unfoldable pub exchange : (P → Datetime) → ReadRequest → Exec P TransportFault ReadResponse
  exchange now request = do
    data' ←
        transact request.request_id request.unit_id (function_code request.register_kind)
          (build_read_request_frame request) (request.quantity * 2)
    λ p. (map_err boundary (read_response request.request_id (words_from_bytes data') (now p)), p)

  -- `PySerialModbusTransport.read_registers`
  unfoldable pub read_registers :
      Lock P → (P → Datetime) → ReadRequest → Exec P TransportFault ReadResponse
  read_registers lock now request =
      with_lock lock
        (transport_error
          (record { code = connection_failed; request_id = some request.request_id }))
        (exchange now request)

  -- `PySerialModbusBitTransport._exchange`
  unfoldable pub exchange_bits :
      (P → Datetime) → BitReadRequest → Exec P TransportFault BitReadResponse
  exchange_bits now request = do
    data' ←
        transact request.request_id request.unit_id (bit_function_code request.bit_kind)
          (build_bit_read_frame request) ((request.quantity + 7) / 8)
    λ p. (bit_response request.request_id (now p) (unpack_bits data' request.quantity), p)

  -- `PySerialModbusBitTransport.read_bits`
  unfoldable pub read_bits :
      Lock P → (P → Datetime) → BitReadRequest → Exec P TransportFault BitReadResponse
  read_bits lock now request =
      with_lock lock
        (transport_error
          (record { code = connection_failed; request_id = some request.request_id }))
        (exchange_bits now request)
