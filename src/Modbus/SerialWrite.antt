-- ===== src/Modbus/SerialWrite.antt =====
-- The coil write transport of backend/src/geopilot/modbus_pyserial_write.py, on the serial port that
-- the read transports use.
pub mod Echo
use geopilot_hvac.Prelude.{
  ℕ, ◌/◌, ◌%◌, ◌-◌, ◌&&◌, bit_or, not, Option, none, some, [], ◌∷◌, Text, ◌==◌, Result, ok, err,
  map_err, if◌then◌else◌, eqb, ltb, length, take, drop, get_or,
}
use geopilot_hvac.Prelude.Exec.{Exec, lift, ◌>>=◌, ◌>>◌}
use geopilot_hvac.Datetime.{Datetime}
use geopilot_hvac.Modbus.Crc.{Bytes, calculate_crc, append_crc, little_word}
use geopilot_hvac.Modbus.Lock.{Lock, with_lock}
use geopilot_hvac.Modbus.Serial.{SerialPort}
use geopilot_hvac.Modbus.Write.{
  write_single_coil, WriteErrorCode, timeout, connection_failed, invalid_response, illegal_function,
  illegal_address, device_failure, not_acknowledged, unknown, CoilWriteRequest, CoilWriteResponse,
  coil_value, coil_write_response, WriteFault, write_error, boundary,
}

abbrev pub response_length : ℕ
response_length = 8

-- the six bytes of a coil write before its checksum
abbrev pub coil_body : ℕ → ℕ → ℕ → Bytes
coil_body unit address value =
    unit
    ∷ write_single_coil
    ∷ address / 256 % 256
    ∷ address % 256
    ∷ value / 256 % 256
    ∷ value % 256
    ∷ []

-- `build_write_coil_frame`
unfoldable pub build_write_coil_frame : CoilWriteRequest → Bytes
build_write_coil_frame r = append_crc (coil_body r.unit_id r.address (coil_value r))

-- `_error_code_from_exception_code`
unfoldable pub error_code_from_exception_code : ℕ → WriteErrorCode
error_code_from_exception_code exception_code =
    if eqb exception_code 0x01
    then illegal_function
    else if eqb exception_code 0x02
    then illegal_address
    else if eqb exception_code 0x04
    then device_failure
    else unknown

-- `_error`, raised
abbrev pub fail : {A : Type 0} → WriteErrorCode → Text → Result WriteFault A
fail code request_id = err (write_error (record { code = code; request_id = some request_id }))

-- `_require_valid_crc`
unfoldable pub require_valid_crc : Text → Bytes → Result WriteFault (Unit {0})
require_valid_crc id frame =
    if ltb (length frame) 3
    then fail invalid_response id
    else let sum = drop (length frame - 2) frame in
      if eqb (calculate_crc (take (length frame - 2) frame))
        (little_word (get_or sum 0 0) (get_or sum 1 0))
      then ok tt
      else fail invalid_response id

-- what `_exchange` makes of the result of `write`
unfoldable pub check_written : Text → Bytes → Result Text (Option ℕ) → Result WriteFault (Unit {0})
check_written id frame (err _) = fail connection_failed id
check_written id frame (ok none) = ok tt
check_written id frame (ok (some written)) =
    if eqb written (length frame) then ok tt else fail connection_failed id

-- what `_exchange` makes of the result of `read`, up to the exception responses
unfoldable pub check_received : Text → Result Text Bytes → Result WriteFault Bytes
check_received id (err _) = fail connection_failed id
check_received id (ok []) = fail timeout id
check_received id (ok (b ∷ data')) = ok (b ∷ data')

module _ {P : Type 0} where
  -- a response that reports an exception
  unfoldable pub exception_response : Text → Bytes → Exec P WriteFault (Unit {0})
  exception_response id response = do
    lift (require_valid_crc id response)
    lift (fail (error_code_from_exception_code (get_or response 2 0)) id)

  -- a response of the full length
  unfoldable pub echo_response : Text → Bytes → Bytes → Exec P WriteFault (Unit {0})
  echo_response id frame response = do
    lift (require_valid_crc id response)
    if not (response == frame) then lift (fail not_acknowledged id) else lift (ok tt)

  -- the tests of `_exchange` on a response that is not empty
  unfoldable pub check_response : Text → Bytes → Bytes → Exec P WriteFault (Unit {0})
  check_response id frame response =
      if eqb (length response) 5 && eqb (get_or response 1 0) (bit_or write_single_coil 0x80)
      then exception_response id response
      else if not (eqb (length response) response_length)
      then lift (fail invalid_response id)
      else echo_response id frame response

module _ {P : Type 0} (port : SerialPort P) where
  -- the write of `_exchange`
  abbrev pub send : Text → Bytes → Exec P WriteFault (Unit {0})
  send id frame p = let (r, p') = port.write frame p in (check_written id frame r, p')

  -- the read of `_exchange`
  abbrev pub receive : Text → Exec P WriteFault Bytes
  receive id p = let (r, p') = port.read response_length p in (check_received id r, p')

  -- `PySerialModbusWriteTransport._exchange`; `now` is the transport's clock
  unfoldable pub exchange : (P → Datetime) → CoilWriteRequest → Exec P WriteFault CoilWriteResponse
  exchange now request = do
    send request.request_id (build_write_coil_frame request)
    response ← receive request.request_id
    check_response request.request_id (build_write_coil_frame request) response
    λ p. (
      map_err boundary
          (coil_write_response request.request_id request.address request.closed (now p)),
      p,
    )

  -- `PySerialModbusWriteTransport.write_coil`
  unfoldable pub write_coil :
      Lock P → (P → Datetime) → CoilWriteRequest → Exec P WriteFault CoilWriteResponse
  write_coil lock now request =
      with_lock lock
        (write_error (record { code = connection_failed; request_id = some request.request_id }))
        (exchange now request)
