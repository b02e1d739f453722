-- ===== src/Modbus/Write.antt =====
-- backend/src/geopilot/modbus_write.py: the coil write boundary.
--
-- Integers that the constructors check to be in range are natural numbers afterwards.
use geopilot_hvac.Prelude.{
  ℕ, Bool, true, false, ◌||◌, Option, none, some, List, [], ◌∷◌, ℤ, pos, ltb_ℤ, pos_part, Text,
  ◌==◌, is_blank, Result, ok, err, if◌then◌else◌, Dict, lookup, ◌++◌, reverse, map_err, ◌+◌,
}
use geopilot_hvac.Prelude.Results.{◌>>◌, raise_if}
use geopilot_hvac.Prelude.Exec.{Exec}
use geopilot_hvac.Datetime.{Datetime, is_aware}

abbrev pub write_single_coil : ℕ
write_single_coil = 0x05

abbrev pub coil_on : ℕ
coil_on = 0xff00

abbrev pub coil_off : ℕ
coil_off = 0x0000

-- `ModbusWriteBoundaryError`, by the check that raised it.
pub data WriteBoundaryError : Type 0 where
  blank_identifier unit_id_range address_range naive_datetime : WriteBoundaryError

pub data WriteErrorCode : Type 0 where
  timeout connection_failed invalid_response illegal_function : WriteErrorCode
  illegal_address device_failure not_acknowledged unknown : WriteErrorCode

-- `ModbusWriteError`
pub record WriteError : Type 0 where
  pub code : WriteErrorCode
  pub request_id : Option Text

pub record CoilWriteRequest : Type 0 where
  pub request_id : Text
  pub target_id : Text
  pub unit_id : ℕ
  pub address : ℕ
  pub closed : Bool

-- `ModbusCoilWriteRequest(...)` with `__post_init__`
unfoldable pub coil_write_request :
    Text → Text → ℤ → ℤ → Bool → Result WriteBoundaryError CoilWriteRequest
coil_write_request request_id target_id unit_id address closed = do
  raise_if (is_blank request_id) blank_identifier
  raise_if (is_blank target_id) blank_identifier
  raise_if (ltb_ℤ unit_id (pos 0) || ltb_ℤ (pos 0xff) unit_id) unit_id_range
  raise_if (ltb_ℤ address (pos 0) || ltb_ℤ (pos 0xffff) address) address_range
  ok (record {
    request_id = request_id;
    target_id = target_id;
    unit_id = pos_part unit_id;
    address = pos_part address;
    closed = closed;
  })

-- `coil_value`
unfoldable pub coil_value : CoilWriteRequest → ℕ
coil_value r = if r.closed then coil_on else coil_off

pub record CoilWriteResponse : Type 0 where
  pub request_id : Text
  pub address : ℕ
  pub closed : Bool
  pub written_at : Datetime

-- `ModbusCoilWriteResponse(...)` with `__post_init__`
unfoldable pub coil_write_response :
    Text → ℕ → Bool → Datetime → Result WriteBoundaryError CoilWriteResponse
coil_write_response request_id address closed written_at = do
  raise_if (is_blank request_id) blank_identifier
  raise_if (if is_aware written_at then false else true) naive_datetime
  ok (record {
    request_id = request_id;
    address = address;
    closed = closed;
    written_at = written_at;
  })

-- What a call of `write_coil` may raise: its own error, or anything else.
pub data WriteFault : Type 0 where
  write_error : WriteError → WriteFault
  boundary : WriteBoundaryError → WriteFault
  other_fault : Text → WriteFault

-- `FakeModbusWriteTransport`, whose clock is a function of how often it was read.
pub record FakeWriteTransport : Type 0 where
  pub errors : Dict WriteError
  pub writes : List CoilWriteRequest
  pub ticks : ℕ

-- `FakeModbusWriteTransport.write_coil`
unfoldable pub fake_write_coil :
    (ℕ → Datetime) → CoilWriteRequest → Exec FakeWriteTransport WriteFault CoilWriteResponse
unfolding coil_write_response
fake_write_coil clock request s = elim (lookup request.target_id s.errors) [
  | some error ↦ (err (write_error error), s)
  | none ↦ (
    map_err boundary
        (coil_write_response request.request_id request.address request.closed (clock s.ticks)),
    record s { writes = s.writes ++ request ∷ []; ticks = s.ticks + 1 },
  )
]

-- the loop of `state_of`, over the writes with the newest first
last_written : Text → List CoilWriteRequest → Option Bool
last_written target_id [] = none
last_written target_id (w ∷ ws) =
    if w.target_id == target_id then some w.closed else last_written target_id ws

-- `FakeModbusWriteTransport.state_of`
unfoldable pub state_of : Text → FakeWriteTransport → Option Bool
unfolding last_written
state_of target_id s = last_written target_id (reverse s.writes)
