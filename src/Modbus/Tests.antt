-- ===== src/Modbus/Tests.antt =====
-- The transports on concrete ports.
use geopilot_hvac.Prelude.{
  ◌≡◌, ◌≢◌, refl, arith, true, none, [], ◌∷◌, ◌++◌, text, ok, length, take, drop,
}
use geopilot_hvac.Datetime.{Datetime, utc}
use geopilot_hvac.Modbus.Crc.{Bytes, calculate_crc, append_crc}
use geopilot_hvac.Modbus.Crc.Detect.{calculate_crc_detects, calculate_crc-append_crc}
use geopilot_hvac.Modbus.Boundary.{ReadRequest, ReadResponse, holding}
use geopilot_hvac.Modbus.Serial.{
  SerialPort, words_from_bytes, function_code, build_read_request_frame,
}
use geopilot_hvac.Prelude.{suc, leb}
use geopilot_hvac.Modbus.PortLock.{Host, PortLock}
use geopilot_hvac.Modbus.Serial.Exchange.{Received, exchange_ok}
use geopilot_hvac.Modbus.SerialWrite
use geopilot_hvac.Modbus.Serial
use geopilot_hvac.Modbus.Write.{CoilWriteRequest, CoilWriteResponse}
use geopilot_hvac.Modbus.SerialWrite.{build_write_coil_frame}
use geopilot_hvac.Modbus.SerialWrite.Echo.{
  Echoed, answered, exchange-Echoed, exchange_accepts, build_write_coil_frame_cancel,
}
use geopilot_hvac.Prelude.Strings.{is_blank}
use geopilot_hvac.Prelude.{◌*◌}
use geopilot_hvac.Prelude.{ap}
use geopilot_hvac.Modbus.SerialWrite.{check_response}
use geopilot_hvac.Modbus.Serial.{transact}
use geopilot_hvac.Modbus.SerialWrite.{echo_response}
use geopilot_hvac.Modbus.Serial.{read_payload}
use geopilot_hvac.Modbus.SerialWrite.{check_received}
use geopilot_hvac.Modbus.Serial.{data_response}
use geopilot_hvac.Modbus.Write.{coil_value}
use geopilot_hvac.Modbus.Serial.{check_read}
use geopilot_hvac.Modbus.Write.{coil_write_response}
use geopilot_hvac.Modbus.Boundary.{read_response}
use geopilot_hvac.Prelude.Strings.{◌==◌}
use geopilot_hvac.Modbus.Crc.{crc_from}
use geopilot_hvac.Modbus.Crc.{crc_byte}
use geopilot_hvac.Modbus.Crc.{crc_shifts}
use geopilot_hvac.Modbus.Crc.{crc_shift}
use geopilot_hvac.Prelude.{ℕ}

-- A port whose state is the input that is waiting: a write leaves the device's answer there.
abbrev device : (Bytes → Bytes) → SerialPort Bytes
device answer = record {
  write = λ frame waiting. (ok none, answer frame);
  read = λ size waiting. (ok (take size waiting), drop size waiting);
}

abbrev test_time : Datetime
test_time = utc 1700000000000000

-- a device that echoes
abbrev relay : SerialPort Bytes
relay = device (λ frame. frame)

abbrev close_first : CoilWriteRequest
close_first = record {
  request_id = text "w1";
  target_id = text "pump";
  unit_id = 1;
  address = 0;
  closed = true;
}

abbrev first_closed : CoilWriteResponse
first_closed = record { request_id = text "w1"; address = 0; closed = true; written_at = test_time }

relay_echoes : SerialWrite.exchange relay (λ _. test_time) close_first [] ≡ (ok first_closed, [])
unfolding SerialWrite.exchange check_response echo_response SerialWrite.require_valid_crc
    check_received SerialWrite.check_written build_write_coil_frame coil_value coil_write_response
    is_blank ◌==◌ append_crc calculate_crc crc_from crc_byte crc_shifts crc_shift
relay_echoes = refl

close_first-Echoed : Echoed relay close_first []
unfolding build_write_coil_frame append_crc
close_first-Echoed = record { sent = tt; received = refl }

exchange-Echoed_example :
    Echoed relay close_first []
    × (first_closed.address ≡ close_first.address)
    × (first_closed.closed ≡ close_first.closed)
exchange-Echoed_example =
    exchange-Echoed relay (λ _. test_time) close_first first_closed [] (ap (λ r. r.0) relay_echoes)

exchange_accepts_example :
    SerialWrite.exchange relay (λ _. test_time) close_first []
    ≡ (ok first_closed, answered relay close_first [])
unfolding is_blank
exchange_accepts_example =
    exchange_accepts relay (λ _. test_time) close_first [] (omega arith) refl refl
      close_first-Echoed

build_write_coil_frame_cancel_example :
    (close_first.unit_id ≡ close_first.unit_id)
    × (close_first.address ≡ close_first.address)
    × (close_first.closed ≡ close_first.closed)
build_write_coil_frame_cancel_example =
    build_write_coil_frame_cancel close_first close_first (omega arith) (omega arith) (omega arith)
      (omega arith) refl

-- a meter that answers with two registers
abbrev meter : SerialPort Bytes
meter = device (λ _. append_crc (0x01 ∷ 0x03 ∷ 0x04 ∷ 0x12 ∷ 0x34 ∷ 0x00 ∷ 0x07 ∷ []))

abbrev read_two : ReadRequest
read_two = record {
  request_id = text "r1";
  source_id = text "modbus";
  unit_id = 1;
  register_kind = holding;
  address = 0;
  quantity = 2;
}

abbrev two_words : ReadResponse
two_words = record { request_id = text "r1"; words = 0x1234 ∷ 0x0007 ∷ []; observed_at = test_time }

meter_answers : (Serial.exchange meter (λ _. test_time) read_two []).0 ≡ ok two_words
unfolding Serial.exchange transact read_payload data_response Serial.require_valid_crc check_read
    Serial.check_written build_read_request_frame function_code words_from_bytes read_response
    is_blank append_crc calculate_crc crc_from crc_byte crc_shifts crc_shift
meter_answers = refl

exchange_ok_example :
    (data' : Bytes) × (two_words.words ≡ words_from_bytes data')
    × (length two_words.words ≡ read_two.quantity)
    × Received meter 1
        (function_code holding)
        (build_read_request_frame read_two)
        (read_two.quantity * 2)
        data'
        []
exchange_ok_example = exchange_ok meter (λ _. test_time) read_two two_words [] meter_answers

calculate_crc_detects_example :
    calculate_crc ((0x01 ∷ []) ++ 0x03 ∷ 0x00 ∷ [])
    ≢ calculate_crc ((0x01 ∷ []) ++ 0x04 ∷ 0x00 ∷ [])
calculate_crc_detects_example =
    calculate_crc_detects (0x01 ∷ []) (0x00 ∷ []) 0x03 0x04 (omega arith, tt) (omega arith, tt)
      (omega arith) (omega arith) (λ e. absurd (omega (arith, e)))

calculate_crc-append_crc_example : calculate_crc (append_crc (0x01 ∷ 0x03 ∷ [])) ≡ 0
calculate_crc-append_crc_example =
    calculate_crc-append_crc (0x01 ∷ 0x03 ∷ []) (omega arith, (omega arith, tt))

-- a host whose other process gives the port back at time 3, and whose sleeps last 1
abbrev busy_host : Host ℕ
busy_host = record {
  flock = λ now. (leb 3 now, now);
  monotonic = λ now. now;
  sleep = λ now. suc now;
}

abbrev patient_lock : PortLock
patient_lock = record { timeout = 5; active = true }
