-- ===== src/Modbus/SerialWrite/Echo.antt =====
-- A coil write succeeds exactly on the echo of its own frame.
use geopilot_hvac.Prelude.{
  ℕ, ◌<◌, ◌≡◌, refl, arith, Bool, Option, none, some, true, false, [], ◌∷◌, Text, Result, ok, err,
  eqb, length, Bool-cases, eqb_iff, ap,
}
use geopilot_hvac.Prelude.{inl, inr, eq_iff, ◌==◌, ◌&&◌, get_or, bit_or, if◌then◌else◌, ◌/◌, ◌%◌}
use geopilot_hvac.Prelude.Exec.{bind_ok}
use geopilot_hvac.Modbus.Crc.{Bytes, calculate_crc, append_crc, little_word}
use geopilot_hvac.Modbus.Write.{CoilWriteRequest, coil_value, coil_on, coil_off, write_single_coil}
use geopilot_hvac.Modbus.SerialWrite.{
  build_write_coil_frame, check_response, exception_response, echo_response, require_valid_crc,
  response_length,
}
use geopilot_hvac.Modbus.SerialWrite.{coil_body}
use geopilot_hvac.Modbus.Crc.Detect.{calculate_crc-lt_word}
use geopilot_hvac.Modbus.SerialWrite.{check_received}
use geopilot_hvac.Modbus.SerialWrite.{exchange}
use geopilot_hvac.Modbus.SerialWrite.{check_written}
use geopilot_hvac.Modbus.SerialWrite.{send}
use geopilot_hvac.Modbus.SerialWrite.{receive}
use geopilot_hvac.Modbus.Write.{coil_write_response}
use geopilot_hvac.Modbus.Serial.{SerialPort}
use geopilot_hvac.Datetime.{Datetime}
use geopilot_hvac.Prelude.Strings.{is_blank}
use geopilot_hvac.Modbus.Write.{CoilWriteResponse}
use geopilot_hvac.Prelude.{◌∙◌}
use geopilot_hvac.Prelude.{map_err}
use geopilot_hvac.Datetime.{is_aware}
use geopilot_hvac.Modbus.SerialWrite.{boundary}
use geopilot_hvac.Prelude.Exec.{bind_then}
use geopilot_hvac.Modbus.Write.{WriteBoundaryError}

-- the high byte of the value tells the state
coil_value_cancel :
    (b c : Bool)
    → (if b then coil_on else coil_off) / 256 % 256 ≡ (if c then coil_on else coil_off) / 256 % 256
    → b ≡ c
coil_value_cancel true true h = refl
coil_value_cancel true false h = absurd (omega arith)
coil_value_cancel false true h = absurd (omega arith)
coil_value_cancel false false h = refl

-- Two coil writes whose unit and address are in range have the same frame only if they name the
-- same unit, the same coil and the same state.
pub build_write_coil_frame_cancel :
    (r s : CoilWriteRequest)
    → r.unit_id < 256
    → s.unit_id < 256
    → r.address < 65536
    → s.address < 65536
    → build_write_coil_frame r ≡ build_write_coil_frame s
    → (r.unit_id ≡ s.unit_id) × (r.address ≡ s.address) × (r.closed ≡ s.closed)
unfolding build_write_coil_frame append_crc coil_value
build_write_coil_frame_cancel r s hr hs h k e =
    let unit : r.unit_id ≡ s.unit_id = cc e in
    let high : r.address / 256 % 256 ≡ s.address / 256 % 256 = cc e in
    let low : r.address % 256 ≡ s.address % 256 = cc e in
    (unit, omega (arith, high, low, h, k), coil_value_cancel r.closed s.closed (cc e))

-- an answer that is accepted is the frame
check_response_ok :
    {P : Type 0} (id : Text) (frame response : Bytes) (p : P)
    → (check_response id frame response p).0 ≡ ok tt
    → response ≡ frame
unfolding check_response exception_response echo_response
check_response_ok id frame response p h =
    elim (Bool-cases
      (eqb (length response) 5 && eqb (get_or response 1 0) (bit_or write_single_coil 0x80))) [
        | inl exception ↦
            let (_, _, last) =
              bind_ok {A = Unit} _ (require_valid_crc id response, p)
                (rw (exception, check_response) at h) in
            cc last
        | inr plain ↦ elim (Bool-cases (eqb (length response) response_length)) [
          | inr short ↦ let bad = rw (plain, short, check_response) at h in cc bad
          | inl full ↦
              let (_, _, last) =
                bind_ok {A = Unit} _ (require_valid_crc id response, p)
                  (rw (plain, full, check_response) at h) in
              elim (Bool-cases (response == frame)) [
                | inr other ↦ let bad = rw other at last in cc bad
                | inl same ↦ (eq_iff response frame).0 same
              ]
        ]
      ]

-- The test of the checksum passes on a frame that carries its own.
require_valid_crc-append_crc :
    (id : Text) (unit address value : ℕ)
    → unit < 256
    → require_valid_crc id (append_crc (coil_body unit address value)) ≡ ok tt
unfolding require_valid_crc append_crc
require_valid_crc-append_crc id unit address value h =
    let body : Bytes = coil_body unit address value in
    let word : calculate_crc body < 65536 =
      calculate_crc-lt_word body
        (h, (omega arith, (omega arith, (omega arith, (omega arith, (omega arith, tt)))))) in
    let same : eqb (calculate_crc body)
          (little_word (calculate_crc body % 256) (calculate_crc body / 256 % 256))
        ≡ true =
      (eqb_iff _ _).1 (omega (arith, word)) in
    rw same refl

-- A frame of the full length with a valid checksum passes the tests as its own answer.
check_response_echo :
    {P : Type 0} (id : Text) (frame : Bytes) (p : P)
    → length frame ≡ 8
    → require_valid_crc id frame ≡ ok tt
    → check_response id frame frame p ≡ (ok tt, p)
unfolding check_response echo_response
check_response_echo id frame p size valid =
    let same : (frame == frame) ≡ true = (eq_iff frame frame).1 refl in rw (size, valid, same) refl

-- The frame of a request in range is such a frame.
build_write_coil_frame-passes :
    {P : Type 0} (id : Text) (request : CoilWriteRequest) (p : P)
    → request.unit_id < 256
    → check_response id (build_write_coil_frame request) (build_write_coil_frame request) p
      ≡ (ok tt, p)
unfolding build_write_coil_frame append_crc
build_write_coil_frame-passes id request p h =
    check_response_echo id (build_write_coil_frame request) p refl
      (require_valid_crc-append_crc id request.unit_id request.address (coil_value request) h)

check_received_ok :
    (id : Text) (r : Result Text Bytes) {bytes : Bytes}
    → check_received id r ≡ ok bytes
    → r ≡ ok bytes
unfolding check_received
check_received_ok id (err _) h = cc
check_received_ok id (ok []) h = cc
check_received_ok id (ok (b ∷ bs)) h = ground arith

coil_write_response_fields :
    (id : Text) (address : ℕ) (closed : Bool) (at : Datetime) {response : CoilWriteResponse}
    → map_err boundary (coil_write_response id address closed at) ≡ ok response
    → (response.address ≡ address) × (response.closed ≡ closed)
unfolding coil_write_response
coil_write_response_fields id address closed at h = ground arith

check_received_frame :
    (id : Text) (request : CoilWriteRequest)
    → check_received id (ok (build_write_coil_frame request)) ≡ ok (build_write_coil_frame request)
unfolding check_received build_write_coil_frame append_crc
check_received_frame id request = refl

coil_write_response-returns :
    (id : Text) (address : ℕ) (closed : Bool) (at : Datetime)
    → is_blank id ≡ false
    → is_aware at ≡ true
    → coil_write_response id address closed at
      ≡ ok (record { request_id = id; address = address; closed = closed; written_at = at })
unfolding coil_write_response
coil_write_response-returns id address closed at named aware = rw (named, aware) refl

-- The write did not raise, and the count that it returned, if any, is the frame's length.
abbrev pub IsTaken : Bytes → Result Text (Option ℕ) → Type 0
IsTaken frame (err _) = ⊥
IsTaken frame (ok none) = Unit
IsTaken frame (ok (some written)) = written ≡ length frame

check_written_ok :
    (id : Text) (frame : Bytes) (r : Result Text (Option ℕ))
    → check_written id frame r ≡ ok tt
    → IsTaken frame r
unfolding check_written
check_written_ok id frame (err _) h = cc h
check_written_ok id frame (ok none) h = tt
check_written_ok id frame (ok (some written)) h = ground (arith, eqb_iff written (length frame))

check_written_taken :
    (id : Text) (frame : Bytes) (r : Result Text (Option ℕ))
    → IsTaken frame r
    → check_written id frame r ≡ ok tt
unfolding check_written
check_written_taken id frame (err _) h = absurd h
check_written_taken id frame (ok none) h = refl
check_written_taken id frame (ok (some written)) h =
    let e : eqb written (length frame) ≡ true = (eqb_iff written (length frame)).1 h in rw e refl

module _ {P : Type 0} (port : SerialPort P) where
  -- the state of the port when the answer has been read
  abbrev pub answered : CoilWriteRequest → P → P
  answered request p =
      (port.read response_length (port.write (build_write_coil_frame request) p).1).1

  -- The write did not raise and counted no other number of bytes than the frame's, and the read
  -- brought the same bytes back.
  pub record Echoed (request : CoilWriteRequest) (p : P) : Type 0 where
    pub sent :
        IsTaken (build_write_coil_frame request) (port.write (build_write_coil_frame request) p).0
    pub received :
        (port.read response_length (port.write (build_write_coil_frame request) p).1).0
        ≡ ok (build_write_coil_frame request)

  -- Whatever the serial port does, where a coil write returns, the port's write did not raise, the
  -- count that it returned, if it returned one, is the length of the whole frame, and the port's
  -- answer was the same bytes; the response names the coil and the state of the request.
  pub exchange-Echoed :
      (now : P → Datetime) (request : CoilWriteRequest) (response : CoilWriteResponse) (p : P)
      → (exchange port now request p).0 ≡ ok response
      → Echoed request p × (response.address ≡ request.address) × (response.closed ≡ request.closed)
  unfolding exchange
  exchange-Echoed now request response p h =
      let id = request.request_id in
      let frame = build_write_coil_frame request in
      let (_, sent, rest) = bind_ok {A = Unit} _ (send port id frame p) h in
      let (bytes, read, rest') = bind_ok _ (receive port id (send port id frame p).1) rest in
      let (_, tests, last) =
        bind_ok {A = Unit} _
          (check_response id frame bytes (receive port id (send port id frame p).1).1) rest' in
      let (address, closed) = coil_write_response_fields id _ _ _ last in
      (
        record {
          sent = check_written_ok id frame (port.write frame p).0 sent;
          received = check_received_ok id _ read ∙ ap ok (check_response_ok id frame bytes _ tests);
        },
        address,
        closed,
      )

  -- A coil write whose frame was taken and echoed returns, for a request whose unit is a byte and
  -- whose identifier is not blank, and with an aware clock; the response carries the fields of the
  -- request and the clock's time.
  pub exchange_accepts :
      (now : P → Datetime) (request : CoilWriteRequest) (p : P)
      → request.unit_id < 256
      → is_blank request.request_id ≡ false
      → is_aware (now (answered request p)) ≡ true
      → Echoed request p
      → exchange port now request p ≡ (
        ok (record {
          request_id = request.request_id;
          address = request.address;
          closed = request.closed;
          written_at = now (answered request p);
        }),
        answered request p,
      )
  unfolding exchange
  exchange_accepts now request p range named aware echoed =
      let id = request.request_id in
      let frame = build_write_coil_frame request in
      let read : (receive port id (send port id frame p).1).0 ≡ ok frame =
        ap (check_received id) echoed.received ∙ check_received_frame id request in
      let passed = build_write_coil_frame-passes id request (answered request p) range in
      let last =
        coil_write_response-returns id request.address request.closed (now (answered request p))
          named aware in
      let sent = check_written_taken id frame (port.write frame p).0 echoed.sent in
      bind_then {A = Unit} _ (send port id frame p) sent
      ∙ bind_then _ (receive port id (send port id frame p).1) read
      ∙ rw passed (
          ap
            (λ (r : Result WriteBoundaryError CoilWriteResponse).
              (map_err boundary r, answered request p))
            last)
