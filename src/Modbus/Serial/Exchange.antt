-- ===== src/Modbus/Serial/Exchange.antt =====
-- What an accepted answer looks like, whatever the serial port does.
use geopilot_hvac.Prelude.{
  ℕ, zero, suc, ◌+◌, ◌*◌, ◌≡◌, refl, arith, List, [], ◌∷◌, ◌++◌, Text, ok, eqb, length, take,
  Bool-cases, eqb_iff, ap, sym, ◌∙◌, if◌then◌else◌, get_or, bit_or,
}
use geopilot_hvac.Prelude.Exec.{bind_ok}
use geopilot_hvac.Modbus.Crc.{Bytes}
use geopilot_hvac.Modbus.Serial.{
  SerialPort, require_valid_crc, read_exact, read_payload, transact, send, fail,
}
use geopilot_hvac.Modbus.Boundary.{invalid_response}
use geopilot_hvac.Modbus.Serial.{exception_response}
use geopilot_hvac.Modbus.Serial.{data_response}
use geopilot_hvac.Prelude.{subst}
use geopilot_hvac.Prelude.{inl}
use geopilot_hvac.Prelude.{not, subst₂}
use geopilot_hvac.Prelude.{inr}
use geopilot_hvac.Prelude.Exec.{lift}
use geopilot_hvac.Modbus.Serial.{words_from_bytes}
use geopilot_hvac.Modbus.Serial.{exchange}
use geopilot_hvac.Modbus.Boundary.{read_response}
use geopilot_hvac.Modbus.Serial.{Datetime}
use geopilot_hvac.Modbus.Boundary.{ReadResponse}
use geopilot_hvac.Modbus.Boundary.{ReadRequest}
use geopilot_hvac.Modbus.Serial.{map_err}
use geopilot_hvac.Modbus.Serial.{function_code}
use geopilot_hvac.Modbus.Serial.{build_read_request_frame}
use geopilot_hvac.Modbus.Boundary.{boundary}
use geopilot_hvac.Modbus.Serial.Frame.{IsAnswer, check_read_ok, split_two, accepted}

pub length-words_from_bytes :
    (n : ℕ) (bytes : Bytes) → length bytes ≡ n * 2 → length (words_from_bytes bytes) ≡ n
unfolding words_from_bytes
length-words_from_bytes zero [] h = refl
length-words_from_bytes zero (a ∷ bytes) h = absurd (omega arith)
length-words_from_bytes (suc n) [] h = absurd (omega arith)
length-words_from_bytes (suc n) (a ∷ []) h = absurd (omega arith)
length-words_from_bytes (suc n) (a ∷ b ∷ bytes) h =
    ap suc (length-words_from_bytes n bytes (omega arith))

read_response_words :
    (id : Text) (words : List ℕ) (now : Datetime) {response : ReadResponse}
    → map_err boundary (read_response id words now) ≡ ok response
    → response.words ≡ words
unfolding read_response
read_response_words id words now h = ground arith

module _ {P : Type 0} (port : SerialPort P) where
  exception_response-ne_ok :
      (id : Text) (exception_code : ℕ) (header data' : Bytes) (p : P)
      → (exception_response port id exception_code header p).0 ≡ ok data'
      → ⊥
  unfolding exception_response
  exception_response-ne_ok id exception_code header data' p h =
      let (crc_bytes, _, rest) = bind_ok _ (read_exact port id 2 p) h in
      let (_, _, last) =
        bind_ok {A = Unit} _ (require_valid_crc id (header ++ crc_bytes), _) rest in
      cc last

  data_response_ok :
      (id : Text) (u f n : ℕ) (data' : Bytes) (p : P)
      → (data_response port id n (u ∷ f ∷ n ∷ []) p).0 ≡ ok data'
      → IsAnswer u f n data' (port.read (n + 2) p).0
  unfolding data_response
  data_response_ok id u f n data' p h =
      let (payload, e, rest) = bind_ok _ (read_exact port id (n + 2) p) h in
      let (_, valid, last) =
        bind_ok {A = Unit} _ (require_valid_crc id ((u ∷ f ∷ n ∷ []) ++ payload), _) rest in
      let (long, brought) = check_read_ok id (n + 2) (port.read (n + 2) p).0 e in
      let (a, b, shape, size) = split_two n payload long in
      let answer =
        accepted id u f n (take n payload) a b size (brought ∙ ap ok shape)
          (ap (λ (t : Bytes). require_valid_crc id (u ∷ f ∷ n ∷ t)) (sym shape) ∙ valid) in
      subst (λ (t : Bytes). IsAnswer u f n t (port.read (n + 2) p).0) (cc last) answer

  read_payload_ok :
      (id : Text) (code expected u f n : ℕ) (data' : Bytes) (p : P)
      → (read_payload port id code expected (u ∷ f ∷ n ∷ []) p).0 ≡ ok data'
      → (f ≡ code) × (n ≡ expected) × IsAnswer u code expected data' (port.read (expected + 2) p).0
  unfolding read_payload
  read_payload_ok id code expected u f n data' p h = elim (Bool-cases (eqb f (bit_or code 0x80))) [
    | inl exception ↦
        absurd (
          exception_response-ne_ok id n (u ∷ f ∷ n ∷ []) data' p
            (rw (exception, read_payload) at h))
    | inr plain ↦ elim (Bool-cases (eqb f code)) [
      | inr foreign ↦ let bad = rw (plain, foreign, read_payload) at h in cc bad
      | inl same ↦ elim (Bool-cases (eqb n expected)) [
        | inr other ↦ let bad = rw (plain, same, other, read_payload) at h in cc bad
        | inl agrees ↦
            let e : f ≡ code = (eqb_iff f code).0 same in
            let e' : n ≡ expected = (eqb_iff n expected).0 agrees in
            (
              e,
              e',
              subst₂ (λ x y. IsAnswer u x y data' (port.read (y + 2) p).0) e e'
                  (data_response_ok id u f n data' p (rw (plain, same, agrees, read_payload) at h)),
            )
      ]
    ]
  ]

  -- What the two reads of an accepted answer brought.
  pub record Received (unit code : ℕ) (frame : Bytes) (expected : ℕ) (data' : Bytes) (p : P)
      : Type 0 where
    pub header : (port.read 3 (port.write frame p).1).0 ≡ ok (unit ∷ code ∷ expected ∷ [])
    pub answer :
        IsAnswer unit code expected data'
          (port.read (expected + 2) (port.read 3 (port.write frame p).1).1).0

  header_ok :
      (id : Text) (unit code expected : ℕ) (header data' : Bytes) (p : P)
      → length header ≡ 3
      → ((if not (eqb (get_or header 0 0) unit)
            then lift (fail invalid_response id)
            else read_payload port id code expected header)
          p).0
        ≡ ok data'
      → (header ≡ unit ∷ code ∷ expected ∷ [])
        × IsAnswer unit code expected data' (port.read (expected + 2) p).0
  header_ok id unit code expected (u ∷ f ∷ n ∷ []) data' p size h = elim (Bool-cases (eqb u unit)) [
    | inr foreign ↦ let bad = rw foreign at h in cc bad
    | inl same ↦
        let e : u ≡ unit = (eqb_iff u unit).0 same in
        let (ef, en, answer) = read_payload_ok id code expected u f n data' p (rw same at h) in
        (
          cc (e, ef, en),
          subst (λ x. IsAnswer x code expected data' (port.read (expected + 2) p).0) e answer,
        )
  ]
  header_ok id unit code expected header data' p size h = absurd (omega arith)

  -- Whatever the port does, data is returned only from an answer to this request.
  pub transact_ok :
      (id : Text) (unit code : ℕ) (frame : Bytes) (expected : ℕ) (data' : Bytes) (p : P)
      → (transact port id unit code frame expected p).0 ≡ ok data'
      → Received unit code frame expected data' p
  unfolding transact
  transact_ok id unit code frame expected data' p h =
      let (_, _, sent) = bind_ok {A = Unit} _ (send port id frame p) h in
      let (header, e, rest) = bind_ok _ (read_exact port id 3 (send port id frame p).1) sent in
      let (size, brought) = check_read_ok id 3 _ e in
      let (shape, answer) = header_ok id unit code expected header data' _ size rest in
      record { header = brought ∙ ap ok shape; answer = answer }

  -- Whatever the serial port does, a register response that is returned holds exactly as many
  -- words as were requested, decoded from the data bytes of an answer whose header names the
  -- requested unit, the requested function and the expected byte count, and whose checksum is that
  -- of the answer.
  pub exchange_ok :
      (now : P → Datetime) (request : ReadRequest) (response : ReadResponse) (p : P)
      → (exchange port now request p).0 ≡ ok response
      → (data' : Bytes) × (response.words ≡ words_from_bytes data')
        × (length response.words ≡ request.quantity)
        × Received request.unit_id
            (function_code request.register_kind)
            (build_read_request_frame request)
            (request.quantity * 2)
            data'
            p
  unfolding exchange
  exchange_ok now request response p h =
      let (data', e, rest) =
        bind_ok _
          (transact port request.request_id request.unit_id (function_code request.register_kind)
            (build_read_request_frame request) (request.quantity * 2) p)
          h in
      let received = transact_ok request.request_id request.unit_id _ _ _ data' p e in
      let words : response.words ≡ words_from_bytes data' =
        read_response_words request.request_id _ _ rest in
      (
        data',
        words,
        ap length words ∙ length-words_from_bytes request.quantity data' received.answer.size,
        received,
      )
