-- ===== src/Modbus/Fake.antt =====
-- `FakeModbusTransport` and `FakeModbusBitTransport` of modbus_transport.py.
use geopilot_hvac.Prelude.{
  Bool, none, some, List, [], ◌∷◌, ◌++◌, Text, Result, ok, err, if◌then◌else◌, eqb, length, Dict,
  lookup, insert,
}
use geopilot_hvac.Prelude.Results.{◌>>=◌}
use geopilot_hvac.Prelude.Exec.{Exec}
use geopilot_hvac.Modbus.Boundary.{
  BoundaryError, duplicate_fake, missing_request_id, TransportError, TransportFault,
  transport_error, illegal_address, invalid_response, ReadRequest, ReadResponse, BitReadRequest,
  BitReadResponse,
}

pub record FakeTransport (R : Type 0) : Type 0 where
  pub responses : Dict R
  pub errors : Dict TransportError
  pub read_request_ids : List Text

-- the loop over the responses of both constructors, on the id of a response
unfoldable pub add_responses :
    {R : Type 0} → (R → Text) → List R → Dict R → Result BoundaryError (Dict R)
add_responses id [] known = ok known
add_responses id (response ∷ responses) known =
    let rest = add_responses id responses (insert (id response) response known) in
    elim (lookup (id response) known) [ some _ ↦ err duplicate_fake | none ↦ rest ]

-- the loop over the errors; only `FakeModbusTransport` refuses a second error of one request
unfoldable pub add_errors :
    Bool → List TransportError → Dict TransportError → Result BoundaryError (Dict TransportError)
add_errors unique [] known = ok known
add_errors unique (error ∷ errors) known = elim error.request_id [
  | none ↦ err missing_request_id
  | some id ↦
      let rest = add_errors unique errors (insert id error known) in
      elim (lookup id known) [ some _ ↦ if unique then err duplicate_fake else rest | none ↦ rest ]
]

-- `FakeModbusTransport.read_registers`
unfoldable pub fake_read_registers :
    ReadRequest → Exec (FakeTransport ReadResponse) TransportFault ReadResponse
fake_read_registers request s =
    let id = request.request_id in
    let s' = record s { read_request_ids = s.read_request_ids ++ id ∷ [] } in
    elim (lookup id s.errors) [
      | some error ↦ (err (transport_error error), s')
      | none ↦ elim (lookup id s.responses) [
        | none ↦
            (err (transport_error (record { code = illegal_address; request_id = some id })), s')
        | some response ↦
            if eqb (length response.words) request.quantity then (ok response, s') else (
              err (transport_error (record { code = invalid_response; request_id = some id })),
              s',
            )
      ]
    ]

-- `FakeModbusBitTransport.read_bits`
unfoldable pub fake_read_bits :
    BitReadRequest → Exec (FakeTransport BitReadResponse) TransportFault BitReadResponse
fake_read_bits request s =
    let id = request.request_id in
    let s' = record s { read_request_ids = s.read_request_ids ++ id ∷ [] } in
    elim (lookup id s.errors) [
      | some error ↦ (err (transport_error error), s')
      | none ↦ elim (lookup id s.responses) [
        | none ↦
            (err (transport_error (record { code = invalid_response; request_id = some id })), s')
        | some response ↦ (ok response, s')
      ]
    ]

-- `FakeModbusTransport(...)` and `FakeModbusBitTransport(...)`
unfoldable pub fake_transport :
    {R : Type 0}
    → (R → Text)
    → Bool
    → List R
    → List TransportError
    → Result BoundaryError (FakeTransport R)
unfolding add_responses add_errors
fake_transport id unique responses errors = do
  by_response ← add_responses id responses []
  by_error ← add_errors unique errors []
  ok (record { responses = by_response; errors = by_error; read_request_ids = [] })
