-- ===== src/Control/Record.antt =====
-- Commands, and the audit records that are kept of them.
use geopilot_hvac.Prelude.{Bool, true, false, ℤ, Text, is_blank, Result, ok}
use geopilot_hvac.Datetime.{Datetime}
use geopilot_hvac.Prelude.Results.{◌>>◌, raise_if}
use geopilot_hvac.Control.Policy.{ConfigurationError, blank_field}
use geopilot_hvac.Modbus.Write.{WriteErrorCode}

pub data CommandStatus : Type 0 where
  issued applied refused failed : CommandStatus

-- `record.status is CommandStatus.APPLIED`
abbrev pub is_applied : CommandStatus → Bool
is_applied applied = true
is_applied _ = false

-- The `detail` of a record: a `RefusalCode`, or one of the texts of `_execute` with what it shows.
pub data Detail : Type 0 where
  control_disabled unknown_target : Detail
  rate_limited : ℤ → Detail
  no_transport write_issued empty_detail : Detail
  write_failed : WriteErrorCode → Detail

pub record CommandRequest : Type 0 where
  pub command_id : Text
  pub target_id : Text
  pub closed : Bool
  pub reason : Text

-- `CommandRequest(...)` with `__post_init__`
unfoldable pub command_request :
    Text → Text → Bool → Text → Result ConfigurationError CommandRequest
command_request command_id target_id closed reason = do
  raise_if (is_blank command_id) blank_field
  raise_if (is_blank target_id) blank_field
  raise_if (is_blank reason) blank_field
  ok (record { command_id = command_id; target_id = target_id; closed = closed; reason = reason })

pub record CommandRecord : Type 0 where
  pub command_id : Text
  pub target_id : Text
  pub closed : Bool
  pub reason : Text
  pub status : CommandStatus
  pub detail : Detail
  pub decided_at : Datetime
