-- ===== src/Control/Sqlite/Tests.antt =====
-- The SQLite journal on concrete records, and a relay that is operated under a used id.
use geopilot_hvac.Prelude.{refl, true, some, List, [], ◌∷◌, text, ◌==◌}
use geopilot_hvac.Datetime.{utc}
use geopilot_hvac.Modbus.Write.{FakeWriteTransport, fake_write_coil}
use geopilot_hvac.Control.Policy.{ControlTarget, ControlPolicy}
use geopilot_hvac.Control.Record.{CommandRequest, CommandRecord, refused, control_disabled}
use geopilot_hvac.Control.Guard.{State, execute, record_of}
use geopilot_hvac.Control.Sqlite.{has_command}
use geopilot_hvac.Control.Sqlite.AppendOnly.{IsGrown, append_all, append_all-IsGrown}
use geopilot_hvac.Control.Sqlite.Reused.{IsSwallowed, sqlite_service, execute-IsSwallowed}

abbrev pump : ControlTarget
pump = record {
  target_id = text "pump";
  unit_id = 1;
  address = 0;
  minimum_interval = 60000000;
  description = [];
}

abbrev policy : ControlPolicy
policy = record { enabled = true; targets = pump ∷ [] }

abbrev close_pump : CommandRequest
close_pump = record {
  command_id = text "a";
  target_id = text "pump";
  closed = true;
  reason = text "test";
}

-- the command was refused once
abbrev refusal : CommandRecord
refusal = record_of close_pump refused control_disabled (utc 0)

append_all-IsGrown_example : IsGrown [] (append_all (refusal ∷ refusal ∷ []) [])
append_all-IsGrown_example = append_all-IsGrown (refusal ∷ refusal ∷ []) [] tt

abbrev used : State (List CommandRecord) FakeWriteTransport
used = record {
  journal = refusal ∷ [];
  bus = record { errors = []; writes = []; ticks = 0 };
  last_applied = [];
  ticks = 0;
}

execute-IsSwallowed_example :
    IsSwallowed close_pump
      (utc 0)
      (refusal ∷ [])
      (execute (sqlite_service policy (some (fake_write_coil utc)) utc) close_pump used).1.journal
unfolding has_command ◌==◌
execute-IsSwallowed_example =
    execute-IsSwallowed policy (some (fake_write_coil utc)) utc close_pump used refl
