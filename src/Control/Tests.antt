-- ===== src/Control/Tests.antt =====
-- The command guard on concrete commands: one relay, a memory journal and the fake transport.
use geopilot_hvac.Prelude.{
  ℕ, ◌+◌, length, ◌*◌, ◌≡◌, refl, true, some, List, [], ◌∷◌, pos, Text, text, lookup,
}
use geopilot_hvac.Datetime.{Datetime}
use geopilot_hvac.Modbus.Write.{FakeWriteTransport, fake_write_coil}
use geopilot_hvac.Control.Policy.{ControlTarget, ControlPolicy, find_target}
use geopilot_hvac.Control.Record.{CommandRequest}
use geopilot_hvac.Control.Guard.{ControlService, State, execute, execute_all}
use geopilot_hvac.Control.Guard.RateLimit.{IsSpaced, add_time, operated_times, execute_all-IsSpaced}
use geopilot_hvac.Control.Guard.Observed.{logging, count}
use geopilot_hvac.Control.Memory.{Records, memory_service}
use geopilot_hvac.Control.Memory.Restart.{IsSame, restarted}
use geopilot_hvac.Control.Memory.Transparent.{execute_all-IsSame}
use geopilot_hvac.Control.Memory.Audit.{Audited, execute_audit}
use geopilot_hvac.Control.Guard.{targeted}
use geopilot_hvac.Control.Guard.{permitted}
use geopilot_hvac.Control.Guard.{limited}
use geopilot_hvac.Control.Guard.{issue}
use geopilot_hvac.Control.Guard.{send}
use geopilot_hvac.Control.Guard.{conclude}
use geopilot_hvac.Prelude.Strings.{◌==◌}
use geopilot_hvac.Control.Guard.{remember}
use geopilot_hvac.Control.Guard.{recalled}
use geopilot_hvac.Control.Guard.{remaining}
use geopilot_hvac.Prelude.Dicts.{insert}
use geopilot_hvac.Modbus.Write.{coil_write_request}
use geopilot_hvac.Modbus.Write.{coil_write_response}
use geopilot_hvac.Control.Memory.{last_applied_at}
use geopilot_hvac.Control.Memory.{newest_applied}
use geopilot_hvac.Prelude.Strings.{is_blank}
use geopilot_hvac.Prelude.Int.{◌-ℤ◌}
use geopilot_hvac.Datetime.{elapsed}

-- a relay that may be operated once a minute
abbrev pump : ControlTarget
pump = record {
  target_id = text "pump";
  unit_id = 1;
  address = 0;
  minimum_interval = 60000000;
  description = text "circulator";
}

abbrev pump_policy : ControlPolicy
pump_policy = record { enabled = true; targets = pump ∷ [] }

-- a clock that moves on by 45 seconds with every reading
abbrev test_clock : ℕ → Datetime
test_clock n = record { instant = pos (n * 45000000); offset = some (pos 0) }

abbrev pump_service : ControlService Records FakeWriteTransport
pump_service = memory_service pump_policy (some (fake_write_coil test_clock)) test_clock

abbrev fresh : State Records FakeWriteTransport
fresh = record {
  journal = [];
  bus = record { errors = []; writes = []; ticks = 0 };
  last_applied = [];
  ticks = 0;
}

abbrev switch : Text → CommandRequest
switch id = record { command_id = id; target_id = text "pump"; closed = true; reason = text "test" }

abbrev three_commands : List CommandRequest
three_commands = switch (text "a") ∷ switch (text "b") ∷ switch (text "c") ∷ []

-- the same on a bus whose writes are logged
abbrev watched : State Records (FakeWriteTransport × List Text)
watched = record { journal = []; bus = (fresh.bus, []); last_applied = []; ticks = 0 }

-- Of three commands, 45 seconds apart, the first and the last operate the relay.
three_operated :
    operated_times pump_service (text "pump") three_commands watched
    ≡ test_clock 0 ∷ test_clock 2 ∷ []
unfolding execute_all execute targeted permitted limited issue send conclude remember recalled
    remaining find_target lookup insert coil_write_request coil_write_response fake_write_coil
    last_applied_at newest_applied ◌==◌ is_blank ◌-ℤ◌ elapsed
three_operated = refl

execute_all-IsSpaced_example :
    let times = operated_times pump_service (text "pump") three_commands watched in
    IsSpaced 60000000 (add_time (lookup (text "pump") watched.last_applied) times)
    × (length times + count (text "pump") []
        ≡ count (text "pump") (execute_all (logging pump_service) three_commands watched).1.bus.1)
unfolding find_target ◌==◌
execute_all-IsSpaced_example =
    execute_all-IsSpaced pump_service three_commands (text "pump") pump watched refl

execute_audit_example :
    Audited pump_policy
      (some (fake_write_coil test_clock))
      test_clock
      (switch (text "a"))
      fresh
      (execute pump_service (switch (text "a")) fresh)
execute_audit_example =
    execute_audit pump_policy (some (fake_write_coil test_clock)) test_clock (switch (text "a"))
      fresh

execute_all-IsSame_example :
    let s = (execute_all pump_service three_commands fresh).1 in
    IsSame
      (execute_all pump_service three_commands s)
      (execute_all pump_service three_commands (restarted s))
execute_all-IsSame_example =
    execute_all-IsSame pump_policy (some (fake_write_coil test_clock)) test_clock three_commands
      three_commands (record { errors = []; writes = []; ticks = 0 }) 0
