-- ===== src/Control/Memory.antt =====
-- `InMemoryCommandJournal`: the records in order, and the service that writes to it.
pub mod Trail
pub mod Audit
pub mod Restart
pub mod Alike
pub mod Transparent
use geopilot_hvac.Prelude.{
  ℕ, Bool, ◌&&◌, Option, none, some, List, [], ◌∷◌, ◌++◌, reverse, Text, ◌==◌, ok, if◌then◌else◌,
}
use geopilot_hvac.Prelude.Exec.{Exec}
use geopilot_hvac.Datetime.{Datetime}
use geopilot_hvac.Modbus.Write.{CoilWriteRequest, CoilWriteResponse, WriteFault}
use geopilot_hvac.Control.Policy.{ControlPolicy}
use geopilot_hvac.Control.Record.{CommandRecord, is_applied}
use geopilot_hvac.Control.Guard.{Journal, ControlService}

abbrev pub Records : Type 0
Records = List CommandRecord

-- the loop of `last_applied_at`, over the records with the newest first
unfoldable pub newest_applied : Text → Records → Option Datetime
newest_applied target_id [] = none
newest_applied target_id (record' ∷ records) =
    if record'.target_id == target_id && is_applied record'.status
    then some record'.decided_at
    else newest_applied target_id records

-- `InMemoryCommandJournal.last_applied_at`
unfoldable pub last_applied_at : Text → Records → Option Datetime
unfolding newest_applied
last_applied_at target_id records = newest_applied target_id (reverse records)

abbrev pub memory_journal : Journal Records
memory_journal = record {
  append = λ r records. (ok tt, records ++ r ∷ []);
  last_applied_at = some (λ target_id records. (ok (last_applied_at target_id records), records));
}

-- `ControlService(policy, transport, clock=clock)`, whose journal defaults to a memory journal
abbrev pub memory_service :
    {B : Type 0}
    → ControlPolicy
    → Option (CoilWriteRequest → Exec B WriteFault CoilWriteResponse)
    → (ℕ → Datetime)
    → ControlService Records B
memory_service policy write_coil clock = record {
  policy = policy;
  write_coil = write_coil;
  journal = memory_journal;
  clock = clock;
}
