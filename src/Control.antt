-- ===== src/Control.antt =====
-- backend/src/geopilot/control.py: the command guard that every relay command passes through.
--
-- Exceptions are values of `Fault`; their message texts are not kept. A duration is a whole number
-- of microseconds, as `timedelta` keeps it. The clock is a function of how often it was read; the
-- transport is a function on the state of the bus, and the journal is an interface (`Journal`).
mod Policy
mod Record
pub mod Guard
pub mod Memory
pub mod Sqlite
pub mod Tests
unfoldable pub use Policy.*
pub use Record.*
