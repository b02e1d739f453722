-- ===== src/Modbus/PortLock.antt =====
-- How backend/src/geopilot/port_lock.py takes the advisory lock of a port: `PortLock.hold` up to its
-- `yield`. `flock`, the clock and `sleep` are the operating system's, so they are parameters.
pub mod Waiting
use geopilot_hvac.Prelude.{
  ℕ, zero, suc, ◌+◌, Bool, true, false, Option, none, some, Result, ok, err, leb, if◌then◌else◌,
}

-- `PortBusyError`
pub data PortBusyError : Type 0 where
  port_busy : PortBusyError

-- What the process asks of its host, whose state is `P`: one attempt at the lock, and whether it
-- succeeded; the monotonic clock; a sleep of `RETRY_SECONDS`. Times are in the clock's own unit.
pub record Host (P : Type 0) : Type 0 where
  pub flock : P → Bool × P
  pub monotonic : P → ℕ
  pub sleep : P → P

-- `PortLock`: its timeout, and `active`, whether there is a lock file to coordinate on
pub record PortLock : Type 0 where
  pub timeout : ℕ
  pub active : Bool

module _ {P : Type 0} (host : Host P) where
  -- The loop of `hold`, at most `fuel` attempts; `none` is out of fuel.
  unfoldable pub wait : ℕ → ℕ → P → Option (Result PortBusyError Bool × P)
  wait zero deadline p = none
  wait (suc fuel) deadline p =
      let (obtained, p') = host.flock p in
      let rest = wait fuel deadline (host.sleep p') in
      if obtained
      then some (ok true, p')
      else if leb deadline (host.monotonic p')
      then some (err port_busy, p')
      else rest

  -- `hold` up to the `yield`: what it yields, or the error it raises
  unfoldable pub acquire : PortLock → ℕ → P → Option (Result PortBusyError Bool × P)
  acquire lock fuel p =
      if lock.active then wait fuel (host.monotonic p + lock.timeout) p else some (ok false, p)
