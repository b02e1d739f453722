-- ===== src/Modbus/PortLock/Waiting.antt =====
-- The wait for the port ends.
use geopilot_hvac.Prelude.{ℕ, ◌+◌, ◌≤◌, ◌≡◌, Bool, true, ◌⊎◌, some, Result, ok, err}
use geopilot_hvac.Modbus.PortLock.{PortBusyError, port_busy, Host, PortLock, wait}

module _ {P : Type 0} (host : Host P) (retry : ℕ)
    (slept : (p : P) → host.monotonic p + retry ≤ host.monotonic (host.sleep p))
    (steady : (p : P) → host.monotonic p ≤ host.monotonic (host.flock p).1) where
  -- The lock was obtained, or the deadline has passed.
  abbrev pub IsSettled : ℕ → Result PortBusyError Bool × P → Type 0
  IsSettled deadline (r, p) = (r ≡ ok true) ⊎ ((r ≡ err port_busy) × (deadline ≤ host.monotonic p))

  -- what the loop makes of `fuel` attempts
  Returns : ℕ → ℕ → P → Type 0
  Returns fuel deadline p =
      (x : Result PortBusyError Bool × P) × (wait host fuel deadline p ≡ some x)
      × IsSettled deadline x
