-- ===== src/Modbus/Lock.antt =====
-- The use that the transports make of backend/src/geopilot/port_lock.py: `with self._lock.hold()`.
-- How `hold` itself obtains the lock is modelled in PortLock.
use geopilot_hvac.Prelude.{Bool, true, false, Text, Result, ok, err}
use geopilot_hvac.Prelude.Exec.{Exec}

-- A lock on the state `P`: `acquire` raises `PortBusyError`, or tells whether the caller is
-- coordinated; what was acquired is released.
pub record Lock (P : Type 0) : Type 0 where
  pub acquire : Exec P Text Bool
  pub release : P → P

-- the body of the `with`, and the release that its `finally` makes
unfoldable pub held : {P E A : Type 0} → Lock P → E → Exec P E A → Result Text Bool → Exec P E A
held lock busy body (err _) p = (err busy, p)
held lock busy body (ok false) p = body p
held lock busy body (ok true) p = let (r, p') = body p in (r, lock.release p')

-- `with lock.hold(): return body()`, with `PortBusyError` turned into `busy`
unfoldable pub with_lock : {P E A : Type 0} → Lock P → E → Exec P E A → Exec P E A
unfolding held
with_lock lock busy body p = let (r, p') = lock.acquire p in held lock busy body r p'
