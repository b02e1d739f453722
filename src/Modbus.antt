-- ===== src/Modbus.antt =====
-- The Modbus side: the boundary types, the RTU frames and the transports over a serial port.
pub mod Write
pub mod Crc
pub mod Boundary
pub mod Fake
pub mod Lock
pub mod PortLock
pub mod Serial
pub mod SerialWrite
pub mod Tests
