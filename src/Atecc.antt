-- ===== src/Atecc.antt =====
-- The ATECC608A simulator, ATECC608Sim/atecc608-sim/src: one child for each source file.
pub mod Crc
pub mod Frame
pub mod Device
pub mod Session
pub mod Crypto
pub mod Handlers
pub mod Dispatch
pub mod Server
mod Tests
