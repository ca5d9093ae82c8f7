-- ===== src/Stsafe.antt =====
-- The STSAFE-A120 simulator, STSAFEA120Sim/stsafe-a120-sim/src: one child for each part.
pub mod Crc
pub mod Frame
pub mod Crypto
pub mod Store
pub mod Handlers
pub mod Dispatch
pub mod Server
mod Tests
