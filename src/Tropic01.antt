-- ===== src/Tropic01.antt =====
-- The TROPIC01 simulator, TROPIC01Sim/tropic01-sim/src: its L2 frames, the device, the secure session,
-- the L3 commands and the chip on the SPI bus.
pub mod Crc
pub mod Frame
pub mod Personality
pub mod Store
pub mod L3
pub mod Session
pub mod GetInfo
pub mod Chip
mod Toy
mod Tests
mod ChipTests
