-- ===== src/Atecc/Handlers.antt =====
-- ATECC608Sim/atecc608-sim/src/handlers: one function for each command of the chip.
-- `none` is a panic: a failed `assert!` or an index out of range.
pub mod Read
pub mod Write
pub mod Lock
pub mod Digest
pub mod Keys
pub mod Safety
pub mod Evolution
pub mod KeySafety
pub mod ReadBack
pub mod KeyLaws
pub mod Streams
