-- ===== src/Se050.antt =====
-- The SE050 simulator, SE050Sim/se050-sim/src: its wire formats, T=1 link, secure channel and store.
pub mod Tlv
pub mod Apdu
pub mod Policy
pub mod T1
mod Tests
pub mod Aes
pub mod Applet
pub mod Scp03
pub mod Responder
pub mod Transport
mod ChannelTests
pub mod ObjectStore
mod StoreTests
pub mod Handlers
