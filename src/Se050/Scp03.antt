-- ===== src/Se050/Scp03.antt =====
-- SE050Sim/se050-sim/src/scp03: the SCP03 secure channel.
pub mod Padding
pub mod Crypto
pub mod Keys
pub mod Channel
pub mod Session
pub mod Host
pub mod Unwrap
pub mod Tunnel
pub mod Handshake
