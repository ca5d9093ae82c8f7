-- ===== src/Atecc/Crc.antt =====
-- ATECC608Sim/atecc608-sim/src/crc.rs: the CRC-16 of the command and response packets.
pub mod Bounds
use simulators.Common.{
  ℕ, zero, suc, ◌+◌, ◌*◌, ◌/◌, ◌%◌, ◌^◌, bit_and, bit_xor, List, [], ◌∷◌, ◌==◌, if◌then◌else◌,
}
use simulators.Common.Bytes.{hi, lo}

-- One round of the inner loop: the data bit meets the top bit of the register.
pub crc_bit : ℕ → ℕ → ℕ → ℕ
crc_bit byte bit crc =
    let data_bit = bit_and (byte / 2 ^ bit) 1 in
    let top = crc / 2 ^ 15 in
    let shifted = crc * 2 % 2 ^ 16 in if data_bit == top then shifted else bit_xor shifted 0x8005

-- `for bit in 0..8`, with the rounds left first.
pub crc_bits : ℕ → ℕ → ℕ → ℕ → ℕ
crc_bits zero bit byte crc = crc
crc_bits (suc left) bit byte crc = crc_bits left (bit + 1) byte (crc_bit byte bit crc)

pub crc_loop : List ℕ → ℕ → ℕ
crc_loop [] crc = crc
crc_loop (byte ∷ rest) crc = crc_loop rest (crc_bits 8 0 byte crc)

unfoldable pub crc16 : List ℕ → ℕ
unfolding crc_bit crc_bits crc_loop
crc16 bytes = crc_loop bytes 0

unfoldable pub crc16_le : List ℕ → List ℕ
crc16_le bytes = let c = crc16 bytes in lo c ∷ hi c ∷ []
