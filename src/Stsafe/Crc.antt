-- ===== src/Stsafe/Crc.antt =====
-- STSAFEA120Sim/stsafe-a120-sim/src/crc.rs: CRC-16/X-25.
use simulators.Common.{
  ℕ, zero, suc, ◌-◌, ◌/◌, ◌<◌, bit_and, bit_xor, List, [], ◌∷◌, arith, not, ◌==◌, if◌then◌else◌,
}

-- One round of the inner loop: the lowest bit falls out of the register.
pub crc_bit : ℕ → ℕ
crc_bit crc = if not (bit_and crc 1 == 0) then bit_xor (crc / 2) 0x8408 else crc / 2

-- `for _ in 0..8`, with the rounds left.
pub crc_bits : ℕ → ℕ → ℕ
crc_bits zero crc = crc
crc_bits (suc left) crc = crc_bits left (crc_bit crc)

pub crc_loop : List ℕ → ℕ → ℕ
crc_loop [] crc = crc
crc_loop (b ∷ rest) crc = crc_loop rest (crc_bits 8 (bit_xor crc b))

-- `!crc` of a sixteen-bit register is its distance to 0xFFFF.
unfoldable pub crc16_x25 : List ℕ → ℕ
unfolding crc_bit crc_bits crc_loop
crc16_x25 buf = 0xFFFF - crc_loop buf 0xFFFF

pub crc16_x25-lt : (buf : List ℕ) → crc16_x25 buf < 65536
unfolding crc16_x25
crc16_x25-lt buf = omega arith
