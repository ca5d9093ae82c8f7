-- ===== src/Atecc/Crc/Bounds.antt =====
-- ATECC608Sim/atecc608-sim/src/crc.rs: the width of the CRC register.
use simulators.Common.{
  ℕ, zero, suc, ◌+◌, ◌*◌, ◌/◌, ◌%◌, ◌^◌, bit_and, ◌≡◌, inl, inr, List, [], ◌∷◌, arith, ◌==◌,
  Bool-cases,
}
use simulators.Common.Bytes.{IsU16, hi, lo, le16}
use simulators.Common.Bits.{bit_xor-lt}
use simulators.Atecc.Crc.{crc_bit, crc_bits, crc_loop, crc16}

crc_bit-IsU16 : (byte bit crc : ℕ) → IsU16 (crc_bit byte bit crc)
unfolding crc_bit
crc_bit-IsU16 byte bit crc = elim (Bool-cases (bit_and (byte / 2 ^ bit) 1 == crc / 2 ^ 15)) [
  | inl same ↦ rw same (omega arith)
  | inr differs ↦ rw differs (bit_xor-lt 16 (crc * 2 % 2 ^ 16) 0x8005 (omega arith) (omega arith))
]

pub crc_bits-IsU16 : (left bit byte crc : ℕ) → IsU16 crc → IsU16 (crc_bits left bit byte crc)
unfolding crc_bits
crc_bits-IsU16 zero bit byte crc h = h
crc_bits-IsU16 (suc left) bit byte crc h =
    crc_bits-IsU16 left (bit + 1) byte (crc_bit byte bit crc) (crc_bit-IsU16 byte bit crc)

crc_loop-IsU16 : (bytes : List ℕ) (crc : ℕ) → IsU16 crc → IsU16 (crc_loop bytes crc)
unfolding crc_loop
crc_loop-IsU16 [] crc h = h
crc_loop-IsU16 (byte ∷ rest) crc h =
    crc_loop-IsU16 rest (crc_bits 8 0 byte crc) (crc_bits-IsU16 8 0 byte crc h)

pub crc16-IsU16 : (bytes : List ℕ) → IsU16 (crc16 bytes)
unfolding crc16
crc16-IsU16 bytes = crc_loop-IsU16 bytes 0 (omega arith)

pub le16-crc16 : (bytes : List ℕ) → le16 (lo (crc16 bytes)) (hi (crc16 bytes)) ≡ crc16 bytes
le16-crc16 bytes = omega (arith, crc16-IsU16 bytes)
