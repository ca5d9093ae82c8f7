-- ===== src/Tropic01/Crc.antt =====
-- TROPIC01Sim/tropic01-sim/src/crc.rs: the CRC-16 of L2 frames.
use simulators.Common.{
  ℕ, zero, suc, ◌*◌, ◌/◌, ◌%◌, ◌<◌, bit_and, bit_or, bit_xor, List, [], ◌∷◌, ◌++◌, arith, not, ◌==◌,
  if◌then◌else◌, Bool-cases, inl, inr,
}
use simulators.Common.Bytes.{hi, lo}
use simulators.Common.Bits.{bit_or-lt, bit_xor-lt}

-- One round of the inner loop: the top bit falls out of the register.
pub crc_bit : ℕ → ℕ
crc_bit crc =
    if not (bit_and crc 0x8000 == 0) then bit_xor (crc * 2 % 65536) 0x8005 else crc * 2 % 65536

-- `for _ in 0..8`, with the rounds left.
pub crc_bits : ℕ → ℕ → ℕ
crc_bits zero crc = crc
crc_bits (suc left) crc = crc_bits left (crc_bit crc)

pub crc_loop : List ℕ → ℕ → ℕ
crc_loop [] crc = crc
crc_loop (b ∷ rest) crc = crc_loop rest (crc_bits 8 (bit_xor crc (b * 256 % 65536)))

-- The bytes of the register are swapped.
unfoldable pub crc16 : List ℕ → ℕ
unfolding crc_bit crc_bits crc_loop
crc16 buf = let crc = crc_loop buf 0 in bit_or (crc * 256 % 65536) (crc / 256)

unfoldable pub append_crc : List ℕ → List ℕ
append_crc frame = let crc = crc16 frame in frame ++ (hi crc ∷ lo crc ∷ [])

crc_bit-lt : (crc : ℕ) → crc_bit crc < 65536
unfolding crc_bit
crc_bit-lt crc = elim (Bool-cases (not (bit_and crc 0x8000 == 0))) [
  | inl top ↦ rw top (bit_xor-lt 16 (crc * 2 % 65536) 0x8005 (omega arith) (omega arith))
  | inr clear ↦ rw clear (omega arith)
]

crc_bits-lt : (left crc : ℕ) → crc < 65536 → crc_bits left crc < 65536
unfolding crc_bits
crc_bits-lt zero crc h = h
crc_bits-lt (suc left) crc h = crc_bits-lt left (crc_bit crc) (crc_bit-lt crc)

crc_loop-lt : (buf : List ℕ) (crc : ℕ) → crc < 65536 → crc_loop buf crc < 65536
unfolding crc_loop
crc_loop-lt [] crc h = h
crc_loop-lt (b ∷ rest) crc h =
    crc_loop-lt rest _ (crc_bits-lt 8 _ (bit_xor-lt 16 crc (b * 256 % 65536) h (omega arith)))

pub crc16-lt : (buf : List ℕ) → crc16 buf < 65536
unfolding crc16
crc16-lt buf =
    bit_or-lt 16 (crc_loop buf 0 * 256 % 65536) (crc_loop buf 0 / 256) (omega arith)
      (omega (arith, crc_loop-lt buf 0 (omega arith)))
