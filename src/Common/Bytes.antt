-- ===== src/Common/Bytes.antt =====
-- Bytes, and 16-bit words in both byte orders.
use simulators.Common.{ℕ, ◌+◌, ◌*◌, ◌/◌, ◌%◌, ◌<◌, List, All}

abbrev pub IsByte : ℕ → Type 0
IsByte b = b < 256

abbrev pub IsBytes : List ℕ → Type 0
IsBytes = All IsByte

abbrev pub IsU16 : ℕ → Type 0
IsU16 w = w < 65536

-- `(w >> 8) as u8` and `w as u8`, the conversions to a byte by dropping the higher bits.
abbrev pub hi : ℕ → ℕ
hi w = w / 256 % 256

abbrev pub lo : ℕ → ℕ
lo w = w % 256

-- `u16::from_be_bytes([a, b])`, which is also `(a << 8) | b`, and `u16::from_le_bytes([a, b])`.
abbrev pub be16 : ℕ → ℕ → ℕ
be16 a b = a * 256 + b

abbrev pub le16 : ℕ → ℕ → ℕ
le16 a b = b * 256 + a
