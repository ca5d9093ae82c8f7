-- ===== src/Tropic01/L3.antt =====
-- TROPIC01Sim/tropic01-sim/src/handlers/l3.rs: what the L3 commands share. The constants are in the
-- children Code, CmdId and Uap, the commands in Pairing, Config, Memory and Keys.
pub mod Code
pub mod CmdId
pub mod Uap
pub mod Pairing
pub mod Config
pub mod Memory
pub mod Keys
pub mod Sizes
pub mod Dispatch
pub mod Step
pub mod Total
pub mod Runs
use simulators.Common.{
  ℕ, ◌+◌, ◌*◌, ◌/◌, ◌%◌, ◌^◌, Bool, not, Option, none, some, List, [], ◌∷◌, ◌++◌, get_or, length,
  leb, bit_and, ◌==◌, if◌then◌else◌,
}
use simulators.Common.Bytes.{le16}
use simulators.Tropic01.Personality.{Personality}
use simulators.Tropic01.Store.{Device}

-- The crates p256, ed25519-dalek, curve25519-dalek, sha2 and tiny-keccak, and the operating system's
-- random bytes. `OsRng` is the bytes that it gives to the command, by their number.
abbrev pub OsRng : Type 0
OsRng = ℕ → List ℕ

pub record Crates : Type 0 where
  -- `P256Secret::random`, `P256Secret::from_slice(k).is_ok()`, the uncompressed point of 65 bytes,
  -- `sign_prehash_with_rng`.
  pub p256_random : OsRng → List ℕ
  pub p256_accepts : List ℕ → Bool
  pub p256_public : List ℕ → List ℕ
  pub p256_sign : OsRng → List ℕ → List ℕ → Option (List ℕ)
  -- `SigningKey::from_bytes(seed).verifying_key()`, `Sha512::digest`.
  pub ed25519_public : List ℕ → List ℕ
  pub sha512 : List ℕ → List ℕ
  -- Scalars modulo the order of the group, and `EdwardsPoint::mul_base(&s).compress()`.
  pub from_bytes_mod_order : List ℕ → ℕ
  pub from_hash : List ℕ → ℕ
  pub scalar_add : ℕ → ℕ → ℕ
  pub scalar_mul : ℕ → ℕ → ℕ
  pub scalar_bytes : ℕ → List ℕ
  pub mul_base : ℕ → List ℕ
  -- `Kmac::v256(key, custom)` over the joined parts.
  pub kmac : List ℕ → List ℕ → List ℕ → List ℕ

pub record Ctx : Type 0 where
  pub dev : Device
  pub cfg : List ℕ
  pub p : Personality
  pub pkey : ℕ

-- What a command leaves: its result, or `none` where it panics, and the device.
abbrev pub Answer : Type 0
Answer = Option (List ℕ) × Device

unfoldable pub ok_fields : List ℕ → Option (List ℕ)
ok_fields fields = some (Code.ok ∷ fields)

unfoldable pub code : ℕ → Option (List ℕ)
code c = some (c ∷ [])

-- What the code does with the elements of `c` below `n`: it panics where `c` does not have them.
unfoldable pub reads : ℕ → List ℕ → Device → Answer → Answer
reads n c dev a = if leb n (length c) then a else (none, dev)

-- The answer to a refused slot: the code of the refusal, or the panic of the reading.
unfoldable pub refusal : Option ℕ → Option (List ℕ)
refusal none = none
refusal (some c) = some (c ∷ [])

abbrev pub u16_at : List ℕ → ℕ → ℕ
u16_at b off = le16 (get_or b off 0) (get_or b (off + 1) 0)

-- `u32::from_le_bytes` of the four bytes at an offset, and `to_le_bytes`.
abbrev pub u32_at : List ℕ → ℕ → ℕ
u32_at b off =
    get_or b off 0
    + get_or b (off + 1) 0 * 256
    + get_or b (off + 2) 0 * 65536
    + get_or b (off + 3) 0 * 16777216

abbrev pub le32_bytes : ℕ → List ℕ
le32_bytes v = (v % 256) ∷ (v / 256 % 256) ∷ (v / 65536 % 256) ∷ (v / 16777216 % 256) ∷ []

-- The bit `pkey` of the field at bit `pos` of the register at `addr`; a register that is not there
-- reads 0. `pkey` is the number of a pairing slot, at most 3, so that no shift overflows.
unfoldable pub allowed : Ctx → ℕ → ℕ → Bool
allowed x addr pos =
    let reg = get_or x.cfg (addr / 4) 0 in
    not (bit_and (bit_and (reg / 2 ^ pos) 0xff) (2 ^ x.pkey) == 0)
