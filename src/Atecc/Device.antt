-- ===== src/Atecc/Device.antt =====
-- ATECC608Sim/atecc608-sim/src/object_store/{types,mod}.rs: the persistent state of the chip.
-- The two zones are arrays of a fixed size, the slots a vector that need not have all 16 entries.
pub mod Locks
pub mod Invariant
use simulators.Common.{
  ℕ, zero, suc, ◌+◌, ◌-◌, ◌*◌, ◌/◌, ◌^◌, bit_and, bit_or, Bool, not, List, [], ◌∷◌, get_or, set,
  replicate, ◌==◌, if◌then◌else◌,
}
use simulators.Common.Bytes.{hi, lo, le16}

abbrev pub config_size : ℕ
config_size = 128

abbrev pub otp_size : ℕ
otp_size = 64

abbrev pub num_slots : ℕ
num_slots = 16

abbrev pub slot_size : ℕ
slot_size = 72

pub record SlotData : Type 0 where
  pub bytes : List ℕ

pub record Device : Type 0 where
  pub config : List ℕ
  pub otp : List ℕ
  pub slots : List SlotData

unfoldable pub config_locked : Device → Bool
config_locked d = not (get_or d.config 87 0 == 0x55)

unfoldable pub data_locked : Device → Bool
data_locked d = not (get_or d.config 86 0 == 0x55)

abbrev lock_word : Device → ℕ
lock_word d = le16 (get_or d.config 88 0) (get_or d.config 89 0)

-- A clear bit of the SlotLocked word locks the slot.
unfoldable pub slot_locked : Device → ℕ → Bool
slot_locked d slot = bit_and (lock_word d / 2 ^ slot) 1 == 0

unfoldable pub set_config_locked : Device → Bool → Device
set_config_locked d locked = record d { config = set d.config 87 (if locked then 0x00 else 0x55) }

unfoldable pub set_data_locked : Device → Bool → Device
set_data_locked d locked = record d { config = set d.config 86 (if locked then 0x00 else 0x55) }

-- `!(1u16 << slot)` is the complement within 16 bits.
unfoldable pub set_slot_locked : Device → ℕ → Bool → Device
set_slot_locked d slot locked =
    let word =
      if locked
      then bit_and (lock_word d) (0xFFFF - 2 ^ slot)
      else bit_or (lock_word d) (2 ^ slot) in
    record d { config = set (set d.config 88 (lo word)) 89 (hi word) }

-- `for slot in slot..slot + left`, two bytes at `base + slot * 2`.
unfoldable pub fill_pairs : ℕ → ℕ → ℕ → ℕ → ℕ → List ℕ → List ℕ
fill_pairs zero slot base a b config = config
fill_pairs (suc left) slot base a b config =
    let off = base + slot * 2 in
    fill_pairs left (slot + 1) base a b (set (set config off a) (off + 1) b)

-- The bytes 0 to 16: serial number, revision and bus address.
abbrev identity : List ℕ
identity =
    0x01 ∷ 0x23 ∷ 0x00 ∷ 0x00 ∷ 0x00 ∷ 0x00 ∷ 0x60 ∷ 0x02 ∷ 0xEE ∷ 0xCC ∷ 0xBB ∷ 0xAA ∷ 0x99 ∷ 0x88
    ∷ 0xEE ∷ 0x01 ∷ 0xC0 ∷ []

set_from : ℕ → List ℕ → List ℕ → List ℕ
set_from off [] config = config
set_from off (x ∷ xs) config = set_from (off + 1) xs (set config off x)

unfoldable pub default_device : Device
unfolding fill_pairs set_from
default_device =
    let named = set_from 0 identity (replicate config_size 0) in
    let slot_config = fill_pairs 8 8 20 0x0F 0x0F (fill_pairs 8 0 20 0x87 0x20 named) in
    let locks = set_from 86 (0x00 ∷ 0x00 ∷ 0xFF ∷ 0xFF ∷ []) slot_config in
    let key_config = fill_pairs 8 8 96 0x3C 0x00 (fill_pairs 8 0 96 0x33 0x00 locks) in
    record {
      config = key_config;
      otp = replicate otp_size 0;
      slots = replicate num_slots (record { bytes = [] });
    }
