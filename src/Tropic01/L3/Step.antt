-- ===== src/Tropic01/L3/Step.antt =====
-- TROPIC01Sim/tropic01-sim/src/handlers/l3.rs: what a command may do to the device, as a relation. Each
-- rule names the command, the privilege that it needs and the state that it needs.
pub mod Gates
pub mod Commands
pub mod Slots
pub mod Dispatch
pub mod Authority
pub mod Permanence
pub mod Registers
pub mod Bounds
use simulators.Common.{
  ℕ, suc, ◌*◌, ◌/◌, ◌≤◌, ◌<◌, ◌≡◌, true, false, Option, none, some, List, length, get_or, ltb,
  if◌then◌else◌,
}
use simulators.Common.Maps.{lookup}
use simulators.Tropic01.Personality.{r_mem_slot_max}
use simulators.Tropic01.Store.{Device, PairingSlot, CurveKind, KeyOrigin}
use simulators.Tropic01.L3.CmdId
use simulators.Tropic01.L3.Uap
use simulators.Tropic01.L3.{Crates, OsRng, Ctx, allowed}
use simulators.Tropic01.L3.Pairing.{write_pairing_key, invalidate_pairing_key}
use simulators.Tropic01.L3.Config.{erased, write_r_config, erase_r_config, clear_i_config}
use simulators.Tropic01.L3.Memory.{
  write_r_mem, erase_r_mem, set_mcounter, set_macandd, mcounter_value_max, r_mem_slot_last,
  mcounter_last, macandd_slot_last,
}
use simulators.Tropic01.L3.Keys.{set_ecc, erase_ecc, ecc_slot_last, new_private_key, key_refused}

-- The device `d` may be what the command `id` leaves of x.dev.
pub data Step (k : Crates) (rng : OsRng) (x : Ctx) (id : ℕ) (d : Device) : Type 0 where
  unchanged : d ≡ x.dev → Step k rng x id d
  key_written :
      (slot : ℕ) (key : List ℕ)
      → id ≡ CmdId.pairing_key_write
      → slot ≤ 3
      → allowed x Uap.pairing_key_write (slot * 8) ≡ true
      → lookup slot x.dev.pairing_slots ≡ none
      → d ≡ write_pairing_key x.dev slot key
      → Step k rng x id d
  key_invalidated :
      (slot : ℕ) (s : PairingSlot)
      → id ≡ CmdId.pairing_key_invalidate
      → slot ≤ 3
      → allowed x Uap.pairing_key_invalidate (slot * 8) ≡ true
      → lookup slot x.dev.pairing_slots ≡ some s
      → d ≡ invalidate_pairing_key x.dev slot s
      → Step k rng x id d
  register_written :
      (i v : ℕ)
      → id ≡ CmdId.r_config_write
      → i < 128
      → allowed x Uap.r_config_write_erase 0 ≡ true
      → get_or x.dev.r_config i 0 ≡ erased
      → d ≡ write_r_config x.dev i v
      → Step k rng x id d
  registers_erased :
      id ≡ CmdId.r_config_erase
      → allowed x Uap.r_config_write_erase 0 ≡ true
      → d ≡ erase_r_config x.dev
      → Step k rng x id d
  bit_cleared :
      (i bit : ℕ)
      → id ≡ CmdId.i_config_write
      → i < 128
      → bit < 32
      → allowed x Uap.i_config_write (if ltb i 64 then 0 else 8) ≡ true
      → d ≡ clear_i_config x.dev i bit
      → Step k rng x id d
  memory_written :
      (slot : ℕ) (content : List ℕ)
      → id ≡ CmdId.r_mem_data_write
      → slot ≤ r_mem_slot_last
      → allowed x Uap.r_mem_data_write (slot / 128 * 8) ≡ true
      → 1 ≤ length content
      → length content ≤ r_mem_slot_max x.p
      → lookup slot x.dev.r_mem_slots ≡ none
      → d ≡ write_r_mem x.dev slot content
      → Step k rng x id d
  memory_erased :
      (slot : ℕ)
      → id ≡ CmdId.r_mem_data_erase
      → slot ≤ r_mem_slot_last
      → allowed x Uap.r_mem_data_erase (slot / 128 * 8) ≡ true
      → d ≡ erase_r_mem x.dev slot
      → Step k rng x id d
  ecc_generated :
      (slot : ℕ) (curve : CurveKind)
      → id ≡ CmdId.ecc_key_generate
      → slot ≤ ecc_slot_last
      → allowed x Uap.ecc_key_generate (slot / 8 * 8) ≡ true
      → lookup slot x.dev.ecc_slots ≡ none
      → d
        ≡ set_ecc x.dev slot (record {
          curve = curve;
          origin = KeyOrigin.generated;
          private_key = new_private_key k rng curve;
        })
      → Step k rng x id d
  ecc_stored :
      (slot : ℕ) (curve : CurveKind) (key : List ℕ)
      → id ≡ CmdId.ecc_key_store
      → slot ≤ ecc_slot_last
      → allowed x Uap.ecc_key_store (slot / 8 * 8) ≡ true
      → lookup slot x.dev.ecc_slots ≡ none
      → length key ≡ 32
      → key_refused k curve key ≡ false
      → d
        ≡ set_ecc x.dev slot
            (record { curve = curve; origin = KeyOrigin.stored; private_key = key })
      → Step k rng x id d
  ecc_erased :
      (slot : ℕ)
      → id ≡ CmdId.ecc_key_erase
      → slot ≤ ecc_slot_last
      → allowed x Uap.ecc_key_erase (slot / 8 * 8) ≡ true
      → d ≡ erase_ecc x.dev slot
      → Step k rng x id d
  counter_set :
      (idx v : ℕ)
      → id ≡ CmdId.mcounter_init
      → idx ≤ mcounter_last
      → allowed x Uap.mcounter_init (idx / 4 * 8) ≡ true
      → v ≤ mcounter_value_max
      → d ≡ set_mcounter x.dev idx v
      → Step k rng x id d
  counter_lowered :
      (idx v : ℕ)
      → id ≡ CmdId.mcounter_update
      → idx ≤ mcounter_last
      → allowed x Uap.mcounter_update (idx / 4 * 8) ≡ true
      → lookup idx x.dev.mcounters ≡ some (suc v)
      → d ≡ set_mcounter x.dev idx v
      → Step k rng x id d
  slot_destroyed :
      (slot : ℕ) (s : List ℕ)
      → id ≡ CmdId.mac_and_destroy
      → slot ≤ macandd_slot_last
      → allowed x Uap.mac_and_destroy (slot / 32 * 8) ≡ true
      → d ≡ set_macandd x.dev slot s
      → Step k rng x id d
