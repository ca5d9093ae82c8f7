-- ===== src/Tropic01/L3/Step/Bounds.antt =====
-- TROPIC01Sim/tropic01-sim/src/handlers/l3.rs: the bounds of the store.
use simulators.Common.{
  ℕ, suc, ◌≤◌, ◌≡◌, sym, subst, ◌∙◌, arith, List, get_or, length, length-set, length-replicate,
}
use simulators.Common.Maps.{Entries, Entries-insert, Entries-erase}
use simulators.Tropic01.Personality.{Personality, r_mem_slot_max}
use simulators.Tropic01.Store.{Device, PairingSlot, EccSlot, CurveKind, p256, ed25519}
use simulators.Tropic01.L3.{Crates, Ctx, OsRng}
use simulators.Tropic01.L3.Dispatch.{L3State, dispatch}
use simulators.Tropic01.L3.Pairing.{write_pairing_key, invalidate_pairing_key}
use simulators.Tropic01.L3.Config.{
  erased, write_r_config, erase_r_config, clear_bit, clear_i_config,
}
use simulators.Tropic01.L3.Memory.{
  write_r_mem, erase_r_mem, set_mcounter, set_macandd, mcounter_value_max, r_mem_slot_last,
  mcounter_last, macandd_slot_last,
}
use simulators.Tropic01.L3.Keys.{set_ecc, erase_ecc, ecc_slot_last, new_private_key}
use simulators.Tropic01.L3.Step.{
  Step, unchanged, key_written, key_invalidated, register_written, registers_erased, bit_cleared,
  memory_written, memory_erased, ecc_generated, ecc_stored, ecc_erased, counter_set,
  counter_lowered, slot_destroyed,
}
use simulators.Tropic01.L3.Step.Dispatch.{dispatch-Step}

-- A private key of 32 bytes in one of the slots.
abbrev pub Keyed : ℕ → EccSlot → Type 0
Keyed slot entry = (slot ≤ ecc_slot_last) × (length entry.private_key ≡ 32)

-- What the crates document of new keys: a P-256 secret has 32 bytes, and as many random bytes are given
-- as are asked for.
pub record KeySizes (k : Crates) (rng : OsRng) : Type 0 where
  pub p256_size : length (k.p256_random rng) ≡ 32
  pub random_size : (n : ℕ) → length (rng n) ≡ n

-- The sizes and ranges that the rest of the code relies on: the indices of the configuration objects,
-- the slots' numbers, the lengths of the CHIP_ID object, of the private keys and of the R-Memory's slots, the counters' values.
pub record WellFormed (p : Personality) (d : Device) : Type 0 where
  pub chip_id : length d.chip_id ≤ 252
  pub registers : length d.r_config ≡ 128
  pub immutable_registers : length d.i_config ≡ 128
  pub pairing : Entries (λ (k : ℕ) (s : PairingSlot). k ≤ 3) d.pairing_slots
  pub keys : Entries Keyed d.ecc_slots
  pub memory :
      Entries
        (λ (k : ℕ) (s : List ℕ).
          (k ≤ r_mem_slot_last) × ((1 ≤ length s) × (length s ≤ r_mem_slot_max p)))
        d.r_mem_slots
  pub counters : Entries (λ (k v : ℕ). (k ≤ mcounter_last) × (v ≤ mcounter_value_max)) d.mcounters
  pub macandd : Entries (λ (k : ℕ) (s : List ℕ). k ≤ macandd_slot_last) d.macandd_slots

new_private_key-size :
    {k : Crates} {rng : OsRng}
    → KeySizes k rng
    → (curve : CurveKind) → length (new_private_key k rng curve) ≡ 32
unfolding new_private_key
new_private_key-size laws p256 = laws.p256_size
new_private_key-size laws ed25519 = laws.random_size 32

Step-WellFormed :
    {x : Ctx} {w : Crates} {rng : OsRng} (id : ℕ) (t : Device)
    → KeySizes w rng
    → WellFormed x.p x.dev
    → Step w rng x id t
    → WellFormed x.p t
unfolding write_pairing_key invalidate_pairing_key write_r_config erase_r_config clear_i_config
    write_r_mem erase_r_mem set_mcounter set_macandd set_ecc erase_ecc
Step-WellFormed {x} id t laws h (unchanged d) = subst (WellFormed x.p) (sym d) h
Step-WellFormed {x} id t laws h (key_written slot key e l g n d) =
    subst (WellFormed x.p) (sym d) (record {
      chip_id = h.chip_id;
      registers = h.registers;
      immutable_registers = h.immutable_registers;
      pairing =
          Entries-insert (λ (k : ℕ) (s : PairingSlot). k ≤ 3) slot _ x.dev.pairing_slots l
            h.pairing;
      keys = h.keys;
      memory = h.memory;
      counters = h.counters;
      macandd = h.macandd;
    })
Step-WellFormed {x} id t laws h (key_invalidated slot z e l g n d) =
    subst (WellFormed x.p) (sym d) (record {
      chip_id = h.chip_id;
      registers = h.registers;
      immutable_registers = h.immutable_registers;
      pairing =
          Entries-insert (λ (k : ℕ) (s : PairingSlot). k ≤ 3) slot _ x.dev.pairing_slots l
            h.pairing;
      keys = h.keys;
      memory = h.memory;
      counters = h.counters;
      macandd = h.macandd;
    })
Step-WellFormed {x} id t laws h (register_written j w e l g n d) =
    subst (WellFormed x.p) (sym d) (record {
      chip_id = h.chip_id;
      registers = length-set x.dev.r_config j w ∙ h.registers;
      immutable_registers = h.immutable_registers;
      pairing = h.pairing;
      keys = h.keys;
      memory = h.memory;
      counters = h.counters;
      macandd = h.macandd;
    })
Step-WellFormed {x} id t laws h (registers_erased e g d) = subst (WellFormed x.p) (sym d) (record {
  chip_id = h.chip_id;
  registers = length-replicate (length x.dev.r_config) erased ∙ h.registers;
  immutable_registers = h.immutable_registers;
  pairing = h.pairing;
  keys = h.keys;
  memory = h.memory;
  counters = h.counters;
  macandd = h.macandd;
})
Step-WellFormed {x} id t laws h (bit_cleared j bit e l b g d) =
    subst (WellFormed x.p) (sym d) (record {
      chip_id = h.chip_id;
      registers = h.registers;
      immutable_registers =
          length-set x.dev.i_config j (clear_bit (get_or x.dev.i_config j 0) bit)
          ∙ h.immutable_registers;
      pairing = h.pairing;
      keys = h.keys;
      memory = h.memory;
      counters = h.counters;
      macandd = h.macandd;
    })
Step-WellFormed {x} id t laws h (memory_written slot content e l g lo hi n d) =
    subst (WellFormed x.p) (sym d) (record {
      chip_id = h.chip_id;
      registers = h.registers;
      immutable_registers = h.immutable_registers;
      pairing = h.pairing;
      keys = h.keys;
      memory =
          Entries-insert
            (λ (k : ℕ) (s : List ℕ).
              (k ≤ r_mem_slot_last) × ((1 ≤ length s) × (length s ≤ r_mem_slot_max x.p)))
            slot content x.dev.r_mem_slots (l, (lo, hi)) h.memory;
      counters = h.counters;
      macandd = h.macandd;
    })
Step-WellFormed {x} id t laws h (memory_erased slot e l g d) =
    subst (WellFormed x.p) (sym d) (record {
      chip_id = h.chip_id;
      registers = h.registers;
      immutable_registers = h.immutable_registers;
      pairing = h.pairing;
      keys = h.keys;
      memory =
          Entries-erase
            (λ (k : ℕ) (s : List ℕ).
              (k ≤ r_mem_slot_last) × ((1 ≤ length s) × (length s ≤ r_mem_slot_max x.p)))
            slot x.dev.r_mem_slots h.memory;
      counters = h.counters;
      macandd = h.macandd;
    })
Step-WellFormed {x} id t laws h (ecc_generated slot curve e l g n d) =
    subst (WellFormed x.p) (sym d) (record {
      chip_id = h.chip_id;
      registers = h.registers;
      immutable_registers = h.immutable_registers;
      pairing = h.pairing;
      keys =
          Entries-insert Keyed slot _ x.dev.ecc_slots (l, new_private_key-size laws curve) h.keys;
      memory = h.memory;
      counters = h.counters;
      macandd = h.macandd;
    })
Step-WellFormed {x} id t laws h (ecc_stored slot curve key e l g n size ok_key d) =
    subst (WellFormed x.p) (sym d) (record {
      chip_id = h.chip_id;
      registers = h.registers;
      immutable_registers = h.immutable_registers;
      pairing = h.pairing;
      keys = Entries-insert Keyed slot _ x.dev.ecc_slots (l, size) h.keys;
      memory = h.memory;
      counters = h.counters;
      macandd = h.macandd;
    })
Step-WellFormed {x} id t laws h (ecc_erased slot e l g d) = subst (WellFormed x.p) (sym d) (record {
  chip_id = h.chip_id;
  registers = h.registers;
  immutable_registers = h.immutable_registers;
  pairing = h.pairing;
  keys = Entries-erase Keyed slot x.dev.ecc_slots h.keys;
  memory = h.memory;
  counters = h.counters;
  macandd = h.macandd;
})
Step-WellFormed {x} id t laws h (counter_set idx v e l g b d) =
    subst (WellFormed x.p) (sym d) (record {
      chip_id = h.chip_id;
      registers = h.registers;
      immutable_registers = h.immutable_registers;
      pairing = h.pairing;
      keys = h.keys;
      memory = h.memory;
      counters =
          Entries-insert (λ (k v : ℕ). (k ≤ mcounter_last) × (v ≤ mcounter_value_max)) idx v
            x.dev.mcounters (l, b) h.counters;
      macandd = h.macandd;
    })
Step-WellFormed {x} id t laws h (counter_lowered idx v e l g n d) =
    let below = (h.counters idx (suc v) n).1 in
    subst (WellFormed x.p) (sym d) (record {
      chip_id = h.chip_id;
      registers = h.registers;
      immutable_registers = h.immutable_registers;
      pairing = h.pairing;
      keys = h.keys;
      memory = h.memory;
      counters =
          Entries-insert (λ (k v : ℕ). (k ≤ mcounter_last) × (v ≤ mcounter_value_max)) idx v
            x.dev.mcounters (l, omega arith) h.counters;
      macandd = h.macandd;
    })
Step-WellFormed {x} id t laws h (slot_destroyed slot z e l g d) =
    subst (WellFormed x.p) (sym d) (record {
      chip_id = h.chip_id;
      registers = h.registers;
      immutable_registers = h.immutable_registers;
      pairing = h.pairing;
      keys = h.keys;
      memory = h.memory;
      counters = h.counters;
      macandd =
          Entries-insert (λ (k : ℕ) (s : List ℕ). k ≤ macandd_slot_last) slot z x.dev.macandd_slots
            l h.macandd;
    })

-- Every command keeps the bounds of the store.
pub dispatch-WellFormed :
    (k : Crates) (rng : OsRng) (x : Ctx) (st : L3State) (c : List ℕ)
    → KeySizes k rng
    → WellFormed x.p x.dev
    → WellFormed x.p (dispatch k rng x st c).device
dispatch-WellFormed k rng x st c laws h =
    Step-WellFormed (get_or c 0 0) _ laws h (dispatch-Step k rng x st c)
