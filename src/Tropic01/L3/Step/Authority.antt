-- ===== src/Tropic01/L3/Step/Authority.antt =====
-- TROPIC01Sim/tropic01-sim/src/handlers/l3.rs: which commands change the device, and for whom.
use simulators.Common.{ℕ, ◌≡◌, refl, ap, ◌*◌, ◌/◌, Bool, true, false, List, get_or}
use simulators.Tropic01.Store.{Device}
use simulators.Tropic01.L3.Uap
use simulators.Tropic01.L3.{Crates, Ctx, OsRng, allowed}
use simulators.Tropic01.L3.Dispatch.{L3State, dispatch}
use simulators.Tropic01.L3.Sizes.{mutates_store}
use simulators.Tropic01.L3.Step.{
  Step, unchanged, key_written, key_invalidated, register_written, registers_erased, bit_cleared,
  memory_written, memory_erased, ecc_generated, ecc_stored, ecc_erased, counter_set,
  counter_lowered, slot_destroyed,
}
use simulators.Tropic01.L3.Step.Dispatch.{dispatch-Step}

true-false : {b c : Bool} → b ≡ true → c ≡ b → c ≡ false → (d e : Device) → d ≡ e
true-false p q r d e = absurd cc

Step-read_only :
    {x : Ctx} {w : Crates} {rng : OsRng} (id : ℕ) (d : Device)
    → mutates_store id ≡ false
    → Step w rng x id d
    → d ≡ x.dev
unfolding mutates_store
Step-read_only {x} id t m (unchanged d) = d
Step-read_only {x} id t m (key_written slot key e l g n d) =
    true-false {c = mutates_store id} refl (ap mutates_store e) m t x.dev
Step-read_only {x} id t m (key_invalidated slot s e l g n d) =
    true-false {c = mutates_store id} refl (ap mutates_store e) m t x.dev
Step-read_only {x} id t m (register_written i v e l g n d) =
    true-false {c = mutates_store id} refl (ap mutates_store e) m t x.dev
Step-read_only {x} id t m (registers_erased e g d) =
    true-false {c = mutates_store id} refl (ap mutates_store e) m t x.dev
Step-read_only {x} id t m (bit_cleared i bit e l b g d) =
    true-false {c = mutates_store id} refl (ap mutates_store e) m t x.dev
Step-read_only {x} id t m (memory_written slot content e l g lo hi n d) =
    true-false {c = mutates_store id} refl (ap mutates_store e) m t x.dev
Step-read_only {x} id t m (memory_erased slot e l g d) =
    true-false {c = mutates_store id} refl (ap mutates_store e) m t x.dev
Step-read_only {x} id t m (ecc_generated slot curve e l g n d) =
    true-false {c = mutates_store id} refl (ap mutates_store e) m t x.dev
Step-read_only {x} id t m (ecc_stored slot curve key e l g n size ok_key d) =
    true-false {c = mutates_store id} refl (ap mutates_store e) m t x.dev
Step-read_only {x} id t m (ecc_erased slot e l g d) =
    true-false {c = mutates_store id} refl (ap mutates_store e) m t x.dev
Step-read_only {x} id t m (counter_set idx v e l g b d) =
    true-false {c = mutates_store id} refl (ap mutates_store e) m t x.dev
Step-read_only {x} id t m (counter_lowered idx v e l g n d) =
    true-false {c = mutates_store id} refl (ap mutates_store e) m t x.dev
Step-read_only {x} id t m (slot_destroyed slot s e l g d) =
    true-false {c = mutates_store id} refl (ap mutates_store e) m t x.dev

-- A command for which `mutates_store` is false leaves the device as it is, so that not saving it loses
-- nothing.
pub dispatch-read_only :
    (k : Crates) (rng : OsRng) (x : Ctx) (st : L3State) (c : List ℕ)
    → mutates_store (get_or c 0 0) ≡ false
    → (dispatch k rng x st c).device ≡ x.dev
dispatch-read_only k rng x st c h = Step-read_only (get_or c 0 0) _ h (dispatch-Step k rng x st c)

Step-unprivileged :
    {x : Ctx} {w : Crates} {rng : OsRng} (id : ℕ) (d : Device)
    → ((addr pos : ℕ) → allowed x addr pos ≡ false)
    → Step w rng x id d
    → d ≡ x.dev
Step-unprivileged {x} id t m (unchanged d) = d
Step-unprivileged {x} id t m (key_written slot key e l g n d) =
    true-false g refl (m Uap.pairing_key_write (slot * 8)) t x.dev
Step-unprivileged {x} id t m (key_invalidated slot s e l g n d) =
    true-false g refl (m Uap.pairing_key_invalidate (slot * 8)) t x.dev
Step-unprivileged {x} id t m (register_written i v e l g n d) =
    true-false g refl (m Uap.r_config_write_erase 0) t x.dev
Step-unprivileged {x} id t m (registers_erased e g d) =
    true-false g refl (m Uap.r_config_write_erase 0) t x.dev
Step-unprivileged {x} id t m (bit_cleared i bit e l b g d) =
    true-false g refl (m Uap.i_config_write _) t x.dev
Step-unprivileged {x} id t m (memory_written slot content e l g lo hi n d) =
    true-false g refl (m Uap.r_mem_data_write (slot / 128 * 8)) t x.dev
Step-unprivileged {x} id t m (memory_erased slot e l g d) =
    true-false g refl (m Uap.r_mem_data_erase (slot / 128 * 8)) t x.dev
Step-unprivileged {x} id t m (ecc_generated slot curve e l g n d) =
    true-false g refl (m Uap.ecc_key_generate (slot / 8 * 8)) t x.dev
Step-unprivileged {x} id t m (ecc_stored slot curve key e l g n size ok_key d) =
    true-false g refl (m Uap.ecc_key_store (slot / 8 * 8)) t x.dev
Step-unprivileged {x} id t m (ecc_erased slot e l g d) =
    true-false g refl (m Uap.ecc_key_erase (slot / 8 * 8)) t x.dev
Step-unprivileged {x} id t m (counter_set idx v e l g b d) =
    true-false g refl (m Uap.mcounter_init (idx / 4 * 8)) t x.dev
Step-unprivileged {x} id t m (counter_lowered idx v e l g n d) =
    true-false g refl (m Uap.mcounter_update (idx / 4 * 8)) t x.dev
Step-unprivileged {x} id t m (slot_destroyed slot s e l g d) =
    true-false g refl (m Uap.mac_and_destroy (slot / 32 * 8)) t x.dev

-- A session with a pairing key for which the configuration in force grants nothing cannot change
-- the device, whatever command it sends.
pub dispatch-unprivileged :
    (k : Crates) (rng : OsRng) (x : Ctx) (st : L3State) (c : List ℕ)
    → ((addr pos : ℕ) → allowed x addr pos ≡ false)
    → (dispatch k rng x st c).device ≡ x.dev
dispatch-unprivileged k rng x st c h =
    Step-unprivileged (get_or c 0 0) _ h (dispatch-Step k rng x st c)
