-- ===== src/Tropic01/Tests.antt =====
-- The theorems on the TROPIC01's commands at concrete inputs.
use simulators.Common.{
  ℕ, ◌*◌, ◌/◌, ◌^◌, ◌≤◌, ◌≡◌, ◌⊎◌, refl, arith, true, false, none, some, List, [], ◌∷◌, get_or,
  replicate,
}
use simulators.Common.Bits.{bit_at}
use simulators.Common.Maps.{lookup}
use simulators.Tropic01.L3.Code
use simulators.Tropic01.L3.CmdId
use simulators.Tropic01.L3.Uap
use simulators.Tropic01.L3.{allowed}
use simulators.Tropic01.L3.Dispatch.{answered, dispatch}
use simulators.Tropic01.L3.Sizes.{mutates_store, one_of}
use simulators.Tropic01.L3.Step.{Step}
use simulators.Tropic01.L3.Step.Dispatch.{dispatch-Step}
use simulators.Tropic01.L3.Step.Authority.{dispatch-read_only, dispatch-unprivileged}
use simulators.Tropic01.L3.Step.Permanence.{dispatch-pairing_key}
use simulators.Tropic01.L3.Step.Registers.{dispatch-i_config}
use simulators.Tropic01.L3.Runs.{clean, replied, on_slot, with_device}
use simulators.Tropic01.L3.Runs.Memory.{r_mem_read-r_mem_write}
use simulators.Tropic01.L3.Runs.Counter.{update_command, repeated, repeated-mcounter_update}
use simulators.Tropic01.L3.Runs.Destroy.{destroy_command, f1, f2, mac_and_destroy_twice}
use simulators.Tropic01.Store.{Device, PairingSlot, PairingState}
use simulators.Tropic01.Toy.{toy_crates, zeros, key, paired, device, context, unprivileged}

abbrev clear_bit_command : List ℕ
clear_bit_command = 0x30 ∷ 0 ∷ 0 ∷ 5 ∷ []

abbrev invalidate_command : List ℕ
invalidate_command = on_slot CmdId.pairing_key_invalidate 0 []

dispatch-Step_example :
    Step toy_crates zeros context 0x12
      (dispatch toy_crates zeros context clean invalidate_command).device
dispatch-Step_example = dispatch-Step toy_crates zeros context clean invalidate_command

get-read_only : mutates_store 0x82 ≡ false
unfolding mutates_store one_of
get-read_only = refl

dispatch-read_only_example :
    (dispatch toy_crates zeros context clean (on_slot 0x82 4 [])).device ≡ device
dispatch-read_only_example =
    dispatch-read_only toy_crates zeros context clean (on_slot 0x82 4 []) get-read_only

nothing_allowed : (addr pos : ℕ) → allowed unprivileged addr pos ≡ false
unfolding allowed
nothing_allowed addr pos = let e : 0 / 2 ^ pos ≡ 0 = grind arith in rw e refl

dispatch-unprivileged_example :
    (dispatch toy_crates zeros unprivileged clean invalidate_command).device ≡ device
dispatch-unprivileged_example =
    dispatch-unprivileged toy_crates zeros unprivileged clean invalidate_command nothing_allowed

paired-found : lookup 0 device.pairing_slots ≡ some paired
unfolding lookup
paired-found = refl

dispatch-pairing_key_example :
    (s' : PairingSlot) × (lookup 0
        (dispatch toy_crates zeros context clean invalidate_command).device.pairing_slots
      ≡ some s')
    × ((s'.public_key ≡ key) × ((s' ≡ paired) ⊎ (s'.state ≡ PairingState.invalidated)))
dispatch-pairing_key_example =
    dispatch-pairing_key toy_crates zeros context clean invalidate_command 0 paired paired-found

dispatch-i_config_example :
    bit_at 5
      (get_or (dispatch toy_crates zeros context clean clear_bit_command).device.i_config 0 0)
    ≤ bit_at 5 (get_or device.i_config 0 0)
dispatch-i_config_example =
    dispatch-i_config toy_crates zeros context clean clear_bit_command 0 5 (omega arith)

abbrev content : List ℕ
content = 1 ∷ 2 ∷ 3 ∷ []

slot_empty : lookup 130 device.r_mem_slots ≡ none
unfolding lookup
slot_empty = refl

write_allowed : allowed context Uap.r_mem_data_write (130 / 128 * 8) ≡ true
unfolding allowed
write_allowed = refl

read_allowed : allowed context Uap.r_mem_data_read (130 / 128 * 8) ≡ true
unfolding allowed
read_allowed = refl

r_mem_read-r_mem_write_example :
    (d : Device) × (dispatch toy_crates zeros context clean
        (on_slot CmdId.r_mem_data_write 130 (0 ∷ content))
      ≡ replied (Code.ok ∷ []) d)
    × (dispatch toy_crates zeros
          (with_device context d)
          clean
          (on_slot CmdId.r_mem_data_read 130 [])
        ≡ replied (Code.ok ∷ 0 ∷ 0 ∷ 0 ∷ content) d)
r_mem_read-r_mem_write_example =
    r_mem_read-r_mem_write toy_crates zeros zeros context 130 content (omega arith) (omega arith)
      (omega arith) slot_empty write_allowed read_allowed

update_allowed : allowed context Uap.mcounter_update (4 / 4 * 8) ≡ true
unfolding allowed
update_allowed = refl

counter-found : lookup 4 device.mcounters ≡ some 2
unfolding lookup
counter-found = refl

repeated-mcounter_update_example :
    (d : Device) × (repeated toy_crates zeros (update_command 4) 2 context
      ≡ (replicate 2 (answered (Code.ok ∷ [])), d))
    × (lookup 4 d.mcounters ≡ some 0)
    × (dispatch toy_crates zeros (with_device context d) clean (update_command 4)
        ≡ replied (Code.update_err ∷ []) d)
repeated-mcounter_update_example =
    repeated-mcounter_update toy_crates zeros 4 2 context (omega arith) update_allowed counter-found

destroy_allowed : allowed context Uap.mac_and_destroy (7 / 32 * 8) ≡ true
unfolding allowed
destroy_allowed = refl

mac_and_destroy_twice_example :
    (dispatch toy_crates zeros
      (with_device context (dispatch toy_crates zeros context clean (destroy_command 7 key)).device)
      clean
      (destroy_command 7 (replicate 32 9))).outcome
    ≡ answered (
        Code.ok
        ∷ 0
        ∷ 0
        ∷ 0
        ∷ f2 toy_crates device 7
            (f1 toy_crates device 7 key)
            (f1 toy_crates device 7 (replicate 32 9)))
mac_and_destroy_twice_example =
    mac_and_destroy_twice toy_crates zeros context 7 key (replicate 32 9) (omega arith) refl refl
      destroy_allowed
