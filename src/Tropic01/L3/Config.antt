-- ===== src/Tropic01/L3/Config.antt =====
-- TROPIC01Sim/tropic01-sim/src/handlers/l3.rs: the commands on the configuration objects, and
-- Random_Value_Get.
use simulators.Common.{
  ℕ, suc, ◌/◌, ◌%◌, ◌^◌, Bool, not, List, ◌∷◌, ltb, leb, ◌==◌, if◌then◌else◌, get_or, set, length,
  replicate, bit_and, bit_xor,
}
use simulators.Common.Results.{Result, ok, err}
use simulators.Tropic01.Store.{Device}
use simulators.Tropic01.L3.Code
use simulators.Tropic01.L3.Uap
use simulators.Tropic01.L3.{
  Ctx, Answer, OsRng, ok_fields, code, reads, u16_at, u32_at, le32_bytes, allowed,
}

abbrev pub config_object_size : ℕ
config_object_size = 0x200

abbrev pub erased : ℕ
erased = 0xffff_ffff

unfoldable pub config_addr : Ctx → ℕ → ℕ → Result ℕ ℕ
config_addr x addr uap_addr =
    let pos = if ltb addr 0x100 then 0 else 8 in
    if leb config_object_size addr
    then err Code.unauthorized
    else (if not (allowed x uap_addr pos)
        then err Code.unauthorized
        else (if not (addr % 4 == 0) then err Code.fail else ok (addr / 4)))

unfoldable pub write_r_config : Device → ℕ → ℕ → Device
write_r_config dev i v = record dev { r_config = set dev.r_config i v }

unfoldable pub r_config_write : Ctx → List ℕ → Answer
unfolding code reads write_r_config
r_config_write x c =
    let addr = u16_at c 1 in
    let i = addr / 4 in
    if not (allowed x Uap.r_config_write_erase 0)
    then (code Code.unauthorized, x.dev)
    else reads 3 c x.dev (
        if leb config_object_size addr
        then (code Code.unauthorized, x.dev)
        else (if not (addr % 4 == 0)
            then (code Code.fail, x.dev)
            else reads (suc i) x.dev.r_config x.dev (
                if not (get_or x.dev.r_config i 0 == erased)
                then (code Code.fail, x.dev)
                else reads 8 c x.dev (code Code.ok, write_r_config x.dev i (u32_at c 4)))))

unfoldable pub config_read : Ctx → List ℕ → Bool → Answer
unfolding ok_fields code reads
config_read x c immutable =
    let registers = if immutable then x.dev.i_config else x.dev.r_config in
    reads 3 c x.dev
      (elim (config_addr x (u16_at c 1)
        (if immutable then Uap.i_config_read else Uap.r_config_read)) [
          | err e ↦ (code e, x.dev)
          | ok i ↦
              reads (suc i) registers x.dev
                (ok_fields (0 ∷ 0 ∷ 0 ∷ le32_bytes (get_or registers i 0)), x.dev)
        ])

unfoldable pub erase_r_config : Device → Device
erase_r_config dev = record dev { r_config = replicate (length dev.r_config) erased }

unfoldable pub r_config_erase : Ctx → Answer
unfolding code reads erase_r_config
r_config_erase x =
    if not (allowed x Uap.r_config_write_erase 0)
    then (code Code.unauthorized, x.dev)
    else (code Code.ok, erase_r_config x.dev)

-- `v & !(1u32 << bit)`.
unfoldable pub clear_bit : ℕ → ℕ → ℕ
clear_bit v bit = bit_and v (bit_xor 0xffff_ffff (2 ^ bit))

unfoldable pub clear_i_config : Device → ℕ → ℕ → Device
unfolding clear_bit
clear_i_config dev i bit = record dev {
  i_config = set dev.i_config i (clear_bit (get_or dev.i_config i 0) bit);
}

unfoldable pub i_config_write : Ctx → List ℕ → Answer
unfolding code reads clear_i_config
i_config_write x c = reads 3 c x.dev (elim (config_addr x (u16_at c 1) Uap.i_config_write) [
  | err e ↦ (code e, x.dev)
  | ok i ↦
      let bit = get_or c 3 0 in
      reads 4 c x.dev (
        if ltb 31 bit
        then (code Code.fail, x.dev)
        else reads (suc i) x.dev.i_config x.dev (code Code.ok, clear_i_config x.dev i bit))
])

unfoldable pub random : OsRng → Ctx → List ℕ → Answer
unfolding ok_fields code reads
random rng x c =
    if not (allowed x Uap.random_value_get 0)
    then (code Code.unauthorized, x.dev)
    else reads 2 c x.dev (ok_fields (0 ∷ 0 ∷ 0 ∷ rng (get_or c 1 0)), x.dev)
