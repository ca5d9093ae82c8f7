-- ===== src/Tropic01/L3/Memory.antt =====
-- TROPIC01Sim/tropic01-sim/src/handlers/l3.rs: the commands on the R-Memory and on the monotonic
-- counters, and MAC_And_Destroy.
use simulators.Common.{
  ℕ, zero, suc, ◌*◌, ◌/◌, not, Option, none, some, List, [], ◌∷◌, ◌++◌, ◌||◌, ltb, leb, ◌==◌,
  if◌then◌else◌, length, drop, replicate,
}
use simulators.Common.Maps.{lookup, insert, erase}
use simulators.Common.Results.{Result, ok, err}
use simulators.Common.Slices.{slice}
use simulators.Tropic01.Personality.{r_mem_slot_max}
use simulators.Tropic01.Store.{Device}
use simulators.Tropic01.L3.Code
use simulators.Tropic01.L3.Uap
use simulators.Tropic01.L3.{
  Crates, Ctx, Answer, ok_fields, code, reads, refusal, u16_at, u32_at, le32_bytes, allowed,
}

abbrev pub r_mem_slot_last : ℕ
r_mem_slot_last = 511

abbrev pub mcounter_last : ℕ
mcounter_last = 15

abbrev pub mcounter_value_max : ℕ
mcounter_value_max = 0xffff_fffe

abbrev pub macandd_slot_last : ℕ
macandd_slot_last = 127

unfoldable pub r_mem_slot : Ctx → List ℕ → ℕ → Result ℕ (Option ℕ)
r_mem_slot x c uap_addr =
    let slot = u16_at c 1 in
    if not (leb 3 (length c))
    then err none
    else (if ltb r_mem_slot_last slot
        then err (some Code.unauthorized)
        else (if not (allowed x uap_addr (slot / 128 * 8))
            then err (some Code.unauthorized)
            else ok slot))

unfoldable pub write_r_mem : Device → ℕ → List ℕ → Device
write_r_mem dev slot content = record dev { r_mem_slots = insert slot content dev.r_mem_slots }

unfoldable pub r_mem_write : Ctx → List ℕ → Answer
unfolding code refusal reads write_r_mem
r_mem_write x c = elim (r_mem_slot x c Uap.r_mem_data_write) [
  | err e ↦ (refusal e, x.dev)
  | ok slot ↦
      let content = drop 4 c in
      reads 4 c x.dev (
        if (length content == 0) || ltb (r_mem_slot_max x.p) (length content)
        then (code Code.fail, x.dev)
        else elim (lookup slot x.dev.r_mem_slots) [
          | some d ↦ (code Code.slot_not_empty, x.dev)
          | none ↦ (code Code.ok, write_r_mem x.dev slot content)
        ])
]

unfoldable pub r_mem_read : Ctx → List ℕ → Answer
unfolding ok_fields code refusal reads
r_mem_read x c = elim (r_mem_slot x c Uap.r_mem_data_read) [
  | err e ↦ (refusal e, x.dev)
  | ok slot ↦ elim (lookup slot x.dev.r_mem_slots) [
    | some d ↦ (ok_fields (0 ∷ 0 ∷ 0 ∷ d), x.dev)
    | none ↦ (ok_fields (0 ∷ 0 ∷ 0 ∷ []), x.dev)
  ]
]

unfoldable pub erase_r_mem : Device → ℕ → Device
erase_r_mem dev slot = record dev { r_mem_slots = erase slot dev.r_mem_slots }

unfoldable pub r_mem_erase : Ctx → List ℕ → Answer
unfolding code refusal reads erase_r_mem
r_mem_erase x c = elim (r_mem_slot x c Uap.r_mem_data_erase) [
  | err e ↦ (refusal e, x.dev)
  | ok slot ↦ (code Code.ok, erase_r_mem x.dev slot)
]

unfoldable pub mcounter_index : Ctx → List ℕ → ℕ → Result ℕ (Option ℕ)
mcounter_index x c uap_addr =
    let idx = u16_at c 1 in
    if not (leb 3 (length c))
    then err none
    else (if ltb mcounter_last idx
        then err (some Code.unauthorized)
        else (if not (allowed x uap_addr (idx / 4 * 8))
            then err (some Code.unauthorized)
            else ok idx))

unfoldable pub set_mcounter : Device → ℕ → ℕ → Device
set_mcounter dev idx v = record dev { mcounters = insert idx v dev.mcounters }

unfoldable pub mcounter_init : Ctx → List ℕ → Answer
unfolding code refusal reads set_mcounter
mcounter_init x c = elim (mcounter_index x c Uap.mcounter_init) [
  | err e ↦ (refusal e, x.dev)
  | ok idx ↦
      let v = u32_at c 4 in
      reads 8 c x.dev (
        if ltb mcounter_value_max v
        then (code Code.fail, x.dev)
        else (code Code.ok, set_mcounter x.dev idx v))
]

unfoldable pub mcounter_update : Ctx → List ℕ → Answer
unfolding code refusal reads set_mcounter
mcounter_update x c = elim (mcounter_index x c Uap.mcounter_update) [
  | err e ↦ (refusal e, x.dev)
  | ok idx ↦ elim (lookup idx x.dev.mcounters) [
    | none ↦ (code Code.counter_invalid, x.dev)
    | some zero ↦ (code Code.update_err, x.dev)
    | some (suc v) ↦ (code Code.ok, set_mcounter x.dev idx v)
  ]
]

unfoldable pub mcounter_get : Ctx → List ℕ → Answer
unfolding ok_fields code refusal reads
mcounter_get x c = elim (mcounter_index x c Uap.mcounter_get) [
  | err e ↦ (refusal e, x.dev)
  | ok idx ↦ elim (lookup idx x.dev.mcounters) [
    | none ↦ (code Code.counter_invalid, x.dev)
    | some v ↦ (ok_fields (0 ∷ 0 ∷ 0 ∷ le32_bytes v), x.dev)
  ]
]

-- b"My Tagged Application".
abbrev pub macandd_custom : List ℕ
macandd_custom =
    77 ∷ 121 ∷ 32 ∷ 84 ∷ 97 ∷ 103 ∷ 103 ∷ 101 ∷ 100 ∷ 32 ∷ 65 ∷ 112 ∷ 112 ∷ 108 ∷ 105 ∷ 99 ∷ 97
    ∷ 116 ∷ 105 ∷ 111 ∷ 110 ∷ []

-- The parts are absorbed one after the other, so that the digest is that of their concatenation.
unfoldable pub kmac256 : Crates → List ℕ → List ℕ → List ℕ
kmac256 k key parts = k.kmac key macandd_custom parts

-- The content of a slot; an absent one is erased.
unfoldable pub macandd_content : Device → ℕ → List ℕ
macandd_content dev slot = elim (lookup slot dev.macandd_slots) [
  | some s ↦ s
  | none ↦ replicate 32 0xff
]

unfoldable pub set_macandd : Device → ℕ → List ℕ → Device
set_macandd dev slot s = record dev { macandd_slots = insert slot s dev.macandd_slots }

unfoldable pub mac_and_destroy : Crates → Ctx → List ℕ → Answer
unfolding ok_fields code reads set_macandd
mac_and_destroy k x c =
    let slot = u16_at c 1 in
    let s = macandd_content x.dev slot in
    let s_new = kmac256 k x.dev.macandd_keys.0 (slice 4 36 c ++ (slot ∷ [])) in
    let out = kmac256 k x.dev.macandd_keys.1 (s ++ (s_new ++ (slot ∷ []))) in
    reads 3 c x.dev (
      if ltb macandd_slot_last slot
      then (code Code.unauthorized, x.dev)
      else (if not (allowed x Uap.mac_and_destroy (slot / 32 * 8))
          then (code Code.unauthorized, x.dev)
          else reads 36 c x.dev (ok_fields (0 ∷ 0 ∷ 0 ∷ out), set_macandd x.dev slot s_new)))
