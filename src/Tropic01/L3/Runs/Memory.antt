-- ===== src/Tropic01/L3/Runs/Memory.antt =====
-- TROPIC01Sim/tropic01-sim/src/handlers/l3.rs: a write to the R-Memory and the read of the same slot.
use simulators.Common.{
  ℕ, suc, ◌*◌, ◌/◌, ◌≤◌, ◌<◌, ◌≡◌, refl, ap, ◌∙◌, arith, true, none, some, List, [], ◌∷◌, length,
  le→ltb, le→leb, ne→==,
}
use simulators.Common.Maps.{lookup, lookup-insert_self}
use simulators.Common.Results.{ok}
use simulators.Tropic01.Personality.{Personality, r_mem_slot_max}
use simulators.Tropic01.Store.{Device}
use simulators.Tropic01.L3.Code
use simulators.Tropic01.L3.CmdId
use simulators.Tropic01.L3.Uap
use simulators.Tropic01.L3.{Crates, Ctx, OsRng, allowed, code, ok_fields, reads, u16_at}
use simulators.Tropic01.L3.Dispatch.{perform, outcome_of, dispatch}
use simulators.Tropic01.L3.Sizes.{known, one_of, size_ok}
use simulators.Tropic01.L3.Memory.{
  r_mem_slot, r_mem_slot_last, r_mem_write, r_mem_read, write_r_mem,
}
use simulators.Tropic01.L3.Runs.{clean, replied, on_slot, with_device, run_to, dispatch_lem}

pub u16_at-on_slot :
    (id slot : ℕ) (fields : List ℕ) → slot < 65536 → u16_at (on_slot id slot fields) 1 ≡ slot
u16_at-on_slot id slot fields h = omega arith

r_mem_slot-on_slot :
    (x : Ctx) (id slot u : ℕ) (fields : List ℕ)
    → slot ≤ r_mem_slot_last
    → allowed x u (slot / 128 * 8) ≡ true
    → r_mem_slot x (on_slot id slot fields) u ≡ ok slot
unfolding r_mem_slot
r_mem_slot-on_slot x id slot u fields h g =
    rw
      (
        u16_at-on_slot id slot fields (omega arith),
        le→leb 3 (length (on_slot id slot fields)) (omega arith),
        le→ltb r_mem_slot_last slot h,
        g,
      )
      refl

r_mem_write_lem :
    (x : Ctx) (slot : ℕ) (content : List ℕ)
    → slot ≤ r_mem_slot_last
    → 1 ≤ length content
    → length content ≤ r_mem_slot_max x.p
    → lookup slot x.dev.r_mem_slots ≡ none
    → allowed x Uap.r_mem_data_write (slot / 128 * 8) ≡ true
    → r_mem_write x (on_slot CmdId.r_mem_data_write slot (0 ∷ content))
      ≡ (some (Code.ok ∷ []), write_r_mem x.dev slot content)
unfolding r_mem_write code reads
r_mem_write_lem x slot content h low high n g =
    rw
      (
        r_mem_write,
        r_mem_slot-on_slot x CmdId.r_mem_data_write slot Uap.r_mem_data_write (0 ∷ content) h g,
        ne→== (length content) 0 (λ e. absurd (omega arith)),
        le→ltb (r_mem_slot_max x.p) (length content) high,
        le→leb 4 (length (on_slot CmdId.r_mem_data_write slot (0 ∷ content))) (omega arith),
        n,
      )
      refl

r_mem_read_lem :
    (x : Ctx) (slot : ℕ) (content : List ℕ)
    → slot ≤ r_mem_slot_last
    → lookup slot x.dev.r_mem_slots ≡ some content
    → allowed x Uap.r_mem_data_read (slot / 128 * 8) ≡ true
    → r_mem_read x (on_slot CmdId.r_mem_data_read slot [])
      ≡ (some (Code.ok ∷ 0 ∷ 0 ∷ 0 ∷ content), x.dev)
unfolding r_mem_read ok_fields
r_mem_read_lem x slot content h n g =
    rw (r_mem_read, r_mem_slot-on_slot x CmdId.r_mem_data_read slot Uap.r_mem_data_read [] h g, n)
      refl

write_size :
    (p : Personality) (n : ℕ)
    → 1 ≤ n
    → n ≤ r_mem_slot_max p
    → size_ok p CmdId.r_mem_data_write (suc (suc (suc (suc n)))) ≡ true
unfolding size_ok
write_size p n h k = ground (arith)

-- What is written to an empty slot of the 512 of the R-Memory, where the pairing key has both
-- privileges, no earlier command has spoiled the next one and the length fits the firmware, is what
-- the next read of that slot answers, byte for byte.
pub r_mem_read-r_mem_write :
    (k : Crates) (rng rng' : OsRng) (x : Ctx) (slot : ℕ) (content : List ℕ)
    → slot ≤ r_mem_slot_last
    → 1 ≤ length content
    → length content ≤ r_mem_slot_max x.p
    → lookup slot x.dev.r_mem_slots ≡ none
    → allowed x Uap.r_mem_data_write (slot / 128 * 8) ≡ true
    → allowed x Uap.r_mem_data_read (slot / 128 * 8) ≡ true
    → (d : Device) × (dispatch k rng x clean (on_slot CmdId.r_mem_data_write slot (0 ∷ content))
        ≡ replied (Code.ok ∷ []) d)
      × (dispatch k rng' (with_device x d) clean (on_slot CmdId.r_mem_data_read slot [])
          ≡ replied (Code.ok ∷ 0 ∷ 0 ∷ 0 ∷ content) d)
unfolding perform known one_of outcome_of write_r_mem size_ok allowed
r_mem_read-r_mem_write k rng rng' x slot content h low high n g g' =
    let d = write_r_mem x.dev slot content in
    let w = r_mem_write_lem x slot content h low high n g in
    let r =
      r_mem_read_lem (with_device x d) slot content h
        (lookup-insert_self slot content x.dev.r_mem_slots) g' in
    (
      d,
      dispatch_lem k rng x CmdId.r_mem_data_write _ refl (write_size x.p (length content) low high)
          ∙ ap run_to w,
      dispatch_lem k rng' (with_device x d) CmdId.r_mem_data_read _ refl refl ∙ ap run_to r,
    )
