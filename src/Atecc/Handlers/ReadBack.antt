-- ===== src/Atecc/Handlers/ReadBack.antt =====
-- ATECC608Sim/atecc608-sim/src/handlers/write_zone.rs and read_zone.rs: a write to the data zone and
-- the read of the same bytes.
use mathlib.Core.List.{append-nil}
use simulators.Common.{
  ℕ, ◌+◌, ◌≤◌, ◌<◌, ◌≡◌, refl, ap, subst, ◌∙◌, inl, inr, false, ◌&&◌, Option, none, some, List,
  ◌++◌, arith, length, min, get_elem?, set, get_elem?-set_found, drop, replicate, length-replicate,
  length-drop, Option-cases, ltb, leb, if_intro, lt→ltb,
}
use simulators.Common.Results.{Result, ok, err}
use simulators.Common.Slices.{splice, resize, slice-splice, length-splice, length-resize}
use simulators.Atecc.Frame.{build_response}
use simulators.Atecc.Device.{Device, SlotData, num_slots, slot_size, data_locked, slot_locked}
use simulators.Atecc.Handlers.Read.{padded, read_data, data_offset, data_slot}
use simulators.Atecc.Handlers.Write.{overwrite, write_data}

-- The whole of a buffer replaced.
splice_whole : (src : List ℕ) (n : ℕ) → length src ≡ n → splice 0 src (replicate n 0) ≡ src
unfolding splice
splice_whole src n e =
    let rest = drop (0 + length src) (replicate n 0) in
    let gone : length rest ≡ 0 =
      omega (arith, length-drop (0 + length src) (replicate {A = ℕ} n 0), zeros) in
    ap (λ (t : List ℕ). src ++ t) (empty rest gone) ∙ append-nil src
  where
    zeros : length (replicate {A = ℕ} n 0) ≡ n
    zeros = length-replicate n 0

    empty : (xs : List ℕ) → length xs ≡ 0 → xs ≡ List.[]
    empty List.[] h = refl
    empty (List.◌∷◌ x xs) h = absurd (omega arith)

padded-splice :
    (bytes old : List ℕ) (off : ℕ)
    → 0 < length bytes
    → off + length bytes ≤ length old
    → padded (splice off bytes old) off (length bytes) ≡ bytes
unfolding padded
padded-splice bytes old off some_byte fits =
    let n = length bytes in
    let avail : min (length (splice off bytes old)) (off + n) ≡ off + n =
      omega (arith, length-splice off bytes old fits) in
    rw (avail, lt→ltb off (off + n) (omega arith), slice-splice off (off + n) bytes old refl fits)
      (splice_whole bytes n refl)

padded-overwrite :
    (s : SlotData) (bytes : List ℕ) (off : ℕ)
    → 0 < length bytes
    → padded (overwrite s off bytes).bytes off (length bytes) ≡ bytes
unfolding overwrite
padded-overwrite s bytes off some_byte =
    if_intro (λ (g : List ℕ). padded (splice off bytes g) off (length bytes) ≡ bytes)
      (ltb (length s.bytes) (off + length bytes))
      (λ e.
        padded-splice bytes (resize (off + length bytes) 0 s.bytes) off some_byte
          (omega (arith, length-resize (off + length bytes) 0 s.bytes (ground arith))))
      (λ e. padded-splice bytes s.bytes off some_byte (ground arith))

read_after :
    (d : Device) (addr : ℕ) (bytes : List ℕ) (old : SlotData)
    → 0 < length bytes
    → leb num_slots (data_slot addr) ≡ false
    → ltb slot_size (data_offset addr (length bytes) + length bytes) ≡ false
    → get_elem? d.slots (data_slot addr) ≡ some old
    → read_data
        (record d {
          slots =
              set d.slots (data_slot addr) (overwrite old (data_offset addr (length bytes)) bytes);
        })
        addr
        (length bytes)
      ≡ build_response bytes
unfolding read_data
read_after d addr bytes old some_byte small fits e =
    let off = data_offset addr (length bytes) in
    rw (
      small,
      fits,
      get_elem?-set_found d.slots (data_slot addr) old (overwrite old off bytes) e,
      padded-overwrite old bytes off some_byte,
    )

-- A read behind a write, in the device that the write leaves.
abbrev Reads : ℕ → List ℕ → Option (Result Device ℕ) → Type 0
Reads addr bytes none = Unit {0}
Reads addr bytes (some (err sw)) = Unit {0}
Reads addr bytes (some (ok d')) = read_data d' addr (length bytes) ≡ build_response bytes

write_data-Reads :
    (d : Device) (addr : ℕ) (bytes : List ℕ)
    → 0 < length bytes
    → Reads addr bytes (write_data d addr bytes)
unfolding write_data
write_data-Reads d addr bytes some_byte =
    let slot = data_slot addr in
    let off = data_offset addr (length bytes) in
    let P = Reads addr bytes in
    if_intro P (leb num_slots slot) (λ _. tt)
      λ small.
        if_intro P (data_locked d && slot_locked d slot) (λ _. tt)
          λ _.
            if_intro P (ltb slot_size (off + length bytes)) (λ _. tt)
              λ fits. elim (Option-cases (get_elem? d.slots slot)) [
                | inl e ↦ rw e tt
                | inr (old, e) ↦ rw e (read_after d addr bytes old some_byte small fits e)
              ]

-- A write of at least one byte to the data zone that succeeds is read back: a read of the same
-- address and length then answers the bytes.
pub read_data-write_data :
    (d d' : Device) (addr : ℕ) (bytes : List ℕ)
    → 0 < length bytes
    → write_data d addr bytes ≡ some (ok d')
    → read_data d' addr (length bytes) ≡ build_response bytes
read_data-write_data d d' addr bytes some_byte e =
    subst (Reads addr bytes) e (write_data-Reads d addr bytes some_byte)
