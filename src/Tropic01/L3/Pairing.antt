-- ===== src/Tropic01/L3/Pairing.antt =====
-- TROPIC01Sim/tropic01-sim/src/handlers/l3.rs: Ping and the commands on pairing keys.
use simulators.Common.{ℕ, ◌*◌, none, some, List, ◌∷◌, not, ltb, if◌then◌else◌, drop}
use simulators.Common.Maps.{lookup, insert}
use simulators.Common.Slices.{slice}
use simulators.Tropic01.Store.{Device, PairingSlot, PairingState}
use simulators.Tropic01.L3.Code
use simulators.Tropic01.L3.Uap
use simulators.Tropic01.L3.{Ctx, Answer, ok_fields, code, reads, u16_at, allowed}

unfoldable pub ping : Ctx → List ℕ → Answer
unfolding ok_fields code reads
ping x c =
    if not (allowed x Uap.ping 0)
    then (code Code.unauthorized, x.dev)
    else reads 1 c x.dev (ok_fields (drop 1 c), x.dev)

-- The insertion of `pairing_key_write`.
unfoldable pub write_pairing_key : Device → ℕ → List ℕ → Device
write_pairing_key dev slot key = record dev {
  pairing_slots =
      insert slot (record { public_key = key; state = PairingState.written }) dev.pairing_slots;
}

unfoldable pub pairing_key_write : Ctx → List ℕ → Answer
unfolding code reads write_pairing_key
pairing_key_write x c =
    let slot = u16_at c 1 in
    reads 3 c x.dev (
      if ltb 3 slot
      then (code Code.unauthorized, x.dev)
      else (if not (allowed x Uap.pairing_key_write (slot * 8))
          then (code Code.unauthorized, x.dev)
          else elim (lookup slot x.dev.pairing_slots) [
            | some s ↦ (code Code.fail, x.dev)
            | none ↦ reads 36 c x.dev (code Code.ok, write_pairing_key x.dev slot (slice 4 36 c))
          ]))

unfoldable pub pairing_key_read : Ctx → List ℕ → Answer
unfolding ok_fields code reads
pairing_key_read x c =
    let slot = u16_at c 1 in
    reads 3 c x.dev (
      if ltb 3 slot
      then (code Code.unauthorized, x.dev)
      else (if not (allowed x Uap.pairing_key_read (slot * 8))
          then (code Code.unauthorized, x.dev)
          else elim (lookup slot x.dev.pairing_slots) [
            | none ↦ (code Code.slot_empty, x.dev)
            | some s ↦ elim s.state [
              | PairingState.invalidated ↦ (code Code.slot_invalid, x.dev)
              | PairingState.written ↦ (ok_fields (0 ∷ 0 ∷ 0 ∷ s.public_key), x.dev)
            ]
          ]))

-- `s.state = PairingState::Invalidated` in place.
unfoldable pub invalidate_pairing_key : Device → ℕ → PairingSlot → Device
invalidate_pairing_key dev slot s = record dev {
  pairing_slots = insert slot (record s { state = PairingState.invalidated }) dev.pairing_slots;
}

unfoldable pub pairing_key_invalidate : Ctx → List ℕ → Answer
unfolding code reads invalidate_pairing_key
pairing_key_invalidate x c =
    let slot = u16_at c 1 in
    reads 3 c x.dev (
      if ltb 3 slot
      then (code Code.unauthorized, x.dev)
      else (if not (allowed x Uap.pairing_key_invalidate (slot * 8))
          then (code Code.unauthorized, x.dev)
          else elim (lookup slot x.dev.pairing_slots) [
            | none ↦ (code Code.fail, x.dev)
            | some s ↦ (code Code.ok, invalidate_pairing_key x.dev slot s)
          ]))
