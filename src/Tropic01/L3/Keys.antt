-- ===== src/Tropic01/L3/Keys.antt =====
-- TROPIC01Sim/tropic01-sim/src/handlers/l3.rs: the commands on ECC keys and the signatures.
use simulators.Common.{
  ℕ, ◌*◌, ◌/◌, Bool, false, not, ◌&&◌, Option, none, some, List, ◌∷◌, ◌++◌, ltb, leb, ◌==◌,
  if◌then◌else◌, get_or, set, length, take, drop, replicate, bit_and, bit_or,
}
use simulators.Common.Maps.{lookup, insert, erase}
use simulators.Common.Results.{Result, ok, err}
use simulators.Common.Slices.{slice}
use simulators.Tropic01.Personality.{eddsa_empty_message_unsigned}
use simulators.Tropic01.Store.{
  Device, CurveKind, p256, ed25519, KeyOrigin, EccSlot, curve_wire_id, from_wire_id, origin_wire_id,
}
use simulators.Tropic01.L3.Code
use simulators.Tropic01.L3.Uap
use simulators.Tropic01.L3.{
  Crates, Ctx, Answer, OsRng, ok_fields, code, reads, refusal, u16_at, allowed,
}

abbrev pub ecc_slot_last : ℕ
ecc_slot_last = 31

unfoldable pub ecc_slot : Ctx → List ℕ → ℕ → Result ℕ (Option ℕ)
ecc_slot x c uap_addr =
    let slot = u16_at c 1 in
    if not (leb 3 (length c))
    then err none
    else (if ltb ecc_slot_last slot
        then err (some Code.unauthorized)
        else (if not (allowed x uap_addr (slot / 8 * 8))
            then err (some Code.unauthorized)
            else ok slot))

unfoldable pub set_ecc : Device → ℕ → EccSlot → Device
set_ecc dev slot entry = record dev { ecc_slots = insert slot entry dev.ecc_slots }

unfoldable pub new_private_key : Crates → OsRng → CurveKind → List ℕ
new_private_key k rng p256 = k.p256_random rng
new_private_key k rng ed25519 = rng 32

unfoldable pub ecc_generate : Crates → OsRng → Ctx → List ℕ → Answer
unfolding code refusal reads set_ecc
ecc_generate k rng x c = elim (ecc_slot x c Uap.ecc_key_generate) [
  | err e ↦ (refusal e, x.dev)
  | ok slot ↦ reads 4 c x.dev (elim (from_wire_id (get_or c 3 0)) [
    | none ↦ (code Code.fail, x.dev)
    | some curve ↦ elim (lookup slot x.dev.ecc_slots) [
      | some entry ↦ (code Code.fail, x.dev)
      | none ↦ (
        code Code.ok,
        set_ecc x.dev slot (record {
          curve = curve;
          origin = KeyOrigin.generated;
          private_key = new_private_key k rng curve;
        }),
      )
    ]
  ])
]

-- `curve == CurveKind::P256 && P256Secret::from_slice(k).is_err()`.
unfoldable pub key_refused : Crates → CurveKind → List ℕ → Bool
key_refused k p256 key = not (k.p256_accepts key)
key_refused k ed25519 key = false

unfoldable pub ecc_store : Crates → Ctx → List ℕ → Answer
unfolding code refusal reads set_ecc
ecc_store k x c = elim (ecc_slot x c Uap.ecc_key_store) [
  | err e ↦ (refusal e, x.dev)
  | ok slot ↦ reads 4 c x.dev (elim (from_wire_id (get_or c 3 0)) [
    | none ↦ (code Code.fail, x.dev)
    | some curve ↦ elim (lookup slot x.dev.ecc_slots) [
      | some entry ↦ (code Code.fail, x.dev)
      | none ↦
          let key = slice 16 48 c in
          reads 48 c x.dev (
            if key_refused k curve key then (code Code.fail, x.dev) else (
              code Code.ok,
              set_ecc x.dev slot
                  (record { curve = curve; origin = KeyOrigin.stored; private_key = key }),
            ))
    ]
  ])
]

-- A seed of another length than 32 has no Ed25519 key.
unfoldable pub curve_public : Crates → CurveKind → List ℕ → Option (List ℕ)
curve_public k p256 key = if k.p256_accepts key then some (slice 1 65 (k.p256_public key)) else none
curve_public k ed25519 key = if length key == 32 then some (k.ed25519_public key) else none

unfoldable pub public_key_bytes : Crates → EccSlot → Option (List ℕ)
public_key_bytes k entry = curve_public k entry.curve entry.private_key

unfoldable pub ecc_read : Crates → Ctx → List ℕ → Answer
unfolding ok_fields code refusal reads
ecc_read k x c = elim (ecc_slot x c Uap.ecc_key_read) [
  | err e ↦ (refusal e, x.dev)
  | ok slot ↦ elim (lookup slot x.dev.ecc_slots) [
    | none ↦ (code Code.invalid_key, x.dev)
    | some entry ↦ elim (public_key_bytes k entry) [
      | none ↦ (code Code.fail, x.dev)
      | some public ↦ (
        ok_fields
            (curve_wire_id entry.curve ∷ origin_wire_id entry.origin ∷ (replicate 13 0 ++ public)),
        x.dev,
      )
    ]
  ]
]

unfoldable pub erase_ecc : Device → ℕ → Device
erase_ecc dev slot = record dev { ecc_slots = erase slot dev.ecc_slots }

unfoldable pub ecc_erase : Ctx → List ℕ → Answer
unfolding code refusal reads erase_ecc
ecc_erase x c = elim (ecc_slot x c Uap.ecc_key_erase) [
  | err e ↦ (refusal e, x.dev)
  | ok slot ↦ (code Code.ok, erase_ecc x.dev slot)
]

-- `ecdsa_sign` with the entry of the slot.
unfoldable pub ecdsa_with : Crates → OsRng → CurveKind → List ℕ → List ℕ → Option (List ℕ)
unfolding ok_fields code
ecdsa_with k rng ed25519 key c = code Code.invalid_key
ecdsa_with k rng p256 key c =
    if not (k.p256_accepts key)
    then code Code.fail
    else (if not (leb 48 (length c)) then none else elim (k.p256_sign rng key (slice 16 48 c)) [
      | none ↦ code Code.fail
      | some sig ↦ ok_fields (replicate 15 0 ++ sig)
    ])

unfoldable pub ecdsa_sign : Crates → OsRng → Ctx → List ℕ → Answer
unfolding code refusal reads
ecdsa_sign k rng x c = elim (ecc_slot x c Uap.ecdsa_sign) [
  | err e ↦ (refusal e, x.dev)
  | ok slot ↦ elim (lookup slot x.dev.ecc_slots) [
    | none ↦ (code Code.invalid_key, x.dev)
    | some entry ↦ (ecdsa_with k rng entry.curve entry.private_key c, x.dev)
  ]
]

-- `a_bytes[0] &= 248; a_bytes[31] &= 127; a_bytes[31] |= 64`.
unfoldable pub clamp : List ℕ → List ℕ
clamp a =
    let low = set a 0 (bit_and (get_or a 0 0) 248) in
    let high = set low 31 (bit_and (get_or low 31 0) 127) in
    set high 31 (bit_or (get_or high 31 0) 64)

unfoldable pub ed25519_sign_hedged : Crates → OsRng → List ℕ → List ℕ → List ℕ
unfolding clamp
ed25519_sign_hedged k rng seed msg =
    let h = k.sha512 seed in
    let a = k.from_bytes_mod_order (clamp (take 32 h)) in
    let public = k.mul_base a in
    let r = k.from_hash (k.sha512 (rng 32 ++ (drop 32 h ++ msg))) in
    let r_point = k.mul_base r in
    let challenge = k.from_hash (k.sha512 (r_point ++ (public ++ msg))) in
    r_point ++ k.scalar_bytes (k.scalar_add r (k.scalar_mul challenge a))

-- `eddsa_sign` with the entry of the slot. The copy into the seed panics unless the key has 32 bytes.
unfoldable pub eddsa_with : Crates → OsRng → CurveKind → List ℕ → List ℕ → Option (List ℕ)
unfolding ok_fields code
eddsa_with k rng p256 key c = code Code.invalid_key
eddsa_with k rng ed25519 key c =
    if not (length key == 32)
    then none
    else (if not (leb 16 (length c))
        then none
        else ok_fields (replicate 15 0 ++ ed25519_sign_hedged k rng key (drop 16 c)))

unfoldable pub eddsa_sign : Crates → OsRng → Ctx → List ℕ → Answer
unfolding code refusal reads
eddsa_sign k rng x c = elim (ecc_slot x c Uap.eddsa_sign) [
  | err e ↦ (refusal e, x.dev)
  | ok slot ↦
      if (length c == 16) && eddsa_empty_message_unsigned x.p
      then (code Code.ok, x.dev)
      else elim (lookup slot x.dev.ecc_slots) [
        | none ↦ (code Code.invalid_key, x.dev)
        | some entry ↦ (eddsa_with k rng entry.curve entry.private_key c, x.dev)
      ]
]
