-- ===== src/Tropic01/L3/Total/Slots.antt =====
-- TROPIC01Sim/tropic01-sim/src/handlers/l3.rs: the readings of the commands on the R-Memory, the counters
-- and the ECC keys, and of MAC_And_Destroy.
use simulators.Common.{
  ℕ, zero, suc, ◌*◌, ◌/◌, ◌≤◌, ◌≡◌, refl, not, ◌&&◌, ◌||◌, Option, some, List, length, drop, ltb,
  ◌==◌, le→leb, arith, inl, inr, get_or, if_intro, Option-cases,
}
use simulators.Common.Maps.{lookup}
use simulators.Common.Results.{Result-cases}
use simulators.Common.Slices.{slice}
use simulators.Tropic01.Personality.{r_mem_slot_max, eddsa_empty_message_unsigned}
use simulators.Tropic01.Store.{EccSlot, CurveKind, p256, ed25519, from_wire_id}
use simulators.Tropic01.L3.Uap
use simulators.Tropic01.L3.{Crates, Ctx, OsRng, code, ok_fields, allowed, u16_at, u32_at}
use simulators.Tropic01.L3.Memory.{
  r_mem_slot, r_mem_write, r_mem_read, r_mem_erase, mcounter_index, mcounter_value_max,
  macandd_slot_last, mcounter_init, mcounter_update, mcounter_get, mac_and_destroy,
}
use simulators.Tropic01.L3.Keys.{
  ecc_slot, ecc_generate, ecc_store, ecc_read, ecc_erase, ecdsa_sign, ecdsa_with, eddsa_sign,
  eddsa_with, key_refused, public_key_bytes,
}
use simulators.Tropic01.L3.Total.{
  Answers, reads-Answers, r_mem_slot-Refused, mcounter_index-Refused, ecc_slot-Refused,
}

pub r_mem_write-Answers : (x : Ctx) (c : List ℕ) → 4 ≤ length c → Answers (r_mem_write x c)
unfolding r_mem_write code
r_mem_write-Answers x c h = elim (Result-cases (r_mem_slot x c Uap.r_mem_data_write)) [
  | inr (f, e) ↦ rw (r_mem_write, e) (r_mem_slot-Refused x c Uap.r_mem_data_write f (omega arith) e)
  | inl (i, e) ↦
      let n = length (drop 4 c) in
      rw (r_mem_write, e)
        (reads-Answers 4 c _ _ h (
          if_intro Answers ((n == 0) || ltb (r_mem_slot_max x.p) n) (λ _. (_, refl))
            (λ _. elim (Option-cases (lookup i x.dev.r_mem_slots)) [
              | inr (d, o) ↦ rw o (_, refl)
              | inl o ↦ rw o (_, refl)
            ])))
]

pub r_mem_read-Answers : (x : Ctx) (c : List ℕ) → 3 ≤ length c → Answers (r_mem_read x c)
unfolding r_mem_read ok_fields
r_mem_read-Answers x c h = elim (Result-cases (r_mem_slot x c Uap.r_mem_data_read)) [
  | inr (f, e) ↦ rw (r_mem_read, e) (r_mem_slot-Refused x c Uap.r_mem_data_read f h e)
  | inl (i, e) ↦ elim (Option-cases (lookup i x.dev.r_mem_slots)) [
    | inl o ↦ rw (r_mem_read, e, o) (_, refl)
    | inr (d, o) ↦ rw (r_mem_read, e, o) (_, refl)
  ]
]

pub r_mem_erase-Answers : (x : Ctx) (c : List ℕ) → 3 ≤ length c → Answers (r_mem_erase x c)
unfolding r_mem_erase code
r_mem_erase-Answers x c h = elim (Result-cases (r_mem_slot x c Uap.r_mem_data_erase)) [
  | inr (f, e) ↦ rw (r_mem_erase, e) (r_mem_slot-Refused x c Uap.r_mem_data_erase f h e)
  | inl (i, e) ↦ rw (r_mem_erase, e) (_, refl)
]

pub mcounter_init-Answers : (x : Ctx) (c : List ℕ) → 8 ≤ length c → Answers (mcounter_init x c)
unfolding mcounter_init code
mcounter_init-Answers x c h = elim (Result-cases (mcounter_index x c Uap.mcounter_init)) [
  | inr (f, e) ↦
      rw (mcounter_init, e) (mcounter_index-Refused x c Uap.mcounter_init f (omega arith) e)
  | inl (i, e) ↦
      rw (mcounter_init, e)
        (reads-Answers 8 c _ _ h (
          if_intro Answers (ltb mcounter_value_max (u32_at c 4)) (λ _. (_, refl)) (λ _. (_, refl))))
]

pub mcounter_update-Answers : (x : Ctx) (c : List ℕ) → 3 ≤ length c → Answers (mcounter_update x c)
unfolding mcounter_update code
mcounter_update-Answers x c h = elim (Result-cases (mcounter_index x c Uap.mcounter_update)) [
  | inr (f, e) ↦ rw (mcounter_update, e) (mcounter_index-Refused x c Uap.mcounter_update f h e)
  | inl (i, e) ↦ elim (Option-cases (lookup i x.dev.mcounters)) [
    | inl o ↦ rw (mcounter_update, e, o) (_, refl)
    | inr (zero, o) ↦ rw (mcounter_update, e, o) (_, refl)
    | inr (suc v, o) ↦ rw (mcounter_update, e, o) (_, refl)
  ]
]

pub mcounter_get-Answers : (x : Ctx) (c : List ℕ) → 3 ≤ length c → Answers (mcounter_get x c)
unfolding mcounter_get code ok_fields
mcounter_get-Answers x c h = elim (Result-cases (mcounter_index x c Uap.mcounter_get)) [
  | inr (f, e) ↦ rw (mcounter_get, e) (mcounter_index-Refused x c Uap.mcounter_get f h e)
  | inl (i, e) ↦ elim (Option-cases (lookup i x.dev.mcounters)) [
    | inl o ↦ rw (mcounter_get, e, o) (_, refl)
    | inr (v, o) ↦ rw (mcounter_get, e, o) (_, refl)
  ]
]

pub mac_and_destroy-Answers :
    (k : Crates) (x : Ctx) (c : List ℕ) → 36 ≤ length c → Answers (mac_and_destroy k x c)
unfolding mac_and_destroy code ok_fields
mac_and_destroy-Answers k x c h =
    let slot = u16_at c 1 in
    reads-Answers 3 c _ _ (omega arith) (
      if_intro Answers (ltb macandd_slot_last slot) (λ _. (_, refl))
        (λ _.
          if_intro Answers (not (allowed x Uap.mac_and_destroy (slot / 32 * 8))) (λ _. (_, refl))
            (λ _. reads-Answers 36 c _ _ h (_, refl))))

pub ecc_generate-Answers :
    (k : Crates) (rng : OsRng) (x : Ctx) (c : List ℕ)
    → 4 ≤ length c
    → Answers (ecc_generate k rng x c)
unfolding ecc_generate code
ecc_generate-Answers k rng x c h = elim (Result-cases (ecc_slot x c Uap.ecc_key_generate)) [
  | inr (f, e) ↦ rw (ecc_generate, e) (ecc_slot-Refused x c Uap.ecc_key_generate f (omega arith) e)
  | inl (i, e) ↦
      rw (ecc_generate, e)
        (reads-Answers 4 c _ _ h (elim (Option-cases (from_wire_id (get_or c 3 0))) [
          | inl w ↦ rw w (_, refl)
          | inr (v, w) ↦ elim (Option-cases (lookup i x.dev.ecc_slots)) [
            | inr (d, o) ↦ rw (w, o) (_, refl)
            | inl o ↦ rw (w, o) (_, refl)
          ]
        ]))
]

pub ecc_store-Answers :
    (k : Crates) (x : Ctx) (c : List ℕ) → 48 ≤ length c → Answers (ecc_store k x c)
unfolding ecc_store code
ecc_store-Answers k x c h = elim (Result-cases (ecc_slot x c Uap.ecc_key_store)) [
  | inr (f, e) ↦ rw (ecc_store, e) (ecc_slot-Refused x c Uap.ecc_key_store f (omega arith) e)
  | inl (i, e) ↦
      rw (ecc_store, e)
        (reads-Answers 4 c _ _ (omega arith) (elim (Option-cases (from_wire_id (get_or c 3 0))) [
          | inl w ↦ rw w (_, refl)
          | inr (v, w) ↦ elim (Option-cases (lookup i x.dev.ecc_slots)) [
            | inr (d, o) ↦ rw (w, o) (_, refl)
            | inl o ↦
                rw (w, o)
                  (reads-Answers 48 c _ _ h (
                    if_intro Answers (key_refused k v (slice 16 48 c)) (λ _. (_, refl))
                      (λ _. (_, refl))))
          ]
        ]))
]

pub ecc_read-Answers : (k : Crates) (x : Ctx) (c : List ℕ) → 3 ≤ length c → Answers (ecc_read k x c)
unfolding ecc_read code ok_fields
ecc_read-Answers k x c h = elim (Result-cases (ecc_slot x c Uap.ecc_key_read)) [
  | inr (f, e) ↦ rw (ecc_read, e) (ecc_slot-Refused x c Uap.ecc_key_read f h e)
  | inl (i, e) ↦ elim (Option-cases (lookup i x.dev.ecc_slots)) [
    | inl o ↦ rw (ecc_read, e, o) (_, refl)
    | inr (v, o) ↦ elim (Option-cases (public_key_bytes k v)) [
      | inl q ↦ rw (ecc_read, e, o, q) (_, refl)
      | inr (w, q) ↦ rw (ecc_read, e, o, q) (_, refl)
    ]
  ]
]

pub ecc_erase-Answers : (x : Ctx) (c : List ℕ) → 3 ≤ length c → Answers (ecc_erase x c)
unfolding ecc_erase code
ecc_erase-Answers x c h = elim (Result-cases (ecc_slot x c Uap.ecc_key_erase)) [
  | inr (f, e) ↦ rw (ecc_erase, e) (ecc_slot-Refused x c Uap.ecc_key_erase f h e)
  | inl (i, e) ↦ rw (ecc_erase, e) (_, refl)
]

abbrev Signed : Option (List ℕ) → Type 0
Signed o = (r : List ℕ) × (o ≡ some r)

ecdsa_with-Signed :
    (k : Crates) (rng : OsRng) (curve : CurveKind) (key c : List ℕ)
    → 48 ≤ length c
    → Signed (ecdsa_with k rng curve key c)
unfolding ecdsa_with code ok_fields
ecdsa_with-Signed k rng ed25519 key c h = (_, refl)
ecdsa_with-Signed k rng p256 key c h =
    if_intro Signed (not (k.p256_accepts key)) (λ _. (_, refl))
      (λ _. rw (le→leb 48 (length c) h) (elim (Option-cases (k.p256_sign rng key (slice 16 48 c))) [
        | inl q ↦ rw q (_, refl)
        | inr (s, q) ↦ rw q (_, refl)
      ]))

pub ecdsa_sign-Answers :
    (k : Crates) (rng : OsRng) (x : Ctx) (c : List ℕ)
    → 48 ≤ length c
    → Answers (ecdsa_sign k rng x c)
unfolding ecdsa_sign code
ecdsa_sign-Answers k rng x c h = elim (Result-cases (ecc_slot x c Uap.ecdsa_sign)) [
  | inr (f, e) ↦ rw (ecdsa_sign, e) (ecc_slot-Refused x c Uap.ecdsa_sign f (omega arith) e)
  | inl (i, e) ↦ elim (Option-cases (lookup i x.dev.ecc_slots)) [
    | inl o ↦ rw (ecdsa_sign, e, o) (_, refl)
    | inr (v, o) ↦ rw (ecdsa_sign, e, o) (ecdsa_with-Signed k rng v.curve v.private_key c h)
  ]
]

eddsa_with-Signed :
    (k : Crates) (rng : OsRng) (curve : CurveKind) (key c : List ℕ)
    → 16 ≤ length c
    → length key ≡ 32
    → Signed (eddsa_with k rng curve key c)
unfolding eddsa_with code ok_fields
eddsa_with-Signed k rng p256 key c h n = (_, refl)
eddsa_with-Signed k rng ed25519 key c h n = rw (n, le→leb 16 (length c) h) (_, refl)

-- The keys in the slots have the length of a seed.
pub eddsa_sign-Answers :
    (k : Crates) (rng : OsRng) (x : Ctx) (c : List ℕ)
    → 16 ≤ length c
    → ((i : ℕ) (v : EccSlot) → lookup i x.dev.ecc_slots ≡ some v → length v.private_key ≡ 32)
    → Answers (eddsa_sign k rng x c)
unfolding eddsa_sign code
eddsa_sign-Answers k rng x c h keys = elim (Result-cases (ecc_slot x c Uap.eddsa_sign)) [
  | inr (f, e) ↦ rw (eddsa_sign, e) (ecc_slot-Refused x c Uap.eddsa_sign f (omega arith) e)
  | inl (i, e) ↦
      rw (eddsa_sign, e)
        (if_intro Answers ((length c == 16) && eddsa_empty_message_unsigned x.p) (λ _. (_, refl))
          (λ _. elim (Option-cases (lookup i x.dev.ecc_slots)) [
            | inl o ↦ rw o (_, refl)
            | inr (v, o) ↦ rw o (eddsa_with-Signed k rng v.curve v.private_key c h (keys i v o))
          ]))
]
