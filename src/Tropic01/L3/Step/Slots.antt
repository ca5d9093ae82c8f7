-- ===== src/Tropic01/L3/Step/Slots.antt =====
-- TROPIC01Sim/tropic01-sim/src/handlers/l3.rs: the commands on the R-Memory, the counters and the ECC
-- keys, and MAC_And_Destroy, against the relation of the parent module.
use simulators.Common.{
  ℕ, suc, zero, ◌*◌, ◌/◌, ◌≤◌, ◌≡◌, refl, false, not, ◌&&◌, ◌||◌, some, List, ltb, ◌==◌, arith, ◌⊎◌,
  inl, inr, length, drop, get_or, if_intro, leb, Option-cases,
}
use simulators.Common.Maps.{lookup}
use simulators.Common.Results.{Result-cases}
use simulators.Common.Slices.{slice, length-slice}
use simulators.Tropic01.Personality.{r_mem_slot_max, eddsa_empty_message_unsigned}
use simulators.Tropic01.Store.{from_wire_id}
use simulators.Tropic01.L3.CmdId
use simulators.Tropic01.L3.Uap
use simulators.Tropic01.L3.Step.{
  Step, unchanged, memory_written, memory_erased, ecc_generated, ecc_stored, ecc_erased,
  counter_set, counter_lowered, slot_destroyed,
}
use simulators.Tropic01.L3.{Crates, Ctx, Answer, OsRng, reads, allowed, u16_at, u32_at}
use simulators.Tropic01.L3.Memory.{
  r_mem_slot, r_mem_write, r_mem_read, r_mem_erase, mcounter_index, mcounter_value_max,
  macandd_slot_last, mcounter_init, mcounter_update, mcounter_get, mac_and_destroy,
}
use simulators.Tropic01.L3.Keys.{
  ecc_slot, ecc_generate, ecc_store, ecc_read, ecc_erase, ecdsa_sign, eddsa_sign, key_refused,
  public_key_bytes,
}
use simulators.Tropic01.L3.Step.Gates.{
  not-false, not-ltb, leb-le, reads-Step, r_mem_slot-ok, mcounter_index-ok, ecc_slot-ok,
}

module _ (k : Crates) (rng : OsRng) where
  pub r_mem_write-Step :
      (x : Ctx) (c : List ℕ) → Step k rng x CmdId.r_mem_data_write (r_mem_write x c).1
  unfolding r_mem_write
  r_mem_write-Step x c = elim (Result-cases (r_mem_slot x c Uap.r_mem_data_write)) [
    | inr (f, e) ↦ rw (r_mem_write, e) (unchanged refl)
    | inl (i, e) ↦
        let (l, g) = r_mem_slot-ok x c Uap.r_mem_data_write i e in
        let n = length (drop 4 c) in
        let P = λ (r : Answer). Step k rng x CmdId.r_mem_data_write r.1 in
        rw (r_mem_write, e)
          (reads-Step 4 c _ (
            if_intro P ((n == 0) || ltb (r_mem_slot_max x.p) n) (λ b. unchanged refl)
              (λ b. elim (Option-cases (lookup i x.dev.r_mem_slots)) [
                | inr (d, o) ↦ rw o (unchanged refl)
                | inl o ↦ rw o (
                    memory_written i (drop 4 c) refl l g (in_range n (r_mem_slot_max x.p) b).0
                      (in_range n (r_mem_slot_max x.p) b).1 o refl)
              ])))
  ]
    where
      in_range : (n m : ℕ) → ((n == 0) || ltb m n) ≡ false → (1 ≤ n) × (n ≤ m)
      in_range n m h = (ground arith, ground arith)

  pub r_mem_read-Step : (x : Ctx) (c : List ℕ) (id : ℕ) → Step k rng x id (r_mem_read x c).1
  unfolding r_mem_read
  r_mem_read-Step x c id = elim (Result-cases (r_mem_slot x c Uap.r_mem_data_read)) [
    | inr (f, e) ↦ rw (r_mem_read, e) (unchanged refl)
    | inl (i, e) ↦ elim (Option-cases (lookup i x.dev.r_mem_slots)) [
      | inl o ↦ rw (r_mem_read, e, o) (unchanged refl)
      | inr (d, o) ↦ rw (r_mem_read, e, o) (unchanged refl)
    ]
  ]

  pub r_mem_erase-Step :
      (x : Ctx) (c : List ℕ) → Step k rng x CmdId.r_mem_data_erase (r_mem_erase x c).1
  unfolding r_mem_erase
  r_mem_erase-Step x c = elim (Result-cases (r_mem_slot x c Uap.r_mem_data_erase)) [
    | inr (f, e) ↦ rw (r_mem_erase, e) (unchanged refl)
    | inl (i, e) ↦
        let (l, g) = r_mem_slot-ok x c Uap.r_mem_data_erase i e in
        rw (r_mem_erase, e) (memory_erased i refl l g refl)
  ]

  pub mcounter_init-Step :
      (x : Ctx) (c : List ℕ) → Step k rng x CmdId.mcounter_init (mcounter_init x c).1
  unfolding mcounter_init
  mcounter_init-Step x c = elim (Result-cases (mcounter_index x c Uap.mcounter_init)) [
    | inr (f, e) ↦ rw (mcounter_init, e) (unchanged refl)
    | inl (i, e) ↦
        let (l, g) = mcounter_index-ok x c Uap.mcounter_init i e in
        rw (mcounter_init, e)
          (reads-Step 8 c _ (
            if_intro (λ (r : Answer). Step k rng x CmdId.mcounter_init r.1)
              (ltb mcounter_value_max (u32_at c 4)) (λ b. unchanged refl)
              (λ b.
                counter_set i (u32_at c 4) refl l g (not-ltb mcounter_value_max (u32_at c 4) b)
                  refl)))
  ]

  pub mcounter_update-Step :
      (x : Ctx) (c : List ℕ) → Step k rng x CmdId.mcounter_update (mcounter_update x c).1
  unfolding mcounter_update
  mcounter_update-Step x c = elim (Result-cases (mcounter_index x c Uap.mcounter_update)) [
    | inr (f, e) ↦ rw (mcounter_update, e) (unchanged refl)
    | inl (i, e) ↦
        let (l, g) = mcounter_index-ok x c Uap.mcounter_update i e in
        elim (Option-cases (lookup i x.dev.mcounters)) [
          | inl o ↦ rw (mcounter_update, e, o) (unchanged refl)
          | inr (v, o) ↦ elim (ℕ-cases v) [
            | inl z ↦
                let o' : lookup i x.dev.mcounters ≡ some zero = cc in
                rw (mcounter_update, e, o') (unchanged refl)
            | inr (w, s) ↦
                let o' : lookup i x.dev.mcounters ≡ some (suc w) = cc in
                rw (mcounter_update, e, o') (counter_lowered i w refl l g o' refl)
          ]
        ]
  ]
    where
      ℕ-cases : (n : ℕ) → (n ≡ zero) ⊎ ((m : ℕ) × (n ≡ suc m))
      ℕ-cases zero = inl refl
      ℕ-cases (suc m) = inr (m, refl)

  pub mcounter_get-Step : (x : Ctx) (c : List ℕ) (id : ℕ) → Step k rng x id (mcounter_get x c).1
  unfolding mcounter_get
  mcounter_get-Step x c id = elim (Result-cases (mcounter_index x c Uap.mcounter_get)) [
    | inr (f, e) ↦ rw (mcounter_get, e) (unchanged refl)
    | inl (i, e) ↦ elim (Option-cases (lookup i x.dev.mcounters)) [
      | inl o ↦ rw (mcounter_get, e, o) (unchanged refl)
      | inr (v, o) ↦ rw (mcounter_get, e, o) (unchanged refl)
    ]
  ]

  pub mac_and_destroy-Step :
      (x : Ctx) (c : List ℕ) → Step k rng x CmdId.mac_and_destroy (mac_and_destroy k x c).1
  unfolding mac_and_destroy
  mac_and_destroy-Step x c =
      let slot = u16_at c 1 in
      let P = λ (r : Answer). Step k rng x CmdId.mac_and_destroy r.1 in
      reads-Step 3 c _ (
        if_intro P (ltb macandd_slot_last slot) (λ e. unchanged refl)
          (λ l.
            if_intro P (not (allowed x Uap.mac_and_destroy (slot / 32 * 8))) (λ e. unchanged refl)
              (λ g. reads-Step 36 c _ (
                slot_destroyed slot _ refl (not-ltb macandd_slot_last slot l)
                  (not-false (allowed x Uap.mac_and_destroy (slot / 32 * 8)) g) refl))))

  pub ecc_generate-Step :
      (x : Ctx) (c : List ℕ) → Step k rng x CmdId.ecc_key_generate (ecc_generate k rng x c).1
  unfolding ecc_generate
  ecc_generate-Step x c = elim (Result-cases (ecc_slot x c Uap.ecc_key_generate)) [
    | inr (f, e) ↦ rw (ecc_generate, e) (unchanged refl)
    | inl (i, e) ↦
        let (l, g) = ecc_slot-ok x c Uap.ecc_key_generate i e in
        elim (Option-cases (from_wire_id (get_or c 3 0))) [
          | inl w ↦ rw (ecc_generate, e, w) (reads-Step 4 c _ (unchanged refl))
          | inr (v, w) ↦ elim (Option-cases (lookup i x.dev.ecc_slots)) [
            | inr (d, o) ↦ rw (ecc_generate, e, w, o) (reads-Step 4 c _ (unchanged refl))
            | inl o ↦
                rw (ecc_generate, e, w, o) (reads-Step 4 c _ (ecc_generated i _ refl l g o refl))
          ]
        ]
  ]

  pub ecc_store-Step : (x : Ctx) (c : List ℕ) → Step k rng x CmdId.ecc_key_store (ecc_store k x c).1
  unfolding ecc_store reads
  ecc_store-Step x c = elim (Result-cases (ecc_slot x c Uap.ecc_key_store)) [
    | inr (f, e) ↦ rw (ecc_store, e) (unchanged refl)
    | inl (i, e) ↦
        let (l, g) = ecc_slot-ok x c Uap.ecc_key_store i e in
        let P = λ (r : Answer). Step k rng x CmdId.ecc_key_store r.1 in
        elim (Option-cases (from_wire_id (get_or c 3 0))) [
          | inl w ↦ rw (ecc_store, e, w) (reads-Step 4 c _ (unchanged refl))
          | inr (v, w) ↦ elim (Option-cases (lookup i x.dev.ecc_slots)) [
            | inr (d, o) ↦ rw (ecc_store, e, w, o) (reads-Step 4 c _ (unchanged refl))
            | inl o ↦
                rw (ecc_store, e, w, o)
                  (reads-Step 4 c _ (
                    if_intro P (leb 48 (length c))
                      (λ n.
                        if_intro P (key_refused k v (slice 16 48 c)) (λ b. unchanged refl)
                          (λ b.
                            ecc_stored i v (slice 16 48 c) refl l g o
                              (length-slice 16 48 c (omega arith) (leb-le 48 (length c) n)) b refl))
                      (λ _. unchanged refl)))
          ]
        ]
  ]

  pub ecc_read-Step : (x : Ctx) (c : List ℕ) (id : ℕ) → Step k rng x id (ecc_read k x c).1
  unfolding ecc_read
  ecc_read-Step x c id = elim (Result-cases (ecc_slot x c Uap.ecc_key_read)) [
    | inr (f, e) ↦ rw (ecc_read, e) (unchanged refl)
    | inl (i, e) ↦ elim (Option-cases (lookup i x.dev.ecc_slots)) [
      | inl o ↦ rw (ecc_read, e, o) (unchanged refl)
      | inr (v, o) ↦ elim (Option-cases (public_key_bytes k v)) [
        | inl q ↦ rw (ecc_read, e, o, q) (unchanged refl)
        | inr (w, q) ↦ rw (ecc_read, e, o, q) (unchanged refl)
      ]
    ]
  ]

  pub ecc_erase-Step : (x : Ctx) (c : List ℕ) → Step k rng x CmdId.ecc_key_erase (ecc_erase x c).1
  unfolding ecc_erase
  ecc_erase-Step x c = elim (Result-cases (ecc_slot x c Uap.ecc_key_erase)) [
    | inr (f, e) ↦ rw (ecc_erase, e) (unchanged refl)
    | inl (i, e) ↦
        let (l, g) = ecc_slot-ok x c Uap.ecc_key_erase i e in
        rw (ecc_erase, e) (ecc_erased i refl l g refl)
  ]

  pub ecdsa_sign-Step : (x : Ctx) (c : List ℕ) (id : ℕ) → Step k rng x id (ecdsa_sign k rng x c).1
  unfolding ecdsa_sign
  ecdsa_sign-Step x c id = elim (Result-cases (ecc_slot x c Uap.ecdsa_sign)) [
    | inr (f, e) ↦ rw (ecdsa_sign, e) (unchanged refl)
    | inl (i, e) ↦ elim (Option-cases (lookup i x.dev.ecc_slots)) [
      | inl o ↦ rw (ecdsa_sign, e, o) (unchanged refl)
      | inr (v, o) ↦ rw (ecdsa_sign, e, o) (unchanged refl)
    ]
  ]

  pub eddsa_sign-Step : (x : Ctx) (c : List ℕ) (id : ℕ) → Step k rng x id (eddsa_sign k rng x c).1
  unfolding eddsa_sign
  eddsa_sign-Step x c id = elim (Result-cases (ecc_slot x c Uap.eddsa_sign)) [
    | inr (f, e) ↦ rw (eddsa_sign, e) (unchanged refl)
    | inl (i, e) ↦
        rw (eddsa_sign, e)
          (if_intro (λ (r : Answer). Step k rng x id r.1)
            ((length c == 16) && eddsa_empty_message_unsigned x.p) (λ b. unchanged refl)
            (λ b. elim (Option-cases (lookup i x.dev.ecc_slots)) [
              | inl o ↦ rw o (unchanged refl)
              | inr (v, o) ↦ rw o (unchanged refl)
            ]))
  ]
