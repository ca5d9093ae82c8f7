-- ===== src/Tropic01/L3/Step/Commands.antt =====
-- TROPIC01Sim/tropic01-sim/src/handlers/l3.rs: Ping and the commands on pairing keys and the
-- configuration, against the relation of the parent module.
use simulators.Common.{
  ℕ, suc, ◌*◌, ◌/◌, ◌%◌, refl, Bool, not, List, ltb, leb, ◌==◌, if◌then◌else◌, arith, inl, inr,
  get_or, if_intro, Option-cases, ==→eq,
}
use simulators.Common.Maps.{lookup}
use simulators.Common.Results.{Result-cases}
use simulators.Common.Slices.{slice}
use simulators.Tropic01.L3.CmdId
use simulators.Tropic01.L3.Uap
use simulators.Tropic01.L3.Step.{
  Step, unchanged, key_written, key_invalidated, register_written, registers_erased, bit_cleared,
}
use simulators.Tropic01.L3.{Crates, Ctx, Answer, OsRng, allowed, u16_at, u32_at}
use simulators.Tropic01.L3.Pairing.{
  ping, pairing_key_write, pairing_key_read, pairing_key_invalidate,
}
use simulators.Tropic01.L3.Config.{
  erased, config_addr, config_object_size, r_config_write, config_read, r_config_erase,
  i_config_write, random,
}
use simulators.Tropic01.L3.Step.Gates.{
  not-false, not-ltb, not-leb, reads-Step, PairingState-cases, config_addr-ok,
}

module _ (k : Crates) (rng : OsRng) where
  pub ping-Step : (x : Ctx) (c : List ℕ) (id : ℕ) → Step k rng x id (ping x c).1
  unfolding ping
  ping-Step x c id =
      if_intro (λ (r : Answer). Step k rng x id r.1) (not (allowed x Uap.ping 0))
        (λ e. unchanged refl) (λ e. reads-Step 1 c _ (unchanged refl))

  pub pairing_key_write-Step :
      (x : Ctx) (c : List ℕ) → Step k rng x CmdId.pairing_key_write (pairing_key_write x c).1
  unfolding pairing_key_write
  pairing_key_write-Step x c =
      let slot = u16_at c 1 in
      let P = λ (r : Answer). Step k rng x CmdId.pairing_key_write r.1 in
      reads-Step 3 c _ (
        if_intro P (ltb 3 slot) (λ e. unchanged refl)
          (λ l.
            if_intro P (not (allowed x Uap.pairing_key_write (slot * 8))) (λ e. unchanged refl)
              (λ g. elim (Option-cases (lookup slot x.dev.pairing_slots)) [
                | inl n ↦ rw n (
                    reads-Step 36 c _ (
                      key_written slot (slice 4 36 c) refl (not-ltb 3 slot l)
                        (not-false (allowed x Uap.pairing_key_write (slot * 8)) g) n refl))
                | inr (s, e) ↦ rw e (unchanged refl)
              ])))

  pub pairing_key_read-Step :
      (x : Ctx) (c : List ℕ) (id : ℕ) → Step k rng x id (pairing_key_read x c).1
  unfolding pairing_key_read
  pairing_key_read-Step x c id =
      let slot = u16_at c 1 in
      let P = λ (r : Answer). Step k rng x id r.1 in
      reads-Step 3 c _ (
        if_intro P (ltb 3 slot) (λ e. unchanged refl)
          (λ l.
            if_intro P (not (allowed x Uap.pairing_key_read (slot * 8))) (λ e. unchanged refl)
              (λ g. elim (Option-cases (lookup slot x.dev.pairing_slots)) [
                | inl n ↦ rw n (unchanged refl)
                | inr (s, e) ↦ rw e (elim (PairingState-cases s.state) [
                  | inl w ↦ rw w (unchanged refl)
                  | inr w ↦ rw w (unchanged refl)
                ])
              ])))

  pub pairing_key_invalidate-Step :
      (x : Ctx) (c : List ℕ)
      → Step k rng x CmdId.pairing_key_invalidate (pairing_key_invalidate x c).1
  unfolding pairing_key_invalidate
  pairing_key_invalidate-Step x c =
      let slot = u16_at c 1 in
      let P = λ (r : Answer). Step k rng x CmdId.pairing_key_invalidate r.1 in
      reads-Step 3 c _ (
        if_intro P (ltb 3 slot) (λ e. unchanged refl)
          (λ l.
            if_intro P (not (allowed x Uap.pairing_key_invalidate (slot * 8))) (λ e. unchanged refl)
              (λ g. elim (Option-cases (lookup slot x.dev.pairing_slots)) [
                | inl n ↦ rw n (unchanged refl)
                | inr (s, e) ↦ rw e (
                    key_invalidated slot s refl (not-ltb 3 slot l)
                      (not-false (allowed x Uap.pairing_key_invalidate (slot * 8)) g) e refl)
              ])))

  pub r_config_write-Step :
      (x : Ctx) (c : List ℕ) → Step k rng x CmdId.r_config_write (r_config_write x c).1
  unfolding r_config_write
  r_config_write-Step x c =
      let addr = u16_at c 1 in
      let P = λ (r : Answer). Step k rng x CmdId.r_config_write r.1 in
      if_intro P (not (allowed x Uap.r_config_write_erase 0)) (λ e. unchanged refl)
        (λ g. reads-Step 3 c _ (
          if_intro P (leb config_object_size addr) (λ e. unchanged refl)
            (λ l.
              if_intro P (not (addr % 4 == 0)) (λ e. unchanged refl)
                (λ m. reads-Step (suc (addr / 4)) x.dev.r_config _ (
                  if_intro P (not (get_or x.dev.r_config (addr / 4) 0 == erased))
                    (λ e. unchanged refl)
                    (λ w.
                      let below = not-leb config_object_size addr l in
                      reads-Step 8 c _ (
                        register_written (addr / 4) (u32_at c 4) refl (omega arith)
                          (not-false (allowed x Uap.r_config_write_erase 0) g)
                          (==→eq (get_or x.dev.r_config (addr / 4) 0) erased (not-false _ w))
                          refl)))))))

  pub config_read-Step :
      (x : Ctx) (c : List ℕ) (b : Bool) (id : ℕ) → Step k rng x id (config_read x c b).1
  unfolding config_read
  config_read-Step x c b id =
      let u = if b then Uap.i_config_read else Uap.r_config_read in
      elim (Result-cases (config_addr x (u16_at c 1) u)) [
        | inl (i, e) ↦
            rw (config_read, e) (reads-Step 3 c _ (reads-Step (suc i) _ _ (unchanged refl)))
        | inr (f, e) ↦ rw (config_read, e) (reads-Step 3 c _ (unchanged refl))
      ]

  pub r_config_erase-Step : (x : Ctx) → Step k rng x CmdId.r_config_erase (r_config_erase x).1
  unfolding r_config_erase
  r_config_erase-Step x =
      if_intro (λ (r : Answer). Step k rng x CmdId.r_config_erase r.1)
        (not (allowed x Uap.r_config_write_erase 0)) (λ e. unchanged refl)
        (λ g. registers_erased refl (not-false (allowed x Uap.r_config_write_erase 0) g) refl)

  pub i_config_write-Step :
      (x : Ctx) (c : List ℕ) → Step k rng x CmdId.i_config_write (i_config_write x c).1
  unfolding i_config_write
  i_config_write-Step x c = elim (Result-cases (config_addr x (u16_at c 1) Uap.i_config_write)) [
    | inr (f, e) ↦ rw (i_config_write, e) (reads-Step 3 c _ (unchanged refl))
    | inl (i, e) ↦
        let (l, g) = config_addr-ok x (u16_at c 1) Uap.i_config_write i e in
        rw (i_config_write, e)
          (reads-Step 3 c _ (
            reads-Step 4 c _ (
              if_intro (λ (r : Answer). Step k rng x CmdId.i_config_write r.1)
                (ltb 31 (get_or c 3 0)) (λ b. unchanged refl)
                (λ b.
                  let small = not-ltb 31 (get_or c 3 0) b in
                  reads-Step (suc i) x.dev.i_config _
                    (bit_cleared i (get_or c 3 0) refl l (omega arith) g refl)))))
  ]

  pub random-Step : (x : Ctx) (c : List ℕ) (id : ℕ) → Step k rng x id (random rng x c).1
  unfolding random
  random-Step x c id =
      if_intro (λ (r : Answer). Step k rng x id r.1) (not (allowed x Uap.random_value_get 0))
        (λ e. unchanged refl) (λ e. reads-Step 2 c _ (unchanged refl))
