-- ===== src/Tropic01/L3/Total/Commands.antt =====
-- TROPIC01Sim/tropic01-sim/src/handlers/l3.rs: the readings of Ping, of the commands on pairing keys and
-- on the configuration objects, and of Random_Value_Get.
use simulators.Common.{
  ℕ, suc, ◌*◌, ◌/◌, ◌%◌, ◌≤◌, ◌≡◌, refl, Bool, not, List, length, ltb, leb, ◌==◌, if◌then◌else◌,
  arith, inl, inr, get_or, if_intro, Option-cases,
}
use simulators.Common.Maps.{lookup}
use simulators.Common.Results.{Result-cases}
use simulators.Tropic01.L3.Uap
use simulators.Tropic01.L3.{Ctx, OsRng, code, ok_fields, allowed, u16_at}
use simulators.Tropic01.L3.Pairing.{
  ping, pairing_key_write, pairing_key_read, pairing_key_invalidate,
}
use simulators.Tropic01.L3.Config.{
  erased, config_addr, config_object_size, r_config_write, config_read, r_config_erase,
  i_config_write, random,
}
use simulators.Tropic01.L3.Step.Gates.{not-leb, PairingState-cases, config_addr-ok}
use simulators.Tropic01.L3.Total.{Answers, reads-Answers}

pub ping-Answers : (x : Ctx) (c : List ℕ) → 1 ≤ length c → Answers (ping x c)
unfolding ping code ok_fields
ping-Answers x c h =
    if_intro Answers (not (allowed x Uap.ping 0)) (λ _. (_, refl))
      (λ _. reads-Answers 1 c _ _ h (_, refl))

pub pairing_key_write-Answers :
    (x : Ctx) (c : List ℕ) → 36 ≤ length c → Answers (pairing_key_write x c)
unfolding pairing_key_write code
pairing_key_write-Answers x c h =
    let slot = u16_at c 1 in
    reads-Answers 3 c _ _ (omega arith) (
      if_intro Answers (ltb 3 slot) (λ _. (_, refl))
        (λ _.
          if_intro Answers (not (allowed x Uap.pairing_key_write (slot * 8))) (λ _. (_, refl))
            (λ _. elim (Option-cases (lookup slot x.dev.pairing_slots)) [
              | inl n ↦ rw n (reads-Answers 36 c _ _ h (_, refl))
              | inr (s, e) ↦ rw e (_, refl)
            ])))

pub pairing_key_read-Answers :
    (x : Ctx) (c : List ℕ) → 3 ≤ length c → Answers (pairing_key_read x c)
unfolding pairing_key_read code ok_fields
pairing_key_read-Answers x c h =
    let slot = u16_at c 1 in
    reads-Answers 3 c _ _ h (
      if_intro Answers (ltb 3 slot) (λ _. (_, refl))
        (λ _.
          if_intro Answers (not (allowed x Uap.pairing_key_read (slot * 8))) (λ _. (_, refl))
            (λ _. elim (Option-cases (lookup slot x.dev.pairing_slots)) [
              | inl n ↦ rw n (_, refl)
              | inr (s, e) ↦ rw e (elim (PairingState-cases s.state) [
                | inl w ↦ rw w (_, refl)
                | inr w ↦ rw w (_, refl)
              ])
            ])))

pub pairing_key_invalidate-Answers :
    (x : Ctx) (c : List ℕ) → 3 ≤ length c → Answers (pairing_key_invalidate x c)
unfolding pairing_key_invalidate code
pairing_key_invalidate-Answers x c h =
    let slot = u16_at c 1 in
    reads-Answers 3 c _ _ h (
      if_intro Answers (ltb 3 slot) (λ _. (_, refl))
        (λ _.
          if_intro Answers (not (allowed x Uap.pairing_key_invalidate (slot * 8))) (λ _. (_, refl))
            (λ _. elim (Option-cases (lookup slot x.dev.pairing_slots)) [
              | inl n ↦ rw n (_, refl)
              | inr (s, e) ↦ rw e (_, refl)
            ])))

pub r_config_write-Answers :
    (x : Ctx) (c : List ℕ)
    → 8 ≤ length c
    → length x.dev.r_config ≡ 128
    → Answers (r_config_write x c)
unfolding r_config_write code
r_config_write-Answers x c h n =
    let addr = u16_at c 1 in
    if_intro Answers (not (allowed x Uap.r_config_write_erase 0)) (λ _. (_, refl))
      (λ _. reads-Answers 3 c _ _ (omega arith) (
        if_intro Answers (leb config_object_size addr) (λ _. (_, refl))
          (λ l.
            if_intro Answers (not (addr % 4 == 0)) (λ _. (_, refl))
              (λ _.
                let below = not-leb config_object_size addr l in
                reads-Answers (suc (addr / 4)) x.dev.r_config _ _ (omega arith) (
                  if_intro Answers (not (get_or x.dev.r_config (addr / 4) 0 == erased))
                    (λ _. (_, refl)) (λ _. reads-Answers 8 c _ _ h (_, refl)))))))

pub config_read-Answers :
    (x : Ctx) (c : List ℕ) (b : Bool)
    → 3 ≤ length c
    → length x.dev.r_config ≡ 128
    → length x.dev.i_config ≡ 128
    → Answers (config_read x c b)
unfolding config_read code ok_fields
config_read-Answers x c b h m n =
    let u = if b then Uap.i_config_read else Uap.r_config_read in
    let registers = if b then x.dev.i_config else x.dev.r_config in
    let size = if_intro (λ (l : List ℕ). length l ≡ 128) b (λ _. n) (λ _. m) in
    elim (Result-cases (config_addr x (u16_at c 1) u)) [
      | inl (i, e) ↦
          let (l, g) = config_addr-ok x (u16_at c 1) u i e in
          rw (config_read, e)
            (reads-Answers 3 c _ _ h
              (reads-Answers (suc i) registers _ _ (omega (arith, size)) (_, refl)))
      | inr (f, e) ↦ rw (config_read, e) (reads-Answers 3 c _ _ h (_, refl))
    ]

pub r_config_erase-Answers : (x : Ctx) → Answers (r_config_erase x)
unfolding r_config_erase code
r_config_erase-Answers x =
    if_intro Answers (not (allowed x Uap.r_config_write_erase 0)) (λ _. (_, refl)) (λ _. (_, refl))

pub i_config_write-Answers :
    (x : Ctx) (c : List ℕ)
    → 4 ≤ length c
    → length x.dev.i_config ≡ 128
    → Answers (i_config_write x c)
unfolding i_config_write code
i_config_write-Answers x c h n =
    elim (Result-cases (config_addr x (u16_at c 1) Uap.i_config_write)) [
      | inr (f, e) ↦ rw (i_config_write, e) (reads-Answers 3 c _ _ (omega arith) (_, refl))
      | inl (i, e) ↦
          let (l, g) = config_addr-ok x (u16_at c 1) Uap.i_config_write i e in
          rw (i_config_write, e)
            (reads-Answers 3 c _ _ (omega arith) (
              reads-Answers 4 c _ _ h (
                if_intro Answers (ltb 31 (get_or c 3 0)) (λ _. (_, refl))
                  (λ _. reads-Answers (suc i) x.dev.i_config _ _ (omega arith) (_, refl)))))
    ]

pub random-Answers : (rng : OsRng) (x : Ctx) (c : List ℕ) → 2 ≤ length c → Answers (random rng x c)
unfolding random code ok_fields
random-Answers rng x c h =
    if_intro Answers (not (allowed x Uap.random_value_get 0)) (λ _. (_, refl))
      (λ _. reads-Answers 2 c _ _ h (_, refl))
