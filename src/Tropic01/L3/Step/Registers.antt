-- ===== src/Tropic01/L3/Step/Registers.antt =====
-- TROPIC01Sim/tropic01-sim/src/handlers/l3.rs: how the configuration registers can change.
use simulators.Common.{
  ℕ, zero, suc, ◌≤◌, ◌<◌, ◌≡◌, refl, sym, ap, ◌∙◌, ◌≢◌, ◌⊎◌, inl, inr, arith, Bool-cases, ==→eq,
  eq→==, bit_and, bit_xor, ◌^◌, ◌==◌, false, List, get_or, set, length, replicate, get_or-set_self,
  get_or-set_ne,
}
use simulators.Common.Bits.{bit_at, bit_at-bit_and}
use simulators.Tropic01.Store.{Device}
use simulators.Tropic01.L3.{Crates, Ctx, OsRng}
use simulators.Tropic01.L3.Dispatch.{L3State, dispatch}
use simulators.Tropic01.L3.Pairing.{write_pairing_key, invalidate_pairing_key}
use simulators.Tropic01.L3.Config.{
  erased, write_r_config, erase_r_config, clear_bit, clear_i_config,
}
use simulators.Tropic01.L3.Memory.{write_r_mem, erase_r_mem, set_mcounter, set_macandd}
use simulators.Tropic01.L3.Keys.{set_ecc, erase_ecc}
use simulators.Tropic01.L3.Step.{
  Step, unchanged, key_written, key_invalidated, register_written, registers_erased, bit_cleared,
  memory_written, memory_erased, ecc_generated, ecc_stored, ecc_erased, counter_set,
  counter_lowered, slot_destroyed,
}
use simulators.Tropic01.L3.Step.Dispatch.{dispatch-Step}

apart : (a b : ℕ) → (a == b) ≡ false → a ≢ b
apart a b h q = let f = eq→== a b q in cc

get_or-replicate : (n i v : ℕ) → i < n → get_or (replicate n v) i 0 ≡ v
get_or-replicate zero i v h = absurd (omega arith)
get_or-replicate (suc n) zero v h = refl
get_or-replicate (suc n) (suc i) v h = get_or-replicate n i v (omega arith)

abbrev RegisterKept : ℕ → Device → Device → Type 0
RegisterKept i d t =
    (get_or t.r_config i 0 ≡ get_or d.r_config i 0)
    ⊎ ((get_or d.r_config i 0 ≡ erased) ⊎ (get_or t.r_config i 0 ≡ erased))

Step-r_config :
    {x : Ctx} {w : Crates} {rng : OsRng} (id i : ℕ) (t : Device)
    → i < length x.dev.r_config
    → Step w rng x id t
    → RegisterKept i x.dev t
unfolding write_pairing_key invalidate_pairing_key write_r_config erase_r_config clear_i_config
    write_r_mem erase_r_mem set_mcounter set_macandd set_ecc erase_ecc
Step-r_config {x} id i t h (unchanged d) = inl (ap (λ (u : Device). get_or u.r_config i 0) d)
Step-r_config {x} id i t h (key_written slot key e l g n d) =
    inl (ap (λ (u : Device). get_or u.r_config i 0) d)
Step-r_config {x} id i t h (key_invalidated slot z e l g n d) =
    inl (ap (λ (u : Device). get_or u.r_config i 0) d)
Step-r_config {x} id i t h (register_written j w e l g n d) = elim (Bool-cases (j == i)) [
  | inl f ↦
      let q : j ≡ i = ==→eq j i f in
      inr (inl (ap (λ (u : ℕ). get_or x.dev.r_config u 0) (sym q) ∙ n))
  | inr f ↦ inl (
      ap (λ (u : Device). get_or u.r_config i 0) d
      ∙ get_or-set_ne x.dev.r_config j i w 0 (apart j i f))
]
Step-r_config {x} id i t h (registers_erased e g d) = inr (
    inr (
      ap (λ (u : Device). get_or u.r_config i 0) d
      ∙ get_or-replicate (length x.dev.r_config) i erased h))
Step-r_config {x} id i t h (bit_cleared j bit e l b g d) =
    inl (ap (λ (u : Device). get_or u.r_config i 0) d)
Step-r_config {x} id i t h (memory_written slot content e l g lo hi n d) =
    inl (ap (λ (u : Device). get_or u.r_config i 0) d)
Step-r_config {x} id i t h (memory_erased slot e l g d) =
    inl (ap (λ (u : Device). get_or u.r_config i 0) d)
Step-r_config {x} id i t h (ecc_generated slot curve e l g n d) =
    inl (ap (λ (u : Device). get_or u.r_config i 0) d)
Step-r_config {x} id i t h (ecc_stored slot curve key e l g n size ok_key d) =
    inl (ap (λ (u : Device). get_or u.r_config i 0) d)
Step-r_config {x} id i t h (ecc_erased slot e l g d) =
    inl (ap (λ (u : Device). get_or u.r_config i 0) d)
Step-r_config {x} id i t h (counter_set idx v e l g b d) =
    inl (ap (λ (u : Device). get_or u.r_config i 0) d)
Step-r_config {x} id i t h (counter_lowered idx v e l g n d) =
    inl (ap (λ (u : Device). get_or u.r_config i 0) d)
Step-r_config {x} id i t h (slot_destroyed slot z e l g d) =
    inl (ap (λ (u : Device). get_or u.r_config i 0) d)

-- A register of the R-Config keeps its value under every command, unless it was erased before or is
-- erased after: a written register cannot be overwritten.
pub dispatch-r_config :
    (k : Crates) (rng : OsRng) (x : Ctx) (st : L3State) (c : List ℕ) (i : ℕ)
    → i < length x.dev.r_config
    → (get_or (dispatch k rng x st c).device.r_config i 0 ≡ get_or x.dev.r_config i 0)
      ⊎ ((get_or x.dev.r_config i 0 ≡ erased)
          ⊎ (get_or (dispatch k rng x st c).device.r_config i 0 ≡ erased))
dispatch-r_config k rng x st c i h = Step-r_config (get_or c 0 0) i _ h (dispatch-Step k rng x st c)

Step-i_config :
    {x : Ctx} {w : Crates} {rng : OsRng} (id i n : ℕ) (t : Device)
    → i < length x.dev.i_config
    → Step w rng x id t
    → bit_at n (get_or t.i_config i 0) ≤ bit_at n (get_or x.dev.i_config i 0)
unfolding clear_bit write_pairing_key invalidate_pairing_key write_r_config erase_r_config
    clear_i_config write_r_mem erase_r_mem set_mcounter set_macandd set_ecc erase_ecc
Step-i_config {x} id i n t h (unchanged d) =
    (let e' = ap (λ (u : Device). bit_at n (get_or u.i_config i 0)) d in omega arith)
Step-i_config {x} id i n t h (key_written slot key e l g m d) =
    (let e' = ap (λ (u : Device). bit_at n (get_or u.i_config i 0)) d in omega arith)
Step-i_config {x} id i n t h (key_invalidated slot z e l g m d) =
    (let e' = ap (λ (u : Device). bit_at n (get_or u.i_config i 0)) d in omega arith)
Step-i_config {x} id i n t h (register_written j w e l g m d) =
    (let e' = ap (λ (u : Device). bit_at n (get_or u.i_config i 0)) d in omega arith)
Step-i_config {x} id i n t h (registers_erased e g d) =
    (let e' = ap (λ (u : Device). bit_at n (get_or u.i_config i 0)) d in omega arith)
Step-i_config {x} id i n t h (bit_cleared j bit e l b g d) =
    let v = get_or x.dev.i_config j 0 in
    let mask = bit_xor 0xffff_ffff (2 ^ bit) in
    elim (Bool-cases (j == i)) [
      | inl f ↦
          let q : j ≡ i = ==→eq j i f in
          let now : get_or t.i_config i 0 ≡ bit_and v mask =
            ap (λ (u : Device). get_or u.i_config i 0) d
            ∙ ap (λ (u : ℕ). get_or (set x.dev.i_config j (bit_and v mask)) u 0) (sym q)
            ∙ get_or-set_self x.dev.i_config j (bit_and v mask) 0 (omega arith) in
          let bits = ap (bit_at n) now ∙ bit_at-bit_and n v mask in
          let old = ap (λ (u : ℕ). bit_at n (get_or x.dev.i_config u 0)) q in omega arith
      | inr f ↦
          let now =
            ap (λ (u : Device). bit_at n (get_or u.i_config i 0)) d
            ∙ ap (bit_at n) (get_or-set_ne x.dev.i_config j i (bit_and v mask) 0 (apart j i f)) in
          omega arith
    ]
Step-i_config {x} id i n t h (memory_written slot content e l g lo hi m d) =
    (let e' = ap (λ (u : Device). bit_at n (get_or u.i_config i 0)) d in omega arith)
Step-i_config {x} id i n t h (memory_erased slot e l g d) =
    (let e' = ap (λ (u : Device). bit_at n (get_or u.i_config i 0)) d in omega arith)
Step-i_config {x} id i n t h (ecc_generated slot curve e l g m d) =
    (let e' = ap (λ (u : Device). bit_at n (get_or u.i_config i 0)) d in omega arith)
Step-i_config {x} id i n t h (ecc_stored slot curve key e l g m size ok_key d) =
    (let e' = ap (λ (u : Device). bit_at n (get_or u.i_config i 0)) d in omega arith)
Step-i_config {x} id i n t h (ecc_erased slot e l g d) =
    (let e' = ap (λ (u : Device). bit_at n (get_or u.i_config i 0)) d in omega arith)
Step-i_config {x} id i n t h (counter_set idx v e l g b d) =
    (let e' = ap (λ (u : Device). bit_at n (get_or u.i_config i 0)) d in omega arith)
Step-i_config {x} id i n t h (counter_lowered idx v e l g m d) =
    (let e' = ap (λ (u : Device). bit_at n (get_or u.i_config i 0)) d in omega arith)
Step-i_config {x} id i n t h (slot_destroyed slot z e l g d) =
    (let e' = ap (λ (u : Device). bit_at n (get_or u.i_config i 0)) d in omega arith)

-- The I-Config is immutable but for clearing: under every command each bit of each register that
-- there is stays or goes from 1 to 0.
pub dispatch-i_config :
    (k : Crates) (rng : OsRng) (x : Ctx) (st : L3State) (c : List ℕ) (i n : ℕ)
    → i < length x.dev.i_config
    → bit_at n (get_or (dispatch k rng x st c).device.i_config i 0)
      ≤ bit_at n (get_or x.dev.i_config i 0)
dispatch-i_config k rng x st c i n h =
    Step-i_config (get_or c 0 0) i n _ h (dispatch-Step k rng x st c)
