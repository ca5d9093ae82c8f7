-- ===== src/Tropic01/L3/Step/Gates.antt =====
-- TROPIC01Sim/tropic01-sim/src/handlers/l3.rs: what the first step of a command has tested when it
-- gives a slot or a register.
use simulators.Common.{
  ℕ, ◌*◌, ◌/◌, ◌%◌, ◌≤◌, ◌<◌, ◌≡◌, refl, Bool, Option, none, some, length, true, false, subst, not,
  List, ltb, leb, ◌==◌, if◌then◌else◌, arith, ◌⊎◌, inl, inr, Bool-cases, if_intro,
}
use simulators.Common.Results.{Result, ok, err}
use simulators.Tropic01.Store.{PairingState}
use simulators.Tropic01.L3.{Crates, OsRng, Ctx, Answer, reads, allowed, u16_at}
use simulators.Tropic01.L3.Step.{Step, unchanged}
use simulators.Tropic01.L3.Config.{config_addr, config_object_size}
use simulators.Tropic01.L3.Memory.{r_mem_slot, r_mem_slot_last, mcounter_index, mcounter_last}
use simulators.Tropic01.L3.Keys.{ecc_slot, ecc_slot_last}

pub not-false : (b : Bool) → not b ≡ false → b ≡ true
not-false b h = ground arith

pub leb-le : (a b : ℕ) → leb a b ≡ true → a ≤ b
leb-le a b h = ground arith

pub not-ltb : (a b : ℕ) → ltb a b ≡ false → b ≤ a
not-ltb a b h = ground arith

pub not-leb : (a b : ℕ) → leb a b ≡ false → b < a
not-leb a b h = ground arith

-- A step under a reading: where the reading panics the device is unchanged.
pub reads-Step :
    {k : Crates} {rng : OsRng} {x : Ctx} {id : ℕ} (n : ℕ) (c : List ℕ) (a : Answer)
    → Step k rng x id a.1
    → Step k rng x id (reads n c x.dev a).1
unfolding reads
reads-Step {k} {rng} {x} {id} n c a h =
    if_intro (λ (r : Answer). Step k rng x id r.1) (leb n (length c)) (λ _. h) (λ _. unchanged refl)

pub PairingState-cases :
    (s : PairingState) → (s ≡ PairingState.written) ⊎ (s ≡ PairingState.invalidated)
PairingState-cases PairingState.written = inl refl
PairingState-cases PairingState.invalidated = inr refl

-- The first half of the registers are those below the address 0x100.
ltb-words : (addr i : ℕ) → (addr % 4 == 0) ≡ true → addr / 4 ≡ i → ltb addr 0x100 ≡ ltb i 64
ltb-words addr i m q = ground arith

pub config_addr-ok :
    (x : Ctx) (addr u i : ℕ)
    → config_addr x addr u ≡ ok i
    → (i < 128) × (allowed x u (if ltb i 64 then 0 else 8) ≡ true)
unfolding config_addr
config_addr-ok x addr u i h =
    let pos : ℕ = if ltb addr 0x100 then 0 else 8 in
    elim (Bool-cases (leb config_object_size addr)) [
      | inl e ↦ absurd (let h' = rw e at h in cc)
      | inr e ↦ elim (Bool-cases (allowed x u pos)) [
        | inr g ↦ absurd (let h' = rw (e, g) at h in cc)
        | inl g ↦ elim (Bool-cases (addr % 4 == 0)) [
          | inr m ↦ absurd (let h' = rw (e, g, m) at h in cc)
          | inl m ↦
              let h' = rw (e, g, m) at h in
              let q : addr / 4 ≡ i = cc in
              let below = not-leb config_object_size addr e in
              (
                omega arith,
                subst (λ (b : Bool). allowed x u (if b then 0 else 8) ≡ true) (ltb-words addr i m q)
                    g,
              )
        ]
      ]
    ]

-- The form of `r_mem_slot`, `ecc_slot` and `mcounter_index`.
pub gate-ok :
    (last slot : ℕ) (r g : Bool) (e i : ℕ)
    → ◌≡◌ {A = Result ℕ (Option ℕ)}
        (if not r
          then err none
          else (if ltb last slot then err (some e) else (if not g then err (some e) else ok slot)))
        (ok i)
    → (slot ≡ i) × (i ≤ last) × (g ≡ true)
gate-ok last slot r g e i h = elim (Bool-cases r) [
  | inr n ↦ absurd (let h' = rw n at h in cc)
  | inl n ↦ elim (Bool-cases (ltb last slot)) [
    | inl l ↦ absurd (let h' = rw (n, l) at h in cc)
    | inr l ↦ elim (Bool-cases g) [
      | inr f ↦ absurd (let h' = rw (n, l, f) at h in cc)
      | inl t ↦
          let h' = rw (n, l, t) at h in
          let q : slot ≡ i = cc in let below = not-ltb last slot l in (q, omega arith, t)
    ]
  ]
]

pub r_mem_slot-ok :
    (x : Ctx) (c : List ℕ) (u i : ℕ)
    → r_mem_slot x c u ≡ ok i
    → (i ≤ r_mem_slot_last) × (allowed x u (i / 128 * 8) ≡ true)
unfolding r_mem_slot
r_mem_slot-ok x c u i h =
    let slot = u16_at c 1 in
    let (q, l, g) =
      gate-ok r_mem_slot_last slot (leb 3 (length c)) (allowed x u (slot / 128 * 8)) _ i h in
    (l, subst (λ (t : ℕ). allowed x u (t / 128 * 8) ≡ true) q g)

pub mcounter_index-ok :
    (x : Ctx) (c : List ℕ) (u i : ℕ)
    → mcounter_index x c u ≡ ok i
    → (i ≤ mcounter_last) × (allowed x u (i / 4 * 8) ≡ true)
unfolding mcounter_index
mcounter_index-ok x c u i h =
    let slot = u16_at c 1 in
    let (q, l, g) =
      gate-ok mcounter_last slot (leb 3 (length c)) (allowed x u (slot / 4 * 8)) _ i h in
    (l, subst (λ (t : ℕ). allowed x u (t / 4 * 8) ≡ true) q g)

pub ecc_slot-ok :
    (x : Ctx) (c : List ℕ) (u i : ℕ)
    → ecc_slot x c u ≡ ok i
    → (i ≤ ecc_slot_last) × (allowed x u (i / 8 * 8) ≡ true)
unfolding ecc_slot
ecc_slot-ok x c u i h =
    let slot = u16_at c 1 in
    let (q, l, g) =
      gate-ok ecc_slot_last slot (leb 3 (length c)) (allowed x u (slot / 8 * 8)) _ i h in
    (l, subst (λ (t : ℕ). allowed x u (t / 8 * 8) ≡ true) q g)
