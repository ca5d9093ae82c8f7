-- ===== src/Tropic01/L3/Total.antt =====
-- TROPIC01Sim/tropic01-sim/src/handlers/l3.rs: the readings of the commands, where Rust panics out of
-- range.
pub mod Commands
pub mod Slots
pub mod Dispatch
use simulators.Common.{
  ℕ, ◌≤◌, ◌≡◌, refl, subst, Bool, true, false, not, Option, none, some, List, length, ltb, leb,
  ◌==◌, ◌&&◌, if◌then◌else◌, arith, inl, inr, Bool-cases, le→leb,
}
use simulators.Common.Results.{Result, ok, err}
use simulators.Tropic01.Store.{Device}
use simulators.Tropic01.L3.Code
use simulators.Tropic01.L3.{Ctx, Answer, reads, refusal, allowed, u16_at}
use simulators.Tropic01.L3.Memory.{r_mem_slot, r_mem_slot_last, mcounter_index, mcounter_last}
use simulators.Tropic01.L3.Keys.{ecc_slot, ecc_slot_last}

-- The command has a result: it does not panic.
abbrev pub Answers : Answer → Type 0
Answers a = (r : List ℕ) × (a.0 ≡ some r)

pub reads-Answers :
    (n : ℕ) (c : List ℕ) (d : Device) (a : Answer)
    → n ≤ length c
    → Answers a
    → Answers (reads n c d a)
unfolding reads
reads-Answers n c d a h p = rw (le→leb n (length c) h) p

pub exactly : (m n : ℕ) → (n == m) ≡ true → m ≤ n
exactly m n h = ground arith

pub between : (low high n : ℕ) → (leb low n && leb n high) ≡ true → low ≤ n
between low high n h = ground arith

abbrev Refused : Option ℕ → Type 0
Refused e = (r : List ℕ) × (refusal e ≡ some r)

-- A gate that could read the slot refuses with a code.
gate-Refused :
    (last slot : ℕ) (r g : Bool) (f : ℕ) (e : Option ℕ)
    → r ≡ true
    → ◌≡◌ {A = Result ℕ (Option ℕ)}
        (if not r
          then err none
          else (if ltb last slot then err (some f) else (if not g then err (some f) else ok slot)))
        (err e)
    → Refused e
unfolding refusal
gate-Refused last slot r g f e t h = elim (Bool-cases (ltb last slot)) [
  | inl l ↦ let h' = rw (t, l) at h in let q : some f ≡ e = cc in subst Refused q (_, refl)
  | inr l ↦ elim (Bool-cases g) [
    | inl b ↦ absurd (let h' = rw (t, l, b) at h in cc)
    | inr b ↦ let h' = rw (t, l, b) at h in let q : some f ≡ e = cc in subst Refused q (_, refl)
  ]
]

pub r_mem_slot-Refused :
    (x : Ctx) (c : List ℕ) (u : ℕ) (e : Option ℕ)
    → 3 ≤ length c
    → r_mem_slot x c u ≡ err e
    → Refused e
unfolding r_mem_slot
r_mem_slot-Refused x c u e n h =
    gate-Refused r_mem_slot_last (u16_at c 1) (leb 3 (length c)) _ Code.unauthorized e
      (le→leb 3 (length c) n) h

pub mcounter_index-Refused :
    (x : Ctx) (c : List ℕ) (u : ℕ) (e : Option ℕ)
    → 3 ≤ length c
    → mcounter_index x c u ≡ err e
    → Refused e
unfolding mcounter_index
mcounter_index-Refused x c u e n h =
    gate-Refused mcounter_last (u16_at c 1) (leb 3 (length c)) _ Code.unauthorized e
      (le→leb 3 (length c) n) h

pub ecc_slot-Refused :
    (x : Ctx) (c : List ℕ) (u : ℕ) (e : Option ℕ)
    → 3 ≤ length c
    → ecc_slot x c u ≡ err e
    → Refused e
unfolding ecc_slot
ecc_slot-Refused x c u e n h =
    gate-Refused ecc_slot_last (u16_at c 1) (leb 3 (length c)) _ Code.unauthorized e
      (le→leb 3 (length c) n) h
