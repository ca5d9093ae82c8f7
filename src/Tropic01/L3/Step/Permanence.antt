-- ===== src/Tropic01/L3/Step/Permanence.antt =====
-- TROPIC01Sim/tropic01-sim/src/handlers/l3.rs: pairing keys, ECC keys and counters under every command.
use simulators.Common.{
  ℕ, suc, ◌≡◌, refl, ap, ◌∙◌, ◌≢◌, ◌⊎◌, inl, inr, Bool-cases, ==→eq, some, ◌==◌, List, get_or,
}
use simulators.Common.Maps.{lookup, lookup-insert, lookup-insert_ne, absent_ne}
use simulators.Tropic01.Store.{Device, PairingSlot, PairingState, EccSlot}
use simulators.Tropic01.L3.CmdId
use simulators.Tropic01.L3.{Crates, Ctx, OsRng}
use simulators.Tropic01.L3.Dispatch.{L3State, dispatch}
use simulators.Tropic01.L3.Pairing.{write_pairing_key, invalidate_pairing_key}
use simulators.Tropic01.L3.Config.{write_r_config, erase_r_config, clear_i_config}
use simulators.Tropic01.L3.Memory.{write_r_mem, erase_r_mem, set_mcounter, set_macandd}
use simulators.Tropic01.L3.Keys.{set_ecc, erase_ecc}
use simulators.Tropic01.L3.Step.{
  Step, unchanged, key_written, key_invalidated, register_written, registers_erased, bit_cleared,
  memory_written, memory_erased, ecc_generated, ecc_stored, ecc_erased, counter_set,
  counter_lowered, slot_destroyed,
}
use simulators.Tropic01.L3.Step.Dispatch.{dispatch-Step}

-- What a pairing slot that holds `s` may hold later.
abbrev KeyKept : ℕ → PairingSlot → Device → Type 0
KeyKept k s d =
    (s' : PairingSlot) × (lookup k d.pairing_slots ≡ some s')
    × ((s'.public_key ≡ s.public_key) × ((s' ≡ s) ⊎ (s'.state ≡ PairingState.invalidated)))

same_slots :
    (x : Ctx) (k : ℕ) (s : PairingSlot) (d : Device)
    → lookup k x.dev.pairing_slots ≡ some s
    → d.pairing_slots ≡ x.dev.pairing_slots
    → KeyKept k s d
same_slots x k s d h e = (s, ap (lookup k) e ∙ h, (refl, inl refl))

Step-pairing_key :
    {x : Ctx} {w : Crates} {rng : OsRng} (id k : ℕ) (s : PairingSlot) (t : Device)
    → lookup k x.dev.pairing_slots ≡ some s
    → Step w rng x id t
    → KeyKept k s t
unfolding write_pairing_key invalidate_pairing_key write_r_config erase_r_config clear_i_config
    write_r_mem erase_r_mem set_mcounter set_macandd set_ecc erase_ecc
Step-pairing_key {x} id k s t h (unchanged d) =
    same_slots x k s t h (ap (λ (u : Device). u.pairing_slots) d)
Step-pairing_key {x} id k s t h (key_written slot key e l g n d) =
    let ne : slot ≢ k = absent_ne x.dev.pairing_slots n h in
    (
      s,
      ap (λ (u : Device). lookup k u.pairing_slots) d
          ∙ lookup-insert_ne slot k _ x.dev.pairing_slots ne
          ∙ h,
      (refl, inl refl),
    )
Step-pairing_key {x} id k s t h (key_invalidated slot z e l g n d) =
    let now =
      ap (λ (u : Device). lookup k u.pairing_slots) d
      ∙ lookup-insert slot k _ x.dev.pairing_slots in
    elim (Bool-cases (slot == k)) [
      | inr f ↦ (s, now ∙ rw f h, (refl, inl refl))
      | inl f ↦
          let q : slot ≡ k = ==→eq slot k f in
          let same : z ≡ s = cc in
          (
            record z { state = PairingState.invalidated },
            now ∙ rw f refl,
            (ap (λ (u : PairingSlot). u.public_key) same, inr refl),
          )
    ]
Step-pairing_key {x} id k s t h (register_written i v e l g n d) =
    same_slots x k s t h (ap (λ (u : Device). u.pairing_slots) d)
Step-pairing_key {x} id k s t h (registers_erased e g d) =
    same_slots x k s t h (ap (λ (u : Device). u.pairing_slots) d)
Step-pairing_key {x} id k s t h (bit_cleared i bit e l b g d) =
    same_slots x k s t h (ap (λ (u : Device). u.pairing_slots) d)
Step-pairing_key {x} id k s t h (memory_written slot content e l g lo hi n d) =
    same_slots x k s t h (ap (λ (u : Device). u.pairing_slots) d)
Step-pairing_key {x} id k s t h (memory_erased slot e l g d) =
    same_slots x k s t h (ap (λ (u : Device). u.pairing_slots) d)
Step-pairing_key {x} id k s t h (ecc_generated slot curve e l g n d) =
    same_slots x k s t h (ap (λ (u : Device). u.pairing_slots) d)
Step-pairing_key {x} id k s t h (ecc_stored slot curve key e l g n size ok_key d) =
    same_slots x k s t h (ap (λ (u : Device). u.pairing_slots) d)
Step-pairing_key {x} id k s t h (ecc_erased slot e l g d) =
    same_slots x k s t h (ap (λ (u : Device). u.pairing_slots) d)
Step-pairing_key {x} id k s t h (counter_set idx v e l g b d) =
    same_slots x k s t h (ap (λ (u : Device). u.pairing_slots) d)
Step-pairing_key {x} id k s t h (counter_lowered idx v e l g n d) =
    same_slots x k s t h (ap (λ (u : Device). u.pairing_slots) d)
Step-pairing_key {x} id k s t h (slot_destroyed slot z e l g d) =
    same_slots x k s t h (ap (λ (u : Device). u.pairing_slots) d)

-- A pairing key that was written once stays: no command replaces it or removes it, and what a command
-- can do to its slot is to invalidate it, which is for good.
pub dispatch-pairing_key :
    (k : Crates) (rng : OsRng) (x : Ctx) (st : L3State) (c : List ℕ) (slot : ℕ) (s : PairingSlot)
    → lookup slot x.dev.pairing_slots ≡ some s
    → (s' : PairingSlot) × (lookup slot (dispatch k rng x st c).device.pairing_slots ≡ some s')
      × ((s'.public_key ≡ s.public_key) × ((s' ≡ s) ⊎ (s'.state ≡ PairingState.invalidated)))
dispatch-pairing_key k rng x st c slot s h =
    Step-pairing_key (get_or c 0 0) slot s _ h (dispatch-Step k rng x st c)

Step-ecc_key :
    {x : Ctx} {w : Crates} {rng : OsRng} (id k : ℕ) (s : EccSlot) (t : Device)
    → lookup k x.dev.ecc_slots ≡ some s
    → id ≢ CmdId.ecc_key_erase
    → Step w rng x id t
    → lookup k t.ecc_slots ≡ some s
unfolding write_pairing_key invalidate_pairing_key write_r_config erase_r_config clear_i_config
    write_r_mem erase_r_mem set_mcounter set_macandd set_ecc erase_ecc
Step-ecc_key {x} id k s t h m (unchanged d) = ap (λ (u : Device). lookup k u.ecc_slots) d ∙ h
Step-ecc_key {x} id k s t h m (key_written slot key e l g n d) =
    ap (λ (u : Device). lookup k u.ecc_slots) d ∙ h
Step-ecc_key {x} id k s t h m (key_invalidated slot z e l g n d) =
    ap (λ (u : Device). lookup k u.ecc_slots) d ∙ h
Step-ecc_key {x} id k s t h m (register_written i v e l g n d) =
    ap (λ (u : Device). lookup k u.ecc_slots) d ∙ h
Step-ecc_key {x} id k s t h m (registers_erased e g d) =
    ap (λ (u : Device). lookup k u.ecc_slots) d ∙ h
Step-ecc_key {x} id k s t h m (bit_cleared i bit e l b g d) =
    ap (λ (u : Device). lookup k u.ecc_slots) d ∙ h
Step-ecc_key {x} id k s t h m (memory_written slot content e l g lo hi n d) =
    ap (λ (u : Device). lookup k u.ecc_slots) d ∙ h
Step-ecc_key {x} id k s t h m (memory_erased slot e l g d) =
    ap (λ (u : Device). lookup k u.ecc_slots) d ∙ h
Step-ecc_key {x} id k s t h m (ecc_generated slot curve e l g n d) =
    ap (λ (u : Device). lookup k u.ecc_slots) d
    ∙ lookup-insert_ne slot k _ x.dev.ecc_slots (absent_ne x.dev.ecc_slots n h)
    ∙ h
Step-ecc_key {x} id k s t h m (ecc_stored slot curve key e l g n size ok_key d) =
    ap (λ (u : Device). lookup k u.ecc_slots) d
    ∙ lookup-insert_ne slot k _ x.dev.ecc_slots (absent_ne x.dev.ecc_slots n h)
    ∙ h
Step-ecc_key {x} id k s t h m (ecc_erased slot e l g d) = absurd (m e)
Step-ecc_key {x} id k s t h m (counter_set idx v e l g b d) =
    ap (λ (u : Device). lookup k u.ecc_slots) d ∙ h
Step-ecc_key {x} id k s t h m (counter_lowered idx v e l g n d) =
    ap (λ (u : Device). lookup k u.ecc_slots) d ∙ h
Step-ecc_key {x} id k s t h m (slot_destroyed slot z e l g d) =
    ap (λ (u : Device). lookup k u.ecc_slots) d ∙ h

-- An ECC key stays in its slot, unchanged, under every command but ECC_Key_Erase.
pub dispatch-ecc_key :
    (k : Crates) (rng : OsRng) (x : Ctx) (st : L3State) (c : List ℕ) (slot : ℕ) (s : EccSlot)
    → lookup slot x.dev.ecc_slots ≡ some s
    → get_or c 0 0 ≢ CmdId.ecc_key_erase
    → lookup slot (dispatch k rng x st c).device.ecc_slots ≡ some s
dispatch-ecc_key k rng x st c slot s h m =
    Step-ecc_key (get_or c 0 0) slot s _ h m (dispatch-Step k rng x st c)

abbrev CounterKept : ℕ → ℕ → Device → Type 0
CounterKept k v d = (w : ℕ) × (lookup k d.mcounters ≡ some w) × ((w ≡ v) ⊎ (v ≡ suc w))

Step-mcounter :
    {x : Ctx} {w : Crates} {rng : OsRng} (id k v : ℕ) (t : Device)
    → lookup k x.dev.mcounters ≡ some v
    → id ≢ CmdId.mcounter_init
    → Step w rng x id t
    → CounterKept k v t
unfolding write_pairing_key invalidate_pairing_key write_r_config erase_r_config clear_i_config
    write_r_mem erase_r_mem set_mcounter set_macandd set_ecc erase_ecc
Step-mcounter {x} id k v t h m (unchanged d) =
    (v, ap (λ (u : Device). lookup k u.mcounters) d ∙ h, inl refl)
Step-mcounter {x} id k v t h m (key_written slot key e l g n d) =
    (v, ap (λ (u : Device). lookup k u.mcounters) d ∙ h, inl refl)
Step-mcounter {x} id k v t h m (key_invalidated slot z e l g n d) =
    (v, ap (λ (u : Device). lookup k u.mcounters) d ∙ h, inl refl)
Step-mcounter {x} id k v t h m (register_written i u0 e l g n d) =
    (v, ap (λ (u : Device). lookup k u.mcounters) d ∙ h, inl refl)
Step-mcounter {x} id k v t h m (registers_erased e g d) =
    (v, ap (λ (u : Device). lookup k u.mcounters) d ∙ h, inl refl)
Step-mcounter {x} id k v t h m (bit_cleared i bit e l b g d) =
    (v, ap (λ (u : Device). lookup k u.mcounters) d ∙ h, inl refl)
Step-mcounter {x} id k v t h m (memory_written slot content e l g lo hi n d) =
    (v, ap (λ (u : Device). lookup k u.mcounters) d ∙ h, inl refl)
Step-mcounter {x} id k v t h m (memory_erased slot e l g d) =
    (v, ap (λ (u : Device). lookup k u.mcounters) d ∙ h, inl refl)
Step-mcounter {x} id k v t h m (ecc_generated slot curve e l g n d) =
    (v, ap (λ (u : Device). lookup k u.mcounters) d ∙ h, inl refl)
Step-mcounter {x} id k v t h m (ecc_stored slot curve key e l g n size ok_key d) =
    (v, ap (λ (u : Device). lookup k u.mcounters) d ∙ h, inl refl)
Step-mcounter {x} id k v t h m (ecc_erased slot e l g d) =
    (v, ap (λ (u : Device). lookup k u.mcounters) d ∙ h, inl refl)
Step-mcounter {x} id k v t h m (counter_set idx u0 e l g b d) = absurd (m e)
Step-mcounter {x} id k v t h m (counter_lowered idx w e l g n d) =
    let now = ap (λ (u : Device). lookup k u.mcounters) d ∙ lookup-insert idx k w x.dev.mcounters in
    elim (Bool-cases (idx == k)) [
      | inr f ↦ (v, now ∙ rw f h, inl refl)
      | inl f ↦
          let q : idx ≡ k = ==→eq idx k f in
          let same : v ≡ suc w = cc in (w, now ∙ rw f refl, inr same)
    ]
Step-mcounter {x} id k v t h m (slot_destroyed slot z e l g d) =
    (v, ap (λ (u : Device). lookup k u.mcounters) d ∙ h, inl refl)

-- Under every command but MCounter_Init a counter keeps its value or goes down by exactly one: it is
-- never raised and never lost.
pub dispatch-mcounter :
    (k : Crates) (rng : OsRng) (x : Ctx) (st : L3State) (c : List ℕ) (idx v : ℕ)
    → lookup idx x.dev.mcounters ≡ some v
    → get_or c 0 0 ≢ CmdId.mcounter_init
    → (w : ℕ) × (lookup idx (dispatch k rng x st c).device.mcounters ≡ some w)
      × ((w ≡ v) ⊎ (v ≡ suc w))
dispatch-mcounter k rng x st c idx v h m =
    Step-mcounter (get_or c 0 0) idx v _ h m (dispatch-Step k rng x st c)
