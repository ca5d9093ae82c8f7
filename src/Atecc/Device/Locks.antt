-- ===== src/Atecc/Device/Locks.antt =====
-- The lock bytes of the configuration zone: what each setter does to each test.
use simulators.Common.{
  ℕ, ◌-◌, ◌^◌, ◌<◌, bit_and, ◌≡◌, refl, ap, Bool, true, ◌||◌, arith, length, set, length-set,
  get_or-set_self, get_or-set_ne, ◌==◌, All-get_or, if◌then◌else◌,
}
use simulators.Common.Bytes.{IsByte, IsBytes, hi, lo}
use simulators.Common.Bits.{
  bit_at, bit_at-lt, bit_at-bit_and, bit_and_one_at, bit_and-lt, all_below, all_below_sound,
}
use simulators.Atecc.Device.{Device, lock_word, slot_locked, set_slot_locked}

-- A slot is locked when its digit of the word is 0.
slot_locked-bit_at : (d : Device) (i : ℕ) → slot_locked d i ≡ (bit_at i (lock_word d) == 0)
unfolding slot_locked
slot_locked-bit_at d i = ap (λ (k : ℕ). k == 0) (bit_and_one_at i (lock_word d))

-- The mask has every digit but the one of the slot.
mask_test : ℕ → ℕ → Bool
mask_test slot i = bit_at i (0xFFFF - 2 ^ slot) == (if i == slot then 0 else 1)

mask_table : all_below 16 (λ slot. all_below 16 (mask_test slot)) ≡ true
unfolding all_below mask_test bit_at
mask_table = refl

bit_at-mask :
    (slot i : ℕ) → slot < 16 → i < 16 → bit_at i (0xFFFF - 2 ^ slot) ≡ (if i == slot then 0 else 1)
bit_at-mask slot i hs hi' =
    let row = all_below_sound 16 (λ j. all_below 16 (mask_test j)) mask_table slot hs in
    unfold mask_test in ground (arith, all_below_sound 16 (mask_test slot) row i hi')

module _ (d : Device) (sized : length d.config ≡ 128) (bytes : IsBytes d.config) (slot : ℕ) where
  masked : ℕ
  masked = bit_and (lock_word d) (0xFFFF - 2 ^ slot)

  masked-lt : masked < 65536
  unfolding masked
  masked-lt = bit_and-lt 16 (lock_word d) (0xFFFF - 2 ^ slot) (
      omega (
        arith,
        All-get_or IsByte d.config 88 0 (omega arith) bytes,
        All-get_or IsByte d.config 89 0 (omega arith) bytes,
      ))

  lock_word-set_slot_locked : lock_word (set_slot_locked d slot true) ≡ masked
  unfolding set_slot_locked masked
  lock_word-set_slot_locked =
      let c = set d.config 88 (lo masked) in
      omega (
        arith,
        masked-lt,
        get_or-set_self c 89 (hi masked) 0 (omega (arith, length-set d.config 88 (lo masked))),
        get_or-set_ne c 89 88 (hi masked) 0 (omega arith),
        get_or-set_self d.config 88 (lo masked) 0 (omega arith),
      )

  -- Locking one of the 16 slots locks that slot, and leaves the lock of every other as it was.
  pub slot_locked-set_slot_locked :
      (i : ℕ)
      → slot < 16
      → i < 16
      → slot_locked (set_slot_locked d slot true) i ≡ (i == slot || slot_locked d i)
  unfolding masked
  slot_locked-set_slot_locked i hs hi' = ground (
    arith,
    slot_locked-bit_at d i,
    slot_locked-bit_at (set_slot_locked d slot true) i,
    ap (bit_at i) lock_word-set_slot_locked,
    bit_at-bit_and i (lock_word d) (0xFFFF - 2 ^ slot),
    bit_at-mask slot i hs hi',
    bit_at-lt i (lock_word d),
  )
