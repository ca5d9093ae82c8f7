-- ===== src/Atecc/Device/Invariant.antt =====
-- ATECC608Sim/atecc608-sim/src/object_store/types.rs: the sizes of the device, and what may change
-- of it once its configuration is locked.
use simulators.Common.{
  ℕ, ◌≤◌, ◌<◌, ◌≡◌, refl, ap, ◌≢◌, ◌∙◌, sym, true, false, not, arith, length, get_or, get_elem?,
  set, length-set, get_or-set_ne, All, All-set, ◌==◌,
}
use simulators.Common.Bytes.{IsByte, IsBytes}
use simulators.Atecc.Device.{
  Device, SlotData, config_locked, data_locked, slot_locked, set_config_locked, set_data_locked,
  set_slot_locked,
}
use simulators.Atecc.Device.Locks.{slot_locked-set_slot_locked}

-- The arrays have their sizes, there are 16 slots, and no slot is longer than 72 bytes.
pub record IsDevice (d : Device) : Type 0 where
  pub config_sized : length d.config ≡ 128
  pub config_bytes : IsBytes d.config
  pub otp_sized : length d.otp ≡ 64
  pub slots_sized : length d.slots ≡ 16
  pub slots_bounded : All (λ (s : SlotData). length s.bytes ≤ 72) d.slots

-- What a locked device keeps from `d` to `d'`. Once the configuration is locked, it stays locked, and
-- its bytes but the lock bytes 86, 88 and 89 are kept; the lock of the data zone and those of the slots
-- then stay too. Before that a write to the configuration can open them again. While the data zone is
-- locked, the OTP zone is kept, and so is each locked slot.
pub record Evolves (d d' : Device) : Type 0 where
  pub config_stays : config_locked d ≡ true → config_locked d' ≡ true
  pub config_kept :
      config_locked d ≡ true
      → (i : ℕ) → i ≢ 86
      → i ≢ 88
      → i ≢ 89
      → get_or d'.config i 0 ≡ get_or d.config i 0
  pub data_stays : config_locked d ≡ true → data_locked d ≡ true → data_locked d' ≡ true
  pub slot_stays :
      config_locked d ≡ true → (i : ℕ) → i < 16 → slot_locked d i ≡ true → slot_locked d' i ≡ true
  pub otp_kept : data_locked d ≡ true → d'.otp ≡ d.otp
  pub slot_kept :
      data_locked d ≡ true
      → (i : ℕ) → slot_locked d i ≡ true
      → get_elem? d'.slots i ≡ get_elem? d.slots i

pub Evolves-refl : (d : Device) → Evolves d d
Evolves-refl d = record {
  config_stays = λ h. h;
  config_kept = λ h i a b c. refl;
  data_stays = λ h k. k;
  slot_stays = λ h i a k. k;
  otp_kept = λ h. refl;
  slot_kept = λ h i k. refl;
}

module _ (d : Device) (v : IsDevice d) where
  pub set_config_locked-IsDevice : IsDevice (set_config_locked d true)
  unfolding set_config_locked
  set_config_locked-IsDevice = record {
    config_sized = length-set d.config 87 0 ∙ v.config_sized;
    config_bytes = All-set IsByte d.config 87 0 v.config_bytes (omega arith);
    otp_sized = v.otp_sized;
    slots_sized = v.slots_sized;
    slots_bounded = v.slots_bounded;
  }

  pub set_data_locked-IsDevice : IsDevice (set_data_locked d true)
  unfolding set_data_locked
  set_data_locked-IsDevice = record {
    config_sized = length-set d.config 86 0 ∙ v.config_sized;
    config_bytes = All-set IsByte d.config 86 0 v.config_bytes (omega arith);
    otp_sized = v.otp_sized;
    slots_sized = v.slots_sized;
    slots_bounded = v.slots_bounded;
  }

  pub set_slot_locked-IsDevice : (slot : ℕ) → IsDevice (set_slot_locked d slot true)
  unfolding set_slot_locked
  set_slot_locked-IsDevice slot = record {
    config_sized = length-set (set d.config 88 _) 89 _ ∙ length-set d.config 88 _ ∙ v.config_sized;
    config_bytes =
        All-set IsByte (set d.config 88 _) 89 _
          (All-set IsByte d.config 88 _ v.config_bytes (omega arith)) (omega arith);
    otp_sized = v.otp_sized;
    slots_sized = v.slots_sized;
    slots_bounded = v.slots_bounded;
  }

  -- Only a configuration zone that is still open gets locked.
  pub set_config_locked-Evolves : config_locked d ≡ false → Evolves d (set_config_locked d true)
  unfolding set_config_locked
  set_config_locked-Evolves free = record {
    config_stays = λ h. cc;
    config_kept = λ h i a b c. cc;
    data_stays = λ h k. cc;
    slot_stays = λ h i a k. cc;
    otp_kept = λ h. refl;
    slot_kept = λ h i k. refl;
  }

  pub set_data_locked-Evolves : data_locked d ≡ false → Evolves d (set_data_locked d true)
  unfolding set_data_locked config_locked slot_locked
  set_data_locked-Evolves free = record {
    config_stays = λ h. ground (arith, get_or-set_ne d.config 86 87 0 0 (omega arith));
    config_kept = λ h i a b c. get_or-set_ne d.config 86 i 0 0 (λ e. a (sym e));
    data_stays = λ h k. cc;
    slot_stays = λ h i a k. ground (
      arith,
      get_or-set_ne d.config 86 88 0 0 (omega arith),
      get_or-set_ne d.config 86 89 0 0 (omega arith),
    );
    otp_kept = λ h. refl;
    slot_kept = λ h i k. refl;
  }

  set_slot_locked_elsewhere :
      (slot i : ℕ)
      → i ≢ 88
      → i ≢ 89
      → get_or (set_slot_locked d slot true).config i 0 ≡ get_or d.config i 0
  unfolding set_slot_locked
  set_slot_locked_elsewhere slot i b c =
      get_or-set_ne (set d.config 88 _) 89 i _ 0 (λ e. c (sym e))
      ∙ get_or-set_ne d.config 88 i _ 0 (λ e. b (sym e))

  config_locked-set_slot_locked :
      (slot : ℕ) → config_locked (set_slot_locked d slot true) ≡ config_locked d
  unfolding config_locked
  config_locked-set_slot_locked slot =
      ap (λ (k : ℕ). not (k == 0x55))
        (set_slot_locked_elsewhere slot 87 (omega arith) (omega arith))

  data_locked-set_slot_locked :
      (slot : ℕ) → data_locked (set_slot_locked d slot true) ≡ data_locked d
  unfolding data_locked
  data_locked-set_slot_locked slot =
      ap (λ (k : ℕ). not (k == 0x55))
        (set_slot_locked_elsewhere slot 86 (omega arith) (omega arith))

  pub set_slot_locked-Evolves : (slot : ℕ) → slot < 16 → Evolves d (set_slot_locked d slot true)
  set_slot_locked-Evolves slot small = record {
    config_stays = λ h. config_locked-set_slot_locked slot ∙ h;
    config_kept = λ h i a b c. set_slot_locked_elsewhere slot i b c;
    data_stays = λ h k. data_locked-set_slot_locked slot ∙ k;
    slot_stays = λ h i a k.
        ground (arith, slot_locked-set_slot_locked d v.config_sized v.config_bytes slot i small a);
    otp_kept = λ h. unfold set_slot_locked in refl;
    slot_kept = λ h i k. unfold set_slot_locked in refl;
  }
