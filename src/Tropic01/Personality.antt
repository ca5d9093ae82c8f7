-- ===== src/Tropic01/Personality.antt =====
-- TROPIC01Sim/tropic01-sim/src/personality.rs: the chips that the simulator models, each a part with
-- a firmware, and what differs between them. The names, the CHIP_ID object and the provisioned keys
-- are data of a fresh device and are not modelled.
use simulators.Common.{ℕ, List, [], ◌∷◌, Bool, true, false}
use simulators.Common.Slices.{resize}

pub data Personality : Type 0 where
  es012 es220 fw220 : Personality

pub data Part : Type 0 where
  engineering_sample production : Part

pub data Firmware : Type 0 where
  v0_1_2 v2_2_0 : Firmware

abbrev pub part : Personality → Part
part es012 = engineering_sample
part es220 = engineering_sample
part fw220 = production

abbrev pub firmware : Personality → Firmware
firmware es012 = v0_1_2
firmware es220 = v2_2_0
firmware fw220 = v2_2_0

abbrev pub riscv_fw_version : Personality → List ℕ
riscv_fw_version p = elim (firmware p) [
  | v0_1_2 ↦ 0x00 ∷ 0x02 ∷ 0x01 ∷ 0x00 ∷ []
  | v2_2_0 ↦ 0x00 ∷ 0x00 ∷ 0x02 ∷ 0x02 ∷ []
]

abbrev pub spect_fw_version : Personality → List ℕ
spect_fw_version p = elim (firmware p) [
  | v0_1_2 ↦ 0x00 ∷ 0x01 ∷ 0x03 ∷ 0x00 ∷ []
  | v2_2_0 ↦ 0x00 ∷ 0x00 ∷ 0x03 ∷ 0x01 ∷ []
]

-- The sizes of the application's and of SPECT's image.
abbrev pub fw_image_sizes : Personality → ℕ × ℕ
fw_image_sizes p = elim (firmware p) [ v0_1_2 ↦ (0x5ec0, 0x2350) | v2_2_0 ↦ (0x5374, 0x2920) ]

abbrev pub fw_bank2_written : Personality → Bool
fw_bank2_written es220 = true
fw_bank2_written es012 = false
fw_bank2_written fw220 = false

abbrev pub bootloader_version : Personality → List ℕ
bootloader_version p = elim (part p) [
  | engineering_sample ↦ 0x00 ∷ 0x01 ∷ 0x00 ∷ 0x81 ∷ []
  | production ↦ 0x00 ∷ 0x01 ∷ 0x00 ∷ 0x82 ∷ []
]

abbrev pub bootloader_spect_version : Personality → List ℕ
bootloader_spect_version p = 0x00 ∷ 0x00 ∷ 0x00 ∷ 0x80 ∷ []

abbrev pub fw_bank_header_len : Personality → ℕ
fw_bank_header_len p = elim (part p) [ engineering_sample ↦ 20 | production ↦ 52 ]

abbrev pub r_mem_slot_max : Personality → ℕ
r_mem_slot_max p = elim (firmware p) [ v0_1_2 ↦ 444 | v2_2_0 ↦ 475 ]

is_v2_2_0 : Firmware → Bool
is_v2_2_0 v0_1_2 = false
is_v2_2_0 v2_2_0 = true

is_v0_1_2 : Firmware → Bool
is_v0_1_2 v0_1_2 = true
is_v0_1_2 v2_2_0 = false

unfoldable pub strict_l3_sizes : Personality → Bool
unfolding is_v2_2_0
strict_l3_sizes p = is_v2_2_0 (firmware p)

unfoldable pub busy_poll_ready : Personality → Bool
unfolding is_v2_2_0
busy_poll_ready p = is_v2_2_0 (firmware p)

unfoldable pub bad_pairing_index_alarms : Personality → Bool
unfolding is_v0_1_2
bad_pairing_index_alarms p = is_v0_1_2 (firmware p)

unfoldable pub eddsa_empty_message_unsigned : Personality → Bool
unfolding is_v0_1_2
eddsa_empty_message_unsigned p = is_v0_1_2 (firmware p)

-- b"TROPIC01Sim: firmware debug log is not modelled\n".
abbrev log_text : List ℕ
log_text =
    84 ∷ 82 ∷ 79 ∷ 80 ∷ 73 ∷ 67 ∷ 48 ∷ 49 ∷ 83 ∷ 105 ∷ 109 ∷ 58 ∷ 32 ∷ 102 ∷ 105 ∷ 114 ∷ 109 ∷ 119
    ∷ 97 ∷ 114 ∷ 101 ∷ 32 ∷ 100 ∷ 101 ∷ 98 ∷ 117 ∷ 103 ∷ 32 ∷ 108 ∷ 111 ∷ 103 ∷ 32 ∷ 105 ∷ 115 ∷ 32
    ∷ 110 ∷ 111 ∷ 116 ∷ 32 ∷ 109 ∷ 111 ∷ 100 ∷ 101 ∷ 108 ∷ 108 ∷ 101 ∷ 100 ∷ 10 ∷ []

unfoldable pub fw_log : Personality → List ℕ
unfolding resize
fw_log p = elim (part p) [ engineering_sample ↦ resize 252 0 log_text | production ↦ [] ]

abbrev pub default_r_config_start_up : Personality → ℕ
default_r_config_start_up es012 = 0xffff_ffef
default_r_config_start_up es220 = 0xffff_ffeb
default_r_config_start_up fw220 = 0xffff_ffff

abbrev pub default_i_config_start_up : Personality → ℕ
default_i_config_start_up es220 = 0xffff_fffb
default_i_config_start_up es012 = 0xffff_ffff
default_i_config_start_up fw220 = 0xffff_ffff
