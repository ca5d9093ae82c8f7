-- ===== src/Tropic01/L3/Uap.antt =====
-- TROPIC01Sim/tropic01-sim/src/handlers/l3.rs: the addresses of the User Access Privilege registers, `uap`.
use simulators.Common.{ℕ}

abbrev pub pairing_key_write : ℕ
pairing_key_write = 0x020

abbrev pub pairing_key_read : ℕ
pairing_key_read = 0x024

abbrev pub pairing_key_invalidate : ℕ
pairing_key_invalidate = 0x028

abbrev pub r_config_write_erase : ℕ
r_config_write_erase = 0x030

abbrev pub r_config_read : ℕ
r_config_read = 0x034

abbrev pub i_config_write : ℕ
i_config_write = 0x040

abbrev pub i_config_read : ℕ
i_config_read = 0x044

abbrev pub ping : ℕ
ping = 0x100

abbrev pub r_mem_data_write : ℕ
r_mem_data_write = 0x110

abbrev pub r_mem_data_read : ℕ
r_mem_data_read = 0x114

abbrev pub r_mem_data_erase : ℕ
r_mem_data_erase = 0x118

abbrev pub random_value_get : ℕ
random_value_get = 0x120

abbrev pub ecc_key_generate : ℕ
ecc_key_generate = 0x130

abbrev pub ecc_key_store : ℕ
ecc_key_store = 0x134

abbrev pub ecc_key_read : ℕ
ecc_key_read = 0x138

abbrev pub ecc_key_erase : ℕ
ecc_key_erase = 0x13c

abbrev pub ecdsa_sign : ℕ
ecdsa_sign = 0x140

abbrev pub eddsa_sign : ℕ
eddsa_sign = 0x144

abbrev pub mcounter_init : ℕ
mcounter_init = 0x150

abbrev pub mcounter_get : ℕ
mcounter_get = 0x154

abbrev pub mcounter_update : ℕ
mcounter_update = 0x158

abbrev pub mac_and_destroy : ℕ
mac_and_destroy = 0x160
