-- ===== src/Tropic01/L3/CmdId.antt =====
-- TROPIC01Sim/tropic01-sim/src/handlers/l3.rs: the command identifiers, `cmd_id`.
use simulators.Common.{ℕ}

abbrev pub ping : ℕ
ping = 0x01

abbrev pub pairing_key_write : ℕ
pairing_key_write = 0x10

abbrev pub pairing_key_read : ℕ
pairing_key_read = 0x11

abbrev pub pairing_key_invalidate : ℕ
pairing_key_invalidate = 0x12

abbrev pub r_config_write : ℕ
r_config_write = 0x20

abbrev pub r_config_read : ℕ
r_config_read = 0x21

abbrev pub r_config_erase : ℕ
r_config_erase = 0x22

abbrev pub i_config_write : ℕ
i_config_write = 0x30

abbrev pub i_config_read : ℕ
i_config_read = 0x31

abbrev pub r_mem_data_write : ℕ
r_mem_data_write = 0x40

abbrev pub r_mem_data_read : ℕ
r_mem_data_read = 0x41

abbrev pub r_mem_data_erase : ℕ
r_mem_data_erase = 0x42

abbrev pub random_value_get : ℕ
random_value_get = 0x50

abbrev pub ecc_key_generate : ℕ
ecc_key_generate = 0x60

abbrev pub ecc_key_store : ℕ
ecc_key_store = 0x61

abbrev pub ecc_key_read : ℕ
ecc_key_read = 0x62

abbrev pub ecc_key_erase : ℕ
ecc_key_erase = 0x63

abbrev pub ecdsa_sign : ℕ
ecdsa_sign = 0x70

abbrev pub eddsa_sign : ℕ
eddsa_sign = 0x71

abbrev pub mcounter_init : ℕ
mcounter_init = 0x80

abbrev pub mcounter_update : ℕ
mcounter_update = 0x81

abbrev pub mcounter_get : ℕ
mcounter_get = 0x82

abbrev pub mac_and_destroy : ℕ
mac_and_destroy = 0x90
