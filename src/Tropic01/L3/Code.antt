-- ===== src/Tropic01/L3/Code.antt =====
-- TROPIC01Sim/tropic01-sim/src/handlers/l3.rs: the result codes, `result`.
use simulators.Common.{ℕ}

abbrev pub ok : ℕ
ok = 0xc3

abbrev pub fail : ℕ
fail = 0x3c

abbrev pub unauthorized : ℕ
unauthorized = 0x01

abbrev pub invalid_cmd : ℕ
invalid_cmd = 0x02

abbrev pub slot_not_empty : ℕ
slot_not_empty = 0x10

abbrev pub slot_expired : ℕ
slot_expired = 0x11

abbrev pub invalid_key : ℕ
invalid_key = 0x12

abbrev pub update_err : ℕ
update_err = 0x13

abbrev pub counter_invalid : ℕ
counter_invalid = 0x14

abbrev pub slot_empty : ℕ
slot_empty = 0x15

abbrev pub slot_invalid : ℕ
slot_invalid = 0x16

abbrev pub hardware_fail : ℕ
hardware_fail = 0x17
