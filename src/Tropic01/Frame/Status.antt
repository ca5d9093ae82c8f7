-- ===== src/Tropic01/Frame/Status.antt =====
-- TROPIC01Sim/tropic01-sim/src/frame.rs: the status bytes of L2, `status`.
use simulators.Common.{ℕ}

abbrev pub request_ok : ℕ
request_ok = 0x01

abbrev pub result_ok : ℕ
result_ok = 0x02

abbrev pub request_cont : ℕ
request_cont = 0x03

abbrev pub result_cont : ℕ
result_cont = 0x04

abbrev pub resp_disabled : ℕ
resp_disabled = 0x78

abbrev pub hsk_err : ℕ
hsk_err = 0x79

abbrev pub no_session : ℕ
no_session = 0x7a

abbrev pub tag_err : ℕ
tag_err = 0x7b

abbrev pub crc_err : ℕ
crc_err = 0x7c

abbrev pub unknown_err : ℕ
unknown_err = 0x7e

abbrev pub gen_err : ℕ
gen_err = 0x7f

abbrev pub no_resp : ℕ
no_resp = 0xff
