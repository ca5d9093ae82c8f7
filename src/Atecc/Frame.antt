-- ===== src/Atecc/Frame.antt =====
-- ATECC608Sim/atecc608-sim/src/atca.rs: command packets and response packets.
-- A failed `assert!` is `none`.
pub mod Packets
pub mod Responses
use simulators.Common.{
  ℕ, ◌+◌, ◌-◌, ◌%◌, Bool, not, ◌||◌, Option, none, some, List, [], ◌∷◌, ◌++◌, length, get_or, take,
  ltb, leb, ◌==◌, if◌then◌else◌,
}
use simulators.Common.Bytes.{le16}
use simulators.Common.Results.{Result, ok, err}
use simulators.Common.Slices.{slice}
use simulators.Atecc.Crc.{crc16, crc16_le}

abbrev pub min_cmd_len : ℕ
min_cmd_len = 7

-- The status codes of `mod status`.
abbrev pub success : ℕ
success = 0x00

abbrev pub miscompare : ℕ
miscompare = 0x01

abbrev pub parse_error : ℕ
parse_error = 0x03

abbrev pub execution_error : ℕ
execution_error = 0x0F

abbrev pub crc_error : ℕ
crc_error = 0xFF

pub record Command : Type 0 where
  pub opcode : ℕ
  pub p1 : ℕ
  pub p2 : ℕ
  pub payload : List ℕ

-- `Command::parse`; `payload` is the source's `data`. Every index is within the tests above it.
unfoldable pub parse : List ℕ → Result Command ℕ
unfolding slice
parse packet =
    let count = get_or packet 0 0 in
    let crc_start = count - 2 in
    if ltb (length packet) min_cmd_len
    then err parse_error
    else (if not (count == length packet) || ltb count min_cmd_len
        then err parse_error
        else (if not (
              crc16 (take crc_start packet)
              == le16 (get_or packet crc_start 0) (get_or packet (crc_start + 1) 0))
            then err crc_error
            else ok (record {
              opcode = get_or packet 1 0;
              p1 = get_or packet 2 0;
              p2 = le16 (get_or packet 3 0) (get_or packet 4 0);
              payload = slice 5 crc_start packet;
            })))

unfoldable pub build_response : List ℕ → Option (List ℕ)
build_response body =
    let count = 1 + length body + 2 in
    let out = (count % 256) ∷ body in if leb count 0xFF then some (out ++ crc16_le out) else none

unfoldable pub status_response : ℕ → Option (List ℕ)
unfolding build_response
status_response status = build_response (status ∷ [])

-- A handler's answer beside the state that it leaves.
abbrev pub reply {ℓ} : {S : Type ℓ} → S → Option (List ℕ) → Option (S × List ℕ)
reply s none = none
reply s (some r) = some (s, r)
