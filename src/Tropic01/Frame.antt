-- ===== src/Tropic01/Frame.antt =====
-- TROPIC01Sim/tropic01-sim/src/frame.rs: requests and responses of the L2 layer.
-- A failed `assert!` is `none`.
pub mod RoundTrip
pub mod Status
use simulators.Common.{
  ℕ, ◌+◌, ◌-◌, ◌%◌, not, Option, none, some, List, ◌∷◌, ◌++◌, length, get_or, take, ltb, leb, ◌==◌,
  if◌then◌else◌,
}
use simulators.Common.Bytes.{be16}
use simulators.Common.Results.{Result, ok, err}
use simulators.Common.Slices.{slice}
use simulators.Tropic01.Crc.{crc16, append_crc}

abbrev pub max_l2_data_size : ℕ
max_l2_data_size = 252

abbrev pub max_l2_frame_size : ℕ
max_l2_frame_size = 1 + 1 + max_l2_data_size + 2

pub data FrameError : Type 0 where
  too_short len_mismatch bad_crc overflow : FrameError

-- `payload` is the source's `data`.
pub record Request : Type 0 where
  pub req_id : ℕ
  pub payload : List ℕ

-- Every index is within the tests above it.
unfoldable pub parse_request : List ℕ → Result Request FrameError
unfolding slice
parse_request buf =
    let req_len = get_or buf 1 0 in
    let crc_offset = 2 + req_len in
    if ltb (length buf) 4
    then err too_short
    else (if ltb max_l2_frame_size (length buf)
        then err overflow
        else (if not (length buf == 1 + 1 + req_len + 2)
            then err len_mismatch
            else (if not (
                  crc16 (take crc_offset buf)
                  == be16 (get_or buf crc_offset 0) (get_or buf (crc_offset + 1) 0))
                then err bad_crc
                else ok (record { req_id = get_or buf 0 0; payload = slice 2 crc_offset buf }))))

unfoldable pub build_response : ℕ → List ℕ → Option (List ℕ)
unfolding append_crc
build_response status payload =
    if leb (length payload) max_l2_data_size
    then some (append_crc (status ∷ (length payload % 256) ∷ payload))
    else none

-- What the host sends.
unfoldable pub build_request : ℕ → List ℕ → Option (List ℕ)
unfolding append_crc
build_request req_id payload =
    if leb (length payload) max_l2_data_size
    then some (append_crc (req_id ∷ (length payload % 256) ∷ payload))
    else none
