-- ===== src/Stsafe/Frame.antt =====
-- STSAFEA120Sim/stsafe-a120-sim/src/frame.rs: command frames and response frames.
pub mod RoundTrip
pub mod Responses
use simulators.Common.{
  ℕ, ◌+◌, ◌-◌, ◌/◌, ◌%◌, bit_and, Bool, true, false, not, Option, none, some, List, [], ◌∷◌, ◌++◌,
  length, get_or, take, ltb, ◌==◌, if◌then◌else◌,
}
use simulators.Common.Bytes.{hi, lo, be16}
use simulators.Common.Results.{Result, ok, err}
use simulators.Common.Slices.{slice}
use simulators.Stsafe.Crc.{crc16_x25}

abbrev pub status_mask : ℕ
status_mask = 0x1F

abbrev pub extended_prefix : ℕ
extended_prefix = 0x1F

abbrev pub max_frame_length_a120 : ℕ
max_frame_length_a120 = 752

pub data FrameError : Type 0 where
  too_short bad_crc overflow : FrameError

pub record Command : Type 0 where
  pub header : ℕ
  pub extended : Option ℕ
  pub body : List ℕ

unfoldable pub is_extended : Command → Bool
is_extended c = elim c.extended [ none ↦ false | some _ ↦ true ]

-- Every index is within the tests above it.
unfoldable pub parse_command : List ℕ → Result Command FrameError
unfolding slice
parse_command buf =
    let payload_end = length buf - 2 in
    let header = get_or buf 0 0 in
    if ltb (length buf) 3
    then err too_short
    else (if ltb (max_frame_length_a120 + 2) (length buf)
        then err overflow
        else (if not (
              crc16_x25 (take payload_end buf)
              == be16 (get_or buf payload_end 0) (get_or buf (payload_end + 1) 0))
            then err bad_crc
            else (if header == extended_prefix
                then (if ltb (length buf) 4
                    then err too_short
                    else ok (record {
                      header = header;
                      extended = some (get_or buf 1 0);
                      body = slice 2 payload_end buf;
                    }))
                else ok
                    (record { header = header; extended = none; body = slice 1 payload_end buf }))))

unfoldable pub build_response : ℕ → List ℕ → List ℕ
build_response status body =
    let header = bit_and status status_mask in
    let len = (length body + 2) % 65536 in
    let crc = crc16_x25 (header ∷ body) in
    header ∷ hi len ∷ lo len ∷ (body ++ (hi crc ∷ lo crc ∷ []))

unfoldable pub build_error : ℕ → List ℕ
unfolding build_response
build_error status = build_response status []

-- What the host sends.
unfoldable pub build_command : ℕ → List ℕ → List ℕ
build_command header body =
    let frame = header ∷ body in let crc = crc16_x25 frame in frame ++ (hi crc ∷ lo crc ∷ [])
