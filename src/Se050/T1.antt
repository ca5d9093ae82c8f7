-- ===== src/Se050/T1.antt =====
-- SE050Sim/se050-sim/src/t1.rs: the protocol control byte, frames, and the frames of a response.
-- The CRC is the crate crc16's: `crc16_x25` is a parameter.
pub mod Pcb
pub mod Link
pub mod Responses
use simulators.Common.{
  ℕ, zero, suc, ◌+◌, ◌*◌, ◌/◌, ◌%◌, ◌^◌, ◌-◌, min, bit_and, bit_or, bit_xor, Bool, true, false, not,
  Option, none, some, List, [], ◌∷◌, ◌++◌, length, get_or, take, drop, ltb, leb, ◌==◌,
  if◌then◌else◌,
}
use simulators.Common.Bytes.{hi, lo, le16}
use simulators.Common.Results.{◌>>=◌}
use simulators.Common.Slices.{slice}

abbrev pub t1_s_request : ℕ
t1_s_request = 0xC0

abbrev pub t1_s_response : ℕ
t1_s_response = 0xE0

abbrev pub t1_r_code_mask : ℕ
t1_r_code_mask = 0xEC

abbrev pub t1_r_code : ℕ
t1_r_code = 0x80

-- `i_frame seq multi`, `r_frame seq err`, `s_frame code is_response`.
pub data FrameType : Type 0 where
  i_frame : ℕ → Bool → FrameType
  r_frame : ℕ → ℕ → FrameType
  s_frame : ℕ → Bool → FrameType

-- `!T1_S_RESPONSE` is 0x1F in a byte.
unfoldable pub parse_pcb : ℕ → Option FrameType
parse_pcb pcb =
    if bit_and pcb t1_r_code_mask == t1_r_code
    then some (r_frame (bit_and pcb 0x10 / 2 ^ 4) (bit_and pcb 0x03))
    else (if bit_and pcb t1_s_request == t1_s_request
        then some (s_frame (bit_and pcb (0xFF - t1_s_response)) (not (bit_and pcb 0x20 == 0)))
        else (if bit_and pcb 0x9F == 0
            then some (i_frame (bit_and pcb 0x40 / 2 ^ 6) (not (bit_and pcb 0x20 == 0)))
            else none))

unfoldable pub encode_pcb : FrameType → ℕ
encode_pcb (i_frame seq multi) = bit_or (seq * 2 ^ 6 % 256) (if multi then 0x20 else 0)
encode_pcb (r_frame seq e) = bit_or (bit_or t1_r_code (seq * 2 ^ 4 % 256)) e
encode_pcb (s_frame code is_response) =
    bit_or (if is_response then t1_s_response else t1_s_request) code

pub record T1Frame : Type 0 where
  pub nad : ℕ
  pub frame_type : FrameType
  pub payload : List ℕ

-- `MAX_IFSC`.
abbrev pub max_payload : ℕ
max_payload = 254

module _ (crc16_x25 : List ℕ → ℕ) where
  unfoldable pub parse_frame : List ℕ → Option T1Frame
  unfolding parse_pcb slice
  parse_frame bytes =
      let len = get_or bytes 2 0 in
      if ltb (length bytes) 5
      then none
      else (if ltb (length bytes) (3 + len + 2)
          then none
          else (if not (
                crc16_x25 (take (3 + len) bytes)
                == le16 (get_or bytes (3 + len) 0) (get_or bytes (3 + len + 1) 0))
              then none
              else (do
                frame_type ← parse_pcb (get_or bytes 1 0)
                some (record {
                  nad = get_or bytes 0 0;
                  frame_type = frame_type;
                  payload = slice 3 (3 + len) bytes;
                }))))

  -- The header, and the payload with the CRC, which the driver reads one after the other.
  unfoldable pub build_frame : ℕ → FrameType → List ℕ → List ℕ × List ℕ
  unfolding encode_pcb
  build_frame nad ft payload =
      let header : List ℕ = nad ∷ encode_pcb ft ∷ (length payload % 256) ∷ [] in
      let crc = crc16_x25 (header ++ payload) in (header, payload ++ (lo crc ∷ hi crc ∷ []))

  module _ (nad_se2hd : ℕ) where
    -- One I-frame in front of the chunks behind it.
    unfoldable pub push_frame : ℕ → Bool → List ℕ → List (List ℕ) → List (List ℕ)
    unfolding build_frame
    push_frame seq multi payload chunks =
        let (header, payload_crc) = build_frame nad_se2hd (i_frame seq multi) payload in
        header ∷ payload_crc ∷ chunks

    -- The loop over a long response, on fuel: the chunks, and `iseq_snd` behind them. `bytes` is
    -- what is left behind the offset.
    unfoldable pub response_loop : ℕ → ℕ → List ℕ → Option (List (List ℕ) × ℕ)
    unfolding push_frame
    response_loop fuel iseq_snd [] = some ([], iseq_snd)
    response_loop zero iseq_snd (b ∷ bytes) = none
    response_loop (suc fuel) iseq_snd (b ∷ bytes) =
        let remaining = length (b ∷ bytes) in
        let chunk_len = min remaining max_payload in
        let is_last = leb remaining chunk_len in
        do
          (chunks, iseq) ← response_loop fuel (bit_xor iseq_snd 1) (drop chunk_len (b ∷ bytes))
          some (push_frame iseq_snd (not is_last) (take chunk_len (b ∷ bytes)) chunks, iseq)

    -- `build_response_frames`: the chunks, and the new `iseq_snd`.
    unfoldable pub build_response_frames : ℕ → List ℕ → Option (List (List ℕ) × ℕ)
    unfolding response_loop
    build_response_frames iseq_snd response_bytes =
        if leb (length response_bytes) max_payload
        then some (push_frame iseq_snd false response_bytes [], bit_xor iseq_snd 1)
        else response_loop (length response_bytes) iseq_snd response_bytes
