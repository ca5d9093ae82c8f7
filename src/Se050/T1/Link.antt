-- ===== src/Se050/T1/Link.antt =====
-- What the driver reads of the frames that the simulator builds.
use simulators.Common.{
  ℕ, ◌+◌, ◌-◌, ◌%◌, ◌<◌, ◌≡◌, some, List, [], ◌∷◌, ◌++◌, arith, length, get_or, take, take-append,
  length-append, get_or-append_right, le→ltb, eq→==,
}
use simulators.Common.Bytes.{hi, lo, le16}
use simulators.Common.Slices.{slice}
use simulators.Se050.T1.{FrameType, encode_pcb, parse_pcb, parse_frame, build_frame}
use simulators.Se050.T1.Pcb.{IsFrameType, parse_pcb-encode_pcb}

module _ (crc16_x25 : List ℕ → ℕ) (word : (m : List ℕ) → crc16_x25 m < 65536) where
  -- A frame of a byte that is parsed, with its payload and the CRC of both.
  framed :
      (nad pcb : ℕ) (ft : FrameType) (payload : List ℕ)
      → parse_pcb pcb ≡ some ft
      → (let front = nad ∷ pcb ∷ length payload ∷ payload in
          parse_frame crc16_x25 (front ++ (lo (crc16_x25 front) ∷ hi (crc16_x25 front) ∷ []))
          ≡ some (record { nad = nad; frame_type = ft; payload = payload }))
  unfolding parse_frame slice
  framed nad pcb ft payload known =
      let len = length payload in
      let front = nad ∷ pcb ∷ len ∷ payload in
      let crc = crc16_x25 front in
      let tail = lo crc ∷ hi crc ∷ [] in
      let n = length-append payload tail in
      let whole : take (3 + len) (front ++ tail) ≡ front =
        take-append (3 + len) front tail (omega arith) in
      let first : get_or (front ++ tail) (3 + len) 0 ≡ lo crc =
        get_or-append_right front tail (3 + len) 0 0 (omega arith) in
      let second : get_or (front ++ tail) (3 + len + 1) 0 ≡ hi crc =
        get_or-append_right front tail (3 + len + 1) 1 0 (omega arith) in
      let body : take (3 + len - 3) (payload ++ tail) ≡ payload =
        take-append (3 + len - 3) payload tail (omega arith) in
      rw (
        le→ltb (length (front ++ tail)) 5 (omega (arith, n)),
        le→ltb (length (front ++ tail)) (3 + len + 2) (omega (arith, n)),
        whole,
        first,
        second,
        eq→== crc (le16 (lo crc) (hi crc)) (omega (arith, word front)),
        known,
        body,
      )

  -- For a CRC of 16 bits, a frame that is built is parsed back, when the fields of its type fit their bits and it has at
  -- most 255 bytes of payload.
  pub parse_frame-build_frame :
      (nad : ℕ) (ft : FrameType) (payload : List ℕ)
      → IsFrameType ft
      → length payload < 256
      → parse_frame crc16_x25
          ((build_frame crc16_x25 nad ft payload).0 ++ (build_frame crc16_x25 nad ft payload).1)
        ≡ some (record { nad = nad; frame_type = ft; payload = payload })
  unfolding build_frame
  parse_frame-build_frame nad ft payload fields short =
      let size : length payload % 256 ≡ length payload = omega arith in
      rw size (framed nad (encode_pcb ft) ft payload (parse_pcb-encode_pcb ft fields))
