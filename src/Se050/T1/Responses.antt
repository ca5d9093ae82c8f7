-- ===== src/Se050/T1/Responses.antt =====
-- The frames of a response, and the driver that puts them together again.
use simulators.Common.{
  ℕ, zero, suc, ◌≤◌, ◌<◌, min, bit_xor, ◌≡◌, refl, inl, inr, true, false, ◌&&◌, Option, none, some,
  List, [], ◌∷◌, ◌++◌, arith, length, take, drop, length-take, length-drop, take-append-drop,
  take_whole, drop_whole, leb, ◌==◌, if◌then◌else◌, Bool-cases, eq→==, subst,
}
use simulators.Common.Bits.{bit_xor-lt}
use simulators.Common.Results.{◌>>=◌}
use simulators.Se050.T1.{
  i_frame, r_frame, s_frame, T1Frame, max_payload, parse_frame, push_frame, response_loop,
  build_response_frames,
}
use simulators.Se050.T1.Link.{parse_frame-build_frame}

-- An I-frame from the right address and with the expected number: its payload, with what the frames
-- behind it bring when it says that there are more, and with nothing behind it when not.
abbrev joined : ℕ → ℕ → Option T1Frame → List (List ℕ) → Option (List ℕ × ℕ) → Option (List ℕ × ℕ)
joined nad seq none rest more = none
joined nad seq (some f) rest more = elim f.frame_type [
  | r_frame _ _ ↦ none
  | s_frame _ _ ↦ none
  | i_frame s true ↦
      if (f.nad == nad) && (s == seq)
      then (do (bytes, next) ← more; some (f.payload ++ bytes, next))
      else none
  | i_frame s false ↦
      if (f.nad == nad) && (s == seq)
      then elim rest [ [] ↦ some (f.payload, bit_xor seq 1) | _ ∷ _ ↦ none ]
      else none
]

module _ (crc16_x25 : List ℕ → ℕ) (nad : ℕ) where
  -- The driver: it reads a header, then a payload with its CRC, and so on until the last frame. It
  -- gives the response, and the number that it expects next.
  unfoldable pub receive : ℕ → List (List ℕ) → Option (List ℕ × ℕ)
  receive seq [] = none
  receive seq (header ∷ []) = none
  receive seq (header ∷ payload_crc ∷ rest) =
      let more = receive (bit_xor seq 1) rest in
      joined nad seq (parse_frame crc16_x25 (header ++ payload_crc)) rest more

  module _ (word : (m : List ℕ) → crc16_x25 m < 65536) where
    receive_last :
        (seq : ℕ) (payload : List ℕ)
        → seq < 2
        → length payload < 256
        → receive seq (push_frame crc16_x25 nad seq false payload [])
          ≡ some (payload, bit_xor seq 1)
    unfolding receive push_frame
    receive_last seq payload small short = rw (
      parse_frame-build_frame crc16_x25 word nad (i_frame seq false) payload small short,
      eq→== nad nad refl,
      eq→== seq seq refl,
    )

    receive_more :
        (seq next : ℕ) (payload bytes : List ℕ) (chunks : List (List ℕ))
        → seq < 2
        → length payload < 256
        → receive (bit_xor seq 1) chunks ≡ some (bytes, next)
        → receive seq (push_frame crc16_x25 nad seq true payload chunks)
          ≡ some (payload ++ bytes, next)
    unfolding receive push_frame
    receive_more seq next payload bytes chunks small short rest = rw (
      parse_frame-build_frame crc16_x25 word nad (i_frame seq true) payload small short,
      eq→== nad nad refl,
      eq→== seq seq refl,
      rest,
    )

    -- The chunks of a response, and that the driver puts them together to the response.
    abbrev Received : ℕ → List ℕ → Option (List (List ℕ) × ℕ) → Type 0
    Received seq bytes o =
        (chunks : List (List ℕ)) × (next : ℕ) × (o ≡ some (chunks, next))
        × (receive seq chunks ≡ some (bytes, next))

    loop-Received :
        (fuel seq : ℕ) (bytes : List ℕ)
        → 1 ≤ length bytes
        → length bytes ≤ fuel
        → seq < 2
        → Received seq bytes (response_loop crc16_x25 nad fuel seq bytes)
    unfolding response_loop
    loop-Received fuel seq [] some_byte enough small = absurd (omega arith)
    loop-Received zero seq (b ∷ bytes) some_byte enough small = absurd (omega arith)
    loop-Received (suc fuel) seq (b ∷ bytes) some_byte enough small =
        let all = b ∷ bytes in
        let chunk_len = min (length all) max_payload in
        let chunk = take chunk_len all in
        let rest = drop chunk_len all in
        let cut = length-drop chunk_len all in
        elim (Bool-cases (leb (length all) chunk_len)) [
          | inl last ↦
              let ends : length all ≤ chunk_len = ground arith in
              (
                push_frame crc16_x25 nad seq false all [],
                bit_xor seq 1,
                rw (drop_whole chunk_len all ends, take_whole chunk_len all ends, last) refl,
                receive_last seq all small (omega arith),
              )
          | inr more ↦
              let (chunks, next, built, got) =
                loop-Received fuel (bit_xor seq 1) rest (ground (arith, cut)) (omega (arith, cut))
                  (bit_xor-lt 1 seq 1 small (omega arith)) in
              (
                push_frame crc16_x25 nad seq true chunk chunks,
                next,
                rw (built, more) refl,
                subst
                    (λ (t : List ℕ).
                      receive seq (push_frame crc16_x25 nad seq true chunk chunks) ≡ some (t, next))
                    (take-append-drop chunk_len all)
                    (receive_more seq next chunk rest chunks small
                      (omega (arith, length-take chunk_len all (omega arith))) got),
              )
        ]

    -- For a CRC of 16 bits and a sequence number below 2, the frames of every response are made, and a driver
    -- that expects that number puts them together to the response, and expects next the number that
    -- the simulator sends next.
    pub receive-build_response_frames :
        (seq : ℕ) (response : List ℕ)
        → seq < 2
        → (chunks : List (List ℕ)) × (next : ℕ) × (build_response_frames crc16_x25 nad seq response
            ≡ some (chunks, next))
          × (receive seq chunks ≡ some (response, next))
    unfolding build_response_frames
    receive-build_response_frames seq response small =
        elim (Bool-cases (leb (length response) max_payload)) [
          | inl short ↦ (
            push_frame crc16_x25 nad seq false response [],
            bit_xor seq 1,
            rw short refl,
            receive_last seq response small (ground arith),
          )
          | inr long ↦
              let (chunks, next, built, got) =
                loop-Received (length response) seq response (ground arith) (omega arith) small in
              (chunks, next, rw long built, got)
        ]
