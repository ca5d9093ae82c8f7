-- ===== src/Stsafe/Server/Refinement.antt =====
-- STSAFEA120Sim/stsafe-a120-sim/src/bin/tcp_server.rs: the byte stream of a connection, and the
-- sequence of frames that it stands for.
use simulators.Common.{
  ℕ, zero, suc, ◌≤◌, ◌<◌, ◌≡◌, refl, ap, ◌∙◌, not, Option, some, List, [], ◌∷◌, ◌++◌, arith, length,
  take-append, drop-append, length-append, All, if_intro, le→ltb, ne→==,
}
use simulators.Common.Bytes.{hi, lo, be16}
use simulators.Stsafe.Crypto.{P256}
use simulators.Stsafe.Store.{Device, new_session}
use simulators.Stsafe.Dispatch.{Outcome, dispatch}
use simulators.Stsafe.Server.{
  Env, Ending, closed, Conn, Turn, go_on, stop, with_length, conclude, serve_frame, turn, serve,
  handle_connection,
}

-- A frame that the server reads: not empty, and of at most 756 bytes.
abbrev pub IsFrame : List ℕ → Type 0
IsFrame frame = (1 ≤ length frame) × (length frame ≤ 756)

pub encode_all : List (List ℕ) → List ℕ
encode_all [] = []
encode_all (frame ∷ frames) = with_length frame ++ encode_all frames

module _ (p : P256) (env : ℕ → Env p) where
  -- The specification: one frame after the other, and then the client closes the stream.
  pub perform_all : List (List ℕ) → Conn p → Ending × Conn p
  perform_all [] c = (closed, c)
  perform_all (frame ∷ frames) c =
      elim (conclude p env c (encode_all frames)
        (dispatch p (env c.served).entropy c.device c.session frame)) [
          | go_on c' ↦ perform_all frames c'
          | stop e c' ↦ (e, c')
        ]

  frame_turn :
      (c : Conn p) (frame rest : List ℕ)
      → IsFrame frame
      → turn p env c (with_length frame ++ rest)
        ≡ conclude p env c rest (dispatch p (env c.served).entropy c.device c.session frame)
  unfolding turn with_length serve_frame
  frame_turn c frame rest h =
      let word : be16 (hi (length frame)) (lo (length frame)) ≡ length frame = omega (arith, h.1) in
      rw
        (
          word,
          ne→== (length frame) 0 (omega (arith, h.0)),
          le→ltb 756 (length frame) h.1,
          le→ltb (length (frame ++ rest)) (length frame) (omega (arith, length-append frame rest)),
          take-append (length frame) frame rest refl,
          drop-append (length frame) frame rest refl,
        )
        refl

  -- A round that goes on leaves the input behind it.
  Behind : List ℕ → Turn p → Type 0
  Behind rest (go_on c') = c'.input ≡ rest
  Behind rest (stop e c') = Unit {0}

  conclude-Behind :
      (c : Conn p) (rest : List ℕ) (o : Outcome p) → Behind rest (conclude p env c rest o)
  unfolding conclude Behind
  conclude-Behind c rest (d, s, r) =
      if_intro (Behind rest) (not (env c.served).saved) (λ _. tt)
        (λ _. if_intro (Behind rest) (not (env c.served).written) (λ _. tt) (λ _. refl))

  serve-encode_all :
      (fuel : ℕ) (frames : List (List ℕ)) (c : Conn p)
      → c.input ≡ encode_all frames
      → length frames < fuel
      → All IsFrame frames
      → serve p env fuel c ≡ some (perform_all frames c)
  unfolding serve perform_all encode_all Behind turn
  serve-encode_all zero frames c e h v = absurd (omega arith)
  serve-encode_all (suc fuel) [] c e h v = rw e
  serve-encode_all (suc fuel) (frame ∷ frames) c e h v =
      let rest = encode_all frames in
      let o = dispatch p (env c.served).entropy c.device c.session frame in
      let first : turn p env c c.input ≡ conclude p env c rest o =
        ap (turn p env c) e ∙ frame_turn c frame rest v.0 in
      let after : (t : Turn p)
          → Behind rest t
          → elim t [ go_on c' ↦ serve p env fuel c' | stop x c' ↦ some (x, c') ]
            ≡ some (elim t [ go_on c' ↦ perform_all frames c' | stop x c' ↦ (x, c') ]) =
        elim [
          | go_on c' ↦ λ b. serve-encode_all fuel frames c' b (omega arith) v.1
          | stop x c' ↦ λ b. refl
        ] in
      ap
        (λ (t : Turn p). elim t as (λ _. Option (Ending × Conn p)) [
          | go_on c' ↦ serve p env fuel c'
          | stop x c' ↦ some (x, c')
        ])
        first
      ∙ after (conclude p env c rest o) (conclude-Behind c rest o)

  length-encode_all : (frames : List (List ℕ)) → length frames ≤ length (encode_all frames)
  unfolding encode_all with_length
  length-encode_all [] = omega arith
  length-encode_all (frame ∷ frames) =
      omega (arith, length-append frame (encode_all frames), length-encode_all frames)

  -- A client that sends frames of 1 to 756 bytes behind their lengths, and then closes the stream, is
  -- served as the frames are dispatched one after the other, each on the device and the session that
  -- the last one left, saved, and answered behind its length.
  pub handle_connection-frames :
      (d : Device) (frames : List (List ℕ))
      → All IsFrame frames
      → handle_connection p env d (encode_all frames)
        ≡ some (
            perform_all frames (record {
              input = encode_all frames;
              device = d;
              session = new_session p;
              served = 0;
              sent = [];
            }))
  unfolding handle_connection
  handle_connection-frames d frames valid =
      serve-encode_all (suc (length (encode_all frames))) frames _ refl
        (omega (arith, length-encode_all frames)) valid
