-- ===== src/Se050/Responder/Reassembly.antt =====
-- SE050Sim/se050-sim/src/t1.rs: a command that a host sends in several frames.
use simulators.Common.{
  ℕ, ◌<◌, ◌≡◌, refl, sym, bit_xor, Bool, true, false, Option, none, some, List, [], ◌∷◌, ◌++◌,
  arith, length, All,
}
use mathlib.Core.List.{append_assoc}
use simulators.Common.Bits.{bit_xor-lt}
use simulators.Common.Results.{◌>>=◌}
use simulators.Se050.Aes.{Ciphers}
use simulators.Se050.Applet.{AppletVersion}
use simulators.Se050.Responder.{Card, T1Responder, chunks_of, handle_i_frame, process_frame}
use simulators.Se050.T1.{i_frame, r_frame, build_frame}
use simulators.Se050.T1.Link.{parse_frame-build_frame}

module _ (cs : Ciphers) (card : Card) (version : AppletVersion) (crc16_x25 : List ℕ → ℕ) where
  -- The host sends the chunks of a command, each in an I-frame with the next sequence number, all but
  -- the last with the bit for more. What the responder queues for each frame is collected.
  unfoldable pub send :
      ℕ
      → ℕ
      → List ℕ
      → T1Responder
      → card.Store
      → List ℕ
      → List (List ℕ)
      → Option (T1Responder × card.Store × List (List (List ℕ)))
  send nad seq card_ch r store last [] = do
    let (header, payload_crc) = build_frame crc16_x25 nad (i_frame seq false) last
    (r', store', chunks) ←
        process_frame cs card version crc16_x25 card_ch r store (header ++ payload_crc)
    some (r', store', chunks ∷ [])
  send nad seq card_ch r store first (next ∷ rest) = do
    let (header, payload_crc) = build_frame crc16_x25 nad (i_frame seq true) first
    (r', store', chunks) ←
        process_frame cs card version crc16_x25 card_ch r store (header ++ payload_crc)
    (r'', store'', replies) ← send nad (bit_xor seq 1) card_ch r' store' next rest
    some (r'', store'', chunks ∷ replies)

  abbrev pub joined : List ℕ → List (List ℕ) → List ℕ
  joined first [] = first
  joined first (next ∷ rest) = first ++ joined next rest

  -- The acknowledgements of all frames but the last, and the responder in front of the last one but
  -- for the bytes that it collected.
  abbrev pub acks : T1Responder → List (List ℕ) → List (List (List ℕ)) × T1Responder
  acks r [] = ([], r)
  acks r (next ∷ rest) =
      let r' = record r { iseq_rcv = bit_xor r.iseq_rcv 1 } in
      let (replies, last) = acks r' rest in
      (chunks_of cs card version crc16_x25 r' (r_frame r'.iseq_rcv 0) [] ∷ replies, last)

  -- The replies behind the acknowledgements.
  abbrev pub finish :
      Option (T1Responder × card.Store × List (List ℕ))
      → List (List (List ℕ))
      → Option (T1Responder × card.Store × List (List (List ℕ)))
  finish none replies = none
  finish (some (r, store, chunks)) replies = some (r, store, replies ++ (chunks ∷ []))

  -- A command that comes whole in one frame.
  abbrev pub in_one :
      List ℕ
      → T1Responder
      → card.Store
      → List ℕ
      → List (List (List ℕ))
      → Option (T1Responder × card.Store × List (List (List ℕ)))
  in_one card_ch r store bytes replies =
      finish (handle_i_frame cs card version crc16_x25 card_ch r store false bytes) replies

  finish_later :
      (m : Option (T1Responder × card.Store × List (List ℕ))) (ack : List (List ℕ))
      (replies : List (List (List ℕ)))
      → (finish m replies >>= (λ out. some (out.0, out.1, ack ∷ out.2))) ≡ finish m (ack ∷ replies)
  finish_later none ack replies = refl
  finish_later (some (r, store, chunks)) ack replies = refl

  finish_now :
      (m : Option (T1Responder × card.Store × List (List ℕ)))
      → (m >>= (λ out. some (out.0, out.1, out.2 ∷ []))) ≡ finish m []
  finish_now none = refl
  finish_now (some (r, store, chunks)) = refl

  more :
      (card_ch : List ℕ) (r : T1Responder) (store : card.Store) (payload : List ℕ)
      → let r' = record r { iseq_rcv = bit_xor r.iseq_rcv 1 } in
        handle_i_frame cs card version crc16_x25 card_ch r store true payload
        ≡ some (
          record r' { apdu_reassembly = r.apdu_reassembly ++ payload },
          store,
          chunks_of cs card version crc16_x25 r' (r_frame r'.iseq_rcv 0) [],
        )
  unfolding handle_i_frame chunks_of
  more card_ch r store payload = refl

  acks_collected :
      (r : T1Responder) (z : List ℕ) (rest : List (List ℕ))
      → acks (record r { apdu_reassembly = z }) rest
        ≡ ((acks r rest).0, record (acks r rest).1 { apdu_reassembly = z })
  unfolding chunks_of
  acks_collected r z [] = refl
  acks_collected r z (next ∷ rest) =
      let r' = record r { iseq_rcv = bit_xor r.iseq_rcv 1 } in rw (acks_collected r' z rest) refl

  acks_keeps :
      (r : T1Responder) (rest : List (List ℕ)) → (acks r rest).1.apdu_reassembly ≡ r.apdu_reassembly
  acks_keeps r [] = refl
  acks_keeps r (next ∷ rest) = acks_keeps (record r { iseq_rcv = bit_xor r.iseq_rcv 1 }) rest

  handle_collected :
      (card_ch : List ℕ) (r : T1Responder) (store : card.Store) (before bytes z : List ℕ)
      → z ≡ r.apdu_reassembly
      → handle_i_frame cs card version crc16_x25 card_ch
          (record r { apdu_reassembly = z ++ before })
          store
          false
          bytes
        ≡ handle_i_frame cs card version crc16_x25 card_ch r store false (before ++ bytes)
  unfolding handle_i_frame
  handle_collected card_ch r store before bytes z e =
      rw (e, append_assoc r.apdu_reassembly before bytes) refl

  module _ (word : (m : List ℕ) → crc16_x25 m < 65536) where
    framed :
        (nad seq : ℕ) (card_ch : List ℕ) (r : T1Responder) (store : card.Store) (multi : Bool)
        (payload : List ℕ)
        → seq < 2
        → length payload < 256
        → process_frame cs card version crc16_x25 card_ch r store (
            (build_frame crc16_x25 nad (i_frame seq multi) payload).0
            ++ (build_frame crc16_x25 nad (i_frame seq multi) payload).1)
          ≡ handle_i_frame cs card version crc16_x25 card_ch r store multi payload
    unfolding process_frame
    framed nad seq card_ch r store multi payload s short =
        rw
          (
            parse_frame-build_frame crc16_x25 word nad (i_frame seq multi) payload s short,
            process_frame,
          )
          refl

    -- For a CRC of 16 bits: a command that comes in several frames of at most 255 bytes is answered
    -- as if it came in one frame, and each frame but the last by an acknowledgement.
    pub send-in_one :
        (nad seq : ℕ) (card_ch : List ℕ) (r : T1Responder) (store : card.Store) (first : List ℕ)
        (rest : List (List ℕ))
        → seq < 2
        → length first < 256
        → All (λ (chunk : List ℕ). length chunk < 256) rest
        → send nad seq card_ch r store first rest
          ≡ in_one card_ch (acks r rest).1 store (joined first rest) (acks r rest).0
    unfolding send
    send-in_one nad seq card_ch r store last [] s short h =
        rw (framed nad seq card_ch r store false last s short)
          (finish_now (handle_i_frame cs card version crc16_x25 card_ch r store false last))
    send-in_one nad seq card_ch r store first (next ∷ rest) s short h =
        let r' = record r { iseq_rcv = bit_xor r.iseq_rcv 1 } in
        let collected = record r' { apdu_reassembly = r.apdu_reassembly ++ first } in
        let others =
          send-in_one nad (bit_xor seq 1) card_ch collected store next rest
            (bit_xor-lt 1 seq 1 (omega arith) (omega arith)) h.0 h.1 in
        rw
          (
            framed nad seq card_ch r store true first s short,
            more card_ch r store first,
            others,
            acks_collected r' (r.apdu_reassembly ++ first) rest,
            handle_collected card_ch (acks r' rest).1 store first (joined next rest)
                r.apdu_reassembly (sym (acks_keeps r' rest)),
          )
          (finish_later
            (handle_i_frame cs card version crc16_x25 card_ch (acks r' rest).1 store false
              (first ++ joined next rest))
            (chunks_of cs card version crc16_x25 r' (r_frame r'.iseq_rcv 0) []) (acks r' rest).0)
