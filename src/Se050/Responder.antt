-- ===== src/Se050/Responder.antt =====
-- The state machine T1Responder of SE050Sim/se050-sim/src/t1.rs: frames in, the command in its
-- secure channel or in the clear, frames out. What is random in INITIALIZE UPDATE is an argument,
-- and so are the CRC, the ciphers, and the applet behind dispatch.rs.
pub mod Gate
pub mod Reassembly
use simulators.Common.{
  ℕ, ◌+◌, ◌*◌, ◌/◌, ◌^◌, ◌%◌, bit_and, bit_or, bit_xor, Bool, true, false, not, ◌&&◌, Option, none,
  some, List, [], ◌∷◌, ◌++◌, length, get_or, ltb, ◌==◌, if◌then◌else◌,
}
use simulators.Common.Results.{ok, err, ◌>>=◌}
use simulators.Common.Slices.{same_bytes}
use simulators.Se050.Aes.{Ciphers}
use simulators.Se050.Apdu.{ParsedApdu, ApduResponse, parse, success_with_data, error, to_bytes}
use simulators.Se050.Applet.{AppletVersion}
use simulators.Se050.Scp03.Channel.{
  Scp03State, idle, pending, active, is_active, initialize_update, external_authenticate,
  sw_wrong_length, sw_conditions_not_satisfied, sw_security_status,
}
use simulators.Se050.Scp03.Keys.{Scp03Config, put_keys}
use simulators.Se050.Scp03.Session.{unwrap_command, wrap_response}
use simulators.Se050.T1.{
  FrameType, i_frame, r_frame, s_frame, parse_frame, build_frame, build_response_frames,
}

-- What the responder uses of the applet: the object store, dispatch.rs, and the settings of the
-- platform. Whether the command came over the secure channel is the flag of `dispatch`.
pub record Card : Type 1 where
  pub Store : Type 0
  pub dispatch : ParsedApdu → Store → Bool → Store × ApduResponse
  pub platform_scp_config : Store → AppletVersion → Scp03Config
  pub set_platform_scp_config : Store → Scp03Config → Store
  pub scp_required : Store → Bool

pub record T1Responder : Type 0 where
  pub nad_se2hd : ℕ
  pub iseq_rcv : ℕ
  pub iseq_snd : ℕ
  pub apdu_reassembly : List ℕ
  pub scp03 : Scp03State
  pub selected_ssd : Bool

unfoldable pub new_responder : ℕ → T1Responder
new_responder nad_hd2se = record {
  nad_se2hd = bit_or (bit_and nad_hd2se 0xF0 / 2 ^ 4) (bit_and nad_hd2se 0x0F * 2 ^ 4 % 256);
  iseq_rcv = 0;
  iseq_snd = 0;
  apdu_reassembly = [];
  scp03 = idle;
  selected_ssd = false;
}

abbrev pub t1_s_interface_soft_reset : ℕ
t1_s_interface_soft_reset = 0x0F

abbrev pub atr_data : List ℕ
atr_data =
    0x00 ∷ 0xA0 ∷ 0x00 ∷ 0x00 ∷ 0x03 ∷ 0x96 ∷ 0x04 ∷ 0x03 ∷ 0xE8 ∷ 0x00 ∷ 0xFE ∷ 0x02 ∷ 0x0B ∷ 0x03
    ∷ 0xE8 ∷ 0x08 ∷ 0x01 ∷ 0x00 ∷ 0x00 ∷ 0x00 ∷ 0x00 ∷ 0x64 ∷ 0x00 ∷ 0x00 ∷ 0x0A ∷ 0x4A ∷ 0x43
    ∷ 0x4F ∷ 0x50 ∷ 0x34 ∷ 0x20 ∷ 0x41 ∷ 0x54 ∷ 0x50 ∷ 0x4F ∷ []

abbrev pub ssd_aid : List ℕ
ssd_aid = 0xD2 ∷ 0x76 ∷ 0x00 ∷ 0x00 ∷ 0x85 ∷ 0x30 ∷ 0x4A ∷ 0x43 ∷ 0x4F ∷ 0x90 ∷ 0x03 ∷ []

unfoldable pub selects_ssd : ParsedApdu → Bool
selects_ssd apdu = same_bytes apdu.payload ssd_aid

-- SELECT ends the secure channel, and notes whether the Security Domain is selected.
unfoldable pub after_select : T1Responder → List ℕ → T1Responder
after_select r bytes =
    let ssd : Bool = elim (parse bytes) [ err e ↦ false | ok a ↦ selects_ssd a ] in
    if (get_or bytes 0 0 == 0x00) && (get_or bytes 1 0 == 0xA4)
    then record r { scp03 = idle; selected_ssd = ssd }
    else r

module _ (cs : Ciphers) (card : Card) (version : AppletVersion) where
  -- The command inside the channel: PUT KEY, or what dispatch answers.
  unfoldable pub answer_inner : Bool → card.Store → ParsedApdu → card.Store × ApduResponse
  answer_inner selected_ssd store inner =
      if (inner.cla == 0x80) && (inner.ins == 0xD8)
      then (if not selected_ssd
          then (store, error 0x6A80)
          else elim (put_keys cs (card.platform_scp_config store version) inner.p1 inner.p2
              inner.payload) [
                | err sw ↦ (store, error sw)
                | ok (updated, check_values) ↦
                    (card.set_platform_scp_config store updated, success_with_data check_values)
              ])
      else card.dispatch inner store true

  -- A command with the bit of secure messaging, while a channel is active.
  unfoldable pub process_active :
      T1Responder → card.Store → List ℕ → T1Responder × card.Store × ApduResponse
  process_active r store bytes = elim r.scp03 [
    | idle ↦ (r, store, error sw_security_status)
    | pending p ↦ (r, store, error sw_security_status)
    | active s ↦
        (let (s', unwrapped) = unwrap_command cs s bytes in
          elim unwrapped [
            | err sw ↦ (record r { scp03 = idle }, store, error sw)
            | ok inner ↦
                (let (store', resp) = answer_inner r.selected_ssd store inner in
                  let (s'', out) = wrap_response cs s' resp in
                  (record r { scp03 = active s'' }, store', out))
          ])
  ]

  unfoldable pub process_initialize :
      List ℕ → T1Responder → card.Store → List ℕ → T1Responder × card.Store × ApduResponse
  process_initialize card_ch r store bytes = elim (parse bytes) [
    | err e ↦ (r, store, error sw_wrong_length)
    | ok a ↦
        (let config = card.platform_scp_config store version in
          let (state, resp) = initialize_update cs card_ch a.p1 a.payload version config in
          (record r { scp03 = state }, store, resp))
  ]

  unfoldable pub process_plain :
      T1Responder → card.Store → List ℕ → T1Responder × card.Store × ApduResponse
  process_plain r store bytes = elim (parse bytes) [
    | err e ↦ (r, store, error sw_wrong_length)
    | ok a ↦ (let (store', resp) = card.dispatch a store false in (r, store', resp))
  ]

  -- `process_apdu`; `card_ch` is the challenge that INITIALIZE UPDATE would draw.
  unfoldable pub process_apdu :
      List ℕ → T1Responder → card.Store → List ℕ → T1Responder × card.Store × ApduResponse
  process_apdu card_ch r store bytes =
      let cla = get_or bytes 0 0 in
      let ins = get_or bytes 1 0 in
      let r' = after_select r bytes in
      let (state, resp) = external_authenticate cs r'.scp03 bytes in
      if ltb (length bytes) 4
      then process_plain r store bytes
      else (if (cla == 0x80) && (ins == 0x50)
          then process_initialize card_ch r' store bytes
          else (if (cla == 0x84) && (ins == 0x82) && not (is_active r'.scp03)
              then (record r' { scp03 = state }, store, resp)
              else (if not (bit_and cla 0x04 == 0)
                  then process_active r' store bytes
                  else (if (cla == 0x80) && is_active r'.scp03
                      then (record r' { scp03 = idle }, store, error sw_conditions_not_satisfied)
                      else (if (cla == 0x80) && card.scp_required store
                          then (r', store, error sw_conditions_not_satisfied)
                          else process_plain r' store bytes)))))

  module _ (crc16_x25 : List ℕ → ℕ) where
    -- A frame without a reply behind it, as the two chunks that the driver reads.
    unfoldable pub chunks_of : T1Responder → FrameType → List ℕ → List (List ℕ)
    chunks_of r ft payload =
        let (header, payload_crc) = build_frame crc16_x25 r.nad_se2hd ft payload in
        header ∷ payload_crc ∷ []

    abbrev pub chip_reset : T1Responder → T1Responder
    chip_reset r = record r {
      iseq_rcv = 0;
      iseq_snd = 0;
      apdu_reassembly = [];
      scp03 = idle;
      selected_ssd = false;
    }

    unfoldable pub handle_s_request : T1Responder → ℕ → T1Responder × List (List ℕ)
    handle_s_request r code =
        if code == t1_s_interface_soft_reset
        then (chip_reset r, chunks_of r (s_frame t1_s_interface_soft_reset true) atr_data)
        else (if code == 0x00
            then (chip_reset r, chunks_of r (s_frame 0x00 true) [])
            else (if code == 0x07
                then (r, chunks_of r (s_frame 0x07 true) atr_data)
                else (r, chunks_of r (s_frame code true) [])))

    -- `handle_i_frame`. `none` is the fuel of the response's frames, which is enough.
    unfoldable pub handle_i_frame :
        List ℕ
        → T1Responder
        → card.Store
        → Bool
        → List ℕ
        → Option (T1Responder × card.Store × List (List ℕ))
    handle_i_frame card_ch r store multi payload =
        let next = record r {
          iseq_rcv = bit_xor r.iseq_rcv 1;
          apdu_reassembly = r.apdu_reassembly ++ payload;
        } in
        let (r', store', response) =
          process_apdu card_ch (record next { apdu_reassembly = [] }) store next.apdu_reassembly in
        if multi then some (next, store, chunks_of next (r_frame next.iseq_rcv 0) []) else (do
          (chunks, iseq_snd) ←
              build_response_frames crc16_x25 r'.nad_se2hd r'.iseq_snd (to_bytes response)
          some (record r' { iseq_snd = iseq_snd }, store', chunks))

    -- `process_frame`: the chunks that are queued for reading.
    unfoldable pub process_frame :
        List ℕ
        → T1Responder
        → card.Store
        → List ℕ
        → Option (T1Responder × card.Store × List (List ℕ))
    process_frame card_ch r store bytes = elim (parse_frame crc16_x25 bytes) [
      | none ↦ some (r, store, [])
      | some f ↦ elim f.frame_type [
        | i_frame seq multi ↦ handle_i_frame card_ch r store multi f.payload
        | r_frame seq e ↦ some (r, store, [])
        | s_frame code is_response ↦
            (let (r', chunks) = handle_s_request r code in
              if is_response then some (r, store, []) else some (r', store, chunks))
      ]
    ]
