-- ===== src/Stsafe/Dispatch/Safety.antt =====
-- STSAFEA120Sim/stsafe-a120-sim/src/dispatch.rs: the answers to frames, and what a frame may change of
-- the device.
use simulators.Common.{
  ℕ, ◌+◌, ◌-◌, ◌≤◌, ◌≡◌, ◌⊎◌, inl, inr, refl, sym, subst, not, ◌||◌, List, [], arith, length,
  get_or, take, drop, All-take, All-drop, ltb, ◌==◌, if_intro,
}
use simulators.Common.Bytes.{IsByte, IsBytes, be16}
use simulators.Common.Maps.{insert}
use simulators.Common.Results.{Result, ok, err}
use simulators.Common.Slices.{slice, length-slice}
use simulators.Stsafe.Crc.{crc16_x25}
use simulators.Stsafe.Crypto.{P256, Entropy, Sizes}
use simulators.Stsafe.Frame.{
  Command, FrameError, too_short, bad_crc, overflow, is_extended, parse_command, build_error,
}
use simulators.Stsafe.Frame.Responses.{
  IsResponse, build_response-IsResponse, build_error-IsResponse,
}
use simulators.Stsafe.Store.{Device, EccSlot, Session, nist_p256}
use simulators.Stsafe.Handlers.{keypair, is_nist_p256}
use simulators.Stsafe.Handlers.Safety.{
  IsDevice, echo-IsResponse, query-IsResponse, read-IsResponse, random-IsResponse,
  keypair-IsResponse, sign-IsResponse, verify-IsResponse, ecdh-IsResponse,
}
use simulators.Stsafe.Dispatch.{Outcome, frame_error, route, dispatch_command, dispatch}

-- The body of a command that is parsed fits a response, and is made of bytes.
abbrev Fits : Result Command FrameError → Type 0
Fits (err e) = Unit {0}
Fits (ok c) = (length c.body ≤ 751) × IsBytes c.body

parse_command-Fits : (raw : List ℕ) → IsBytes raw → Fits (parse_command raw)
unfolding parse_command slice
parse_command-Fits raw bytes =
    let stop = length raw - 2 in
    let part = λ (i : ℕ). All-take IsByte (stop - i) (drop i raw) (All-drop IsByte i raw bytes) in
    if_intro Fits (ltb (length raw) 3) (λ _. tt)
      λ long.
        if_intro Fits (ltb 754 (length raw)) (λ _. tt)
          λ fits.
            if_intro Fits
              (not
                (crc16_x25 (take stop raw) == be16 (get_or raw stop 0) (get_or raw (stop + 1) 0)))
              (λ _. tt)
              λ _.
                if_intro Fits (get_or raw 0 0 == 0x1F)
                  (λ _.
                    if_intro Fits (ltb (length raw) 4) (λ _. tt)
                      (λ more. (
                        ground (arith, length-slice 2 stop raw (ground arith) (omega arith)),
                        part 2,
                      )))
                  (λ _.
                    (ground (arith, length-slice 1 stop raw (ground arith) (omega arith)), part 1))

-- The device is as it was, but for one new key of 32 bytes.
abbrev pub Kept : Device → Device → Type 0
Kept d d' =
    (d' ≡ d)
    ⊎ ((slot : ℕ) × (key : EccSlot) × (length key.private_key ≡ 32)
        × (d' ≡ record d { ecc_slots = insert slot key d.ecc_slots }))

pub Kept-IsDevice : (d d' : Device) → Kept d d' → IsDevice d → IsDevice d'
Kept-IsDevice d d' (inl e) v = subst IsDevice (sym e) v
Kept-IsDevice d d' (inr (slot, key, n, e)) v =
    subst IsDevice (sym e)
      (record { serial_sized = v.serial_sized; zones_bounded = v.zones_bounded })

module _ (p : P256) (sizes : Sizes p) (e : Entropy p)
    (filled : (n : ℕ) → length (e.bytes n) ≡ n) where
  keypair-Kept : (d : Device) (body : List ℕ) → Kept d (keypair p e d body).0
  unfolding keypair
  keypair-Kept d body =
      let P = λ (o : Device × List ℕ). Kept d o.0 in
      if_intro P (ltb (length body) 16) (λ _. inl refl)
        λ _.
          if_intro P (not (is_nist_p256 (drop 6 body))) (λ _. inl refl)
            λ _.
              if_intro P (not (length (p.to_encoded_point (p.signing_from e.key)) == 65))
                (λ _. inl refl)
                λ _. inr (
                  get_or body 1 0,
                  record { curve = nist_p256; private_key = p.to_bytes e.key },
                  sizes.length-to_bytes e.key,
                  refl,
                )

  -- What is shown of an outcome.
  abbrev Proper : Device → Outcome p → Type 0
  Proper d (d', s', r) = Kept d d' × IsResponse r

  module _ (d : Device) (s : Session p) (v : IsDevice d) where
    route-Proper :
        (header : ℕ) (body : List ℕ)
        → length body ≤ 751
        → IsBytes body
        → Proper d (route p e d s header body)
    unfolding route
    route-Proper header body fits bytes =
        let P = Proper d in
        if_intro P (header == 0x00) (λ _. (inl refl, echo-IsResponse body (omega arith)))
          λ _.
            if_intro P (header == 0x02)
              (λ _. (inl refl, random-IsResponse p sizes e body filled bytes))
              λ _.
                if_intro P (header == 0x05) (λ _. (inl refl, read-IsResponse d body v))
                  λ _.
                    if_intro P (header == 0x11)
                      (λ _. (keypair-Kept d body, keypair-IsResponse p sizes e d body))
                      λ _.
                        if_intro P (header == 0x16)
                          (λ _. (inl refl, sign-IsResponse p sizes d body))
                          λ _.
                            if_intro P (header == 0x17)
                              (λ _. (inl refl, verify-IsResponse p sizes body))
                              λ _.
                                if_intro P (header == 0x18)
                                  (λ _. (inl refl, ecdh-IsResponse p sizes d body))
                                  λ _.
                                    if_intro P (header == 0x14)
                                      (λ _. (inl refl, query-IsResponse d body v))
                                      λ _.
                                        if_intro P
                                          ((header == 0x0D) || (header == 0x19) || (header == 0x01))
                                          (λ _. (
                                            inl refl,
                                            build_response-IsResponse 0x00 [] (omega arith)
                                                (omega arith),
                                          ))
                                          (λ _.
                                            (inl refl, build_error-IsResponse 0x0E (omega arith)))

    command-Proper : (c : Command) → Fits (ok c) → Proper d (dispatch_command p e d s c)
    unfolding dispatch_command
    command-Proper c h =
        if_intro (Proper d) (is_extended c)
          (λ _. (inl refl, build_error-IsResponse 0x0E (omega arith)))
          (λ _. route-Proper c.header c.body h.0 h.1)

    parsed-Proper :
        (o : Result Command FrameError)
        → Fits o
        → Proper d (elim o [
          | ok cmd ↦ dispatch_command p e d s cmd
          | err fault ↦ (d, s, build_error (frame_error fault))
        ])
    unfolding frame_error
    parsed-Proper (ok c) h = command-Proper c h
    parsed-Proper (err too_short) h = (inl refl, build_error-IsResponse 0x02 (omega arith))
    parsed-Proper (err bad_crc) h = (inl refl, build_error-IsResponse 0x16 (omega arith))
    parsed-Proper (err overflow) h = (inl refl, build_error-IsResponse 0x02 (omega arith))

    -- On a device with a serial number of 8 bytes and zones of at most 65533, and with cryptography
    -- that keeps its sizes, every frame of bytes is answered by one well-formed response, and the
    -- device is as it was but for at most one new key of 32 bytes.
    pub dispatch-Proper :
        (raw : List ℕ)
        → IsBytes raw
        → Kept d (dispatch p e d s raw).0 × IsResponse (dispatch p e d s raw).2
    unfolding dispatch
    dispatch-Proper raw bytes = parsed-Proper (parse_command raw) (parse_command-Fits raw bytes)
