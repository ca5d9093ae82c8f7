-- ===== src/Atecc/Dispatch/Safety.antt =====
-- ATECC608Sim/atecc608-sim/src/dispatch.rs: the answers to packets, and what a packet may change of
-- the device.
use simulators.Common.{ℕ, ◌≡◌, refl, Option, none, some, List, length, ◌==◌, if_intro}
use simulators.Common.Bytes.{IsBytes}
use simulators.Common.Results.{Result, ok, err}
use simulators.Atecc.Frame.{Command, parse, parse_error}
use simulators.Atecc.Frame.Packets.{payload-IsBytes}
use simulators.Atecc.Frame.Responses.{IsResponse, Answers, Leaves, status_response-Answers}
use simulators.Atecc.Device.{Device}
use simulators.Atecc.Device.Invariant.{IsDevice, Evolves, Evolves-refl}
use simulators.Atecc.Session.{Sha, Session}
use simulators.Atecc.Crypto.{P256, Entropy, Sizes}
use simulators.Atecc.Handlers.Safety.{info-Answers, read_zone-Answers}
use simulators.Atecc.Handlers.Evolution.{Next, write_zone-Leaves, lock-Leaves}
use simulators.Atecc.Handlers.KeySafety.{
  random-Answers, genkey-Leaves, sign-Answers, verify-Answers, ecdh-Answers, nonce-Leaves,
  sha_command-Leaves, Any,
}
use simulators.Atecc.Dispatch.{Outcome, stay, on_device, on_session, route, routed, dispatch}

module _ (sha : Sha) (p : P256) (sizes : Sizes sha p) (entropy : Entropy p) where
  abbrev Proper : Device → Outcome sha p → Type 0
  Proper d none = ⊥
  Proper d (some (d', s', r)) = Next d d' × IsResponse r

  stay-Proper :
      (d : Device) (s : Session sha) (o : Option (List ℕ))
      → IsDevice d
      → Answers o
      → Proper d (stay sha p d s o)
  stay-Proper d s none v a = a
  stay-Proper d s (some r) v a = ((v, Evolves-refl d), a)

  on_device-Proper :
      (d : Device) (s : Session sha) (o : Option (Device × List ℕ))
      → Leaves (Next d) o
      → Proper d (on_device sha p s o)
  on_device-Proper d s none l = l
  on_device-Proper d s (some (d', r)) l = l

  on_session-Proper :
      (d : Device) (o : Option (Session sha × List ℕ))
      → IsDevice d
      → Leaves (Any sha p sizes) o
      → Proper d (on_session sha p d o)
  on_session-Proper d none v l = l
  on_session-Proper d (some (s, r)) v l = ((v, Evolves-refl d), l.1)

  module _ (filled : length entropy.bytes ≡ 32) (d : Device) (s : Session sha)
      (v : IsDevice d) where
    route-Proper : (cmd : Command) → IsBytes cmd.payload → Proper d (route sha p entropy d s cmd)
    unfolding route
    route-Proper cmd bytes =
        let P = Proper d in
        let op = cmd.opcode in
        if_intro P (op == 0x30) (λ _. stay-Proper d s _ v (info-Answers d cmd v))
          λ _.
            if_intro P (op == 0x1B)
              (λ _. stay-Proper d s _ v (random-Answers sha p sizes entropy d cmd filled))
              λ _.
                if_intro P (op == 0x02) (λ _. stay-Proper d s _ v (read_zone-Answers d cmd v))
                  λ _.
                    if_intro P (op == 0x12)
                      (λ _. on_device-Proper d s _ (write_zone-Leaves d v cmd bytes))
                      λ _.
                        if_intro P (op == 0x17) (λ _. on_device-Proper d s _ (lock-Leaves d v cmd))
                          λ _.
                            if_intro P (op == 0x47)
                              (λ _. on_session-Proper d _ v (sha_command-Leaves sha p sizes s cmd))
                              λ _.
                                if_intro P (op == 0x16)
                                  (λ _. on_session-Proper d _ v (nonce-Leaves sha p sizes s cmd))
                                  λ _.
                                    if_intro P (op == 0x40)
                                      (λ _.
                                        on_device-Proper d s _
                                          (genkey-Leaves sha p sizes entropy d cmd v))
                                      λ _.
                                        if_intro P (op == 0x41)
                                          (λ _.
                                            stay-Proper d s _ v
                                              (sign-Answers sha p sizes d s cmd v))
                                          λ _.
                                            if_intro P (op == 0x45)
                                              (λ _.
                                                stay-Proper d s _ v
                                                  (verify-Answers sha p sizes d s cmd))
                                              λ _.
                                                if_intro P (op == 0x43)
                                                  (λ _.
                                                    stay-Proper d s _ v
                                                      (ecdh-Answers sha p sizes d cmd v))
                                                  λ _.
                                                    stay-Proper d s _ v
                                                      (status_response-Answers parse_error)

    routed-Proper :
        (r : Result Command ℕ)
        → ((cmd : Command) → r ≡ ok cmd → IsBytes cmd.payload)
        → Proper d (routed sha p entropy d s r)
    routed-Proper (ok cmd) h = route-Proper cmd (h cmd refl)
    routed-Proper (err sw) h = stay-Proper d s _ v (status_response-Answers sw)

    dispatch-Proper :
        (packet : List ℕ) → IsBytes packet → Proper d (dispatch sha p entropy d s packet)
    unfolding dispatch
    dispatch-Proper packet bytes =
        routed-Proper (parse packet) (λ cmd. payload-IsBytes packet cmd bytes)

    taken_apart :
        (o : Outcome sha p)
        → Proper d o
        → (d' : Device) × (s' : Session sha) × (r : List ℕ) × (o ≡ some (d', s', r))
          × IsDevice d'
          × Evolves d d'
          × IsResponse r
    taken_apart none h = absurd h
    taken_apart (some (d', s', r)) h = (d', s', r, refl, h.0.0, h.0.1, h.1)

    -- On a device of the right sizes, and with cryptography that keeps its sizes, every packet of
    -- bytes is answered without a panic by one well-formed response, and the device keeps its
    -- sizes. If its configuration is locked, that lock and those of the data zone and of the slots
    -- stay, and its bytes but the lock bytes 86, 88 and 89 are kept; if its data zone is locked,
    -- the OTP zone and each locked slot are as they were.
    pub dispatch_total :
        (packet : List ℕ)
        → IsBytes packet
        → (d' : Device) × (s' : Session sha) × (r : List ℕ) × (dispatch sha p entropy d s packet
            ≡ some (d', s', r))
          × IsDevice d'
          × Evolves d d'
          × IsResponse r
    dispatch_total packet bytes = taken_apart _ (dispatch-Proper packet bytes)
