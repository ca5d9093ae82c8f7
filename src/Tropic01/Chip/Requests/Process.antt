-- ===== src/Tropic01/Chip/Requests/Process.antt =====
-- TROPIC01Sim/tropic01-sim/src/chip.rs: the handshake, the start-up, the sleep and the routing: their
-- panics, and the bounds of the store.
use simulators.Common.{
  ℕ, ◌≤◌, ◌≡◌, refl, arith, not, ◌&&◌, ◌||◌, List, [], ◌∷◌, ◌++◌, ◌⊎◌, length, get_or, take, ltb,
  ◌==◌, inl, inr, if_intro, Option, none, some, lt→ltb, Option-cases, length-append, bit_and,
}
use simulators.Common.Maps.{lookup}
use simulators.Common.Results.{Result, ok, err, Result-cases}
use simulators.Common.Slices.{resize}
use simulators.Tropic01.Frame.{FrameError, parse_request}
use simulators.Tropic01.Frame.Status
use simulators.Tropic01.L3.{OsRng}
use simulators.Tropic01.L3.Step.Bounds.{WellFormed}
use simulators.Tropic01.Personality.{
  Personality, es012, es220, fw220, fw_log, bad_pairing_index_alarms,
}
use simulators.Tropic01.Session.{
  Session, handshake, handshake_with, handshake_req_len, HandshakeError, aes_gcm_seal_tag,
  transcript, key_chain, zero_nonce,
}
use simulators.Tropic01.Store.{Device, PairingState}
use simulators.Tropic01.Chip.{Platform, Chip, drop_session, reboot, load_config, config_in_force}
use simulators.Tropic01.Chip.Requests.{
  handshake_request, startup, sleep, application_request, in_application, in_maintenance,
  route_request, refuse_frame, process, req_resend, req_get_info, req_get_log, req_startup,
  req_handshake, req_encrypted_cmd, req_encrypted_session_abt, req_sleep, sleep_kind_sleep,
  startup_reboot, startup_maintenance_reboot,
}
use simulators.Tropic01.GetInfo.Sizes.{get_info-total}
use simulators.Tropic01.Chip.Requests.Sound.{
  Sized, Good, Sound, one_frame-Sound, encrypted_cmd-Sound, length-config_in_force,
  load_config-Good,
}

length-fw_log : (p : Personality) → length (fw_log p) ≤ 252
unfolding fw_log resize
length-fw_log es012 = omega arith
length-fw_log es220 = omega arith
length-fw_log fw220 = omega arith

pairing_cases : (s : PairingState) → (s ≡ PairingState.written) ⊎ (s ≡ PairingState.invalidated)
pairing_cases PairingState.written = inl refl
pairing_cases PairingState.invalidated = inr refl

-- The body of an accepted handshake has 48 bytes.
handshake_with-length :
    {rng : OsRng} (w : Platform) (dev : Device) (etpriv ehpub shipub : List ℕ) (index : ℕ)
    → Sized w rng
    → (body : List ℕ) × (s : Session) × (handshake_with w.crypto dev etpriv ehpub shipub index
        ≡ (ok body, s))
      × (length body ≡ 48)
unfolding handshake_with aes_gcm_seal_tag
handshake_with-length w dev etpriv ehpub shipub index laws =
    let c = w.crypto in
    let public = c.x25519_public etpriv in
    let h = transcript c shipub dev.st_pub ehpub index public in
    let chain =
      key_chain c (c.diffie_hellman etpriv ehpub) (c.diffie_hellman etpriv shipub)
        (c.diffie_hellman dev.st_priv ehpub) in
    let tag = c.encrypt chain.0 zero_nonce h [] in
    let n = laws.session.key_length etpriv in
    let m = laws.session.tag_length chain.0 zero_nonce h [] in
    (public ++ tag, _, refl, omega (arith, length-append public tag))

Shaped : Result (List ℕ) HandshakeError × Session → Type 0
Shaped r = ((e : HandshakeError) × (r.0 ≡ err e)) ⊎ ((b : List ℕ) × (r.0 ≡ ok b) × (length b ≡ 48))

handshake-length :
    {rng : OsRng} (w : Platform) (s : Session) (dev : Device) (etpriv request : List ℕ)
    → Sized w rng
    → Shaped (handshake w.crypto s dev etpriv request)
unfolding handshake Shaped
handshake-length w s dev etpriv request laws =
    if_intro Shaped (not (length request == handshake_req_len)) (λ _. inl (_, refl))
      (λ _. elim (Option-cases (lookup (get_or request 32 0) dev.pairing_slots)) [
        | inl n ↦ rw n (inl (_, refl))
        | inr (slot, n) ↦ rw n (elim (pairing_cases slot.state) [
          | inr q ↦ rw q (inl (_, refl))
          | inl q ↦
              let (body, t, run, size) =
                handshake_with-length w dev etpriv (take 32 request) slot.public_key
                  (get_or request 32 0) laws in
              rw (q, run) (inr (body, refl, size))
        ])
      ])

handshake_request-Sound :
    (w : Platform) (rng : OsRng) (p : Personality) (chip : Chip) (dev : Device) (payload : List ℕ)
    → Sized w rng
    → WellFormed p dev
    → Good p chip
    → Sound p (handshake_request w rng chip dev payload)
unfolding handshake_request drop_session Shaped
handshake_request-Sound w rng p chip dev payload laws wf e =
    if_intro (Sound p) (not (length payload == handshake_req_len))
      (λ _. one_frame-Sound p Status.gen_err [] chip dev (omega arith) wf e)
      (λ _.
        if_intro (Sound p)
          (ltb 3 (get_or payload 32 0) && bad_pairing_index_alarms chip.personality)
          (λ _. (_, refl, wf, e))
          (λ _. elim (handshake-length w chip.session dev (rng 32) payload laws) [
            | inl (f, q) ↦ rw q (one_frame-Sound p Status.hsk_err [] _ dev (omega arith) wf e)
            | inr (body, q, size) ↦
                rw q (one_frame-Sound p Status.request_ok body _ dev (omega arith) wf e)
          ]))

rebooted-Good :
    (p : Personality) (chip : Chip)
    → Good p chip
    → (chip.personality ≡ p)
      × ((cfg : List ℕ) → ◌≡◌ {A = Option (List ℕ)} none (some cfg) → length cfg ≡ 128)
rebooted-Good p chip e = (e.0, λ cfg h. absurd cc)

startup-Sound :
    (p : Personality) (chip : Chip) (dev : Device) (payload : List ℕ)
    → WellFormed p dev
    → Good p chip
    → Sound p (startup chip dev payload)
unfolding startup reboot load_config drop_session
startup-Sound p chip dev payload wf e =
    let n = length-config_in_force p chip dev wf e in
    let fresh = rebooted-Good p chip e in
    if_intro (Sound p) (not (length payload == 1))
      (λ _. one_frame-Sound p Status.gen_err [] chip dev (omega arith) wf e)
      (λ _.
        if_intro (Sound p) (get_or payload 0 0 == startup_reboot)
          (λ _. one_frame-Sound p Status.request_ok [] _ dev (omega arith) wf fresh)
          (λ _.
            if_intro (Sound p) (get_or payload 0 0 == startup_maintenance_reboot)
              (λ _.
                rw (lt→ltb 0 (length (config_in_force chip dev)) (omega (arith, n)))
                  (one_frame-Sound p Status.request_ok [] _ dev (omega arith) wf fresh))
              (λ _. one_frame-Sound p Status.gen_err [] chip dev (omega arith) wf e)))

sleep-Sound :
    (p : Personality) (chip : Chip) (dev : Device) (payload : List ℕ)
    → WellFormed p dev
    → Good p chip
    → Sound p (sleep chip dev payload)
unfolding sleep load_config drop_session
sleep-Sound p chip dev payload wf e =
    let n = length-config_in_force p chip dev wf e in
    let loaded = load_config-Good p chip dev wf e in
    if_intro (Sound p) (not (length payload == 1) || not (get_or payload 0 0 == sleep_kind_sleep))
      (λ _. one_frame-Sound p Status.gen_err [] chip dev (omega arith) wf e)
      (λ _. rw (lt→ltb 6 (length (config_in_force chip dev)) (omega (arith, n))) (
        if_intro (Sound p) (bit_and (get_or (config_in_force chip dev) 6 0) 1 == 0)
          (λ _. one_frame-Sound p Status.resp_disabled [] _ dev (omega arith) wf loaded)
          (λ _. one_frame-Sound p Status.request_ok [] _ dev (omega arith) wf loaded)))

application_request-Sound :
    (w : Platform) (rng : OsRng) (p : Personality) (chip : Chip) (dev : Device) (id : ℕ)
    (payload : List ℕ)
    → Sized w rng
    → WellFormed p dev
    → Good p chip
    → Sound p (application_request w rng chip dev id payload)
unfolding application_request drop_session
application_request-Sound w rng p chip dev id payload laws wf e =
    if_intro (Sound p) (id == req_handshake)
      (λ _. handshake_request-Sound w rng p chip dev payload laws wf e)
      (λ _.
        if_intro (Sound p) (id == req_encrypted_cmd)
          (λ _. encrypted_cmd-Sound w rng p chip dev payload laws wf e)
          (λ _.
            if_intro (Sound p) (id == req_encrypted_session_abt)
              (λ _.
                if_intro (Sound p) (not (length payload == 0))
                  (λ _. one_frame-Sound p Status.gen_err [] chip dev (omega arith) wf e)
                  (λ _. one_frame-Sound p Status.request_ok [] _ dev (omega arith) wf e))
              (λ _.
                if_intro (Sound p) (id == req_sleep) (λ _. sleep-Sound p chip dev payload wf e)
                  (λ _. one_frame-Sound p Status.unknown_err [] chip dev (omega arith) wf e))))

route_request-Sound :
    (w : Platform) (rng : OsRng) (p : Personality) (chip : Chip) (dev : Device) (id : ℕ)
    (payload : List ℕ)
    → Sized w rng
    → WellFormed p dev
    → Good p chip
    → Sound p (route_request w rng chip dev id payload)
unfolding route_request
route_request-Sound w rng p chip dev id payload laws wf e =
    let refused = one_frame-Sound p Status.gen_err [] chip dev (omega arith) wf e in
    if_intro (Sound p) (id == req_resend) (λ _. refused)
      (λ _.
        if_intro (Sound p) (id == req_get_info)
          (λ _.
            if_intro (Sound p) (not (length payload == 2)) (λ _. refused)
              (λ _.
                let (f, g) =
                  get_info-total w.crypto.sha256 dev (in_maintenance chip.mode) (get_or payload 0 0)
                    (get_or payload 1 0) laws.digest wf.chip_id in
                rw g (record { frames = f ∷ []; chip = chip; device = dev }, refl, wf, e)))
          (λ _.
            if_intro (Sound p) (id == req_get_log)
              (λ _.
                if_intro (Sound p) (not (length payload == 0)) (λ _. refused)
                  (λ _.
                    one_frame-Sound p Status.request_ok (fw_log chip.personality) chip dev
                      (length-fw_log chip.personality) wf e))
              (λ _.
                if_intro (Sound p) (id == req_startup) (λ _. startup-Sound p chip dev payload wf e)
                  (λ _.
                    if_intro (Sound p) (in_application chip.mode)
                      (λ _. application_request-Sound w rng p chip dev id payload laws wf e)
                      (λ _. one_frame-Sound p Status.unknown_err [] chip dev (omega arith) wf e)))))

refuse_frame-Sound :
    (p : Personality) (f : FrameError) (chip : Chip) (dev : Device)
    → WellFormed p dev
    → Good p chip
    → Sound p (refuse_frame f chip dev)
unfolding refuse_frame
refuse_frame-Sound p FrameError.bad_crc chip dev wf e =
    one_frame-Sound p Status.crc_err [] chip dev (omega arith) wf e
refuse_frame-Sound p FrameError.too_short chip dev wf e =
    one_frame-Sound p Status.gen_err [] chip dev (omega arith) wf e
refuse_frame-Sound p FrameError.len_mismatch chip dev wf e =
    one_frame-Sound p Status.gen_err [] chip dev (omega arith) wf e
refuse_frame-Sound p FrameError.overflow chip dev wf e =
    one_frame-Sound p Status.gen_err [] chip dev (omega arith) wf e

-- Whatever bytes a request consists of, the chip answers it: no frame is built with more data than a
-- frame holds, the device stays within its bounds, and the chip keeps its personality.
pub process-Sound :
    (w : Platform) (rng : OsRng) (p : Personality) (chip : Chip) (dev : Device) (raw : List ℕ)
    → Sized w rng
    → WellFormed p dev
    → Good p chip
    → Sound p (process w rng chip dev raw)
unfolding process
process-Sound w rng p chip dev raw laws wf e = elim (Result-cases (parse_request raw)) [
  | inl (r, q) ↦ rw (process, q) (route_request-Sound w rng p chip dev r.req_id r.payload laws wf e)
  | inr (f, q) ↦ rw (process, q) (refuse_frame-Sound p f chip dev wf e)
]
