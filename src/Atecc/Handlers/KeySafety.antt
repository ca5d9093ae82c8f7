-- ===== src/Atecc/Handlers/KeySafety.antt =====
-- ATECC608Sim/atecc608-sim/src/handlers: the responses of the handlers of keys, digests and random
-- numbers.
use simulators.Common.{
  ℕ, ◌≤◌, ◌≡◌, ◌≢◌, inl, inr, bit_and, false, not, Option, none, some, List, arith, length,
  get_elem?, All-get_elem?, Option-cases, ltb, leb, ◌==◌, if_intro,
}
use simulators.Common.Results.{>>=_intro}
use simulators.Common.Slices.{slice, splice, resize, length-slice, length-splice, length-resize}
use simulators.Atecc.Frame.{
  Command, success, miscompare, parse_error, execution_error, build_response,
}
use simulators.Atecc.Frame.Responses.{
  Answers, Leaves, reply-Leaves, build_response-Answers, status_response-Answers,
}
use simulators.Atecc.Device.{Device, SlotData, num_slots, slot_locked}
use simulators.Atecc.Device.Invariant.{IsDevice, Evolves-refl}
use simulators.Atecc.Session.{Sha, Session, sha_update, sha_finish}
use simulators.Atecc.Crypto.{P256, Entropy, Sizes}
use simulators.Atecc.Handlers.Digest.{nonce, sha_command, answer_update, answer_digest}
use simulators.Atecc.Handlers.Keys.{
  slot_scalar, store_scalar, random, pubkey_raw, public_from, genkey, sign_with, sign, verify_with,
  verify, shared_with, ecdh,
}
use simulators.Atecc.Handlers.Safety.{slot_at}
use simulators.Atecc.Handlers.Evolution.{Next, refused, set_slot-Next}

-- A slot holds its scalar in its first 32 bytes.
length-store_scalar :
    (s : SlotData) (scalar : List ℕ)
    → length s.bytes ≤ 72
    → length scalar ≡ 32
    → length (store_scalar s scalar).bytes ≤ 72
unfolding store_scalar
length-store_scalar s scalar h k =
    if_intro (λ (g : List ℕ). length (splice 0 scalar g) ≤ 72) (ltb (length s.bytes) 32)
      (λ e.
        let n = length-resize 32 0 s.bytes (ground arith) in
        omega (arith, n, k, length-splice 0 scalar (resize 32 0 s.bytes) (omega (arith, n, k))))
      (λ e. omega (arith, length-splice 0 scalar s.bytes (ground arith)))

slot_scalar-ne-none :
    (d : Device) (i : ℕ) → IsDevice d → leb num_slots i ≡ false → slot_scalar d i ≢ none
unfolding slot_scalar
slot_scalar-ne-none d i v small =
    >>=_intro (λ o. o ≢ none) (get_elem? d.slots i) (slot_at d i v small) (λ s _ e. cc)

module _ (sha : Sha) (p : P256) (sizes : Sizes sha p) where
  answer_32 : (body : List ℕ) → length body ≡ 32 → Answers (build_response body)
  answer_32 body n = build_response-Answers body (omega arith) (omega arith)

  answer_64 : (body : List ℕ) → length body ≡ 64 → Answers (build_response body)
  answer_64 body n = build_response-Answers body (omega arith) (omega arith)

  pub random-Answers :
      (entropy : Entropy p) (d : Device) (cmd : Command)
      → length entropy.bytes ≡ 32
      → Answers (random sha p entropy d cmd)
  unfolding random
  random-Answers entropy d cmd n = answer_32 entropy.bytes n

  length-pubkey_raw : (k : p.SigningKey) → length (pubkey_raw sha p k) ≡ 64
  unfolding pubkey_raw
  length-pubkey_raw k =
      length-slice 1 65 (p.encoded_point k) (omega arith)
        (omega (arith, sizes.length-encoded_point k))

  public_from-Answers : (o : Option (List ℕ)) → Answers (public_from sha p o)
  unfolding public_from
  public_from-Answers none = status_response-Answers execution_error
  public_from-Answers (some scalar) = elim (Option-cases (p.signing_key scalar)) [
    | inl e ↦ rw (e, public_from) (status_response-Answers execution_error)
    | inr (k, e) ↦ rw (e, public_from) (answer_64 (pubkey_raw sha p k) (length-pubkey_raw k))
  ]

  pub genkey-Leaves :
      (entropy : Entropy p) (d : Device) (cmd : Command)
      → IsDevice d
      → Leaves (Next d) (genkey sha p entropy d cmd)
  unfolding genkey
  genkey-Leaves entropy d cmd v =
      let P = Leaves (Next d) in
      if_intro P (leb num_slots cmd.p2) (λ _. refused d v parse_error)
        λ small.
          if_intro P (cmd.p1 == 0x04)
            (λ _.
              if_intro P (slot_locked d cmd.p2) (λ _. refused d v execution_error)
                λ free.
                  >>=_intro P (get_elem? d.slots cmd.p2) (slot_at d cmd.p2 v small) λ old found.
                    reply-Leaves (Next d) _
                      (set_slot-Next d v cmd.p2 (store_scalar old (p.scalar entropy.key))
                        (length-store_scalar old (p.scalar entropy.key)
                          (All-get_elem? (λ (s : SlotData). length s.bytes ≤ 72) d.slots cmd.p2 old
                            v.slots_bounded found)
                          (sizes.length-scalar entropy.key))
                        (λ l k. cc))
                      (answer_64 (pubkey_raw sha p entropy.key) (length-pubkey_raw entropy.key)))
            λ _.
              if_intro P (cmd.p1 == 0x00)
                (λ _.
                  >>=_intro P (slot_scalar d cmd.p2) (slot_scalar-ne-none d cmd.p2 v small)
                    λ scalar _.
                      reply-Leaves (Next d) (public_from sha p scalar) (v, Evolves-refl d)
                        (public_from-Answers scalar))
                (λ _. refused d v parse_error)

  sign_with-Answers : (o : Option (List ℕ)) (digest : List ℕ) → Answers (sign_with sha p o digest)
  unfolding sign_with
  sign_with-Answers none digest = status_response-Answers execution_error
  sign_with-Answers (some scalar) digest = elim (Option-cases (p.signing_key scalar)) [
    | inl e ↦ rw (e, sign_with) (status_response-Answers execution_error)
    | inr (k, e) ↦ elim (Option-cases (p.sign_prehash k digest)) [
      | inl e' ↦ rw (e, e', sign_with) (status_response-Answers execution_error)
      | inr (sig, e') ↦
          rw (e, e', sign_with) (answer_64 sig (sizes.length-sign_prehash k digest sig e'))
    ]
  ]

  pub sign-Answers :
      (d : Device) (s : Session sha) (cmd : Command) → IsDevice d → Answers (sign sha p d s cmd)
  unfolding sign
  sign-Answers d s cmd v =
      if_intro Answers (bit_and cmd.p1 0x80 == 0) (λ _. status_response-Answers execution_error)
        λ _.
          if_intro Answers (leb num_slots cmd.p2) (λ _. status_response-Answers parse_error)
            λ small.
              if_intro Answers (not s.tempkey.valid) (λ _. status_response-Answers execution_error)
                λ _.
                  >>=_intro Answers (slot_scalar d cmd.p2) (slot_scalar-ne-none d cmd.p2 v small)
                    (λ scalar _. sign_with-Answers scalar s.tempkey.value)

  verify_with-Answers :
      (sig : Option p.Signature) (vk : Option p.VerifyingKey) (digest : List ℕ)
      → Answers (verify_with sha p sig vk digest)
  unfolding verify_with
  verify_with-Answers none vk digest = status_response-Answers parse_error
  verify_with-Answers (some sig) none digest = status_response-Answers parse_error
  verify_with-Answers (some sig) (some vk) digest =
      if_intro Answers (p.verify_prehash vk digest sig) (λ _. status_response-Answers success)
        (λ _. status_response-Answers miscompare)

  pub verify-Answers :
      (d : Device) (s : Session sha) (cmd : Command) → Answers (verify sha p d s cmd)
  unfolding verify
  verify-Answers d s cmd =
      if_intro Answers (not (bit_and cmd.p1 0x07 == 0x02))
        (λ _. status_response-Answers execution_error)
        λ _.
          if_intro Answers (not (length cmd.payload == 128))
            (λ _. status_response-Answers parse_error)
            λ _.
              if_intro Answers (not s.tempkey.valid) (λ _. status_response-Answers execution_error)
                (λ _. verify_with-Answers _ _ s.tempkey.value)

  shared_with-Answers : (o : Option (List ℕ)) (peer : List ℕ) → Answers (shared_with sha p o peer)
  unfolding shared_with
  shared_with-Answers none peer = status_response-Answers execution_error
  shared_with-Answers (some scalar) peer = elim (Option-cases (p.secret_key scalar)) [
    | inl e ↦ rw (e, shared_with) (status_response-Answers execution_error)
    | inr (k, e) ↦ elim (Option-cases (p.public_key peer)) [
      | inl e' ↦ rw (e, e', shared_with) (status_response-Answers parse_error)
      | inr (q, e') ↦
          rw (e, e', shared_with)
            (answer_32 (p.diffie_hellman k q) (sizes.length-diffie_hellman k q))
    ]
  ]

  pub ecdh-Answers : (d : Device) (cmd : Command) → IsDevice d → Answers (ecdh sha p d cmd)
  unfolding ecdh
  ecdh-Answers d cmd v =
      if_intro Answers (not (cmd.p1 == 0x00)) (λ _. status_response-Answers execution_error)
        λ _.
          if_intro Answers (leb num_slots cmd.p2) (λ _. status_response-Answers parse_error)
            λ small.
              if_intro Answers (not (length cmd.payload == 64))
                (λ _. status_response-Answers parse_error)
                λ _.
                  >>=_intro Answers (slot_scalar d cmd.p2) (slot_scalar-ne-none d cmd.p2 v small)
                    (λ scalar _. shared_with-Answers scalar (slice 0 64 cmd.payload))

  -- Any session may follow: the session has no invariant that an answer depends on.
  abbrev pub Any : Session sha → Type 0
  Any s = Unit {0}

  pub nonce-Leaves : (s : Session sha) (cmd : Command) → Leaves Any (nonce sha s cmd)
  unfolding nonce
  nonce-Leaves s cmd =
      let P = Leaves Any in
      if_intro P (not (bit_and cmd.p1 0x07 == 0x03))
        (λ _. reply-Leaves Any _ tt (status_response-Answers parse_error))
        λ _.
          if_intro P (not (length cmd.payload == 32))
            (λ _. reply-Leaves Any _ tt (status_response-Answers parse_error))
            (λ _. reply-Leaves Any _ tt (status_response-Answers success))

  update-Leaves :
      (s : Session sha) (bytes : List ℕ) → Leaves Any (answer_update sha (sha_update sha s bytes))
  unfolding answer_update sha_update
  update-Leaves s bytes = elim (Option-cases s.hasher) [
    | inl e ↦ rw e (reply-Leaves Any _ tt (status_response-Answers execution_error))
    | inr (h, e) ↦ rw e (reply-Leaves Any _ tt (status_response-Answers success))
  ]

  finish-Leaves :
      (s : Session sha) (bytes : List ℕ) → Leaves Any (answer_digest sha (sha_finish sha s bytes))
  unfolding answer_digest sha_finish
  finish-Leaves s bytes = elim (Option-cases s.hasher) [
    | inl e ↦ rw e (reply-Leaves Any _ tt (status_response-Answers execution_error))
    | inr (h, e) ↦ rw e (reply-Leaves Any _ tt (answer_32 _ (sizes.length-finalize _)))
  ]

  pub sha_command-Leaves : (s : Session sha) (cmd : Command) → Leaves Any (sha_command sha s cmd)
  unfolding sha_command
  sha_command-Leaves s cmd =
      let P = Leaves Any in
      if_intro P (cmd.p1 == 0x00) (λ _. reply-Leaves Any _ tt (status_response-Answers success))
        λ _.
          if_intro P (cmd.p1 == 0x01) (λ _. update-Leaves s cmd.payload)
            λ _.
              if_intro P (cmd.p1 == 0x02) (λ _. finish-Leaves s cmd.payload)
                λ _.
                  if_intro P (cmd.p1 == 0x03)
                    (λ _. reply-Leaves Any _ tt (answer_32 _ (sizes.length-digest cmd.payload)))
                    (λ _. reply-Leaves Any _ tt (status_response-Answers parse_error))
