-- ===== src/Stsafe/Handlers/Safety.antt =====
-- STSAFEA120Sim/stsafe-a120-sim/src/handlers: the responses of the handlers.
use simulators.Common.{
  ℕ, ◌+◌, ◌≤◌, ◌<◌, ◌≡◌, inl, inr, not, Option, none, some, List, [], ◌∷◌, arith, length, get_or,
  drop, length-append, Option-cases, ltb, ◌==◌, if◌then◌else◌, if_intro, All-get_or,
}
use simulators.Common.Bytes.{IsByte, IsBytes}
use simulators.Common.Maps.{lookup}
use simulators.Common.Slices.{slice, length-slice}
use simulators.Stsafe.Crypto.{P256, Entropy, Sizes}
use simulators.Stsafe.Frame.{build_response, build_error}
use simulators.Stsafe.Frame.Responses.{
  IsResponse, build_response-IsResponse, build_error-IsResponse,
}
use simulators.Stsafe.Store.{Device, DataZone, same_curve, nist_p256}
use simulators.Stsafe.Handlers.{
  ok_status, length_error, invalid_parameter, unexpected_error, word_at, is_nist_p256, echo, query,
  read, read_xy, read_rs, pair_body, random, keypair, sign_with, sign, verify_with, verify_message,
  verify, shared_with, ecdh,
}

-- The serial number has its size, and no zone is longer than a response can be.
pub record IsDevice (d : Device) : Type 0 where
  pub serial_sized : length d.serial_number ≡ 8
  pub zones_bounded :
      (k : ℕ) (z : DataZone) → lookup k d.data_zones ≡ some z → length z.bytes ≤ 65533

refused : (status : ℕ) → status < 32 → IsResponse (build_error status)
refused = build_error-IsResponse

answered : (body : List ℕ) → length body ≤ 65533 → IsResponse (build_response ok_status body)
answered body = build_response-IsResponse ok_status body (omega arith)

pub echo-IsResponse : (body : List ℕ) → length body ≤ 65533 → IsResponse (echo body)
unfolding echo
echo-IsResponse body fits = answered body fits

pub query-IsResponse : (d : Device) (body : List ℕ) → IsDevice d → IsResponse (query d body)
unfolding query
query-IsResponse d [] v = refused length_error (omega arith)
query-IsResponse d (tag ∷ rest) v =
    if_intro IsResponse (tag == 0x11)
      (λ _. answered (0x00 ∷ 0x08 ∷ d.serial_number) (omega (arith, v.serial_sized)))
      (λ _. refused invalid_parameter (omega arith))

pub read-IsResponse : (d : Device) (body : List ℕ) → IsDevice d → IsResponse (read d body)
unfolding read
read-IsResponse d body v =
    let p : ℕ = if length body == 1 + 4 + 2 + 2 then 1 + 4 else 2 in
    let offset = word_at body p in
    let len = word_at body (p + 2) in
    if_intro IsResponse (ltb (length body) 6) (λ _. refused length_error (omega arith))
      λ _. elim (Option-cases (lookup (get_or body 1 0) d.data_zones)) [
        | inl e ↦ rw e (refused invalid_parameter (omega arith))
        | inr (zone, e) ↦ rw e (
            if_intro IsResponse (ltb (length zone.bytes) (offset + len))
              (λ _. refused invalid_parameter (omega arith))
              (λ inside.
                let n =
                  length-slice offset (offset + len) zone.bytes (omega arith) (ground arith) in
                answered (slice offset (offset + len) zone.bytes)
                  (ground (arith, n, v.zones_bounded (get_or body 1 0) zone e))))
      ]

pub length-pair_body : (x y : List ℕ) → length (pair_body x y) ≡ length x + length y + 4
unfolding pair_body
length-pair_body x y = omega (arith, length-append x (0x00 ∷ 32 ∷ y))

module _ (p : P256) (sizes : Sizes p) where
  pub random-IsResponse :
      (e : Entropy p) (body : List ℕ)
      → ((n : ℕ) → length (e.bytes n) ≡ n)
      → IsBytes body
      → IsResponse (random p e body)
  unfolding random
  random-IsResponse e body filled bytes =
      let size = get_or body 1 0 in
      if_intro IsResponse (not (length body == 2)) (λ _. refused length_error (omega arith))
        λ _.
          if_intro IsResponse (size == 0) (λ _. refused invalid_parameter (omega arith))
            λ _.
              answered (e.bytes size)
                (omega (arith, filled size, All-get_or IsByte body 1 0 (omega arith) bytes))

  point_body : (k : p.SigningKey) → List ℕ
  point_body k = let e = p.to_encoded_point k in 0x04 ∷ pair_body (slice 1 33 e) (slice 33 65 e)

  point_body-le : (k : p.SigningKey) → length (point_body k) ≤ 65533
  unfolding point_body
  point_body-le k =
      let e = p.to_encoded_point k in
      let n = sizes.length-to_encoded_point k in
      omega (
        arith,
        length-pair_body (slice 1 33 e) (slice 33 65 e),
        length-slice 1 33 e (omega arith) (omega (arith, n)),
        length-slice 33 65 e (omega arith) (omega (arith, n)),
      )

  pub keypair-IsResponse :
      (e : Entropy p) (d : Device) (body : List ℕ) → IsResponse (keypair p e d body).1
  unfolding keypair point_body
  keypair-IsResponse e d body =
      let P = λ (o : Device × List ℕ). IsResponse o.1 in
      if_intro P (ltb (length body) 16) (λ _. refused length_error (omega arith))
        λ _.
          if_intro P (not (is_nist_p256 (drop 6 body)))
            (λ _. refused invalid_parameter (omega arith))
            λ _.
              if_intro P (not (length (p.to_encoded_point (p.signing_from e.key)) == 65))
                (λ _. refused unexpected_error (omega arith))
                λ _. answered _ (point_body-le (p.signing_from e.key))

  sign_with-IsResponse : (k : Option p.SigningKey) (msg : List ℕ) → IsResponse (sign_with p k msg)
  unfolding sign_with
  sign_with-IsResponse none msg = refused invalid_parameter (omega arith)
  sign_with-IsResponse (some k) msg =
      if_intro IsResponse (not (length msg == 32)) (λ _. refused invalid_parameter (omega arith))
        λ _. elim (Option-cases (p.sign_prehash k msg)) [
          | inl e ↦ rw e (refused unexpected_error (omega arith))
          | inr (s, e) ↦
              let bytes = p.signature_bytes s in
              let n = sizes.length-signature_bytes s in
              rw e (
                answered _ (
                  omega (
                    arith,
                    n,
                    length-pair_body (slice 0 32 bytes) (slice 32 (length bytes) bytes),
                    length-slice 0 32 bytes (omega arith) (omega (arith, n)),
                    length-slice 32 (length bytes) bytes (omega (arith, n)) (omega arith),
                  )))
        ]

  pub sign-IsResponse : (d : Device) (body : List ℕ) → IsResponse (sign p d body)
  unfolding sign
  sign-IsResponse d body =
      if_intro IsResponse (ltb (length body) 3) (λ _. refused length_error (omega arith))
        λ _.
          if_intro IsResponse (not (length body == 3 + word_at body 1))
            (λ _. refused length_error (omega arith))
            λ _. elim (Option-cases (lookup (get_or body 0 0) d.ecc_slots)) [
              | inl e ↦ rw e (refused invalid_parameter (omega arith))
              | inr (entry, e) ↦ rw e (
                  if_intro IsResponse (not (same_curve entry.curve nist_p256))
                    (λ _. refused invalid_parameter (omega arith))
                    (λ _.
                      if_intro IsResponse (not (length entry.private_key == 32))
                        (λ _. refused invalid_parameter (omega arith))
                        (λ _.
                          sign_with-IsResponse (p.signing_from_slice entry.private_key)
                            (slice 3 (3 + word_at body 1) body))))
            ]

  verify_with-IsResponse :
      (k : Option p.PublicKey) (sig digest : List ℕ) → IsResponse (verify_with p k sig digest)
  unfolding verify_with
  verify_with-IsResponse none sig digest = answered (0 ∷ []) (omega arith)
  verify_with-IsResponse (some k) sig digest = elim (Option-cases (p.signature_from_slice sig)) [
    | inl e ↦ rw (e, verify_with) (answered (0 ∷ []) (omega arith))
    | inr (s, e) ↦ rw (e, verify_with) (answered _ (omega arith))
  ]

  verify_message-IsResponse :
      (body pubkey sig : List ℕ) (off : ℕ) → IsResponse (verify_message p body pubkey sig off)
  unfolding verify_message
  verify_message-IsResponse body pubkey sig off =
      if_intro IsResponse (ltb (length body) (off + 2)) (λ _. refused length_error (omega arith))
        λ _.
          if_intro IsResponse (ltb (length body) (off + 2 + word_at body off))
            (λ _. refused length_error (omega arith))
            λ _.
              if_intro IsResponse (not (word_at body off == 32))
                (λ _. refused invalid_parameter (omega arith)) (λ _. verify_with-IsResponse _ _ _)

  pub verify-IsResponse : (body : List ℕ) → IsResponse (verify p body)
  unfolding verify read_rs
  verify-IsResponse body =
      if_intro IsResponse (ltb (length body) 1) (λ _. refused length_error (omega arith))
        λ _.
          if_intro IsResponse (ltb (length body) 11) (λ _. refused length_error (omega arith))
            λ _.
              if_intro IsResponse (not (is_nist_p256 (slice 1 11 body)))
                (λ _. refused invalid_parameter (omega arith))
                λ _.
                  if_intro IsResponse (ltb (length body) 12)
                    (λ _. refused length_error (omega arith))
                    λ _.
                      if_intro IsResponse (not (get_or body 11 0 == 0x04))
                        (λ _. refused invalid_parameter (omega arith))
                        λ _. elim (Option-cases (read_xy (drop 12 body))) [
                          | inl e ↦ rw e (refused length_error (omega arith))
                          | inr ((xy, used), e) ↦
                              elim (Option-cases (read_xy (drop (12 + used) body))) [
                                | inl e' ↦ rw (e, e') (refused length_error (omega arith))
                                | inr ((rs, used'), e') ↦
                                    rw (e, e')
                                      (verify_message-IsResponse body xy rs (12 + used + used'))
                              ]
                        ]

  shared_with-IsResponse :
      (k : Option p.SecretKey) (q : Option p.PublicKey) → IsResponse (shared_with p k q)
  unfolding shared_with
  shared_with-IsResponse none q = refused invalid_parameter (omega arith)
  shared_with-IsResponse (some k) none = refused invalid_parameter (omega arith)
  shared_with-IsResponse (some k) (some q) =
      if_intro IsResponse (not (length (p.diffie_hellman k q) == 32))
        (λ _. refused unexpected_error (omega arith))
        (λ _. answered _ (omega (arith, sizes.length-diffie_hellman k q)))

  pub ecdh-IsResponse : (d : Device) (body : List ℕ) → IsResponse (ecdh p d body)
  unfolding ecdh
  ecdh-IsResponse d body =
      if_intro IsResponse (ltb (length body) 70) (λ _. refused length_error (omega arith))
        λ _.
          if_intro IsResponse (not (get_or body 1 0 == 0x04))
            (λ _. refused invalid_parameter (omega arith))
            λ _.
              if_intro IsResponse (not (word_at body 2 == 32))
                (λ _. refused invalid_parameter (omega arith))
                λ _.
                  if_intro IsResponse (not (word_at body 36 == 32))
                    (λ _. refused invalid_parameter (omega arith))
                    λ _. elim (Option-cases (lookup (get_or body 0 0) d.ecc_slots)) [
                      | inl e ↦ rw e (refused invalid_parameter (omega arith))
                      | inr (entry, e) ↦ rw e (
                          if_intro IsResponse (not (same_curve entry.curve nist_p256))
                            (λ _. refused invalid_parameter (omega arith))
                            (λ _.
                              if_intro IsResponse (not (length entry.private_key == 32))
                                (λ _. refused invalid_parameter (omega arith))
                                (λ _. shared_with-IsResponse _ _)))
                    ]
