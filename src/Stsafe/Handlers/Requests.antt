-- ===== src/Stsafe/Handlers/Requests.antt =====
-- The requests of a host that uses a key, and what each handler makes of them.
use simulators.Common.{
  ℕ, ◌≡◌, refl, sym, ap, ◌∙◌, some, List, ◌∷◌, ◌++◌, arith, length, get_or, take, drop,
  length-append, take-append, drop-append_right, take_whole, get_or-append_right, le→ltb, eq→==,
}
use simulators.Common.Maps.{lookup, insert, lookup-insert}
use simulators.Common.Slices.{slice}
use simulators.Stsafe.Crypto.{P256, Entropy, Sizes, Codec}
use simulators.Stsafe.Frame.{build_response}
use simulators.Stsafe.Store.{Device, same_curve, nist_p256}
use simulators.Stsafe.Handlers.{
  ok_status, nist_p256_curve_id, is_nist_p256, pair_body, keypair, sign_with, sign, verify_with,
  verify_message, verify, shared_with, ecdh,
}
use simulators.Stsafe.Handlers.Safety.{length-pair_body}
use simulators.Stsafe.Handlers.Pairs.{first_half, second_half, read_xy-pair_body, read_rs-pair_body}

-- The bodies that a host sends.
abbrev pub keypair_request : ℕ → ℕ → List ℕ
keypair_request attribute_tag slot = attribute_tag ∷ slot ∷ 0 ∷ 0 ∷ 0 ∷ 0 ∷ nist_p256_curve_id

abbrev pub sign_request : ℕ → List ℕ → List ℕ
sign_request slot digest = slot ∷ 0x00 ∷ 32 ∷ digest

-- The public key and the signature are the bodies of the answers that gave them.
abbrev pub verify_request : List ℕ → List ℕ → List ℕ → List ℕ
verify_request key signature digest =
    0x00 ∷ (nist_p256_curve_id ++ (key ++ (signature ++ (0x00 ∷ 32 ∷ digest))))

abbrev pub ecdh_request : ℕ → List ℕ → List ℕ
ecdh_request slot key = slot ∷ key

module _ (p : P256) (sizes : Sizes p) where
  -- The body of the answer that carries a public key.
  unfoldable pub public_body : p.SecretKey → List ℕ
  unfolding pair_body slice
  public_body k =
      let e = p.to_encoded_point (p.signing_from k) in
      0x04 ∷ pair_body (slice 1 33 e) (slice 33 65 e)

  abbrev pub with_key : Device → ℕ → p.SecretKey → Device
  with_key d slot k = record d {
    ecc_slots = insert slot (record { curve = nist_p256; private_key = p.to_bytes k }) d.ecc_slots;
  }

  -- A key pair that is asked for is generated, stored, and answered.
  pub keypair_done :
      (e : Entropy p) (d : Device) (attribute_tag slot : ℕ)
      → keypair p e d (keypair_request attribute_tag slot)
        ≡ (with_key d slot e.key, build_response ok_status (public_body e.key))
  unfolding keypair is_nist_p256 public_body
  keypair_done e d attribute_tag slot =
      let point = p.to_encoded_point (p.signing_from e.key) in
      rw (eq→== (length point) 65 (sizes.length-to_encoded_point (p.signing_from e.key))) refl

  stored :
      (d : Device) (slot : ℕ) (k : p.SecretKey)
      → lookup slot (with_key d slot k).ecc_slots
        ≡ some (record { curve = nist_p256; private_key = p.to_bytes k })
  stored d slot k =
      lookup-insert slot slot (record { curve = nist_p256; private_key = p.to_bytes k }) d.ecc_slots
      ∙ (rw (eq→== slot slot refl) refl)

  module _ (public : p.SecretKey → p.PublicKey) (codec : Codec p public) where
    -- A digest is signed with the stored key.
    pub sign_done :
        (d : Device) (slot : ℕ) (k : p.SecretKey) (digest : List ℕ) (s : p.Signature)
        → length digest ≡ 32
        → p.sign_prehash (p.signing_from k) digest ≡ some s
        → sign p (with_key d slot k) (sign_request slot digest)
          ≡ build_response ok_status (
              pair_body
                (slice 0 32 (p.signature_bytes s))
                (slice 32 (length (p.signature_bytes s)) (p.signature_bytes s)))
    unfolding sign same_curve slice
    sign_done d slot k digest s n e =
        rw
          (
            le→ltb (length (sign_request slot digest)) 3 (omega arith),
            eq→== (length (sign_request slot digest)) 35 (omega arith),
            stored d slot k,
            eq→== (length (p.to_bytes k)) 32 (sizes.length-to_bytes k),
            codec.signing k,
            take_whole 32 digest (omega arith),
            eq→== (length digest) 32 n,
            e,
            sign_with,
            sign,
          )
          refl

    -- The message of a request behind the key and the signature.
    message_done :
        (x y r s digest : List ℕ)
        → length x ≡ 32
        → length y ≡ 32
        → length r ≡ 32
        → length s ≡ 32
        → length digest ≡ 32
        → verify_message p
            (verify_request (0x04 ∷ pair_body x y) (pair_body r s) digest)
            (x ++ y)
            (r ++ s)
            148
          ≡ verify_with p (p.from_encoded_point (p.from_affine_coordinates x y)) (r ++ s) digest
    unfolding verify_message slice
    message_done x y r s digest nx ny nr ns nd =
        let tail = 0x00 ∷ 32 ∷ digest in
        let body = verify_request (0x04 ∷ pair_body x y) (pair_body r s) digest in
        let key = length-pair_body x y in
        let signature = length-pair_body r s in
        let size = length-append (pair_body x y) (pair_body r s ++ tail) in
        let size' = length-append (pair_body r s) tail in
        let high : get_or body 148 0 ≡ 0 =
          get_or-append_right (pair_body x y) (pair_body r s ++ tail) 136 68 0 (omega arith)
          ∙ get_or-append_right (pair_body r s) tail 68 0 0 (omega arith) in
        let low : get_or body 149 0 ≡ 32 =
          get_or-append_right (pair_body x y) (pair_body r s ++ tail) 137 69 0 (omega arith)
          ∙ get_or-append_right (pair_body r s) tail 69 1 0 (omega arith) in
        let message : take 32 (drop 150 body) ≡ digest =
          ap (take 32) (
            drop-append_right 138 70 (pair_body x y) (pair_body r s ++ tail) (omega arith)
            ∙ drop-append_right 70 2 (pair_body r s) tail (omega arith))
          ∙ take_whole 32 digest (omega arith) in
        rw
          (
            high,
            low,
            le→ltb (length body) 150 (omega (arith, key, signature, size, size')),
            le→ltb (length body) 182 (omega (arith, key, signature, size, size')),
            message,
            first_half x y nx,
            second_half x y nx,
            verify_message,
          )
          refl

    -- A request whose parts have their sizes is taken apart into them.
    pub verify_done :
        (x y r s digest : List ℕ)
        → length x ≡ 32
        → length y ≡ 32
        → length r ≡ 32
        → length s ≡ 32
        → length digest ≡ 32
        → verify p (verify_request (0x04 ∷ pair_body x y) (pair_body r s) digest)
          ≡ verify_with p (p.from_encoded_point (p.from_affine_coordinates x y)) (r ++ s) digest
    unfolding verify is_nist_p256
    verify_done x y r s digest nx ny nr ns nd =
        let tail = 0x00 ∷ 32 ∷ digest in
        let body = verify_request (0x04 ∷ pair_body x y) (pair_body r s) digest in
        let behind : drop 68 (pair_body x y ++ (pair_body r s ++ tail)) ≡ pair_body r s ++ tail =
          drop-append_right 68 0 (pair_body x y) (pair_body r s ++ tail)
            (omega (arith, length-pair_body x y)) in
        rw
          (
            le→ltb (length body) 1 (omega arith),
            le→ltb (length body) 11 (omega arith),
            le→ltb (length body) 12 (omega arith),
            read_xy-pair_body x y (pair_body r s ++ tail) nx ny,
            behind,
            read_rs-pair_body r s tail nr ns,
            verify,
          )
          (message_done x y r s digest nx ny nr ns nd)

    -- Behind the tests, the secret of the stored key and the peer's point.
    pub ecdh_done :
        (d : Device) (slot : ℕ) (k : p.SecretKey) (x y : List ℕ)
        → length x ≡ 32
        → length y ≡ 32
        → ecdh p (with_key d slot k) (ecdh_request slot (0x04 ∷ pair_body x y))
          ≡ shared_with p (some k) (p.from_encoded_point (p.from_affine_coordinates x y))
    unfolding ecdh same_curve slice pair_body
    ecdh_done d slot k x y n m =
        let tail = 0x00 ∷ 32 ∷ y in
        let body = ecdh_request slot (0x04 ∷ pair_body x y) in
        let size = length-append x tail in
        let high : get_or body 36 0 ≡ 0 = get_or-append_right x tail 32 0 0 (omega arith) in
        let low : get_or body 37 0 ≡ 32 = get_or-append_right x tail 33 1 0 (omega arith) in
        let left : take 32 (x ++ tail) ≡ x = take-append 32 x tail (sym n) in
        let right : take 32 (drop 34 (x ++ tail)) ≡ y =
          ap (take 32) (drop-append_right 34 2 x tail (omega arith))
          ∙ take_whole 32 y (omega arith) in
        rw
          (
            le→ltb (length body) 70 (omega (arith, size)),
            high,
            low,
            stored d slot k,
            eq→== (length (p.to_bytes k)) 32 (sizes.length-to_bytes k),
            codec.secret k,
            left,
            right,
            ecdh,
          )
          refl
