-- ===== src/Stsafe/Handlers/Keys.antt =====
-- STSAFEA120Sim/stsafe-a120-sim/src/handlers: what a host does with a key that the device generated.
use simulators.Common.{ℕ, ◌≡◌, refl, sym, ap, ◌∙◌, some, List, [], ◌∷◌, ◌++◌, arith, length, eq→==}
use simulators.Common.Slices.{slice, length-slice}
use simulators.Stsafe.Crypto.{P256, Entropy, Sizes, Codec, Scheme}
use simulators.Stsafe.Frame.{build_response}
use simulators.Stsafe.Store.{Device}
use simulators.Stsafe.Handlers.{
  ok_status, pair_body, keypair, sign, verify_with, verify, shared_with, ecdh,
}
use simulators.Stsafe.Handlers.Pairs.{halves}
use simulators.Stsafe.Handlers.Requests.{
  keypair_request, sign_request, verify_request, ecdh_request, public_body, with_key, keypair_done,
  sign_done, verify_done, ecdh_done,
}

module _ (p : P256) (sizes : Sizes p) (public : p.SecretKey → p.PublicKey) (codec : Codec p public)
    (scheme : Scheme p public) where
  -- A key that is generated signs a digest of 32 bytes, and the device then accepts the signature for
  -- the public key that it answered: when the scheme signs the digest, verification answers 1.
  pub verify-sign-keypair :
      (e : Entropy p) (d : Device) (attribute_tag slot : ℕ) (digest : List ℕ) (sig : p.Signature)
      → length digest ≡ 32
      → p.sign_prehash (p.signing_from e.key) digest ≡ some sig
      → (key signature : List ℕ) × (keypair p e d (keypair_request attribute_tag slot)
          ≡ (with_key p sizes d slot e.key, build_response ok_status key))
        × (sign p (with_key p sizes d slot e.key) (sign_request slot digest)
            ≡ build_response ok_status signature)
        × (verify p (verify_request key signature digest) ≡ build_response ok_status (1 ∷ []))
  unfolding public_body verify_with
  verify-sign-keypair e d attribute_tag slot digest sig n signs =
      let point = p.to_encoded_point (p.signing_from e.key) in
      let bytes = p.signature_bytes sig in
      let size = sizes.length-to_encoded_point (p.signing_from e.key) in
      let size' = sizes.length-signature_bytes sig in
      let whole : slice 0 32 bytes ++ slice 32 (length bytes) bytes ≡ bytes = halves bytes size' in
      (
        public_body p sizes e.key,
        pair_body (slice 0 32 bytes) (slice 32 (length bytes) bytes),
        keypair_done p sizes e d attribute_tag slot,
        sign_done p sizes public codec d slot e.key digest sig n signs,
        verify_done p sizes public codec (slice 1 33 point) (slice 33 65 point) (slice 0 32 bytes)
              (slice 32 (length bytes) bytes) digest
              (length-slice 1 33 point (omega arith) (omega (arith, size)))
              (length-slice 33 65 point (omega arith) (omega (arith, size)))
              (length-slice 0 32 bytes (omega arith) (omega (arith, size')))
              (length-slice 32 (length bytes) bytes (omega (arith, size')) (omega arith)
                ∙ omega (arith, size'))
              n
            ∙ (rw
                (
                  codec.point e.key,
                  whole,
                  codec.signature sig,
                  scheme.verify-sign e.key digest sig signs,
                  verify_with,
                )
                refl),
      )

  -- The secret of a stored key and of a public key as it was answered.
  shared :
      (d : Device) (slot : ℕ) (mine theirs : p.SecretKey)
      → ecdh p (with_key p sizes d slot mine) (ecdh_request slot (public_body p sizes theirs))
        ≡ build_response ok_status (0x00 ∷ 32 ∷ p.diffie_hellman mine (public theirs))
  unfolding public_body shared_with
  shared d slot mine theirs =
      let point = p.to_encoded_point (p.signing_from theirs) in
      let size = sizes.length-to_encoded_point (p.signing_from theirs) in
      ecdh_done p sizes public codec d slot mine (slice 1 33 point) (slice 33 65 point)
        (length-slice 1 33 point (omega arith) (omega (arith, size)))
        (length-slice 33 65 point (omega arith) (omega (arith, size)))
      ∙ (rw
          (
            codec.point theirs,
            eq→== (length (p.diffie_hellman mine (public theirs))) 32
                (sizes.length-diffie_hellman mine (public theirs)),
            shared_with,
          )
          refl)

  -- Two devices that generate a key each, and get the other's public key as it was answered, answer
  -- the same shared secret.
  pub ecdh-keypair :
      (e e' : Entropy p) (d d' : Device) (tag tag' slot slot' : ℕ)
      → (key key' : List ℕ) × (keypair p e d (keypair_request tag slot)
          ≡ (with_key p sizes d slot e.key, build_response ok_status key))
        × (keypair p e' d' (keypair_request tag' slot')
            ≡ (with_key p sizes d' slot' e'.key, build_response ok_status key'))
        × (ecdh p (with_key p sizes d slot e.key) (ecdh_request slot key')
            ≡ ecdh p (with_key p sizes d' slot' e'.key) (ecdh_request slot' key))
        × (ecdh p (with_key p sizes d slot e.key) (ecdh_request slot key')
            ≡ build_response ok_status (0x00 ∷ 32 ∷ p.diffie_hellman e.key (public e'.key)))
  unfolding public_body shared_with
  ecdh-keypair e e' d d' tag tag' slot slot' =
      let one = shared d slot e.key e'.key in
      let two = shared d' slot' e'.key e.key in
      (
        public_body p sizes e.key,
        public_body p sizes e'.key,
        keypair_done p sizes e d tag slot,
        keypair_done p sizes e' d' tag' slot',
        one
            ∙ ap (λ (raw : List ℕ). build_response ok_status (0x00 ∷ 32 ∷ raw))
                (scheme.agree e.key e'.key)
            ∙ sym two,
        one,
      )
