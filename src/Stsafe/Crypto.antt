-- ===== src/Stsafe/Crypto.antt =====
-- What the handlers take from the crate p256, and from the generator of random bytes of rand.
use simulators.Common.{ℕ, ◌≡◌, Bool, true, Option, some, List, length}
use simulators.Common.Slices.{slice}

pub record P256 : Type 1 where
  pub SecretKey : Type 0
  pub to_bytes : SecretKey → List ℕ
  pub secret_from_slice : List ℕ → Option SecretKey
  pub SigningKey : Type 0
  pub signing_from : SecretKey → SigningKey
  pub signing_from_slice : List ℕ → Option SigningKey
  pub to_encoded_point : SigningKey → List ℕ
  pub Signature : Type 0
  pub sign_prehash : SigningKey → List ℕ → Option Signature
  pub signature_bytes : Signature → List ℕ
  pub signature_from_slice : List ℕ → Option Signature
  pub EncodedPoint : Type 0
  pub from_affine_coordinates : List ℕ → List ℕ → EncodedPoint
  pub PublicKey : Type 0
  pub from_encoded_point : EncodedPoint → Option PublicKey
  pub VerifyingKey : Type 0
  pub verifying_from : PublicKey → VerifyingKey
  pub verify_prehash : VerifyingKey → List ℕ → Signature → Bool
  pub diffie_hellman : SecretKey → PublicKey → List ℕ

-- What is random in the answer to one command: a key, and as many bytes as are asked for.
pub record Entropy (p : P256) : Type 0 where
  pub key : p.SecretKey
  pub bytes : ℕ → List ℕ

-- The sizes that the crate's types fix.
pub record Sizes (p : P256) : Type 0 where
  pub length-to_encoded_point : (k : p.SigningKey) → length (p.to_encoded_point k) ≡ 65
  pub length-to_bytes : (k : p.SecretKey) → length (p.to_bytes k) ≡ 32
  pub length-signature_bytes : (s : p.Signature) → length (p.signature_bytes s) ≡ 64
  pub length-diffie_hellman :
      (k : p.SecretKey) (q : p.PublicKey) → length (p.diffie_hellman k q) ≡ 32

-- Keys and signatures are read back from their bytes. `public` is the key that belongs to a secret.
pub record Codec (p : P256) (public : p.SecretKey → p.PublicKey) : Type 0 where
  pub secret : (k : p.SecretKey) → p.secret_from_slice (p.to_bytes k) ≡ some k
  pub signing : (k : p.SecretKey) → p.signing_from_slice (p.to_bytes k) ≡ some (p.signing_from k)
  pub signature : (s : p.Signature) → p.signature_from_slice (p.signature_bytes s) ≡ some s
  pub point :
      (k : p.SecretKey)
      → let e = p.to_encoded_point (p.signing_from k) in
        p.from_encoded_point (p.from_affine_coordinates (slice 1 33 e) (slice 33 65 e))
        ≡ some (public k)

-- ECDSA: a signature holds for the key that made it. ECDH: both sides get the same secret.
pub record Scheme (p : P256) (public : p.SecretKey → p.PublicKey) : Type 0 where
  pub verify-sign :
      (k : p.SecretKey) (digest : List ℕ) (s : p.Signature)
      → p.sign_prehash (p.signing_from k) digest ≡ some s
      → p.verify_prehash (p.verifying_from (public k)) digest s ≡ true
  pub agree : (a b : p.SecretKey) → p.diffie_hellman a (public b) ≡ p.diffie_hellman b (public a)
