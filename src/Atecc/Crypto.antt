-- ===== src/Atecc/Crypto.antt =====
-- What the handlers take from the crate p256 and from the random generators of the crate rand.
use simulators.Common.{ℕ, ◌≡◌, Bool, Option, some, List, [], ◌++◌, length}
use simulators.Atecc.Session.{Sha}

-- P-256: keys from bytes fail on a scalar or a point that is not valid.
pub record P256 : Type 1 where
  pub SigningKey : Type 0
  pub signing_key : List ℕ → Option SigningKey
  pub scalar : SigningKey → List ℕ
  pub encoded_point : SigningKey → List ℕ
  pub sign_prehash : SigningKey → List ℕ → Option (List ℕ)
  pub Signature : Type 0
  pub signature : List ℕ → Option Signature
  pub VerifyingKey : Type 0
  pub verifying_key : List ℕ → Option VerifyingKey
  pub verify_prehash : VerifyingKey → List ℕ → Signature → Bool
  pub SecretKey : Type 0
  pub secret_key : List ℕ → Option SecretKey
  pub PublicKey : Type 0
  pub public_key : List ℕ → Option PublicKey
  pub diffie_hellman : SecretKey → PublicKey → List ℕ

-- What the random generators give to one command: a signing key, and 32 bytes.
pub record Entropy (p : P256) : Type 0 where
  pub key : p.SigningKey
  pub bytes : List ℕ

-- The sizes that the crates' types fix.
pub record Sizes (sha : Sha) (p : P256) : Type 0 where
  pub length-finalize : (h : sha.Hasher) → length (sha.finalize h) ≡ 32
  pub length-digest : (m : List ℕ) → length (sha.digest m) ≡ 32
  pub length-scalar : (k : p.SigningKey) → length (p.scalar k) ≡ 32
  pub length-encoded_point : (k : p.SigningKey) → length (p.encoded_point k) ≡ 65
  pub length-sign_prehash :
      (k : p.SigningKey) (m sig : List ℕ) → p.sign_prehash k m ≡ some sig → length sig ≡ 64
  pub length-diffie_hellman :
      (s : p.SecretKey) (q : p.PublicKey) → length (p.diffie_hellman s q) ≡ 32

-- SHA-256 is a streaming hash: splitting the message over several updates changes nothing, and
-- absorbing no bytes is no change.
pub record Streaming (sha : Sha) : Type 0 where
  pub update_twice :
      (h : sha.Hasher) (a b : List ℕ) → sha.update (sha.update h a) b ≡ sha.update h (a ++ b)
  pub update_none : (h : sha.Hasher) → sha.update h [] ≡ h
  pub digest_lem : (m : List ℕ) → sha.digest m ≡ sha.finalize (sha.update sha.new m)

-- The bytes of a signing key give the key back.
abbrev pub KeyBytes : P256 → Type 0
KeyBytes p = (k : p.SigningKey) → p.signing_key (p.scalar k) ≡ some k
