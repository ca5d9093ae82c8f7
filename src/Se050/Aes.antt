-- ===== src/Se050/Aes.antt =====
-- SE050Sim/se050-sim/src/handlers/aes.rs and mac.rs, as far as the secure channel uses them: the AES
-- cipher of a key's length, CBC mode, and AES-CMAC. The crates aes and cmac are parameters.
pub mod Cbc
use simulators.Common.{
  ℕ, zero, suc, ◌≡◌, bit_xor, Bool, Option, none, some, List, [], ◌∷◌, ◌++◌, length, take, drop,
  All, ◌==◌, if◌then◌else◌,
}
use simulators.Common.Bytes.{IsBytes}
use simulators.Common.Results.{◌>>=◌}

-- The crates' type of one key size: `new_from_slice`, the block operations, and `Cmac` over the
-- whole data.
pub record AesCrate : Type 1 where
  pub Cipher : Type 0
  pub new_from_slice : List ℕ → Option Cipher
  pub encrypt_block : Cipher → List ℕ → List ℕ
  pub decrypt_block : Cipher → List ℕ → List ℕ
  pub cmac : List ℕ → List ℕ → Option (List ℕ)

-- What the crates document of the size with keys of `n` bytes: a key of that length is accepted,
-- blocks of 16 bytes go to blocks of 16 bytes and back, and a CMAC is 16 bytes.
pub record Documented (a : AesCrate) (n : ℕ) : Type 0 where
  pub new : (key : List ℕ) → length key ≡ n → (c : a.Cipher) × (a.new_from_slice key ≡ some c)
  pub decrypt-encrypt :
      (c : a.Cipher) (b : List ℕ)
      → length b ≡ 16
      → IsBytes b
      → a.decrypt_block c (a.encrypt_block c b) ≡ b
  pub length-encrypt :
      (c : a.Cipher) (b : List ℕ) → length b ≡ 16 → length (a.encrypt_block c b) ≡ 16
  pub encrypt-IsBytes : (c : a.Cipher) (b : List ℕ) → IsBytes b → IsBytes (a.encrypt_block c b)
  pub mac :
      (key bytes : List ℕ)
      → length key ≡ n
      → (m : List ℕ) × (a.cmac key bytes ≡ some m) × (length m ≡ 16)

pub record Ciphers : Type 1 where
  pub aes128 : AesCrate
  pub aes192 : AesCrate
  pub aes256 : AesCrate

pub record AllDocumented (cs : Ciphers) : Type 0 where
  pub law128 : Documented cs.aes128 16
  pub law192 : Documented cs.aes192 24
  pub law256 : Documented cs.aes256 32

pub data AnyAes (cs : Ciphers) : Type 0 where
  a128 : cs.aes128.Cipher → AnyAes cs
  a192 : cs.aes192.Cipher → AnyAes cs
  a256 : cs.aes256.Cipher → AnyAes cs

module _ (cs : Ciphers) where
  -- `AnyAes::new`.
  unfoldable pub any_aes : List ℕ → Option (AnyAes cs)
  any_aes key =
      if length key == 16
      then (do c ← cs.aes128.new_from_slice key; some (a128 c))
      else (if length key == 24
          then (do c ← cs.aes192.new_from_slice key; some (a192 c))
          else (if length key == 32
              then (do c ← cs.aes256.new_from_slice key; some (a256 c))
              else none))

  unfoldable pub encrypt_block : AnyAes cs → List ℕ → List ℕ
  encrypt_block (a128 c) b = cs.aes128.encrypt_block c b
  encrypt_block (a192 c) b = cs.aes192.encrypt_block c b
  encrypt_block (a256 c) b = cs.aes256.encrypt_block c b

  unfoldable pub decrypt_block : AnyAes cs → List ℕ → List ℕ
  decrypt_block (a128 c) b = cs.aes128.decrypt_block c b
  decrypt_block (a192 c) b = cs.aes192.decrypt_block c b
  decrypt_block (a256 c) b = cs.aes256.decrypt_block c b

  unfoldable pub cmac_aes : List ℕ → List ℕ → Option (List ℕ)
  cmac_aes key bytes =
      if length key == 16
      then cs.aes128.cmac key bytes
      else (if length key == 24
          then cs.aes192.cmac key bytes
          else (if length key == 32 then cs.aes256.cmac key bytes else none))

-- `block[i] ^= chain[i]` for every i.
unfoldable pub xor_block : List ℕ → List ℕ → List ℕ
xor_block [] chain = []
xor_block (x ∷ xs) [] = x ∷ xs
xor_block (x ∷ xs) (y ∷ ys) = bit_xor x y ∷ xor_block xs ys

module _ (cs : Ciphers) where
  -- `cbc_process` on chunks of 16 bytes, with the chain in `chain`: the output, and the chain behind
  -- it. Each chunk takes a byte at least; callers give whole blocks.
  unfoldable pub cbc_process : ℕ → AnyAes cs → List ℕ → List ℕ → Bool → List ℕ × List ℕ
  unfolding encrypt_block decrypt_block xor_block
  cbc_process fuel cipher chain [] encrypting = ([], chain)
  cbc_process zero cipher chain (b ∷ bytes) encrypting = ([], chain)
  cbc_process (suc fuel) cipher chain (b ∷ bytes) encrypting =
      let chunk = take 16 (b ∷ bytes) in
      let ct = encrypt_block cs cipher (xor_block chunk chain) in
      let pt = xor_block (decrypt_block cs cipher chunk) chain in
      let next = if encrypting then ct else chunk in
      let (out, last) = cbc_process fuel cipher next (drop 16 (b ∷ bytes)) encrypting in
      ((if encrypting then ct else pt) ++ out, last)
