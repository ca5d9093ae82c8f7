-- ===== src/Se050/Scp03/Keys/Rotation.antt =====
-- SE050Sim/se050-sim/src/scp03/keys.rs: PUT KEY with the key block of a host.
use simulators.Common.{
  ℕ, suc, ◌≡◌, refl, sym, ap, ◌∙◌, some, List, [], ◌∷◌, ◌++◌, arith, length, get_or, take, drop,
  replicate, length-append, length-take, take-append, drop-append, drop-append_right, take_whole,
  get_or-append_right, eq→==,
}
use simulators.Common.Bytes.{IsBytes}
use simulators.Common.Results.{ok}
use simulators.Common.Slices.{slice, same_bytes_refl}
use simulators.Se050.Aes.{Ciphers, AllDocumented, AnyAes, any_aes, encrypt_block}
use simulators.Se050.Aes.Cbc.{
  IsKeySize, size128, any_aes-some, decrypt-encrypt_block, length-encrypt_block,
}
use simulators.Se050.Scp03.Keys.{Scp03Config, put_key, put_key_loop, put_keys}

-- A key of 16 bytes.
pub record IsKey (key : List ℕ) : Type 0 where
  pub length_key : length key ≡ 16
  pub is_bytes : IsBytes key

module _ (cs : Ciphers) where
  -- What a host sends for one key: the key under the key-encryption key, and the check value.
  abbrev pub key_block : AnyAes cs → List ℕ → AnyAes cs → List ℕ
  key_block dek key cipher =
      0x88
      ∷ 0x11
      ∷ 0x10
      ∷ (encrypt_block cs dek key ++ (0x03 ∷ take 3 (encrypt_block cs cipher (replicate 16 1))))

module _ (cs : Ciphers) (laws : AllDocumented cs) where
  length-check :
      (cipher : AnyAes cs) → length (take 3 (encrypt_block cs cipher (replicate 16 1))) ≡ 3
  length-check cipher =
      length-take 3 (encrypt_block cs cipher (replicate 16 1))
        (omega (arith, length-encrypt_block cs laws cipher (replicate 16 1) refl))

  length-key_block :
      (dek cipher : AnyAes cs) (key : List ℕ)
      → IsKey key
      → length (key_block cs dek key cipher) ≡ 23
  length-key_block dek cipher key is =
      let sealed = encrypt_block cs dek key in
      let check = take 3 (encrypt_block cs cipher (replicate 16 1)) in
      omega (
        arith,
        length-append sealed (0x03 ∷ check),
        length-check cipher,
        length-encrypt_block cs laws dek key is.length_key,
      )

  put_key-key_block :
      (dek cipher : AnyAes cs) (key : List ℕ)
      → IsKey key
      → any_aes cs key ≡ some cipher
      → put_key cs dek (key_block cs dek key cipher)
        ≡ ok (key, take 3 (encrypt_block cs cipher (replicate 16 1)))
  unfolding put_key slice
  put_key-key_block dek cipher key is f =
      let sealed = encrypt_block cs dek key in
      let check = take 3 (encrypt_block cs cipher (replicate 16 1)) in
      let size : length sealed ≡ 16 = length-encrypt_block cs laws dek key is.length_key in
      let front : take 16 (sealed ++ (0x03 ∷ check)) ≡ sealed =
        take-append 16 sealed (0x03 ∷ check) (sym size) in
      let mark : get_or (sealed ++ (0x03 ∷ check)) 16 0 ≡ 0x03 =
        get_or-append_right sealed (0x03 ∷ check) 16 0 0 (omega (arith, size)) in
      let last : take 3 (drop 17 (sealed ++ (0x03 ∷ check))) ≡ check =
        (ap (take 3) (drop-append_right 17 1 sealed (0x03 ∷ check) (omega (arith, size)))
          ∙ take_whole 3 check (omega (arith, length-check cipher))) in
      rw
        (
          mark,
          front,
          decrypt-encrypt_block cs laws dek key is.length_key is.is_bytes,
          f,
          last,
          same_bytes_refl check,
          put_key,
          front,
          decrypt-encrypt_block cs laws dek key is.length_key is.is_bytes,
        )
        refl

  -- One round of the loop.
  round :
      (n : ℕ) (dek cipher : AnyAes cs) (key rest : List ℕ) (keys : List (List ℕ)) (checks : List ℕ)
      → IsKey key
      → any_aes cs key ≡ some cipher
      → put_key_loop cs n dek rest ≡ ok (keys, checks)
      → put_key_loop cs (suc n) dek (key_block cs dek key cipher ++ rest)
        ≡ ok (key ∷ keys, take 3 (encrypt_block cs cipher (replicate 16 1)) ++ checks)
  unfolding put_key_loop
  round n dek cipher key rest keys checks is f g =
      let block = key_block cs dek key cipher in
      let size = length-key_block dek cipher key is in
      rw
        (
          take-append 23 block rest (sym size),
          put_key-key_block dek cipher key is f,
          put_key_loop,
          drop-append 23 block rest (sym size),
          g,
        )
        refl

  -- For AES as documented: three keys of 16 bytes that a host wraps with a key-encryption key of an
  -- AES length, under the current key version, replace the configuration, and the answer carries the
  -- new version and the check values.
  pub put_keys-key_block :
      (current : Scp03Config) (n kvn : ℕ) (enc mac dek : List ℕ)
      → IsKeySize n
      → length current.dek ≡ n
      → IsKey enc
      → IsKey mac
      → IsKey dek
      → (old a b c : AnyAes cs) × (any_aes cs current.dek ≡ some old)
        × (put_keys cs current current.kvn 0x81 (
              kvn
              ∷ (key_block cs old enc a
                  ++ (key_block cs old mac b ++ (key_block cs old dek c ++ []))))
            ≡ ok (
              record { kvn = kvn; enc = enc; mac = mac; dek = dek },
              kvn
                  ∷ (take 3 (encrypt_block cs a (replicate 16 1))
                      ++ (take 3 (encrypt_block cs b (replicate 16 1))
                          ++ (take 3 (encrypt_block cs c (replicate 16 1)) ++ []))),
            ))
        × (any_aes cs enc ≡ some a)
        × (any_aes cs mac ≡ some b)
        × (any_aes cs dek ≡ some c)
  unfolding put_keys put_key_loop
  put_keys-key_block current n kvn enc mac dek k e is_enc is_mac is_dek =
      let (old, f) = any_aes-some cs laws n current.dek k e in
      let (a, fa) = any_aes-some cs laws 16 enc size128 is_enc.length_key in
      let (b, fb) = any_aes-some cs laws 16 mac size128 is_mac.length_key in
      let (c, fc) = any_aes-some cs laws 16 dek size128 is_dek.length_key in
      let third = key_block cs old dek c ++ [] in
      let second = key_block cs old mac b ++ third in
      let first = key_block cs old enc a ++ second in
      let size : length first ≡ 69 = omega (
        arith,
        length-append (key_block cs old enc a) second,
        length-append (key_block cs old mac b) third,
        length-append {A = ℕ} (key_block cs old dek c) [],
        length-key_block old a enc is_enc,
        length-key_block old b mac is_mac,
        length-key_block old c dek is_dek,
      ) in
      let loop =
        round 2 old a enc second _ _ is_enc fa
          (round 1 old b mac third _ _ is_mac fb (round 0 old c dek [] [] [] is_dek fc refl)) in
      (
        old,
        a,
        b,
        c,
        f,
        rw
            (
              eq→== current.kvn current.kvn refl,
              eq→== (length (kvn ∷ first)) 70 (omega (arith, size)),
              f,
              loop,
            )
            refl,
        fa,
        fb,
        fc,
      )
