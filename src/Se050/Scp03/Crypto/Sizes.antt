-- ===== src/Se050/Scp03/Crypto/Sizes.antt =====
-- SE050Sim/se050-sim/src/scp03/crypto.rs: the sizes of what the primitives give.
use simulators.Common.{
  ℕ, zero, suc, ◌+◌, ◌*◌, ◌/◌, ◌%◌, ◌≤◌, ◌<◌, ◌≡◌, refl, Bool, true, false, some, List, [], ◌∷◌,
  ◌++◌, arith, length, take, length-take, length-append, ltb, leb, if◌then◌else◌, take_whole,
  le→ltb, bit_or, replicate, Bool-cases, if_intro, All-append, inl, inr,
}
use simulators.Common.Bytes.{IsByte, IsBytes}
use simulators.Se050.Aes.{Ciphers, AllDocumented, encrypt_block, cbc_process}
use simulators.Se050.Aes.Cbc.{
  IsKeySize, size128, size192, size256, any_aes-some, cmac_aes-some, encrypt_block-IsBytes,
  cbc_process-cbc_process,
}
use simulators.Se050.Scp03.Crypto.{
  SessionKeys, ddc_s_enc, ddc_s_mac, ddc_s_rmac, be_bytes32, kdf_block, kdf_loop, kdf,
  derive_session_keys, cryptogram, cmac_chain, counter_icv, cbc_crypt,
}

key_size-le : (n : ℕ) → IsKeySize n → (n * 8 ≤ 256)
key_size-le _ size128 = omega arith
key_size-le _ size192 = omega arith
key_size-le _ size256 = omega arith

lt→leb : (a b : ℕ) → b < a → leb a b ≡ false
lt→leb a b h = ground arith

module _ (cs : Ciphers) (laws : AllDocumented cs) where
  pub cmac_chain-some :
      (n : ℕ) (key mcv bytes : List ℕ)
      → IsKeySize n
      → length key ≡ n
      → (m : List ℕ) × (cmac_chain cs key mcv bytes ≡ some m) × (length m ≡ 16)
  unfolding cmac_chain
  cmac_chain-some n key mcv bytes k e =
      let (m, f, l) = cmac_aes-some cs laws n key (mcv ++ bytes) k e in
      (m, rw (f, take_whole 16 m (omega (arith, l))) refl, l)

  -- The loop of the derivation ends with the size that is asked for, in `r` rounds.
  kdf_loop-some :
      (r fuel n : ℕ) (key : List ℕ) (dc : ℕ) (context : List ℕ) (out_bits need i : ℕ) (out : List ℕ)
      → IsKeySize n
      → length key ≡ n
      → need ≤ length out + (r * 16)
      → r < fuel
      → r + i ≤ 255
      → (bytes : List ℕ) × (kdf_loop cs fuel key dc context out_bits need i out ≡ some bytes)
        × (length bytes ≡ need)
  unfolding kdf_loop
  kdf_loop-some zero zero n key dc context out_bits need i out k e room l short =
      absurd (omega arith)
  kdf_loop-some (suc r) zero n key dc context out_bits need i out k e room l short =
      absurd (omega arith)
  kdf_loop-some zero (suc fuel) n key dc context out_bits need i out k e room l short = (
    take need out,
    rw (le→ltb (length out) need (omega arith)) refl,
    length-take need out (omega arith),
  )
  kdf_loop-some (suc r) (suc fuel) n key dc context out_bits need i out k e room l short =
      let (block, f, size) = cmac_aes-some cs laws n key (kdf_block dc context out_bits i) k e in
      let (bytes, g, size') =
        kdf_loop-some r fuel n key dc context out_bits need (i + 1) (out ++ block) k e
          (omega (arith, size, length-append out block)) (omega arith) (omega arith) in
      elim (Bool-cases (ltb (length out) need)) [
        | inl h ↦ (bytes, rw (h, f, lt→leb 255 i (omega arith), g) refl, size')
        | inr h ↦ (take need out, rw h refl, length-take need out (ground (arith, h)))
      ]

  pub kdf-some :
      (n : ℕ) (key : List ℕ) (dc : ℕ) (context : List ℕ) (out_bits : ℕ)
      → IsKeySize n
      → length key ≡ n
      → out_bits ≤ 256
      → (bytes : List ℕ) × (kdf cs key dc context out_bits ≡ some bytes)
        × (length bytes ≡ (out_bits + 7) / 8)
  unfolding kdf
  kdf-some n key dc context out_bits k e small =
      kdf_loop-some 16 256 n key dc context out_bits ((out_bits + 7) / 8) 1 [] k e (omega arith)
        (omega arith) (omega arith)

  pub cryptogram-some :
      (n : ℕ) (s_mac host_ch card_ch : List ℕ) (dc : ℕ)
      → IsKeySize n
      → length s_mac ≡ n
      → (bytes : List ℕ) × (cryptogram cs s_mac host_ch card_ch dc ≡ some bytes)
        × (length bytes ≡ 8)
  unfolding cryptogram
  cryptogram-some n s_mac host_ch card_ch dc k e =
      let (full, f, size) = kdf-some n s_mac dc (host_ch ++ card_ch) 64 k e (omega arith) in
      (take 8 full, rw f refl, length-take 8 full (omega (arith, size)))

  -- The session keys are as wide as the static keys.
  pub derive_session_keys-some :
      (n m : ℕ) (enc mac host_ch card_ch : List ℕ)
      → IsKeySize n
      → length enc ≡ n
      → IsKeySize m
      → length mac ≡ m
      → (keys : SessionKeys) × (derive_session_keys cs enc mac host_ch card_ch ≡ some keys)
        × (length keys.s_enc ≡ n)
        × (length keys.s_mac ≡ m)
        × (length keys.s_rmac ≡ m)
  unfolding derive_session_keys
  derive_session_keys-some n m enc mac host_ch card_ch k e k' e' =
      let small = key_size-le n k in
      let small' = key_size-le m k' in
      let ctx = host_ch ++ card_ch in
      let bits = length enc * 8 % 65536 in
      let mbits = length mac * 8 % 65536 in
      let (s_enc, f, size) = kdf-some n enc ddc_s_enc ctx bits k e (omega arith) in
      let (s_mac, f', size') = kdf-some m mac ddc_s_mac ctx mbits k' e' (omega arith) in
      let (s_rmac, f'', size'') = kdf-some m mac ddc_s_rmac ctx mbits k' e' (omega arith) in
      (
        record { s_enc = s_enc; s_mac = s_mac; s_rmac = s_rmac },
        rw (f, f', f'') refl,
        omega (arith, size),
        omega (arith, size'),
        omega (arith, size''),
      )

  -- The ICV is a block of bytes.
  pub counter_icv-some :
      (n : ℕ) (s_enc : List ℕ) (counter : ℕ) (response : Bool)
      → IsKeySize n
      → length s_enc ≡ n
      → (icv : List ℕ) × (counter_icv cs s_enc counter response ≡ some icv) × IsBytes icv
  unfolding counter_icv
  counter_icv-some n s_enc counter response k e =
      let (c, f) = any_aes-some cs laws n s_enc k e in
      let block =
        (if response then bit_or 0 0x80 else 0) ∷ (replicate 11 0 ++ be_bytes32 counter) in
      let first : (if response then bit_or 0 0x80 else 0) < 256 =
        if_intro (λ x. x < 256) response (λ _. omega arith) (λ _. omega arith) in
      let z : 0 < 256 = omega arith in
      (
        encrypt_block cs c block,
        rw f refl,
        encrypt_block-IsBytes cs laws c block (
          first,
          All-append IsByte (replicate 11 0) (be_bytes32 counter)
              (z, (z, (z, (z, (z, (z, (z, (z, (z, (z, (z, tt)))))))))))
              (omega arith, (omega arith, (omega arith, (omega arith, tt)))),
        ),
      )

  -- What is encrypted in whole blocks is decrypted.
  pub cbc_crypt-cbc_crypt :
      (n k : ℕ) (key icv bytes : List ℕ)
      → IsKeySize n
      → length key ≡ n
      → length bytes ≡ k * 16
      → IsBytes icv
      → IsBytes bytes
      → (out : List ℕ) × (cbc_crypt cs key icv bytes true ≡ some out)
        × (length out ≡ length bytes)
        × (cbc_crypt cs key icv out false ≡ some bytes)
  unfolding cbc_crypt
  cbc_crypt-cbc_crypt n k key icv bytes s e whole bi bb =
      let (c, f) = any_aes-some cs laws n key s e in
      let (size, back) = cbc_process-cbc_process cs laws k c icv bytes whole bi bb in
      ((cbc_process cs (length bytes) c icv bytes true).0, rw f refl, size, rw (f, back) refl)
