-- ===== src/Se050/Aes/Cbc.antt =====
-- SE050Sim/se050-sim/src/handlers/aes.rs: encryption and decryption in CBC mode.
use Prim.Native.Nat.{differ}
use native.Mathlib.Nat.{pow-suc}
use simulators.Common.{
  ℕ, zero, suc, ◌*◌, ◌≤◌, ◌<◌, ◌^◌, ◌/◌, ◌%◌, ◌≡◌, refl, sym, ap, ◌∙◌, bit_xor, true, false, some,
  List, [], ◌∷◌, ◌++◌, arith, length, take, drop, All-take, All-drop, length-take, length-drop,
  length-append, take-append, drop-append, take-append-drop, eq→==, ne→==,
}
use simulators.Common.Bits.{bit_xor-lt, bit_xor_digit}
use simulators.Common.Bytes.{IsByte, IsBytes}
use simulators.Se050.Aes.{
  Ciphers, AllDocumented, AnyAes, a128, a192, a256, any_aes, encrypt_block, decrypt_block, cmac_aes,
  xor_block, cbc_process,
}

-- The lengths of keys.
pub data IsKeySize : ℕ → Type 0 where
  size128 : IsKeySize 16
  size192 : IsKeySize 24
  size256 : IsKeySize 32

pub xor_block-IsBytes : (xs ys : List ℕ) → IsBytes xs → IsBytes ys → IsBytes (xor_block xs ys)
unfolding xor_block
xor_block-IsBytes [] ys h k = tt
xor_block-IsBytes (x ∷ xs) [] h k = h
xor_block-IsBytes (x ∷ xs) (y ∷ ys) h k =
    (bit_xor-lt 8 x y h.0 k.0, xor_block-IsBytes xs ys h.1 k.1)

pub length-xor_block : (xs ys : List ℕ) → length (xor_block xs ys) ≡ length xs
unfolding xor_block
length-xor_block [] ys = refl
length-xor_block (x ∷ xs) [] = refl
length-xor_block (x ∷ xs) (y ∷ ys) = ap suc (length-xor_block xs ys)

differ_twice : (a b : ℕ) → a < 2 → b < 2 → differ (differ a b) b ≡ a
differ_twice zero zero h k = refl
differ_twice zero (suc zero) h k = refl
differ_twice (suc zero) zero h k = refl
differ_twice (suc zero) (suc zero) h k = refl
differ_twice (suc (suc a)) b h k = absurd (omega arith)
differ_twice a (suc (suc b)) h k = absurd (omega arith)

differ-bit : (a b : ℕ) → a < 2 → b < 2 → differ a b < 2
differ-bit zero b h k = k
differ-bit (suc a) zero h k = h
differ-bit (suc a) (suc b) h k = differ-bit a b (omega arith) (omega arith)

xor_twice : (k x y : ℕ) → x < 2 ^ k → y < 2 ^ k → bit_xor (bit_xor x y) y ≡ x
xor_twice zero x y h l =
    let e : x ≡ 0 = omega arith in let e' : y ≡ 0 = omega arith in rw (e, e') refl
xor_twice (suc k) x y h l =
    let z = bit_xor x y in
    let low : differ (x % 2) (y % 2) < 2 = differ-bit (x % 2) (y % 2) (omega arith) (omega arith) in
    let half : z / 2 ≡ bit_xor (x / 2) (y / 2) = omega (arith, bit_xor_digit x y) in
    let bit : z % 2 ≡ differ (x % 2) (y % 2) = omega (arith, bit_xor_digit x y) in
    let rest : bit_xor (z / 2) (y / 2) ≡ x / 2 =
      (ap (λ (t : ℕ). bit_xor t (y / 2)) half
        ∙ xor_twice k (x / 2) (y / 2) (omega (arith, pow-suc 2 k)) (omega (arith, pow-suc 2 k))) in
    let last : differ (z % 2) (y % 2) ≡ x % 2 =
      (ap (λ (t : ℕ). differ t (y % 2)) bit
        ∙ differ_twice (x % 2) (y % 2) (omega arith) (omega arith)) in
    omega (arith, bit_xor_digit z y)

pub xor_block_twice :
    (xs ys : List ℕ) → IsBytes xs → IsBytes ys → xor_block (xor_block xs ys) ys ≡ xs
unfolding xor_block
xor_block_twice [] ys h k = refl
xor_block_twice (x ∷ xs) [] h k = refl
xor_block_twice (x ∷ xs) (y ∷ ys) h k =
    rw (xor_twice 8 x y h.0 k.0, xor_block_twice xs ys h.1 k.1) refl

module _ (cs : Ciphers) (laws : AllDocumented cs) where
  -- A key of a right length has a cipher, and a CMAC of 16 bytes.
  pub any_aes-some :
      (n : ℕ) (key : List ℕ)
      → IsKeySize n
      → length key ≡ n
      → (c : AnyAes cs) × (any_aes cs key ≡ some c)
  unfolding any_aes
  any_aes-some _ key size128 e =
      let (c, f) = laws.law128.new key e in (a128 c, rw (eq→== (length key) 16 e, f) refl)
  any_aes-some _ key size192 e =
      let (c, f) = laws.law192.new key e in
      (a192 c, rw (ne→== (length key) 16 (λ g. omega arith), eq→== (length key) 24 e, f) refl)
  any_aes-some _ key size256 e =
      let (c, f) = laws.law256.new key e in
      (
        a256 c,
        rw
            (
              ne→== (length key) 16 (λ g. omega arith),
              ne→== (length key) 24 (λ g. omega arith),
              eq→== (length key) 32 e,
              f,
            )
            refl,
      )

  pub cmac_aes-some :
      (n : ℕ) (key bytes : List ℕ)
      → IsKeySize n
      → length key ≡ n
      → (m : List ℕ) × (cmac_aes cs key bytes ≡ some m) × (length m ≡ 16)
  unfolding cmac_aes
  cmac_aes-some _ key bytes size128 e =
      let (m, f, l) = laws.law128.mac key bytes e in (m, rw (eq→== (length key) 16 e, f) refl, l)
  cmac_aes-some _ key bytes size192 e =
      let (m, f, l) = laws.law192.mac key bytes e in
      (m, rw (ne→== (length key) 16 (λ g. omega arith), eq→== (length key) 24 e, f) refl, l)
  cmac_aes-some _ key bytes size256 e =
      let (m, f, l) = laws.law256.mac key bytes e in
      (
        m,
        rw
            (
              ne→== (length key) 16 (λ g. omega arith),
              ne→== (length key) 24 (λ g. omega arith),
              eq→== (length key) 32 e,
              f,
            )
            refl,
        l,
      )

  pub decrypt-encrypt_block :
      (c : AnyAes cs) (b : List ℕ)
      → length b ≡ 16
      → IsBytes b
      → decrypt_block cs c (encrypt_block cs c b) ≡ b
  unfolding encrypt_block decrypt_block
  decrypt-encrypt_block (a128 c) b n h = laws.law128.decrypt-encrypt c b n h
  decrypt-encrypt_block (a192 c) b n h = laws.law192.decrypt-encrypt c b n h
  decrypt-encrypt_block (a256 c) b n h = laws.law256.decrypt-encrypt c b n h

  pub length-encrypt_block :
      (c : AnyAes cs) (b : List ℕ) → length b ≡ 16 → length (encrypt_block cs c b) ≡ 16
  unfolding encrypt_block
  length-encrypt_block (a128 c) b n = laws.law128.length-encrypt c b n
  length-encrypt_block (a192 c) b n = laws.law192.length-encrypt c b n
  length-encrypt_block (a256 c) b n = laws.law256.length-encrypt c b n

  pub encrypt_block-IsBytes :
      (c : AnyAes cs) (b : List ℕ) → IsBytes b → IsBytes (encrypt_block cs c b)
  unfolding encrypt_block
  encrypt_block-IsBytes (a128 c) b h = laws.law128.encrypt-IsBytes c b h
  encrypt_block-IsBytes (a192 c) b h = laws.law192.encrypt-IsBytes c b h
  encrypt_block-IsBytes (a256 c) b h = laws.law256.encrypt-IsBytes c b h

  -- One round on input that is left.
  sealed :
      (fuel : ℕ) (c : AnyAes cs) (chain bytes : List ℕ)
      → 1 ≤ length bytes
      → let ct = encrypt_block cs c (xor_block (take 16 bytes) chain) in
        (cbc_process cs (suc fuel) c chain bytes true).0
        ≡ ct ++ (cbc_process cs fuel c ct (drop 16 bytes) true).0
  unfolding cbc_process
  sealed fuel c chain [] h = absurd (omega arith)
  sealed fuel c chain (b ∷ bytes) h = refl

  opened :
      (fuel : ℕ) (c : AnyAes cs) (chain bytes : List ℕ)
      → 1 ≤ length bytes
      → (cbc_process cs (suc fuel) c chain bytes false).0
        ≡ xor_block (decrypt_block cs c (take 16 bytes)) chain
          ++ (cbc_process cs fuel c (take 16 bytes) (drop 16 bytes) false).0
  unfolding cbc_process
  opened fuel c chain [] h = absurd (omega arith)
  opened fuel c chain (b ∷ bytes) h = refl

  -- Decryption, with any fuel that encryption could have, gives the blocks back.
  cbc_back :
      (k fuel fuel' : ℕ) (c : AnyAes cs) (chain bytes : List ℕ)
      → length bytes ≡ k * 16
      → k ≤ fuel
      → k ≤ fuel'
      → IsBytes chain
      → IsBytes bytes
      → let out = (cbc_process cs fuel c chain bytes true).0 in
        (length out ≡ k * 16) × ((cbc_process cs fuel' c chain out false).0 ≡ bytes)
  unfolding cbc_process
  cbc_back zero fuel fuel' c chain [] n h h' bc bb = (refl, refl)
  cbc_back zero fuel fuel' c chain (b ∷ bytes) n h h' bc bb = absurd (omega arith)
  cbc_back (suc k) zero fuel' c chain bytes n h h' bc bb = absurd (omega arith)
  cbc_back (suc k) fuel zero c chain bytes n h h' bc bb = absurd (omega arith)
  cbc_back (suc k) (suc fuel) (suc fuel') c chain bytes n h h' bc bb =
      let chunk = take 16 bytes in
      let size : length chunk ≡ 16 = length-take 16 bytes (omega arith) in
      let xored = xor_block chunk chain in
      let size' : length xored ≡ 16 = length-xor_block chunk chain ∙ size in
      let in_bytes = All-take IsByte 16 bytes bb in
      let in_xored = xor_block-IsBytes chunk chain in_bytes bc in
      let ct = encrypt_block cs c xored in
      let ct_size : length ct ≡ 16 = length-encrypt_block c xored size' in
      let rest = (cbc_process cs fuel c ct (drop 16 bytes) true).0 in
      let (rest_size, rest_back) =
        cbc_back k fuel fuel' c ct (drop 16 bytes) (omega (arith, length-drop 16 bytes))
          (omega arith) (omega arith) (encrypt_block-IsBytes c xored in_xored)
          (All-drop IsByte 16 bytes bb) in
      let whole = sealed fuel c chain bytes (omega arith) in
      let size_whole = length-append ct rest in
      let first : take 16 (ct ++ rest) ≡ ct = take-append 16 ct rest (sym ct_size) in
      let behind : drop 16 (ct ++ rest) ≡ rest = drop-append 16 ct rest (sym ct_size) in
      (
        ap length whole ∙ omega (arith, size_whole),
        ap (λ (t : List ℕ). (cbc_process cs (suc fuel') c chain t false).0) whole
            ∙ opened fuel' c chain (ct ++ rest) (omega (arith, size_whole))
            ∙ (rw
                (
                  first,
                  behind,
                  decrypt-encrypt_block c xored size' in_xored,
                  xor_block_twice chunk chain in_bytes bc,
                  rest_back,
                )
                (take-append-drop 16 bytes)),
      )

  -- The input in whole blocks, with its own length and the output's as fuel.
  pub cbc_process-cbc_process :
      (k : ℕ) (c : AnyAes cs) (chain bytes : List ℕ)
      → length bytes ≡ k * 16
      → IsBytes chain
      → IsBytes bytes
      → let out = (cbc_process cs (length bytes) c chain bytes true).0 in
        (length out ≡ length bytes) × ((cbc_process cs (length out) c chain out false).0 ≡ bytes)
  cbc_process-cbc_process k c chain bytes n bc bb =
      let out = (cbc_process cs (length bytes) c chain bytes true).0 in
      let (size, _) =
        cbc_back k (length bytes) k c chain bytes n (omega arith) (omega arith) bc bb in
      let (_, back) =
        cbc_back k (length bytes) (length out) c chain bytes n (omega arith) (omega (arith, size))
          bc bb in
      (omega (arith, size), back)
