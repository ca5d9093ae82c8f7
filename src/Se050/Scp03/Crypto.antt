-- ===== src/Se050/Scp03/Crypto.antt =====
-- SE050Sim/se050-sim/src/scp03/crypto.rs: key derivation, cryptograms, the chain of MACs, and the
-- encryption of data fields.
pub mod Sizes
use simulators.Common.{
  ℕ, zero, suc, ◌+◌, ◌*◌, ◌/◌, ◌%◌, bit_or, Bool, Option, none, some, List, [], ◌∷◌, ◌++◌, length,
  take, replicate, ltb, leb, if◌then◌else◌,
}
use simulators.Common.Bytes.{hi, lo}
use simulators.Common.Results.{◌>>=◌}
use simulators.Se050.Aes.{Ciphers, any_aes, encrypt_block, cmac_aes, cbc_process}

abbrev pub ddc_card_cryptogram : ℕ
ddc_card_cryptogram = 0x00

abbrev pub ddc_host_cryptogram : ℕ
ddc_host_cryptogram = 0x01

abbrev pub ddc_s_enc : ℕ
ddc_s_enc = 0x04

abbrev pub ddc_s_mac : ℕ
ddc_s_mac = 0x06

abbrev pub ddc_s_rmac : ℕ
ddc_s_rmac = 0x07

-- `u32::to_be_bytes`.
abbrev pub be_bytes32 : ℕ → List ℕ
be_bytes32 w = w / 16777216 % 256 ∷ w / 65536 % 256 ∷ w / 256 % 256 ∷ w % 256 ∷ []

-- The input of the PRF in one round.
unfoldable pub kdf_block : ℕ → List ℕ → ℕ → ℕ → List ℕ
kdf_block dc context out_bits i =
    replicate 11 0 ++ (dc ∷ 0x00 ∷ hi out_bits ∷ lo out_bits ∷ i ∷ context)

pub record SessionKeys : Type 0 where
  pub s_enc : List ℕ
  pub s_mac : List ℕ
  pub s_rmac : List ℕ

module _ (cs : Ciphers) where
  -- The loop, on fuel. The counter `i` is a `u8`: the addition fails at 255.
  unfoldable pub kdf_loop : ℕ → List ℕ → ℕ → List ℕ → ℕ → ℕ → ℕ → List ℕ → Option (List ℕ)
  unfolding cmac_aes kdf_block
  kdf_loop zero key dc context out_bits need i out = none
  kdf_loop (suc fuel) key dc context out_bits need i out =
      if ltb (length out) need
      then (do
        block ← cmac_aes cs key (kdf_block dc context out_bits i)
        let next = kdf_loop fuel key dc context out_bits need (i + 1) (out ++ block)
        if leb 255 i then none else next)
      else some (take need out)

  -- `kdf`: the counter bounds the rounds, so 256 of them are enough.
  unfoldable pub kdf : List ℕ → ℕ → List ℕ → ℕ → Option (List ℕ)
  unfolding kdf_loop
  kdf key dc context out_bits = kdf_loop 256 key dc context out_bits ((out_bits + 7) / 8) 1 []

  unfoldable pub derive_session_keys : List ℕ → List ℕ → List ℕ → List ℕ → Option SessionKeys
  derive_session_keys enc mac host_ch card_ch =
      let ctx = host_ch ++ card_ch in
      let bits = length enc * 8 % 65536 in
      let mbits = length mac * 8 % 65536 in
      do
        s_enc ← kdf enc ddc_s_enc ctx bits
        s_mac ← kdf mac ddc_s_mac ctx mbits
        s_rmac ← kdf mac ddc_s_rmac ctx mbits
        some (record { s_enc = s_enc; s_mac = s_mac; s_rmac = s_rmac })

  unfoldable pub cryptogram : List ℕ → List ℕ → List ℕ → ℕ → Option (List ℕ)
  cryptogram s_mac host_ch card_ch dc = do
    full ← kdf s_mac dc (host_ch ++ card_ch) 64
    some (take 8 full)

  unfoldable pub cmac_chain : List ℕ → List ℕ → List ℕ → Option (List ℕ)
  unfolding cmac_aes
  cmac_chain key mcv bytes = do full ← cmac_aes cs key (mcv ++ bytes); some (take 16 full)

  unfoldable pub counter_icv : List ℕ → ℕ → Bool → Option (List ℕ)
  unfolding any_aes encrypt_block
  counter_icv s_enc counter response = do
    cipher ← any_aes cs s_enc
    some (
        encrypt_block cs cipher
          ((if response then bit_or 0 0x80 else 0) ∷ (replicate 11 0 ++ be_bytes32 counter)))

  unfoldable pub cbc_crypt : List ℕ → List ℕ → List ℕ → Bool → Option (List ℕ)
  unfolding any_aes cbc_process
  cbc_crypt key icv bytes encrypting = do
    cipher ← any_aes cs key
    some (cbc_process cs (length bytes) cipher icv bytes encrypting).0
