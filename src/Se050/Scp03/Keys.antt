-- ===== src/Se050/Scp03/Keys.antt =====
-- SE050Sim/se050-sim/src/scp03/keys.rs: the static keys of the platform, and PUT KEY, which replaces
-- them.
pub mod Rotation
use simulators.Common.{
  ℕ, zero, suc, ◌+◌, ◌*◌, not, ◌||◌, none, some, List, [], ◌∷◌, ◌++◌, length, get_or, take, drop,
  replicate, ◌==◌, if◌then◌else◌,
}
use simulators.Common.Results.{Result, ok, err}
use simulators.Common.Slices.{slice, same_bytes}
use simulators.Se050.Aes.{Ciphers, AnyAes, any_aes, encrypt_block, decrypt_block}

abbrev pub default_kvn : ℕ
default_kvn = 0x0B

abbrev pub i_param : ℕ
i_param = 0x00

abbrev pub key_diversification_data : List ℕ
key_diversification_data = 0x90 ∷ 0x03 ∷ 0x20 ∷ 0x19 ∷ 0x07 ∷ 0x38 ∷ 0x24 ∷ 0x20 ∷ 0x25 ∷ 0x02 ∷ []

pub record Scp03Config : Type 0 where
  pub kvn : ℕ
  pub enc : List ℕ
  pub mac : List ℕ
  pub dek : List ℕ

abbrev pub key_block_len : ℕ
key_block_len = 23

module _ (cs : Ciphers) where
  -- One wrapped key: the key, and its check value.
  unfoldable pub put_key : AnyAes cs → List ℕ → Result (List ℕ × List ℕ) ℕ
  put_key cipher block =
      let key = decrypt_block cs cipher (slice 3 19 block) in
      if not (get_or block 0 0 == 0x88)
        || not (get_or block 1 0 == 0x11)
        || not (get_or block 2 0 == 0x10)
        || not (get_or block 19 0 == 0x03)
      then err 0x6A80
      else elim (any_aes cs key) [
        | none ↦ err 0x6A80
        | some key_cipher ↦
            (let check = take 3 (encrypt_block cs key_cipher (replicate 16 1)) in
              if not (same_bytes check (slice 20 23 block)) then err 0x6A80 else ok (key, check))
      ]

  -- The loop over the blocks: the keys, and the check values one after the other.
  unfoldable pub put_key_loop : ℕ → AnyAes cs → List ℕ → Result (List (List ℕ) × List ℕ) ℕ
  put_key_loop zero cipher bytes = ok ([], [])
  put_key_loop (suc n) cipher bytes = elim (put_key cipher (take key_block_len bytes)) [
    | err sw ↦ err sw
    | ok (key, check) ↦ elim (put_key_loop n cipher (drop key_block_len bytes)) [
      | err sw ↦ err sw
      | ok (keys, checks) ↦ ok (key ∷ keys, check ++ checks)
    ]
  ]

  -- `put_keys`: the new configuration, and the body of the answer.
  unfoldable pub put_keys : Scp03Config → ℕ → ℕ → List ℕ → Result (Scp03Config × List ℕ) ℕ
  put_keys current p1 p2 bytes =
      if not (p1 == current.kvn) || not (p2 == 0x81)
      then err 0x6A86
      else (if not (length bytes == 1 + (3 * key_block_len))
          then err 0x6700
          else elim (any_aes cs current.dek) [
            | none ↦ err 0x6985
            | some cipher ↦ elim (put_key_loop 3 cipher (drop 1 bytes)) [
              | err sw ↦ err sw
              | ok (keys, checks) ↦ ok (
                record {
                  kvn = get_or bytes 0 0;
                  enc = get_or keys 0 [];
                  mac = get_or keys 1 [];
                  dek = get_or keys 2 [];
                },
                get_or bytes 0 0 ∷ checks,
              )
            ]
          ])
