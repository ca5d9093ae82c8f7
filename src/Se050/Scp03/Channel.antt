-- ===== src/Se050/Scp03/Channel.antt =====
-- SE050Sim/se050-sim/src/scp03/mod.rs: the states of the channel, the handshake, and the wrapping of
-- commands and responses. The card's challenge is random: it is an argument.
use simulators.Common.{
  ℕ, Bool, true, false, not, ◌&&◌, ◌||◌, Option, none, some, List, ◌∷◌, ◌++◌, length, get_or, take,
  replicate, ltb, ◌==◌, if◌then◌else◌,
}
use simulators.Common.Results.{◌>>=◌}
use simulators.Common.Slices.{slice, same_bytes}
use simulators.Se050.Aes.{Ciphers}
use simulators.Se050.Apdu.{ApduResponse, success, success_with_data, error}
use simulators.Se050.Applet.{AppletVersion, is_v3_1_1}
use simulators.Se050.Scp03.Crypto.{
  SessionKeys, ddc_card_cryptogram, ddc_host_cryptogram, derive_session_keys, cryptogram,
  cmac_chain,
}
use simulators.Se050.Scp03.Keys.{Scp03Config, i_param, key_diversification_data}

abbrev pub level_cdec : ℕ
level_cdec = 0x02

abbrev pub level_rmac : ℕ
level_rmac = 0x10

abbrev pub level_renc : ℕ
level_renc = 0x20

-- `SUPPORTED_LEVELS.contains(&level)`.
unfoldable pub supported_level : ℕ → Bool
supported_level level = (level == 0x01) || (level == 0x03) || (level == 0x11) || (level == 0x33)

abbrev pub sw_no_error : ℕ
sw_no_error = 0x9000

abbrev pub sw_wrong_length : ℕ
sw_wrong_length = 0x6700

abbrev pub sw_conditions_not_satisfied : ℕ
sw_conditions_not_satisfied = 0x6985

abbrev pub sw_security_status : ℕ
sw_security_status = 0x6982

abbrev pub sw_wrong_p1p2 : ℕ
sw_wrong_p1p2 = 0x6A86

abbrev pub sw_ref_data_not_found : ℕ
sw_ref_data_not_found = 0x6A88

pub record Pending : Type 0 where
  pub host_challenge : List ℕ
  pub card_challenge : List ℕ
  pub keys : SessionKeys
  pub legacy : Bool

pub record Session : Type 0 where
  pub keys : SessionKeys
  pub security_level : ℕ
  pub mcv : List ℕ
  pub cmd_counter : ℕ
  pub last_cmd_len : ℕ
  pub legacy : Bool

pub data Scp03State : Type 0 where
  idle : Scp03State
  pending : Pending → Scp03State
  active : Session → Scp03State

unfoldable pub is_active : Scp03State → Bool
is_active idle = false
is_active (pending p) = false
is_active (active s) = true

module _ (cs : Ciphers) where
  -- The session keys with the card's cryptogram, or `none` if either derivation fails.
  unfoldable pub handshake_keys : Scp03Config → List ℕ → List ℕ → Option (SessionKeys × List ℕ)
  handshake_keys cfg host_ch card_ch = do
    keys ← derive_session_keys cs cfg.enc cfg.mac host_ch card_ch
    card_crypto ← cryptogram cs keys.s_mac host_ch card_ch ddc_card_cryptogram
    some (keys, card_crypto)

  -- `initialize_update_with_config`: from any state.
  unfoldable pub initialize_update :
      List ℕ → ℕ → List ℕ → AppletVersion → Scp03Config → Scp03State × ApduResponse
  unfolding success_with_data error is_v3_1_1
  initialize_update card_ch p1 host_challenge version cfg =
      let legacy = is_v3_1_1 version in
      let resp_kvn = if p1 == 0x00 then cfg.kvn else p1 in
      if not (length host_challenge == 8)
      then (idle, error sw_wrong_length)
      else elim (handshake_keys cfg host_challenge card_ch) [
        | none ↦ (idle, error sw_conditions_not_satisfied)
        | some (keys, card_crypto) ↦
            if legacy && not (p1 == 0x00) && not (p1 == cfg.kvn)
            then (idle, error sw_ref_data_not_found)
            else (
              pending (record {
                host_challenge = host_challenge;
                card_challenge = card_ch;
                keys = keys;
                legacy = legacy;
              }),
              success_with_data (
                  key_diversification_data
                  ++ (resp_kvn ∷ 0x03 ∷ i_param ∷ (card_ch ++ card_crypto))),
            )
      ]

  -- What EXTERNAL AUTHENTICATE must carry: the host's cryptogram, and the C-MAC in full.
  unfoldable pub expected : Pending → List ℕ → Option (List ℕ × List ℕ)
  expected p raw = do
    expect_host ← cryptogram cs p.keys.s_mac p.host_challenge p.card_challenge ddc_host_cryptogram
    full ← cmac_chain cs p.keys.s_mac (replicate 16 0) (slice 0 13 raw)
    some (expect_host, full)

  unfoldable pub authenticate : Pending → List ℕ → Scp03State × ApduResponse
  unfolding supported_level success error
  authenticate p raw =
      let level = get_or raw 2 0 in
      if ltb (length raw) 21 || not (get_or raw 4 0 == 0x10)
      then (idle, error sw_wrong_length)
      else (if not (supported_level level)
          then (idle, error sw_wrong_p1p2)
          else elim (expected p raw) [
            | none ↦ (idle, error sw_security_status)
            | some (expect_host, full) ↦
                if not (same_bytes expect_host (slice 5 13 raw))
                  || not (same_bytes (take 8 full) (slice 13 21 raw))
                then (idle, error sw_security_status)
                else (
                  active (record {
                    keys = p.keys;
                    security_level = level;
                    mcv = full;
                    cmd_counter = 1;
                    last_cmd_len = 0;
                    legacy = p.legacy;
                  }),
                  success,
                )
          ])

  -- `external_authenticate`.
  unfoldable pub external_authenticate : Scp03State → List ℕ → Scp03State × ApduResponse
  unfolding authenticate error
  external_authenticate idle raw = (idle, error sw_conditions_not_satisfied)
  external_authenticate (pending p) raw = authenticate p raw
  external_authenticate (active s) raw = (active s, error sw_conditions_not_satisfied)
