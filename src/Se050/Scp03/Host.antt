-- ===== src/Se050/Scp03/Host.antt =====
-- The host's side of the channel, as the sources describe the middleware (nxScp03_Com.c): what the
-- simulator must agree with. The host's session has the same record.
use simulators.Common.{
  ℕ, ◌+◌, ◌<◌, ◌≤◌, ◌≡◌, bit_and, bit_or, Bool, true, false, not, ◌&&◌, Option, none, some, List,
  [], ◌∷◌, ◌++◌, length, take, drop, replicate, ◌-◌, ltb, ◌==◌, if◌then◌else◌,
}
use simulators.Common.Bytes.{IsBytes, hi, lo}
use simulators.Common.Results.{◌>>=◌}
use simulators.Common.Slices.{slice, same_bytes}
use simulators.Se050.Aes.{Ciphers}
use simulators.Se050.Aes.Cbc.{IsKeySize}
use simulators.Se050.Apdu.{ParsedApdu, ApduResponse}
use simulators.Se050.Scp03.Channel.{Session, level_cdec, level_rmac, level_renc, sw_no_error}
use simulators.Se050.Scp03.Crypto.{
  SessionKeys, ddc_card_cryptogram, ddc_host_cryptogram, derive_session_keys, cryptogram,
  cmac_chain, counter_icv, cbc_crypt,
}
use simulators.Se050.Scp03.Padding.{pad_m2, unpad_m2}
use simulators.Se050.Scp03.Session.{has_level, resp_counter, advance_counter}

-- The keys of a session have the lengths of AES keys.
pub record IsKeys (k : SessionKeys) : Type 0 where
  pub n : ℕ
  pub m : ℕ
  pub enc_size : IsKeySize n
  pub mac_size : IsKeySize m
  pub length_enc : length k.s_enc ≡ n
  pub length_mac : length k.s_mac ≡ m
  pub length_rmac : length k.s_rmac ≡ m

-- A command that can be wrapped: the secure-messaging bit of its class is clear.
pub record IsPlain (a : ParsedApdu) : Type 0 where
  pub is_class : a.cla < 256
  pub clear : bit_and a.cla 0x04 ≡ 0
  pub is_payload : IsBytes a.payload
  pub is_short : length a.payload ≤ 65000
  pub is_le : (l : ℕ) → a.le ≡ some l → l < 65536

unfoldable pub lc_field : ℕ → List ℕ
lc_field n = if ltb n 256 then n ∷ [] else 0x00 ∷ hi n ∷ lo n ∷ []

unfoldable pub le_bytes : Option ℕ → List ℕ
le_bytes none = []
le_bytes (some l) = if ltb l 256 then l ∷ [] else hi l ∷ lo l ∷ []

module _ (cs : Ciphers) where
  unfoldable pub host_field : Session → List ℕ → Option (List ℕ)
  unfolding has_level
  host_field s bytes =
      if not (length bytes == 0) && has_level s level_cdec
      then (do
        icv ← counter_icv cs s.keys.s_enc s.cmd_counter false
        cbc_crypt cs s.keys.s_enc icv (pad_m2 bytes) true)
      else some bytes

  -- The bytes of a wrapped command, and the session behind it.
  unfoldable pub host_wrap : Session → ParsedApdu → Option (List ℕ × Session)
  unfolding lc_field le_bytes
  host_wrap s a = do
    field ← host_field s a.payload
    let header = bit_or a.cla 0x04 ∷ a.ins ∷ a.p1 ∷ a.p2 ∷ lc_field (length field + 8)
    full ← cmac_chain cs s.keys.s_mac s.mcv (header ++ field)
    some (
      header ++ (field ++ (take 8 full ++ le_bytes a.le)),
      record s { mcv = full; last_cmd_len = length a.payload },
    )

  -- The host reads a response: protected ones are checked and opened, the others are taken as they
  -- are.
  unfoldable pub host_open : Session → List ℕ → Option (List ℕ)
  unfolding has_level resp_counter
  host_open s field =
      if has_level s level_renc && not (length field == 0)
      then (do
        icv ← counter_icv cs s.keys.s_enc (resp_counter s) true
        dec ← cbc_crypt cs s.keys.s_enc icv field false
        unpad_m2 dec)
      else some field

  unfoldable pub host_protected : Session → ApduResponse → Option ApduResponse
  host_protected s resp =
      let field = take (length resp.body - 8) resp.body in
      do
        full ← cmac_chain cs s.keys.s_rmac s.mcv (field ++ (hi resp.sw ∷ lo resp.sw ∷ []))
        bytes ← host_open s field
        if same_bytes (take 8 full) (drop (length resp.body - 8) resp.body)
            then some (record { body = bytes; sw = resp.sw })
            else none

  unfoldable pub host_unwrap : Session → ApduResponse → Option ApduResponse × Session
  unfolding advance_counter has_level
  host_unwrap s resp = (
    if has_level s level_rmac && (resp.sw == sw_no_error) then host_protected s resp else some resp,
    advance_counter s resp.sw,
  )

  -- INITIALIZE UPDATE's answer gives the host the card's challenge and cryptogram. The host checks
  -- the cryptogram, and makes the bytes of EXTERNAL AUTHENTICATE, and its session.
  unfoldable pub host_authenticate :
      List ℕ → List ℕ → Bool → List ℕ → ℕ → List ℕ → Option (List ℕ × Session)
  host_authenticate enc mac legacy host_ch level answer =
      let card_ch = slice 13 21 answer in
      do
        keys ← derive_session_keys cs enc mac host_ch card_ch
        card ← cryptogram cs keys.s_mac host_ch card_ch ddc_card_cryptogram
        host ← cryptogram cs keys.s_mac host_ch card_ch ddc_host_cryptogram
        let authenticated = 0x84 ∷ 0x82 ∷ level ∷ 0x00 ∷ 0x10 ∷ host
        full ← cmac_chain cs keys.s_mac (replicate 16 0) authenticated
        if same_bytes card (slice 21 29 answer)
            then some (
              authenticated ++ take 8 full,
              record {
                keys = keys;
                security_level = level;
                mcv = full;
                cmd_counter = 1;
                last_cmd_len = 0;
                legacy = legacy;
              },
            )
            else none
