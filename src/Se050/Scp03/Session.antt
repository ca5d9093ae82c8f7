-- ===== src/Se050/Scp03/Session.antt =====
-- `impl Session` of SE050Sim/se050-sim/src/scp03/mod.rs: commands are unwrapped, responses wrapped.
use simulators.Common.{
  ℕ, ◌+◌, ◌-◌, ◌%◌, bit_and, Bool, true, false, not, ◌&&◌, ◌||◌, Option, none, some, List, [], ◌∷◌,
  ◌++◌, length, get_or, take, drop, ltb, ◌==◌, if◌then◌else◌,
}
use simulators.Common.Bytes.{hi, lo, be16}
use simulators.Common.Results.{Result, ok, err, ◌>>=◌}
use simulators.Common.Slices.{slice, same_bytes}
use simulators.Se050.Aes.{Ciphers}
use simulators.Se050.Apdu.{ParsedApdu, ApduResponse, error}
use simulators.Se050.Scp03.Channel.{
  Session, level_cdec, level_rmac, level_renc, sw_no_error, sw_wrong_length, sw_security_status,
}
use simulators.Se050.Scp03.Crypto.{cmac_chain, counter_icv, cbc_crypt}
use simulators.Se050.Scp03.Padding.{pad_m2, unpad_m2}

-- The expected length of the answer, behind the data field.
unfoldable pub le_field : List ℕ → Option ℕ
le_field [] = none
le_field (b ∷ []) = some b
le_field (h ∷ l ∷ rest) = some (be16 h l)

-- `self.security_level & bit != 0`.
unfoldable pub has_level : Session → ℕ → Bool
has_level s bit = not (bit_and s.security_level bit == 0)

module _ (cs : Ciphers) where
  -- The data field in the clear, or `none` for a failure.
  unfoldable pub plaintext : Session → List ℕ → Option (List ℕ)
  unfolding has_level
  plaintext s payload =
      if not (length payload == 0) && has_level s level_cdec
      then (if not (length payload % 16 == 0) then none else (do
        icv ← counter_icv cs s.keys.s_enc s.cmd_counter false
        dec ← cbc_crypt cs s.keys.s_enc icv payload false
        unpad_m2 dec))
      else some payload

  -- A command whose lengths are right: the header with Lc as sent, the payload, the C-MAC, and Le.
  unfoldable pub verify_command :
      Session → List ℕ → List ℕ → List ℕ → Option ℕ → Session × Result ParsedApdu ℕ
  verify_command s header payload cmac_recv le =
      elim (cmac_chain cs s.keys.s_mac s.mcv (header ++ payload)) [
        | none ↦ (s, err sw_security_status)
        | some full ↦
            if not (same_bytes (take 8 full) cmac_recv)
            then (s, err sw_security_status)
            else elim (plaintext (record s { mcv = full }) payload) [
              | none ↦ (record s { mcv = full }, err sw_security_status)
              | some bytes ↦ (
                record s { mcv = full; last_cmd_len = length bytes },
                ok (record {
                  cla = bit_and (get_or header 0 0) 0xFB;
                  ins = get_or header 1 0;
                  p1 = get_or header 2 0;
                  p2 = get_or header 3 0;
                  payload = bytes;
                  le = le;
                }),
              )
            ]
      ]

  -- A command with its Lc, and where its data field starts.
  unfoldable pub unwrap_data : Session → List ℕ → ℕ → ℕ → Session × Result ParsedApdu ℕ
  unfolding slice
  unwrap_data s raw lc data_start =
      if ltb lc 8 || ltb (length raw) (data_start + lc)
      then (s, err sw_wrong_length)
      else (let body = slice data_start (data_start + lc) raw in
          verify_command s (take data_start raw) (take (lc - 8) body) (drop (lc - 8) body)
            (le_field (drop (data_start + lc) raw)))

  -- `unwrap_command`: the session that it leaves, and the plain command or a status word.
  unfoldable pub unwrap_command : Session → List ℕ → Session × Result ParsedApdu ℕ
  unwrap_command s raw =
      if ltb (length raw) 5
      then (s, err sw_wrong_length)
      else (if not (get_or raw 4 0 == 0x00)
          then unwrap_data s raw (get_or raw 4 0) 5
          else (if ltb (length raw) 7
              then (s, err sw_wrong_length)
              else unwrap_data s raw (be16 (get_or raw 5 0) (get_or raw 6 0)) 7))

-- `advance_counter`. The counter is a `u32`.
unfoldable pub advances : Session → ℕ → Bool
advances s sw =
    if s.legacy
    then (if sw == sw_no_error then ltb 0 s.last_cmd_len else not (s.last_cmd_len == 8))
    else true

unfoldable pub advance_counter : Session → ℕ → Session
unfolding advances
advance_counter s sw =
    if advances s sw then record s { cmd_counter = (s.cmd_counter + 1) % 4294967296 } else s

-- The counter of the response's ICV: `wrapping_sub`.
unfoldable pub resp_counter : Session → ℕ
resp_counter s =
    if s.legacy && (s.last_cmd_len == 0)
    then (s.cmd_counter + 4294967295) % 4294967296
    else s.cmd_counter

module _ (cs : Ciphers) where
  -- The data field of a protected response.
  unfoldable pub sealed_field : Session → List ℕ → Option (List ℕ)
  unfolding has_level resp_counter
  sealed_field s bytes =
      if has_level s level_renc && not (length bytes == 0)
      then (do
        icv ← counter_icv cs s.keys.s_enc (resp_counter s) true
        cbc_crypt cs s.keys.s_enc icv (pad_m2 bytes) true)
      else some bytes

  -- The protected response, with its R-MAC.
  unfoldable pub protected : Session → ApduResponse → Option ApduResponse
  unfolding sealed_field
  protected s resp = do
    field ← sealed_field s resp.body
    full ← cmac_chain cs s.keys.s_rmac s.mcv (field ++ (hi resp.sw ∷ lo resp.sw ∷ []))
    some (record { body = field ++ take 8 full; sw = resp.sw })

  -- `wrap_response`.
  unfoldable pub wrap_response : Session → ApduResponse → Session × ApduResponse
  unfolding protected advance_counter has_level error
  wrap_response s resp =
      if has_level s level_rmac && (resp.sw == sw_no_error)
      then elim (protected s resp) [
        | none ↦ (advance_counter s resp.sw, error sw_security_status)
        | some out ↦ (advance_counter s resp.sw, out)
      ]
      else (advance_counter s resp.sw, resp)
