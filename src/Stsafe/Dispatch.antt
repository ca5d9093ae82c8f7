-- ===== src/Stsafe/Dispatch.antt =====
-- STSAFEA120Sim/stsafe-a120-sim/src/dispatch.rs.
pub mod Safety
use simulators.Common.{ℕ, Bool, ◌||◌, List, [], ◌==◌, if◌then◌else◌}
use simulators.Common.Results.{Result, ok, err}
use simulators.Stsafe.Crypto.{P256, Entropy}
use simulators.Stsafe.Frame.{
  Command, FrameError, too_short, bad_crc, overflow, is_extended, parse_command, build_response,
  build_error,
}
use simulators.Stsafe.Store.{Device, Session, reset}
use simulators.Stsafe.Handlers.{
  ok_status, length_error, command_code_not_supported, crc_error, echo, query, read, random,
  keypair, sign, verify, ecdh,
}

unfoldable pub frame_error : FrameError → ℕ
frame_error bad_crc = crc_error
frame_error too_short = length_error
frame_error overflow = length_error

-- The state that a command leaves, and its response.
abbrev pub Outcome : P256 → Type 0
Outcome p = Device × Session p × List ℕ

module _ (p : P256) (e : Entropy p) where
  -- The match on `cmd.header`, for a command that is not extended.
  unfoldable pub route : Device → Session p → ℕ → List ℕ → Outcome p
  unfolding reset
  route d s header body =
      if header == 0x00
      then (d, s, echo body)
      else (if header == 0x02
          then (d, s, random p e body)
          else (if header == 0x05
              then (d, s, read d body)
              else (if header == 0x11
                  then (let (d', r) = keypair p e d body in (d', s, r))
                  else (if header == 0x16
                      then (d, s, sign p d body)
                      else (if header == 0x17
                          then (d, s, verify p body)
                          else (if header == 0x18
                              then (d, s, ecdh p d body)
                              else (if header == 0x14
                                  then (d, s, query d body)
                                  else (if (header == 0x0D) || (header == 0x19) || (header == 0x01)
                                      then (d, reset p s, build_response ok_status [])
                                      else (d, s, build_error command_code_not_supported)))))))))

  unfoldable pub dispatch_command : Device → Session p → Command → Outcome p
  unfolding route
  dispatch_command d s cmd =
      if is_extended cmd
      then (d, s, build_error command_code_not_supported)
      else route d s cmd.header cmd.body

  unfoldable pub dispatch : Device → Session p → List ℕ → Outcome p
  unfolding dispatch_command frame_error
  dispatch d s raw = elim (parse_command raw) [
    | ok cmd ↦ dispatch_command d s cmd
    | err fault ↦ (d, s, build_error (frame_error fault))
  ]
