-- ===== src/Atecc/Dispatch.antt =====
-- ATECC608Sim/atecc608-sim/src/dispatch.rs: one packet against the device and the session.
pub mod Safety
use simulators.Common.{ℕ, Option, none, some, List, ◌==◌, if◌then◌else◌}
use simulators.Common.Results.{Result, ok, err}
use simulators.Atecc.Frame.{Command, parse, parse_error, status_response}
use simulators.Atecc.Device.{Device}
use simulators.Atecc.Session.{Sha, Session}
use simulators.Atecc.Crypto.{P256, Entropy}
use simulators.Atecc.Handlers.Read.{info, read_zone}
use simulators.Atecc.Handlers.Write.{write_zone}
use simulators.Atecc.Handlers.Lock.{lock}
use simulators.Atecc.Handlers.Digest.{nonce, sha_command}
use simulators.Atecc.Handlers.Keys.{random, genkey, sign, verify, ecdh}

module _ (sha : Sha) (p : P256) where
  -- The state after a packet, and the response.
  abbrev pub Outcome : Type 0
  Outcome = Option (Device × Session sha × List ℕ)

  -- A handler that changes neither state, the device alone, or the session alone.
  abbrev pub stay : Device → Session sha → Option (List ℕ) → Outcome
  stay d s none = none
  stay d s (some r) = some (d, s, r)

  abbrev pub on_device : Session sha → Option (Device × List ℕ) → Outcome
  on_device s none = none
  on_device s (some (d, r)) = some (d, s, r)

  abbrev pub on_session : Device → Option (Session sha × List ℕ) → Outcome
  on_session d none = none
  on_session d (some (s, r)) = some (d, s, r)

  -- The opcodes are those of `mod opcode`.
  unfoldable pub route : Entropy p → Device → Session sha → Command → Outcome
  route entropy d s cmd =
      if cmd.opcode == 0x30
      then stay d s (info d cmd)
      else (if cmd.opcode == 0x1B
          then stay d s (random sha p entropy d cmd)
          else (if cmd.opcode == 0x02
              then stay d s (read_zone d cmd)
              else (if cmd.opcode == 0x12
                  then on_device s (write_zone d cmd)
                  else (if cmd.opcode == 0x17
                      then on_device s (lock d cmd)
                      else (if cmd.opcode == 0x47
                          then on_session d (sha_command sha s cmd)
                          else (if cmd.opcode == 0x16
                              then on_session d (nonce sha s cmd)
                              else (if cmd.opcode == 0x40
                                  then on_device s (genkey sha p entropy d cmd)
                                  else (if cmd.opcode == 0x41
                                      then stay d s (sign sha p d s cmd)
                                      else (if cmd.opcode == 0x45
                                          then stay d s (verify sha p d s cmd)
                                          else (if cmd.opcode == 0x43
                                              then stay d s (ecdh sha p d cmd)
                                              else stay d s (status_response parse_error)))))))))))

  abbrev pub routed : Entropy p → Device → Session sha → Result Command ℕ → Outcome
  routed entropy d s (ok cmd) = route entropy d s cmd
  routed entropy d s (err sw) = stay d s (status_response sw)

  unfoldable pub dispatch : Entropy p → Device → Session sha → List ℕ → Outcome
  dispatch entropy d s packet = routed entropy d s (parse packet)
