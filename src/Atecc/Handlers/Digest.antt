-- ===== src/Atecc/Handlers/Digest.antt =====
-- handlers/nonce.rs and handlers/sha.rs.
use simulators.Common.{
  ℕ, bit_and, Bool, true, false, not, Option, none, some, List, length, ◌==◌, if◌then◌else◌,
}
use simulators.Atecc.Frame.{
  Command, success, parse_error, execution_error, build_response, status_response, reply,
}
use simulators.Atecc.Session.{Sha, Session, load_passthrough, sha_start, sha_update, sha_finish}

module _ (sha : Sha) where
  unfoldable pub nonce : Session sha → Command → Option (Session sha × List ℕ)
  unfolding load_passthrough
  nonce s cmd =
      if not (bit_and cmd.p1 0x07 == 0x03)
      then reply s (status_response parse_error)
      else (if not (length cmd.payload == 32)
          then reply s (status_response parse_error)
          else reply (record s { tempkey = load_passthrough s.tempkey cmd.payload })
              (status_response success))

  unfoldable pub answer_update : Session sha × Bool → Option (Session sha × List ℕ)
  answer_update (s, true) = reply s (status_response success)
  answer_update (s, false) = reply s (status_response execution_error)

  unfoldable pub answer_digest : Session sha × Option (List ℕ) → Option (Session sha × List ℕ)
  answer_digest (s, some digest) = reply s (build_response digest)
  answer_digest (s, none) = reply s (status_response execution_error)

  unfoldable pub sha_command : Session sha → Command → Option (Session sha × List ℕ)
  unfolding answer_update answer_digest sha_start sha_update sha_finish
  sha_command s cmd =
      if cmd.p1 == 0x00
      then reply (sha_start sha s) (status_response success)
      else (if cmd.p1 == 0x01
          then answer_update (sha_update sha s cmd.payload)
          else (if cmd.p1 == 0x02
              then answer_digest (sha_finish sha s cmd.payload)
              else (if cmd.p1 == 0x03
                  then reply s (build_response (sha.digest cmd.payload))
                  else reply s (status_response parse_error))))
