-- ===== src/Atecc/Tests.antt =====
-- The ATECC608A theorems at concrete inputs, and runs of the source's own test vectors.
use mathlib.Core.List.{append_assoc, append-nil}
use simulators.Common.{
  ℕ, ◌+◌, ◌*◌, set, ◌≡◌, ◌≢◌, ◌↔◌, refl, true, none, some, List, [], ◌∷◌, ◌++◌, arith, length,
  replicate, All,
}
use simulators.Common.Bytes.{IsBytes}
use simulators.Common.Results.{ok}
use simulators.Atecc.Crc.{crc16, crc16_le}
use simulators.Atecc.Frame.{Command, parse, build_response}
use simulators.Atecc.Frame.Packets.{IsCommand, make_cmd, parse_iff}
use simulators.Atecc.Frame.Responses.{IsResponse}
use simulators.Atecc.Device.{Device, default_device, config_locked, data_locked, slot_locked}
use simulators.Atecc.Device.Invariant.{IsDevice, Evolves}
use simulators.Atecc.Session.{Sha, Session, new_session}
use simulators.Atecc.Crypto.{P256, Entropy, Sizes, Streaming}
use simulators.Atecc.Dispatch.{route, dispatch}
use simulators.Atecc.Frame.{status_response, reply}
use simulators.Atecc.Handlers.Read.{info, read_data, data_slot, data_offset}
use simulators.Atecc.Handlers.Write.{write_data, overwrite}
use simulators.Atecc.Handlers.Digest.{sha_command}
use simulators.Atecc.Handlers.ReadBack.{read_data-write_data}
use simulators.Atecc.Handlers.Streams.{sha_cmd, concat, updates, sha_multi_step}
use simulators.Atecc.Dispatch.Safety.{dispatch_total}
use simulators.Atecc.Server.{Env, Ending, panicked, Conn, handle_connection}
use simulators.Atecc.Server.Progress.{Locked, handle_connection_total, handle_connection-Locked}
use simulators.Atecc.Server.Refinement.{
  Action, encode_all, perform_all, handle_connection-encode_all,
}

-- Stand-ins of the right sizes: a hash that gives the length of the message, and keys without
-- mathematics.
abbrev toy_sha : Sha
toy_sha = record {
  Hasher = List ℕ;
  new = [];
  update = λ h m. h ++ m;
  finalize = λ h. replicate 32 (length h);
  digest = λ m. replicate 32 (length m);
}

abbrev toy_p256 : P256
toy_p256 = record {
  SigningKey = Unit {0};
  signing_key = λ s. some tt;
  scalar = λ k. replicate 32 7;
  encoded_point = λ k. replicate 65 4;
  sign_prehash = λ k m. some (replicate 64 9);
  Signature = List ℕ;
  signature = λ s. some s;
  VerifyingKey = List ℕ;
  verifying_key = λ s. some s;
  verify_prehash = λ k m s. true;
  SecretKey = List ℕ;
  secret_key = λ s. some s;
  PublicKey = List ℕ;
  public_key = λ s. some s;
  diffie_hellman = λ s q. replicate 32 5;
}

toy_sizes : Sizes toy_sha toy_p256
toy_sizes = record {
  length-finalize = λ h. refl;
  length-digest = λ m. refl;
  length-scalar = λ k. refl;
  length-encoded_point = λ k. refl;
  length-sign_prehash = λ k m sig e. ground (arith);
  length-diffie_hellman = λ s q. refl;
}

toy_streaming : Streaming toy_sha
toy_streaming = record {
  update_twice = λ h a b. append_assoc h a b;
  update_none = λ h. append-nil h;
  digest_lem = λ m. refl;
}

abbrev toy_entropy : Entropy toy_p256
toy_entropy = record { key = tt; bytes = replicate 32 1 }

abbrev toy_env : ℕ → Env toy_p256
toy_env n = record { entropy = toy_entropy; saved = true; written = true }

default_device-IsDevice : IsDevice default_device
unfolding default_device
default_device-IsDevice = record {
  config_sized = refl;
  config_bytes = omega arith;
  otp_sized = refl;
  slots_sized = refl;
  slots_bounded = omega arith;
}

-- The two golden CRCs of the tests in crc.rs and atca.rs.
crc_golden : crc16_le (0x07 ∷ 0x30 ∷ 0x00 ∷ 0x00 ∷ 0x00 ∷ []) ≡ 0x03 ∷ 0x5D ∷ []
unfolding crc16_le crc16
crc_golden = refl

abbrev info_cmd : Command
info_cmd = record { opcode = 0x30; p1 = 0; p2 = 0; payload = [] }

-- The revision of the default device, in a packet with the right CRC.
info_run :
    dispatch toy_sha toy_p256 toy_entropy default_device (new_session toy_sha) (make_cmd info_cmd)
    ≡ some (
      default_device,
      new_session toy_sha,
      0x07 ∷ 0x00 ∷ 0x00 ∷ 0x60 ∷ 0x02 ∷ crc16_le (0x07 ∷ 0x00 ∷ 0x00 ∷ 0x60 ∷ 0x02 ∷ []),
    )
unfolding dispatch route info build_response make_cmd parse default_device crc16_le crc16
info_run = refl

info-IsBytes : IsBytes (make_cmd info_cmd)
unfolding make_cmd crc16_le crc16
info-IsBytes = omega arith

parse_iff_example :
    (parse (make_cmd info_cmd) ≡ ok info_cmd)
    ↔ (IsCommand info_cmd × (make_cmd info_cmd ≡ make_cmd info_cmd))
parse_iff_example = parse_iff (make_cmd info_cmd) info_cmd info-IsBytes

dispatch_total_example :
    (d' : Device) × (s' : Session toy_sha) × (r : List ℕ) × (dispatch toy_sha toy_p256 toy_entropy
        default_device
        (new_session toy_sha)
        (make_cmd info_cmd)
      ≡ some (d', s', r))
    × IsDevice d'
    × Evolves default_device d'
    × IsResponse r
dispatch_total_example =
    dispatch_total toy_sha toy_p256 toy_sizes toy_entropy refl default_device (new_session toy_sha)
      default_device-IsDevice (make_cmd info_cmd) info-IsBytes

-- A wake pulse, a sleep, and an unknown word address.
abbrev odd_input : List ℕ
odd_input = 0x00 ∷ 0x01 ∷ 0x77 ∷ []

handle_connection_total_example :
    (e : Ending) × (c : Conn toy_sha toy_p256) × (handle_connection toy_sha toy_p256 toy_env
        default_device odd_input
      ≡ some (e, c))
    × (e ≢ panicked)
    × IsDevice c.device
    × All IsResponse c.sent
handle_connection_total_example =
    handle_connection_total toy_sha toy_p256 toy_sizes toy_env (λ n. refl) default_device
      default_device-IsDevice odd_input (omega arith)

-- A device of zeros: both zones and every slot are locked.
abbrev locked_device : Device
locked_device = record {
  config = replicate 128 0;
  otp = replicate 64 0;
  slots = replicate 16 (record { bytes = [] });
}

locked_device-IsDevice : IsDevice locked_device
locked_device-IsDevice = record {
  config_sized = refl;
  config_bytes = omega arith;
  otp_sized = refl;
  slots_sized = refl;
  slots_bounded = omega arith;
}

locked_device_locks :
    (config_locked locked_device ≡ true)
    × (data_locked locked_device ≡ true)
    × (slot_locked locked_device 3 ≡ true)
unfolding config_locked data_locked slot_locked
locked_device_locks = (refl, refl, refl)

handle_connection-Locked_example :
    (e : Ending) × (c : Conn toy_sha toy_p256) × (handle_connection toy_sha toy_p256 toy_env
        locked_device odd_input
      ≡ some (e, c))
    × Locked 3 locked_device c.device
handle_connection-Locked_example =
    handle_connection-Locked toy_sha toy_p256 toy_sizes toy_env (λ n. refl) locked_device
      locked_device-IsDevice odd_input (omega arith) 3 (omega arith) locked_device_locks.0
      locked_device_locks.1 locked_device_locks.2

abbrev acts : List Action
acts = Action.wake ∷ Action.command info_cmd ∷ Action.sleep ∷ []

handle_connection-encode_all_example :
    handle_connection toy_sha toy_p256 toy_env default_device (encode_all acts)
    ≡ some (
        perform_all toy_sha toy_p256 toy_env acts (record {
          input = encode_all acts;
          device = default_device;
          session = new_session toy_sha;
          served = 0;
          sent = [];
        }))
handle_connection-encode_all_example =
    handle_connection-encode_all toy_sha toy_p256 toy_env default_device acts (omega arith)

abbrev four : List ℕ
four = 1 ∷ 2 ∷ 3 ∷ 4 ∷ []

-- Slot 9, word 2, of the default device.
read_data-write_data_example :
    read_data
      (record default_device {
        slots = set default_device.slots 9 (record { bytes = replicate 8 0 ++ four });
      })
      (9 * 256 + 2)
      4
    ≡ build_response four
unfolding write_data default_device data_locked slot_locked data_slot data_offset overwrite
read_data-write_data_example =
    read_data-write_data default_device _ (9 * 256 + 2) four (omega arith) refl

abbrev gen_cmd : Command
gen_cmd = record { opcode = 0x40; p1 = 0x04; p2 = 2; payload = [] }

abbrev ask_cmd : Command
ask_cmd = record { opcode = 0x40; p1 = 0x00; p2 = 2; payload = [] }

abbrev with_key : Device
with_key = record default_device {
  slots = set default_device.slots 2 (record { bytes = replicate 32 7 });
}

abbrev toy_public : List ℕ
toy_public = 67 ∷ replicate 64 4

sha_multi_step_example :
    sha_command toy_sha
      (updates toy_sha
        (record (new_session toy_sha) { hasher = some [] })
        ((1 ∷ []) ∷ (2 ∷ 3 ∷ []) ∷ []))
      (sha_cmd 0x02 (4 ∷ []))
    ≡ reply (record (new_session toy_sha) { hasher = none }) (build_response (replicate 32 4))
unfolding sha_command concat status_response
sha_multi_step_example =
    sha_multi_step toy_sha toy_streaming (new_session toy_sha) ((1 ∷ []) ∷ (2 ∷ 3 ∷ []) ∷ [])
      (4 ∷ [])
