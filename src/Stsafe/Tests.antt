-- ===== src/Stsafe/Tests.antt =====
-- The STSAFE-A120 theorems at concrete inputs, and the CRC's test vector.
use simulators.Common.{
  ℕ, ◌≡◌, refl, true, some, List, [], ◌∷◌, arith, length, replicate, length-replicate,
}
use simulators.Common.Maps.{lookup}
use simulators.Stsafe.Crc.{crc16_x25}
use simulators.Stsafe.Crypto.{P256, Entropy, Sizes, Codec, Scheme}
use simulators.Stsafe.Frame.{Command, parse_command, is_extended, build_response}
use simulators.Stsafe.Frame.Responses.{IsResponse}
use simulators.Stsafe.Store.{Device, new_session}
use simulators.Stsafe.Handlers.{ok_status, random, keypair, sign, verify, ecdh}
use simulators.Stsafe.Handlers.Safety.{IsDevice}
use simulators.Stsafe.Handlers.Requests.{
  keypair_request, sign_request, verify_request, ecdh_request, with_key,
}
use simulators.Stsafe.Handlers.Keys.{verify-sign-keypair, ecdh-keypair}
use simulators.Stsafe.Dispatch.{dispatch}
use simulators.Stsafe.Dispatch.Safety.{Kept, dispatch-Proper}
use simulators.Stsafe.Server.{Env, Ending, Conn, handle_connection}
use simulators.Stsafe.Server.Progress.{Same, handle_connection-Same}
use simulators.Stsafe.Server.Refinement.{encode_all, perform_all, handle_connection-frames}

-- The ASCII digits 1 to 9.
check_value : crc16_x25 (49 ∷ 50 ∷ 51 ∷ 52 ∷ 53 ∷ 54 ∷ 55 ∷ 56 ∷ 57 ∷ []) ≡ 0x906E
unfolding crc16_x25
check_value = refl

abbrev extended_command : Command
extended_command = record { header = 0x1F; extended = some 0x20; body = 1 ∷ 2 ∷ 3 ∷ [] }

-- A stand-in for the curve of the right sizes, with one key and one signature.
abbrev toy_p256 : P256
toy_p256 = record {
  SecretKey = Unit {0};
  to_bytes = λ _. replicate 32 1;
  secret_from_slice = λ _. some tt;
  SigningKey = Unit {0};
  signing_from = λ _. tt;
  signing_from_slice = λ _. some tt;
  to_encoded_point = λ _. replicate 65 4;
  Signature = Unit {0};
  sign_prehash = λ _ _. some tt;
  signature_bytes = λ _. replicate 64 3;
  signature_from_slice = λ _. some tt;
  EncodedPoint = Unit {0};
  from_affine_coordinates = λ _ _. tt;
  PublicKey = Unit {0};
  from_encoded_point = λ _. some tt;
  VerifyingKey = Unit {0};
  verifying_from = λ _. tt;
  verify_prehash = λ _ _ _. true;
  diffie_hellman = λ _ _. replicate 32 9;
}

abbrev toy_public : toy_p256.SecretKey → toy_p256.PublicKey
toy_public _ = tt

toy-Sizes : Sizes toy_p256
toy-Sizes = record {
  length-to_encoded_point = λ _. refl;
  length-to_bytes = λ _. refl;
  length-signature_bytes = λ _. refl;
  length-diffie_hellman = λ _ _. refl;
}

toy-Codec : Codec toy_p256 toy_public
toy-Codec = record {
  secret = λ _. refl;
  signing = λ _. refl;
  signature = λ _. refl;
  point = λ _. refl;
}

toy-Scheme : Scheme toy_p256 toy_public
toy-Scheme = record { verify-sign = λ _ _ _ _. refl; agree = λ _ _. refl }

abbrev toy_entropy : Entropy toy_p256
toy_entropy = record { key = tt; bytes = λ n. replicate n 5 }

toy_filled : (n : ℕ) → length (toy_entropy.bytes n) ≡ n
toy_filled n = length-replicate n 5

abbrev toy_env : ℕ → Env toy_p256
toy_env _ = record { entropy = toy_entropy; saved = true; written = true }

abbrev device : Device
device = record {
  serial_number = 1 ∷ 2 ∷ 3 ∷ 4 ∷ 5 ∷ 6 ∷ 7 ∷ 8 ∷ [];
  ecc_slots = [];
  data_zones = [];
}

device-IsDevice : IsDevice device
unfolding lookup
device-IsDevice = record { serial_sized = refl; zones_bounded = λ k z e. cc }

-- A request for two random bytes.
abbrev random_frame : List ℕ
random_frame = 0x02 ∷ 0x00 ∷ 0x02 ∷ 0x50 ∷ 0x66 ∷ []

dispatch-Proper_example :
    Kept device (dispatch toy_p256 toy_entropy device (new_session toy_p256) random_frame).0
    × IsResponse (dispatch toy_p256 toy_entropy device (new_session toy_p256) random_frame).2
dispatch-Proper_example =
    dispatch-Proper toy_p256 toy-Sizes toy_entropy toy_filled device (new_session toy_p256)
      device-IsDevice random_frame (omega arith)

verify-sign-keypair_example :
    (key signature : List ℕ) × (keypair toy_p256 toy_entropy device (keypair_request 0 3)
      ≡ (with_key toy_p256 toy-Sizes device 3 tt, build_response ok_status key))
    × (sign toy_p256 (with_key toy_p256 toy-Sizes device 3 tt) (sign_request 3 (replicate 32 7))
        ≡ build_response ok_status signature)
    × (verify toy_p256 (verify_request key signature (replicate 32 7))
        ≡ build_response ok_status (1 ∷ []))
verify-sign-keypair_example =
    verify-sign-keypair toy_p256 toy-Sizes toy_public toy-Codec toy-Scheme toy_entropy device 0 3
      (replicate 32 7) tt refl refl

ecdh-keypair_example :
    (key key' : List ℕ) × (keypair toy_p256 toy_entropy device (keypair_request 0 3)
      ≡ (with_key toy_p256 toy-Sizes device 3 tt, build_response ok_status key))
    × (keypair toy_p256 toy_entropy device (keypair_request 0 4)
        ≡ (with_key toy_p256 toy-Sizes device 4 tt, build_response ok_status key'))
    × (ecdh toy_p256 (with_key toy_p256 toy-Sizes device 3 tt) (ecdh_request 3 key')
        ≡ ecdh toy_p256 (with_key toy_p256 toy-Sizes device 4 tt) (ecdh_request 4 key))
    × (ecdh toy_p256 (with_key toy_p256 toy-Sizes device 3 tt) (ecdh_request 3 key')
        ≡ build_response ok_status (0x00 ∷ 32 ∷ replicate 32 9))
ecdh-keypair_example =
    ecdh-keypair toy_p256 toy-Sizes toy_public toy-Codec toy-Scheme toy_entropy toy_entropy device
      device 0 0 3 4

handle_connection-Same_example :
    (e : Ending) × (c : Conn toy_p256) × (handle_connection toy_p256 toy_env device
        (0x00 ∷ 0x05 ∷ random_frame)
      ≡ some (e, c))
    × IsDevice c.device
    × Same device c.device
handle_connection-Same_example =
    handle_connection-Same toy_p256 toy-Sizes toy_env (λ i. toy_filled) device
      (0x00 ∷ 0x05 ∷ random_frame) (omega arith) device-IsDevice

handle_connection-frames_example :
    handle_connection toy_p256 toy_env device (encode_all (random_frame ∷ random_frame ∷ []))
    ≡ some (
        perform_all toy_p256 toy_env (random_frame ∷ random_frame ∷ []) (record {
          input = encode_all (random_frame ∷ random_frame ∷ []);
          device = device;
          session = new_session toy_p256;
          served = 0;
          sent = [];
        }))
handle_connection-frames_example =
    handle_connection-frames toy_p256 toy_env device (random_frame ∷ random_frame ∷ [])
      (omega arith)

-- The random bytes are answered, so the frame's CRC is the right one.
random_run :
    (dispatch toy_p256 toy_entropy device (new_session toy_p256) random_frame).2
    ≡ build_response ok_status (5 ∷ 5 ∷ [])
unfolding dispatch parse_command crc16_x25 build_response new_session is_extended random
random_run = refl
