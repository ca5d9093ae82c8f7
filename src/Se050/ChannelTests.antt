-- ===== src/Se050/ChannelTests.antt =====
-- The theorems on the secure channel and the responder at concrete inputs, with a toy cipher that
-- leaves blocks as they are.
use simulators.Common.{
  ℕ, ◌+◌, ◌≤◌, ◌<◌, ◌≡◌, refl, sym, ap, ◌∙◌, bit_and, Bool, true, false, not, ◌&&◌, Option, none,
  some, List, [], ◌∷◌, ◌++◌, arith, length, take, replicate, length-replicate, length-append,
  length-take, ◌==◌, ◌%◌,
}
use simulators.Se050.Aes.{AesCrate, Documented, Ciphers, AllDocumented}
use simulators.Se050.Aes.Cbc.{size128}
use simulators.Se050.Apdu.{ParsedApdu, ApduResponse, success}
use simulators.Se050.Applet.{v7_2_0, is_v3_1_1}
use simulators.Se050.Responder.{Card, T1Responder, process_apdu}
use simulators.Se050.Responder.Gate.{gated, Gated, process_apdu-Gated}
use simulators.Se050.Responder.Reassembly.{send, in_one, acks, send-in_one}
use simulators.Se050.Scp03.Channel.{
  Pending, Session, Scp03State, active, supported_level, expected, initialize_update, authenticate,
  external_authenticate,
}
use simulators.Se050.Scp03.Crypto.{SessionKeys}
use simulators.Se050.Scp03.Handshake.{
  Authentic, authenticate-Authentic, external_authenticate-host_authenticate,
}
use simulators.Se050.Scp03.Host.{IsKeys, IsPlain, host_authenticate}
use simulators.Se050.Scp03.Keys.{Scp03Config}
use simulators.Se050.Scp03.Tunnel.{exchange_all, answer_all, exchange_all-answer_all}

-- Sixteen bytes of a list, with zeros behind a shorter one.
abbrev toy_mac : List ℕ → List ℕ
toy_mac bytes = take 16 (bytes ++ replicate 16 0)

length-toy_mac : (bytes : List ℕ) → length (toy_mac bytes) ≡ 16
length-toy_mac bytes =
    length-take 16 (bytes ++ replicate 16 0) (omega (arith, length-append bytes (replicate 16 0)))

abbrev toy_crate : AesCrate
toy_crate = record {
  Cipher = Unit {0};
  new_from_slice = λ key. some tt;
  encrypt_block = λ c b. b;
  decrypt_block = λ c b. b;
  cmac = λ key bytes. some (toy_mac bytes);
}

toy_crate-Documented : (n : ℕ) → Documented toy_crate n
toy_crate-Documented n = record {
  new = λ key e. (tt, refl);
  decrypt-encrypt = λ c b e h. refl;
  length-encrypt = λ c b e. e;
  encrypt-IsBytes = λ c b h. h;
  mac = λ key bytes e. (toy_mac bytes, refl, length-toy_mac bytes);
}

abbrev pub toy_ciphers : Ciphers
toy_ciphers = record { aes128 = toy_crate; aes192 = toy_crate; aes256 = toy_crate }

pub toy_ciphers-AllDocumented : AllDocumented toy_ciphers
toy_ciphers-AllDocumented = record {
  law128 = toy_crate-Documented 16;
  law192 = toy_crate-Documented 24;
  law256 = toy_crate-Documented 32;
}

abbrev pub platform_keys : Scp03Config
platform_keys = record {
  kvn = 0x0B;
  enc = replicate 16 1;
  mac = replicate 16 2;
  dek = replicate 16 3;
}

supported_test : supported_level 0x33 ≡ true
unfolding supported_level
supported_test = refl

key_version_test : (is_v3_1_1 v7_2_0 && not (0x0C == 0x00) && not (0x0C == 0x0B)) ≡ false
unfolding is_v3_1_1
key_version_test = refl

external_authenticate-host_authenticate_example :
    (st : Scp03State) × (answer : ApduResponse) × (raw : List ℕ) × (s : Session)
    × (initialize_update toy_ciphers (replicate 8 9) 0x0C (replicate 8 5) v7_2_0 platform_keys
        ≡ (st, answer))
    × (host_authenticate toy_ciphers platform_keys.enc platform_keys.mac
          (is_v3_1_1 v7_2_0)
          (replicate 8 5)
          0x33
          answer.body
        ≡ some (raw, s))
    × (external_authenticate toy_ciphers st raw ≡ (active s, success))
    × IsKeys s.keys
    × (s.security_level ≡ 0x33)
external_authenticate-host_authenticate_example =
    external_authenticate-host_authenticate toy_ciphers toy_ciphers-AllDocumented platform_keys
      v7_2_0 16 16 0x0C 0x33 (replicate 8 5) (replicate 8 9) size128 size128 refl refl refl refl
      supported_test key_version_test

abbrev toy_session : Session
toy_session = record {
  keys = record { s_enc = replicate 16 4; s_mac = replicate 16 5; s_rmac = replicate 16 6 };
  security_level = 0x33;
  mcv = replicate 16 0;
  cmd_counter = 1;
  last_cmd_len = 0;
  legacy = false;
}

toy_session-IsKeys : IsKeys toy_session.keys
toy_session-IsKeys = record {
  n = 16;
  m = 16;
  enc_size = size128;
  mac_size = size128;
  length_enc = refl;
  length_mac = refl;
  length_rmac = refl;
}

-- A write of three bytes.
abbrev write_command : ParsedApdu
write_command = record {
  cla = 0x80;
  ins = 0x01;
  p1 = 0x06;
  p2 = 0x00;
  payload = 9 ∷ 8 ∷ 7 ∷ [];
  le = some 0;
}

write_command-IsPlain : IsPlain write_command
write_command-IsPlain = record {
  is_class = omega arith;
  clear = refl;
  is_payload = (omega arith, (omega arith, (omega arith, tt)));
  is_short = omega arith;
  is_le = λ l e. omega (arith, zero_le l e);
}
  where
    zero_le : (l : ℕ) → some 0 ≡ some l → l ≡ 0
    zero_le l e = cc

-- An applet that counts commands, and answers the count.
abbrev counting_applet : ParsedApdu → ℕ → ℕ × ApduResponse
counting_applet a n = (n + 1, record { body = n % 256 ∷ []; sw = 0x9000 })

exchange_all-answer_all_example :
    exchange_all toy_ciphers counting_applet
      (write_command ∷ write_command ∷ [])
      toy_session
      toy_session
      7
    ≡ some (answer_all counting_applet (write_command ∷ write_command ∷ []) 7)
exchange_all-answer_all_example =
    exchange_all-answer_all toy_ciphers toy_ciphers-AllDocumented counting_applet
      (write_command ∷ write_command ∷ []) toy_session 7 (λ a y. (omega arith, tt))
      toy_session-IsKeys (write_command-IsPlain, (write_command-IsPlain, tt))

-- A handshake that is pending, and the message of a host.
abbrev toy_pending : Pending
toy_pending = record {
  host_challenge = replicate 8 5;
  card_challenge = replicate 8 9;
  keys = toy_session.keys;
  legacy = false;
}

abbrev toy_message : List ℕ
toy_message = 0x84 ∷ 0x82 ∷ 0x33 ∷ 0x00 ∷ 0x10 ∷ replicate 16 0

opened_test : (authenticate toy_ciphers toy_pending toy_message).0 ≡ active toy_session
unfolding authenticate expected simulators.Se050.Scp03.Crypto.cryptogram
    simulators.Se050.Scp03.Crypto.kdf simulators.Se050.Scp03.Crypto.cmac_chain
    simulators.Common.Slices.same_bytes simulators.Common.Slices.slice
opened_test = refl

authenticate-Authentic_example : Authentic toy_ciphers toy_pending toy_message toy_session
authenticate-Authentic_example =
    authenticate-Authentic toy_ciphers toy_pending toy_message toy_session opened_test

abbrev toy_card : Card
toy_card = record {
  Store = ℕ;
  dispatch = λ a n over_channel. counting_applet a n;
  platform_scp_config = λ n version. platform_keys;
  set_platform_scp_config = λ n cfg. n;
  scp_required = λ n. true;
}

abbrev toy_responder : T1Responder
toy_responder = record {
  nad_se2hd = 0xA5;
  iseq_rcv = 0;
  iseq_snd = 0;
  apdu_reassembly = [];
  scp03 = active toy_session;
  selected_ssd = false;
}

gated_test : gated (0x80 ∷ 0x01 ∷ 0x06 ∷ 0x00 ∷ []) ≡ true
unfolding gated
gated_test = refl

process_apdu-Gated_example :
    Gated toy_ciphers toy_card v7_2_0 toy_responder 7 (0x80 ∷ 0x01 ∷ 0x06 ∷ 0x00 ∷ []) (
      process_apdu toy_ciphers toy_card v7_2_0
        (replicate 8 9)
        toy_responder
        7
        (0x80 ∷ 0x01 ∷ 0x06 ∷ 0x00 ∷ []))
process_apdu-Gated_example =
    process_apdu-Gated toy_ciphers toy_card v7_2_0 (replicate 8 9) toy_responder 7
      (0x80 ∷ 0x01 ∷ 0x06 ∷ 0x00 ∷ []) (omega arith) gated_test refl

abbrev toy_crc : List ℕ → ℕ
toy_crc bytes = length bytes % 65536

toy_crc_word : (bytes : List ℕ) → toy_crc bytes < 65536
toy_crc_word bytes = omega arith

send-in_one_example :
    send toy_ciphers toy_card v7_2_0 toy_crc 0x5A 0
      (replicate 8 9)
      toy_responder
      7
      (0x80 ∷ 0x01 ∷ [])
      ((0x06 ∷ 0x00 ∷ []) ∷ [])
    ≡ in_one toy_ciphers toy_card v7_2_0 toy_crc
        (replicate 8 9)
        (acks toy_ciphers toy_card v7_2_0 toy_crc toy_responder ((0x06 ∷ 0x00 ∷ []) ∷ [])).1
        7
        (0x80 ∷ 0x01 ∷ 0x06 ∷ 0x00 ∷ [])
        (acks toy_ciphers toy_card v7_2_0 toy_crc toy_responder ((0x06 ∷ 0x00 ∷ []) ∷ [])).0
send-in_one_example =
    send-in_one toy_ciphers toy_card v7_2_0 toy_crc toy_crc_word 0x5A 0 (replicate 8 9)
      toy_responder 7 (0x80 ∷ 0x01 ∷ []) ((0x06 ∷ 0x00 ∷ []) ∷ []) (omega arith) (omega arith)
      (omega arith, tt)
