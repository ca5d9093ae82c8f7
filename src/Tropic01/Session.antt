-- ===== src/Tropic01/Session.antt =====
-- TROPIC01Sim/tropic01-sim/src/session.rs: the handshake and the tunnel of the Secure Channel.
pub mod Nonce
pub mod Handshake
pub mod Tunnel
use simulators.Common.{
  ℕ, ◌+◌, ◌%◌, ◌/◌, ◌≡◌, Option, none, some, Bool, true, false, not, List, [], ◌∷◌, ◌++◌, length,
  get_or, take, drop, replicate, ltb, ◌==◌, if◌then◌else◌,
}
use simulators.Common.Bytes.{hi, lo, le16}
use simulators.Common.Maps.{lookup}
use simulators.Common.Results.{Result, ok, err}
use simulators.Common.Slices.{slice, splice}
use simulators.Tropic01.Store.{Device, PairingState}
use simulators.Tropic01.L3.{u32_at, le32_bytes}

-- The crates sha2, hmac, x25519-dalek and aes-gcm. A ciphertext ends with its tag of 16 bytes.
pub record Crypto : Type 0 where
  pub sha256 : List ℕ → List ℕ
  pub hmac : (key msg : List ℕ) → List ℕ
  pub x25519_public : List ℕ → List ℕ
  pub diffie_hellman : (secret public : List ℕ) → List ℕ
  pub encrypt : (key nonce aad msg : List ℕ) → List ℕ
  pub decrypt : (key nonce aad msg : List ℕ) → Option (List ℕ)

-- What the crates document: both sides compute one secret, what was sealed opens, and the lengths.
pub record Documented (c : Crypto) : Type 0 where
  pub agreement :
      (a b : List ℕ)
      → c.diffie_hellman a (c.x25519_public b) ≡ c.diffie_hellman b (c.x25519_public a)
  pub opens :
      (key nonce aad msg : List ℕ)
      → c.decrypt key nonce aad (c.encrypt key nonce aad msg) ≡ some msg
  pub tag_length :
      (key nonce aad msg : List ℕ) → length (c.encrypt key nonce aad msg) ≡ length msg + 16
  pub key_length : (a : List ℕ) → length (c.x25519_public a) ≡ 32

-- b"Noise_KK1_25519_AESGCM_SHA256\0\0\0".
abbrev pub protocol_name : List ℕ
protocol_name =
    78 ∷ 111 ∷ 105 ∷ 115 ∷ 101 ∷ 95 ∷ 75 ∷ 75 ∷ 49 ∷ 95 ∷ 50 ∷ 53 ∷ 53 ∷ 49 ∷ 57 ∷ 95 ∷ 65 ∷ 69 ∷ 83
    ∷ 71 ∷ 67 ∷ 77 ∷ 95 ∷ 83 ∷ 72 ∷ 65 ∷ 50 ∷ 53 ∷ 54 ∷ 0 ∷ 0 ∷ 0 ∷ []

abbrev pub handshake_req_len : ℕ
handshake_req_len = 33

pub record SessionKeys : Type 0 where
  pub k_cmd : List ℕ
  pub k_res : List ℕ
  pub nonce_cmd : List ℕ
  pub nonce_res : List ℕ
  pub pkey_index : ℕ

pub record Session : Type 0 where
  pub keys : Option SessionKeys

pub data HandshakeError : Type 0 where
  bad_request_len invalid_pairing_slot unauthorized_pairing_slot : HandshakeError

pub data L3WrapError : Type 0 where
  truncated bad_tag nonce_overflow : L3WrapError

abbrev pub u32_max : ℕ
u32_max = 0xffff_ffff

unfoldable pub step_nonce : List ℕ → Result (List ℕ) L3WrapError
step_nonce nonce =
    let counter = u32_at nonce 0 in
    if counter == u32_max
    then err nonce_overflow
    else ok (splice 0 (le32_bytes (counter + 1)) nonce)

abbrev pub closed : Session
closed = record { keys = none }

unfoldable pub is_open : Session → Bool
is_open s = elim s.keys [ none ↦ false | some k ↦ true ]

abbrev pub abort : Session → Session
abort s = closed

-- `unwrap_l3_request` behind the test for the keys.
unfoldable pub unwrap_with : Crypto → SessionKeys → List ℕ → Result (List ℕ) L3WrapError × Session
unwrap_with c keys l2_body =
    let cmd_size = le16 (get_or l2_body 0 0) (get_or l2_body 1 0) in
    let same : Session = record { keys = some keys } in
    if ltb (length l2_body) (2 + 16)
    then (err truncated, same)
    else (if not (length l2_body == 2 + cmd_size + 16)
        then (err truncated, same)
        else elim (c.decrypt keys.k_cmd keys.nonce_cmd [] (drop 2 l2_body)) [
          | none ↦ (err bad_tag, same)
          | some plaintext ↦ elim (step_nonce keys.nonce_cmd) [
            | err e ↦ (err e, same)
            | ok nonce ↦ (ok plaintext, record { keys = some (record keys { nonce_cmd = nonce }) })
          ]
        ])

unfoldable pub unwrap_l3_request : Crypto → Session → List ℕ → Result (List ℕ) L3WrapError × Session
unwrap_l3_request c s l2_body = elim s.keys [
  | none ↦ (err bad_tag, s)
  | some keys ↦ unwrap_with c keys l2_body
]

unfoldable pub wrap_with : Crypto → SessionKeys → List ℕ → Result (List ℕ) L3WrapError × Session
wrap_with c keys plaintext =
    let ct_and_tag = c.encrypt keys.k_res keys.nonce_res [] plaintext in
    let res_size = length plaintext % 65536 in
    elim (step_nonce keys.nonce_res) [
      | err e ↦ (err e, record { keys = some keys })
      | ok nonce ↦ (
        ok (lo res_size ∷ hi res_size ∷ ct_and_tag),
        record { keys = some (record keys { nonce_res = nonce }) },
      )
    ]

unfoldable pub wrap_l3_response : Crypto → Session → List ℕ → Result (List ℕ) L3WrapError × Session
wrap_l3_response c s plaintext = elim s.keys [
  | none ↦ (err bad_tag, s)
  | some keys ↦ wrap_with c keys plaintext
]

unfoldable pub sha256_concat : Crypto → List ℕ → List ℕ → List ℕ
sha256_concat c prev extra = c.sha256 (prev ++ extra)

unfoldable pub lt_hkdf : Crypto → List ℕ → List ℕ → List ℕ × List ℕ
lt_hkdf c salt ikm =
    let tmp = c.hmac salt ikm in
    let out1 = c.hmac tmp (0x01 ∷ []) in (out1, c.hmac tmp (out1 ++ (0x02 ∷ [])))

-- `copy_from_slice` of the 16 bytes that sealing an empty plaintext gives.
unfoldable pub aes_gcm_seal_tag : Crypto → List ℕ → List ℕ → List ℕ → List ℕ
aes_gcm_seal_tag c key iv aad = c.encrypt key iv aad []

-- The hash of the transcript.
unfoldable pub transcript : Crypto → (shipub st_pub ehpub : List ℕ) → ℕ → List ℕ → List ℕ
transcript c shipub st_pub ehpub pkey_index etpub =
    let h0 = c.sha256 protocol_name in
    let h1 = sha256_concat c h0 shipub in
    let h2 = sha256_concat c h1 st_pub in
    let h3 = sha256_concat c h2 ehpub in
    let h4 = sha256_concat c h3 (pkey_index ∷ []) in sha256_concat c h4 etpub

-- The chain of keys: kAUTH, and kCMD with kRES. A salt is an output of 32 bytes and a zero.
unfoldable pub key_chain : Crypto → (ss1 ss2 ss3 : List ℕ) → List ℕ × (List ℕ × List ℕ)
key_chain c ss1 ss2 ss3 =
    let out1_a = (lt_hkdf c protocol_name ss1).0 in
    let out1_b = (lt_hkdf c (out1_a ++ (0 ∷ [])) ss2).0 in
    let third = lt_hkdf c (out1_b ++ (0 ∷ [])) ss3 in (third.1, lt_hkdf c (third.0 ++ (0 ∷ [])) [])

abbrev pub zero_nonce : List ℕ
zero_nonce = replicate 12 0

abbrev pub session_keys : List ℕ × List ℕ → ℕ → SessionKeys
session_keys traffic index = record {
  k_cmd = traffic.0;
  k_res = traffic.1;
  nonce_cmd = zero_nonce;
  nonce_res = zero_nonce;
  pkey_index = index;
}

-- `handshake` with the host's static key. `etpriv` is the 32 bytes of `OsRng`.
unfoldable pub handshake_with :
    Crypto → Device → (etpriv ehpub shipub : List ℕ) → ℕ → Result (List ℕ) HandshakeError × Session
handshake_with c device etpriv ehpub shipub pkey_index =
    let etpub = c.x25519_public etpriv in
    let h = transcript c shipub device.st_pub ehpub pkey_index etpub in
    let ss1 = c.diffie_hellman etpriv ehpub in
    let ss2 = c.diffie_hellman etpriv shipub in
    let ss3 = c.diffie_hellman device.st_priv ehpub in
    let chain = key_chain c ss1 ss2 ss3 in
    let tag = aes_gcm_seal_tag c chain.0 zero_nonce h in
    (ok (etpub ++ tag), record { keys = some (session_keys chain.1 pkey_index) })

unfoldable pub handshake :
    Crypto → Session → Device → (etpriv request : List ℕ) → Result (List ℕ) HandshakeError × Session
handshake c s device etpriv request =
    let ehpub = take 32 request in
    let pkey_index = get_or request 32 0 in
    if not (length request == handshake_req_len)
    then (err bad_request_len, s)
    else elim (lookup pkey_index device.pairing_slots) [
      | none ↦ (err invalid_pairing_slot, s)
      | some slot ↦ elim slot.state [
        | PairingState.invalidated ↦ (err unauthorized_pairing_slot, s)
        | PairingState.written ↦ handshake_with c device etpriv ehpub slot.public_key pkey_index
      ]
    ]
