-- ===== src/Tropic01/Session/Handshake.antt =====
-- TROPIC01Sim/tropic01-sim/src/session.rs: the handshake, with the host's side as the file's own test
-- plays it.
use simulators.Common.{
  ℕ, ◌≡◌, refl, sym, ap, ◌∙◌, arith, Option, none, some, List, [], ◌∷◌, ◌++◌, length, take, get_or,
  take-append, take_all, drop-append, length-append, replicate, get_or-append_right,
}
use simulators.Common.Maps.{lookup}
use simulators.Common.Results.{ok}
use simulators.Common.Slices.{slice}
use simulators.Tropic01.Store.{Device, PairingState}
use simulators.Tropic01.Session.{
  Crypto, Documented, SessionKeys, Session, handshake, handshake_with, transcript, key_chain,
  aes_gcm_seal_tag, zero_nonce, session_keys, protocol_name, lt_hkdf, sha256_concat,
}

-- What the host knows: its two private keys, the chip's public key and the slot it is paired in.
pub record Host : Type 0 where
  pub shipriv : List ℕ
  pub ehpriv : List ℕ
  pub st_pub : List ℕ
  pub slot : ℕ

unfoldable pub handshake_request : Crypto → Host → List ℕ
handshake_request c host = c.x25519_public host.ehpriv ++ (host.slot ∷ [])

-- The host checks the tag and derives its keys: the transcript and the chain of keys as the test writes
-- them out, each HKDF with its two HMACs. The chip's own definitions have no part in it.
unfoldable pub host_finish : Crypto → Host → List ℕ → Option SessionKeys
host_finish c host response =
    let etpub = take 32 response in
    let tag = slice 32 48 response in
    let h0 = c.sha256 protocol_name in
    let h1 = c.sha256 (h0 ++ c.x25519_public host.shipriv) in
    let h2 = c.sha256 (h1 ++ host.st_pub) in
    let h3 = c.sha256 (h2 ++ c.x25519_public host.ehpriv) in
    let h4 = c.sha256 (h3 ++ (host.slot ∷ [])) in
    let h = c.sha256 (h4 ++ etpub) in
    let ss1 = c.diffie_hellman host.ehpriv etpub in
    let ss2 = c.diffie_hellman host.shipriv etpub in
    let ss3 = c.diffie_hellman host.ehpriv host.st_pub in
    let ck_a = c.hmac (c.hmac protocol_name ss1) (0x01 ∷ []) in
    let ck_b = c.hmac (c.hmac (ck_a ++ (0 ∷ [])) ss2) (0x01 ∷ []) in
    let prk = c.hmac (ck_b ++ (0 ∷ [])) ss3 in
    let ck_c = c.hmac prk (0x01 ∷ []) in
    let host_kauth = c.hmac prk (ck_c ++ (0x02 ∷ [])) in
    let last = c.hmac (ck_c ++ (0 ∷ [])) [] in
    let host_kcmd = c.hmac last (0x01 ∷ []) in
    let host_kres = c.hmac last (host_kcmd ++ (0x02 ∷ [])) in
    elim (c.decrypt host_kauth (replicate 12 0) h tag) [
      | none ↦ none
      | some plaintext ↦ some (record {
        k_cmd = host_kcmd;
        k_res = host_kres;
        nonce_cmd = replicate 12 0;
        nonce_res = replicate 12 0;
        pkey_index = host.slot;
      })
    ]

handshake_request-fields :
    (c : Crypto) (host : Host)
    → Documented c
    → (length (handshake_request c host) ≡ 33)
      × (take 32 (handshake_request c host) ≡ c.x25519_public host.ehpriv)
      × (get_or (handshake_request c host) 32 0 ≡ host.slot)
unfolding handshake_request
handshake_request-fields c host laws =
    let n = laws.key_length host.ehpriv in
    let key = c.x25519_public host.ehpriv in
    (
      omega (arith, length-append key (host.slot ∷ [])),
      take-append 32 key (host.slot ∷ []) (sym n),
      get_or-append_right key (host.slot ∷ []) 32 0 0 (omega arith),
    )

response-fields :
    (c : Crypto) (key nonce aad etpriv : List ℕ)
    → Documented c
    → (take 32 (c.x25519_public etpriv ++ aes_gcm_seal_tag c key nonce aad)
        ≡ c.x25519_public etpriv)
      × (slice 32 48 (c.x25519_public etpriv ++ aes_gcm_seal_tag c key nonce aad)
          ≡ c.encrypt key nonce aad [])
unfolding slice aes_gcm_seal_tag
response-fields c key nonce aad etpriv laws =
    let n = laws.key_length etpriv in
    let t = laws.tag_length key nonce aad [] in
    let public = c.x25519_public etpriv in
    let tag = c.encrypt key nonce aad [] in
    (
      take-append 32 public tag (sym n),
      ap (take 16) (drop-append 32 public tag (sym n)) ∙ take_all 16 tag (omega arith),
    )

-- The chip's keys, as the host computes them.
handshake_with-agreement :
    (c : Crypto) (device : Device) (host : Host) (etpriv : List ℕ)
    → Documented c
    → host.st_pub ≡ device.st_pub
    → device.st_pub ≡ c.x25519_public device.st_priv
    → (response : List ℕ) × (keys : SessionKeys) × (handshake_with c device etpriv
          (c.x25519_public host.ehpriv)
          (c.x25519_public host.shipriv)
          host.slot
        ≡ (ok response, record { keys = some keys }))
      × (host_finish c host response ≡ some keys)
unfolding handshake_with host_finish transcript key_chain lt_hkdf sha256_concat
handshake_with-agreement c device host etpriv laws hs ds =
    let etpub = c.x25519_public etpriv in
    let ehpub = c.x25519_public host.ehpriv in
    let shipub = c.x25519_public host.shipriv in
    let h = transcript c shipub device.st_pub ehpub host.slot etpub in
    let chain =
      key_chain c (c.diffie_hellman etpriv ehpub) (c.diffie_hellman etpriv shipub)
        (c.diffie_hellman device.st_priv ehpub) in
    let (et, tag) = response-fields c chain.0 zero_nonce h etpriv laws in
    let third : c.diffie_hellman host.ehpriv device.st_pub ≡ c.diffie_hellman device.st_priv ehpub =
      ap (c.diffie_hellman host.ehpriv) ds ∙ laws.agreement host.ehpriv device.st_priv in
    (
      etpub ++ aes_gcm_seal_tag c chain.0 zero_nonce h,
      session_keys chain.1 host.slot,
      refl,
      rw
          (
            host_finish,
            et,
            tag,
            hs,
            laws.agreement host.ehpriv etpriv,
            laws.agreement host.shipriv etpriv,
            third,
            laws.opens chain.0 zero_nonce h [],
            et,
            hs,
            laws.agreement host.ehpriv etpriv,
            laws.agreement host.shipriv etpriv,
            third,
          )
          refl,
    )

-- For cryptography as documented, on a device whose public key belongs to its private key: a host
-- whose key was written to its pairing slot, and that knows the public key of the chip, sends a
-- request to which the chip answers OK, whatever the ephemeral keys; the host accepts the tag of
-- the answer, and both sides hold the same two keys, nonces of zero and the same slot.
pub handshake-agreement :
    (c : Crypto) (s : Session) (device : Device) (host : Host) (etpriv : List ℕ)
    → Documented c
    → host.st_pub ≡ device.st_pub
    → device.st_pub ≡ c.x25519_public device.st_priv
    → lookup host.slot device.pairing_slots
      ≡ some (record { public_key = c.x25519_public host.shipriv; state = PairingState.written })
    → (response : List ℕ) × (keys : SessionKeys) × (handshake c s device etpriv
          (handshake_request c host)
        ≡ (ok response, record { keys = some keys }))
      × (host_finish c host response ≡ some keys)
unfolding handshake
handshake-agreement c s device host etpriv laws hs ds paired =
    let (n, key, slot) = handshake_request-fields c host laws in
    let (response, keys, run, finish) = handshake_with-agreement c device host etpriv laws hs ds in
    (response, keys, rw (handshake, n, slot, paired, key, slot) run, finish)
