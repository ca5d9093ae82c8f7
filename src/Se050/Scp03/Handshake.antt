-- ===== src/Se050/Scp03/Handshake.antt =====
-- SE050Sim/se050-sim/src/scp03/mod.rs: the handshake of a card with a host.
use simulators.Common.{
  ℕ, ◌≡◌, refl, sym, ap, subst, ◌∙◌, Bool, true, false, not, ◌&&◌, ◌||◌, some, List, ◌∷◌, ◌++◌,
  arith, length, get_or, take, replicate, ltb, ◌==◌, if◌then◌else◌, if_intro, Option-cases, inl,
  inr, length-append, length-take, take-append, drop-append, take_whole, eq→==, le→ltb,
}
use simulators.Common.Slices.{slice, same_bytes, same_bytes_refl, same_bytes→eq}
use simulators.Se050.Aes.{Ciphers, AllDocumented}
use simulators.Se050.Aes.Cbc.{IsKeySize}
use simulators.Se050.Apdu.{ApduResponse, success, success_with_data}
use simulators.Se050.Applet.{AppletVersion, is_v3_1_1}
use simulators.Se050.Scp03.Channel.{
  Pending, Session, Scp03State, pending, active, supported_level, handshake_keys, initialize_update,
  expected, authenticate, external_authenticate,
}
use simulators.Se050.Scp03.Crypto.{ddc_card_cryptogram, ddc_host_cryptogram}
use simulators.Se050.Scp03.Crypto.Sizes.{cmac_chain-some, cryptogram-some, derive_session_keys-some}
use simulators.Se050.Scp03.Host.{IsKeys, host_authenticate}
use simulators.Se050.Scp03.Keys.{Scp03Config, i_param, key_diversification_data}

-- A message that opens a session for a handshake that is pending: its level is supported, and it
-- carries the cryptogram and the C-MAC that the session keys give.
pub record Authentic (cs : Ciphers) (p : Pending) (raw : List ℕ) (s : Session) : Type 0 where
  pub level : supported_level s.security_level ≡ true
  pub tags : expected cs p raw ≡ some (slice 5 13 raw, s.mcv)
  pub mac : take 8 s.mcv ≡ slice 13 21 raw
  pub session : s ≡ record {
    keys = p.keys;
    security_level = get_or raw 2 0;
    mcv = s.mcv;
    cmd_counter = 1;
    last_cmd_len = 0;
    legacy = p.legacy;
  }

-- The parts of EXTERNAL AUTHENTICATE.
module _ (level : ℕ) (host mac : List ℕ) (n : length host ≡ 8) (m : length mac ≡ 8) where
  abbrev message : List ℕ
  message = 0x84 ∷ 0x82 ∷ level ∷ 0x00 ∷ 0x10 ∷ (host ++ mac)

  message_size : length message ≡ 21
  message_size = omega (arith, n, m, length-append host mac)

  signed_part : slice 0 13 message ≡ 0x84 ∷ 0x82 ∷ level ∷ 0x00 ∷ 0x10 ∷ host
  unfolding slice
  signed_part =
      ap (λ (t : List ℕ). 0x84 ∷ 0x82 ∷ level ∷ 0x00 ∷ 0x10 ∷ t) (take-append 8 host mac (sym n))

  cryptogram_part : slice 5 13 message ≡ host
  unfolding slice
  cryptogram_part = take-append 8 host mac (sym n)

  mac_part : slice 13 21 message ≡ mac
  unfolding slice
  mac_part = ap (take 8) (drop-append 8 host mac (sym n)) ∙ take_whole 8 mac (omega (arith, m))

-- The parts of the answer to INITIALIZE UPDATE.
module _ (kvn : ℕ) (card_ch card : List ℕ) (n : length card_ch ≡ 8) (m : length card ≡ 8) where
  abbrev answer_body : List ℕ
  answer_body = key_diversification_data ++ (kvn ∷ 0x03 ∷ i_param ∷ (card_ch ++ card))

  challenge_part : slice 13 21 answer_body ≡ card_ch
  unfolding slice
  challenge_part = take-append 8 card_ch card (sym n)

  card_part : slice 21 29 answer_body ≡ card
  unfolding slice
  card_part =
      ap (take 8) (drop-append 8 card_ch card (sym n)) ∙ take_whole 8 card (omega (arith, m))

both_tags :
    (a b c d : List ℕ) → (not (same_bytes a b) || not (same_bytes c d)) ≡ false → (a ≡ b) × (c ≡ d)
both_tags a b c d e = (same_bytes→eq a b (ground (arith, e)), same_bytes→eq c d (ground (arith, e)))

granted : (b : Bool) → not b ≡ false → b ≡ true
granted b e = ground (arith, e)

module _ (cs : Ciphers) where
  -- Only an authentic message makes a session.
  pub authenticate-Authentic :
      (p : Pending) (raw : List ℕ) (s : Session)
      → (authenticate cs p raw).0 ≡ active s
      → Authentic cs p raw s
  unfolding authenticate
  authenticate-Authentic p raw s =
      let P = (λ (r : Scp03State × ApduResponse). r.0 ≡ active s → Authentic cs p raw s) in
      if_intro P (ltb (length raw) 21 || not (get_or raw 4 0 == 0x10)) (λ _ e. absurd cc)
        (λ _.
          if_intro P (not (supported_level (get_or raw 2 0))) (λ _ e. absurd cc)
            (λ level. elim (Option-cases (expected cs p raw)) [
              | inl g ↦ rw g (λ e. absurd cc)
              | inr ((host, full), g) ↦ rw g (
                  if_intro P
                    (not (same_bytes host (slice 5 13 raw))
                      || not (same_bytes (take 8 full) (slice 13 21 raw)))
                    (λ _ e. absurd cc)
                    (λ tags e.
                      (let (first, second) =
                          both_tags host (slice 5 13 raw) (take 8 full) (slice 13 21 raw) tags in
                        let opened : Session = record {
                          keys = p.keys;
                          security_level = get_or raw 2 0;
                          mcv = full;
                          cmd_counter = 1;
                          last_cmd_len = 0;
                          legacy = p.legacy;
                        } in
                        let same : opened ≡ s = cc in
                        subst (Authentic cs p raw) same (record {
                          level = granted (supported_level (get_or raw 2 0)) level;
                          tags = g ∙ ap (λ (t : List ℕ). some (t, full)) first;
                          mac = second;
                          session = refl;
                        }))))
            ]))

module _ (cs : Ciphers) (laws : AllDocumented cs) where
  -- A host that has the keys, and asks for a key version that the part knows.
  pub external_authenticate-host_authenticate :
      (cfg : Scp03Config) (version : AppletVersion) (n m p1 level : ℕ) (host_ch card_ch : List ℕ)
      → IsKeySize n
      → IsKeySize m
      → length cfg.enc ≡ n
      → length cfg.mac ≡ m
      → length host_ch ≡ 8
      → length card_ch ≡ 8
      → supported_level level ≡ true
      → (is_v3_1_1 version && not (p1 == 0x00) && not (p1 == cfg.kvn)) ≡ false
      → (st : Scp03State) × (answer : ApduResponse) × (raw : List ℕ) × (s : Session)
        × (initialize_update cs card_ch p1 host_ch version cfg ≡ (st, answer))
        × (host_authenticate cs cfg.enc cfg.mac (is_v3_1_1 version) host_ch level answer.body
            ≡ some (raw, s))
        × (external_authenticate cs st raw ≡ (active s, success))
        × IsKeys s.keys
        × (s.security_level ≡ level)
  unfolding initialize_update handshake_keys host_authenticate external_authenticate authenticate
      expected
  external_authenticate-host_authenticate cfg version n m p1 level host_ch card_ch k k' e e' h c
        supported known =
      let (keys, f, size, size', size'') =
        derive_session_keys-some cs laws n m cfg.enc cfg.mac host_ch card_ch k e k' e' in
      let (card, g, card_size) =
        cryptogram-some cs laws m keys.s_mac host_ch card_ch ddc_card_cryptogram k' size' in
      let (host, g', host_size) =
        cryptogram-some cs laws m keys.s_mac host_ch card_ch ddc_host_cryptogram k' size' in
      let signed = 0x84 ∷ 0x82 ∷ level ∷ 0x00 ∷ 0x10 ∷ host in
      let (full, u, full_size) =
        cmac_chain-some cs laws m keys.s_mac (replicate 16 0) signed k' size' in
      let mac_size : length (take 8 full) ≡ 8 = length-take 8 full (omega (arith, full_size)) in
      let kvn = if p1 == 0x00 then cfg.kvn else p1 in
      (
        pending (record {
          host_challenge = host_ch;
          card_challenge = card_ch;
          keys = keys;
          legacy = is_v3_1_1 version;
        }),
        success_with_data (answer_body kvn card_ch card c card_size),
        message level host (take 8 full) host_size mac_size,
        record {
          keys = keys;
          security_level = level;
          mcv = full;
          cmd_counter = 1;
          last_cmd_len = 0;
          legacy = is_v3_1_1 version;
        },
        rw (eq→== (length host_ch) 8 h, f, g, known) refl,
        rw
            (
              challenge_part kvn card_ch card c card_size,
              f,
              g,
              g',
              u,
              card_part kvn card_ch card c card_size,
              same_bytes_refl card,
            )
            refl,
        rw
            (
              le→ltb (length (message level host (take 8 full) host_size mac_size)) 21
                  (omega (arith, message_size level host (take 8 full) host_size mac_size)),
              supported,
              g',
              signed_part level host (take 8 full) host_size mac_size,
              u,
              cryptogram_part level host (take 8 full) host_size mac_size,
              mac_part level host (take 8 full) host_size mac_size,
              same_bytes_refl host,
              same_bytes_refl (take 8 full),
            )
            refl,
        record {
          n = n;
          m = m;
          enc_size = k;
          mac_size = k';
          length_enc = size;
          length_mac = size';
          length_rmac = size'';
        },
        refl,
      )
