-- ===== src/Se050/Scp03/Tunnel.antt =====
-- SE050Sim/se050-sim/src/scp03: commands and responses over the channel, from the host to the applet and
-- back.
use simulators.Common.{
  ℕ, ◌+◌, ◌-◌, ◌/◌, ◌≡◌, refl, sym, subst, Bool, true, not, ◌&&◌, Option, none, some, List, [], ◌∷◌,
  ◌++◌, arith, length, take, ◌==◌, Bool-cases, inl, inr, length-append, length-take, take-append,
  drop-append, ne→==, All,
}
use simulators.Common.Bytes.{IsBytes, hi, lo}
use simulators.Common.Results.{ok, err, ◌>>=◌}
use simulators.Common.Slices.{same_bytes_refl}
use simulators.Se050.Aes.{Ciphers, AllDocumented}
use simulators.Se050.Apdu.{ParsedApdu, ApduResponse}
use simulators.Se050.Scp03.Channel.{Session, level_rmac, level_renc, sw_no_error}
use simulators.Se050.Scp03.Crypto.Sizes.{cmac_chain-some, counter_icv-some, cbc_crypt-cbc_crypt}
use simulators.Se050.Scp03.Host.{IsKeys, IsPlain, host_wrap, host_open, host_protected, host_unwrap}
use simulators.Se050.Scp03.Padding.{pad_m2, unpad_m2-pad_m2, length-pad_m2, pad_m2-IsBytes}
use simulators.Se050.Scp03.Session.{
  has_level, resp_counter, advances, advance_counter, sealed_field, protected, unwrap_command,
  wrap_response,
}
use simulators.Se050.Scp03.Unwrap.{unwrap_command-host_wrap}

both_left : (b c : Bool) → (b && c) ≡ true → b ≡ true
both_left b c e = ground (arith, e)

keys-advance_counter : (s : Session) (sw : ℕ) → (advance_counter s sw).keys ≡ s.keys
unfolding advance_counter
keys-advance_counter s sw = elim (Bool-cases (advances s sw)) [
  | inl e ↦ rw e refl
  | inr e ↦ rw e refl
]

module _ {ℓ} {X : Type ℓ} (applet : ParsedApdu → X → X × ApduResponse) where
  -- The specification: the applet's answers to the plain commands.
  unfoldable pub answer_all : List ParsedApdu → X → List ApduResponse × X
  answer_all [] x = ([], x)
  answer_all (a ∷ commands) x =
      let (x', resp) = applet a x in let (rs, x'') = answer_all commands x' in (resp ∷ rs, x'')

module _ {ℓ} (cs : Ciphers) {X : Type ℓ} (applet : ParsedApdu → X → X × ApduResponse) where
  -- The card unwraps a command, the applet answers, and the card wraps: the session, the applet's
  -- state, and the response. `none` for a refusal.
  unfoldable pub card_answer : Session → X → List ℕ → Option (Session × X × ApduResponse)
  card_answer card x raw =
      let (card', unwrapped) = unwrap_command cs card raw in
      elim unwrapped [
        | err sw ↦ none
        | ok inner ↦
            (let (x', resp) = applet inner x in
              let (card'', out) = wrap_response cs card' resp in some (card'', x', out))
      ]

  -- A command over the channel: what the host reads, the host's and the card's sessions, and the
  -- applet's state. `none` if a side refuses.
  unfoldable pub exchange :
      ParsedApdu → Session → Session → X → Option (ApduResponse × Session × Session × X)
  exchange a host card x = do
    (raw, host') ← host_wrap cs host a
    (card'', x', out) ← card_answer card x raw
    let (read, host'') = host_unwrap cs host' out
    r ← read
    some (r, host'', card'', x')

  unfoldable pub exchange_all :
      List ParsedApdu → Session → Session → X → Option (List ApduResponse × X)
  exchange_all [] host card x = some ([], x)
  exchange_all (a ∷ commands) host card x = do
    (r, host', card', x') ← exchange a host card x
    (rs, x'') ← exchange_all commands host' card' x'
    some (r ∷ rs, x'')

module _ (cs : Ciphers) (laws : AllDocumented cs) where
  -- The data field of a response, and what the host reads from it.
  sealed_back :
      (s : Session) (bytes : List ℕ)
      → IsKeys s.keys
      → IsBytes bytes
      → (field : List ℕ) × (sealed_field cs s bytes ≡ some field)
        × (host_open cs s field ≡ some bytes)
  unfolding sealed_field host_open
  sealed_back s bytes is bb =
      let (icv, f, ib) =
        counter_icv-some cs laws is.n s.keys.s_enc (resp_counter s) true is.enc_size
          is.length_enc in
      let padded = length-pad_m2 bytes in
      let (out, g, size, back) =
        cbc_crypt-cbc_crypt cs laws is.n (length bytes / 16 + 1) s.keys.s_enc icv (pad_m2 bytes)
          is.enc_size is.length_enc padded ib (pad_m2-IsBytes bytes bb) in
      elim (Bool-cases (has_level s level_renc && not (length bytes == 0))) [
        | inr e ↦ (bytes, rw e refl, rw e refl)
        | inl e ↦ (
          out,
          rw (e, f, g) refl,
          rw
              (
                both_left (has_level s level_renc) (not (length bytes == 0)) e,
                ne→== (length out) 0 (λ h. omega (arith, size, padded)),
                f,
                back,
              )
              (unpad_m2-pad_m2 bytes),
        )
      ]

  protected_back :
      (s : Session) (resp : ApduResponse)
      → IsKeys s.keys
      → IsBytes resp.body
      → (out : ApduResponse) × (protected cs s resp ≡ some out)
        × (out.sw ≡ resp.sw)
        × (host_protected cs s out ≡ some resp)
  unfolding protected host_protected
  protected_back s resp is bb =
      let (field, f, back) = sealed_back s resp.body is bb in
      let (full, g, size) =
        cmac_chain-some cs laws is.m s.keys.s_rmac s.mcv (field ++ (hi resp.sw ∷ lo resp.sw ∷ []))
          is.mac_size is.length_rmac in
      let mac = take 8 full in
      let size' : length mac ≡ 8 = length-take 8 full (omega (arith, size)) in
      let whole = length-append field mac in
      let count : length (field ++ mac) - 8 ≡ length field = omega (arith, whole, size') in
      (
        record { body = field ++ mac; sw = resp.sw },
        rw (f, g) refl,
        refl,
        rw
            (
              count,
              take-append (length field) field mac refl,
              drop-append (length field) field mac refl,
              g,
              back,
              same_bytes_refl mac,
            )
            refl,
      )

  -- The host reads the response that the card wrapped, and both sides count alike.
  pub host_unwrap-wrap_response :
      (s : Session) (resp : ApduResponse)
      → IsKeys s.keys
      → IsBytes resp.body
      → (out : ApduResponse) × (wrap_response cs s resp ≡ (advance_counter s resp.sw, out))
        × (host_unwrap cs s out ≡ (some resp, advance_counter s resp.sw))
  unfolding wrap_response host_unwrap
  host_unwrap-wrap_response s resp is bb =
      let (out, f, same, back) = protected_back s resp is bb in
      elim (Bool-cases (has_level s level_rmac && (resp.sw == sw_no_error))) [
        | inr e ↦ (resp, rw e refl, rw e refl)
        | inl e ↦ (out, rw (e, f) refl, rw (same, e, back) refl)
      ]

  module _ {ℓ} {X : Type ℓ} (applet : ParsedApdu → X → X × ApduResponse) where
    card_answer_done :
        (s s' s'' : Session) (a : ParsedApdu) (x : X) (raw : List ℕ) (out : ApduResponse)
        → unwrap_command cs s raw ≡ (s', ok a)
        → wrap_response cs s' (applet a x).1 ≡ (s'', out)
        → card_answer cs applet s x raw ≡ some (s'', (applet a x).0, out)
    unfolding card_answer
    card_answer_done s s' s'' a x raw out g u = rw (g, card_answer, g, u) refl

    exchange_done :
        (s : Session) (a : ParsedApdu) (x : X)
        → IsKeys s.keys
        → IsPlain a
        → IsBytes (applet a x).1.body
        → (next : Session) × (exchange cs applet a s s x
            ≡ some ((applet a x).1, next, next, (applet a x).0))
          × IsKeys next.keys
    unfolding exchange
    exchange_done s a x is plain b =
        let (raw, s', f, g, same) = unwrap_command-host_wrap cs laws s a is plain in
        let is' : IsKeys s'.keys = subst IsKeys (sym same) is in
        let resp = (applet a x).1 in
        let (out, u, v) = host_unwrap-wrap_response s' resp is' b in
        let next = advance_counter s' resp.sw in
        (
          next,
          rw (f, card_answer_done s s' next a x raw out g u, v) refl,
          subst IsKeys (sym (keys-advance_counter s' resp.sw)) is',
        )

    -- From equal sessions with keys of right lengths, and for an applet that answers bytes: every
    -- sequence of commands that can be wrapped is answered over the channel as the applet answers the
    -- plain commands.
    pub exchange_all-answer_all :
        (commands : List ParsedApdu) (s : Session) (x : X)
        → ((a : ParsedApdu) (y : X) → IsBytes (applet a y).1.body)
        → IsKeys s.keys
        → All IsPlain commands
        → exchange_all cs applet commands s s x ≡ some (answer_all applet commands x)
    unfolding exchange_all answer_all
    exchange_all-answer_all [] s x b is plain = refl
    exchange_all-answer_all (a ∷ commands) s x b is plain =
        let (next, f, is') = exchange_done s a x is plain.0 (b a x) in
        rw (f, exchange_all-answer_all commands next (applet a x).0 b is' plain.1) refl
