-- ===== src/Se050/Responder/Gate.antt =====
-- SE050Sim/se050-sim/src/t1.rs: the test of the platform that comes before the dispatch of a command,
-- for class 0x80 and the bit of secure messaging.
use simulators.Common.{
  ℕ, ◌≤◌, ◌≡◌, refl, subst, ◌≢◌, ◌⊎◌, inl, inr, bit_and, Bool, true, false, not, ◌&&◌, ◌||◌, List,
  arith, length, get_or, ◌==◌, ne→==, le→ltb, if_intro,
}
use simulators.Common.Results.{ok, Result-cases}
use simulators.Se050.Aes.{Ciphers}
use simulators.Se050.Apdu.{ParsedApdu, ApduResponse, parse}
use simulators.Se050.Applet.{AppletVersion}
use simulators.Se050.Responder.{
  Card, T1Responder, after_select, answer_inner, process_active, process_initialize, process_apdu,
}
use simulators.Se050.Scp03.Channel.{Session, idle, pending, active, Scp03State, is_active}
use simulators.Se050.Scp03.Session.{unwrap_command}

-- A command of the SE05x's own class, or with the bit of secure messaging.
unfoldable pub gated : List ℕ → Bool
gated bytes = (get_or bytes 0 0 == 0x80) || not (bit_and (get_or bytes 0 0) 0x04 == 0)

shut :
    {A : Type 0} (cla secure : ℕ) (required : Bool)
    → ((cla == 0x80) || not (secure == 0)) ≡ true
    → not (secure == 0) ≡ false
    → required ≡ true
    → ((cla == 0x80) && required) ≡ false
    → A
shut cla secure required g plain r passed = absurd (ground (arith, g, plain, r, passed))

own_class : (cla : ℕ) → ((cla == 0x80) || not (bit_and cla 0x04 == 0)) ≡ true → cla ≢ 0
own_class cla h e =
    let h' : ((0 == 0x80) || not (bit_and 0 0x04 == 0)) ≡ true =
      subst (λ (c : ℕ). ((c == 0x80) || not (bit_and c 0x04 == 0)) ≡ true) e h in
    absurd cc

module _ (cs : Ciphers) (card : Card) (version : AppletVersion) where
  -- The applet's store is as it was, or as the answer to the command that the channel unwrapped left it.
  abbrev pub Gated :
      T1Responder → card.Store → List ℕ → T1Responder × card.Store × ApduResponse → Type 0
  Gated r store bytes (r', store', resp) =
      (store' ≡ store)
      ⊎ ((s : Session) × (inner : ParsedApdu) × (r.scp03 ≡ active s)
          × ((unwrap_command cs s bytes).1 ≡ ok inner)
          × (store' ≡ (answer_inner cs card version r.selected_ssd store inner).0))

  initialize-Gated :
      (card_ch : List ℕ) (r : T1Responder) (store : card.Store) (bytes : List ℕ)
      → Gated r store bytes (process_initialize cs card version card_ch r store bytes)
  unfolding process_initialize
  initialize-Gated card_ch r store bytes = elim (Result-cases (parse bytes)) [
    | inl (a, f) ↦ rw (f, process_initialize) (inl refl)
    | inr (e, f) ↦ rw (f, process_initialize) (inl refl)
  ]

  active-Gated :
      (r : T1Responder) (store : card.Store) (bytes : List ℕ) (state : Scp03State)
      → r.scp03 ≡ state
      → Gated r store bytes (process_active cs card version r store bytes)
  unfolding process_active
  active-Gated r store bytes idle e = rw e (inl refl)
  active-Gated r store bytes (pending p) e = rw e (inl refl)
  active-Gated r store bytes (active s) e = elim (Result-cases (unwrap_command cs s bytes).1) [
    | inl (inner, f) ↦ rw (e, f, process_active) (inr (s, inner, refl, f, refl))
    | inr (sw, f) ↦ rw (e, f, process_active) (inl refl)
  ]

  after_select-gated :
      (r : T1Responder) (bytes : List ℕ) → gated bytes ≡ true → after_select r bytes ≡ r
  unfolding after_select gated
  after_select-gated r bytes g =
      rw (ne→== (get_or bytes 0 0) 0 (own_class (get_or bytes 0 0) g)) refl

  -- When the platform requires SCP03, no command of the SE05x's class and no command with the bit of
  -- secure messaging changes the applet's store, unless a channel is active and unwraps it. Then the
  -- store is as the unwrapped command leaves it.
  pub process_apdu-Gated :
      (card_ch : List ℕ) (r : T1Responder) (store : card.Store) (bytes : List ℕ)
      → 4 ≤ length bytes
      → gated bytes ≡ true
      → card.scp_required store ≡ true
      → Gated r store bytes (process_apdu cs card version card_ch r store bytes)
  unfolding process_apdu gated
  process_apdu-Gated card_ch r store bytes h g required =
      let cla = get_or bytes 0 0 in
      let ins = get_or bytes 1 0 in
      let P = Gated r store bytes in
      rw (after_select-gated r bytes g, le→ltb (length bytes) 4 h)
        (if_intro P ((cla == 0x80) && (ins == 0x50)) (λ _. initialize-Gated card_ch r store bytes)
          (λ _.
            if_intro P ((cla == 0x84) && (ins == 0x82) && not (is_active r.scp03)) (λ _. inl refl)
              (λ _.
                if_intro P (not (bit_and cla 0x04 == 0))
                  (λ _. active-Gated r store bytes r.scp03 refl)
                  (λ plain.
                    if_intro P ((cla == 0x80) && is_active r.scp03) (λ _. inl refl)
                      (λ _.
                        if_intro P ((cla == 0x80) && card.scp_required store) (λ _. inl refl)
                          (λ passed.
                            shut cla (bit_and cla 0x04) (card.scp_required store) g plain required
                              passed))))))
