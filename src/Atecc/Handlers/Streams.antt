-- ===== src/Atecc/Handlers/Streams.antt =====
-- ATECC608Sim/atecc608-sim/src/handlers/sha.rs: the multi-step SHA commands and the single one.
use simulators.Common.{ℕ, ◌≡◌, refl, sym, ap, ◌∙◌, Option, none, some, List, [], ◌∷◌, ◌++◌}
use simulators.Atecc.Frame.{Command, reply, build_response, status_response}
use simulators.Atecc.Session.{Sha, Session, absorb_trailing}
use simulators.Atecc.Crypto.{Streaming}
use simulators.Atecc.Handlers.Digest.{sha_command}

abbrev pub sha_cmd : ℕ → List ℕ → Command
sha_cmd mode bytes = record { opcode = 0x47; p1 = mode; p2 = 0; payload = bytes }

unfoldable pub concat : List (List ℕ) → List ℕ
concat [] = []
concat (m ∷ ms) = m ++ concat ms

module _ (sha : Sha) where
  -- The session after a command, if it was answered.
  abbrev pub after : Session sha → Option (Session sha × List ℕ) → Session sha
  after s none = s
  after s (some (s', r)) = s'

  abbrev pub response : Option (Session sha × List ℕ) → Option (List ℕ)
  response none = none
  response (some (s', r)) = some r

  -- Update commands, one for each part of the message.
  unfoldable pub updates : Session sha → List (List ℕ) → Session sha
  updates s [] = s
  updates s (m ∷ ms) = updates (after s (sha_command sha s (sha_cmd 0x01 m))) ms

  module _ (laws : Streaming sha) where
    updates-hasher :
        (s : Session sha) (h : sha.Hasher) (ms : List (List ℕ))
        → updates (record s { hasher = some h }) ms
          ≡ record s { hasher = some (sha.update h (concat ms)) }
    unfolding updates concat sha_command status_response
    updates-hasher s h [] =
        ap (λ (k : sha.Hasher). record s { hasher = some k }) (sym (laws.update_none h))
    updates-hasher s h (m ∷ ms) =
        updates-hasher s (sha.update h m) ms
        ∙ ap (λ (k : sha.Hasher). record s { hasher = some k }) (laws.update_twice h m (concat ms))

    trailing : (h : sha.Hasher) (m : List ℕ) → absorb_trailing sha h m ≡ sha.update h m
    unfolding absorb_trailing
    trailing h [] = sym (laws.update_none h)
    trailing h (x ∷ xs) = refl

    whole :
        (m last : List ℕ)
        → sha.finalize (absorb_trailing sha (sha.update sha.new m) last) ≡ sha.digest (m ++ last)
    whole m last =
        ap sha.finalize (trailing (sha.update sha.new m) last ∙ laws.update_twice sha.new m last)
        ∙ sym (laws.digest_lem (m ++ last))

    response-reply : (s : Session sha) (o : Option (List ℕ)) → response (reply s o) ≡ o
    response-reply s none = refl
    response-reply s (some r) = refl

    -- Under the streaming laws of the hash, a hash that is started, fed part by part, and ended is
    -- answered as the single command that hashes the whole message, and no running hash is left.
    pub sha_multi_step :
        (s : Session sha) (ms : List (List ℕ)) (last : List ℕ)
        → let started = after s (sha_command sha s (sha_cmd 0x00 [])) in
          sha_command sha (updates started ms) (sha_cmd 0x02 last)
          ≡ reply
              (record s { hasher = none })
              (response (sha_command sha s (sha_cmd 0x03 (concat ms ++ last))))
    unfolding sha_command status_response
    sha_multi_step s ms last =
        ap (λ (t : Session sha). sha_command sha t (sha_cmd 0x02 last))
          (updates-hasher s sha.new ms)
        ∙ ap (λ (b : List ℕ). reply (record s { hasher = none }) (build_response b))
            (whole (concat ms) last)
        ∙ ap (reply (record s { hasher = none }))
            (sym (response-reply s (build_response (sha.digest (concat ms ++ last)))))
