-- ===== src/Atecc/Handlers/KeyLaws.antt =====
-- ATECC608Sim/atecc608-sim/src/handlers/genkey.rs: the key of a slot after its generation.
use simulators.Common.{
  ℕ, ◌+◌, ◌<◌, ◌≡◌, sym, ap, subst, ◌∙◌, true, false, Option, none, some, List, arith, length,
  get_elem?, set, get_elem?-set_found, take, drop, take-append, ltb, leb, le→ltb, if_intro, ◌==◌,
}
use simulators.Common.Slices.{splice, resize, length-splice, length-resize}
use simulators.Atecc.Frame.{Command, reply, build_response}
use simulators.Atecc.Device.{Device, SlotData, num_slots, slot_locked}
use simulators.Atecc.Session.{Sha}
use simulators.Atecc.Crypto.{P256, Entropy, Sizes, KeyBytes}
use simulators.Atecc.Handlers.Keys.{slot_scalar, store_scalar, pubkey_raw, public_from, genkey}

-- The first 32 bytes of a slot behind a stored scalar are the scalar.
take-splice : (src old : List ℕ) (n : ℕ) → n ≡ length src → take n (splice 0 src old) ≡ src
unfolding splice
take-splice src old n e = take-append n src (drop (0 + length src) old) e

stored :
    (s : SlotData) (scalar : List ℕ)
    → length scalar ≡ 32
    → (ltb (length (store_scalar s scalar).bytes) 32 ≡ false)
      × (take 32 (store_scalar s scalar).bytes ≡ scalar)
unfolding store_scalar
stored s scalar n =
    if_intro
      (λ (g : List ℕ).
        (ltb (length (splice 0 scalar g)) 32 ≡ false) × (take 32 (splice 0 scalar g) ≡ scalar))
      (ltb (length s.bytes) 32)
      (λ e.
        let m = length-resize 32 0 s.bytes (ground arith) in
        (
          le→ltb _ 32 (
              omega
                (arith, m, n, length-splice 0 scalar (resize 32 0 s.bytes) (omega (arith, m, n)))),
          take-splice scalar (resize 32 0 s.bytes) 32 (sym n),
        ))
      (λ e. (
        le→ltb _ 32 (ground (arith, n, length-splice 0 scalar s.bytes)),
        take-splice scalar s.bytes 32 (sym n),
      ))

module _ (sha : Sha) (p : P256) (sizes : Sizes sha p) (key_bytes : KeyBytes p) where
  generated :
      (e : Entropy p) (d : Device) (cmd : Command) (old : SlotData)
      → leb num_slots cmd.p2 ≡ false
      → (cmd.p1 == 0x04) ≡ true
      → slot_locked d cmd.p2 ≡ false
      → get_elem? d.slots cmd.p2 ≡ some old
      → genkey sha p e d cmd
        ≡ reply
            (record d { slots = set d.slots cmd.p2 (store_scalar old (p.scalar e.key)) })
            (build_response (pubkey_raw sha p e.key))
  unfolding genkey
  generated e d cmd old small mode free found = rw (small, mode, free, found)

  asked :
      (e : Entropy p) (d : Device) (cmd : Command) (s : SlotData) (k : p.SigningKey)
      → leb num_slots cmd.p2 ≡ false
      → (cmd.p1 == 0x04) ≡ false
      → (cmd.p1 == 0x00) ≡ true
      → get_elem? d.slots cmd.p2 ≡ some s
      → ltb (length s.bytes) 32 ≡ false
      → p.signing_key (take 32 s.bytes) ≡ some k
      → genkey sha p e d cmd ≡ reply d (build_response (pubkey_raw sha p k))
  unfolding genkey slot_scalar public_from
  asked e d cmd s k small mode mode' found long key =
      rw (small, mode, mode', found, long, key, public_from)

  reply-state :
      (d d' : Device) (o : Option (List ℕ)) (r : List ℕ) → reply d o ≡ some (d', r) → d' ≡ d
  reply-state d d' none r e = cc
  reply-state d d' (some r') r e = cc

  -- When a key is generated in a slot that exists and is not locked, asking for the public key of
  -- that slot gives the very response of the generation, and leaves the device as it is, whatever
  -- random values the second command gets. The bytes of a key are taken to give the key back.
  pub genkey-genkey :
      (e e' : Entropy p) (d d' : Device) (gen ask : Command) (old : SlotData) (r : List ℕ)
      → gen.p1 ≡ 0x04
      → ask.p1 ≡ 0x00
      → ask.p2 ≡ gen.p2
      → gen.p2 < 16
      → slot_locked d gen.p2 ≡ false
      → get_elem? d.slots gen.p2 ≡ some old
      → genkey sha p e d gen ≡ some (d', r)
      → genkey sha p e' d' ask ≡ some (d', r)
  genkey-genkey e e' d d' gen ask old r hg ha same range free found done =
      let new = store_scalar old (p.scalar e.key) in
      let left : Device = record d { slots = set d.slots gen.p2 new } in
      let first = generated e d gen old (ground arith) (ground arith) free found in
      let (long, took) = stored old (p.scalar e.key) (sizes.length-scalar e.key) in
      let d'_eq : d' ≡ left = reply-state left d' _ r (sym first ∙ done) in
      let second : genkey sha p e' left ask ≡ reply left (build_response (pubkey_raw sha p e.key)) =
        asked e' left ask new e.key (ground arith) (ground arith) (ground arith)
          (subst (λ (i : ℕ). get_elem? (set d.slots gen.p2 new) i ≡ some new) (sym same)
            (get_elem?-set_found d.slots gen.p2 old new found))
          long (ap p.signing_key took ∙ key_bytes e.key) in
      ap (λ (x : Device). genkey sha p e' x ask) d'_eq ∙ second ∙ sym first ∙ done
