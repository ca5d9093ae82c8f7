-- ===== src/Atecc/Handlers/Keys.antt =====
-- handlers/random.rs, genkey.rs, sign.rs, verify.rs and ecdh.rs.
use simulators.Common.{
  ℕ, bit_and, not, Option, none, some, List, length, get_elem?, set, take, ltb, leb, ◌==◌,
  if◌then◌else◌,
}
use simulators.Common.Results.{◌>>=◌}
use simulators.Common.Slices.{slice, splice, resize}
use simulators.Atecc.Frame.{
  Command, success, miscompare, parse_error, execution_error, build_response, status_response,
  reply,
}
use simulators.Atecc.Device.{Device, SlotData, num_slots, slot_locked}
use simulators.Atecc.Session.{Sha, Session}
use simulators.Atecc.Crypto.{P256, Entropy}

-- The outer `Option` is the panic of indexing the slots.
unfoldable pub slot_scalar : Device → ℕ → Option (Option (List ℕ))
slot_scalar d slot = do
  s ← get_elem? d.slots slot
  some (if ltb (length s.bytes) 32 then none else some (take 32 s.bytes))

-- The scalar goes to the first 32 bytes of the slot.
unfoldable pub store_scalar : SlotData → List ℕ → SlotData
unfolding splice resize
store_scalar slot scalar =
    let grown = if ltb (length slot.bytes) 32 then resize 32 0 slot.bytes else slot.bytes in
    record { bytes = splice 0 scalar grown }

module _ (sha : Sha) (p : P256) where
  unfoldable pub random : Entropy p → Device → Command → Option (List ℕ)
  random entropy d cmd = build_response entropy.bytes

  unfoldable pub pubkey_raw : p.SigningKey → List ℕ
  unfolding slice
  pubkey_raw sk = slice 1 65 (p.encoded_point sk)

  unfoldable pub public_from : Option (List ℕ) → Option (List ℕ)
  unfolding pubkey_raw
  public_from none = status_response execution_error
  public_from (some scalar) = elim (p.signing_key scalar) [
    | none ↦ status_response execution_error
    | some sk ↦ build_response (pubkey_raw sk)
  ]

  unfoldable pub genkey : Entropy p → Device → Command → Option (Device × List ℕ)
  unfolding pubkey_raw store_scalar public_from slot_scalar
  genkey entropy d cmd =
      if leb num_slots cmd.p2
      then reply d (status_response parse_error)
      else (if cmd.p1 == 0x04
          then (if slot_locked d cmd.p2 then reply d (status_response execution_error) else (do
            old ← get_elem? d.slots cmd.p2
            let new = store_scalar old (p.scalar entropy.key)
            reply (record d { slots = set d.slots cmd.p2 new })
                (build_response (pubkey_raw entropy.key))))
          else (if cmd.p1 == 0x00
              then (do scalar ← slot_scalar d cmd.p2; reply d (public_from scalar))
              else reply d (status_response parse_error)))

  unfoldable pub sign_with : Option (List ℕ) → List ℕ → Option (List ℕ)
  sign_with none digest = status_response execution_error
  sign_with (some scalar) digest = elim (p.signing_key scalar) [
    | none ↦ status_response execution_error
    | some sk ↦ elim (p.sign_prehash sk digest) [
      | none ↦ status_response execution_error
      | some sig ↦ build_response sig
    ]
  ]

  unfoldable pub sign : Device → Session sha → Command → Option (List ℕ)
  unfolding sign_with slot_scalar
  sign d s cmd =
      if bit_and cmd.p1 0x80 == 0
      then status_response execution_error
      else (if leb num_slots cmd.p2
          then status_response parse_error
          else (if not s.tempkey.valid
              then status_response execution_error
              else (do scalar ← slot_scalar d cmd.p2; sign_with scalar s.tempkey.value)))

  unfoldable pub verify_with : Option p.Signature → Option p.VerifyingKey → List ℕ → Option (List ℕ)
  verify_with none vk digest = status_response parse_error
  verify_with (some sig) none digest = status_response parse_error
  verify_with (some sig) (some vk) digest =
      if p.verify_prehash vk digest sig then status_response success else status_response miscompare

  unfoldable pub verify : Device → Session sha → Command → Option (List ℕ)
  unfolding verify_with slice
  verify d s cmd =
      if not (bit_and cmd.p1 0x07 == 0x02)
      then status_response execution_error
      else (if not (length cmd.payload == 128)
          then status_response parse_error
          else (if not s.tempkey.valid
              then status_response execution_error
              else verify_with (p.signature (slice 0 64 cmd.payload))
                  (p.verifying_key (slice 64 128 cmd.payload)) s.tempkey.value))

  unfoldable pub shared_with : Option (List ℕ) → List ℕ → Option (List ℕ)
  shared_with none peer = status_response execution_error
  shared_with (some scalar) peer = elim (p.secret_key scalar) [
    | none ↦ status_response execution_error
    | some sk ↦ elim (p.public_key peer) [
      | none ↦ status_response parse_error
      | some pk ↦ build_response (p.diffie_hellman sk pk)
    ]
  ]

  unfoldable pub ecdh : Device → Command → Option (List ℕ)
  unfolding shared_with slot_scalar slice
  ecdh d cmd =
      if not (cmd.p1 == 0x00)
      then status_response execution_error
      else (if leb num_slots cmd.p2
          then status_response parse_error
          else (if not (length cmd.payload == 64)
              then status_response parse_error
              else (do scalar ← slot_scalar d cmd.p2; shared_with scalar (slice 0 64 cmd.payload))))
