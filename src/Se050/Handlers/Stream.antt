-- ===== src/Se050/Handlers/Stream.antt =====
-- SE050Sim/se050-sim/src/handlers/digest.rs: a digest as a stream, and at once.
use mathlib.Core.List.{append_assoc, append-nil}
use simulators.Common.{
  ℕ, ◌<◌, ◌≡◌, refl, sym, ap, ◌∙◌, true, Option, none, some, List, [], ◌∷◌, ◌++◌, arith, ◌==◌,
  if◌then◌else◌,
}
use simulators.Common.Bytes.{hi, lo, be16}
use simulators.Common.Maps.{lookup, insert, lookup-insert}
use simulators.Common.Results.{ok}
use simulators.Se050.Apdu.{success}
use simulators.Se050.Handlers.Curve.{tag_1, tag_2}
use simulators.Se050.Handlers.CryptoObject.{
  Hashes, tag_3, two_bytes, lead_byte, value_or_empty, handle_digest_oneshot, init_digest,
  handle_digest_init, update_digest, handle_digest_update, final_digest, handle_digest_final,
}
use simulators.Se050.ObjectStore.{ObjectStore, digest}
use simulators.Se050.Tlv.{Tlv, find_tlv}

abbrev pub id_entry : ℕ → ℕ → Tlv
id_entry tag id = record { tag = tag; value = hi id ∷ lo id ∷ [] }

abbrev pub init_request : ℕ → List Tlv
init_request id = id_entry tag_2 id ∷ []

abbrev pub stream_request : ℕ → List ℕ → List Tlv
stream_request id bytes = id_entry tag_2 id ∷ record { tag = tag_3; value = bytes } ∷ []

abbrev pub oneshot_request : ℕ → List ℕ → List Tlv
oneshot_request mode bytes =
    record { tag = tag_1; value = mode ∷ [] } ∷ record { tag = tag_2; value = bytes } ∷ []

-- The updates one after the other, while each is answered with success.
unfoldable pub update_all : ℕ → List (List ℕ) → ObjectStore → Option ObjectStore
update_all id [] s = some s
update_all id (chunk ∷ chunks) s =
    let (s', resp) = handle_digest_update s (ok (stream_request id chunk)) in
    let rest = update_all id chunks s' in if resp.sw == 0x9000 then rest else none

abbrev pub joined : List (List ℕ) → List ℕ
joined [] = []
joined (chunk ∷ chunks) = chunk ++ joined chunks

updated :
    (id algo : ℕ) (before chunk : List ℕ) (s : ObjectStore)
    → id < 65536
    → lookup id s.crypto_objects ≡ some (digest algo before)
    → (s' : ObjectStore) × (handle_digest_update s (ok (stream_request id chunk)) ≡ (s', success))
      × (lookup id s'.crypto_objects ≡ some (digest algo (before ++ chunk)))
unfolding handle_digest_update two_bytes find_tlv update_digest
updated id algo before chunk s w e =
    let whole : be16 (hi id) (lo id) ≡ id = omega arith in
    let same : (id == id) ≡ true = ground arith in
    (
      record s { crypto_objects = insert id (digest algo (before ++ chunk)) s.crypto_objects },
      rw (whole, e) refl,
      rw (lookup-insert id id (digest algo (before ++ chunk)) s.crypto_objects, same) refl,
    )

update_all-joined :
    (id algo : ℕ) (chunks : List (List ℕ)) (before : List ℕ) (s : ObjectStore)
    → id < 65536
    → lookup id s.crypto_objects ≡ some (digest algo before)
    → (s' : ObjectStore) × (update_all id chunks s ≡ some s')
      × (lookup id s'.crypto_objects ≡ some (digest algo (before ++ joined chunks)))
unfolding update_all success
update_all-joined id algo [] before s w e =
    (s, refl, e ∙ ap (λ (t : List ℕ). some (digest algo t)) (sym (append-nil before)))
update_all-joined id algo (chunk ∷ chunks) before s w e =
    let (s', f, g) = updated id algo before chunk s w e in
    let (s'', f', g') = update_all-joined id algo chunks (before ++ chunk) s' w g in
    (
      s'',
      rw (f, f') refl,
      g' ∙ ap (λ (t : List ℕ). some (digest algo t)) (append_assoc before chunk (joined chunks)),
    )

module _ (hashes : Hashes) where
  -- For a crypto object of a digest's type: DigestInit succeeds, every DigestUpdate behind it
  -- succeeds, and DigestFinal answers what the digest of all the data at once answers.
  pub handle_digest_final-update_all :
      (id subtype : ℕ) (chunks : List (List ℕ)) (last : List ℕ) (s : ObjectStore)
      → id < 65536
      → lookup id s.crypto_object_types ≡ some (0x01, subtype)
      → (s' s'' : ObjectStore) × (handle_digest_init s (ok (init_request id)) ≡ (s', success))
        × (update_all id chunks s' ≡ some s'')
        × ((handle_digest_final hashes s'' (ok (stream_request id last))).1
            ≡ handle_digest_oneshot hashes (ok (oneshot_request subtype (joined chunks ++ last))))
  unfolding handle_digest_init handle_digest_final handle_digest_oneshot init_digest final_digest
      two_bytes lead_byte value_or_empty find_tlv
  handle_digest_final-update_all id subtype chunks last s w e =
      let whole : be16 (hi id) (lo id) ≡ id = omega arith in
      let same : (id == id) ≡ true = ground arith in
      let started : ObjectStore = record s {
        crypto_objects = insert id (digest subtype []) s.crypto_objects;
      } in
      let fresh : lookup id started.crypto_objects ≡ some (digest subtype []) =
        rw (lookup-insert id id (digest subtype []) s.crypto_objects, same) refl in
      let (s'', f, g) = update_all-joined id subtype chunks [] started w fresh in
      (started, s'', rw (whole, e) refl, f, rw (whole, g) refl)
