-- ===== src/Se050/Handlers/CryptoObject.antt =====
-- SE050Sim/se050-sim/src/handlers/crypto_obj.rs and digest.rs: crypto objects, and digests at once or
-- as a stream. The crates sha1 and sha2 are parameters.
use simulators.Common.{
  ℕ, not, Option, none, some, List, [], ◌∷◌, ◌++◌, length, get_or, ◌==◌, if◌then◌else◌,
}
use simulators.Common.Bytes.{hi, lo, be16}
use simulators.Common.Maps.{lookup, insert, erase}
use simulators.Common.Results.{Result, ok, err}
use simulators.Se050.Apdu.{ApduResponse, success, success_with_tlvs, error}
use simulators.Se050.Handlers.Curve.{tag_1, tag_2, sw_wrong_data}
use simulators.Se050.ObjectStore.{ObjectStore, CryptoObjectState, digest}
use simulators.Se050.Scp03.Channel.{sw_conditions_not_satisfied}
use simulators.Se050.Tlv.{Tlv, TlvError, find_tlv}

abbrev pub tag_3 : ℕ
tag_3 = 0x43

abbrev pub sw_command_not_allowed : ℕ
sw_command_not_allowed = 0x6986

-- A value of two bytes, and the first byte of a value that is not empty.
unfoldable pub two_bytes : Option Tlv → Option ℕ
two_bytes none = none
two_bytes (some t) =
    if length t.value == 2 then some (be16 (get_or t.value 0 0) (get_or t.value 1 0)) else none

unfoldable pub lead_byte : Option Tlv → Option ℕ
lead_byte none = none
lead_byte (some t) = if length t.value == 0 then none else some (get_or t.value 0 0)

unfoldable pub value_or_empty : Option Tlv → List ℕ
value_or_empty none = []
value_or_empty (some t) = t.value

-- CreateCryptoObject with what it carries.
unfoldable pub create_object : ℕ → ℕ → ℕ → ObjectStore → ObjectStore × ApduResponse
unfolding lookup insert success error
create_object crypto_id context_type subtype s = elim (lookup crypto_id s.crypto_object_types) [
  | some old ↦ (s, error sw_command_not_allowed)
  | none ↦ (
    record s {
      crypto_object_types = insert crypto_id (context_type, subtype) s.crypto_object_types;
    },
    success,
  )
]

unfoldable pub or_zero : Option ℕ → ℕ
or_zero none = 0x00
or_zero (some b) = b

unfoldable pub handle_create_object :
    ObjectStore → Result (List Tlv) TlvError → ObjectStore × ApduResponse
unfolding two_bytes lead_byte or_zero find_tlv error
handle_create_object s (err e) = (s, error sw_wrong_data)
handle_create_object s (ok tlvs) = elim (two_bytes (find_tlv tlvs tag_1)) [
  | none ↦ (s, error sw_wrong_data)
  | some crypto_id ↦ elim (lead_byte (find_tlv tlvs tag_2)) [
    | none ↦ (s, error sw_wrong_data)
    | some context_type ↦
        create_object crypto_id context_type (or_zero (lead_byte (find_tlv tlvs tag_3))) s
  ]
]

-- The types of the objects; the order of the entries is the map's.
unfoldable pub object_list : List (ℕ × (ℕ × ℕ)) → List ℕ
object_list [] = []
object_list ((id, (ctx_type, subtype)) ∷ m) = hi id ∷ lo id ∷ ctx_type ∷ subtype ∷ object_list m

unfoldable pub handle_object_list : ObjectStore → ApduResponse
unfolding object_list success_with_tlvs
handle_object_list s =
    success_with_tlvs (record { tag = tag_1; value = object_list s.crypto_object_types } ∷ [])

unfoldable pub handle_delete_object :
    ObjectStore → Result (List Tlv) TlvError → ObjectStore × ApduResponse
unfolding two_bytes find_tlv erase success error
handle_delete_object s (err e) = (s, error sw_wrong_data)
handle_delete_object s (ok tlvs) = elim (two_bytes (find_tlv tlvs tag_1)) [
  | none ↦ (s, error sw_wrong_data)
  | some crypto_id ↦ (
    record s {
      crypto_object_types = erase crypto_id s.crypto_object_types;
      crypto_objects = erase crypto_id s.crypto_objects;
    },
    success,
  )
]

-- `digest` of the crates' types.
pub record Hashes : Type 0 where
  pub sha1 : List ℕ → List ℕ
  pub sha224 : List ℕ → List ℕ
  pub sha256 : List ℕ → List ℕ
  pub sha384 : List ℕ → List ℕ
  pub sha512 : List ℕ → List ℕ

unfoldable pub compute_hash : Hashes → ℕ → List ℕ → Option (List ℕ)
compute_hash hashes mode bytes =
    if mode == 0x01
    then some (hashes.sha1 bytes)
    else (if mode == 0x07
        then some (hashes.sha224 bytes)
        else (if mode == 0x04
            then some (hashes.sha256 bytes)
            else (if mode == 0x05
                then some (hashes.sha384 bytes)
                else (if mode == 0x06 then some (hashes.sha512 bytes) else none))))

module _ (hashes : Hashes) where
  -- The answer with the digest.
  unfoldable pub digest_answer : ℕ → List ℕ → ApduResponse
  unfolding compute_hash success_with_tlvs error
  digest_answer mode bytes = elim (compute_hash hashes mode bytes) [
    | none ↦ error sw_wrong_data
    | some out ↦ success_with_tlvs (record { tag = tag_1; value = out } ∷ [])
  ]

  unfoldable pub handle_digest_oneshot : Result (List Tlv) TlvError → ApduResponse
  unfolding digest_answer lead_byte value_or_empty find_tlv error
  handle_digest_oneshot (err e) = error sw_wrong_data
  handle_digest_oneshot (ok tlvs) = elim (lead_byte (find_tlv tlvs tag_1)) [
    | none ↦ error sw_wrong_data
    | some mode ↦ digest_answer mode (value_or_empty (find_tlv tlvs tag_2))
  ]

-- DigestInit for an object of a type.
unfoldable pub init_digest : ℕ → Option (ℕ × ℕ) → ObjectStore → ObjectStore × ApduResponse
unfolding insert success error
init_digest crypto_id none s = (s, error sw_conditions_not_satisfied)
init_digest crypto_id (some (context, subtype)) s =
    if not (context == 0x01) then (s, error sw_conditions_not_satisfied) else (
      record s { crypto_objects = insert crypto_id (digest subtype []) s.crypto_objects },
      success,
    )

unfoldable pub handle_digest_init :
    ObjectStore → Result (List Tlv) TlvError → ObjectStore × ApduResponse
unfolding two_bytes find_tlv lookup init_digest error
handle_digest_init s (err e) = (s, error sw_wrong_data)
handle_digest_init s (ok tlvs) = elim (two_bytes (find_tlv tlvs tag_2)) [
  | none ↦ (s, error sw_wrong_data)
  | some crypto_id ↦ init_digest crypto_id (lookup crypto_id s.crypto_object_types) s
]

-- DigestUpdate of the object's state.
unfoldable pub update_digest :
    ℕ → List ℕ → Option CryptoObjectState → ObjectStore → ObjectStore × ApduResponse
unfolding insert success error
update_digest crypto_id input (some (digest algo bytes)) s = (
  record s { crypto_objects = insert crypto_id (digest algo (bytes ++ input)) s.crypto_objects },
  success,
)
update_digest crypto_id input _ s = (s, error sw_conditions_not_satisfied)

unfoldable pub handle_digest_update :
    ObjectStore → Result (List Tlv) TlvError → ObjectStore × ApduResponse
unfolding two_bytes find_tlv lookup update_digest error
handle_digest_update s (err e) = (s, error sw_wrong_data)
handle_digest_update s (ok tlvs) = elim (two_bytes (find_tlv tlvs tag_2)) [
  | none ↦ (s, error sw_wrong_data)
  | some crypto_id ↦ elim (find_tlv tlvs tag_3) [
    | none ↦ (s, error sw_wrong_data)
    | some t ↦ update_digest crypto_id t.value (lookup crypto_id s.crypto_objects) s
  ]
]

module _ (hashes : Hashes) where
  -- DigestFinal takes the state out of the store, whatever it is.
  unfoldable pub final_digest :
      ℕ → List ℕ → Option CryptoObjectState → ObjectStore → ObjectStore × ApduResponse
  unfolding erase digest_answer error
  final_digest crypto_id remaining none s = (s, error sw_conditions_not_satisfied)
  final_digest crypto_id remaining (some (digest algo bytes)) s = (
    record s { crypto_objects = erase crypto_id s.crypto_objects },
    digest_answer hashes algo (bytes ++ remaining),
  )
  final_digest crypto_id remaining (some _) s = (
    record s { crypto_objects = erase crypto_id s.crypto_objects },
    error sw_conditions_not_satisfied,
  )

  unfoldable pub handle_digest_final :
      ObjectStore → Result (List Tlv) TlvError → ObjectStore × ApduResponse
  unfolding two_bytes value_or_empty find_tlv lookup final_digest error
  handle_digest_final s (err e) = (s, error sw_wrong_data)
  handle_digest_final s (ok tlvs) = elim (two_bytes (find_tlv tlvs tag_2)) [
    | none ↦ (s, error sw_wrong_data)
    | some crypto_id ↦
        final_digest crypto_id (value_or_empty (find_tlv tlvs tag_3))
          (lookup crypto_id s.crypto_objects) s
  ]
