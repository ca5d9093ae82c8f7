-- ===== src/Stsafe/Handlers.antt =====
-- STSAFEA120Sim/stsafe-a120-sim/src/handlers: one function for each command, from its body to the
-- response frame. An index that stands behind a test in the same handler is total here.
pub mod Safety
mod Pairs
pub mod Requests
pub mod Keys
use simulators.Common.{
  ℕ, zero, suc, ◌+◌, ◌-◌, ◌*◌, Bool, true, false, not, ◌&&◌, Option, none, some, List, [], ◌∷◌,
  ◌++◌, length, get_or, take, drop, ltb, ◌==◌, if◌then◌else◌,
}
use simulators.Common.Bytes.{be16}
use simulators.Common.Maps.{lookup, insert}
use simulators.Common.Slices.{slice, same_bytes}
use simulators.Stsafe.Crypto.{P256, Entropy}
use simulators.Stsafe.Frame.{build_response, build_error}
use simulators.Stsafe.Store.{Device, EccSlot, nist_p256, same_curve}

-- `mod status` of frame.rs.
abbrev pub ok_status : ℕ
ok_status = 0x00

abbrev pub length_error : ℕ
length_error = 0x02

abbrev pub unexpected_error : ℕ
unexpected_error = 0x03

abbrev pub invalid_parameter : ℕ
invalid_parameter = 0x09

abbrev pub command_code_not_supported : ℕ
command_code_not_supported = 0x0E

abbrev pub crc_error : ℕ
crc_error = 0x16

abbrev pub nist_p256_curve_id : List ℕ
nist_p256_curve_id = 0x00 ∷ 0x08 ∷ 0x2A ∷ 0x86 ∷ 0x48 ∷ 0xCE ∷ 0x3D ∷ 0x03 ∷ 0x01 ∷ 0x07 ∷ []

unfoldable pub is_nist_p256 : List ℕ → Bool
unfolding same_bytes
is_nist_p256 curve_id = same_bytes curve_id nist_p256_curve_id

abbrev pub point_representation_uncompressed : ℕ
point_representation_uncompressed = 0x04

-- `u16::from_be_bytes([body[i], body[i + 1]])`.
abbrev pub word_at : List ℕ → ℕ → ℕ
word_at body i = be16 (get_or body i 0) (get_or body (i + 1) 0)

-- echo.rs.
unfoldable pub echo : List ℕ → List ℕ
echo body = build_response ok_status body

-- query.rs.
unfoldable pub query : Device → List ℕ → List ℕ
query d [] = build_error length_error
query d (tag ∷ rest) =
    if tag == 0x11
    then build_response ok_status (0x00 ∷ 0x08 ∷ d.serial_number)
    else build_error invalid_parameter

-- read.rs.
unfoldable pub read : Device → List ℕ → List ℕ
unfolding slice
read d body =
    let p : ℕ = if length body == 1 + 4 + 2 + 2 then 1 + 4 else 2 in
    let offset = word_at body p in
    let len = word_at body (p + 2) in
    if ltb (length body) (1 + 1 + 2 + 2)
    then build_error length_error
    else elim (lookup (get_or body 1 0) d.data_zones) [
      | none ↦ build_error invalid_parameter
      | some zone ↦
          if ltb (length zone.bytes) (offset + len)
          then build_error invalid_parameter
          else build_response ok_status (slice offset (offset + len) zone.bytes)
    ]

-- `read_xy` of verify.rs: two coordinates behind their lengths, and the bytes that they take.
unfoldable pub read_xy : List ℕ → Option (List ℕ × ℕ)
unfolding slice
read_xy buf =
    if ltb (length buf) (2 + 32 + 2 + 32)
    then none
    else (if not (word_at buf 0 == 32)
        then none
        else (if not (word_at buf 34 == 32)
            then none
            else some (slice 2 34 buf ++ slice 36 68 buf, 68)))

unfoldable pub read_rs : List ℕ → Option (List ℕ × ℕ)
unfolding read_xy
read_rs buf = read_xy buf

-- Two values of 32 bytes behind their lengths.
unfoldable pub pair_body : List ℕ → List ℕ → List ℕ
pair_body x y = 0x00 ∷ 32 ∷ (x ++ (0x00 ∷ 32 ∷ y))

module _ (p : P256) where
  -- random.rs.
  unfoldable pub random : Entropy p → List ℕ → List ℕ
  random e body =
      let size = get_or body 1 0 in
      if not (length body == 2)
      then build_error length_error
      else (if size == 0
          then build_error invalid_parameter
          else build_response ok_status (e.bytes size))

  -- keypair.rs.
  unfoldable pub keypair : Entropy p → Device → List ℕ → Device × List ℕ
  unfolding insert slice pair_body
  keypair e d body =
      let slot = get_or body 1 0 in
      let pub_bytes = p.to_encoded_point (p.signing_from e.key) in
      if ltb (length body) (6 + length nist_p256_curve_id)
      then (d, build_error length_error)
      else (if not (is_nist_p256 (drop 6 body))
          then (d, build_error invalid_parameter)
          else (if not (length pub_bytes == 65) then (d, build_error unexpected_error) else (
            record d {
              ecc_slots =
                  insert slot (record { curve = nist_p256; private_key = p.to_bytes e.key })
                    d.ecc_slots;
            },
            build_response ok_status (
                point_representation_uncompressed
                ∷ pair_body (slice 1 33 pub_bytes) (slice 33 65 pub_bytes)),
          )))

  -- sign.rs, behind the key.
  unfoldable pub sign_with : Option p.SigningKey → List ℕ → List ℕ
  unfolding slice pair_body
  sign_with none msg = build_error invalid_parameter
  sign_with (some signing) msg =
      if not (length msg == 32)
      then build_error invalid_parameter
      else elim (p.sign_prehash signing msg) [
        | none ↦ build_error unexpected_error
        | some signature ↦
            let bytes = p.signature_bytes signature in
            build_response ok_status (pair_body (slice 0 32 bytes) (slice 32 (length bytes) bytes))
      ]

  unfoldable pub sign : Device → List ℕ → List ℕ
  unfolding slice sign_with
  sign d body =
      let msg_len = word_at body 1 in
      if ltb (length body) (1 + 2)
      then build_error length_error
      else (if not (length body == 3 + msg_len)
          then build_error length_error
          else elim (lookup (get_or body 0 0) d.ecc_slots) [
            | none ↦ build_error invalid_parameter
            | some entry ↦
                if not (same_curve entry.curve nist_p256)
                then build_error invalid_parameter
                else (if not (length entry.private_key == 32)
                    then build_error invalid_parameter
                    else sign_with (p.signing_from_slice entry.private_key)
                        (slice 3 (3 + msg_len) body))
          ])

  -- verify.rs, behind the point and the signature.
  unfoldable pub verify_with : Option p.PublicKey → List ℕ → List ℕ → List ℕ
  verify_with none sig_rs digest = build_response ok_status (0 ∷ [])
  verify_with (some pk) sig_rs digest = elim (p.signature_from_slice sig_rs) [
    | none ↦ build_response ok_status (0 ∷ [])
    | some signature ↦
        build_response ok_status
          ((if p.verify_prehash (p.verifying_from pk) digest signature then 1 else 0) ∷ [])
  ]

  -- The message, when the key and the signature are read; `at` is its offset.
  unfoldable pub verify_message : List ℕ → List ℕ → List ℕ → ℕ → List ℕ
  unfolding slice verify_with
  verify_message body pubkey sig_rs at =
      let msg_len = word_at body at in
      if ltb (length body) (at + 2)
      then build_error length_error
      else (if ltb (length body) (at + 2 + msg_len)
          then build_error length_error
          else (if not (msg_len == 32)
              then build_error invalid_parameter
              else verify_with
                  (p.from_encoded_point (
                    p.from_affine_coordinates (slice 0 32 pubkey)
                      (slice 32 (length pubkey) pubkey)))
                  sig_rs (slice (at + 2) (at + 2 + msg_len) body)))

  unfoldable pub verify : List ℕ → List ℕ
  unfolding slice verify_message
  verify body =
      if ltb (length body) 1
      then build_error length_error
      else (if ltb (length body) (1 + 10)
          then build_error length_error
          else (if not (is_nist_p256 (slice 1 11 body))
              then build_error invalid_parameter
              else (if ltb (length body) (11 + 1)
                  then build_error length_error
                  else (if not (get_or body 11 0 == point_representation_uncompressed)
                      then build_error invalid_parameter
                      else elim (read_xy (drop 12 body)) [
                        | none ↦ build_error length_error
                        | some (pubkey, used) ↦ elim (read_rs (drop (12 + used) body)) [
                          | none ↦ build_error length_error
                          | some (sig_rs, used') ↦
                              verify_message body pubkey sig_rs (12 + used + used')
                        ]
                      ]))))

  -- ecdh.rs, behind the keys.
  unfoldable pub shared_with : Option p.SecretKey → Option p.PublicKey → List ℕ
  shared_with none peer = build_error invalid_parameter
  shared_with (some secret) none = build_error invalid_parameter
  shared_with (some secret) (some peer) =
      let raw = p.diffie_hellman secret peer in
      if not (length raw == 32)
      then build_error unexpected_error
      else build_response ok_status (0x00 ∷ 32 ∷ raw)

  unfoldable pub ecdh : Device → List ℕ → List ℕ
  unfolding slice shared_with
  ecdh d body =
      if ltb (length body) (1 + 1 + 2 + 32 + 2 + 32)
      then build_error length_error
      else (if not (get_or body 1 0 == point_representation_uncompressed)
          then build_error invalid_parameter
          else (if not (word_at body 2 == 32)
              then build_error invalid_parameter
              else (if not (word_at body 36 == 32)
                  then build_error invalid_parameter
                  else elim (lookup (get_or body 0 0) d.ecc_slots) [
                    | none ↦ build_error invalid_parameter
                    | some entry ↦
                        if not (same_curve entry.curve nist_p256)
                        then build_error invalid_parameter
                        else (if not (length entry.private_key == 32)
                            then build_error invalid_parameter
                            else shared_with (p.secret_from_slice entry.private_key) (
                                p.from_encoded_point
                                  (p.from_affine_coordinates (slice 4 36 body) (slice 38 70 body))))
                  ])))
