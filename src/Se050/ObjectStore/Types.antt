-- ===== src/Se050/ObjectStore/Types.antt =====
-- SE050Sim/se050-sim/src/object_store/types.rs: curves, secure objects, and what is read of them.
use simulators.Common.{
  ℕ, ◌/◌, Bool, true, false, Option, none, some, List, length, ◌==◌, if◌then◌else◌,
}

pub record ObjectMetadata : Type 0 where
  pub policy : Option (List ℕ)
  pub origin : ℕ

pub data EcCurve : Type 0 where
  nist_p192 nist_p224 nist_p256 nist_p384 nist_p521 ed25519 curve25519 : EcCurve

unfoldable pub from_se050_byte : ℕ → Option EcCurve
from_se050_byte b =
    if b == 0x01
    then some nist_p192
    else (if b == 0x02
        then some nist_p224
        else (if b == 0x03
            then some nist_p256
            else (if b == 0x04
                then some nist_p384
                else (if b == 0x05
                    then some nist_p521
                    else (if b == 0x40
                        then some ed25519
                        else (if b == 0x41 then some curve25519 else none))))))

unfoldable pub scalar_len : EcCurve → ℕ
scalar_len nist_p192 = 24
scalar_len nist_p224 = 28
scalar_len nist_p256 = 32
scalar_len nist_p384 = 48
scalar_len nist_p521 = 66
scalar_len ed25519 = 32
scalar_len curve25519 = 32

unfoldable pub needs_curve_object : EcCurve → Bool
needs_curve_object nist_p192 = true
needs_curve_object nist_p224 = true
needs_curve_object nist_p256 = true
needs_curve_object nist_p384 = true
needs_curve_object nist_p521 = true
needs_curve_object ed25519 = false
needs_curve_object curve25519 = false

pub record RsaComponents : Type 0 where
  pub n : Option (List ℕ)
  pub e : Option (List ℕ)
  pub d : Option (List ℕ)
  pub p : Option (List ℕ)
  pub q : Option (List ℕ)
  pub dp : Option (List ℕ)
  pub dq : Option (List ℕ)
  pub qinv : Option (List ℕ)

-- The variants with the fields in the source's order.
pub data SecureObject : Type 0 where
  ec_key_pair : EcCurve → List ℕ → List ℕ → SecureObject
  ec_public_key : EcCurve → List ℕ → SecureObject
  rsa_key_pair : ℕ → List ℕ → RsaComponents → SecureObject
  aes_key : List ℕ → SecureObject
  binary : List ℕ → SecureObject
  user_id : List ℕ → SecureObject
  counter : ℕ → ℕ → SecureObject
  hmac_key : List ℕ → Option ℕ → SecureObject

unfoldable pub pair_code : EcCurve → ℕ
pair_code nist_p192 = 0x21
pair_code nist_p224 = 0x25
pair_code nist_p256 = 0x29
pair_code nist_p384 = 0x2D
pair_code nist_p521 = 0x31
pair_code ed25519 = 0x65
pair_code curve25519 = 0x69

unfoldable pub public_code : EcCurve → ℕ
public_code nist_p192 = 0x22
public_code nist_p224 = 0x26
public_code nist_p256 = 0x2A
public_code nist_p384 = 0x2E
public_code nist_p521 = 0x32
public_code ed25519 = 0x67
public_code curve25519 = 0x6B

unfoldable pub type_code : SecureObject → Bool → ℕ
unfolding pair_code public_code
type_code (ec_key_pair curve private public) v7 = if v7 then pair_code curve else 0x01
type_code (ec_public_key curve public) v7 = if v7 then public_code curve else 0x03
type_code (rsa_key_pair bits der staged) v7 = 0x04
type_code (aes_key key) v7 = 0x09
type_code (binary bytes) v7 = 0x0B
type_code (user_id value) v7 = 0x0C
type_code (counter value size) v7 = 0x0D
type_code (hmac_key key policy) v7 = 0x11

unfoldable pub curve_byte : EcCurve → ℕ
curve_byte nist_p192 = 0x01
curve_byte nist_p224 = 0x02
curve_byte nist_p256 = 0x03
curve_byte nist_p384 = 0x04
curve_byte nist_p521 = 0x05
curve_byte ed25519 = 0x40
curve_byte curve25519 = 0x41

unfoldable pub object_curve : SecureObject → Option EcCurve
object_curve (ec_key_pair curve private public) = some curve
object_curve (ec_public_key curve public) = some curve
object_curve _ = none

unfoldable pub curve_id : SecureObject → Option ℕ
unfolding object_curve curve_byte
curve_id obj = elim (object_curve obj) [ none ↦ none | some curve ↦ some (curve_byte curve) ]

unfoldable pub data_size : SecureObject → ℕ
unfolding scalar_len
data_size (ec_key_pair curve private public) = scalar_len curve
data_size (ec_public_key curve public) = scalar_len curve
data_size (rsa_key_pair bits der staged) = bits / 8
data_size (aes_key key) = length key
data_size (binary bytes) = length bytes
data_size (user_id value) = length value
data_size (counter value size) = size
data_size (hmac_key key policy) = length key
