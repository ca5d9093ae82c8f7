-- ===== src/Stsafe/Store.antt =====
-- STSAFEA120Sim/stsafe-a120-sim/src/object_store and session.rs: the keys and the zones of a device.
use simulators.Common.{ℕ, Bool, true, Option, none, List, [], ◌∷◌, ◌++◌, length}
use simulators.Common.Bytes.{hi, lo}
use simulators.Common.Maps.{insert}
use simulators.Stsafe.Crypto.{P256}

-- There is one curve, so that two kinds are never different.
pub data CurveKind : Type 0 where
  nist_p256 : CurveKind

unfoldable pub same_curve : CurveKind → CurveKind → Bool
same_curve nist_p256 nist_p256 = true

unfoldable pub coordinate_size : CurveKind → ℕ
coordinate_size nist_p256 = 32

unfoldable pub signature_size : CurveKind → ℕ
signature_size nist_p256 = 64

pub record EccSlot : Type 0 where
  pub curve : CurveKind
  pub private_key : List ℕ

-- `bytes` is the source's `data`.
pub record DataZone : Type 0 where
  pub bytes : List ℕ

pub record Device : Type 0 where
  pub serial_number : List ℕ
  pub ecc_slots : List (ℕ × EccSlot)
  pub data_zones : List (ℕ × DataZone)

abbrev pub device_cert_zone : ℕ
device_cert_zone = 0

abbrev pub device_key_slot : ℕ
device_key_slot = 0

unfoldable pub build_minimal_device_certificate : List ℕ → List ℕ → List ℕ
build_minimal_device_certificate serial pub_bytes =
    let inner =
      0x80 ∷ lo (length serial) ∷ (serial ++ (0x81 ∷ lo (length pub_bytes) ∷ pub_bytes)) in
    0x30 ∷ 0x82 ∷ hi (length inner) ∷ lo (length inner) ∷ inner

module _ (p : P256) where
  -- The serial number and the key are random.
  unfoldable pub fresh_device : List ℕ → p.SecretKey → Device
  unfolding build_minimal_device_certificate insert
  fresh_device serial secret =
      let pub_bytes = p.to_encoded_point (p.signing_from secret) in
      record {
        serial_number = serial;
        ecc_slots =
            insert device_key_slot (record { curve = nist_p256; private_key = p.to_bytes secret })
              [];
        data_zones =
            insert device_cert_zone
              (record { bytes = build_minimal_device_certificate serial pub_bytes }) [];
      }

  pub record Session : Type 0 where
    pub ecdhe_private : Option p.SecretKey

  unfoldable pub new_session : Session
  new_session = record { ecdhe_private = none }

  unfoldable pub reset : Session → Session
  reset s = record { ecdhe_private = none }
