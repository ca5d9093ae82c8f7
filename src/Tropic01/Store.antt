-- ===== src/Tropic01/Store.antt =====
-- TROPIC01Sim/tropic01-sim/src/object_store/types.rs: the persistent state of a device. A BTreeMap is
-- an association list. The format's version, a matter of the file, is left out.
use simulators.Common.{ℕ, ◌==◌, if◌then◌else◌, Option, none, some, List, [], ◌∷◌, bit_and}
use simulators.Tropic01.Personality.{Personality}

abbrev pub config_registers : ℕ
config_registers = 128

pub data CurveKind : Type 0 where
  p256 ed25519 : CurveKind

unfoldable pub curve_wire_id : CurveKind → ℕ
curve_wire_id p256 = 1
curve_wire_id ed25519 = 2

unfoldable pub from_wire_id : ℕ → Option CurveKind
from_wire_id v = if v == 1 then some p256 else (if v == 2 then some ed25519 else none)

pub data KeyOrigin : Type 0 where
  generated stored : KeyOrigin

unfoldable pub origin_wire_id : KeyOrigin → ℕ
origin_wire_id generated = 1
origin_wire_id stored = 2

pub record EccSlot : Type 0 where
  pub curve : CurveKind
  pub origin : KeyOrigin
  pub private_key : List ℕ

pub data PairingState : Type 0 where
  written invalidated : PairingState

-- A slot that is absent is blank.
pub record PairingSlot : Type 0 where
  pub public_key : List ℕ
  pub state : PairingState

pub record Device : Type 0 where
  pub personality : Personality
  pub chip_id : List ℕ
  pub st_priv : List ℕ
  pub st_pub : List ℕ
  pub cert_store : List ℕ
  pub pairing_slots : List (ℕ × PairingSlot)
  pub r_config : List ℕ
  pub i_config : List ℕ
  pub ecc_slots : List (ℕ × EccSlot)
  pub r_mem_slots : List (ℕ × List ℕ)
  pub mcounters : List (ℕ × ℕ)
  pub macandd_slots : List (ℕ × List ℕ)
  pub macandd_keys : List ℕ × List ℕ

-- `zip` and `map` of effective_config.
unfoldable pub and_registers : List ℕ → List ℕ → List ℕ
and_registers (r ∷ rs) (i ∷ is) = bit_and r i ∷ and_registers rs is
and_registers [] is = []
and_registers (r ∷ rs) [] = []

unfoldable pub effective_config : Device → List ℕ
unfolding and_registers
effective_config dev = and_registers dev.r_config dev.i_config
