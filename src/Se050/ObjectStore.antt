-- ===== src/Se050/ObjectStore.antt =====
-- SE050Sim/se050-sim/src/object_store: the objects of the applet, their metadata, the curves, and the
-- settings of the platform. An identifier of four bytes is its big-endian number. Saving to the JSON
-- file is I/O whose failure is ignored: it changes nothing here.
pub mod Types
pub mod History
pub mod Curves
use simulators.Common.{
  ℕ, bit_and, bit_or, Bool, true, false, not, Option, none, some, List, [], ◌∷◌, length, ◌==◌,
  if◌then◌else◌,
}
use simulators.Common.Maps.{lookup, insert, erase}
use simulators.Se050.Applet.{AppletVersion}
use simulators.Se050.Apdu.{ParsedApdu, ApduResponse}
use simulators.Se050.ObjectStore.Types.{ObjectMetadata, SecureObject}
use simulators.Se050.Policy.{ar_header_union}
use simulators.Se050.Responder.{Card}
use simulators.Se050.Scp03.Keys.{Scp03Config}

abbrev pub curve_params_complete : ℕ
curve_params_complete = 0x1F

-- `Digest`, `Cipher` and `Mac`, with the fields in the source's order.
pub data CryptoObjectState : Type 0 where
  digest : ℕ → List ℕ → CryptoObjectState
  cipher : Bool → ℕ → ℕ → List ℕ → List ℕ → CryptoObjectState
  mac : ℕ → Bool → ℕ → List ℕ → CryptoObjectState

pub record ObjectStore : Type 0 where
  pub objects : List (ℕ × SecureObject)
  pub all_metadata : List (ℕ × ObjectMetadata)
  pub ec_curves : List (ℕ × ℕ)
  pub crypto_objects : List (ℕ × CryptoObjectState)
  pub crypto_object_types : List (ℕ × (ℕ × ℕ))
  pub required : Bool
  pub platform_scp : Option Scp03Config

unfoldable pub default_curves : List (ℕ × ℕ)
default_curves =
    (0x01, curve_params_complete)
    ∷ (0x02, curve_params_complete)
    ∷ (0x03, curve_params_complete)
    ∷ (0x04, curve_params_complete)
    ∷ (0x05, curve_params_complete)
    ∷ []

unfoldable pub new_store : ObjectStore
unfolding default_curves
new_store = record {
  objects = [];
  all_metadata = [];
  ec_curves = default_curves;
  crypto_objects = [];
  crypto_object_types = [];
  required = false;
  platform_scp = none;
}

unfoldable pub insert_object : ℕ → SecureObject → ObjectStore → ObjectStore
unfolding insert
insert_object id obj s = record s { objects = insert id obj s.objects }

unfoldable pub get : ObjectStore → ℕ → Option SecureObject
unfolding lookup
get s id = lookup id s.objects

-- `m.entry(id).or_insert(v)`.
unfoldable pub set_creation_metadata : ℕ → Option (List ℕ) → ℕ → ObjectStore → ObjectStore
unfolding insert lookup
set_creation_metadata id policy origin s = elim (lookup id s.all_metadata) [
  | some old ↦ s
  | none ↦ record s {
    all_metadata = insert id (record { policy = policy; origin = origin }) s.all_metadata;
  }
]

unfoldable pub metadata : ObjectStore → ℕ → Option ObjectMetadata
unfolding lookup
metadata s id = lookup id s.all_metadata

-- The policy's answer: without a policy all is allowed, and a policy that is not well-formed, like one
-- that omits the permission, allows nothing. `none` is the fuel of the union, which is enough.
unfoldable pub allows : Option ObjectMetadata → ℕ → Option Bool
unfolding ar_header_union
allows none permission = some true
allows (some m) permission = elim m.policy [
  | none ↦ some true
  | some raw ↦ elim (ar_header_union raw) [
    | none ↦ none
    | some none ↦ some false
    | some (some header) ↦ some (not (bit_and header permission == 0))
  ]
]

unfoldable pub policy_allows : ObjectStore → ℕ → ℕ → Option Bool
unfolding allows metadata
policy_allows s id permission = allows (metadata s id) permission

-- `remove`: the store, and the object that was there.
unfoldable pub remove : ℕ → ObjectStore → ObjectStore × Option SecureObject
unfolding lookup erase
remove id s = elim (lookup id s.objects) [
  | none ↦ (s, none)
  | some obj ↦
      (record s { objects = erase id s.objects; all_metadata = erase id s.all_metadata }, some obj)
]

unfoldable pub is_some {ℓ} : {A : Type ℓ} → Option A → Bool
is_some none = false
is_some (some a) = true

unfoldable pub exists : ObjectStore → ℕ → Bool
unfolding is_some lookup
exists s id = is_some (lookup id s.objects)

unfoldable pub clear : ObjectStore → ObjectStore
unfolding default_curves
clear s = record s {
  objects = [];
  all_metadata = [];
  ec_curves = default_curves;
  crypto_objects = [];
  crypto_object_types = [];
}

unfoldable pub curve_exists : ObjectStore → ℕ → Bool
unfolding is_some lookup
curve_exists s curve_id = is_some (lookup curve_id s.ec_curves)

unfoldable pub is_complete : Option ℕ → Bool
is_complete none = false
is_complete (some mask) = mask == curve_params_complete

unfoldable pub curve_ready : ObjectStore → ℕ → Bool
unfolding is_complete lookup
curve_ready s curve_id = is_complete (lookup curve_id s.ec_curves)

-- `curve_create` and `curve_reset`, which do the same.
unfoldable pub curve_create : ℕ → ObjectStore → ObjectStore
unfolding insert
curve_create curve_id s = record s { ec_curves = insert curve_id 0 s.ec_curves }

unfoldable pub curve_add_param : ℕ → ℕ → ObjectStore → ObjectStore
unfolding insert lookup
curve_add_param curve_id param s = elim (lookup curve_id s.ec_curves) [
  | none ↦ s
  | some mask ↦ record s {
    ec_curves = insert curve_id (bit_or mask (bit_and param curve_params_complete)) s.ec_curves;
  }
]

unfoldable pub curve_delete : ℕ → ObjectStore → ObjectStore × Bool
unfolding is_some lookup erase
curve_delete curve_id s = elim (lookup curve_id s.ec_curves) [
  | none ↦ (s, false)
  | some mask ↦ (record s { ec_curves = erase curve_id s.ec_curves }, true)
]

unfoldable pub set_scp_required : Bool → ObjectStore → ObjectStore
set_scp_required required s = record s { required = required }

-- `from_env` is what the environment configures for a part.
unfoldable pub platform_scp_config :
    (AppletVersion → Scp03Config) → ObjectStore → AppletVersion → Scp03Config
platform_scp_config from_env s version = elim s.platform_scp [
  | none ↦ from_env version
  | some config ↦ config
]

unfoldable pub set_platform_scp_config : ObjectStore → Scp03Config → ObjectStore
set_platform_scp_config s config = record s { platform_scp = some config }

-- The store behind the responder, for a dispatch of commands.
abbrev pub store_card :
    (ParsedApdu → ObjectStore → Bool → ObjectStore × ApduResponse)
    → (AppletVersion → Scp03Config)
    → Card
store_card dispatch from_env = record {
  Store = ObjectStore;
  dispatch = dispatch;
  platform_scp_config = platform_scp_config from_env;
  set_platform_scp_config = set_platform_scp_config;
  scp_required = λ s. s.required;
}
