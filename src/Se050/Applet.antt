-- ===== src/Se050/Applet.antt =====
-- SE050Sim/se050-sim/src/applet.rs: the parts that the simulator presents itself as.
use simulators.Common.{
  ℕ, ◌/◌, ◌%◌, Bool, true, false, not, Option, none, some, List, [], ◌∷◌, ◌==◌, if◌then◌else◌,
}
use simulators.Common.Bytes.{hi, lo}

pub data AppletVersion : Type 0 where
  v3_1_1 v7_2_0 v7_2_0e v7_2_22f : AppletVersion

-- The test for the oldest part, `self == AppletVersion::V3_1_1`.
unfoldable pub is_v3_1_1 : AppletVersion → Bool
is_v3_1_1 v3_1_1 = true
is_v3_1_1 v7_2_0 = false
is_v3_1_1 v7_2_0e = false
is_v3_1_1 v7_2_22f = false

unfoldable pub version_bytes : AppletVersion → List ℕ
version_bytes v3_1_1 = 0x03 ∷ 0x01 ∷ 0x01 ∷ 0x6F ∷ 0xFF ∷ 0x01 ∷ 0x0B ∷ []
version_bytes v7_2_0 = 0x07 ∷ 0x02 ∷ 0x00 ∷ 0x3F ∷ 0xFF ∷ 0xFF ∷ 0xFF ∷ []
version_bytes v7_2_0e = 0x07 ∷ 0x02 ∷ 0x00 ∷ 0x3F ∷ 0x9F ∷ 0xFF ∷ 0xFF ∷ []
version_bytes v7_2_22f = 0x07 ∷ 0x02 ∷ 0x16 ∷ 0x26 ∷ 0xF2 ∷ 0xFF ∷ 0xFF ∷ []

unfoldable pub get_random_max : AppletVersion → ℕ
get_random_max v3_1_1 = 880
get_random_max v7_2_0 = 1018
get_random_max v7_2_0e = 1018
get_random_max v7_2_22f = 1003

-- The test for the SE052F, which three traits of the parts are made of.
abbrev is_52f : AppletVersion → Bool
is_52f v3_1_1 = false
is_52f v7_2_0 = false
is_52f v7_2_0e = false
is_52f v7_2_22f = true

unfoldable pub supports_25519 : AppletVersion → Bool
supports_25519 v = not (is_52f v)

unfoldable pub rsa_min_key_bits : AppletVersion → ℕ
rsa_min_key_bits v = if is_52f v then 2048 else 1024

unfoldable pub supports_rsa_public_import : AppletVersion → Bool
supports_rsa_public_import v = not (is_52f v)

unfoldable pub supports_rsa : AppletVersion → Bool
supports_rsa v3_1_1 = true
supports_rsa v7_2_0 = true
supports_rsa v7_2_0e = false
supports_rsa v7_2_22f = true

unfoldable pub is_v7 : AppletVersion → Bool
unfolding is_v3_1_1
is_v7 v = not (is_v3_1_1 v)

unfoldable pub free_memory_is_u32 : AppletVersion → Bool
free_memory_is_u32 v = is_52f v

-- What is free: persistent, transient until reset, transient until deselection.
unfoldable pub free_memory : AppletVersion → ℕ × ℕ × ℕ
free_memory v3_1_1 = (31304, 575, 560)
free_memory v7_2_0 = (21000, 605, 592)
free_memory v7_2_0e = (32767, 796, 784)
free_memory v7_2_22f = (86336, 1157, 1152)

unfoldable pub free_memory_bytes : AppletVersion → ℕ → Option (List ℕ)
unfolding free_memory free_memory_is_u32
free_memory_bytes v memory_type =
    let (persistent, transient_reset, transient_deselect) = free_memory v in
    let encode = λ (value : ℕ).
      if free_memory_is_u32 v
      then (value / 16777216 % 256 ∷ value / 65536 % 256 ∷ hi value ∷ lo value ∷ [])
      else (hi value ∷ lo value ∷ []) in
    if memory_type == 0x01
    then some (encode persistent)
    else (if memory_type == 0x02
        then some (encode transient_reset)
        else (if memory_type == 0x03 then some (encode transient_deselect) else none))
