-- ===== src/Se050/Policy.antt =====
-- SE050Sim/se050-sim/src/policy.rs: the policy that a command attaches to a new object.
pub mod Entries
use simulators.Common.{
  ℕ, zero, suc, ◌+◌, ◌*◌, bit_or, Bool, true, false, ◌||◌, Option, none, some, List, [], ◌∷◌,
  length, get_or, drop, ltb, if◌then◌else◌,
}
use simulators.Common.Results.{Result, ok, err}
use simulators.Se050.Tlv.{Tlv, find_tlv}

abbrev pub tag_policy : ℕ
tag_policy = 0x11

pub data InvalidPolicy : Type 0 where
  invalid_policy : InvalidPolicy

-- `u32::from_be_bytes`.
abbrev pub be32 : ℕ → ℕ → ℕ → ℕ → ℕ
be32 a b c d = a * 16777216 + b * 65536 + c * 256 + d

-- The loop over the entries, on fuel, which is `none` if it runs out.
unfoldable pub union_loop : ℕ → List ℕ → ℕ → Bool → Option (Option ℕ)
union_loop fuel [] header seen = some (if seen then some header else none)
union_loop zero (len ∷ rest) header seen = none
union_loop (suc fuel) (len ∷ rest) header seen =
    let entry_header =
      be32 (get_or rest 4 0) (get_or rest 5 0) (get_or rest 6 0) (get_or rest 7 0) in
    let next = union_loop fuel (drop len rest) (bit_or header entry_header) true in
    if ltb len 8 || ltb (length (len ∷ rest)) (1 + len) then some none else next

unfoldable pub ar_header_union : List ℕ → Option (Option ℕ)
unfolding union_loop
ar_header_union value = union_loop (length value) value 0 false

-- The arm of a policy whose value is not empty.
unfoldable pub checked :
    List ℕ → Option (Option ℕ) → Option (Result (Option (List ℕ)) InvalidPolicy)
checked value none = none
checked value (some none) = some (err invalid_policy)
checked value (some (some header)) = some (ok (some value))

unfoldable pub attached : Option Tlv → Option (Result (Option (List ℕ)) InvalidPolicy)
unfolding checked ar_header_union
attached none = some (ok none)
attached (some t) = elim t.value [
  | [] ↦ some (ok none)
  | b ∷ bytes ↦ checked (b ∷ bytes) (ar_header_union (b ∷ bytes))
]

unfoldable pub creation_policy : List Tlv → Option (Result (Option (List ℕ)) InvalidPolicy)
unfolding attached find_tlv
creation_policy tlvs = attached (find_tlv tlvs tag_policy)
