-- ===== src/Se050/Tlv.antt =====
-- SE050Sim/se050-sim/src/tlv.rs: tag, length, value.
pub mod RoundTrip
use simulators.Common.{
  ℕ, zero, suc, ◌+◌, ◌-◌, ◌/◌, ◌%◌, Option, none, some, List, [], ◌∷◌, ◌++◌, length, get_or, take,
  drop, ltb, leb, ◌==◌, if◌then◌else◌,
}
use simulators.Common.Bytes.{hi, lo, be16}
use simulators.Common.Results.{Result, ok, err}

pub record Tlv : Type 0 where
  pub tag : ℕ
  pub value : List ℕ

pub data TlvError : Type 0 where
  too_short invalid_length : TlvError

-- `Tlv::encode`.
unfoldable pub encode : Tlv → List ℕ
encode t =
    let len = length t.value in
    t.tag ∷ (if ltb len 128 then lo len ∷ t.value else 0x82 ∷ hi len ∷ lo len ∷ t.value)

unfoldable pub encode_tlvs : List Tlv → List ℕ
unfolding encode
encode_tlvs [] = []
encode_tlvs (t ∷ ts) = encode t ++ encode_tlvs ts

-- The header of an entry: the length of the value, and of the header itself.
unfoldable pub header : List ℕ → Result (ℕ × ℕ) TlvError
header bytes =
    if leb (length bytes) 1
    then err too_short
    else (if get_or bytes 1 0 == 0x82
        then (if ltb (length bytes) 4
            then err too_short
            else ok (be16 (get_or bytes 2 0) (get_or bytes 3 0), 4))
        else (if ltb (get_or bytes 1 0) 0x80 then ok (get_or bytes 1 0, 2) else err invalid_length))

-- An entry, and what is behind it.
unfoldable pub entry : List ℕ → Result (ℕ × ℕ) TlvError → Result (Tlv × List ℕ) TlvError
entry bytes (err e) = err e
entry bytes (ok (len, header_size)) =
    if ltb (length bytes) (header_size + len)
    then err too_short
    else ok (
      record { tag = get_or bytes 0 0; value = take len (drop header_size bytes) },
      drop (header_size + len) bytes,
    )

pub data Parsed : Type 0 where
  done : Result (List Tlv) TlvError → Parsed
  out_of_fuel : Parsed

-- `parse_tlvs` from an offset: `bytes` is what is left behind the offset, `result` what is parsed.
unfoldable pub parse_from : ℕ → List ℕ → List Tlv → Parsed
unfolding entry header
parse_from fuel [] result = done (ok result)
parse_from zero (b ∷ bytes) result = out_of_fuel
parse_from (suc fuel) (b ∷ bytes) result = elim (entry (b ∷ bytes) (header (b ∷ bytes))) [
  | err e ↦ done (err e)
  | ok (t, rest) ↦ parse_from fuel rest (result ++ (t ∷ []))
]

-- Each round takes two bytes at least.
unfoldable pub parse_tlvs : List ℕ → Parsed
unfolding parse_from
parse_tlvs bytes = parse_from (length bytes) bytes []

unfoldable pub find_tlv : List Tlv → ℕ → Option Tlv
find_tlv [] tag = none
find_tlv (t ∷ ts) tag = if t.tag == tag then some t else find_tlv ts tag

unfoldable pub find_tlvs : List Tlv → ℕ → List Tlv
find_tlvs [] tag = []
find_tlvs (t ∷ ts) tag = let rest = find_tlvs ts tag in if t.tag == tag then t ∷ rest else rest
