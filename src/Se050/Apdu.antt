-- ===== src/Se050/Apdu.antt =====
-- SE050Sim/se050-sim/src/apdu.rs: command APDUs of ISO 7816-4, and response APDUs.
pub mod Cases
use simulators.Common.{
  ℕ, ◌+◌, ◌-◌, ◌/◌, ◌%◌, bit_and, Bool, ◌&&◌, Option, none, some, List, [], ◌∷◌, ◌++◌, length,
  get_or, ltb, leb, ◌==◌, if◌then◌else◌,
}
use simulators.Common.Bytes.{hi, lo, be16}
use simulators.Common.Results.{Result, ok, err}
use simulators.Common.Slices.{slice}
use simulators.Se050.Tlv.{Tlv, Parsed, done, parse_tlvs, encode_tlvs}

-- `payload` is the source's `data`.
pub record ParsedApdu : Type 0 where
  pub cla : ℕ
  pub ins : ℕ
  pub p1 : ℕ
  pub p2 : ℕ
  pub payload : List ℕ
  pub le : Option ℕ

pub data ApduError : Type 0 where
  too_short invalid_length : ApduError

-- The four header bytes, with a body.
abbrev with_body : List ℕ → List ℕ → Option ℕ → ParsedApdu
with_body raw payload le = record {
  cla = get_or raw 0 0;
  ins = get_or raw 1 0;
  p1 = get_or raw 2 0;
  p2 = get_or raw 3 0;
  payload = payload;
  le = le;
}

-- The extended form: 0x00 and a length of two bytes.
unfoldable pub parse_extended : List ℕ → Result ParsedApdu ApduError
unfolding slice
parse_extended raw =
    let lc = be16 (get_or raw 5 0) (get_or raw 6 0) in
    let data_end = 7 + lc in
    if lc == 0
    then ok (with_body raw [] (some (be16 (get_or raw 5 0) (get_or raw 6 0))))
    else (if ltb (length raw) data_end
        then err invalid_length
        else ok (
            with_body raw (slice 7 data_end raw) (
              if leb (data_end + 2) (length raw)
              then some (be16 (get_or raw data_end 0) (get_or raw (data_end + 1) 0))
              else (if data_end + 1 == length raw then some (get_or raw data_end 0) else none))))

unfoldable pub parse_short : List ℕ → Result ParsedApdu ApduError
unfolding slice
parse_short raw =
    let data_end = 5 + get_or raw 4 0 in
    if ltb (length raw) data_end
    then err invalid_length
    else ok (
        with_body raw (slice 5 data_end raw)
          (if ltb data_end (length raw) then some (get_or raw data_end 0) else none))

-- `ParsedApdu::parse`.
unfoldable pub parse : List ℕ → Result ParsedApdu ApduError
unfolding parse_extended parse_short
parse raw =
    if ltb (length raw) 4
    then err too_short
    else (if length raw == 4
        then ok (with_body raw [] none)
        else (if length raw == 5
            then ok (with_body raw [] (some (get_or raw 4 0)))
            else (if (get_or raw 4 0 == 0x00) && leb 7 (length raw)
                then parse_extended raw
                else parse_short raw)))

-- `ParsedApdu::parse_tlvs`.
unfoldable pub apdu_tlvs : ParsedApdu → Parsed
apdu_tlvs a = elim a.payload [ [] ↦ done (ok []) | b ∷ bytes ↦ parse_tlvs (b ∷ bytes) ]

unfoldable pub base_ins : ParsedApdu → ℕ
base_ins a = bit_and a.ins 0x1F

unfoldable pub cred_type : ParsedApdu → ℕ
cred_type a = bit_and a.p1 0x1F

unfoldable pub key_type : ParsedApdu → ℕ
key_type a = bit_and a.p1 0x60

pub record ApduResponse : Type 0 where
  pub body : List ℕ
  pub sw : ℕ

unfoldable pub success : ApduResponse
success = record { body = []; sw = 0x9000 }

unfoldable pub success_with_data : List ℕ → ApduResponse
success_with_data body = record { body = body; sw = 0x9000 }

unfoldable pub success_with_tlvs : List Tlv → ApduResponse
success_with_tlvs ts = record { body = encode_tlvs ts; sw = 0x9000 }

unfoldable pub error : ℕ → ApduResponse
error sw = record { body = []; sw = sw }

unfoldable pub to_bytes : ApduResponse → List ℕ
to_bytes r = r.body ++ (hi r.sw ∷ lo r.sw ∷ [])
