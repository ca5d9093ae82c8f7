-- ===== src/Se050/Tests.antt =====
-- The SE050 theorems at concrete inputs.
use simulators.Common.{ℕ, ◌<◌, ◌%◌, ◌≡◌, refl, some, List, [], ◌∷◌, arith, length, replicate}
use simulators.Common.Results.{ok, err}
use simulators.Se050.Tlv.{Tlv, done, encode_tlvs, parse_tlvs, find_tlv}
use simulators.Se050.Tlv.RoundTrip.{parse_tlvs-encode_tlvs}
use simulators.Se050.Policy.Entries.{PolicyEntry, union_from}
use simulators.Se050.T1.{build_response_frames}
use simulators.Se050.T1.Responses.{receive, receive-build_response_frames}
use simulators.Se050.Apdu.{ParsedApdu, invalid_length, parse}
use simulators.Se050.Apdu.Cases.{parse-extended_le}

-- A stand-in for the CRC of the right size.
abbrev toy_crc : List ℕ → ℕ
toy_crc m = length m % 65536

toy_crc_word : (m : List ℕ) → toy_crc m < 65536
toy_crc_word m = omega arith

-- A response of 600 bytes, which takes three frames.
receive-build_response_frames_example :
    (chunks : List (List ℕ)) × (next : ℕ) × (build_response_frames toy_crc 0xA5 1 (replicate 600 7)
      ≡ some (chunks, next))
    × (receive toy_crc 0xA5 1 chunks ≡ some (replicate 600 7, next))
receive-build_response_frames_example =
    receive-build_response_frames toy_crc 0xA5 toy_crc_word 1 (replicate 600 7) (omega arith)

-- An entry with the short and one with the long form of the length.
abbrev two_entries : List Tlv
two_entries =
    record { tag = 0x41; value = 1 ∷ 2 ∷ 3 ∷ [] }
    ∷ record { tag = 0x42; value = replicate 130 7 }
    ∷ []

parse_tlvs-encode_tlvs_example : parse_tlvs (encode_tlvs two_entries) ≡ done (ok two_entries)
parse_tlvs-encode_tlvs_example = parse_tlvs-encode_tlvs two_entries (omega arith, (omega arith, tt))

find_tlv_test : find_tlv two_entries 0x41 ≡ some (record { tag = 0x41; value = 1 ∷ 2 ∷ 3 ∷ [] })
unfolding find_tlv
find_tlv_test = refl

-- A write of three bytes that wants an answer.
abbrev write_apdu : ParsedApdu
write_apdu = record {
  cla = 0x80;
  ins = 0x01;
  p1 = 0x06;
  p2 = 0x00;
  payload = 9 ∷ 8 ∷ 7 ∷ [];
  le = some 255;
}

-- A write of 300 bytes that wants an answer of 1024.
abbrev long_apdu : ParsedApdu
long_apdu = record {
  cla = 0x80;
  ins = 0x01;
  p1 = 0x06;
  p2 = 0x00;
  payload = replicate 300 5;
  le = some 1024;
}

parse-extended_le_example :
    parse (0x80 ∷ 0x02 ∷ 0x00 ∷ 0x00 ∷ 0x00 ∷ 0x01 ∷ 0x00 ∷ []) ≡ err invalid_length
parse-extended_le_example = parse-extended_le 0x80 0x02 0x00 0x00 256 (omega arith) (omega arith)

-- An entry that allows reads, and one that allows writes, with an extension.
abbrev read_entry : PolicyEntry
read_entry = record { auth_id = 0; header = 0x00200000; extension = [] }

abbrev write_entry : PolicyEntry
write_entry = record { auth_id = 0x7DA00001; header = 0x00100000; extension = 1 ∷ 2 ∷ [] }

union_run : union_from 0 (read_entry ∷ write_entry ∷ []) ≡ 0x00300000
unfolding union_from
union_run = refl

-- A policy of one entry that allows reads.
abbrev policy_entries : List Tlv
policy_entries =
    record { tag = 0x41; value = 1 ∷ [] }
    ∷ record { tag = 0x11; value = 8 ∷ 0 ∷ 0 ∷ 0 ∷ 0 ∷ 0x00 ∷ 0x20 ∷ 0x00 ∷ 0x00 ∷ [] }
    ∷ []
