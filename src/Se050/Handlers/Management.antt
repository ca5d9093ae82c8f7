-- ===== src/Se050/Handlers/Management.antt =====
-- SE050Sim/se050-sim/src/handlers/management.rs and session.rs: the applet's version, memory and
-- random bytes, DeleteAll, SetPlatformSCPRequest, and SELECT.
use simulators.Common.{
  ℕ, Bool, not, ◌||◌, Option, none, some, List, [], ◌∷◌, length, get_or, get_elem?, ltb, ◌==◌,
  if◌then◌else◌, true, false,
}
use simulators.Common.Bytes.{be16}
use simulators.Common.Results.{Result, ok, err, ◌>>=◌}
use simulators.Common.Slices.{same_bytes}
use simulators.Se050.Apdu.{
  ParsedApdu, ApduResponse, success, success_with_data, success_with_tlvs, error,
}
use simulators.Se050.Applet.{AppletVersion, version_bytes, get_random_max, free_memory_bytes}
use simulators.Se050.Handlers.{with_tlvs}
use simulators.Se050.Handlers.Curve.{tag_1, sw_wrong_data}
use simulators.Se050.ObjectStore.{ObjectStore, clear, set_scp_required}
use simulators.Se050.Responder.{selects_ssd}
use simulators.Se050.Scp03.Channel.{sw_conditions_not_satisfied, sw_wrong_p1p2}
use simulators.Se050.Tlv.{Tlv, TlvError, find_tlv}

abbrev pub p2_version : ℕ
p2_version = 0x20

abbrev pub p2_memory : ℕ
p2_memory = 0x22

abbrev pub p2_random : ℕ
p2_random = 0x49

abbrev pub p2_delete_all : ℕ
p2_delete_all = 0x2A

-- `t.value.first().copied()` of the first entry with the tag.
unfoldable pub first_byte : List Tlv → Option ℕ
unfolding find_tlv
first_byte tlvs = do t ← find_tlv tlvs tag_1; get_elem? t.value 0

unfoldable pub handle_get_version : AppletVersion → ApduResponse
unfolding success_with_tlvs version_bytes
handle_get_version version =
    success_with_tlvs (record { tag = tag_1; value = version_bytes version } ∷ [])

unfoldable pub or_else : Option ℕ → ℕ → ℕ
or_else none d = d
or_else (some a) d = a

unfoldable pub handle_get_free_memory : AppletVersion → Result (List Tlv) TlvError → ApduResponse
unfolding or_else first_byte free_memory_bytes success_with_tlvs error
handle_get_free_memory version (err e) = error sw_wrong_data
handle_get_free_memory version (ok tlvs) =
    elim (free_memory_bytes version (or_else (first_byte tlvs) 0x01)) [
      | none ↦ error sw_wrong_data
      | some bytes ↦ success_with_tlvs (record { tag = tag_1; value = bytes } ∷ [])
    ]

-- `random` gives as many random bytes as are asked for.
unfoldable pub handle_get_random :
    (ℕ → List ℕ) → AppletVersion → Result (List Tlv) TlvError → ApduResponse
unfolding get_random_max success_with_tlvs error find_tlv
handle_get_random random version (err e) = error sw_wrong_data
handle_get_random random version (ok tlvs) = elim (find_tlv tlvs tag_1) [
  | none ↦ error sw_wrong_data
  | some t ↦
      (let requested_len = be16 (get_or t.value 0 0) (get_or t.value 1 0) in
        if ltb (length t.value) 2
        then error sw_wrong_data
        else (if (requested_len == 0) || ltb (get_random_max version) requested_len
            then error sw_conditions_not_satisfied
            else success_with_tlvs (record { tag = tag_1; value = random requested_len } ∷ [])))
]

unfoldable pub handle_delete_all : ObjectStore → ObjectStore × ApduResponse
unfolding clear success
handle_delete_all s = (clear s, success)

-- `handle`, the management commands by P2.
unfoldable pub handle_management :
    (ℕ → List ℕ) → AppletVersion → ParsedApdu → ObjectStore → Option (ObjectStore × ApduResponse)
unfolding handle_get_version handle_get_free_memory handle_get_random handle_delete_all error
handle_management random version apdu s =
    if apdu.p2 == p2_version
    then some (s, handle_get_version version)
    else (if apdu.p2 == p2_memory
        then with_tlvs apdu (λ parsed. (s, handle_get_free_memory version parsed))
        else (if apdu.p2 == p2_random
            then with_tlvs apdu (λ parsed. (s, handle_get_random random version parsed))
            else (if apdu.p2 == p2_delete_all
                then some (handle_delete_all s)
                else some (s, error sw_wrong_p1p2))))

unfoldable pub scp_answer : ObjectStore → Option ℕ → ObjectStore × ApduResponse
unfolding set_scp_required success error
scp_answer s none = (s, error sw_wrong_data)
scp_answer s (some b) =
    if b == 0x01
    then (set_scp_required true s, success)
    else (if b == 0x02 then (set_scp_required false s, success) else (s, error sw_wrong_data))

unfoldable pub handle_set_platform_scp :
    ObjectStore → Bool → Result (List Tlv) TlvError → ObjectStore × ApduResponse
unfolding scp_answer first_byte error
handle_set_platform_scp s scp_active parsed =
    if not scp_active
    then (s, error sw_conditions_not_satisfied)
    else elim parsed [ err e ↦ (s, error sw_wrong_data) | ok tlvs ↦ scp_answer s (first_byte tlvs) ]

abbrev pub se050_aid : List ℕ
se050_aid =
    0xA0 ∷ 0x00 ∷ 0x00 ∷ 0x03 ∷ 0x96 ∷ 0x54 ∷ 0x53 ∷ 0x00 ∷ 0x00 ∷ 0x00 ∷ 0x01 ∷ 0x03 ∷ 0x00 ∷ 0x00
    ∷ 0x00 ∷ 0x00 ∷ []

unfoldable pub handle_select : AppletVersion → ParsedApdu → ApduResponse
unfolding selects_ssd version_bytes success success_with_data error
handle_select version apdu =
    if same_bytes apdu.payload se050_aid
    then success_with_data (version_bytes version)
    else (if selects_ssd apdu then success else error 0x6A82)
