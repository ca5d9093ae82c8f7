-- ===== src/Se050/Handlers/Curve.antt =====
-- SE050Sim/se050-sim/src/handlers/curve.rs: CreateECCurve, SetECCurveParam, DeleteECCurve and
-- ReadECCurveList.
use simulators.Common.{
  ℕ, suc, zero, ◌+◌, Bool, not, ◌||◌, Option, none, some, List, [], ◌∷◌, length, get_or, ltb, ◌==◌,
  if◌then◌else◌,
}
use simulators.Common.Results.{Result, ok, err}
use simulators.Se050.Apdu.{ApduResponse, success, success_with_tlvs, error}
use simulators.Se050.Applet.{AppletVersion, is_v3_1_1}
use simulators.Se050.ObjectStore.{
  ObjectStore, curve_exists, curve_create, curve_add_param, curve_delete,
}
use simulators.Se050.Scp03.Channel.{sw_conditions_not_satisfied}
use simulators.Se050.Tlv.{Tlv, TlvError, find_tlv}

abbrev pub tag_1 : ℕ
tag_1 = 0x41

abbrev pub tag_2 : ℕ
tag_2 = 0x42

abbrev pub sw_wrong_data : ℕ
sw_wrong_data = 0x6A80

abbrev pub weierstrass_curve_count : ℕ
weierstrass_curve_count = 0x11

-- The value of an entry of one byte.
unfoldable pub one_byte : Option Tlv → Option ℕ
one_byte none = none
one_byte (some t) = if length t.value == 1 then some (get_or t.value 0 0) else none

unfoldable pub curve_id_from_tag1 : Result (List Tlv) TlvError → Option ℕ
unfolding one_byte find_tlv
curve_id_from_tag1 (err e) = none
curve_id_from_tag1 (ok tlvs) = one_byte (find_tlv tlvs tag_1)

-- CreateECCurve with the identifier that it carries.
unfoldable pub create_curve : ℕ → AppletVersion → ObjectStore → ObjectStore × ApduResponse
unfolding success error is_v3_1_1
create_curve curve_id version s =
    if (curve_id == 0) || ltb weierstrass_curve_count curve_id
    then (s, error sw_wrong_data)
    else (if curve_exists s curve_id
        then (if is_v3_1_1 version
            then (curve_create curve_id s, success)
            else (s, error sw_conditions_not_satisfied))
        else (curve_create curve_id s, success))

unfoldable pub handle_create :
    AppletVersion → ObjectStore → Result (List Tlv) TlvError → ObjectStore × ApduResponse
unfolding error
handle_create version s parsed = elim (curve_id_from_tag1 parsed) [
  | none ↦ (s, error sw_wrong_data)
  | some curve_id ↦ create_curve curve_id version s
]

-- `matches!(param, 0x01 | 0x02 | 0x04 | 0x08 | 0x10)`.
unfoldable pub is_param : ℕ → Bool
is_param p = (p == 0x01) || (p == 0x02) || (p == 0x04) || (p == 0x08) || (p == 0x10)

-- SetECCurveParam with what it carries.
unfoldable pub set_param : ℕ → ℕ → ObjectStore → ObjectStore × ApduResponse
unfolding is_param success error
set_param curve_id param s =
    if not (is_param param)
    then (s, error sw_wrong_data)
    else (if not (curve_exists s curve_id)
        then (s, error sw_conditions_not_satisfied)
        else (curve_add_param curve_id param s, success))

unfoldable pub handle_set_param :
    ObjectStore → Result (List Tlv) TlvError → ObjectStore × ApduResponse
unfolding one_byte find_tlv error
handle_set_param s (err e) = (s, error sw_wrong_data)
handle_set_param s (ok tlvs) = elim (one_byte (find_tlv tlvs tag_1)) [
  | none ↦ (s, error sw_wrong_data)
  | some curve_id ↦ elim (one_byte (find_tlv tlvs tag_2)) [
    | none ↦ (s, error sw_wrong_data)
    | some param ↦ set_param curve_id param s
  ]
]

unfoldable pub delete_answer : ObjectStore × Bool → ObjectStore × ApduResponse
unfolding success error
delete_answer (s, removed) = (s, if removed then success else error sw_conditions_not_satisfied)

unfoldable pub handle_delete : ObjectStore → Result (List Tlv) TlvError → ObjectStore × ApduResponse
unfolding delete_answer error
handle_delete s parsed = elim (curve_id_from_tag1 parsed) [
  | none ↦ (s, error sw_wrong_data)
  | some curve_id ↦ delete_answer (curve_delete curve_id s)
]

-- One byte for each identifier from `id` on.
unfoldable pub curve_list : ℕ → ℕ → ObjectStore → List ℕ
curve_list zero id s = []
curve_list (suc n) id s = (if curve_exists s id then 0x02 else 0x01) ∷ curve_list n (id + 1) s

unfoldable pub handle_list : ObjectStore → ApduResponse
unfolding curve_list success_with_tlvs
handle_list s =
    success_with_tlvs (record { tag = tag_1; value = curve_list weierstrass_curve_count 1 s } ∷ [])
