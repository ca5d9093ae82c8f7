-- ===== src/Se050/Handlers/Provision.antt =====
-- A host that provisions a curve: it creates the curve, and uploads its parameters.
use simulators.Common.{
  ℕ, ◌<◌, ◌≤◌, ◌≡◌, refl, true, false, Option, none, some, List, [], ◌∷◌, arith, All, ◌==◌,
  if◌then◌else◌, ne→==, le→ltb,
}
use simulators.Common.Maps.{lookup, lookup-insert}
use simulators.Common.Results.{ok}
use simulators.Se050.Apdu.{success}
use simulators.Se050.Applet.{AppletVersion}
use simulators.Se050.Handlers.Curve.{
  create_curve, handle_create, curve_id_from_tag1, is_param, set_param, handle_set_param, tag_1,
  tag_2, one_byte,
}
use simulators.Se050.ObjectStore.{
  ObjectStore, curve_exists, curve_create, curve_add_param, curve_ready, curve_params_complete,
  is_some,
}
use simulators.Se050.ObjectStore.Curves.{
  add_all, uploaded, curve_ready-add_all, lookup-curve_add_param,
}
use simulators.Se050.Tlv.{Tlv, find_tlv}

-- The entries that a host sends.
abbrev pub create_request : ℕ → List Tlv
create_request c = record { tag = tag_1; value = c ∷ [] } ∷ []

abbrev pub param_request : ℕ → ℕ → List ℕ → List Tlv
param_request c param value =
    record { tag = tag_1; value = c ∷ [] }
    ∷ record { tag = tag_2; value = param ∷ [] }
    ∷ record { tag = 0x43; value = value }
    ∷ []

-- The uploads one after the other, while each is answered with success.
unfoldable pub upload_all : ℕ → List (ℕ × List ℕ) → ObjectStore → Option ObjectStore
upload_all c [] s = some s
upload_all c ((param, value) ∷ params) s =
    let (s', resp) = handle_set_param s (ok (param_request c param value)) in
    let rest = upload_all c params s' in if resp.sw == 0x9000 then rest else none

abbrev pub kinds : List (ℕ × List ℕ) → List ℕ
kinds [] = []
kinds ((param, value) ∷ params) = param ∷ kinds params

uploaded_one :
    (c param mask : ℕ) (value : List ℕ) (s : ObjectStore)
    → is_param param ≡ true
    → lookup c s.ec_curves ≡ some mask
    → handle_set_param s (ok (param_request c param value)) ≡ (curve_add_param c param s, success)
unfolding handle_set_param one_byte find_tlv set_param curve_exists is_some
uploaded_one c param mask value s p e = rw (p, e) refl

upload_all-add_all :
    (c : ℕ) (params : List (ℕ × List ℕ)) (mask : ℕ) (s : ObjectStore)
    → All (λ (x : ℕ × List ℕ). is_param x.0 ≡ true) params
    → lookup c s.ec_curves ≡ some mask
    → upload_all c params s ≡ some (add_all c (kinds params) s)
unfolding upload_all add_all success
upload_all-add_all c [] mask s p e = refl
upload_all-add_all c ((param, value) ∷ params) mask s p e =
    let (here, there) = lookup-curve_add_param c param mask s e in
    rw (uploaded_one c param mask value s p.0 e)
      (upload_all-add_all c params _ (curve_add_param c param s) p.1 here)

-- A host that creates a Weierstrass curve that does not exist, and uploads parameters of the five
-- kinds in any order, is answered with success each time. The curve is then ready exactly when the
-- kinds make the five, and the other curves are as they were.
pub curve_ready-upload_all :
    (version : AppletVersion) (c : ℕ) (params : List (ℕ × List ℕ)) (s : ObjectStore)
    → 0 < c
    → c ≤ 17
    → curve_exists s c ≡ false
    → All (λ (x : ℕ × List ℕ). is_param x.0 ≡ true) params
    → (s' : ObjectStore) × (handle_create version s (ok (create_request c))
        ≡ (curve_create c s, success))
      × (upload_all c params (curve_create c s) ≡ some s')
      × (curve_ready s' c ≡ (uploaded 0 (kinds params) == curve_params_complete))
      × ((j : ℕ) → (c == j) ≡ false → curve_ready s' j ≡ curve_ready s j)
unfolding handle_create create_curve curve_id_from_tag1 one_byte find_tlv curve_create
curve_ready-upload_all version c params s low high missing p =
    let same : (c == c) ≡ true = ground arith in
    let fresh : lookup c (curve_create c s).ec_curves ≡ some 0 =
      rw (lookup-insert c c 0 s.ec_curves, same) refl in
    let (ready, others) = curve_ready-add_all c (kinds params) s in
    (
      add_all c (kinds params) (curve_create c s),
      rw (ne→== c 0 (λ e. omega arith), le→ltb 17 c high, missing) refl,
      upload_all-add_all c params 0 (curve_create c s) p fresh,
      ready,
      others,
    )
