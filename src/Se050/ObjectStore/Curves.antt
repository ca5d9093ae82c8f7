-- ===== src/Se050/ObjectStore/Curves.antt =====
-- SE050Sim/se050-sim/src/object_store: curves and their parameters, and the bytes that name them.
use simulators.Common.{
  ℕ, ◌≡◌, refl, sym, ap, ◌∙◌, ◌↔◌, bit_and, bit_or, true, false, Option, some, List, [], ◌∷◌, arith,
  ◌==◌, ==→eq, if_intro,
}
use simulators.Common.Maps.{lookup, lookup-insert}
use simulators.Se050.ObjectStore.{
  ObjectStore, curve_params_complete, curve_create, curve_add_param, curve_ready, is_complete,
}
use simulators.Se050.ObjectStore.Types.{
  EcCurve, nist_p192, nist_p224, nist_p256, nist_p384, nist_p521, ed25519, curve25519,
  from_se050_byte, curve_byte,
}

unfoldable pub add_all : ℕ → List ℕ → ObjectStore → ObjectStore
add_all c [] s = s
add_all c (param ∷ params) s = add_all c params (curve_add_param c param s)

-- The parameters of a curve with those that are added.
unfoldable pub uploaded : ℕ → List ℕ → ℕ
uploaded mask [] = mask
uploaded mask (param ∷ params) = uploaded (bit_or mask (bit_and param curve_params_complete)) params

pub lookup-curve_add_param :
    (c param mask : ℕ) (s : ObjectStore)
    → lookup c s.ec_curves ≡ some mask
    → (lookup c (curve_add_param c param s).ec_curves
        ≡ some (bit_or mask (bit_and param curve_params_complete)))
      × ((j : ℕ)
          → (c == j) ≡ false
          → lookup j (curve_add_param c param s).ec_curves ≡ lookup j s.ec_curves)
unfolding curve_add_param
lookup-curve_add_param c param mask s e =
    let new = bit_or mask (bit_and param curve_params_complete) in
    let same : (c == c) ≡ true = ground arith in
    (
      rw (e, curve_add_param, lookup-insert c c new s.ec_curves, same) refl,
      λ j ne. rw (e, curve_add_param, lookup-insert c j new s.ec_curves, ne) refl,
    )

lookup-add_all :
    (c mask : ℕ) (params : List ℕ) (s : ObjectStore)
    → lookup c s.ec_curves ≡ some mask
    → (lookup c (add_all c params s).ec_curves ≡ some (uploaded mask params))
      × ((j : ℕ)
          → (c == j) ≡ false
          → lookup j (add_all c params s).ec_curves ≡ lookup j s.ec_curves)
unfolding add_all uploaded
lookup-add_all c mask [] s e = (e, λ j ne. refl)
lookup-add_all c mask (param ∷ params) s e =
    let (here, there) = lookup-curve_add_param c param mask s e in
    let (last, others) =
      lookup-add_all c (bit_or mask (bit_and param curve_params_complete)) params
        (curve_add_param c param s) here in
    (last, λ j ne. others j ne ∙ there j ne)

-- A curve that is created is ready exactly when the parameters uploaded since make the five, and the
-- other curves are as they were.
pub curve_ready-add_all :
    (c : ℕ) (params : List ℕ) (s : ObjectStore)
    → (curve_ready (add_all c params (curve_create c s)) c
        ≡ (uploaded 0 params == curve_params_complete))
      × ((j : ℕ)
          → (c == j) ≡ false
          → curve_ready (add_all c params (curve_create c s)) j ≡ curve_ready s j)
unfolding curve_ready curve_create is_complete
curve_ready-add_all c params s =
    let same : (c == c) ≡ true = ground arith in
    let fresh : lookup c (curve_create c s).ec_curves ≡ some 0 =
      rw (lookup-insert c c 0 s.ec_curves, same) refl in
    let before : (j : ℕ)
        → (c == j) ≡ false
        → lookup j (curve_create c s).ec_curves ≡ lookup j s.ec_curves =
      (λ j ne. rw (lookup-insert c j 0 s.ec_curves, ne) refl) in
    let (last, others) = lookup-add_all c 0 params (curve_create c s) fresh in
    (ap is_complete last, λ j ne. ap is_complete (others j ne ∙ before j ne))

named :
    (a c : EcCurve) (b n : ℕ)
    → n ≡ curve_byte a
    → (b == n) ≡ true
    → some a ≡ some c
    → curve_byte c ≡ b
named a c b n known h e =
    let same : a ≡ c = cc in ap curve_byte (sym same) ∙ sym known ∙ sym (==→eq b n h)

read_byte : (b : ℕ) (c : EcCurve) → from_se050_byte b ≡ some c → curve_byte c ≡ b
unfolding from_se050_byte curve_byte
read_byte b c =
    let P = (λ (o : Option EcCurve). o ≡ some c → curve_byte c ≡ b) in
    if_intro P (b == 0x01) (named nist_p192 c b 0x01 refl) (λ _.
      if_intro P (b == 0x02) (named nist_p224 c b 0x02 refl) (λ _.
        if_intro P (b == 0x03) (named nist_p256 c b 0x03 refl) (λ _.
          if_intro P (b == 0x04) (named nist_p384 c b 0x04 refl) (λ _.
            if_intro P (b == 0x05) (named nist_p521 c b 0x05 refl) (λ _.
              if_intro P (b == 0x40) (named ed25519 c b 0x40 refl) (λ _.
                if_intro P (b == 0x41) (named curve25519 c b 0x41 refl) (λ _ e. absurd cc)))))))

written_byte : (c : EcCurve) → from_se050_byte (curve_byte c) ≡ some c
unfolding from_se050_byte curve_byte
written_byte nist_p192 = refl
written_byte nist_p224 = refl
written_byte nist_p256 = refl
written_byte nist_p384 = refl
written_byte nist_p521 = refl
written_byte ed25519 = refl
written_byte curve25519 = refl

-- A byte is read as a curve exactly when it is the byte of the curve.
pub from_se050_byte_iff : (b : ℕ) (c : EcCurve) → (from_se050_byte b ≡ some c) ↔ (curve_byte c ≡ b)
from_se050_byte_iff b c = (read_byte b c, λ e. ap from_se050_byte (sym e) ∙ written_byte c)
