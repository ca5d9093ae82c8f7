-- ===== src/Se050/T1/Pcb.antt =====
-- The protocol control byte: the values that mean a frame, and the two directions of its code.
use mathlib.Core.Path.{ap₂}
use simulators.Common.{
  ℕ, ◌≡◌, ◌↔◌, ◌<◌, refl, sym, ap, ◌∙◌, Bool, true, false, ◌&&◌, not, Option, none, some, arith,
  subst, ltb, ◌==◌, ==→eq,
}
use simulators.Common.Bytes.{IsByte}
use simulators.Common.Bits.{all_below, all_below_sound}
use simulators.Se050.T1.{FrameType, i_frame, r_frame, s_frame, parse_pcb, encode_pcb}

-- The fields fit their bits of the byte.
abbrev pub IsFrameType : FrameType → Type 0
IsFrameType (i_frame seq multi) = seq < 2
IsFrameType (r_frame seq e) = (seq < 2) × (e < 4)
IsFrameType (s_frame code is_response) = code < 32

abbrev equal_bool : Bool → Bool → Bool
equal_bool true b = b
equal_bool false b = not b

equal_bool_sound : (a b : Bool) → equal_bool a b ≡ true → a ≡ b
equal_bool_sound true true h = refl
equal_bool_sound false false h = refl
equal_bool_sound true false h = absurd (ground arith)
equal_bool_sound false true h = absurd (ground arith)

abbrev same : FrameType → Option FrameType → Bool
same (i_frame a m) (some (i_frame b n)) = (a == b) && equal_bool m n
same (r_frame a m) (some (r_frame b n)) = (a == b) && (m == n)
same (s_frame a m) (some (s_frame b n)) = (a == b) && equal_bool m n
same _ _ = false

both : (a b : Bool) → (a && b) ≡ true → (a ≡ true) × (b ≡ true)
both true b h = (refl, h)
both false b h = absurd (ground arith)

same_sound : (a : FrameType) (o : Option FrameType) → same a o ≡ true → o ≡ some a
same_sound (i_frame a m) (some (i_frame b n)) h =
    let (e, e') = both (a == b) (equal_bool m n) h in
    ap some (sym (ap₂ i_frame (==→eq a b e) (equal_bool_sound m n e')))
same_sound (r_frame a m) (some (r_frame b n)) h =
    let (e, e') = both (a == b) (m == n) h in
    ap some (sym (ap₂ r_frame (==→eq a b e) (==→eq m n e')))
same_sound (s_frame a m) (some (s_frame b n)) h =
    let (e, e') = both (a == b) (equal_bool m n) h in
    ap some (sym (ap₂ s_frame (==→eq a b e) (equal_bool_sound m n e')))
same_sound (i_frame a m) (some (r_frame b n)) h = absurd (ground arith)
same_sound (i_frame a m) (some (s_frame b n)) h = absurd (ground arith)
same_sound (i_frame a m) none h = absurd (ground arith)
same_sound (r_frame a m) (some (i_frame b n)) h = absurd (ground arith)
same_sound (r_frame a m) (some (s_frame b n)) h = absurd (ground arith)
same_sound (r_frame a m) none h = absurd (ground arith)
same_sound (s_frame a m) (some (i_frame b n)) h = absurd (ground arith)
same_sound (s_frame a m) (some (r_frame b n)) h = absurd (ground arith)
same_sound (s_frame a m) none h = absurd (ground arith)

-- A frame's code is read back.
pub parse_pcb-encode_pcb : (ft : FrameType) → IsFrameType ft → parse_pcb (encode_pcb ft) ≡ some ft
unfolding parse_pcb encode_pcb all_below
parse_pcb-encode_pcb (i_frame seq true) h = same_sound (i_frame seq true) _ (
    all_below_sound 2 (λ x. same (i_frame x true) (parse_pcb (encode_pcb (i_frame x true)))) refl
      seq h)
parse_pcb-encode_pcb (i_frame seq false) h = same_sound (i_frame seq false) _ (
    all_below_sound 2 (λ x. same (i_frame x false) (parse_pcb (encode_pcb (i_frame x false)))) refl
      seq h)
parse_pcb-encode_pcb (r_frame seq e) h = same_sound (r_frame seq e) _ (
    all_below_sound 4 (λ y. same (r_frame seq y) (parse_pcb (encode_pcb (r_frame seq y))))
      (all_below_sound 2
        (λ x. all_below 4 (λ y. same (r_frame x y) (parse_pcb (encode_pcb (r_frame x y))))) refl seq
        h.0)
      e h.1)
parse_pcb-encode_pcb (s_frame code true) h = same_sound (s_frame code true) _ (
    all_below_sound 32 (λ x. same (s_frame x true) (parse_pcb (encode_pcb (s_frame x true)))) refl
      code h)
parse_pcb-encode_pcb (s_frame code false) h = same_sound (s_frame code false) _ (
    all_below_sound 32 (λ x. same (s_frame x false) (parse_pcb (encode_pcb (s_frame x false)))) refl
      code h)

abbrev fits : FrameType → Bool
fits (i_frame seq multi) = ltb seq 2
fits (r_frame seq e) = ltb seq 2 && ltb e 4
fits (s_frame code is_response) = ltb code 32

fits-IsFrameType : (ft : FrameType) → fits ft ≡ true → IsFrameType ft
fits-IsFrameType (i_frame seq multi) h = ground arith
fits-IsFrameType (r_frame seq e) h =
    let (a, b) = both (ltb seq 2) (ltb e 4) h in (ground arith, ground arith)
fits-IsFrameType (s_frame code is_response) h = ground arith

-- The byte is the code of what it is parsed to.
abbrev agrees : ℕ → Option FrameType → Bool
agrees b none = true
agrees b (some ft) = (encode_pcb ft == b) && fits ft

encode_pcb-parse_pcb :
    (b : ℕ) (ft : FrameType)
    → IsByte b
    → parse_pcb b ≡ some ft
    → IsFrameType ft × (encode_pcb ft ≡ b)
unfolding parse_pcb encode_pcb all_below
encode_pcb-parse_pcb b ft h e =
    let table = all_below_sound 256 (λ x. agrees x (parse_pcb x)) refl b h in
    let found = subst (λ o. agrees b o ≡ true) e table in
    let (code, sized) = both (encode_pcb ft == b) (fits ft) found in
    (fits-IsFrameType ft sized, ==→eq (encode_pcb ft) b code)

-- A byte is parsed to a frame type exactly when the fields of the type fit their bits and the byte
-- is its code.
pub parse_pcb_iff :
    (b : ℕ) (ft : FrameType)
    → IsByte b
    → (parse_pcb b ≡ some ft) ↔ (IsFrameType ft × (encode_pcb ft ≡ b))
parse_pcb_iff b ft h =
    (encode_pcb-parse_pcb b ft h, λ k. ap parse_pcb (sym k.1) ∙ parse_pcb-encode_pcb ft k.0)
