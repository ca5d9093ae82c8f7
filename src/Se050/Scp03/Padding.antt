-- ===== src/Se050/Scp03/Padding.antt =====
-- SE050Sim/se050-sim/src/scp03/crypto.rs: the padding, ISO 9797-1 method 2.
use mathlib.Core.List.{append_assoc, append-nil}
use simulators.Common.{
  ℕ, zero, suc, ◌+◌, ◌-◌, ◌*◌, ◌/◌, ◌%◌, ◌≤◌, ◌<◌, ◌≡◌, refl, sym, ap, ◌∙◌, Option, none, some,
  List, [], ◌∷◌, ◌++◌, arith, length, get_or, take, replicate, length-append, length-replicate,
  take-append, get_or-append_right, ◌==◌, if◌then◌else◌, eq→==, ne→==, All-append, subst,
}
use simulators.Common.Bytes.{IsByte, IsBytes}

-- The loop that pushes zeros, on fuel: at most 15 rounds.
unfoldable pub pad_loop : ℕ → List ℕ → List ℕ
pad_loop zero out = out
pad_loop (suc fuel) out =
    let padded = pad_loop fuel (out ++ (0x00 ∷ [])) in if length out % 16 == 0 then out else padded

unfoldable pub pad_m2 : List ℕ → List ℕ
unfolding pad_loop
pad_m2 bytes = pad_loop 15 (bytes ++ (0x80 ∷ []))

-- The scan from the end: `i` bytes are left to look at.
unfoldable pub unpad_from : ℕ → List ℕ → Option (List ℕ)
unpad_from zero bytes = none
unpad_from (suc i) bytes =
    let before = unpad_from i bytes in
    if get_or bytes i 0 == 0x00
    then before
    else (if get_or bytes i 0 == 0x80 then some (take i bytes) else none)

unfoldable pub unpad_m2 : List ℕ → Option (List ℕ)
unfolding unpad_from
unpad_m2 bytes = unpad_from (length bytes) bytes

-- The loop pushes as many zeros as are missing.
pad_loop_zeros :
    (fuel k : ℕ) (out : List ℕ)
    → k ≤ fuel
    → k < 16
    → (length out + k) % 16 ≡ 0
    → pad_loop fuel out ≡ out ++ replicate k 0x00
unfolding pad_loop
pad_loop_zeros zero zero out h l e = sym (append-nil out)
pad_loop_zeros zero (suc k) out h l e = absurd (omega arith)
pad_loop_zeros (suc fuel) zero out h l e =
    rw (eq→== (length out % 16) 0 (omega arith)) (sym (append-nil out))
pad_loop_zeros (suc fuel) (suc k) out h l e =
    rw
      (
        ne→== (length out % 16) 0 (λ g. omega arith),
        pad_loop_zeros fuel k (out ++ (0x00 ∷ [])) (omega arith) (omega arith)
            (omega (arith, length-append out (0x00 ∷ []))),
      )
      (append_assoc out (0x00 ∷ []) (replicate k 0x00))

-- The zeros behind a message of a length.
abbrev zeros : ℕ → ℕ
zeros n = 15 - n % 16

pad_m2-zeros :
    (bytes : List ℕ) → pad_m2 bytes ≡ bytes ++ (0x80 ∷ replicate (zeros (length bytes)) 0x00)
unfolding pad_m2
pad_m2-zeros bytes =
    pad_loop_zeros 15 (zeros (length bytes)) (bytes ++ (0x80 ∷ [])) (omega arith) (omega arith)
      (omega (arith, length-append bytes (0x80 ∷ [])))
    ∙ append_assoc bytes (0x80 ∷ []) (replicate (zeros (length bytes)) 0x00)

-- Padding fills the last block, and adds a whole one to whole blocks.
pub length-pad_m2 : (bytes : List ℕ) → length (pad_m2 bytes) ≡ (length bytes / 16 + 1) * 16
length-pad_m2 bytes =
    ap length (pad_m2-zeros bytes)
    ∙ omega (
      arith,
      length-append bytes (0x80 ∷ replicate (zeros (length bytes)) 0x00),
      length-replicate {A = ℕ} (zeros (length bytes)) 0x00,
    )

get_or-replicate : (k i d : ℕ) → get_or (replicate k d) i d ≡ d
get_or-replicate zero i d = refl
get_or-replicate (suc k) zero d = refl
get_or-replicate (suc k) (suc i) d = get_or-replicate k i d

unpad_from_zeros :
    (i k : ℕ) (bytes : List ℕ)
    → unpad_from (length bytes + 1 + i) (bytes ++ (0x80 ∷ replicate k 0x00)) ≡ some bytes
unfolding unpad_from
unpad_from_zeros zero k bytes =
    let whole = bytes ++ (0x80 ∷ replicate k 0x00) in
    let marker : get_or whole (length bytes) 0 ≡ 0x80 =
      get_or-append_right bytes (0x80 ∷ replicate k 0x00) (length bytes) 0 0 (omega arith) in
    let size : length bytes + 1 + 0 ≡ suc (length bytes) = omega arith in
    let front = take-append (length bytes) bytes (0x80 ∷ replicate k 0x00) refl in
    rw (size, marker, front) refl
unpad_from_zeros (suc i) k bytes =
    let whole = bytes ++ (0x80 ∷ replicate k 0x00) in
    let zero_byte : get_or whole (length bytes + 1 + i) 0 ≡ 0 =
      (get_or-append_right bytes (0x80 ∷ replicate k 0x00) (length bytes + 1 + i) (suc i) 0
          (omega arith)
        ∙ get_or-replicate k i 0) in
    let size : length bytes + 1 + suc i ≡ suc (length bytes + 1 + i) = omega arith in
    rw (size, zero_byte) (unpad_from_zeros i k bytes)

-- Every message comes back from its padding.
pub unpad_m2-pad_m2 : (bytes : List ℕ) → unpad_m2 (pad_m2 bytes) ≡ some bytes
unfolding unpad_m2
unpad_m2-pad_m2 bytes =
    let k = zeros (length bytes) in
    let size : length (bytes ++ (0x80 ∷ replicate k 0x00)) ≡ length bytes + 1 + k =
      omega
        (arith, length-append bytes (0x80 ∷ replicate k 0x00), length-replicate {A = ℕ} k 0x00) in
    ap unpad_m2 (pad_m2-zeros bytes)
    ∙ ap (λ (n : ℕ). unpad_from n (bytes ++ (0x80 ∷ replicate k 0x00))) size
    ∙ unpad_from_zeros k k bytes

pub pad_m2-IsBytes : (bytes : List ℕ) → IsBytes bytes → IsBytes (pad_m2 bytes)
pad_m2-IsBytes bytes h =
    let k = zeros (length bytes) in
    subst IsBytes (sym (pad_m2-zeros bytes))
      (All-append IsByte bytes (0x80 ∷ replicate k 0x00) h (omega arith, zeros-IsBytes k))
  where
    zeros-IsBytes : (n : ℕ) → IsBytes (replicate n 0x00)
    zeros-IsBytes zero = tt
    zeros-IsBytes (suc n) = (omega arith, zeros-IsBytes n)
