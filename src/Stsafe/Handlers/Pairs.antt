-- ===== src/Stsafe/Handlers/Pairs.antt =====
-- STSAFEA120Sim/stsafe-a120-sim/src/handlers: two values of 32 bytes behind their lengths, written and
-- read.
use mathlib.Core.List.{append_assoc}
use simulators.Common.{
  ℕ, ◌-◌, ◌≡◌, refl, sym, ap, ◌∙◌, some, List, ◌∷◌, ◌++◌, arith, length, get_or, take, drop,
  length-append, length-drop, take-append, take-append-drop, drop-append, drop-append_right,
  take_whole, get_or-append_right, le→ltb,
}
use simulators.Common.Slices.{slice}
use simulators.Stsafe.Handlers.{read_xy, read_rs, pair_body}

-- The two halves of 64 bytes.
pub first_half : (x y : List ℕ) → length x ≡ 32 → slice 0 32 (x ++ y) ≡ x
unfolding slice
first_half x y n = take-append 32 x y (sym n)

pub second_half : (x y : List ℕ) → length x ≡ 32 → slice 32 (length (x ++ y)) (x ++ y) ≡ y
unfolding slice
second_half x y n =
    ap (take (length (x ++ y) - 32)) (drop-append 32 x y (sym n))
    ∙ take_whole (length (x ++ y) - 32) y (omega (arith, n, length-append x y))

pub halves : (xs : List ℕ) → length xs ≡ 64 → slice 0 32 xs ++ slice 32 (length xs) xs ≡ xs
unfolding slice
halves xs n =
    ap (λ (t : List ℕ). take 32 xs ++ t)
      (take_whole (length xs - 32) (drop 32 xs) (omega (arith, length-drop 32 xs)))
    ∙ take-append-drop 32 xs

-- What is written as a pair is read as one.
pub read_xy-pair_body :
    (x y rest : List ℕ)
    → length x ≡ 32
    → length y ≡ 32
    → read_xy (pair_body x y ++ rest) ≡ some (x ++ y, 68)
unfolding read_xy pair_body slice
read_xy-pair_body x y rest n m =
    let tail = 0x00 ∷ 32 ∷ (y ++ rest) in
    let whole : (x ++ (0x00 ∷ 32 ∷ y)) ++ rest ≡ x ++ tail = append_assoc x (0x00 ∷ 32 ∷ y) rest in
    let buf = 0x00 ∷ 32 ∷ (x ++ tail) in
    let size = length-append x tail in
    let size' = length-append y rest in
    let high : get_or buf 34 0 ≡ 0 =
      get_or-append_right (0x00 ∷ 32 ∷ x) tail 34 0 0 (omega arith) in
    let low : get_or buf 35 0 ≡ 32 =
      get_or-append_right (0x00 ∷ 32 ∷ x) tail 35 1 0 (omega arith) in
    let left : take 32 (x ++ tail) ≡ x = take-append 32 x tail (sym n) in
    let right : take 32 (drop 34 (x ++ tail)) ≡ y =
      ap (take 32) (drop-append_right 34 2 x tail (omega arith)) ∙ take-append 32 y rest (sym m) in
    rw (whole, le→ltb (length buf) 68 (omega (arith, size, size')), high, low, left, right) refl

pub read_rs-pair_body :
    (r s rest : List ℕ)
    → length r ≡ 32
    → length s ≡ 32
    → read_rs (pair_body r s ++ rest) ≡ some (r ++ s, 68)
unfolding read_rs
read_rs-pair_body = read_xy-pair_body
