-- ===== src/Common/Bits.antt =====
-- Bit operations at variables: tables for masks on a byte, and the laws of single digits.
use Prim.Native.Nat.{digits, differ, bit_and-bitwise, bit_or-bitwise, bit_xor-bitwise, max}
use native.Mathlib.Nat.{div-div-eq-div-mul, pow-suc, pow-succ'}
use simulators.Common.{
  ℕ, zero, suc, ◌+◌, ◌*◌, ◌/◌, ◌%◌, ◌^◌, ◌≤◌, ◌<◌, min, bit_and, bit_or, bit_xor, ◌≡◌, refl, ap,
  sym, ◌∙◌, Bool, true, ◌&&◌, arith, ◌==◌,
}

-- `test` holds of every number below the bound.
unfoldable pub all_below : ℕ → (ℕ → Bool) → Bool
all_below zero test = true
all_below (suc n) test = test n && all_below n test

pub all_below_sound :
    (n : ℕ) (test : ℕ → Bool) → all_below n test ≡ true → (x : ℕ) → x < n → test x ≡ true
unfolding all_below
all_below_sound zero test h x lt = absurd (omega arith)
all_below_sound (suc n) test h x lt = ground (arith, all_below_sound n test (ground arith) x)

-- Two functions that agree below a bound by evaluation are equal there.
pub table :
    (n : ℕ) (f g : ℕ → ℕ) → all_below n (λ x. f x == g x) ≡ true → (x : ℕ) → x < n → f x ≡ g x
table n f g h x lt = ground (arith, all_below_sound n (λ x. f x == g x) h x lt)

-- A native operation on digits needs no more fuel than digits: fuel beyond the first number is idle.
module _ (z : ℕ → ℕ) (f : ℕ → ℕ → ℕ) where
  idle_fuel : (m n a b : ℕ) → a ≤ m → a ≤ n → digits z f m a b ≡ digits z f n a b
  idle_fuel zero zero a b h k = refl
  idle_fuel (suc m) (suc n) zero b h k = refl
  idle_fuel (suc m) (suc n) (suc a) b h k =
      ap (λ (t : ℕ). t * 2 + f (suc a % 2) (b % 2))
        (idle_fuel m n (suc a / 2) (b / 2) (omega arith) (omega arith))
  idle_fuel zero (suc n) zero b h k = refl
  idle_fuel zero (suc n) (suc a) b h k = absurd (omega arith)
  idle_fuel (suc m) zero zero b h k = refl
  idle_fuel (suc m) zero (suc a) b h k = absurd (omega arith)

  lowest :
      (a b : ℕ)
      → digits z f (suc a) (suc a) b
        ≡ digits z f (suc a / 2) (suc a / 2) (b / 2) * 2 + f (suc a % 2) (b % 2)
  lowest a b =
      ap (λ (t : ℕ). t * 2 + f (suc a % 2) (b % 2))
        (idle_fuel a (suc a / 2) (suc a / 2) (b / 2) (omega arith) (omega arith))

zero-bit_and : (b : ℕ) → bit_and 0 b ≡ 0
zero-bit_and b = simp bit_and-bitwise

-- The lowest digit of each operation, and the rest.
pub bit_and_digit : (a b : ℕ) → bit_and a b ≡ bit_and (a / 2) (b / 2) * 2 + min (a % 2) (b % 2)
bit_and_digit zero b = simp bit_and-bitwise (omega arith)
bit_and_digit (suc a) b = simp bit_and-bitwise (lowest (λ _. 0) min a b)

pub bit_or_digit : (a b : ℕ) → bit_or a b ≡ bit_or (a / 2) (b / 2) * 2 + max (a % 2) (b % 2)
bit_or_digit zero b = simp bit_or-bitwise (omega arith)
bit_or_digit (suc a) b = simp bit_or-bitwise (lowest (λ c. c) max a b)

pub bit_xor_digit : (a b : ℕ) → bit_xor a b ≡ bit_xor (a / 2) (b / 2) * 2 + differ (a % 2) (b % 2)
bit_xor_digit zero b = simp bit_xor-bitwise (differ-zero_step b)
  where
    differ-zero_step : (c : ℕ) → c ≡ c / 2 * 2 + c % 2
    differ-zero_step c = omega arith
bit_xor_digit (suc a) b = simp bit_xor-bitwise (lowest (λ c. c) differ a b)

-- The digit of weight 2 ^ i.
unfoldable pub bit_at : ℕ → ℕ → ℕ
bit_at zero a = a % 2
bit_at (suc i) a = bit_at i (a / 2)

pub bit_at-lt : (i a : ℕ) → bit_at i a < 2
unfolding bit_at
bit_at-lt zero a = omega arith
bit_at-lt (suc i) a = bit_at-lt i (a / 2)

pub bit_at-bit_and : (i a b : ℕ) → bit_at i (bit_and a b) ≡ min (bit_at i a) (bit_at i b)
unfolding bit_at
bit_at-bit_and zero a b = omega (arith, bit_and_digit a b)
bit_at-bit_and (suc i) a b =
    let e : bit_and a b / 2 ≡ bit_and (a / 2) (b / 2) = omega (arith, bit_and_digit a b) in
    ap (bit_at i) e ∙ bit_at-bit_and i (a / 2) (b / 2)

pub bit_at-bit_or : (i a b : ℕ) → bit_at i (bit_or a b) ≡ max (bit_at i a) (bit_at i b)
unfolding bit_at
bit_at-bit_or zero a b = omega (arith, bit_or_digit a b)
bit_at-bit_or (suc i) a b =
    let e : bit_or a b / 2 ≡ bit_or (a / 2) (b / 2) = omega (arith, bit_or_digit a b) in
    ap (bit_at i) e ∙ bit_at-bit_or i (a / 2) (b / 2)

bit_and-one : (a : ℕ) → bit_and a 1 ≡ a % 2
bit_and-one a = omega (arith, bit_and_digit a 1, bit_and-zero (a / 2))
  where
    bit_and-zero_below : (n c : ℕ) → c ≤ n → bit_and c 0 ≡ 0
    bit_and-zero_below zero c h = let e : c ≡ 0 = omega arith in rw e
    bit_and-zero_below (suc n) zero h = refl
    bit_and-zero_below (suc n) (suc c) h =
        omega (arith, bit_and_digit (suc c) 0, bit_and-zero_below n (suc c / 2) (omega arith))

    bit_and-zero : (c : ℕ) → bit_and c 0 ≡ 0
    bit_and-zero c = bit_and-zero_below c c (omega arith)

-- `(a >> i) & 1` is the digit of weight 2 ^ i.
pub bit_and_one_at : (i a : ℕ) → bit_and (a / 2 ^ i) 1 ≡ bit_at i a
unfolding bit_at
bit_and_one_at zero a =
    let e : a / 2 ^ 0 ≡ a = omega arith in ap (λ (t : ℕ). bit_and t 1) e ∙ bit_and-one a
bit_and_one_at (suc i) a =
    let e : a / 2 ^ suc i ≡ a / 2 / 2 ^ i =
      (ap (λ (t : ℕ). a / t) (pow-succ' 2 i) ∙ sym (div-div-eq-div-mul a 2 (2 ^ i))) in
    ap (λ (t : ℕ). bit_and t 1) e ∙ bit_and_one_at i (a / 2)

-- The operations stay within the width of their arguments.
pub bit_and-lt : (k a b : ℕ) → a < 2 ^ k → bit_and a b < 2 ^ k
bit_and-lt zero a b h = let e : a ≡ 0 = omega arith in rw e (omega (arith, zero-bit_and b))
bit_and-lt (suc k) a b h = omega (
  arith,
  bit_and_digit a b,
  pow-suc 2 k,
  bit_and-lt k (a / 2) (b / 2) (omega (arith, pow-suc 2 k)),
)

pub bit_or-lt : (k a b : ℕ) → a < 2 ^ k → b < 2 ^ k → bit_or a b < 2 ^ k
bit_or-lt zero a b h l =
    let e : a ≡ 0 = omega arith in let e' : b ≡ 0 = omega arith in rw (e, e') (omega arith)
bit_or-lt (suc k) a b h l = omega (
  arith,
  bit_or_digit a b,
  pow-suc 2 k,
  bit_or-lt k (a / 2) (b / 2) (omega (arith, pow-suc 2 k)) (omega (arith, pow-suc 2 k)),
)

differ-lt : (a b : ℕ) → a < 2 → b < 2 → differ a b < 2
differ-lt zero b h k = k
differ-lt (suc a) zero h k = h
differ-lt (suc a) (suc b) h k = differ-lt a b (omega arith) (omega arith)

pub bit_xor-lt : (k a b : ℕ) → a < 2 ^ k → b < 2 ^ k → bit_xor a b < 2 ^ k
bit_xor-lt zero a b h l =
    let e : a ≡ 0 = omega arith in let e' : b ≡ 0 = omega arith in rw (e, e') (omega arith)
bit_xor-lt (suc k) a b h l = omega (
  arith,
  bit_xor_digit a b,
  pow-suc 2 k,
  differ-lt (a % 2) (b % 2) (omega arith) (omega arith),
  bit_xor-lt k (a / 2) (b / 2) (omega (arith, pow-suc 2 k)) (omega (arith, pow-suc 2 k)),
)
