-- ===== src/Common/Results.antt =====
-- Rust's `Result`, and the chain of `?` as a monad. A panic is `none` of `Option`.
use simulators.Common.{◌≡◌, refl, ◌≢◌, Option, none, some, ◌⊎◌, inl, inr}

pub data Result {ℓ κ} (A : Type ℓ) (E : Type κ) : Type (ℓ ⊔ κ) where
  ok : A → Result A E
  err : E → Result A E

-- The chain of steps that may panic.
infixl 5 ◌>>=◌
abbrev pub ◌>>=◌ {ℓ κ} : {A : Type ℓ} {B : Type κ} → Option A → (A → Option B) → Option B
none >>= f = none
some a >>= f = f a

-- A predicate holds of a chain when it holds of every value that the first step can give.
pub >>=_intro {ℓ κ μ} :
    {A : Type ℓ} {B : Type κ} (P : Option B → Type μ) (m : Option A) {f : A → Option B}
    → (m ≢ none)
    → ((a : A) → m ≡ some a → P (f a))
    → P (m >>= f)
>>=_intro P none ne h = absurd (ne refl)
>>=_intro P (some a) ne h = h a refl

pub Result-cases {ℓ κ} :
    {A : Type ℓ} {E : Type κ} (r : Result A E) → ((a : A) × (r ≡ ok a)) ⊎ ((e : E) × (r ≡ err e))
Result-cases (ok a) = inl (a, refl)
Result-cases (err e) = inr (e, refl)
