-- ===== src/Tropic01/Session/Nonce.antt =====
-- TROPIC01Sim/tropic01-sim/src/session.rs: the nonce as a counter.
use simulators.Common.{ℕ, ◌+◌, ◌≤◌, ◌<◌, ◌≡◌, refl, arith, List, ◌++◌, replicate, ne→==}
use simulators.Common.Results.{ok, err}
use simulators.Common.Slices.{splice}
use simulators.Tropic01.L3.{u32_at, le32_bytes}
use simulators.Tropic01.Session.{step_nonce, u32_max, nonce_overflow}

-- The nonce after `n` packets.
abbrev pub nonce_at : ℕ → List ℕ
nonce_at n = le32_bytes n ++ replicate 8 0

pub u32_at-nonce_at : (n : ℕ) → n ≤ u32_max → u32_at (nonce_at n) 0 ≡ n
u32_at-nonce_at n h = omega arith

pub step_nonce-nonce_at : (n : ℕ) → n < u32_max → step_nonce (nonce_at n) ≡ ok (nonce_at (n + 1))
unfolding step_nonce splice
step_nonce-nonce_at n h =
    rw (u32_at-nonce_at n (omega arith), ne→== n u32_max (λ e. absurd (omega arith))) refl

pub step_nonce-last : step_nonce (nonce_at u32_max) ≡ err nonce_overflow
unfolding step_nonce
step_nonce-last = refl
