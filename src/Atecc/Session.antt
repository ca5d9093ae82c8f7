-- ===== src/Atecc/Session.antt =====
-- ATECC608Sim/atecc608-sim/src/session.rs: the volatile state of one connection.
use simulators.Common.{ℕ, Bool, true, false, Option, none, some, List, [], ◌∷◌, replicate}

-- The SHA-256 implementation is the crate sha2: its running state, and what is done with it.
pub record Sha : Type 1 where
  pub Hasher : Type 0
  pub new : Hasher
  pub update : Hasher → List ℕ → Hasher
  pub finalize : Hasher → List ℕ
  pub digest : List ℕ → List ℕ

pub data TempKeySource : Type 0 where
  nonce_pass_through : TempKeySource

pub record TempKey : Type 0 where
  pub value : List ℕ
  pub valid : Bool
  pub source : Option TempKeySource

unfoldable pub load_passthrough : TempKey → List ℕ → TempKey
load_passthrough k bytes = record { value = bytes; valid = true; source = some nonce_pass_through }

unfoldable pub clear_tempkey : TempKey → TempKey
clear_tempkey k = record { value = replicate 32 0; valid = false; source = none }

pub record Session (sha : Sha) : Type 0 where
  pub tempkey : TempKey
  pub hasher : Option sha.Hasher

module _ (sha : Sha) where
  unfoldable pub new_session : Session sha
  new_session = record {
    tempkey = record { value = replicate 32 0; valid = false; source = none };
    hasher = none;
  }

  -- `ShaCtx::start`, `update` and `finish`.
  unfoldable pub sha_start : Session sha → Session sha
  sha_start s = record s { hasher = some sha.new }

  unfoldable pub sha_update : Session sha → List ℕ → Session sha × Bool
  sha_update s bytes = elim s.hasher [
    | some h ↦ (record s { hasher = some (sha.update h bytes) }, true)
    | none ↦ (s, false)
  ]

  unfoldable pub absorb_trailing : sha.Hasher → List ℕ → sha.Hasher
  absorb_trailing h [] = h
  absorb_trailing h (x ∷ xs) = sha.update h (x ∷ xs)

  unfoldable pub sha_finish : Session sha → List ℕ → Session sha × Option (List ℕ)
  unfolding absorb_trailing
  sha_finish s trailing = elim s.hasher [
    | some h ↦ (record s { hasher = none }, some (sha.finalize (absorb_trailing h trailing)))
    | none ↦ (s, none)
  ]

  unfoldable pub volatile_reset : Session sha → Session sha
  unfolding clear_tempkey
  volatile_reset s = record { tempkey = clear_tempkey s.tempkey; hasher = none }
