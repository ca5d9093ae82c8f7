-- ===== src/Tropic01/L3/Runs.antt =====
-- TROPIC01Sim/tropic01-sim/src/handlers/l3.rs: well-formed commands one after the other.
pub mod Memory
pub mod Counter
pub mod Destroy
use simulators.Common.{ℕ, suc, ◌≡◌, refl, Bool, true, false, List, [], ◌∷◌, length, get_or}
use simulators.Common.Bytes.{hi, lo}
use simulators.Tropic01.Store.{Device}
use simulators.Tropic01.L3.{Crates, Ctx, Answer, OsRng}
use simulators.Tropic01.L3.Dispatch.{
  L3State, L3Outcome, answered, outcome_of, Dispatched, perform, run_command, dispatch,
}
use simulators.Tropic01.L3.Sizes.{known, size_ok, is_spect}

-- The firmware's state when no command has spoiled the next one.
abbrev pub clean : L3State
clean = record { spect_size_error = false }

abbrev pub replied : List ℕ → Device → Dispatched
replied r d = record { outcome = answered r; device = d; state = clean }

-- The end of a command that has been run.
abbrev pub run_to : Answer → Dispatched
run_to a = record { outcome = outcome_of a.0; device = a.1; state = clean }

-- The bytes of a command on a slot.
abbrev pub on_slot : ℕ → ℕ → List ℕ → List ℕ
on_slot id slot fields = id ∷ lo slot ∷ hi slot ∷ fields

-- The context after a command.
abbrev pub with_device : Ctx → Device → Ctx
with_device x d = record { dev = d; cfg = x.cfg; p = x.p; pkey = x.pkey }

pub dispatch_lem :
    (k : Crates) (rng : OsRng) (x : Ctx) (id : ℕ) (rest : List ℕ)
    → known id ≡ true
    → size_ok x.p id (length (id ∷ rest)) ≡ true
    → dispatch k rng x clean (id ∷ rest) ≡ run_to (perform k rng x id (id ∷ rest))
unfolding dispatch run_command
dispatch_lem k rng x id rest h s = rw (h, s) refl
