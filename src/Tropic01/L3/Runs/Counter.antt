-- ===== src/Tropic01/L3/Runs/Counter.antt =====
-- TROPIC01Sim/tropic01-sim/src/handlers/l3.rs: counting a monotonic counter down.
use simulators.Common.{
  ℕ, zero, suc, ◌*◌, ◌/◌, ◌≤◌, ◌≡◌, refl, ap, ◌∙◌, arith, true, some, List, [], ◌∷◌, replicate,
  le→ltb,
}
use simulators.Common.Maps.{lookup, lookup-insert_self}
use simulators.Common.Results.{ok}
use simulators.Tropic01.Store.{Device}
use simulators.Tropic01.L3.Code
use simulators.Tropic01.L3.CmdId
use simulators.Tropic01.L3.Uap
use simulators.Tropic01.L3.{Crates, Ctx, OsRng, allowed, code}
use simulators.Tropic01.L3.Dispatch.{L3Outcome, answered, perform, outcome_of, dispatch}
use simulators.Tropic01.L3.Sizes.{known, one_of, size_ok}
use simulators.Tropic01.L3.Memory.{mcounter_index, mcounter_last, mcounter_update, set_mcounter}
use simulators.Tropic01.L3.Runs.{clean, replied, on_slot, with_device, run_to, dispatch_lem}
use simulators.Tropic01.L3.Runs.Memory.{u16_at-on_slot}

abbrev pub update_command : ℕ → List ℕ
update_command idx = on_slot CmdId.mcounter_update idx []

mcounter_index-on_slot :
    (x : Ctx) (idx : ℕ)
    → idx ≤ mcounter_last
    → allowed x Uap.mcounter_update (idx / 4 * 8) ≡ true
    → mcounter_index x (update_command idx) Uap.mcounter_update ≡ ok idx
unfolding mcounter_index
mcounter_index-on_slot x idx h g =
    rw (u16_at-on_slot CmdId.mcounter_update idx [] (omega arith), le→ltb mcounter_last idx h, g)
      refl

dispatch-update_down :
    (k : Crates) (rng : OsRng) (x : Ctx) (idx v : ℕ)
    → idx ≤ mcounter_last
    → allowed x Uap.mcounter_update (idx / 4 * 8) ≡ true
    → lookup idx x.dev.mcounters ≡ some (suc v)
    → dispatch k rng x clean (update_command idx)
      ≡ replied (Code.ok ∷ []) (set_mcounter x.dev idx v)
unfolding perform known one_of outcome_of size_ok mcounter_update code
dispatch-update_down k rng x idx v h g n =
    dispatch_lem k rng x CmdId.mcounter_update _ refl refl ∙ ap run_to down
  where
    down : mcounter_update x (update_command idx) ≡ (some (Code.ok ∷ []), set_mcounter x.dev idx v)
    down = rw (mcounter_update, mcounter_index-on_slot x idx h g, n, code) refl

dispatch-update_zero :
    (k : Crates) (rng : OsRng) (x : Ctx) (idx : ℕ)
    → idx ≤ mcounter_last
    → allowed x Uap.mcounter_update (idx / 4 * 8) ≡ true
    → lookup idx x.dev.mcounters ≡ some zero
    → dispatch k rng x clean (update_command idx) ≡ replied (Code.update_err ∷ []) x.dev
unfolding perform known one_of outcome_of size_ok mcounter_update code
dispatch-update_zero k rng x idx h g n =
    dispatch_lem k rng x CmdId.mcounter_update _ refl refl ∙ ap run_to stuck
  where
    stuck : mcounter_update x (update_command idx) ≡ (some (Code.update_err ∷ []), x.dev)
    stuck = rw (mcounter_update, mcounter_index-on_slot x idx h g, n, code) refl

-- The outcomes of the same command sent `n` times, and the device after them.
unfoldable pub repeated : Crates → OsRng → List ℕ → ℕ → Ctx → List L3Outcome × Device
repeated k rng c zero x = ([], x.dev)
repeated k rng c (suc n) x =
    let r = dispatch k rng x clean c in
    let rest = repeated k rng c n (with_device x r.device) in (r.outcome ∷ rest.0, rest.1)

-- A counter of the 16 with the value v, whose update the pairing key may do, is counted down to 0
-- by v updates, each answered OK, when no earlier command has spoiled the next one; at 0 an update
-- is refused with UPDATE_ERR and changes nothing.
pub repeated-mcounter_update :
    (k : Crates) (rng : OsRng) (idx v : ℕ) (x : Ctx)
    → idx ≤ mcounter_last
    → allowed x Uap.mcounter_update (idx / 4 * 8) ≡ true
    → lookup idx x.dev.mcounters ≡ some v
    → (d : Device) × (repeated k rng (update_command idx) v x
        ≡ (replicate v (answered (Code.ok ∷ [])), d))
      × (lookup idx d.mcounters ≡ some 0)
      × (dispatch k rng (with_device x d) clean (update_command idx)
          ≡ replied (Code.update_err ∷ []) d)
unfolding repeated set_mcounter allowed
repeated-mcounter_update k rng idx zero x h g n =
    (x.dev, refl, n, dispatch-update_zero k rng x idx h g n)
repeated-mcounter_update k rng idx (suc v) x h g n =
    let d = set_mcounter x.dev idx v in
    let step = dispatch-update_down k rng x idx v h g n in
    let (e, runs, low, refused) =
      repeated-mcounter_update k rng idx v (with_device x d) h g
        (lookup-insert_self idx v x.dev.mcounters) in
    (e, rw (step, runs) refl, low, refused)
