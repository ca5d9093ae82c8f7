-- ===== src/Tropic01/L3/Runs/Destroy.antt =====
-- TROPIC01Sim/tropic01-sim/src/handlers/l3.rs: what MAC_And_Destroy depends on.
use simulators.Common.{
  ℕ, ◌*◌, ◌/◌, ◌≤◌, ◌≡◌, refl, ap, ◌∙◌, arith, true, List, [], ◌∷◌, ◌++◌, length, le→ltb, le→leb,
  some, take_all,
}
use simulators.Common.Maps.{lookup-insert_self}
use simulators.Common.Slices.{slice}
use simulators.Tropic01.Personality.{Personality}
use simulators.Tropic01.Store.{Device}
use simulators.Tropic01.L3.Code
use simulators.Tropic01.L3.CmdId
use simulators.Tropic01.L3.Uap
use simulators.Tropic01.L3.{Crates, Ctx, OsRng, allowed, reads, ok_fields}
use simulators.Tropic01.L3.Dispatch.{L3Outcome, answered, Dispatched, perform, outcome_of, dispatch}
use simulators.Tropic01.L3.Sizes.{known, one_of, size_ok}
use simulators.Tropic01.L3.Memory.{
  kmac256, macandd_content, macandd_slot_last, mac_and_destroy, set_macandd,
}
use simulators.Tropic01.L3.Runs.{clean, replied, on_slot, with_device, run_to, dispatch_lem}
use simulators.Tropic01.L3.Runs.Memory.{u16_at-on_slot}

abbrev pub destroy_command : ℕ → List ℕ → List ℕ
destroy_command slot input = on_slot CmdId.mac_and_destroy slot (0 ∷ input)

-- F1 and F2 of the documentation.
abbrev pub f1 : Crates → Device → ℕ → List ℕ → List ℕ
f1 k d slot input = kmac256 k d.macandd_keys.0 (input ++ (slot ∷ []))

abbrev pub f2 : Crates → Device → ℕ → List ℕ → List ℕ → List ℕ
f2 k d slot s s_new = kmac256 k d.macandd_keys.1 (s ++ (s_new ++ (slot ∷ [])))

destroy_size :
    (p : Personality) (input : List ℕ)
    → length input ≡ 32
    → size_ok p CmdId.mac_and_destroy (length (destroy_command 0 input)) ≡ true
unfolding size_ok
destroy_size p input h = rw h refl

mac_and_destroy_lem :
    (k : Crates) (x : Ctx) (slot : ℕ) (input : List ℕ)
    → slot ≤ macandd_slot_last
    → length input ≡ 32
    → allowed x Uap.mac_and_destroy (slot / 32 * 8) ≡ true
    → mac_and_destroy k x (destroy_command slot input) ≡ (
      some (
          Code.ok
          ∷ 0
          ∷ 0
          ∷ 0
          ∷ f2 k x.dev slot (macandd_content x.dev slot) (f1 k x.dev slot input)),
      set_macandd x.dev slot (f1 k x.dev slot input),
    )
unfolding mac_and_destroy ok_fields reads slice
mac_and_destroy_lem k x slot input h n g =
    rw
      (
        u16_at-on_slot CmdId.mac_and_destroy slot (0 ∷ input) (omega arith),
        le→ltb macandd_slot_last slot h,
        g,
        le→leb 3 (length (destroy_command slot input)) (omega arith),
        le→leb 36 (length (destroy_command slot input)) (omega arith),
        take_all 32 input (omega arith),
      )
      refl

dispatch-mac_and_destroy :
    (k : Crates) (rng : OsRng) (x : Ctx) (slot : ℕ) (input : List ℕ)
    → slot ≤ macandd_slot_last
    → length input ≡ 32
    → allowed x Uap.mac_and_destroy (slot / 32 * 8) ≡ true
    → dispatch k rng x clean (destroy_command slot input)
      ≡ replied
          (Code.ok
            ∷ 0
            ∷ 0
            ∷ 0
            ∷ f2 k x.dev slot (macandd_content x.dev slot) (f1 k x.dev slot input))
          (set_macandd x.dev slot (f1 k x.dev slot input))
unfolding perform known one_of outcome_of
dispatch-mac_and_destroy k rng x slot input h n g =
    dispatch_lem k rng x CmdId.mac_and_destroy _ refl (destroy_size x.p input n)
    ∙ ap run_to (mac_and_destroy_lem k x slot input h n g)

macandd_content-set_macandd :
    (d : Device) (slot : ℕ) (s : List ℕ) → macandd_content (set_macandd d slot s) slot ≡ s
unfolding macandd_content set_macandd
macandd_content-set_macandd d slot s =
    rw (macandd_content, lookup-insert_self slot s d.macandd_slots) refl

same_keys :
    (k : Crates) (d : Device) (slot : ℕ) (s second : List ℕ)
    → ◌≡◌ {A = L3Outcome}
        (answered (
          Code.ok
          ∷ 0
          ∷ 0
          ∷ 0
          ∷ f2 k (set_macandd d slot s) slot s (f1 k (set_macandd d slot s) slot second)))
        (answered (Code.ok ∷ 0 ∷ 0 ∷ 0 ∷ f2 k d slot s (f1 k d slot second)))
unfolding set_macandd
same_keys k d slot s second = refl

-- After a MAC_And_Destroy with a first input on a slot of the 128, one with a second input answers
-- F2 (F1 (first), F1 (second)), when both inputs have 32 bytes, the pairing key has the privilege
-- and no earlier command has spoiled the next one: the answer depends on the two inputs, the slot
-- and the keys of the device, and on nothing else that the slot ever held.
pub mac_and_destroy_twice :
    (k : Crates) (rng : OsRng) (x : Ctx) (slot : ℕ) (first second : List ℕ)
    → slot ≤ macandd_slot_last
    → length first ≡ 32
    → length second ≡ 32
    → allowed x Uap.mac_and_destroy (slot / 32 * 8) ≡ true
    → (dispatch k rng
        (with_device x (dispatch k rng x clean (destroy_command slot first)).device)
        clean
        (destroy_command slot second)).outcome
      ≡ answered
          (Code.ok ∷ 0 ∷ 0 ∷ 0 ∷ f2 k x.dev slot (f1 k x.dev slot first) (f1 k x.dev slot second))
unfolding allowed
mac_and_destroy_twice k rng x slot first second h m n g =
    let d = set_macandd x.dev slot (f1 k x.dev slot first) in
    let step =
      ap (λ (r : Dispatched). r.device) (dispatch-mac_and_destroy k rng x slot first h m g) in
    let next = dispatch-mac_and_destroy k rng (with_device x d) slot second h n g in
    rw (step, next, macandd_content-set_macandd x.dev slot (f1 k x.dev slot first))
      (same_keys k x.dev slot (f1 k x.dev slot first) second)
