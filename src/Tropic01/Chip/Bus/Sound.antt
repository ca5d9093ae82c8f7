-- ===== src/Tropic01/Chip/Bus/Sound.antt =====
-- TROPIC01Sim/tropic01-sim/src/chip.rs: transactions, their panics, and the bounds of the store.
use simulators.Common.{
  ℕ, suc, ◌≡◌, refl, ap, not, ◌&&◌, Option, some, List, [], ◌∷◌, ◌++◌, ◌⊎◌, length, ltb, leb, ◌==◌,
  if◌then◌else◌, inl, inr, if_intro, Option-cases,
}
use simulators.Tropic01.Frame.{max_l2_frame_size}
use simulators.Tropic01.L3.{OsRng}
use simulators.Tropic01.L3.Step.Bounds.{WellFormed}
use simulators.Tropic01.Personality.{Personality}
use simulators.Tropic01.Store.{Device}
use simulators.Tropic01.Chip.{
  Platform, Phase, idle, first, requesting, responding, no_response, Chip,
}
use simulators.Tropic01.Chip.Requests.Sound.{Sized, Good}
use simulators.Tropic01.Chip.Requests.Process.{process-Sound}
use simulators.Tropic01.Chip.Bus.Polling.{Mode-cases}
use simulators.Tropic01.Chip.Bus.{
  Machine, chip_status, csn_low, csn_high, consume_front, answer_request, replayed, is_alarm,
  execute, complete, push_request_byte, poll, first_byte, clock, transfer, transaction,
  get_response_req_id,
}

abbrev Kept : Personality → Machine → Type 0
Kept p m = WellFormed p m.1 × Good p m.0

abbrev SoundStep : Personality → Option Machine → Type 0
SoundStep p o = (m : Machine) × (o ≡ some m) × (WellFormed p m.1 × Good p m.0)

chip_status-Good : (p : Personality) (chip : Chip) → Good p chip → Good p (chip_status chip).1
unfolding chip_status
chip_status-Good p chip e = elim (Mode-cases chip.mode) [
  | inl m ↦ rw (chip_status, m) e
  | inr (inl m) ↦ rw (chip_status, m) e
  | inr (inr m) ↦
      rw (chip_status, m)
        (if_intro (λ (r : ℕ × Chip). Good p r.1) chip.alarm_fresh (λ _. e) (λ _. e))
]

answer_request-Sound :
    (w : Platform) (rng : OsRng) (p : Personality) (chip : Chip) (dev : Device) (raw : List ℕ)
    → Sized w rng
    → WellFormed p dev
    → Good p chip
    → SoundStep p (answer_request w rng chip dev raw)
unfolding answer_request
answer_request-Sound w rng p chip dev raw laws wf e =
    let (r, q, kept, same) = process-Sound w rng p chip dev raw laws wf e in
    rw (answer_request, q) (_, refl, (kept, same))

execute-Sound :
    (w : Platform) (rng : OsRng) (p : Personality) (chip : Chip) (dev : Device) (raw : List ℕ)
    → Sized w rng
    → WellFormed p dev
    → Good p chip
    → SoundStep p (execute w rng chip dev raw)
unfolding execute
execute-Sound w rng p chip dev raw laws wf e =
    if_intro (SoundStep p) (is_alarm chip.mode) (λ _. ((chip, dev), refl, (wf, e)))
      (λ _. elim (Option-cases (replayed chip raw)) [
        | inl q ↦ rw q (answer_request-Sound w rng p chip dev raw laws wf e)
        | inr (f, q) ↦ rw q (_, refl, (wf, e))
      ])

push_request_byte-Sound :
    (w : Platform) (rng : OsRng) (p : Personality) (chip : Chip) (dev : Device) (b : ℕ)
    → Sized w rng
    → WellFormed p dev
    → Good p chip
    → SoundStep p (push_request_byte w rng chip dev b)
unfolding push_request_byte
push_request_byte-Sound w rng p chip dev b laws wf e =
    let request =
      if ltb (length chip.request) max_l2_frame_size
      then chip.request ++ (b ∷ [])
      else chip.request in
    let (m, q, kept) = execute-Sound w rng p (record chip { request = [] }) dev request laws wf e in
    if_intro (SoundStep p) (complete request) (λ _. rw q (_, refl, kept)) (λ _. (_, refl, (wf, e)))

poll-Good : (p : Personality) (chip : Chip) → Good p chip → Good p (poll chip).1
unfolding poll
poll-Good p chip e =
    let s = chip_status-Good p chip e in
    let P = λ (r : ℕ × Chip). Good p r.1 in
    let c = (chip_status chip).1 in
    if_intro P (is_alarm c.mode) (λ _. s)
      (λ _.
        if_intro P (not (length c.queue == 0) && ltb 0 c.busy_left) (λ _. s)
          (λ _. if_intro P (length c.queue == 0) (λ _. s) (λ _. s)))

abbrev SoundByte : Personality → Option (ℕ × Machine) → Type 0
SoundByte p o = (r : ℕ × Machine) × (o ≡ some r) × (WellFormed p r.1.1 × Good p r.1.0)

first_byte-Sound :
    (w : Platform) (rng : OsRng) (p : Personality) (chip : Chip) (dev : Device) (b : ℕ)
    → Sized w rng
    → WellFormed p dev
    → Good p chip
    → SoundByte p (first_byte w rng chip dev b)
unfolding first_byte
first_byte-Sound w rng p chip dev b laws wf e =
    let c : Chip = record (chip_status chip).1 { phase = requesting } in
    let (m, q, kept) =
      push_request_byte-Sound w rng p c dev b laws wf (chip_status-Good p chip e) in
    if_intro (SoundByte p) (b == get_response_req_id) (λ _. (_, refl, (wf, poll-Good p chip e)))
      (λ _. rw q (_, refl, kept))

pub Phase-cases :
    (h : Phase)
    → (h ≡ idle) ⊎ ((h ≡ first) ⊎ ((h ≡ requesting) ⊎ ((h ≡ responding) ⊎ (h ≡ no_response))))
Phase-cases idle = inl refl
Phase-cases first = inr (inl refl)
Phase-cases requesting = inr (inr (inl refl))
Phase-cases responding = inr (inr (inr (inl refl)))
Phase-cases no_response = inr (inr (inr (inr refl)))

clock-Sound :
    (w : Platform) (rng : OsRng) (p : Personality) (chip : Chip) (dev : Device) (b : ℕ)
    → Sized w rng
    → WellFormed p dev
    → Good p chip
    → SoundByte p (clock w rng chip dev b)
unfolding clock
clock-Sound w rng p chip dev b laws wf e = elim (Phase-cases chip.phase) [
  | inl h ↦ rw (clock, h) (_, refl, (wf, e))
  | inr (inl h) ↦ rw (clock, h) (first_byte-Sound w rng p chip dev b laws wf e)
  | inr (inr (inl h)) ↦
      let (m, q, kept) = push_request_byte-Sound w rng p chip dev b laws wf e in
      rw (clock, h, q) (_, refl, kept)
  | inr (inr (inr (inl h))) ↦ rw (clock, h) (_, refl, (wf, e))
  | inr (inr (inr (inr h))) ↦ rw (clock, h) (_, refl, (wf, e))
]

transfer-Sound :
    (w : Platform) (rng : OsRng) (p : Personality) (mosi : List ℕ) (chip : Chip) (dev : Device)
    → Sized w rng
    → WellFormed p dev
    → Good p chip
    → (miso : List ℕ) × (m : Machine) × (transfer w rng chip dev mosi ≡ some (miso, m))
      × (length miso ≡ length mosi)
      × Kept p m
unfolding transfer
transfer-Sound w rng p [] chip dev laws wf e = ([], (chip, dev), refl, refl, (wf, e))
transfer-Sound w rng p (b ∷ mosi) chip dev laws wf e =
    let (r, q, kept) = clock-Sound w rng p chip dev b laws wf e in
    let (miso, m, run, n, end) = transfer-Sound w rng p mosi r.1.0 r.1.1 laws kept.0 kept.1 in
    (r.0 ∷ miso, m, rw (q, run) refl, ap suc n, end)

csn_high-Good : (p : Personality) (chip : Chip) → Good p chip → Good p (csn_high chip)
unfolding csn_high consume_front
csn_high-Good p chip e = elim (Phase-cases chip.phase) [
  | inl h ↦ rw (csn_high, h) e
  | inr (inl h) ↦ rw (csn_high, h) e
  | inr (inr (inl h)) ↦ rw (csn_high, h) e
  | inr (inr (inr (inl h))) ↦ rw (csn_high, h) (consumed chip.queue refl)
  | inr (inr (inr (inr h))) ↦ rw (csn_high, h) e
]
  where
    consumed : (q : List (List ℕ)) → chip.queue ≡ q → Good p (consume_front chip)
    consumed [] h = rw (consume_front, h) e
    consumed (f ∷ q) h =
        rw (consume_front, h) (if_intro (Good p) (leb (length f) chip.cursor) (λ _. e) (λ _. e))

-- For cryptography of the documented lengths, random bytes included, on a device within its
-- bounds, and for a chip of its personality whose configuration in force, once it is read, has
-- 128 registers: whatever bytes the host clocks in between two edges of the chip select, no frame
-- is built with more data than it holds, no command reads its bytes or a configuration out of
-- range, and no Ed25519 seed is taken from a key of other than 32 bytes, each of which would
-- panic. The transaction ends with as many bytes, the device stays within its bounds, and the
-- chip keeps its personality and that size.
pub transaction-total :
    (w : Platform) (rng : OsRng) (p : Personality) (mosi : List ℕ) (chip : Chip) (dev : Device)
    → Sized w rng
    → WellFormed p dev
    → Good p chip
    → (miso : List ℕ) × (m : Machine) × (transaction w rng chip dev mosi ≡ some (miso, m))
      × (length miso ≡ length mosi)
      × (WellFormed p m.1 × Good p m.0)
unfolding transaction csn_low
transaction-total w rng p mosi chip dev laws wf e =
    let (miso, m, run, n, kept) = transfer-Sound w rng p mosi (csn_low chip) dev laws wf e in
    (miso, (csn_high m.0, m.1), rw run refl, n, (kept.0, csn_high-Good p m.0 kept.1))
