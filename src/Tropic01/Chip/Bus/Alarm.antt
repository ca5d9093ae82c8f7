-- ===== src/Tropic01/Chip/Bus/Alarm.antt =====
-- TROPIC01Sim/tropic01-sim/src/chip.rs: Alarm mode.
use simulators.Common.{
  ℕ, ◌≡◌, ◌≢◌, refl, ◌∙◌, true, Option, some, List, [], ◌∷◌, ◌++◌, length, ltb, ◌==◌, if◌then◌else◌,
  inl, inr, if_intro,
}
use simulators.Tropic01.Frame.{max_l2_frame_size}
use simulators.Tropic01.L3.{OsRng}
use simulators.Tropic01.Store.{Device}
use simulators.Tropic01.Chip.{
  Platform, Mode, application, alarm, requesting, responding, Chip, power_cycle,
}
use simulators.Tropic01.Chip.Bus.{
  Machine, chip_status, csn_low, csn_high, is_alarm, execute, complete, push_request_byte, poll,
  first_byte, clock, transfer, transaction, get_response_req_id,
}
use simulators.Tropic01.Chip.Bus.Sound.{Phase-cases}

-- What stays of the chip, and that it sends no response.
abbrev Silent : Chip → Device → Machine → Type 0
Silent chip dev m =
    (m.1 ≡ dev) × (m.0.mode ≡ alarm) × (m.0.session ≡ chip.session) × (m.0.phase ≢ responding)

is_alarm-alarm : (m : Mode) → m ≡ alarm → is_alarm m ≡ true
unfolding is_alarm
is_alarm-alarm m h = rw h refl

chip_status-alarm :
    (chip : Chip)
    → chip.mode ≡ alarm
    → ((chip_status chip).1.mode ≡ alarm) × ((chip_status chip).1.session ≡ chip.session)
unfolding chip_status
chip_status-alarm chip h =
    rw (chip_status, h)
      (if_intro (λ (r : ℕ × Chip). (r.1.mode ≡ alarm) × (r.1.session ≡ chip.session))
        chip.alarm_fresh (λ _. (h, refl)) (λ _. (h, refl)))

push_request_byte-alarm :
    (w : Platform) (rng : OsRng) (chip : Chip) (dev : Device) (b : ℕ)
    → chip.mode ≡ alarm
    → chip.phase ≡ requesting
    → (m : Machine) × (push_request_byte w rng chip dev b ≡ some m) × Silent chip dev m
unfolding push_request_byte execute
push_request_byte-alarm w rng chip dev b h f =
    let request =
      if ltb (length chip.request) max_l2_frame_size
      then chip.request ++ (b ∷ [])
      else chip.request in
    let P = λ (o : Option Machine). (m : Machine) × (o ≡ some m) × Silent chip dev m in
    if_intro P (complete request)
      (λ _. rw (is_alarm-alarm chip.mode h) (_, refl, (refl, h, refl, λ e. cc)))
      (λ _. (_, refl, (refl, h, refl, λ e. cc)))

first_byte-alarm :
    (w : Platform) (rng : OsRng) (chip : Chip) (dev : Device) (b : ℕ)
    → chip.mode ≡ alarm
    → (r : ℕ × Machine) × (first_byte w rng chip dev b ≡ some r) × Silent chip dev r.1
unfolding first_byte poll
first_byte-alarm w rng chip dev b h =
    let (m, s) = chip_status-alarm chip h in
    let P = λ (o : Option (ℕ × Machine)). (r : ℕ × Machine) × (o ≡ some r) × Silent chip dev r.1 in
    let c : Chip = record (chip_status chip).1 { phase = requesting } in
    let (n, run, (d, mode, session, phase)) = push_request_byte-alarm w rng c dev b m refl in
    if_intro P (b == get_response_req_id)
      (λ _. rw (is_alarm-alarm (chip_status chip).1.mode m) (_, refl, (refl, m, s, λ e. cc)))
      (λ _. rw run (_, refl, (d, mode, session ∙ s, phase)))

transfer-alarm :
    (w : Platform) (rng : OsRng) (mosi : List ℕ) (chip : Chip) (dev : Device)
    → chip.mode ≡ alarm
    → chip.phase ≢ responding
    → (miso : List ℕ) × (m : Machine) × (transfer w rng chip dev mosi ≡ some (miso, m))
      × Silent chip dev m
unfolding transfer clock
transfer-alarm w rng [] chip dev h f = ([], (chip, dev), refl, (refl, h, refl, f))
transfer-alarm w rng (b ∷ mosi) chip dev h f =
    let (r, run, (d, mode, session, phase)) = clocked in
    let (miso, m, rest, (d', mode', session', phase')) =
      transfer-alarm w rng mosi r.1.0 r.1.1 mode phase in
    (r.0 ∷ miso, m, rw (run, rest) refl, (d' ∙ d, mode', session' ∙ session, phase'))
  where
    clocked : (r : ℕ × Machine) × (clock w rng chip dev b ≡ some r) × Silent chip dev r.1
    clocked = elim (Phase-cases chip.phase) [
      | inl e ↦ rw (clock, e) (_, refl, (refl, h, refl, f))
      | inr (inl e) ↦ rw (clock, e) (first_byte-alarm w rng chip dev b h)
      | inr (inr (inl e)) ↦
          let (m, q, s) = push_request_byte-alarm w rng chip dev b h e in
          rw (clock, e, q) (_, refl, s)
      | inr (inr (inr (inl e))) ↦ absurd (f e)
      | inr (inr (inr (inr e))) ↦ rw (clock, e) (_, refl, (refl, h, refl, f))
    ]

-- In Alarm mode no transaction has an effect: whatever the host sends, the device is unchanged, the
-- session stays as it was, the chip remains in Alarm mode; and it is the power cycle that ends
-- the mode.
pub transaction-alarm :
    (w : Platform) (rng : OsRng) (mosi : List ℕ) (chip : Chip) (dev : Device)
    → chip.mode ≡ alarm
    → (miso : List ℕ) × (m : Machine) × (transaction w rng chip dev mosi ≡ some (miso, m))
      × ((m.1 ≡ dev) × (m.0.mode ≡ alarm) × (m.0.session ≡ chip.session))
      × ((power_cycle m.0).mode ≡ application)
unfolding transaction csn_low csn_high power_cycle
transaction-alarm w rng mosi chip dev h =
    let (miso, m, run, (d, mode, session, phase)) =
      transfer-alarm w rng mosi (csn_low chip) dev h (λ e. cc) in
    let (mode', session') = raised m.0 phase in
    (miso, (csn_high m.0, m.1), rw run refl, (d, mode' ∙ mode, session' ∙ session), refl)
  where
    raised :
        (c : Chip)
        → c.phase ≢ responding
        → ((csn_high c).mode ≡ c.mode) × ((csn_high c).session ≡ c.session)
    raised c f = elim (Phase-cases c.phase) [
      | inl e ↦ rw (csn_high, e) (refl, refl)
      | inr (inl e) ↦ rw (csn_high, e) (refl, refl)
      | inr (inr (inl e)) ↦ rw (csn_high, e) (refl, refl)
      | inr (inr (inr (inl e))) ↦ absurd (f e)
      | inr (inr (inr (inr e))) ↦ rw (csn_high, e) (refl, refl)
    ]
