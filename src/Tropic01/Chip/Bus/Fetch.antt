-- ===== src/Tropic01/Chip/Bus/Fetch.antt =====
-- TROPIC01Sim/tropic01-sim/src/chip.rs: the host that polls for the response.
use simulators.Common.{
  inl, inr, ℕ, zero, suc, ◌+◌, ◌-◌, ◌≡◌, refl, ap, ◌∙◌, arith, true, false, Option, some, List, [],
  ◌∷◌, length, replicate, ltb, leb, ◌==◌, if◌then◌else◌, le→leb, lt→ltb, le→ltb, ne→==,
}
use simulators.Common.Results.{◌>>=◌}
use simulators.Tropic01.L3.{OsRng}
use simulators.Tropic01.Store.{Device}
use simulators.Tropic01.Chip.{
  Platform, Mode, application, maintenance, alarm, idle, responding, no_response, Chip,
}
use simulators.Tropic01.Chip.Bus.{
  Machine, chip_status, csn_low, csn_high, consume_front, is_alarm, poll, first_byte, clock,
  transfer, transaction, get_response_req_id,
}
use simulators.Tropic01.Chip.Bus.Polling.{
  Mode-cases, poll-busy, poll-ready, transfer-no_response, transfer-responding, bytes_from,
  bytes_from_whole,
}

-- The bytes of a poll: the request of a response, and clocks for the response.
abbrev pub polling : List ℕ → List ℕ
polling dummy = get_response_req_id ∷ dummy

transfer-polling :
    (w : Platform) (rng : OsRng) (dummy : List ℕ) (chip : Chip) (dev : Device)
    → transfer w rng (csn_low chip) dev (polling dummy) ≡ (
        transfer w rng (poll (csn_low chip)).1 dev dummy >>= λ (rest : List ℕ × Machine).
        some ((poll (csn_low chip)).0 ∷ rest.0, rest.1))
unfolding transfer clock first_byte csn_low
transfer-polling w rng dummy chip dev = refl

queue_length :
    (q : List (List ℕ)) (front : List ℕ) (rest : List (List ℕ))
    → q ≡ front ∷ rest
    → (length q == 0) ≡ false
queue_length q front rest h = rw h (ne→== (suc (length rest)) 0 (λ e. absurd (omega arith)))

abbrev polled : Chip → Chip
polled chip = record chip { phase = idle; request = []; cursor = 0; busy_left = chip.busy_left - 1 }

transaction-busy :
    (w : Platform) (rng : OsRng) (dummy front : List ℕ) (rest : List (List ℕ)) (chip : Chip)
    (dev : Device)
    → is_alarm chip.mode ≡ false
    → chip.queue ≡ front ∷ rest
    → ltb 0 chip.busy_left ≡ true
    → (miso : List ℕ) × (transaction w rng chip dev (polling dummy)
        ≡ some (miso, (polled chip, dev)))
unfolding transaction csn_low csn_high
transaction-busy w rng dummy front rest chip dev a q b =
    let c = csn_low chip in
    let p = poll-busy c a (queue_length chip.queue front rest q) b in
    (
      (poll c).0 ∷ replicate (length dummy) 0xff,
      rw
          (
            transaction,
            transfer-polling w rng dummy chip dev,
            p,
            transfer-no_response w rng dummy
                (record c { busy_left = c.busy_left - 1; phase = no_response }) dev refl,
          )
          refl,
    )

consume_front_lem :
    (c : Chip) (front : List ℕ) (rest : List (List ℕ))
    → c.queue ≡ front ∷ rest
    → leb (length front) c.cursor ≡ true
    → consume_front c ≡ record c { last_response = some front; queue = rest }
unfolding consume_front
consume_front_lem c front rest h l = by_queue c.queue h
  where
    by_queue :
        (q : List (List ℕ))
        → q ≡ front ∷ rest
        → (elim q as (λ _. Chip) [
          | [] ↦ c
          | f ∷ r ↦
              if leb (length f) c.cursor then record c { last_response = some f; queue = r } else c
        ])
          ≡ record c { last_response = some front; queue = rest }
    by_queue q e = rw (e, l) refl

-- The status byte that tells the host that the chip is ready, by its mode. In Alarm mode there is none.
unfoldable pub ready_status : Mode → ℕ
ready_status application = 0x01
ready_status maintenance = 0x05
ready_status alarm = 0x00

chip_status-ready :
    (chip : Chip)
    → is_alarm chip.mode ≡ false
    → (chip_status (csn_low chip)).0 ≡ ready_status chip.mode
unfolding chip_status csn_low ready_status is_alarm
chip_status-ready chip h = elim (Mode-cases chip.mode) [
  | inl m ↦ rw (chip_status, m) refl
  | inr (inl m) ↦ rw (chip_status, m) refl
  | inr (inr m) ↦ absurd (let h' = rw m at h in cc)
]

-- What the host has when a poll brings the response.
abbrev Fetched : Mode → Device → List ℕ → List (List ℕ) → List ℕ → Machine → Type 0
Fetched mode dev front rest miso m =
    (miso ≡ ready_status mode ∷ front)
    × (m.0.queue ≡ rest)
    × (m.0.last_response ≡ some front)
    × (m.1 ≡ dev)
    × (is_alarm m.0.mode ≡ false)

transaction-ready :
    (w : Platform) (rng : OsRng) (dummy front : List ℕ) (rest : List (List ℕ)) (chip : Chip)
    (dev : Device)
    → is_alarm chip.mode ≡ false
    → chip.queue ≡ front ∷ rest
    → ltb 0 chip.busy_left ≡ false
    → length dummy ≡ length front
    → (miso : List ℕ) × (m : Machine) × (transaction w rng chip dev (polling dummy)
        ≡ some (miso, m))
      × Fetched chip.mode dev front rest miso m
unfolding transaction csn_low csn_high
transaction-ready w rng dummy front rest chip dev a q b n =
    let c = csn_low chip in
    let ready : Chip = record c { phase = responding; cursor = 0 } in
    let clocked : Chip = record ready { cursor = 0 + length dummy } in
    let p = poll-ready c a (queue_length chip.queue front rest q) b in
    let t = transfer-responding w rng front rest dummy ready dev refl q in
    let whole = ap (bytes_from front 0) n ∙ bytes_from_whole front in
    let eaten =
      consume_front_lem clocked front rest q
        (le→leb (length front) (0 + length dummy) (omega arith)) in
    (
      (chip_status c).0 ∷ bytes_from front 0 (length dummy),
      (csn_high clocked, dev),
      rw (transaction, transfer-polling w rng dummy chip dev, p, t) refl,
      (
        ap (λ (s : ℕ). s ∷ bytes_from front 0 (length dummy)) (chip_status-ready chip a)
            ∙ ap (λ (l : List ℕ). ready_status chip.mode ∷ l) whole,
        ap (λ (r : Chip). r.queue) eaten,
        ap (λ (r : Chip). r.last_response) eaten,
        refl,
        ap (λ (r : Chip). is_alarm r.mode) eaten ∙ a,
      ),
    )

-- The host polls `n` times in vain and then once more.
unfoldable pub host_polls :
    Platform → OsRng → List ℕ → ℕ → Chip → Device → Option (List ℕ × Machine)
host_polls w rng dummy zero chip dev = transaction w rng chip dev (polling dummy)
host_polls w rng dummy (suc n) chip dev =
    transaction w rng chip dev (polling dummy) >>= λ (r : List ℕ × Machine).
    host_polls w rng dummy n r.1.0 r.1.1

-- A response is always fetched: with the frame at the head of the queue and the chip busy for n
-- more polls, outside Alarm mode, the host that polls with as many clocks as the frame has
-- bytes gets, with the poll after those n, the byte that means ready in its mode, 0x01 in
-- application mode and 0x05 in maintenance mode, and then the frame whole; the frame leaves the
-- queue, becomes the one that a Resend_Req replays, and the device is unchanged.
pub host_polls_fetch :
    (w : Platform) (rng : OsRng) (dummy front : List ℕ) (rest : List (List ℕ)) (n : ℕ) (chip : Chip)
    (dev : Device)
    → is_alarm chip.mode ≡ false
    → chip.queue ≡ front ∷ rest
    → chip.busy_left ≡ n
    → length dummy ≡ length front
    → (miso : List ℕ) × (m : Machine) × (host_polls w rng dummy n chip dev ≡ some (miso, m))
      × ((miso ≡ ready_status chip.mode ∷ front)
          × (m.0.queue ≡ rest)
          × (m.0.last_response ≡ some front)
          × (m.1 ≡ dev)
          × (is_alarm m.0.mode ≡ false))
unfolding host_polls
host_polls_fetch w rng dummy front rest zero chip dev a q b l =
    transaction-ready w rng dummy front rest chip dev a q (le→ltb 0 chip.busy_left (omega arith)) l
host_polls_fetch w rng dummy front rest (suc n) chip dev a q b l =
    let (miso, run) =
      transaction-busy w rng dummy front rest chip dev a q
        (lt→ltb 0 chip.busy_left (omega arith)) in
    let (out, m, more, end) =
      host_polls_fetch w rng dummy front rest n (polled chip) dev a q (omega arith) l in
    (out, m, rw run more, end)
