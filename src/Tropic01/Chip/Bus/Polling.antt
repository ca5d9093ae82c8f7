-- ===== src/Tropic01/Chip/Bus/Polling.antt =====
-- TROPIC01Sim/tropic01-sim/src/chip.rs: how the host fetches a response.
use simulators.Common.{
  ◌⊎◌, inl, inr, ℕ, zero, suc, ◌+◌, ◌-◌, ◌≡◌, refl, ap, ◌∙◌, arith, true, false, Option, some, List,
  [], ◌∷◌, length, get_or, replicate, ltb, ◌==◌, if◌then◌else◌,
}
use simulators.Common.Results.{◌>>=◌}
use simulators.Tropic01.Frame.Status
use simulators.Tropic01.L3.{OsRng}
use simulators.Tropic01.Store.{Device}
use simulators.Tropic01.Chip.{
  Platform, Mode, application, maintenance, alarm, Phase, idle, first, requesting, responding,
  no_response, Chip,
}
use simulators.Tropic01.Chip.Bus.{
  Machine, chip_status, is_alarm, poll, first_byte, clock, transfer, response_byte,
  push_request_byte,
}

pub Mode-cases : (m : Mode) → (m ≡ application) ⊎ ((m ≡ maintenance) ⊎ (m ≡ alarm))
Mode-cases application = inl refl
Mode-cases maintenance = inr (inl refl)
Mode-cases alarm = inr (inr refl)

chip_status-calm : (c : Chip) → is_alarm c.mode ≡ false → (chip_status c).1 ≡ c
unfolding chip_status is_alarm
chip_status-calm c h = by_mode c.mode h
  where
    by_mode :
        (m : Mode)
        → is_alarm m ≡ false
        → (elim m as (λ _. ℕ × Chip) [
          | application ↦ (0x01, c)
          | maintenance ↦ (0x05, c)
          | alarm ↦ if c.alarm_fresh then (0x03, record c { alarm_fresh = false }) else (0x02, c)
        ]).1
          ≡ c
    by_mode application e = refl
    by_mode maintenance e = refl
    by_mode alarm e = absurd cc

pub poll-busy :
    (c : Chip)
    → is_alarm c.mode ≡ false
    → (length c.queue == 0) ≡ false
    → ltb 0 c.busy_left ≡ true
    → (poll c).1 ≡ record c { busy_left = c.busy_left - 1; phase = no_response }
unfolding poll
poll-busy c h q b = rw (poll, chip_status-calm c h, h, q, b) refl

pub poll-ready :
    (c : Chip)
    → is_alarm c.mode ≡ false
    → (length c.queue == 0) ≡ false
    → ltb 0 c.busy_left ≡ false
    → poll c ≡ ((chip_status c).0, record c { phase = responding; cursor = 0 })
unfolding poll
poll-ready c h q b = rw (poll, chip_status-calm c h, h, q, b) refl

clock-responding :
    (w : Platform) (rng : OsRng) (c : Chip) (dev : Device) (b : ℕ)
    → c.phase ≡ responding
    → clock w rng c dev b ≡ some (response_byte c, (record c { cursor = suc c.cursor }, dev))
unfolding clock
clock-responding w rng c dev b h = by_phase c.phase h
  where
    by_phase :
        (p : Phase)
        → p ≡ responding
        → (elim p as (λ _. Option (ℕ × Machine)) [
          | idle ↦ some (0xff, (c, dev))
          | first ↦ first_byte w rng c dev b
          | requesting ↦ push_request_byte w rng c dev b >>= λ (m : Machine). some (0xff, m)
          | responding ↦ some (response_byte c, (record c { cursor = suc c.cursor }, dev))
          | no_response ↦ some (Status.no_resp, (c, dev))
        ])
          ≡ some (response_byte c, (record c { cursor = suc c.cursor }, dev))
    by_phase p e = rw e refl

clock-no_response :
    (w : Platform) (rng : OsRng) (c : Chip) (dev : Device) (b : ℕ)
    → c.phase ≡ no_response
    → clock w rng c dev b ≡ some (0xff, (c, dev))
unfolding clock
clock-no_response w rng c dev b h = by_phase c.phase h
  where
    by_phase :
        (p : Phase)
        → p ≡ no_response
        → (elim p as (λ _. Option (ℕ × Machine)) [
          | idle ↦ some (0xff, (c, dev))
          | first ↦ first_byte w rng c dev b
          | requesting ↦ push_request_byte w rng c dev b >>= λ (m : Machine). some (0xff, m)
          | responding ↦ some (response_byte c, (record c { cursor = suc c.cursor }, dev))
          | no_response ↦ some (Status.no_resp, (c, dev))
        ])
          ≡ some (0xff, (c, dev))
    by_phase p e = rw e refl

pub transfer-no_response :
    (w : Platform) (rng : OsRng) (mosi : List ℕ) (c : Chip) (dev : Device)
    → c.phase ≡ no_response
    → transfer w rng c dev mosi ≡ some (replicate (length mosi) 0xff, (c, dev))
unfolding transfer clock
transfer-no_response w rng [] c dev h = refl
transfer-no_response w rng (b ∷ mosi) c dev h =
    rw (clock-no_response w rng c dev b h, transfer-no_response w rng mosi c dev h) refl

-- The bytes of a frame from a position on; past its end the bus reads 0xff.
unfoldable pub bytes_from : List ℕ → ℕ → ℕ → List ℕ
bytes_from front c zero = []
bytes_from front c (suc n) = get_or front c 0xff ∷ bytes_from front (suc c) n

bytes_from-tail :
    (x : ℕ) (front : List ℕ) (c n : ℕ) → bytes_from (x ∷ front) (suc c) n ≡ bytes_from front c n
unfolding bytes_from
bytes_from-tail x front c zero = refl
bytes_from-tail x front c (suc n) =
    ap (λ (t : List ℕ). get_or front c 0xff ∷ t) (bytes_from-tail x front (suc c) n)

pub bytes_from_whole : (front : List ℕ) → bytes_from front 0 (length front) ≡ front
unfolding bytes_from
bytes_from_whole [] = refl
bytes_from_whole (x ∷ front) =
    ap (λ (t : List ℕ). x ∷ t) (bytes_from-tail x front 0 (length front) ∙ bytes_from_whole front)

response_byte-front :
    (c : Chip) (front : List ℕ) (rest : List (List ℕ))
    → c.queue ≡ front ∷ rest
    → response_byte c ≡ get_or front c.cursor 0xff
unfolding response_byte
response_byte-front c front rest h = elim_queue c.queue h
  where
    elim_queue :
        (q : List (List ℕ))
        → q ≡ front ∷ rest
        → (elim q as (λ _. ℕ) [ [] ↦ 0xff | f ∷ r ↦ get_or f c.cursor 0xff ])
          ≡ get_or front c.cursor 0xff
    elim_queue q e = rw e refl

pub transfer-responding :
    (w : Platform) (rng : OsRng) (front : List ℕ) (rest : List (List ℕ)) (mosi : List ℕ) (c : Chip)
    (dev : Device)
    → c.phase ≡ responding
    → c.queue ≡ front ∷ rest
    → transfer w rng c dev mosi
      ≡ some (
        bytes_from front c.cursor (length mosi),
        (record c { cursor = c.cursor + length mosi }, dev),
      )
unfolding transfer bytes_from
transfer-responding w rng front rest [] c dev h q =
    let e : c.cursor ≡ c.cursor + 0 = omega arith in
    ap (λ (n : ℕ). some ([], (record c { cursor = n }, dev))) e
transfer-responding w rng front rest (b ∷ mosi) c dev h q =
    let next : Chip = record c { cursor = suc c.cursor } in
    let one = clocked in
    let more = transfer-responding w rng front rest mosi next dev h q in
    let e : suc c.cursor + length mosi ≡ c.cursor + suc (length mosi) = omega arith in
    rw (one, more)
      (ap
        (λ (n : ℕ).
          some (bytes_from front c.cursor (suc (length mosi)), (record c { cursor = n }, dev)))
        e)
  where
    clocked :
        clock w rng c dev b
        ≡ some (get_or front c.cursor 0xff, (record c { cursor = suc c.cursor }, dev))
    clocked =
        clock-responding w rng c dev b h
        ∙ ap (λ (t : ℕ). some (t, (record c { cursor = suc c.cursor }, dev)))
            (response_byte-front c front rest q)
