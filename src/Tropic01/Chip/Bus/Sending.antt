-- ===== src/Tropic01/Chip/Bus/Sending.antt =====
-- TROPIC01Sim/tropic01-sim/src/chip.rs: a request that arrives byte by byte.
use simulators.Common.{
  ℕ, suc, ◌+◌, ◌≤◌, ◌<◌, ◌≡◌, ◌≢◌, refl, sym, subst, arith, true, false, Option, none, some, List,
  [], ◌∷◌, ◌++◌, length, get_or, replicate, if◌then◌else◌, if_intro, le→leb, lt→ltb, ne→==, eq→==,
  length-append,
}
use mathlib.Core.List.{append_assoc}
use simulators.Common.Results.{◌>>=◌}
use simulators.Tropic01.Frame.{max_l2_frame_size}
use simulators.Tropic01.L3.{OsRng}
use simulators.Tropic01.Store.{Device}
use simulators.Tropic01.Chip.{
  Platform, Mode, application, maintenance, alarm, requesting, no_response, Chip,
}
use simulators.Tropic01.Chip.Bus.{
  Machine, chip_status, csn_low, execute, complete, push_request_byte, first_byte, clock, transfer,
  get_response_req_id,
}

-- A frame's length byte counts its data.
abbrev pub Framed : List ℕ → Type 0
Framed buf = (4 ≤ length buf) × (length buf ≤ 256) × (length buf ≡ get_or buf 1 0 + 4)

complete_whole : (buf : List ℕ) → Framed buf → complete buf ≡ true
unfolding complete
complete_whole buf h =
    rw (le→leb 2 (length buf) (omega arith), eq→== (length buf) (get_or buf 1 0 + 4) h.2) refl

complete_part :
    (part rest : List ℕ)
    → Framed (part ++ rest)
    → length part < length (part ++ rest)
    → complete part ≡ false
unfolding complete
complete_part [] rest h l = refl
complete_part (x ∷ []) rest h l = refl
complete_part (x ∷ y ∷ part) rest h l =
    rw
      (
        le→leb 2 (suc (suc (length part))) (omega arith),
        ne→== (suc (suc (length part))) (y + 4) (λ e. absurd (omega arith)),
      )
      refl

-- The chip with a part of a request.
abbrev receiving : Chip → List ℕ → Chip
receiving chip part = record chip { phase = requesting; request = part }

abbrev finished : Machine → Machine
finished m = (record m.0 { phase = no_response }, m.1)

push_last :
    (w : Platform) (rng : OsRng) (chip : Chip) (dev : Device) (part : List ℕ) (b : ℕ)
    → Framed (part ++ (b ∷ []))
    → push_request_byte w rng (receiving chip part) dev b ≡ (
        execute w rng (receiving chip []) dev (part ++ (b ∷ [])) >>= λ (m : Machine).
        some (finished m))
unfolding push_request_byte
push_last w rng chip dev part b h =
    let n = length-append part (b ∷ []) in
    rw
      (
        lt→ltb (length part) max_l2_frame_size (omega (arith, h.1)),
        complete_whole (part ++ (b ∷ [])) h,
      )
      refl

push_more :
    (w : Platform) (rng : OsRng) (chip : Chip) (dev : Device) (part rest : List ℕ) (b c : ℕ)
    → Framed ((part ++ (b ∷ [])) ++ (c ∷ rest))
    → push_request_byte w rng (receiving chip part) dev b
      ≡ some (receiving chip (part ++ (b ∷ [])), dev)
unfolding push_request_byte
push_more w rng chip dev part rest b c h =
    let n = length-append part (b ∷ []) in
    let m = length-append (part ++ (b ∷ [])) (c ∷ rest) in
    rw
      (
        lt→ltb (length part) max_l2_frame_size (omega (arith, h.1)),
        complete_part (part ++ (b ∷ [])) (c ∷ rest) h (omega arith),
      )
      refl

abbrev deliver : List ℕ → Machine → Option (List ℕ × Machine)
deliver miso m = some (miso, finished m)

abbrev out_first : ℕ → List ℕ × Machine → Option (List ℕ × Machine)
out_first x rest = some (x ∷ rest.0, rest.1)

abbrev high_byte : Machine → Option (ℕ × Machine)
high_byte m = some (0xff, m)

abbrev finish_step : Machine → Option Machine
finish_step m = some (finished m)

abbrev received : Platform → OsRng → Chip → Device → List ℕ → List ℕ → Option (List ℕ × Machine)
received w rng chip dev part mosi =
    execute w rng (receiving chip []) dev (part ++ mosi) >>= deliver (replicate (length mosi) 0xff)

transfer-receiving :
    (w : Platform) (rng : OsRng) (mosi : List ℕ) (b : ℕ) (part : List ℕ) (chip : Chip)
    (dev : Device)
    → Framed (part ++ (b ∷ mosi))
    → transfer w rng (receiving chip part) dev (b ∷ mosi) ≡ received w rng chip dev part (b ∷ mosi)
unfolding transfer clock
transfer-receiving w rng [] b part chip dev h =
    rw (push_last w rng chip dev part b h)
      (finish (execute w rng (receiving chip []) dev (part ++ (b ∷ []))))
  where
    finish :
        (o : Option Machine)
        → (((o >>= finish_step) >>= high_byte) >>= λ (r : ℕ × Machine).
            transfer w rng r.1.0 r.1.1 [] >>= out_first r.0)
          ≡ (o >>= deliver (0xff ∷ []))
    finish none = refl
    finish (some m) = refl
transfer-receiving w rng (c ∷ mosi) b part chip dev h =
    let e : (part ++ (b ∷ [])) ++ (c ∷ mosi) ≡ part ++ (b ∷ c ∷ mosi) =
      append_assoc part (b ∷ []) (c ∷ mosi) in
    let h' = subst Framed (sym e) h in
    rw
      (
        push_more w rng chip dev part mosi b c h',
        transfer-receiving w rng mosi c (part ++ (b ∷ [])) chip dev h',
        e,
      )
      (finish (execute w rng (receiving chip []) dev (part ++ (b ∷ c ∷ mosi))))
  where
    finish :
        (o : Option Machine)
        → ((o >>= deliver (replicate (length (c ∷ mosi)) 0xff)) >>= out_first 0xff)
          ≡ (o >>= deliver (replicate (length (b ∷ c ∷ mosi)) 0xff))
    finish none = refl
    finish (some m) = refl

chip_status-request : (chip : Chip) → (chip_status (csn_low chip)).1.request ≡ []
unfolding chip_status csn_low
chip_status-request chip = by_mode chip.mode
  where
    by_mode :
        (m : Mode)
        → (elim m as (λ _. ℕ × Chip) [
          | application ↦ (0x01, csn_low chip)
          | maintenance ↦ (0x05, csn_low chip)
          | alarm ↦
              if chip.alarm_fresh
              then (0x03, record (csn_low chip) { alarm_fresh = false })
              else (0x02, csn_low chip)
        ]).1.request
          ≡ []
    by_mode application = refl
    by_mode maintenance = refl
    by_mode alarm =
        if_intro (λ (r : ℕ × Chip). r.1.request ≡ []) chip.alarm_fresh (λ _. refl) (λ _. refl)

-- A request frame of 4 to 256 bytes, whose length byte counts its data and whose first byte is not
-- that of a poll, is executed once, whole, with its last byte when it is clocked in byte by byte:
-- the transfer does what execute does on the frame, answers the status of the chip and then 0xff,
-- and leaves the phase in which nothing more is read.
pub transfer_request :
    (w : Platform) (rng : OsRng) (id : ℕ) (rest : List ℕ) (chip : Chip) (dev : Device)
    → Framed (id ∷ rest)
    → id ≢ get_response_req_id
    → transfer w rng (csn_low chip) dev (id ∷ rest) ≡ (
        execute w rng
          (record (chip_status (csn_low chip)).1 { phase = requesting; request = [] })
          dev
          (id ∷ rest)
        >>= λ (m : Machine). some (
          (chip_status (csn_low chip)).0 ∷ replicate (length rest) 0xff,
          (record m.0 { phase = no_response }, m.1),
        ))
unfolding transfer clock first_byte csn_low
transfer_request w rng id [] chip dev h n = absurd (omega (arith, h.0))
transfer_request w rng id (b ∷ rest) chip dev h n =
    let c = (chip_status (csn_low chip)).1 in
    let x = (chip_status (csn_low chip)).0 in
    rw
      (
        ne→== id get_response_req_id n,
        chip_status-request chip,
        push_more w rng c dev [] rest id b h,
        transfer-receiving w rng rest b (id ∷ []) c dev h,
      )
      (finish x (execute w rng (receiving c []) dev (id ∷ b ∷ rest)))
  where
    finish :
        (x : ℕ) (o : Option Machine)
        → ((o >>= deliver (replicate (length (b ∷ rest)) 0xff)) >>= out_first x)
          ≡ (o >>= deliver (x ∷ replicate (length (b ∷ rest)) 0xff))
    finish x none = refl
    finish x (some m) = refl
