-- ===== src/Tropic01/Chip/Bus.antt =====
-- TROPIC01Sim/tropic01-sim/src/chip.rs: the bytes on the SPI bus between two edges of the chip select.
-- `rng` is what `OsRng` gives while the bytes of one transfer arrive, which execute one request at most.
pub mod Sound
pub mod Polling
pub mod Sending
pub mod Alarm
pub mod Fetch
use simulators.Common.{
  ℕ, suc, ◌+◌, ◌-◌, Bool, true, false, not, ◌&&◌, Option, none, some, List, [], ◌∷◌, ◌++◌, length,
  get_or, get_elem?, ltb, leb, ◌==◌, if◌then◌else◌, bit_and, bit_xor,
}
use simulators.Common.Results.{ok, err, ◌>>=◌}
use simulators.Tropic01.Frame.{parse_request, max_l2_frame_size}
use simulators.Tropic01.Frame.Status
use simulators.Tropic01.L3.{OsRng}
use simulators.Tropic01.Personality.{busy_poll_ready}
use simulators.Tropic01.Store.{Device}
use simulators.Tropic01.Chip.{
  Platform, Mode, application, maintenance, alarm, Phase, idle, first, requesting, responding,
  no_response, Chip,
}
use simulators.Tropic01.Chip.Requests.{process, req_resend, in_application}
use simulators.Tropic01.Chip.Requests.Replies.{Reply}

abbrev pub get_response_req_id : ℕ
get_response_req_id = 0xaa

-- The status byte, and whether the alarm was reported.
unfoldable pub chip_status : Chip → ℕ × Chip
chip_status chip = elim chip.mode [
  | application ↦ (0x01, chip)
  | maintenance ↦ (0x05, chip)
  | alarm ↦ if chip.alarm_fresh then (0x03, record chip { alarm_fresh = false }) else (0x02, chip)
]

unfoldable pub csn_low : Chip → Chip
csn_low chip = record chip { phase = first; request = []; cursor = 0 }

-- `csn_high` in the phase of a response: a frame that was clocked out is consumed.
unfoldable pub consume_front : Chip → Chip
consume_front chip = elim chip.queue [
  | [] ↦ chip
  | front ∷ rest ↦
      if leb (length front) chip.cursor
      then record chip { last_response = some front; queue = rest }
      else chip
]

unfoldable pub csn_high : Chip → Chip
unfolding consume_front
csn_high chip =
    let consumed : Chip = elim chip.phase [
      | responding ↦ consume_front chip
      | idle ↦ chip
      | first ↦ chip
      | requesting ↦ chip
      | no_response ↦ chip
    ] in
    record consumed { cursor = 0; phase = idle }

-- `matches!` of a Resend_Req without data.
unfoldable pub is_resend : List ℕ → Bool
is_resend raw = elim (parse_request raw) [
  | ok r ↦ (r.req_id == req_resend) && (length r.payload == 0)
  | err e ↦ false
]

abbrev pub Machine : Type 0
Machine = Chip × Device

-- `execute` from `process` on: what was not fetched is discarded.
unfoldable pub answer_request : Platform → OsRng → Chip → Device → List ℕ → Option Machine
answer_request w rng chip dev raw = process w rng chip dev raw >>= λ (r : Reply). some (
  record r.chip {
    queue = r.frames;
    busy_left = if length r.frames == 0 then 0 else r.chip.busy_polls;
  },
  r.device,
)

-- The frame that `execute` replays, if the request asks for one.
unfoldable pub replayed : Chip → List ℕ → Option (List ℕ)
replayed chip raw = if is_resend raw then chip.last_response else none

unfoldable pub is_alarm : Mode → Bool
is_alarm alarm = true
is_alarm application = false
is_alarm maintenance = false

unfoldable pub execute : Platform → OsRng → Chip → Device → List ℕ → Option Machine
execute w rng chip dev raw =
    if is_alarm chip.mode then some (chip, dev) else elim (replayed chip raw) [
      | some f ↦ some (record chip { queue = f ∷ chip.queue; busy_left = chip.busy_polls }, dev)
      | none ↦ answer_request w rng chip dev raw
    ]

-- A frame is complete when its length byte says so.
unfoldable pub complete : List ℕ → Bool
complete request = leb 2 (length request) && (length request == get_or request 1 0 + 4)

unfoldable pub push_request_byte : Platform → OsRng → Chip → Device → ℕ → Option Machine
push_request_byte w rng chip dev b =
    let request =
      if ltb (length chip.request) max_l2_frame_size
      then chip.request ++ (b ∷ [])
      else chip.request in
    if complete request
    then (execute w rng (record chip { request = [] }) dev request >>= λ (m : Machine).
        some (record m.0 { phase = no_response }, m.1))
    else some (record chip { request = request }, dev)

-- The first byte of a transaction that polls for a response: the byte that goes out, and the chip.
unfoldable pub poll : Chip → ℕ × Chip
poll chip =
    let (cs, chip) = chip_status chip in
    if is_alarm chip.mode
    then (cs, record chip { phase = no_response })
    else (if not (length chip.queue == 0) && ltb 0 chip.busy_left
        then (
          if in_application chip.mode && busy_poll_ready chip.personality
              then cs
              else bit_and cs (bit_xor 0xff 0x01),
          record chip { busy_left = chip.busy_left - 1; phase = no_response },
        )
        else (if length chip.queue == 0
            then (cs, record chip { phase = no_response })
            else (cs, record chip { phase = responding; cursor = 0 })))

unfoldable pub first_byte : Platform → OsRng → Chip → Device → ℕ → Option (ℕ × Machine)
first_byte w rng chip dev b =
    let status = chip_status chip in
    if b == get_response_req_id
    then (let p = poll chip in some (p.0, (p.1, dev)))
    else push_request_byte w rng (record status.1 { phase = requesting }) dev b >>= λ (m : Machine).
        some (status.0, m)

-- The byte of the response at the cursor.
unfoldable pub response_byte : Chip → ℕ
response_byte chip = elim chip.queue [ [] ↦ 0xff | front ∷ rest ↦ get_or front chip.cursor 0xff ]

-- One byte in, one byte out.
unfoldable pub clock : Platform → OsRng → Chip → Device → ℕ → Option (ℕ × Machine)
clock w rng chip dev b = elim chip.phase [
  | idle ↦ some (0xff, (chip, dev))
  | first ↦ first_byte w rng chip dev b
  | requesting ↦ push_request_byte w rng chip dev b >>= λ (m : Machine). some (0xff, m)
  | responding ↦ some (response_byte chip, (record chip { cursor = suc chip.cursor }, dev))
  | no_response ↦ some (Status.no_resp, (chip, dev))
]

unfoldable pub transfer : Platform → OsRng → Chip → Device → List ℕ → Option (List ℕ × Machine)
transfer w rng chip dev [] = some ([], (chip, dev))
transfer w rng chip dev (b ∷ mosi) = clock w rng chip dev b >>= λ (r : ℕ × Machine).
    transfer w rng r.1.0 r.1.1 mosi >>= λ (rest : List ℕ × Machine). some (r.0 ∷ rest.0, rest.1)

-- A transaction of the host: the chip select low, the bytes, the chip select high.
unfoldable pub transaction : Platform → OsRng → Chip → Device → List ℕ → Option (List ℕ × Machine)
unfolding csn_low csn_high
transaction w rng chip dev mosi =
    transfer w rng (csn_low chip) dev mosi >>= λ (r : List ℕ × Machine).
    some (r.0, (csn_high r.1.0, r.1.1))
