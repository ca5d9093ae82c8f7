-- ===== src/Atecc/Handlers/Safety.antt =====
-- ATECC608Sim/atecc608-sim/src/handlers: the responses of the handlers of zones, and the handlers
-- against the sizes of the device.
use simulators.Common.{
  ℕ, ◌+◌, ◌≤◌, ◌≡◌, ◌≢◌, ◌∙◌, min, bit_and, Bool, false, not, none, List, arith, length, get_elem?,
  get_elem?-some, replicate, length-replicate, ltb, leb, ◌==◌, if◌then◌else◌, if_intro,
}
use simulators.Common.Results.{>>=_intro}
use simulators.Common.Slices.{slice, length-slice, length-splice}
use simulators.Atecc.Frame.{Command, parse_error}
use simulators.Atecc.Frame.Responses.{Answers, build_response-Answers, status_response-Answers}
use simulators.Atecc.Device.{Device, num_slots}
use simulators.Atecc.Device.Invariant.{IsDevice}
use simulators.Atecc.Handlers.Read.{
  info, linear_offset, data_offset, data_slot, read_linear, padded, read_data, read_zone,
}

-- A slot of the device exists, and is within its bound.
pub slot_at :
    (d : Device) (i : ℕ) → IsDevice d → leb num_slots i ≡ false → get_elem? d.slots i ≢ none
slot_at d i v small e =
    let (s, found) = get_elem?-some d.slots i (ground (arith, v.slots_sized)) in cc

pub info-Answers : (d : Device) (cmd : Command) → IsDevice d → Answers (info d cmd)
unfolding info
info-Answers d cmd v =
    let n = length-slice 4 8 d.config (omega arith) (omega (arith, v.config_sized)) in
    if_intro Answers (not (cmd.p1 == 0x00)) (λ _. status_response-Answers parse_error)
      (λ _. build_response-Answers (slice 4 8 d.config) (omega (arith, n)) (omega (arith, n)))

read_linear-Answers :
    (zone : List ℕ) (size addr len : ℕ)
    → length zone ≡ size
    → 1 ≤ len
    → len ≤ 64
    → Answers (read_linear zone size addr len)
unfolding read_linear
read_linear-Answers zone size addr len sized lo hi =
    let off = linear_offset addr len in
    if_intro Answers (ltb size (off + len)) (λ _. status_response-Answers parse_error)
      (λ e.
        let n = length-slice off (off + len) zone (omega arith) (ground arith) in
        build_response-Answers (slice off (off + len) zone) (omega (arith, n)) (omega (arith, n)))

pub length-padded : (bytes : List ℕ) (off len : ℕ) → length (padded bytes off len) ≡ len
unfolding padded
length-padded bytes off len =
    let avail = min (length bytes) (off + len) in
    if_intro (λ (xs : List ℕ). length xs ≡ len) (ltb off avail)
      (λ e.
        let n = length-slice off avail bytes (ground arith) (omega arith) in
        let replicated : length (replicate {A = ℕ} len 0) ≡ len = length-replicate len 0 in
        length-splice 0 (slice off avail bytes) (replicate len 0) (omega (arith, n, replicated))
        ∙ length-replicate len 0)
      (λ e. length-replicate len 0)

read_data-Answers :
    (d : Device) (addr len : ℕ) → IsDevice d → 1 ≤ len → len ≤ 64 → Answers (read_data d addr len)
unfolding read_data
read_data-Answers d addr len v lo hi =
    if_intro Answers (leb num_slots (data_slot addr)) (λ _. status_response-Answers parse_error)
      λ small.
        if_intro Answers (ltb 72 (data_offset addr len + len))
          (λ _. status_response-Answers parse_error)
          λ _. >>=_intro Answers (get_elem? d.slots (data_slot addr)) (slot_at d _ v small) λ s _.
            let n = length-padded s.bytes (data_offset addr len) len in
            build_response-Answers (padded s.bytes (data_offset addr len) len) (omega (arith, n))
              (omega (arith, n))

width_bounds : (b : Bool) → let n : ℕ = if b then 32 else 4 in (1 ≤ n) × (n ≤ 64)
width_bounds b = ground arith

pub read_zone-Answers : (d : Device) (cmd : Command) → IsDevice d → Answers (read_zone d cmd)
unfolding read_zone
read_zone-Answers d cmd v =
    let zone_id = bit_and cmd.p1 0x03 in
    let len : ℕ = if not (bit_and cmd.p1 0x80 == 0) then 32 else 4 in
    let (lo, hi) = width_bounds (not (bit_and cmd.p1 0x80 == 0)) in
    if_intro Answers (zone_id == 0)
      (λ _. read_linear-Answers d.config 128 cmd.p2 len v.config_sized lo hi)
      λ _.
        if_intro Answers (zone_id == 1)
          (λ _. read_linear-Answers d.otp 64 cmd.p2 len v.otp_sized lo hi)
          λ _.
            if_intro Answers (zone_id == 2) (λ _. read_data-Answers d cmd.p2 len v lo hi)
              (λ _. status_response-Answers parse_error)
