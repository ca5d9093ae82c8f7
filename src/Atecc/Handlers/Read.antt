-- ===== src/Atecc/Handlers/Read.antt =====
-- handlers/info.rs and handlers/read_zone.rs.
use simulators.Common.{
  ℕ, ◌+◌, ◌*◌, ◌/◌, bit_and, not, Option, List, length, min, get_elem?, replicate, ltb, leb, ◌==◌,
  if◌then◌else◌,
}
use simulators.Common.Results.{◌>>=◌}
use simulators.Common.Slices.{slice, splice}
use simulators.Atecc.Frame.{Command, parse_error, build_response, status_response}
use simulators.Atecc.Device.{Device, config_size, otp_size, num_slots, slot_size}

unfoldable pub info : Device → Command → Option (List ℕ)
unfolding slice
info d cmd =
    if not (cmd.p1 == 0x00)
    then status_response parse_error
    else build_response (slice 4 8 d.config)

-- Bits 2-0 of the address are the word, bits 4-3 the block; a 32-byte access ignores the word.
unfoldable pub linear_offset : ℕ → ℕ → ℕ
linear_offset addr len =
    let offset = bit_and addr 0x7 in
    let block = bit_and (addr / 8) 0x3 in block * 32 + (if len == 32 then 0 else offset * 4)

-- In the data zone bits 7-3 are the block and bits 11-8 the slot.
unfoldable pub data_offset : ℕ → ℕ → ℕ
data_offset addr len =
    let offset = bit_and addr 0x7 in
    let block = bit_and (addr / 8) 0x1F in block * 32 + (if len == 32 then 0 else offset * 4)

unfoldable pub data_slot : ℕ → ℕ
data_slot addr = bit_and (addr / 256) 0x0F

unfoldable pub read_linear : List ℕ → ℕ → ℕ → ℕ → Option (List ℕ)
unfolding slice
read_linear zone size addr len =
    let byte_offset = linear_offset addr len in
    if ltb size (byte_offset + len)
    then status_response parse_error
    else build_response (slice byte_offset (byte_offset + len) zone)

-- The bytes of a slot at an offset, with zeros behind the end of what was written.
unfoldable pub padded : List ℕ → ℕ → ℕ → List ℕ
unfolding slice splice
padded slot_data byte_offset len =
    let avail = min (length slot_data) (byte_offset + len) in
    if ltb byte_offset avail
    then splice 0 (slice byte_offset avail slot_data) (replicate len 0)
    else replicate len 0

unfoldable pub read_data : Device → ℕ → ℕ → Option (List ℕ)
read_data d addr len =
    if leb num_slots (data_slot addr)
    then status_response parse_error
    else (if ltb slot_size (data_offset addr len + len) then status_response parse_error else (do
      slot ← get_elem? d.slots (data_slot addr)
      build_response (padded slot.bytes (data_offset addr len) len)))

unfoldable pub read_zone : Device → Command → Option (List ℕ)
read_zone d cmd =
    let zone_id = bit_and cmd.p1 0x03 in
    let len : ℕ = if not (bit_and cmd.p1 0x80 == 0) then 32 else 4 in
    if zone_id == 0
    then read_linear d.config config_size cmd.p2 len
    else (if zone_id == 1
        then read_linear d.otp otp_size cmd.p2 len
        else (if zone_id == 2 then read_data d cmd.p2 len else status_response parse_error))
