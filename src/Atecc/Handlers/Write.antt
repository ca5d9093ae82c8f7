-- ===== src/Atecc/Handlers/Write.antt =====
-- handlers/write_zone.rs.
use simulators.Common.{
  ℕ, ◌+◌, bit_and, not, ◌&&◌, Option, some, List, length, get_elem?, set, ltb, leb, ◌==◌,
  if◌then◌else◌,
}
use simulators.Common.Results.{Result, ok, err, ◌>>=◌}
use simulators.Common.Slices.{splice, resize}
use simulators.Atecc.Frame.{Command, success, parse_error, execution_error, status_response, reply}
use simulators.Atecc.Device.{
  Device, SlotData, config_size, otp_size, num_slots, slot_size, config_locked, data_locked,
  slot_locked,
}
use simulators.Atecc.Handlers.Read.{linear_offset, data_offset, data_slot}

unfoldable pub write_config : Device → ℕ → List ℕ → Result Device ℕ
unfolding splice
write_config d addr bytes =
    let off = linear_offset addr (length bytes) in
    if config_locked d
    then err execution_error
    else (if ltb config_size (off + length bytes)
        then err parse_error
        else ok (record d { config = splice off bytes d.config }))

unfoldable pub write_otp : Device → ℕ → List ℕ → Result Device ℕ
unfolding splice
write_otp d addr bytes =
    let off = linear_offset addr (length bytes) in
    if data_locked d
    then err execution_error
    else (if ltb otp_size (off + length bytes)
        then err parse_error
        else ok (record d { otp = splice off bytes d.otp }))

-- A slot grows with zeros to the end of the write.
unfoldable pub overwrite : SlotData → ℕ → List ℕ → SlotData
unfolding splice resize
overwrite slot off bytes =
    let stop = off + length bytes in
    let grown = if ltb (length slot.bytes) stop then resize stop 0 slot.bytes else slot.bytes in
    record { bytes = splice off bytes grown }

-- The outer `Option` is the panic of indexing the slots.
unfoldable pub write_data : Device → ℕ → List ℕ → Option (Result Device ℕ)
write_data d addr bytes =
    let slot = data_slot addr in
    let off = data_offset addr (length bytes) in
    if leb num_slots slot
    then some (err parse_error)
    else (if data_locked d && slot_locked d slot
        then some (err execution_error)
        else (if ltb slot_size (off + length bytes) then some (err parse_error) else (do
          old ← get_elem? d.slots slot
          some (ok (record d { slots = set d.slots slot (overwrite old off bytes) })))))

-- The match on `result`: a refused write leaves the device as it was.
unfoldable pub answer_write : Device → Result Device ℕ → Option (Device × List ℕ)
answer_write d (ok d') = reply d' (status_response success)
answer_write d (err sw) = reply d (status_response sw)

unfoldable pub write_zone : Device → Command → Option (Device × List ℕ)
unfolding answer_write
write_zone d cmd =
    let zone_id = bit_and cmd.p1 0x03 in
    let expected : ℕ = if not (bit_and cmd.p1 0x80 == 0) then 32 else 4 in
    if not (bit_and cmd.p1 0x40 == 0)
    then reply d (status_response execution_error)
    else (if not (length cmd.payload == expected)
        then reply d (status_response parse_error)
        else (if zone_id == 0
            then answer_write d (write_config d cmd.p2 cmd.payload)
            else (if zone_id == 1
                then answer_write d (write_otp d cmd.p2 cmd.payload)
                else (if zone_id == 2
                    then (do r ← write_data d cmd.p2 cmd.payload; answer_write d r)
                    else reply d (status_response parse_error)))))
