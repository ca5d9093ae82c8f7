-- ===== src/Atecc/Handlers/Lock.antt =====
-- handlers/lock.rs.
use simulators.Common.{ℕ, ◌/◌, bit_and, true, Option, List, leb, ◌==◌, if◌then◌else◌}
use simulators.Atecc.Frame.{Command, success, parse_error, execution_error, status_response, reply}
use simulators.Atecc.Device.{
  Device, num_slots, config_locked, data_locked, slot_locked, set_config_locked, set_data_locked,
  set_slot_locked,
}

unfoldable pub lock : Device → Command → Option (Device × List ℕ)
lock d cmd =
    let mode_bits = bit_and cmd.p1 0x03 in
    let slot = bit_and (cmd.p1 / 4) 0x0F in
    if mode_bits == 0
    then (if config_locked d
        then reply d (status_response execution_error)
        else reply (set_config_locked d true) (status_response success))
    else (if mode_bits == 1
        then (if data_locked d
            then reply d (status_response execution_error)
            else reply (set_data_locked d true) (status_response success))
        else (if mode_bits == 2
            then (if leb num_slots slot
                then reply d (status_response parse_error)
                else (if slot_locked d slot
                    then reply d (status_response execution_error)
                    else reply (set_slot_locked d slot true) (status_response success)))
            else reply d (status_response parse_error)))
