-- ===== src/Tropic01/Chip/Requests.antt =====
-- TROPIC01Sim/tropic01-sim/src/chip.rs: what the chip does with one L2 request. A failed `assert!` in
-- `build_response` is `none`, and so is a register that the configuration in force does not have.
pub mod Results
pub mod Sound
pub mod Process
pub mod Replies
pub mod Encrypted
use simulators.Common.{
  ℕ, zero, suc, ◌+◌, ◌/◌, ◌%◌, Bool, true, false, not, ◌&&◌, ◌||◌, Option, none, some, List, [],
  ◌∷◌, ◌++◌, length, get_or, take, drop, bit_and, ltb, leb, ◌==◌, if◌then◌else◌,
}
use simulators.Common.Bytes.{le16}
use simulators.Common.Results.{ok, err, ◌>>=◌}
use simulators.Tropic01.Frame.{
  Request, parse_request, build_response, FrameError, bad_crc, max_l2_data_size,
}
use simulators.Tropic01.Frame.Status
use simulators.Tropic01.GetInfo.{get_info}
use simulators.Tropic01.L3.{OsRng, Ctx}
use simulators.Tropic01.L3.Dispatch.{answered, rejected, dispatch}
use simulators.Tropic01.L3.Sizes.{mutates_store}
use simulators.Tropic01.Personality.{fw_log, bad_pairing_index_alarms}
use simulators.Tropic01.Session.{
  is_open, handshake, handshake_req_len, unwrap_l3_request, wrap_l3_response, abort, SessionKeys,
}
use simulators.Tropic01.Store.{Device}
use simulators.Tropic01.Chip.{
  Platform, Mode, application, maintenance, alarm, Chip, config_in_force, load_config, drop_session,
  reboot,
}
use simulators.Tropic01.Chip.Requests.Replies.{Reply, one_frame, acked}
use simulators.Tropic01.Chip.Requests.Encrypted.{
  result_frames, session_pkey, send_result, run_plaintext, run_packet, add_chunk, encrypted_cmd,
}

abbrev pub req_get_info : ℕ
req_get_info = 0x01

abbrev pub req_handshake : ℕ
req_handshake = 0x02

abbrev pub req_encrypted_cmd : ℕ
req_encrypted_cmd = 0x04

abbrev pub req_encrypted_session_abt : ℕ
req_encrypted_session_abt = 0x08

abbrev pub req_resend : ℕ
req_resend = 0x10

abbrev pub req_sleep : ℕ
req_sleep = 0x20

abbrev pub req_get_log : ℕ
req_get_log = 0xa2

abbrev pub req_startup : ℕ
req_startup = 0xb3

abbrev pub sleep_kind_sleep : ℕ
sleep_kind_sleep = 0x05

abbrev pub startup_reboot : ℕ
startup_reboot = 0x01

abbrev pub startup_maintenance_reboot : ℕ
startup_maintenance_reboot = 0x03

unfoldable pub handshake_request : Platform → OsRng → Chip → Device → List ℕ → Option Reply
unfolding one_frame drop_session
handshake_request w rng chip dev payload =
    let fresh : Chip = record chip { l3_packet = []; l3_expected = 0 } in
    let r = handshake w.crypto chip.session dev (rng 32) payload in
    if not (length payload == handshake_req_len)
    then one_frame Status.gen_err [] chip dev
    else (if ltb 3 (get_or payload 32 0) && bad_pairing_index_alarms chip.personality
        then some (record {
          frames = [];
          chip = record (drop_session chip) { mode = alarm; alarm_fresh = true };
          device = dev;
        })
        else elim r.0 [
          | ok body ↦ one_frame Status.request_ok body (record fresh { session = r.1 }) dev
          | err e ↦ one_frame Status.hsk_err [] (record fresh { session = abort r.1 }) dev
        ])

unfoldable pub startup : Chip → Device → List ℕ → Option Reply
unfolding one_frame load_config reboot
startup chip dev payload =
    let ena = not (bit_and (get_or (config_in_force chip dev) 0 0) 8 == 0) in
    let kind = get_or payload 0 0 in
    if not (length payload == 1)
    then one_frame Status.gen_err [] chip dev
    else (if kind == startup_reboot
        then one_frame Status.request_ok [] (reboot application chip) dev
        else (if kind == startup_maintenance_reboot
            then (if not (ltb 0 (length (config_in_force chip dev)))
                then none
                else one_frame Status.request_ok []
                    (reboot (if ena then maintenance else application) (load_config chip dev)) dev)
            else one_frame Status.gen_err [] chip dev))

unfoldable pub sleep : Chip → Device → List ℕ → Option Reply
unfolding one_frame load_config drop_session
sleep chip dev payload =
    let loaded = load_config chip dev in
    if not (length payload == 1) || not (get_or payload 0 0 == sleep_kind_sleep)
    then one_frame Status.gen_err [] chip dev
    else (if not (ltb 6 (length (config_in_force chip dev)))
        then none
        else (if bit_and (get_or (config_in_force chip dev) 6 0) 1 == 0
            then one_frame Status.resp_disabled [] loaded dev
            else one_frame Status.request_ok [] (drop_session loaded) dev))

unfoldable pub in_maintenance : Mode → Bool
in_maintenance maintenance = true
in_maintenance application = false
in_maintenance alarm = false

unfoldable pub in_application : Mode → Bool
in_application application = true
in_application maintenance = false
in_application alarm = false

-- The requests of Application mode.
unfoldable pub application_request : Platform → OsRng → Chip → Device → ℕ → List ℕ → Option Reply
unfolding one_frame drop_session
application_request w rng chip dev id payload =
    if id == req_handshake
    then handshake_request w rng chip dev payload
    else (if id == req_encrypted_cmd
        then encrypted_cmd w rng chip dev payload
        else (if id == req_encrypted_session_abt
            then (if not (length payload == 0)
                then one_frame Status.gen_err [] chip dev
                else one_frame Status.request_ok [] (drop_session chip) dev)
            else (if id == req_sleep
                then sleep chip dev payload
                else one_frame Status.unknown_err [] chip dev)))

-- `process` with a parsed request.
unfoldable pub route_request : Platform → OsRng → Chip → Device → ℕ → List ℕ → Option Reply
unfolding one_frame
route_request w rng chip dev id payload =
    if id == req_resend
    then one_frame Status.gen_err [] chip dev
    else (if id == req_get_info
        then (if not (length payload == 2)
            then one_frame Status.gen_err [] chip dev
            else (get_info w.crypto.sha256 dev (in_maintenance chip.mode) (get_or payload 0 0)
                  (get_or payload 1 0)
                >>= λ f. some (record { frames = f ∷ []; chip = chip; device = dev })))
        else (if id == req_get_log
            then (if not (length payload == 0)
                then one_frame Status.gen_err [] chip dev
                else one_frame Status.request_ok (fw_log chip.personality) chip dev)
            else (if id == req_startup
                then startup chip dev payload
                else (if in_application chip.mode
                    then application_request w rng chip dev id payload
                    else one_frame Status.unknown_err [] chip dev))))

-- `process` with a request that is not one.
unfoldable pub refuse_frame : FrameError → Chip → Device → Option Reply
unfolding one_frame
refuse_frame bad_crc chip dev = one_frame Status.crc_err [] chip dev
refuse_frame e chip dev = one_frame Status.gen_err [] chip dev

unfoldable pub process : Platform → OsRng → Chip → Device → List ℕ → Option Reply
unfolding one_frame
process w rng chip dev raw = elim (parse_request raw) [
  | ok r ↦ route_request w rng chip dev r.req_id r.payload
  | err e ↦ refuse_frame e chip dev
]
