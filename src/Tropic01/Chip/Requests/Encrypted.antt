-- ===== src/Tropic01/Chip/Requests/Encrypted.antt =====
-- TROPIC01Sim/tropic01-sim/src/chip.rs: Encrypted_Cmd_Req: the chunks of a command, its execution and
-- the chunks of its result.
use simulators.Common.{
  ℕ, zero, suc, ◌+◌, not, ◌&&◌, ◌||◌, Option, none, some, List, [], ◌∷◌, ◌++◌, length, get_or, take,
  drop, ltb, leb, ◌==◌, if◌then◌else◌,
}
use simulators.Common.Bytes.{le16}
use simulators.Common.Results.{ok, err, ◌>>=◌}
use simulators.Tropic01.Frame.{build_response, max_l2_data_size}
use simulators.Tropic01.Frame.Status
use simulators.Tropic01.L3.{OsRng, Ctx}
use simulators.Tropic01.L3.Dispatch.{answered, rejected, panicked, dispatch}
use simulators.Tropic01.L3.Sizes.{mutates_store}
use simulators.Tropic01.Session.{is_open, unwrap_l3_request, wrap_l3_response, SessionKeys}
use simulators.Tropic01.Store.{Device}
use simulators.Tropic01.Chip.{Platform, Chip, config_in_force, load_config, drop_session}
use simulators.Tropic01.Chip.Requests.Replies.{Reply, one_frame, acked}
use simulators.Tropic01.Chip.Requests.Replies.{Reply, one_frame, acked}

-- The loop over `wire.chunks(MAX_L2_DATA_SIZE)`; the fuel is the length of the wire.
unfoldable pub result_frames : ℕ → List ℕ → Option (List (List ℕ))
result_frames zero wire = some []
result_frames (suc fuel) wire =
    let rest = result_frames fuel (drop max_l2_data_size wire) in
    if length wire == 0
    then some []
    else (if leb (length wire) max_l2_data_size
        then (build_response Status.result_ok wire >>= λ f. some (f ∷ []))
        else build_response Status.result_cont (take max_l2_data_size wire) >>= λ f.
            rest >>= λ fs. some (f ∷ fs))

-- `keys.as_ref().map(|k| k.pkey_index).unwrap_or(0)`.
unfoldable pub session_pkey : Option SessionKeys → ℕ
session_pkey none = 0
session_pkey (some k) = k.pkey_index

-- `encrypted_cmd` from the result of the command on.
unfoldable pub send_result : Platform → Chip → Device → List ℕ → Option Reply
unfolding acked drop_session
send_result w chip dev result =
    let r = wrap_l3_response w.crypto chip.session result in
    let chip : Chip = record chip { session = r.1 } in
    elim r.0 [
      | err e ↦ acked Status.gen_err (drop_session chip) dev
      | ok wire ↦ build_response Status.request_ok [] >>= λ ack.
          result_frames (length wire) wire >>= λ fs.
          some (record { frames = ack ∷ fs; chip = chip; device = dev })
    ]

-- `encrypted_cmd` from the decrypted command on.
unfoldable pub run_plaintext : Platform → OsRng → Chip → Device → List ℕ → Option Reply
unfolding acked load_config
run_plaintext w rng chip dev plaintext =
    let chip = load_config chip dev in
    let x : Ctx = record {
      dev = dev;
      cfg = config_in_force chip dev;
      p = chip.personality;
      pkey = session_pkey chip.session.keys;
    } in
    let r = dispatch w.crates rng x chip.l3_state plaintext in
    let dirty = not (length plaintext == 0) && mutates_store (get_or plaintext 0 0) in
    let chip : Chip = record chip { l3_state = r.state; store_dirty = dirty || chip.store_dirty } in
    elim r.outcome [
      | panicked ↦ none
      | rejected ↦ acked Status.gen_err (drop_session chip) r.device
      | answered result ↦ send_result w chip r.device result
    ]

-- `encrypted_cmd` with all the chunks of a packet: `chip` has none of them any more.
unfoldable pub run_packet : Platform → OsRng → Chip → Device → ℕ → List ℕ → Option Reply
unfolding acked drop_session
run_packet w rng chip dev expected packet =
    let r = unwrap_l3_request w.crypto chip.session packet in
    if not (length packet == expected)
    then acked Status.gen_err (drop_session chip) dev
    else elim r.0 [
      | err e ↦ acked Status.tag_err (drop_session (record chip { session = r.1 })) dev
      | ok plaintext ↦ run_plaintext w rng (record chip { session = r.1 }) dev plaintext
    ]

-- `encrypted_cmd` behind the tests of the first chunk.
unfoldable pub add_chunk : Platform → OsRng → Chip → Device → ℕ → List ℕ → Option Reply
unfolding one_frame
add_chunk w rng chip dev expected chunk =
    let packet = chip.l3_packet ++ chunk in
    if ltb (length packet) expected
    then one_frame Status.request_cont []
        (record chip { l3_packet = packet; l3_expected = expected }) dev
    else run_packet w rng (record chip { l3_packet = []; l3_expected = 0 }) dev expected packet

unfoldable pub encrypted_cmd : Platform → OsRng → Chip → Device → List ℕ → Option Reply
unfolding one_frame
encrypted_cmd w rng chip dev chunk =
    if not (is_open chip.session)
    then one_frame Status.no_session [] (record chip { l3_packet = []; l3_expected = 0 }) dev
    else (if length chip.l3_packet == 0
        then (if ltb (length chunk) 2
            then one_frame Status.gen_err [] chip dev
            else add_chunk w rng chip dev (2 + le16 (get_or chunk 0 0) (get_or chunk 1 0) + 16)
                chunk)
        else add_chunk w rng chip dev chip.l3_expected chunk)
