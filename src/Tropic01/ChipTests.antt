-- ===== src/Tropic01/ChipTests.antt =====
-- The theorems on the TROPIC01's session and chip at concrete inputs.
use simulators.Common.{ℕ, ◌≡◌, refl, arith, true, false, some, List, [], ◌∷◌, length, replicate}
use simulators.Common.Maps.{lookup}
use simulators.Common.Results.{ok, err, ◌>>=◌}
use simulators.Tropic01.L3.Step.Bounds.{WellFormed}
use simulators.Tropic01.Personality.{es012}
use simulators.Tropic01.Session.{
  SessionKeys, closed, handshake, unwrap_l3_request, wrap_l3_response, nonce_overflow, u32_max,
}
use simulators.Tropic01.Session.Nonce.{nonce_at}
use simulators.Tropic01.Session.Handshake.{
  Host, handshake_request, host_finish, handshake-agreement,
}
use simulators.Tropic01.Session.Tunnel.{
  packet, at_command, seal_all, unwrap_all, oks, unwrap_all-seal_all, last_nonce,
}
use simulators.Tropic01.Store.{PairingState}
use simulators.Tropic01.Chip.{
  Chip, alarm, application, requesting, no_response, new_chip, power_cycle,
}
use simulators.Tropic01.Chip.Requests.Encrypted.{result_frames}
use simulators.Tropic01.Chip.Requests.Results.{join_results, join_results-result_frames}
use simulators.Tropic01.Chip.Bus.{
  Machine, chip_status, csn_low, execute, transfer, transaction, is_alarm,
}
use simulators.Tropic01.Chip.Requests.Sound.{Good}
use simulators.Tropic01.Chip.Bus.Alarm.{transaction-alarm}
use simulators.Tropic01.Chip.Bus.Fetch.{host_polls, host_polls_fetch, ready_status}
use simulators.Tropic01.Chip.Bus.Sending.{transfer_request}
use simulators.Tropic01.Chip.Bus.Sound.{transaction-total}
use simulators.Tropic01.Toy.{
  toy, toy-Documented, platform, platform-Sized, zeros, key, device, device-WellFormed,
}

abbrev host : Host
host = record { shipriv = 1 ∷ []; ehpriv = 2 ∷ []; st_pub = key; slot = 0 }

slot-found :
    lookup 0 device.pairing_slots
    ≡ some (record { public_key = toy.x25519_public host.shipriv; state = PairingState.written })
unfolding lookup
slot-found = refl

handshake-agreement_example :
    (response : List ℕ) × (keys : SessionKeys) × (handshake toy closed device
        (zeros 32)
        (handshake_request toy host)
      ≡ (ok response, record { keys = some keys }))
    × (host_finish toy host response ≡ some keys)
handshake-agreement_example =
    handshake-agreement toy closed device host (zeros 32) toy-Documented refl refl slot-found

abbrev keys : SessionKeys
keys = record {
  k_cmd = key;
  k_res = key;
  nonce_cmd = nonce_at u32_max;
  nonce_res = nonce_at u32_max;
  pkey_index = 0;
}

abbrev commands : List (List ℕ)
commands = (1 ∷ 10 ∷ []) ∷ (1 ∷ 20 ∷ 30 ∷ []) ∷ []

unwrap_all-seal_all_example :
    unwrap_all toy (at_command keys 7) (seal_all toy key 7 commands)
    ≡ (oks commands, at_command keys 9)
unwrap_all-seal_all_example =
    unwrap_all-seal_all toy keys commands 7 toy-Documented (omega arith) (omega arith)

last_nonce_example :
    (unwrap_l3_request toy
        (record { keys = some keys })
        (packet toy keys.k_cmd keys.nonce_cmd (1 ∷ []))
      ≡ (err nonce_overflow, record { keys = some keys }))
    × (wrap_l3_response toy (record { keys = some keys }) (1 ∷ [])
        ≡ (err nonce_overflow, record { keys = some keys }))
last_nonce_example = last_nonce toy keys (1 ∷ []) toy-Documented (omega arith) refl refl

abbrev get_chip_id : List ℕ
get_chip_id = 0x01 ∷ 0x02 ∷ 0x01 ∷ 0x00 ∷ 0x2b ∷ 0x92 ∷ []

new_chip-Good : Good es012 (new_chip es012)
unfolding new_chip
new_chip-Good = (refl, λ cfg h. absurd cc)

transaction-total_example :
    (miso : List ℕ) × (m : Machine) × (transaction platform zeros
        (new_chip es012)
        device
        get_chip_id
      ≡ some (miso, m))
    × (length miso ≡ 6)
    × (WellFormed es012 m.1 × Good es012 m.0)
transaction-total_example =
    transaction-total platform zeros es012 get_chip_id (new_chip es012) device platform-Sized
      device-WellFormed new_chip-Good

transfer_request_example : transfer platform zeros (csn_low (new_chip es012)) device get_chip_id ≡ (
    execute platform zeros
      (record (chip_status (csn_low (new_chip es012))).1 { phase = requesting; request = [] })
      device
      get_chip_id
    >>= λ (m : Machine). some (
      (chip_status (csn_low (new_chip es012))).0 ∷ replicate 5 0xff,
      (record m.0 { phase = no_response }, m.1),
    ))
transfer_request_example =
    transfer_request platform zeros 0x01 (0x02 ∷ 0x01 ∷ 0x00 ∷ 0x2b ∷ 0x92 ∷ []) (new_chip es012)
      device (omega arith) (λ e. absurd (omega arith))

-- A chip with two frames to fetch that is busy for three polls.
abbrev busy : Chip
busy = record (new_chip es012) { queue = (1 ∷ 2 ∷ []) ∷ (3 ∷ []) ∷ []; busy_left = 3 }

busy_calm : is_alarm busy.mode ≡ false
unfolding is_alarm new_chip
busy_calm = refl

host_polls_fetch_example :
    (miso : List ℕ) × (m : Machine) × (host_polls platform zeros (0 ∷ 0 ∷ []) 3 busy device
      ≡ some (miso, m))
    × ((miso ≡ 0x01 ∷ 1 ∷ 2 ∷ [])
        × (m.0.queue ≡ (3 ∷ []) ∷ [])
        × (m.0.last_response ≡ some (1 ∷ 2 ∷ []))
        × (m.1 ≡ device)
        × (is_alarm m.0.mode ≡ false))
unfolding ready_status new_chip
host_polls_fetch_example =
    host_polls_fetch platform zeros (0 ∷ 0 ∷ []) (1 ∷ 2 ∷ []) ((3 ∷ []) ∷ []) 3 busy device
      busy_calm refl refl refl

abbrev alarmed : Chip
alarmed = record (new_chip es012) { mode = alarm; alarm_fresh = true }

transaction-alarm_example :
    (miso : List ℕ) × (m : Machine) × (transaction platform zeros alarmed device get_chip_id
      ≡ some (miso, m))
    × ((m.1 ≡ device) × (m.0.mode ≡ alarm) × (m.0.session ≡ alarmed.session))
    × ((power_cycle m.0).mode ≡ application)
transaction-alarm_example = transaction-alarm platform zeros get_chip_id alarmed device refl

abbrev wire : List ℕ
wire = replicate 300 5

join_results-result_frames_example :
    (fs : List (List ℕ)) × (result_frames 300 wire ≡ some fs) × (join_results fs ≡ some wire)
join_results-result_frames_example = join_results-result_frames 300 wire (omega arith) (omega arith)
