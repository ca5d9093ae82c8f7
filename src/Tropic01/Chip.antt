-- ===== src/Tropic01/Chip.antt =====
-- TROPIC01Sim/tropic01-sim/src/chip.rs: the state of the chip. The L2 requests are in Requests, the
-- bytes on the SPI bus in Bus.
pub mod Requests
pub mod Bus
use simulators.Common.{ℕ, Bool, true, false, Option, none, some, List, []}
use simulators.Tropic01.L3.{Crates}
use simulators.Tropic01.L3.Dispatch.{L3State}
use simulators.Tropic01.Personality.{Personality}
use simulators.Tropic01.Session.{Crypto, Session, closed, abort}
use simulators.Tropic01.Store.{Device, effective_config}

-- The crates behind the session and behind the commands.
pub record Platform : Type 0 where
  pub crypto : Crypto
  pub crates : Crates

pub data Mode : Type 0 where
  application maintenance alarm : Mode

pub data Phase : Type 0 where
  idle first requesting responding no_response : Phase

pub record Chip : Type 0 where
  pub personality : Personality
  pub mode : Mode
  pub alarm_fresh : Bool
  pub session : Session
  pub phase : Phase
  pub request : List ℕ
  pub queue : List (List ℕ)
  pub cursor : ℕ
  pub last_response : Option (List ℕ)
  pub busy_polls : ℕ
  pub busy_left : ℕ
  pub l3_packet : List ℕ
  pub l3_expected : ℕ
  pub active_config : Option (List ℕ)
  pub store_dirty : Bool
  pub l3_state : L3State

unfoldable pub new_chip : Personality → Chip
new_chip p = record {
  personality = p;
  mode = application;
  alarm_fresh = false;
  session = closed;
  phase = idle;
  request = [];
  queue = [];
  cursor = 0;
  last_response = none;
  busy_polls = 1;
  busy_left = 0;
  l3_packet = [];
  l3_expected = 0;
  active_config = none;
  store_dirty = false;
  l3_state = record { spect_size_error = false };
}

unfoldable pub set_busy_polls : ℕ → Chip → Chip
set_busy_polls n chip = record chip { busy_polls = n }

unfoldable pub take_store_dirty : Chip → Bool × Chip
take_store_dirty chip = (chip.store_dirty, record chip { store_dirty = false })

-- The configuration in force, read from the store when there is none yet.
unfoldable pub config_in_force : Chip → Device → List ℕ
config_in_force chip dev = elim chip.active_config [ some cfg ↦ cfg | none ↦ effective_config dev ]

unfoldable pub load_config : Chip → Device → Chip
unfolding config_in_force
load_config chip dev = record chip { active_config = some (config_in_force chip dev) }

unfoldable pub power_cycle : Chip → Chip
unfolding new_chip
power_cycle chip = record (new_chip chip.personality) { busy_polls = chip.busy_polls }

unfoldable pub drop_session : Chip → Chip
drop_session chip = record chip { session = abort chip.session; l3_packet = []; l3_expected = 0 }

unfoldable pub reboot : Mode → Chip → Chip
unfolding drop_session
reboot m chip = record (drop_session chip) {
  mode = m;
  active_config = none;
  l3_state = record { spect_size_error = false };
}
