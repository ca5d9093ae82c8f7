-- ===== src/Tropic01/Chip/Requests/Replies.antt =====
-- TROPIC01Sim/tropic01-sim/src/chip.rs: what a request leaves. A failed `assert!` in `build_response` is
-- `none`.
use simulators.Common.{ℕ, Option, some, List, [], ◌∷◌}
use simulators.Common.Results.{◌>>=◌}
use simulators.Tropic01.Frame.{build_response}
use simulators.Tropic01.Frame.Status
use simulators.Tropic01.Store.{Device}
use simulators.Tropic01.Chip.{Chip}

-- What a request leaves: the frames to queue, the chip and the device.
pub record Reply : Type 0 where
  pub frames : List (List ℕ)
  pub chip : Chip
  pub device : Device

-- `vec![build_response(status, body)]`.
unfoldable pub one_frame : ℕ → List ℕ → Chip → Device → Option Reply
one_frame status body chip dev =
    build_response status body >>= λ f. some (record { frames = f ∷ []; chip = chip; device = dev })

-- `vec![ack, build_response(status, &[])]`.
unfoldable pub acked : ℕ → Chip → Device → Option Reply
acked status chip dev = build_response Status.request_ok [] >>= λ ack.
    build_response status [] >>= λ f.
    some (record { frames = ack ∷ f ∷ []; chip = chip; device = dev })
