-- ===== src/Se050/Transport.antt =====
-- SE050Sim/se050-sim/src/transport.rs: the simulator on the I2C bus. A write hands a frame to the
-- responder, and reads take the chunks of its answers in order.
use simulators.Common.{ℕ, Option, some, List, [], ◌∷◌, ◌++◌, length, take, drop, ltb, if◌then◌else◌}
use simulators.Common.Results.{Result, ok, err, ◌>>=◌}
use simulators.Se050.Aes.{Ciphers}
use simulators.Se050.Applet.{AppletVersion}
use simulators.Se050.Responder.{Card, T1Responder, process_frame}

pub data SimError : Type 0 where
  no_data buffer_too_small protocol_error : SimError

pub record Se050Simulator (card : Card) : Type 0 where
  pub t1 : T1Responder
  pub store : card.Store
  pub read_chunks : List (List ℕ)

module _ (cs : Ciphers) (card : Card) (version : AppletVersion) (crc16_x25 : List ℕ → ℕ) where
  -- `write`. `none` is the fuel of the response's frames, which is enough.
  unfoldable pub write : List ℕ → Se050Simulator card → List ℕ → Option (Se050Simulator card)
  write card_ch sim bytes = do
    (t1, store, chunks) ← process_frame cs card version crc16_x25 card_ch sim.t1 sim.store bytes
    some (record { t1 = t1; store = store; read_chunks = sim.read_chunks ++ chunks })

module _ (card : Card) where
  -- `read` into a buffer: the simulator, and the buffer as it is left.
  unfoldable pub read :
      Se050Simulator card → List ℕ → Se050Simulator card × Result (List ℕ) SimError
  read sim buf = elim sim.read_chunks [
    | [] ↦ (sim, err no_data)
    | chunk ∷ chunks ↦ (
      record sim { read_chunks = chunks },
      ok (
          if ltb (length buf) (length chunk)
          then take (length buf) chunk
          else chunk ++ drop (length chunk) buf),
    )
  ]
