-- ===== src/Stsafe/Server.antt =====
-- STSAFEA120Sim/stsafe-a120-sim/src/bin/tcp_server.rs: one connection, from its first byte to its end.
-- The input is every byte that the client will send; reading past it is the end of the stream.
pub mod Progress
pub mod Refinement
use simulators.Common.{
  ℕ, zero, suc, ◌+◌, Bool, not, ◌||◌, Option, none, some, List, [], ◌∷◌, ◌++◌, length, take, drop,
  ltb, ◌==◌, if◌then◌else◌,
}
use simulators.Common.Bytes.{hi, lo, be16}
use simulators.Stsafe.Crypto.{P256, Entropy}
use simulators.Stsafe.Frame.{max_frame_length_a120}
use simulators.Stsafe.Store.{Device, Session, new_session}
use simulators.Stsafe.Dispatch.{Outcome, dispatch}

-- What the surroundings of the process give to one command: random values, and whether the store
-- could be saved and the response written.
pub record Env (p : P256) : Type 0 where
  pub entropy : Entropy p
  pub saved : Bool
  pub written : Bool

-- `Ok(())` and `Err`.
pub data Ending : Type 0 where
  closed failed : Ending

module _ (p : P256) where
  pub record Conn : Type 0 where
    pub input : List ℕ
    pub device : Device
    pub session : Session p
    pub served : ℕ
    pub sent : List ℕ

  -- One round of the loop: on with the rest of the input, or the end.
  pub data Turn : Type 0 where
    go_on : Conn → Turn
    stop : Ending → Conn → Turn

-- A frame behind its length.
unfoldable pub with_length : List ℕ → List ℕ
with_length frame = hi (length frame) ∷ lo (length frame) ∷ frame

module _ (p : P256) (env : ℕ → Env p) where
  -- Behind `dispatch`: the store is saved, and the response written behind its length.
  unfoldable pub conclude : Conn p → List ℕ → Outcome p → Turn p
  unfolding with_length
  conclude c rest (d, s, r) =
      let kept : Conn p = record c { input = rest; device = d; session = s } in
      let e = env c.served in
      if not e.saved
      then stop failed kept
      else (if not e.written
          then stop failed kept
          else go_on (record kept { served = suc c.served; sent = c.sent ++ with_length r }))

  -- The frame behind a length.
  unfoldable pub serve_frame : Conn p → ℕ → List ℕ → Turn p
  unfolding conclude
  serve_frame c frame_len rest =
      if (frame_len == 0) || ltb (max_frame_length_a120 + 4) frame_len
      then stop closed c
      else (if ltb (length rest) frame_len
          then stop failed c
          else conclude c (drop frame_len rest)
              (dispatch p (env c.served).entropy c.device c.session (take frame_len rest)))

  unfoldable pub turn : Conn p → List ℕ → Turn p
  unfolding serve_frame
  turn c [] = stop closed c
  turn c (a ∷ []) = stop closed c
  turn c (a ∷ b ∷ rest) = serve_frame c (be16 a b) rest

  -- The loop on fuel, which is `none` if it runs out.
  unfoldable pub serve : ℕ → Conn p → Option (Ending × Conn p)
  unfolding turn
  serve zero c = none
  serve (suc fuel) c = elim (turn c c.input) [ go_on c' ↦ serve fuel c' | stop e c' ↦ some (e, c') ]

  unfoldable pub handle_connection : Device → List ℕ → Option (Ending × Conn p)
  unfolding serve
  handle_connection d input =
      serve (suc (length input))
        (record { input = input; device = d; session = new_session p; served = 0; sent = [] })
