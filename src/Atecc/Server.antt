-- ===== src/Atecc/Server.antt =====
-- ATECC608Sim/atecc608-sim/src/bin/tcp_server.rs: one connection, from its first byte to its end.
-- The input is every byte that the client will send; reading past it is the end of the stream.
pub mod Progress
pub mod Refinement
use simulators.Common.{
  ℕ, zero, suc, ◌+◌, ◌-◌, Bool, true, false, not, ◌||◌, Option, none, some, List, [], ◌∷◌, ◌++◌,
  length, take, drop, ltb, ◌==◌, if◌then◌else◌,
}
use simulators.Atecc.Device.{Device}
use simulators.Atecc.Session.{Sha, Session, new_session, volatile_reset}
use simulators.Atecc.Crypto.{P256, Entropy}
use simulators.Atecc.Dispatch.{dispatch}

-- What the surroundings of the process give to one command: random values, and whether the store
-- could be saved and the response written.
pub record Env (p : P256) : Type 0 where
  pub entropy : Entropy p
  pub saved : Bool
  pub written : Bool

-- `Ok(())`, an `Err`, and a panic in the thread.
pub data Ending : Type 0 where
  closed failed panicked : Ending

module _ (sha : Sha) (p : P256) where
  pub record Conn : Type 0 where
    pub input : List ℕ
    pub device : Device
    pub session : Session sha
    pub served : ℕ
    pub sent : List (List ℕ)

  -- One round of the loop: on with the rest of the input, or the end.
  pub data Turn : Type 0 where
    go_on : Conn → Turn
    stop : Ending → Conn → Turn

module _ (sha : Sha) (p : P256) (env : ℕ → Env p) where
  -- Behind `dispatch`: the store is saved, and the response written.
  unfoldable pub conclude :
      Conn sha p → List ℕ → Option (Device × Session sha × List ℕ) → Turn sha p
  conclude c rest none = stop panicked (record c { input = rest })
  conclude c rest (some (d, s, r)) =
      let kept : Conn sha p = record c { input = rest; device = d; session = s } in
      let e = env c.served in
      if not e.saved
      then stop failed kept
      else (if not e.written
          then stop failed kept
          else go_on (record kept { served = suc c.served; sent = c.sent ++ (r ∷ []) }))

  -- `read_and_dispatch`, on the input behind the word address.
  unfoldable pub read_and_dispatch : Conn sha p → List ℕ → Turn sha p
  unfolding conclude
  read_and_dispatch c [] = stop failed c
  read_and_dispatch c (count ∷ rest) =
      if ltb count 1
      then stop failed c
      else (if ltb (length rest) (count - 1)
          then stop failed c
          else conclude c (drop (count - 1) rest) (
              dispatch sha p (env c.served).entropy c.device c.session
                (count ∷ take (count - 1) rest)))

  -- One round of the loop of `handle_connection`: a word address and what it asks for.
  unfoldable pub turn : Conn sha p → List ℕ → Turn sha p
  unfolding read_and_dispatch
  turn c [] = stop closed c
  turn c (word ∷ rest) =
      let c' : Conn sha p = record c { input = rest } in
      if word == 0x00 || word == 0x02
      then go_on c'
      else (if word == 0x01
          then go_on (record c' { session = volatile_reset sha c.session })
          else (if word == 0x03 then read_and_dispatch c' rest else stop closed c'))

  -- `handle_connection` on fuel, which is `none` if it runs out.
  unfoldable pub serve : ℕ → Conn sha p → Option (Ending × Conn sha p)
  unfolding turn
  serve zero c = none
  serve (suc fuel) c = elim (turn c c.input) [ go_on c' ↦ serve fuel c' | stop e c' ↦ some (e, c') ]

  unfoldable pub handle_connection : Device → List ℕ → Option (Ending × Conn sha p)
  unfolding serve
  handle_connection d input =
      serve (suc (length input))
        (record { input = input; device = d; session = new_session sha; served = 0; sent = [] })
