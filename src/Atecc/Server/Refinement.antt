-- ===== src/Atecc/Server/Refinement.antt =====
-- ATECC608Sim/atecc608-sim/src/bin/tcp_server.rs: the byte stream of a connection, and the sequence of
-- host actions that it stands for: wake, idle, sleep, and commands.
use simulators.Common.{
  ℕ, zero, suc, ◌+◌, ◌-◌, ◌%◌, ◌≤◌, ◌<◌, ◌≡◌, refl, ap, sym, ◌∙◌, not, Option, none, some, List, [],
  ◌∷◌, ◌++◌, arith, length, take-append, drop-append, length-append, All, le→ltb, if_intro,
}
use simulators.Common.Bytes.{hi, lo}
use simulators.Atecc.Crc.{crc16_le}
use simulators.Atecc.Frame.{Command}
use simulators.Atecc.Frame.Packets.{IsCommand, make_cmd, packet_body, parse-make_cmd}
use simulators.Atecc.Device.{Device}
use simulators.Atecc.Session.{Sha, new_session, volatile_reset}
use simulators.Atecc.Crypto.{P256}
use simulators.Atecc.Dispatch.{Outcome, route, dispatch}
use simulators.Atecc.Server.{
  Env, Ending, closed, Conn, Turn, go_on, stop, conclude, read_and_dispatch, turn, serve,
  handle_connection,
}

pub data Action : Type 0 where
  wake idle sleep : Action
  command : Command → Action

-- The bytes that a host sends for an action.
pub encode : Action → List ℕ
encode wake = 0x00 ∷ []
encode idle = 0x02 ∷ []
encode sleep = 0x01 ∷ []
encode (command c) = 0x03 ∷ make_cmd c

pub encode_all : List Action → List ℕ
encode_all [] = []
encode_all (a ∷ acts) = encode a ++ encode_all acts

abbrev pub IsAction : Action → Type 0
IsAction wake = Unit {0}
IsAction idle = Unit {0}
IsAction sleep = Unit {0}
IsAction (command c) = IsCommand c

module _ (sha : Sha) (p : P256) (env : ℕ → Env p) where
  -- The specification: no bytes, no counts, no CRC. `rest` is the input behind the action.
  pub perform : Action → Conn sha p → List ℕ → Turn sha p
  perform wake c rest = go_on (record c { input = rest })
  perform idle c rest = go_on (record c { input = rest })
  perform sleep c rest = go_on (record c { input = rest; session = volatile_reset sha c.session })
  perform (command cmd) c rest =
      conclude sha p env c rest (route sha p (env c.served).entropy c.device c.session cmd)

  -- The actions in order; behind the last one the client closes the stream.
  pub perform_all : List Action → Conn sha p → Ending × Conn sha p
  perform_all [] c = (closed, c)
  perform_all (a ∷ acts) c = elim (perform a c (encode_all acts)) [
    | go_on c' ↦ perform_all acts c'
    | stop e c' ↦ (e, c')
  ]

  read_whole :
      (c : Conn sha p) (count : ℕ) (packet rest : List ℕ)
      → 1 ≤ count
      → length packet ≡ count - 1
      → read_and_dispatch sha p env c (count ∷ packet ++ rest)
        ≡ conclude sha p env c rest
            (dispatch sha p (env c.served).entropy c.device c.session (count ∷ packet))
  unfolding read_and_dispatch
  read_whole c count packet rest h e = rw (
    le→ltb count 1 h,
    le→ltb (length (packet ++ rest)) (count - 1) (omega (arith, length-append packet rest)),
    take-append (count - 1) packet rest (sym e),
    drop-append (count - 1) packet rest (sym e),
  )

  conclude_input :
      (c : Conn sha p) (input rest : List ℕ) (o : Outcome sha p)
      → conclude sha p env (record c { input = input }) rest o ≡ conclude sha p env c rest o
  unfolding conclude
  conclude_input c input rest none = refl
  conclude_input c input rest (some (d, s, r)) = refl

  dispatch-make_cmd :
      (c : Conn sha p) (cmd : Command)
      → IsCommand cmd
      → dispatch sha p (env c.served).entropy c.device c.session (make_cmd cmd)
        ≡ route sha p (env c.served).entropy c.device c.session cmd
  unfolding dispatch
  dispatch-make_cmd c cmd h = rw (parse-make_cmd cmd h.0 h.1)

  -- One command packet is read whole, checked and routed.
  command_turn :
      (c : Conn sha p) (cmd : Command) (rest : List ℕ)
      → IsCommand cmd
      → turn sha p env c (0x03 ∷ make_cmd cmd ++ rest) ≡ perform (command cmd) c rest
  unfolding turn perform make_cmd crc16_le
  command_turn c cmd rest h =
      let c' : Conn sha p = record c { input = make_cmd cmd ++ rest } in
      let packet =
        cmd.opcode ∷ cmd.p1 ∷ (lo cmd.p2) ∷ (hi cmd.p2) ∷ cmd.payload
        ++ crc16_le (packet_body cmd) in
      read_whole c' ((7 + length cmd.payload) % 256) packet rest (omega arith)
        (omega (arith, length-append cmd.payload (crc16_le (packet_body cmd))))
      ∙ conclude_input c (make_cmd cmd ++ rest) rest _
      ∙ ap (conclude sha p env c rest) (dispatch-make_cmd c cmd h)

  turn-encode :
      (a : Action) (c : Conn sha p) (rest : List ℕ)
      → IsAction a
      → turn sha p env c (encode a ++ rest) ≡ perform a c rest
  unfolding turn encode perform
  turn-encode wake c rest h = refl
  turn-encode idle c rest h = refl
  turn-encode sleep c rest h = refl
  turn-encode (command cmd) c rest h = command_turn c cmd rest h

  -- An action that goes on leaves the input behind it.
  Behind : List ℕ → Turn sha p → Type 0
  Behind rest (go_on c') = c'.input ≡ rest
  Behind rest (stop e c') = Unit {0}

  perform-Behind : (a : Action) (c : Conn sha p) (rest : List ℕ) → Behind rest (perform a c rest)
  unfolding perform Behind conclude
  perform-Behind wake c rest = refl
  perform-Behind idle c rest = refl
  perform-Behind sleep c rest = refl
  perform-Behind (command cmd) c rest =
      concluded (route sha p (env c.served).entropy c.device c.session cmd)
    where
      concluded : (o : Outcome sha p) → Behind rest (conclude sha p env c rest o)
      concluded none = tt
      concluded (some (d, s, r)) =
          if_intro (Behind rest) (not (env c.served).saved) (λ _. tt)
            (λ _. if_intro (Behind rest) (not (env c.served).written) (λ _. tt) (λ _. refl))

  serve-encode_all :
      (fuel : ℕ) (acts : List Action) (c : Conn sha p)
      → c.input ≡ encode_all acts
      → length acts < fuel
      → All IsAction acts
      → serve sha p env fuel c ≡ some (perform_all acts c)
  unfolding serve perform_all encode_all Behind turn
  serve-encode_all zero acts c e h v = absurd (omega arith)
  serve-encode_all (suc fuel) [] c e h v = rw e
  serve-encode_all (suc fuel) (a ∷ acts) c e h v =
      let rest = encode_all acts in
      let first : turn sha p env c c.input ≡ perform a c rest =
        ap (turn sha p env c) e ∙ turn-encode a c rest v.0 in
      let after : (t : Turn sha p)
          → Behind rest t
          → elim t [ go_on c' ↦ serve sha p env fuel c' | stop e c' ↦ some (e, c') ]
            ≡ some (elim t [ go_on c' ↦ perform_all acts c' | stop e c' ↦ (e, c') ]) =
        elim [
          | go_on c' ↦ λ b. serve-encode_all fuel acts c' b (omega arith) v.1
          | stop x c' ↦ λ b. refl
        ] in
      ap
        (λ (t : Turn sha p). elim t as (λ _. Option (Ending × Conn sha p)) [
          | go_on c' ↦ serve sha p env fuel c'
          | stop x c' ↦ some (x, c')
        ])
        first
      ∙ after (perform a c rest) (perform-Behind a c rest)

  length-encode_all : (acts : List Action) → length acts ≤ length (encode_all acts)
  unfolding encode_all
  length-encode_all [] = omega arith
  length-encode_all (a ∷ acts) =
      omega
        (arith, length-append (encode a) (encode_all acts), length-encode_all acts, length-encode a)
    where
      length-encode : (b : Action) → 1 ≤ length (encode b)
      length-encode wake = unfold encode in omega arith
      length-encode idle = unfold encode in omega arith
      length-encode sleep = unfold encode in omega arith
      length-encode (command cmd) = unfold encode in omega arith

  -- A client that sends the bytes of a sequence of actions whose commands fit the wire, and then
  -- closes the stream, is served as the specification performs the actions: wake and idle change
  -- nothing, sleep wipes the session, and each command is routed once, saved, and answered.
  pub handle_connection-encode_all :
      (d : Device) (acts : List Action)
      → All IsAction acts
      → handle_connection sha p env d (encode_all acts)
        ≡ some (
            perform_all acts (record {
              input = encode_all acts;
              device = d;
              session = new_session sha;
              served = 0;
              sent = [];
            }))
  unfolding handle_connection
  handle_connection-encode_all d acts valid =
      serve-encode_all (suc (length (encode_all acts))) acts _ refl
        (omega (arith, length-encode_all acts)) valid
