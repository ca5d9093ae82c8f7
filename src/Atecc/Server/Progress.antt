-- ===== src/Atecc/Server/Progress.antt =====
-- ATECC608Sim/atecc608-sim/src/bin/tcp_server.rs: the end of a connection, and the device that it
-- leaves.
use simulators.Common.{
  ℕ, zero, suc, ◌-◌, ◌<◌, ◌≡◌, ◌≢◌, refl, ◌∙◌, true, not, ◌||◌, Option, none, some, List, [], ◌∷◌,
  arith, length, take, drop, length-drop, get_elem?, All, All-take, All-append, All-drop, ltb, ◌==◌,
  if_intro,
}
use simulators.Common.Bytes.{IsByte, IsBytes}
use simulators.Atecc.Device.{Device, config_locked, data_locked, slot_locked}
use simulators.Atecc.Device.Invariant.{IsDevice, Evolves}
use simulators.Atecc.Frame.Responses.{IsResponse}
use simulators.Atecc.Session.{Sha, Session}
use simulators.Atecc.Crypto.{P256, Sizes}
use simulators.Atecc.Dispatch.{Outcome, dispatch}
use simulators.Atecc.Dispatch.Safety.{dispatch_total}
use simulators.Atecc.Server.{
  Env, Ending, panicked, Conn, Turn, go_on, stop, conclude, read_and_dispatch, turn, serve,
  handle_connection,
}

-- The zones of the device are locked, and so is one slot, with what they hold.
pub record Locked (i : ℕ) (before d : Device) : Type 0 where
  pub config : config_locked d ≡ true
  pub zones : data_locked d ≡ true
  pub slot : slot_locked d i ≡ true
  pub otp_same : d.otp ≡ before.otp
  pub slot_same : get_elem? d.slots i ≡ get_elem? before.slots i

pub Locked-Evolves :
    (i : ℕ) (before d d' : Device) → i < 16 → Locked i before d → Evolves d d' → Locked i before d'
Locked-Evolves i before d d' small l e = record {
  config = e.config_stays l.config;
  zones = e.data_stays l.config l.zones;
  slot = e.slot_stays l.config i small l.slot;
  otp_same = e.otp_kept l.zones ∙ l.otp_same;
  slot_same = e.slot_kept l.zones i l.slot ∙ l.slot_same;
}

module _ (sha : Sha) (p : P256) (sizes : Sizes sha p) (env : ℕ → Env p)
    (filled : (n : ℕ) → length (env n).entropy.bytes ≡ 32) (P : Device → Type 0)
    (keep : (d d' : Device) → Evolves d d' → P d → P d') where
  -- What holds of a connection between rounds.
  record IsConn (c : Conn sha p) : Type 0 where
    input_bytes : IsBytes c.input
    device_valid : IsDevice c.device
    device_held : P c.device
    sent_valid : All IsResponse c.sent

  -- A round uses up input, or ends without a panic.
  abbrev Advances : ℕ → Turn sha p → Type 0
  Advances n (go_on c') = IsConn c' × (length c'.input < n)
  Advances n (stop e c') = IsConn c' × (e ≢ panicked)

  module _ (c : Conn sha p) (v : IsConn c) where
    conclude-Advances :
        (rest : List ℕ) (n : ℕ)
        → IsBytes rest
        → length rest < n
        → (o : Outcome sha p)
        → (d' : Device) × (s' : Session sha) × (r : List ℕ) × (o ≡ some (d', s', r))
          × IsDevice d'
          × Evolves c.device d'
          × IsResponse r
        → Advances n (conclude sha p env c rest o)
    unfolding conclude
    conclude-Advances rest n bytes shorter o (d', s', r, e, valid, evolves, fine) =
        let kept : Conn sha p = record c { input = rest; device = d'; session = s' } in
        let good : IsConn kept = record {
          input_bytes = bytes;
          device_valid = valid;
          device_held = keep c.device d' evolves v.device_held;
          sent_valid = v.sent_valid;
        } in
        rw (e, conclude)
          (if_intro (Advances n) (not (env c.served).saved) (λ _. (good, λ x. cc))
            λ _.
              if_intro (Advances n) (not (env c.served).written) (λ _. (good, λ x. cc))
                (λ _. (
                  record {
                    input_bytes = bytes;
                    device_valid = valid;
                    device_held = good.device_held;
                    sent_valid = All-append IsResponse c.sent (r ∷ []) v.sent_valid (fine, tt);
                  },
                  shorter,
                )))

    read_and_dispatch-Advances :
        (rest : List ℕ) (n : ℕ)
        → IsBytes rest
        → length rest < n
        → Advances n (read_and_dispatch sha p env c rest)
    unfolding read_and_dispatch
    read_and_dispatch-Advances [] n bytes shorter = (v, λ x. cc)
    read_and_dispatch-Advances (count ∷ rest) n bytes shorter =
        let e = (env c.served).entropy in
        let packet = count ∷ take (count - 1) rest in
        let packet_bytes : IsBytes packet = (bytes.0, All-take IsByte (count - 1) rest bytes.1) in
        if_intro (Advances n) (ltb count 1) (λ _. (v, λ x. cc))
          λ _.
            if_intro (Advances n) (ltb (length rest) (count - 1)) (λ _. (v, λ x. cc))
              λ _.
                conclude-Advances (drop (count - 1) rest) n
                  (All-drop IsByte (count - 1) rest bytes.1)
                  (omega (arith, length-drop (count - 1) rest))
                  (dispatch sha p e c.device c.session packet)
                  (dispatch_total sha p sizes e (filled c.served) c.device c.session v.device_valid
                    packet packet_bytes)

  turn-Advances :
      (c : Conn sha p) (input : List ℕ)
      → IsConn c
      → IsBytes input
      → Advances (length input) (turn sha p env c input)
  unfolding turn
  turn-Advances c [] v bytes = (v, λ x. cc)
  turn-Advances c (word ∷ rest) v bytes =
      let c' : Conn sha p = record c { input = rest } in
      let n = length (word ∷ rest) in
      let v' : IsConn c' = record {
        input_bytes = bytes.1;
        device_valid = v.device_valid;
        device_held = v.device_held;
        sent_valid = v.sent_valid;
      } in
      if_intro (Advances n) (word == 0x00 || word == 0x02) (λ _. (v', omega arith))
        λ _.
          if_intro (Advances n) (word == 0x01)
            (λ _. (
              record {
                input_bytes = bytes.1;
                device_valid = v.device_valid;
                device_held = v.device_held;
                sent_valid = v.sent_valid;
              },
              omega arith,
            ))
            λ _.
              if_intro (Advances n) (word == 0x03)
                (λ _. read_and_dispatch-Advances c' v' rest n bytes.1 (omega arith))
                (λ _. (v', λ x. cc))

  abbrev Ends : Option (Ending × Conn sha p) → Type 0
  Ends none = ⊥
  Ends (some (e, c')) = (e ≢ panicked) × IsConn c'

  serve-Ends :
      (fuel : ℕ) (c : Conn sha p) → length c.input < fuel → IsConn c → Ends (serve sha p env fuel c)
  unfolding serve
  serve-Ends zero c h v = absurd (omega arith)
  serve-Ends (suc fuel) c h v =
      let after : (t : Turn sha p)
          → Advances (length c.input) t
          → Ends (elim t [ go_on c' ↦ serve sha p env fuel c' | stop e c' ↦ some (e, c') ]) =
        elim [
          | go_on c' ↦ λ a. serve-Ends fuel c' (omega (arith, a.1)) a.0
          | stop e c' ↦ λ a. (a.1, a.0)
        ] in
      after (turn sha p env c c.input) (turn-Advances c c.input v v.input_bytes)

module _ (sha : Sha) (p : P256) (sizes : Sizes sha p) (env : ℕ → Env p)
    (filled : (n : ℕ) → length (env n).entropy.bytes ≡ 32) (d : Device) (valid : IsDevice d)
    (input : List ℕ) (bytes : IsBytes input) where
  -- On a device of the right sizes, and with cryptography that keeps its sizes, a connection ends on
  -- every input of bytes, without a panic; what it sent are well-formed responses, and the device
  -- keeps its sizes.
  pub handle_connection_total :
      (e : Ending) × (c : Conn sha p) × (handle_connection sha p env d input ≡ some (e, c))
      × (e ≢ panicked)
      × IsDevice c.device
      × All IsResponse c.sent
  unfolding handle_connection
  handle_connection_total = shown _ (
      serve-Ends sha p sizes env filled (λ _. Unit {0}) (λ _ _ _ u. u) (suc (length input)) _
        (omega arith)
        (record { input_bytes = bytes; device_valid = valid; device_held = tt; sent_valid = tt }))
    where
      shown :
          (o : Option (Ending × Conn sha p))
          → Ends sha p sizes env filled (λ _. Unit {0}) (λ _ _ _ u. u) o
          → (e : Ending) × (c : Conn sha p) × (o ≡ some (e, c))
            × (e ≢ panicked)
            × IsDevice c.device
            × All IsResponse c.sent
      shown none h = absurd h
      shown (some (e, c)) h = (e, c, refl, h.0, h.1.device_valid, h.1.sent_valid)

  -- On a device of the right sizes whose configuration, data zone and slot `i` are locked, and with
  -- cryptography that keeps its sizes, a connection ends on every input of bytes, and in the device
  -- that it leaves these locks hold, and the OTP zone and slot `i` are as they were.
  pub handle_connection-Locked :
      (i : ℕ)
      → i < 16
      → config_locked d ≡ true
      → data_locked d ≡ true
      → slot_locked d i ≡ true
      → (e : Ending) × (c : Conn sha p) × (handle_connection sha p env d input ≡ some (e, c))
        × Locked i d c.device
  unfolding handle_connection
  handle_connection-Locked i small lc ld ls =
      let P = λ (d' : Device). Locked i d d' in
      let keep = λ (a b : Device) (ev : Evolves a b) (l : P a). Locked-Evolves i d a b small l ev in
      shown P keep _ (
        serve-Ends sha p sizes env filled P keep (suc (length input)) _ (omega arith) (record {
          input_bytes = bytes;
          device_valid = valid;
          device_held = record {
            config = lc;
            zones = ld;
            slot = ls;
            otp_same = refl;
            slot_same = refl;
          };
          sent_valid = tt;
        }))
    where
      shown :
          (P : Device → Type 0) (keep : (a b : Device) → Evolves a b → P a → P b)
          (o : Option (Ending × Conn sha p))
          → Ends sha p sizes env filled P keep o
          → (e : Ending) × (c : Conn sha p) × (o ≡ some (e, c)) × P c.device
      shown P keep none h = absurd h
      shown P keep (some (e, c)) h = (e, c, refl, h.1.device_held)
