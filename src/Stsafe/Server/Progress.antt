-- ===== src/Stsafe/Server/Progress.antt =====
-- STSAFEA120Sim/stsafe-a120-sim/src/bin/tcp_server.rs: the end of a connection, and the device that it
-- leaves.
use simulators.Common.{
  ℕ, zero, suc, ◌+◌, ◌<◌, ◌≡◌, refl, ap, ◌∙◌, inl, inr, not, ◌||◌, Option, none, some, List, [],
  ◌∷◌, arith, length, take, drop, length-drop, All-take, All-drop, ltb, ◌==◌, if_intro,
}
use simulators.Common.Bytes.{IsByte, IsBytes, be16}
use simulators.Stsafe.Crypto.{P256, Sizes}
use simulators.Stsafe.Frame.{max_frame_length_a120}
use simulators.Stsafe.Store.{Device}
use simulators.Stsafe.Handlers.Safety.{IsDevice}
use simulators.Stsafe.Dispatch.{dispatch}
use simulators.Stsafe.Dispatch.Safety.{Kept, Kept-IsDevice, dispatch-Proper}
use simulators.Stsafe.Server.{
  Env, Ending, Conn, Turn, go_on, stop, conclude, serve_frame, turn, serve, handle_connection,
}

-- The serial number and the zones are as they were.
pub record Same (before d : Device) : Type 0 where
  pub serial : d.serial_number ≡ before.serial_number
  pub zones : d.data_zones ≡ before.data_zones

Same-Kept : (before d d' : Device) → Same before d → Kept d d' → Same before d'
Same-Kept before d d' h (inl e) = record {
  serial = ap (λ (x : Device). x.serial_number) e ∙ h.serial;
  zones = ap (λ (x : Device). x.data_zones) e ∙ h.zones;
}
Same-Kept before d d' h (inr (slot, key, n, e)) = record {
  serial = ap (λ (x : Device). x.serial_number) e ∙ h.serial;
  zones = ap (λ (x : Device). x.data_zones) e ∙ h.zones;
}

module _ (p : P256) (sizes : Sizes p) (env : ℕ → Env p)
    (filled : (i n : ℕ) → length ((env i).entropy.bytes n) ≡ n) (before : Device) where
  record IsConn (c : Conn p) : Type 0 where
    input_bytes : IsBytes c.input
    device_valid : IsDevice c.device
    device_same : Same before c.device

  -- A round leaves a valid connection, with less input when the loop goes on.
  abbrev Advances : ℕ → Turn p → Type 0
  Advances n (go_on c) = IsConn c × (length c.input < n)
  Advances n (stop e c) = IsConn c

  conclude-Advances :
      (n : ℕ) (c : Conn p) (rest packet : List ℕ)
      → IsConn c
      → IsBytes rest
      → IsBytes packet
      → length rest < n
      → Advances n
          (conclude p env c rest (dispatch p (env c.served).entropy c.device c.session packet))
  unfolding conclude
  conclude-Advances n c rest packet v bytes bytes' shorter =
      let e = env c.served in
      let d' = (dispatch p e.entropy c.device c.session packet).0 in
      let (kept, _) =
        dispatch-Proper p sizes e.entropy (filled c.served) c.device c.session v.device_valid packet
          bytes' in
      let valid = Kept-IsDevice c.device d' kept v.device_valid in
      let same = Same-Kept before c.device d' v.device_same kept in
      if_intro (Advances n) (not e.saved)
        (λ _. record { input_bytes = bytes; device_valid = valid; device_same = same })
        (λ _.
          if_intro (Advances n) (not e.written)
            (λ _. record { input_bytes = bytes; device_valid = valid; device_same = same })
            (λ _.
              (record { input_bytes = bytes; device_valid = valid; device_same = same }, shorter)))

  serve_frame-Advances :
      (n : ℕ) (c : Conn p) (frame_len : ℕ) (rest : List ℕ)
      → IsConn c
      → IsBytes rest
      → length rest < n
      → Advances n (serve_frame p env c frame_len rest)
  unfolding serve_frame
  serve_frame-Advances n c frame_len rest v bytes shorter =
      if_intro (Advances n) ((frame_len == 0) || ltb (max_frame_length_a120 + 4) frame_len) (λ _. v)
        λ _.
          if_intro (Advances n) (ltb (length rest) frame_len) (λ _. v)
            λ _.
              conclude-Advances n c (drop frame_len rest) (take frame_len rest) v
                (All-drop IsByte frame_len rest bytes) (All-take IsByte frame_len rest bytes)
                (omega (arith, length-drop frame_len rest))

  turn-Advances :
      (c : Conn p) (input : List ℕ)
      → IsConn c
      → IsBytes input
      → Advances (length input) (turn p env c input)
  unfolding turn
  turn-Advances c [] v bytes = v
  turn-Advances c (a ∷ []) v bytes = v
  turn-Advances c (a ∷ b ∷ rest) v bytes =
      serve_frame-Advances (length (a ∷ b ∷ rest)) c (be16 a b) rest v bytes.1.1 (omega arith)

  abbrev Ends : Option (Ending × Conn p) → Type 0
  Ends none = ⊥
  Ends (some (e, c)) = IsConn c

  serve-Ends :
      (fuel : ℕ) (c : Conn p) → length c.input < fuel → IsConn c → Ends (serve p env fuel c)
  unfolding serve
  serve-Ends zero c h v = absurd (omega arith)
  serve-Ends (suc fuel) c h v =
      let after : (t : Turn p)
          → Advances (length c.input) t
          → Ends (elim t [ go_on c' ↦ serve p env fuel c' | stop e c' ↦ some (e, c') ]) =
        elim [ go_on c' ↦ λ a. serve-Ends fuel c' (omega (arith, a.1)) a.0 | stop e c' ↦ λ a. a ] in
      after (turn p env c c.input) (turn-Advances c c.input v v.input_bytes)

  -- On a device of the right sizes, and with cryptography that keeps its sizes, a connection ends on
  -- every input of bytes, and the device that it leaves is of the right sizes and has the serial
  -- number and the zones that it had.
  pub handle_connection-Same :
      (input : List ℕ)
      → IsBytes input
      → IsDevice before
      → (e : Ending) × (c : Conn p) × (handle_connection p env before input ≡ some (e, c))
        × IsDevice c.device
        × Same before c.device
  unfolding handle_connection
  handle_connection-Same input bytes valid = shown _ (
      serve-Ends (suc (length input)) _ (omega arith) (record {
        input_bytes = bytes;
        device_valid = valid;
        device_same = record { serial = refl; zones = refl };
      }))
    where
      shown :
          (o : Option (Ending × Conn p))
          → Ends o
          → (e : Ending) × (c : Conn p) × (o ≡ some (e, c))
            × IsDevice c.device
            × Same before c.device
      shown none h = absurd h
      shown (some (e, c)) h = (e, c, refl, h.device_valid, h.device_same)
