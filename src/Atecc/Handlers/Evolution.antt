-- ===== src/Atecc/Handlers/Evolution.antt =====
-- ATECC608Sim/atecc608-sim/src/handlers: the handlers that change the device, against the sizes of
-- the device and the relation Evolves of Device/Invariant.
use simulators.Common.{
  ℕ, ◌+◌, ◌/◌, ◌≤◌, ◌≡◌, refl, sym, subst, ◌∙◌, bit_and, true, not, ◌&&◌, Option, none, some, List,
  arith, length, get_elem?, set, length-set, get_elem?-set_ne, take, All-set, All-get_elem?,
  All-append, All-take, All-drop, ltb, leb, ◌==◌, if◌then◌else◌, if_intro,
}
use simulators.Common.Bytes.{IsByte, IsBytes}
use simulators.Common.Results.{Result, ok, err, ◌>>=◌, >>=_intro}
use simulators.Common.Slices.{splice, resize, length-splice, length-resize}
use simulators.Atecc.Frame.{Command, success, parse_error, execution_error, reply, status_response}
use simulators.Atecc.Frame.Responses.{Leaves, reply-Leaves, status_response-Answers}
use simulators.Atecc.Device.{
  Device, SlotData, num_slots, config_size, otp_size, slot_size, config_locked, data_locked,
  slot_locked,
}
use simulators.Atecc.Device.Invariant.{
  IsDevice, Evolves, Evolves-refl, set_config_locked-IsDevice, set_data_locked-IsDevice,
  set_slot_locked-IsDevice, set_config_locked-Evolves, set_data_locked-Evolves,
  set_slot_locked-Evolves,
}
use simulators.Atecc.Handlers.Read.{linear_offset, data_offset, data_slot}
use simulators.Atecc.Handlers.Write.{
  write_config, write_otp, overwrite, write_data, answer_write, write_zone,
}
use simulators.Atecc.Handlers.Lock.{lock}
use simulators.Atecc.Handlers.Safety.{slot_at}

-- What a handler leaves of the device `d`.
abbrev pub Next : Device → Device → Type 0
Next d d' = IsDevice d' × Evolves d d'

pub refused : (d : Device) → IsDevice d → (sw : ℕ) → Leaves (Next d) (reply d (status_response sw))
refused d v sw = reply-Leaves (Next d) _ (v, Evolves-refl d) (status_response-Answers sw)

pub granted : (d d' : Device) → Next d d' → Leaves (Next d) (reply d' (status_response success))
granted d d' n = reply-Leaves (Next d) _ n (status_response-Answers success)

-- A write that succeeds.
abbrev Writes : Device → Result Device ℕ → Type 0
Writes d (ok d') = Next d d'
Writes d (err sw) = Unit {0}

splice-IsBytes :
    (off : ℕ) (src xs : List ℕ) → IsBytes src → IsBytes xs → IsBytes (splice off src xs)
unfolding splice
splice-IsBytes off src xs h k =
    All-append IsByte (take off xs) _ (All-take IsByte off xs k)
      (All-append IsByte src _ h (All-drop IsByte (off + length src) xs k))

module _ (d : Device) (v : IsDevice d) where
  write_config-Writes :
      (addr : ℕ) (bytes : List ℕ) → IsBytes bytes → Writes d (write_config d addr bytes)
  unfolding write_config
  write_config-Writes addr bytes h =
      let off = linear_offset addr (length bytes) in
      if_intro (Writes d) (config_locked d) (λ _. tt)
        λ free.
          if_intro (Writes d) (ltb config_size (off + length bytes)) (λ _. tt)
            λ fits. (
              record {
                config_sized =
                    length-splice off bytes d.config (ground (arith, v.config_sized))
                    ∙ v.config_sized;
                config_bytes = splice-IsBytes off bytes d.config h v.config_bytes;
                otp_sized = v.otp_sized;
                slots_sized = v.slots_sized;
                slots_bounded = v.slots_bounded;
              },
              record {
                config_stays = λ l. cc;
                config_kept = λ l i a b c. cc;
                data_stays = λ l k. cc;
                slot_stays = λ l i a k. cc;
                otp_kept = λ l. refl;
                slot_kept = λ l i k. refl;
              },
            )

  write_otp-Writes : (addr : ℕ) (bytes : List ℕ) → Writes d (write_otp d addr bytes)
  unfolding write_otp config_locked data_locked slot_locked
  write_otp-Writes addr bytes =
      let off = linear_offset addr (length bytes) in
      if_intro (Writes d) (data_locked d) (λ _. tt)
        λ free.
          if_intro (Writes d) (ltb otp_size (off + length bytes)) (λ _. tt)
            λ fits. (
              record {
                config_sized = v.config_sized;
                config_bytes = v.config_bytes;
                otp_sized =
                    length-splice off bytes d.otp (ground (arith, v.otp_sized)) ∙ v.otp_sized;
                slots_sized = v.slots_sized;
                slots_bounded = v.slots_bounded;
              },
              record {
                config_stays = λ l. l;
                config_kept = λ l i a b c. refl;
                data_stays = λ l k. k;
                slot_stays = λ l i a k. k;
                otp_kept = λ l. cc;
                slot_kept = λ l i k. refl;
              },
            )

  -- Replacing a slot that is not locked, in a device whose data zone may be.
  pub set_slot-Next :
      (j : ℕ) (new : SlotData)
      → length new.bytes ≤ 72
      → (data_locked d ≡ true → slot_locked d j ≡ true → ⊥)
      → Next d (record d { slots = set d.slots j new })
  unfolding config_locked data_locked slot_locked
  set_slot-Next j new small free = (
    record {
      config_sized = v.config_sized;
      config_bytes = v.config_bytes;
      otp_sized = v.otp_sized;
      slots_sized = length-set d.slots j new ∙ v.slots_sized;
      slots_bounded =
          All-set (λ (s : SlotData). length s.bytes ≤ 72) d.slots j new v.slots_bounded small;
    },
    record {
      config_stays = λ l. l;
      config_kept = λ l i a b c. refl;
      data_stays = λ l k. k;
      slot_stays = λ l i a k. k;
      otp_kept = λ l. refl;
      slot_kept = λ l i k.
          get_elem?-set_ne d.slots j i new
            (λ e. free l (subst (λ (m : ℕ). slot_locked d m ≡ true) (sym e) k));
    },
  )

-- A slot that is overwritten within the size of a slot stays within it.
pub length-overwrite :
    (s : SlotData) (off : ℕ) (bytes : List ℕ)
    → length s.bytes ≤ 72
    → off + length bytes ≤ 72
    → length (overwrite s off bytes).bytes ≤ 72
unfolding overwrite
length-overwrite s off bytes h k =
    let stop = off + length bytes in
    if_intro (λ (g : List ℕ). length (splice off bytes g) ≤ 72) (ltb (length s.bytes) stop)
      (λ e.
        let n = length-resize stop 0 s.bytes (ground arith) in
        omega (arith, n, length-splice off bytes (resize stop 0 s.bytes) (omega (arith, n))))
      (λ e. omega (arith, length-splice off bytes s.bytes (ground arith)))

abbrev Writes? : Device → Option (Result Device ℕ) → Type 0
Writes? d none = ⊥
Writes? d (some r) = Writes d r

module _ (d : Device) (v : IsDevice d) where
  write_data-Writes? : (addr : ℕ) (bytes : List ℕ) → Writes? d (write_data d addr bytes)
  unfolding write_data
  write_data-Writes? addr bytes =
      let slot = data_slot addr in
      let off = data_offset addr (length bytes) in
      if_intro (Writes? d) (leb num_slots slot) (λ _. tt)
        λ small.
          if_intro (Writes? d) (data_locked d && slot_locked d slot) (λ _. tt)
            λ free.
              if_intro (Writes? d) (ltb slot_size (off + length bytes)) (λ _. tt)
                λ fits.
                  >>=_intro (Writes? d) (get_elem? d.slots slot) (slot_at d slot v small)
                    λ old found.
                      set_slot-Next d v slot (overwrite old off bytes)
                        (length-overwrite old off bytes
                          (All-get_elem? (λ (s : SlotData). length s.bytes ≤ 72) d.slots slot old
                            v.slots_bounded found)
                          (ground arith))
                        (λ l k. ground arith)

  answer_write-Leaves : (r : Result Device ℕ) → Writes d r → Leaves (Next d) (answer_write d r)
  unfolding answer_write
  answer_write-Leaves (ok d') w = granted d d' w
  answer_write-Leaves (err sw) w = refused d v sw

  answer_data :
      (o : Option (Result Device ℕ)) → Writes? d o → Leaves (Next d) (o >>= λ r. answer_write d r)
  answer_data none w = w
  answer_data (some r) w = answer_write-Leaves r w

  pub write_zone-Leaves : (cmd : Command) → IsBytes cmd.payload → Leaves (Next d) (write_zone d cmd)
  unfolding write_zone
  write_zone-Leaves cmd bytes =
      let zone_id = bit_and cmd.p1 0x03 in
      let P = Leaves (Next d) in
      if_intro P (not (bit_and cmd.p1 0x40 == 0)) (λ _. refused d v execution_error)
        λ _.
          if_intro P
            (not (length cmd.payload == (if not (bit_and cmd.p1 0x80 == 0) then 32 else 4)))
            (λ _. refused d v parse_error)
            λ _.
              if_intro P (zone_id == 0)
                (λ _. answer_write-Leaves _ (write_config-Writes d v cmd.p2 cmd.payload bytes))
                λ _.
                  if_intro P (zone_id == 1)
                    (λ _. answer_write-Leaves _ (write_otp-Writes d v cmd.p2 cmd.payload))
                    λ _.
                      if_intro P (zone_id == 2)
                        (λ _. answer_data _ (write_data-Writes? cmd.p2 cmd.payload))
                        (λ _. refused d v parse_error)

  pub lock-Leaves : (cmd : Command) → Leaves (Next d) (lock d cmd)
  unfolding lock
  lock-Leaves cmd =
      let mode_bits = bit_and cmd.p1 0x03 in
      let slot = bit_and (cmd.p1 / 4) 0x0F in
      let P = Leaves (Next d) in
      if_intro P (mode_bits == 0)
        (λ _.
          if_intro P (config_locked d) (λ _. refused d v execution_error)
            (λ free.
              granted d _ (set_config_locked-IsDevice d v, set_config_locked-Evolves d v free)))
        λ _.
          if_intro P (mode_bits == 1)
            (λ _.
              if_intro P (data_locked d) (λ _. refused d v execution_error)
                (λ free.
                  granted d _ (set_data_locked-IsDevice d v, set_data_locked-Evolves d v free)))
            λ _.
              if_intro P (mode_bits == 2)
                (λ _.
                  if_intro P (leb num_slots slot) (λ _. refused d v parse_error)
                    λ small.
                      if_intro P (slot_locked d slot) (λ _. refused d v execution_error)
                        (λ _. granted d _ (
                          set_slot_locked-IsDevice d v slot,
                          set_slot_locked-Evolves d v slot (ground arith),
                        )))
                (λ _. refused d v parse_error)
