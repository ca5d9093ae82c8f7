-- ===== src/Tropic01/L3/Step/Dispatch.antt =====
-- TROPIC01Sim/tropic01-sim/src/handlers/l3.rs: the dispatch, against the relation of the parent module.
use simulators.Common.{
  ℕ, ◌≡◌, refl, sym, subst, true, false, false, false, not, ◌&&◌, List, [], ◌∷◌, ◌==◌, get_or,
  length, if_intro, ==→eq, ◌⊎◌, inl, inr,
}
use simulators.Tropic01.Store.{Device}
use simulators.Tropic01.Personality.{strict_l3_sizes}
use simulators.Tropic01.L3.CmdId
use simulators.Tropic01.L3.{Crates, Ctx, Answer, OsRng}
use simulators.Tropic01.L3.Dispatch.{
  L3State, Dispatched, perform, run_command, size_refused, dispatch,
}
use simulators.Tropic01.L3.Sizes.{Lenient, is_spect, known, size_ok, es_lenient}
use simulators.Tropic01.L3.Step.{Step, unchanged}
use simulators.Tropic01.L3.Step.Commands.{
  ping-Step, pairing_key_write-Step, pairing_key_read-Step, pairing_key_invalidate-Step,
  r_config_write-Step, config_read-Step, r_config_erase-Step, i_config_write-Step, random-Step,
}
use simulators.Tropic01.L3.Step.Slots.{
  r_mem_write-Step, r_mem_read-Step, r_mem_erase-Step, mcounter_init-Step, mcounter_update-Step,
  mcounter_get-Step, mac_and_destroy-Step, ecc_generate-Step, ecc_store-Step, ecc_read-Step,
  ecc_erase-Step, ecdsa_sign-Step, eddsa_sign-Step,
}

named :
    {k : Crates} {rng : OsRng} {x : Ctx} {d : Device} (i id : ℕ)
    → (id == i) ≡ true
    → Step k rng x i d
    → Step k rng x id d
named {k} {rng} {x} {d} i id e s = subst (λ (j : ℕ). Step k rng x j d) (sym (==→eq id i e)) s

perform-Step :
    (k : Crates) (rng : OsRng) (x : Ctx) (id : ℕ) (c : List ℕ)
    → Step k rng x id (perform k rng x id c).1
unfolding perform
perform-Step k rng x id c =
    let P = λ (r : Answer). Step k rng x id r.1 in
    if_intro P (id == CmdId.ping) (λ e. ping-Step k rng x c id)
      (λ _.
        if_intro P (id == CmdId.pairing_key_write)
          (λ e. named CmdId.pairing_key_write id e (pairing_key_write-Step k rng x c))
          (λ _.
            if_intro P (id == CmdId.pairing_key_read) (λ e. pairing_key_read-Step k rng x c id)
              (λ _.
                if_intro P (id == CmdId.pairing_key_invalidate)
                  (λ e.
                    named CmdId.pairing_key_invalidate id e (pairing_key_invalidate-Step k rng x c))
                  (λ _.
                    if_intro P (id == CmdId.r_config_write)
                      (λ e. named CmdId.r_config_write id e (r_config_write-Step k rng x c))
                      (λ _.
                        if_intro P (id == CmdId.r_config_read)
                          (λ e. config_read-Step k rng x c false id)
                          (λ _.
                            if_intro P (id == CmdId.r_config_erase)
                              (λ e. named CmdId.r_config_erase id e (r_config_erase-Step k rng x))
                              (λ _.
                                if_intro P (id == CmdId.i_config_write)
                                  (λ e.
                                    named CmdId.i_config_write id e (i_config_write-Step k rng x c))
                                  (λ _.
                                    if_intro P (id == CmdId.i_config_read)
                                      (λ e. config_read-Step k rng x c true id)
                                      (λ _.
                                        if_intro P (id == CmdId.r_mem_data_write)
                                          (λ e.
                                            named CmdId.r_mem_data_write id e
                                              (r_mem_write-Step k rng x c))
                                          (λ _.
                                            if_intro P (id == CmdId.r_mem_data_read)
                                              (λ e. r_mem_read-Step k rng x c id)
                                              (λ _.
                                                if_intro P (id == CmdId.r_mem_data_erase)
                                                  (λ e.
                                                    named CmdId.r_mem_data_erase id e
                                                      (r_mem_erase-Step k rng x c))
                                                  (λ _.
                                                    if_intro P (id == CmdId.random_value_get)
                                                      (λ e. random-Step k rng x c id)
                                                      (λ _.
                                                        if_intro P (id == CmdId.ecc_key_generate)
                                                          (λ e.
                                                            named CmdId.ecc_key_generate id e
                                                            (ecc_generate-Step k rng x c))
                                                          (λ _.
                                                            if_intro P (id == CmdId.ecc_key_store)
                                                            (λ e.
                                                            named CmdId.ecc_key_store id e
                                                            (ecc_store-Step k rng x c))
                                                            (λ _.
                                                            if_intro P (id == CmdId.ecc_key_read)
                                                            (λ e. ecc_read-Step k rng x c id)
                                                            (λ _.
                                                            if_intro P (id == CmdId.ecc_key_erase)
                                                            (λ e.
                                                            named CmdId.ecc_key_erase id e
                                                            (ecc_erase-Step k rng x c))
                                                            (λ _.
                                                            if_intro P (id == CmdId.ecdsa_sign)
                                                            (λ e. ecdsa_sign-Step k rng x c id)
                                                            (λ _.
                                                            if_intro P (id == CmdId.eddsa_sign)
                                                            (λ e. eddsa_sign-Step k rng x c id)
                                                            (λ _.
                                                            if_intro P (id == CmdId.mcounter_init)
                                                            (λ e.
                                                            named CmdId.mcounter_init id e
                                                            (mcounter_init-Step k rng x c))
                                                            (λ _.
                                                            if_intro P (id == CmdId.mcounter_update)
                                                            (λ e.
                                                            named CmdId.mcounter_update id e
                                                            (mcounter_update-Step k rng x c))
                                                            (λ _.
                                                            if_intro P (id == CmdId.mcounter_get)
                                                            (λ e. mcounter_get-Step k rng x c id)
                                                            (λ _.
                                                            if_intro P (id == CmdId.mac_and_destroy)
                                                            (λ e.
                                                            named CmdId.mac_and_destroy id e
                                                            (mac_and_destroy-Step k rng x c))
                                                            (λ _.
                                                            unchanged refl)))))))))))))))))))))))

run_command-Step :
    (k : Crates) (rng : OsRng) (x : Ctx) (st : L3State) (id : ℕ) (c : List ℕ)
    → Step k rng x id (run_command k rng x st id c).device
unfolding run_command
run_command-Step k rng x st id c =
    if_intro (λ (r : Dispatched). Step k rng x id r.device)
      (st.spect_size_error && not (is_spect id)) (λ e. unchanged refl)
      (λ e. perform-Step k rng x id c)

pub Lenient-cases :
    (l : Lenient) → (l ≡ Lenient.failed) ⊎ ((l ≡ Lenient.ok_no_data) ⊎ (l ≡ Lenient.executed))
Lenient-cases Lenient.failed = inl refl
Lenient-cases Lenient.ok_no_data = inr (inl refl)
Lenient-cases Lenient.executed = inr (inr refl)

size_refused-Step :
    (k : Crates) (rng : OsRng) (x : Ctx) (st : L3State) (id : ℕ) (c : List ℕ)
    → Step k rng x id (size_refused k rng x st id c).device
unfolding size_refused
size_refused-Step k rng x st id c =
    if_intro (λ (r : Dispatched). Step k rng x id r.device) (strict_l3_sizes x.p)
      (λ e. unchanged refl)
      (λ e. elim (Lenient-cases (es_lenient id (length c))) [
        | inl f ↦ rw f (unchanged refl)
        | inr (inl f) ↦ rw f (unchanged refl)
        | inr (inr f) ↦ rw f (run_command-Step k rng x st id c)
      ])

-- Whatever a decrypted command is, what it does to the device is one of the effects of the
-- relation Step for the identifier in its first byte: the effect belongs to that command alone,
-- its slot or register is in range, the pairing key has the privilege for that slot or half of
-- the registers, and the slot was in the state that the effect needs; a new ECC key is the one
-- generated, or one of 32 bytes that is not refused; else the device is unchanged.
pub dispatch-Step :
    (k : Crates) (rng : OsRng) (x : Ctx) (st : L3State) (c : List ℕ)
    → Step k rng x (get_or c 0 0) (dispatch k rng x st c).device
unfolding dispatch
dispatch-Step k rng x st [] = unchanged refl
dispatch-Step k rng x st (id ∷ rest) =
    let P = λ (r : Dispatched). Step k rng x id r.device in
    if_intro P (not (known id)) (λ e. unchanged refl)
      (λ e.
        if_intro P (not (size_ok x.p id (length (id ∷ rest))))
          (λ f. size_refused-Step k rng x st id (id ∷ rest))
          (λ f. run_command-Step k rng x st id (id ∷ rest)))
