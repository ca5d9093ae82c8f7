-- ===== src/Tropic01/L3/Total/Dispatch.antt =====
-- TROPIC01Sim/tropic01-sim/src/handlers/l3.rs: the sizes that the dispatch tests, against the readings
-- of the commands.
use simulators.Common.{
  ℕ, ◌+◌, ◌≤◌, ◌≡◌, ◌≢◌, refl, sym, subst, arith, true, false, not, ◌&&◌, List, [], ◌∷◌, ltb, ◌==◌,
  length, inl, inr, if_intro, Bool-cases, ==→eq,
}
use simulators.Tropic01.Personality.{r_mem_slot_max, strict_l3_sizes}
use simulators.Tropic01.L3.CmdId
use simulators.Tropic01.L3.{Crates, Ctx, Answer, OsRng, code}
use simulators.Tropic01.L3.Dispatch.{
  L3Outcome, answered, panicked, outcome_of, L3State, Dispatched, perform, run_command,
  size_refused, dispatch,
}
use simulators.Tropic01.L3.Sizes.{
  Lenient, ping_max, eddsa_msg_max, one_of, is_spect, known, size_ok, es_lenient,
}
use simulators.Tropic01.L3.Step.Bounds.{WellFormed}
use simulators.Tropic01.L3.Step.Dispatch.{Lenient-cases}
use simulators.Tropic01.L3.Step.Gates.{not-false}
use simulators.Tropic01.L3.Total.{Answers, exactly, between}
use simulators.Tropic01.L3.Total.Commands.{
  ping-Answers, pairing_key_write-Answers, pairing_key_read-Answers, pairing_key_invalidate-Answers,
  r_config_write-Answers, config_read-Answers, r_config_erase-Answers, i_config_write-Answers,
  random-Answers,
}
use simulators.Tropic01.L3.Total.Slots.{
  r_mem_write-Answers, r_mem_read-Answers, r_mem_erase-Answers, ecc_generate-Answers,
  ecc_store-Answers, ecc_read-Answers, ecc_erase-Answers, ecdsa_sign-Answers, eddsa_sign-Answers,
  mcounter_init-Answers, mcounter_update-Answers, mcounter_get-Answers, mac_and_destroy-Answers,
}

five : {n : ℕ} → 5 ≤ n → 4 ≤ n
five h = omega arith

perform-Answers :
    (k : Crates) (rng : OsRng) (x : Ctx) (id : ℕ) (c : List ℕ)
    → WellFormed x.p x.dev
    → size_ok x.p id (length c) ≡ true
    → Answers (perform k rng x id c)
unfolding perform size_ok code
perform-Answers k rng x id c wf h =
    if_intro Answers (id == CmdId.ping)
      (λ e. ping-Answers x c (between 1 (1 + ping_max) (length c) (sized CmdId.ping e)))
      (λ _.
        if_intro Answers (id == CmdId.pairing_key_write)
          (λ e.
            pairing_key_write-Answers x c (exactly 36 (length c) (sized CmdId.pairing_key_write e)))
          (λ _.
            if_intro Answers (id == CmdId.pairing_key_read)
              (λ e.
                pairing_key_read-Answers x c
                  (exactly 3 (length c) (sized CmdId.pairing_key_read e)))
              (λ _.
                if_intro Answers (id == CmdId.pairing_key_invalidate)
                  (λ e.
                    pairing_key_invalidate-Answers x c
                      (exactly 3 (length c) (sized CmdId.pairing_key_invalidate e)))
                  (λ _.
                    if_intro Answers (id == CmdId.r_config_write)
                      (λ e.
                        r_config_write-Answers x c
                          (exactly 8 (length c) (sized CmdId.r_config_write e)) wf.registers)
                      (λ _.
                        if_intro Answers (id == CmdId.r_config_read)
                          (λ e.
                            config_read-Answers x c false
                              (exactly 3 (length c) (sized CmdId.r_config_read e)) wf.registers
                              wf.immutable_registers)
                          (λ _.
                            if_intro Answers (id == CmdId.r_config_erase)
                              (λ e. r_config_erase-Answers x)
                              (λ _.
                                if_intro Answers (id == CmdId.i_config_write)
                                  (λ e.
                                    i_config_write-Answers x c
                                      (exactly 4 (length c) (sized CmdId.i_config_write e))
                                      wf.immutable_registers)
                                  (λ _.
                                    if_intro Answers (id == CmdId.i_config_read)
                                      (λ e.
                                        config_read-Answers x c true
                                          (exactly 3 (length c) (sized CmdId.i_config_read e))
                                          wf.registers wf.immutable_registers)
                                      (λ _.
                                        if_intro Answers (id == CmdId.r_mem_data_write)
                                          (λ e. r_mem_write-Answers x c (
                                            five (
                                              between 5 (4 + r_mem_slot_max x.p) (length c)
                                                (sized CmdId.r_mem_data_write e))))
                                          (λ _.
                                            if_intro Answers (id == CmdId.r_mem_data_read)
                                              (λ e. r_mem_read-Answers x c (
                                                exactly 3 (length c)
                                                  (sized CmdId.r_mem_data_read e)))
                                              (λ _.
                                                if_intro Answers (id == CmdId.r_mem_data_erase)
                                                  (λ e. r_mem_erase-Answers x c (
                                                    exactly 3 (length c)
                                                      (sized CmdId.r_mem_data_erase e)))
                                                  (λ _.
                                                    if_intro Answers (id == CmdId.random_value_get)
                                                      (λ e. random-Answers rng x c (
                                                        exactly 2 (length c)
                                                          (sized CmdId.random_value_get e)))
                                                      (λ _.
                                                        if_intro Answers
                                                          (id == CmdId.ecc_key_generate)
                                                          (λ e. ecc_generate-Answers k rng x c (
                                                            exactly 4 (length c)
                                                            (sized CmdId.ecc_key_generate e)))
                                                          (λ _.
                                                            if_intro Answers
                                                            (id == CmdId.ecc_key_store)
                                                            (λ e. ecc_store-Answers k x c (
                                                            exactly 48 (length c)
                                                            (sized CmdId.ecc_key_store e)))
                                                            (λ _.
                                                            if_intro Answers
                                                            (id == CmdId.ecc_key_read)
                                                            (λ e. ecc_read-Answers k x c (
                                                            exactly 3 (length c)
                                                            (sized CmdId.ecc_key_read e)))
                                                            (λ _.
                                                            if_intro Answers
                                                            (id == CmdId.ecc_key_erase)
                                                            (λ e. ecc_erase-Answers x c (
                                                            exactly 3 (length c)
                                                            (sized CmdId.ecc_key_erase e)))
                                                            (λ _.
                                                            if_intro Answers
                                                            (id == CmdId.ecdsa_sign)
                                                            (λ e. ecdsa_sign-Answers k rng x c (
                                                            exactly 48 (length c)
                                                            (sized CmdId.ecdsa_sign e)))
                                                            (λ _.
                                                            if_intro Answers
                                                            (id == CmdId.eddsa_sign)
                                                            (λ e.
                                                            eddsa_sign-Answers k rng x c
                                                            (between 16 (16 + eddsa_msg_max)
                                                            (length c) (sized CmdId.eddsa_sign e))
                                                            (λ i v e. (wf.keys i v e).1))
                                                            (λ _.
                                                            if_intro Answers
                                                            (id == CmdId.mcounter_init)
                                                            (λ e. mcounter_init-Answers x c (
                                                            exactly 8 (length c)
                                                            (sized CmdId.mcounter_init e)))
                                                            (λ _.
                                                            if_intro Answers
                                                            (id == CmdId.mcounter_update)
                                                            (λ e. mcounter_update-Answers x c (
                                                            exactly 3 (length c)
                                                            (sized CmdId.mcounter_update e)))
                                                            (λ _.
                                                            if_intro Answers
                                                            (id == CmdId.mcounter_get)
                                                            (λ e. mcounter_get-Answers x c (
                                                            exactly 3 (length c)
                                                            (sized CmdId.mcounter_get e)))
                                                            (λ _.
                                                            if_intro Answers
                                                            (id == CmdId.mac_and_destroy)
                                                            (λ e. mac_and_destroy-Answers k x c (
                                                            exactly 36 (length c)
                                                            (sized CmdId.mac_and_destroy e)))
                                                            (λ _. (_, refl))))))))))))))))))))))))
  where
    sized : (i : ℕ) → (id == i) ≡ true → size_ok x.p i (length c) ≡ true
    sized i e = subst (λ (j : ℕ). size_ok x.p j (length c) ≡ true) (==→eq id i e) h

abbrev Ends : L3Outcome → Type 0
Ends o = o ≢ panicked

ends : (r : List ℕ) → Ends (answered r)
ends r e = absurd cc

outcome_of-Ends : (a : Answer) → Answers a → Ends (outcome_of a.0)
unfolding outcome_of
outcome_of-Ends a (r, e) = rw e (ends r)

run_command-Ends :
    (k : Crates) (rng : OsRng) (x : Ctx) (st : L3State) (id : ℕ) (c : List ℕ)
    → Answers (perform k rng x id c)
    → Ends (run_command k rng x st id c).outcome
unfolding run_command
run_command-Ends k rng x st id c h =
    if_intro (λ (r : Dispatched). Ends r.outcome) (st.spect_size_error && not (is_spect id))
      (λ _. ends _) (λ _. outcome_of-Ends (perform k rng x id c) h)

-- The one command that is run with a size that does not fit is Random_Value_Get, with a longer one.
lenient_lem :
    (id n : ℕ) → es_lenient id n ≡ Lenient.executed → (id ≡ CmdId.random_value_get) × (2 ≤ n)
unfolding es_lenient
lenient_lem id n h = elim (Bool-cases ((id == CmdId.random_value_get) && ltb 2 n)) [
  | inl t ↦ (ground arith, ground arith)
  | inr f ↦
      let other = one_of (CmdId.ecdsa_sign ∷ CmdId.mac_and_destroy ∷ CmdId.eddsa_sign ∷ []) id in
      elim (Bool-cases other) [
        | inl t ↦ absurd (let h' = rw (f, t) at h in cc)
        | inr t ↦ absurd (let h' = rw (f, t) at h in cc)
      ]
]

perform-random :
    (k : Crates) (rng : OsRng) (x : Ctx) (id : ℕ) (c : List ℕ)
    → id ≡ CmdId.random_value_get
    → 2 ≤ length c
    → Answers (perform k rng x id c)
unfolding perform
perform-random k rng x id c q n =
    subst (λ (j : ℕ). Answers (perform k rng x j c)) (sym q) (random-Answers rng x c n)

size_refused-Ends :
    (k : Crates) (rng : OsRng) (x : Ctx) (st : L3State) (id : ℕ) (c : List ℕ)
    → Ends (size_refused k rng x st id c).outcome
unfolding size_refused outcome_of code
size_refused-Ends k rng x st id c =
    if_intro (λ (r : Dispatched). Ends r.outcome) (strict_l3_sizes x.p) (λ _ e. absurd cc)
      (λ _. elim (Lenient-cases (es_lenient id (length c))) [
        | inl f ↦ rw f (ends _)
        | inr (inl f) ↦ rw f (ends _)
        | inr (inr f) ↦
            let (q, n) = lenient_lem id (length c) f in
            rw f (run_command-Ends k rng x st id c (perform-random k rng x id c q n))
      ])

-- On a device within its bounds no command reads out of range, whatever its bytes: `dispatch` does not
-- panic.
pub dispatch-Ends :
    (k : Crates) (rng : OsRng) (x : Ctx) (st : L3State) (c : List ℕ)
    → WellFormed x.p x.dev
    → (dispatch k rng x st c).outcome ≢ panicked
unfolding dispatch outcome_of code
dispatch-Ends k rng x st [] wf = ends _
dispatch-Ends k rng x st (id ∷ rest) wf =
    let P = λ (r : Dispatched). Ends r.outcome in
    let c = id ∷ rest in
    if_intro P (not (known id)) (λ _. ends _)
      (λ _.
        if_intro P (not (size_ok x.p id (length c))) (λ _. size_refused-Ends k rng x st id c)
          (λ s.
            run_command-Ends k rng x st id c
              (perform-Answers k rng x id c wf (not-false (size_ok x.p id (length c)) s))))
