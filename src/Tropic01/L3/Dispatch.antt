-- ===== src/Tropic01/L3/Dispatch.antt =====
-- TROPIC01Sim/tropic01-sim/src/handlers/l3.rs: the commands by their identifiers, and the
-- dispatch of a decrypted command.
use simulators.Common.{
  ℕ, Option, none, some, Bool, true, false, not, ◌&&◌, List, [], ◌∷◌, ◌==◌, if◌then◌else◌, length,
  replicate,
}
use simulators.Tropic01.Personality.{strict_l3_sizes}
use simulators.Tropic01.Store.{Device}
use simulators.Tropic01.L3.Code
use simulators.Tropic01.L3.CmdId
use simulators.Tropic01.L3.{Crates, Ctx, Answer, OsRng, code}
use simulators.Tropic01.L3.Pairing.{
  ping, pairing_key_write, pairing_key_read, pairing_key_invalidate,
}
use simulators.Tropic01.L3.Config.{
  r_config_write, config_read, r_config_erase, i_config_write, random,
}
use simulators.Tropic01.L3.Memory.{
  r_mem_write, r_mem_read, r_mem_erase, mcounter_init, mcounter_update, mcounter_get,
  mac_and_destroy,
}
use simulators.Tropic01.L3.Keys.{
  ecc_generate, ecc_store, ecc_read, ecc_erase, ecdsa_sign, eddsa_sign,
}
use simulators.Tropic01.L3.Sizes.{
  failed, ok_no_data, executed, size_ok, es_lenient, is_spect, known,
}

-- `panicked` stands for a panic in a command, where the code has no outcome.
pub data L3Outcome : Type 0 where
  answered : List ℕ → L3Outcome
  rejected : L3Outcome
  panicked : L3Outcome

-- The outcome of a command that has been run.
unfoldable pub outcome_of : Option (List ℕ) → L3Outcome
outcome_of none = panicked
outcome_of (some r) = answered r

pub record L3State : Type 0 where
  pub spect_size_error : Bool

-- The last `match` of `dispatch`.
unfoldable pub perform : Crates → OsRng → Ctx → ℕ → List ℕ → Answer
unfolding code
perform k rng x id c =
    if id == CmdId.ping
    then ping x c
    else (if id == CmdId.pairing_key_write
        then pairing_key_write x c
        else (if id == CmdId.pairing_key_read
            then pairing_key_read x c
            else (if id == CmdId.pairing_key_invalidate
                then pairing_key_invalidate x c
                else (if id == CmdId.r_config_write
                    then r_config_write x c
                    else (if id == CmdId.r_config_read
                        then config_read x c false
                        else (if id == CmdId.r_config_erase
                            then r_config_erase x
                            else (if id == CmdId.i_config_write
                                then i_config_write x c
                                else (if id == CmdId.i_config_read
                                    then config_read x c true
                                    else (if id == CmdId.r_mem_data_write
                                        then r_mem_write x c
                                        else (if id == CmdId.r_mem_data_read
                                            then r_mem_read x c
                                            else (if id == CmdId.r_mem_data_erase
                                                then r_mem_erase x c
                                                else (if id == CmdId.random_value_get
                                                    then random rng x c
                                                    else (if id == CmdId.ecc_key_generate
                                                        then ecc_generate k rng x c
                                                        else (if id == CmdId.ecc_key_store
                                                            then ecc_store k x c
                                                            else (if id == CmdId.ecc_key_read
                                                            then ecc_read k x c
                                                            else (if id == CmdId.ecc_key_erase
                                                            then ecc_erase x c
                                                            else (if id == CmdId.ecdsa_sign
                                                            then ecdsa_sign k rng x c
                                                            else (if id == CmdId.eddsa_sign
                                                            then eddsa_sign k rng x c
                                                            else (if id == CmdId.mcounter_init
                                                            then mcounter_init x c
                                                            else (if id == CmdId.mcounter_update
                                                            then mcounter_update x c
                                                            else (if id == CmdId.mcounter_get
                                                            then mcounter_get x c
                                                            else (if id == CmdId.mac_and_destroy
                                                            then mac_and_destroy k x c
                                                            else (
                                                            code Code.invalid_cmd,
                                                            x.dev,
                                                            )))))))))))))))))))))))

pub record Dispatched : Type 0 where
  pub outcome : L3Outcome
  pub device : Device
  pub state : L3State

-- `dispatch` behind the test of the size. The flag is taken whether or not it is used.
unfoldable pub run_command : Crates → OsRng → Ctx → L3State → ℕ → List ℕ → Dispatched
unfolding outcome_of
run_command k rng x st id c =
    let cleared : L3State = record { spect_size_error = false } in
    let answer = perform k rng x id c in
    if st.spect_size_error && not (is_spect id)
    then record {
      outcome = answered (replicate (if id == CmdId.ping then length c else 1) 0);
      device = x.dev;
      state = cleared;
    }
    else record { outcome = outcome_of answer.0; device = answer.1; state = cleared }

-- `dispatch` where the size does not fit.
unfoldable pub size_refused : Crates → OsRng → Ctx → L3State → ℕ → List ℕ → Dispatched
unfolding code outcome_of
size_refused k rng x st id c =
    if strict_l3_sizes x.p
    then record {
      outcome = rejected;
      device = x.dev;
      state = if is_spect id then record { spect_size_error = true } else st;
    }
    else elim (es_lenient id (length c)) [
      | failed ↦ record { outcome = outcome_of (code Code.fail); device = x.dev; state = st }
      | ok_no_data ↦ record { outcome = outcome_of (code Code.ok); device = x.dev; state = st }
      | executed ↦ run_command k rng x st id c
    ]

unfoldable pub dispatch : Crates → OsRng → Ctx → L3State → List ℕ → Dispatched
unfolding code outcome_of
dispatch k rng x st [] = record {
  outcome = outcome_of (code Code.invalid_cmd);
  device = x.dev;
  state = st;
}
dispatch k rng x st (id ∷ rest) =
    let c = id ∷ rest in
    if not (known id)
    then record {
      outcome = outcome_of (code Code.invalid_cmd);
      device = x.dev;
      state = record { spect_size_error = false };
    }
    else (if not (size_ok x.p id (length c))
        then size_refused k rng x st id c
        else run_command k rng x st id c)
