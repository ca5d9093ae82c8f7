-- ===== src/Tropic01/L3/Sizes.antt =====
-- TROPIC01Sim/tropic01-sim/src/handlers/l3.rs: which commands there are, which of them use SPECT or
-- change the store, and what size they have.
use simulators.Common.{
  ℕ, ◌+◌, Bool, true, false, ◌&&◌, ◌||◌, List, [], ◌∷◌, ltb, leb, ◌==◌, if◌then◌else◌,
}
use simulators.Tropic01.Personality.{Personality, r_mem_slot_max}
use simulators.Tropic01.L3.CmdId

abbrev pub ping_max : ℕ
ping_max = 4096

abbrev pub eddsa_msg_max : ℕ
eddsa_msg_max = 4096

pub data Lenient : Type 0 where
  failed ok_no_data executed : Lenient

-- `matches!` of an identifier.
unfoldable pub one_of : List ℕ → ℕ → Bool
one_of [] id = false
one_of (i ∷ is) id = (id == i) || one_of is id

unfoldable pub size_ok : Personality → ℕ → ℕ → Bool
size_ok p id len =
    if id == CmdId.ping
    then leb 1 len && leb len (1 + ping_max)
    else (if id == CmdId.pairing_key_write
        then len == 36
        else (if id == CmdId.pairing_key_read
            then len == 3
            else (if id == CmdId.pairing_key_invalidate
                then len == 3
                else (if id == CmdId.r_config_write
                    then len == 8
                    else (if id == CmdId.r_config_read
                        then len == 3
                        else (if id == CmdId.r_config_erase
                            then len == 1
                            else (if id == CmdId.i_config_write
                                then len == 4
                                else (if id == CmdId.i_config_read
                                    then len == 3
                                    else (if id == CmdId.r_mem_data_write
                                        then leb 5 len && leb len (4 + r_mem_slot_max p)
                                        else (if id == CmdId.r_mem_data_read
                                            then len == 3
                                            else (if id == CmdId.r_mem_data_erase
                                                then len == 3
                                                else (if id == CmdId.random_value_get
                                                    then len == 2
                                                    else (if id == CmdId.ecc_key_generate
                                                        then len == 4
                                                        else (if id == CmdId.ecc_key_store
                                                            then len == 48
                                                            else (if id == CmdId.ecc_key_read
                                                            then len == 3
                                                            else (if id == CmdId.ecc_key_erase
                                                            then len == 3
                                                            else (if id == CmdId.ecdsa_sign
                                                            then len == 48
                                                            else (if id == CmdId.eddsa_sign
                                                            then leb 16 len
                                                            && leb len (16 + eddsa_msg_max)
                                                            else (if id == CmdId.mcounter_init
                                                            then len == 8
                                                            else (if id == CmdId.mcounter_update
                                                            then len == 3
                                                            else (if id == CmdId.mcounter_get
                                                            then len == 3
                                                            else (if id == CmdId.mac_and_destroy
                                                            then len == 36
                                                            else true))))))))))))))))))))))

unfoldable pub es_lenient : ℕ → ℕ → Lenient
unfolding one_of
es_lenient id len =
    if (id == CmdId.random_value_get) && ltb 2 len
    then executed
    else (if one_of (CmdId.ecdsa_sign ∷ CmdId.mac_and_destroy ∷ CmdId.eddsa_sign ∷ []) id
        then ok_no_data
        else failed)

unfoldable pub is_spect : ℕ → Bool
unfolding one_of
is_spect id =
    one_of
      (CmdId.ecc_key_generate ∷ CmdId.ecc_key_store ∷ CmdId.ecc_key_read ∷ CmdId.ecc_key_erase
        ∷ CmdId.ecdsa_sign ∷ CmdId.eddsa_sign ∷ CmdId.mac_and_destroy ∷ [])
      id

unfoldable pub mutates_store : ℕ → Bool
unfolding one_of
mutates_store id =
    one_of
      (CmdId.pairing_key_write ∷ CmdId.pairing_key_invalidate ∷ CmdId.r_config_write
        ∷ CmdId.r_config_erase ∷ CmdId.i_config_write ∷ CmdId.r_mem_data_write
        ∷ CmdId.r_mem_data_erase ∷ CmdId.ecc_key_generate ∷ CmdId.ecc_key_store
        ∷ CmdId.ecc_key_erase ∷ CmdId.mcounter_init ∷ CmdId.mcounter_update ∷ CmdId.mac_and_destroy
        ∷ [])
      id

unfoldable pub known : ℕ → Bool
unfolding one_of
known id =
    one_of
      (CmdId.ping ∷ CmdId.pairing_key_write ∷ CmdId.pairing_key_read ∷ CmdId.pairing_key_invalidate
        ∷ CmdId.r_config_write ∷ CmdId.r_config_read ∷ CmdId.r_config_erase ∷ CmdId.i_config_write
        ∷ CmdId.i_config_read ∷ CmdId.r_mem_data_write ∷ CmdId.r_mem_data_read
        ∷ CmdId.r_mem_data_erase ∷ CmdId.random_value_get ∷ CmdId.ecc_key_generate
        ∷ CmdId.ecc_key_store ∷ CmdId.ecc_key_read ∷ CmdId.ecc_key_erase ∷ CmdId.ecdsa_sign
        ∷ CmdId.eddsa_sign ∷ CmdId.mcounter_init ∷ CmdId.mcounter_update ∷ CmdId.mcounter_get
        ∷ CmdId.mac_and_destroy ∷ [])
      id
