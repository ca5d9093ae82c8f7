-- ===== src/Se050/Scp03/Unwrap.antt =====
-- SE050Sim/se050-sim/src/scp03/mod.rs: the unwrapping of commands that a host wraps.
use mathlib.Core.List.{append_assoc}
use simulators.Common.{
  ℕ, zero, suc, ◌+◌, ◌-◌, ◌*◌, ◌/◌, ◌%◌, ◌<◌, ◌≤◌, ◌≡◌, refl, sym, ap, ◌∙◌, ◌≢◌, bit_and, bit_or,
  Bool, true, false, not, ◌&&◌, Option, none, some, List, [], ◌∷◌, ◌++◌, arith, length, take, drop,
  get_or, ltb, ◌==◌, if◌then◌else◌, Bool-cases, Option-cases, inl, inr, if_intro, length-append,
  length-take, take-append, drop-append, take_whole, eq→==, ne→==, lt→ltb, le→ltb,
}
use simulators.Common.Bits.{table}
use simulators.Common.Bytes.{IsBytes, hi, lo, be16}
use simulators.Common.Results.{ok}
use simulators.Common.Slices.{slice, same_bytes_refl}
use simulators.Se050.Aes.{Ciphers, AllDocumented}
use simulators.Se050.Apdu.{ParsedApdu}
use simulators.Se050.Scp03.Channel.{Session, level_cdec}
use simulators.Se050.Scp03.Crypto.Sizes.{cmac_chain-some, counter_icv-some, cbc_crypt-cbc_crypt}
use simulators.Se050.Scp03.Host.{IsKeys, IsPlain, lc_field, le_bytes, host_field, host_wrap}
use simulators.Se050.Scp03.Padding.{pad_m2, unpad_m2-pad_m2, length-pad_m2, pad_m2-IsBytes}
use simulators.Se050.Scp03.Session.{
  le_field, has_level, plaintext, verify_command, unwrap_data, unwrap_command,
}

le_field-le_bytes :
    (le : Option ℕ) → ((l : ℕ) → le ≡ some l → l < 65536) → le_field (le_bytes le) ≡ le
unfolding le_field le_bytes
le_field-le_bytes none h = refl
le_field-le_bytes (some l) h =
    let wide = h l refl in
    elim (Bool-cases (ltb l 256)) [
      | inl e ↦ rw e refl
      | inr e ↦ rw (e, le_field) (ap (λ (t : ℕ). some t) (omega arith))
    ]

-- The bit of secure messaging is set and cleared again.
class_back : (cla : ℕ) → cla < 256 → bit_and cla 0x04 ≡ 0 → bit_and (bit_or cla 0x04) 0xFB ≡ cla
unfolding simulators.Common.Bits.all_below
class_back cla h e =
    let t =
      table 256 (λ c. if bit_and c 0x04 == 0 then bit_and (bit_or c 0x04) 0xFB else c) (λ c. c) refl
        cla h in
    ground (arith, t, e)

both_right : (b c : Bool) → (b && c) ≡ true → c ≡ true
both_right b c e = ground (arith, e)

-- The parts of a wrapped command.
unwrap_parts :
    (cs : Ciphers) (s : Session) (header field mac le : List ℕ)
    → length mac ≡ 8
    → unwrap_data cs s (header ++ (field ++ (mac ++ le))) (length field + 8) (length header)
      ≡ verify_command cs s header field mac (le_field le)
unfolding unwrap_data slice
unwrap_parts cs s header field mac le n =
    let raw = header ++ (field ++ (mac ++ le)) in
    let ds = length header in
    let lc = length field + 8 in
    let size = length-append header (field ++ (mac ++ le)) in
    let size' = length-append field (mac ++ le) in
    let size'' = length-append mac le in
    let joined = length-append field mac in
    let back : length field + 8 - 8 ≡ length field = omega arith in
    let lc' : ds + lc - ds ≡ lc = omega arith in
    let front : take ds raw ≡ header = take-append ds header (field ++ (mac ++ le)) refl in
    let behind : drop ds raw ≡ (field ++ mac) ++ le =
      (drop-append ds header (field ++ (mac ++ le)) refl ∙ sym (append_assoc field mac le)) in
    let body : take lc (drop ds raw) ≡ field ++ mac =
      (ap (take lc) behind ∙ take-append lc (field ++ mac) le (omega (arith, joined))) in
    let assoc : raw ≡ (header ++ (field ++ mac)) ++ le =
      (ap (λ (t : List ℕ). header ++ t) (sym (append_assoc field mac le))
        ∙ sym (append_assoc header (field ++ mac) le)) in
    let last : drop (ds + lc) raw ≡ le =
      (ap (drop (ds + lc)) assoc
        ∙ drop-append (ds + lc) (header ++ (field ++ mac)) le
            (omega (arith, joined, length-append header (field ++ mac)))) in
    rw
      (
        le→ltb lc 8 (omega arith),
        le→ltb (length raw) (ds + lc) (omega (arith, size, size', size'')),
        lc',
        front,
        body,
        last,
        back,
        take-append (length field) field mac refl,
        drop-append (length field) field mac refl,
      )
      refl

-- The length in front, in either form.
unwrap_field :
    (cs : Ciphers) (s : Session) (cla ins p1 p2 : ℕ) (field mac le : List ℕ)
    → length mac ≡ 8
    → length field ≤ 65500
    → let header = cla ∷ ins ∷ p1 ∷ p2 ∷ lc_field (length field + 8) in
      unwrap_command cs s (header ++ (field ++ (mac ++ le)))
      ≡ verify_command cs s header field mac (le_field le)
unfolding unwrap_command lc_field
unwrap_field cs s cla ins p1 p2 field mac le n short =
    let lc = length field + 8 in
    let rest = field ++ (mac ++ le) in
    let size = length-append field (mac ++ le) in
    let size' = length-append mac le in
    elim (Bool-cases (ltb lc 256)) [
      | inl e ↦
          (let header = cla ∷ ins ∷ p1 ∷ p2 ∷ lc ∷ [] in
            rw
              (
                e,
                le→ltb (length (header ++ rest)) 5 (omega (arith, size, size')),
                ne→== lc 0 (λ g. omega arith),
              )
              (unwrap_parts cs s header field mac le n))
      | inr e ↦
          (let header = cla ∷ ins ∷ p1 ∷ p2 ∷ 0x00 ∷ hi lc ∷ lo lc ∷ [] in
            let whole : be16 (hi lc) (lo lc) ≡ lc = omega arith in
            rw
              (
                e,
                le→ltb (length (header ++ rest)) 5 (omega (arith, size, size')),
                le→ltb (length (header ++ rest)) 7 (omega (arith, size, size')),
                whole,
              )
              (unwrap_parts cs s header field mac le n))
    ]

module _ (cs : Ciphers) (laws : AllDocumented cs) where
  -- The data field that the host sends, and what the card reads from it.
  field_back :
      (s : Session) (bytes : List ℕ)
      → IsKeys s.keys
      → IsBytes bytes
      → (field : List ℕ) × (host_field cs s bytes ≡ some field)
        × (length field ≤ length bytes + 16)
        × ((mcv : List ℕ) → plaintext cs (record s { mcv = mcv }) field ≡ some bytes)
  unfolding host_field plaintext
  field_back s bytes is bb =
      let (icv, f, ib) =
        counter_icv-some cs laws is.n s.keys.s_enc s.cmd_counter false is.enc_size is.length_enc in
      let blocks = length bytes / 16 + 1 in
      let padded = length-pad_m2 bytes in
      let (out, g, size, back) =
        cbc_crypt-cbc_crypt cs laws is.n blocks s.keys.s_enc icv (pad_m2 bytes) is.enc_size
          is.length_enc padded ib (pad_m2-IsBytes bytes bb) in
      elim (Bool-cases (not (length bytes == 0) && has_level s level_cdec)) [
        | inr e ↦ (bytes, rw e refl, omega arith, λ mcv. rw e refl)
        | inl e ↦ (
          out,
          rw (e, f, g) refl,
          omega (arith, size, padded),
          λ mcv.
              rw
                (
                  ne→== (length out) 0 (λ h. omega (arith, size, padded)),
                  both_right (not (length bytes == 0)) (has_level s level_cdec) e,
                  eq→== (length out % 16) 0 (omega (arith, size, padded)),
                  f,
                  back,
                )
                (unpad_m2-pad_m2 bytes),
        )
      ]

  -- A command that the host wraps, the card unwraps to the same command, and both sides have the
  -- same session behind it.
  pub unwrap_command-host_wrap :
      (s : Session) (a : ParsedApdu)
      → IsKeys s.keys
      → IsPlain a
      → (raw : List ℕ) × (s' : Session) × (host_wrap cs s a ≡ some (raw, s'))
        × (unwrap_command cs s raw ≡ (s', ok a))
        × (s'.keys ≡ s.keys)
  unfolding host_wrap verify_command
  unwrap_command-host_wrap s a is plain =
      let (field, f, short, back) = field_back s a.payload is plain.is_payload in
      let header = bit_or a.cla 0x04 ∷ a.ins ∷ a.p1 ∷ a.p2 ∷ lc_field (length field + 8) in
      let (full, g, size) =
        cmac_chain-some cs laws is.m s.keys.s_mac s.mcv (header ++ field) is.mac_size
          is.length_mac in
      let unwrapped =
        unwrap_field cs s (bit_or a.cla 0x04) a.ins a.p1 a.p2 field (take 8 full) (le_bytes a.le)
          (length-take 8 full (omega (arith, size))) (let limit = plain.is_short in omega arith) in
      (
        header ++ (field ++ (take 8 full ++ le_bytes a.le)),
        record s { mcv = full; last_cmd_len = length a.payload },
        rw (f, g) refl,
        unwrapped
            ∙ (rw
                (
                  g,
                  same_bytes_refl (take 8 full),
                  back full,
                  class_back a.cla plain.is_class plain.clear,
                  le_field-le_bytes a.le plain.is_le,
                  verify_command,
                )
                refl),
        refl,
      )
