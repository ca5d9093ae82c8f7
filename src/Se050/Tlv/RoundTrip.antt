-- ===== src/Se050/Tlv/RoundTrip.antt =====
-- SE050Sim/se050-sim/src/tlv.rs: the encoding of entries and its parsing.
use mathlib.Core.List.{append_assoc, append-nil}
use simulators.Common.{
  ℕ, zero, suc, ◌+◌, ◌≤◌, ◌<◌, ◌≡◌, ◌≢◌, refl, sym, ap, ◌∙◌, inl, inr, List, [], ◌∷◌, ◌++◌, arith,
  length, get_or, take, drop, take-append, drop-append, length-append, length-drop, All, ltb, leb,
  ◌==◌, if_intro, Bool-cases, le→ltb,
}
use simulators.Common.Bytes.{hi, lo, be16}
use simulators.Common.Results.{Result, ok, err}
use simulators.Se050.Tlv.{
  Tlv, TlvError, encode, encode_tlvs, header, entry, Parsed, done, out_of_fuel, parse_from,
  parse_tlvs,
}

-- A value whose length fits the three-byte length field.
abbrev pub IsTlv : Tlv → Type 0
IsTlv t = length t.value < 65536

header_short : (tag n : ℕ) (xs : List ℕ) → n < 128 → header (tag ∷ n ∷ xs) ≡ ok (n, 2)
unfolding header
header_short tag n xs h = ground arith

header_long : (tag a b : ℕ) (xs : List ℕ) → header (tag ∷ 0x82 ∷ a ∷ b ∷ xs) ≡ ok (be16 a b, 4)
unfolding header
header_long tag a b xs = ground arith

-- A header of either form, with a value behind it.
entry_value :
    (front v rest : List ℕ) (size : ℕ)
    → length front ≡ size
    → entry (front ++ (v ++ rest)) (ok (length v, size))
      ≡ ok (record { tag = get_or (front ++ (v ++ rest)) 0 0; value = v }, rest)
unfolding entry
entry_value front v rest size e =
    let n = length-append front (v ++ rest) in
    let m = length-append v rest in
    let value : take (length v) (drop size (front ++ (v ++ rest))) ≡ v =
      ap (take (length v)) (drop-append size front (v ++ rest) (sym e))
      ∙ take-append (length v) v rest refl in
    let behind : drop (size + length v) (front ++ (v ++ rest)) ≡ rest =
      ap (drop (size + length v)) (sym (append_assoc front v rest))
      ∙ drop-append (size + length v) (front ++ v) rest (omega (arith, length-append front v)) in
    rw (
      le→ltb (length (front ++ (v ++ rest))) (size + length v) (omega (arith, n, m)),
      value,
      behind,
    )

-- One entry in front of anything is read off whole.
entry-encode :
    (t : Tlv) (rest : List ℕ)
    → IsTlv t
    → entry (encode t ++ rest) (header (encode t ++ rest)) ≡ ok (t, rest)
unfolding encode
entry-encode t rest h =
    let len = length t.value in
    elim (Bool-cases (ltb len 128)) [
      | inl short ↦
          let e : lo len ≡ len = ground arith in
          rw (short, e, header_short t.tag len (t.value ++ rest) (ground arith))
            (entry_value (t.tag ∷ len ∷ []) t.value rest 2 refl)
      | inr long ↦
          let e : be16 (hi len) (lo len) ≡ len = omega arith in
          rw (long, header_long t.tag (hi len) (lo len) (t.value ++ rest), e)
            (entry_value (t.tag ∷ 0x82 ∷ (hi len) ∷ (lo len) ∷ []) t.value rest 4 refl)
    ]

-- One round of the loop, when the entry is whole.
round :
    (fuel b : ℕ) (bytes rest : List ℕ) (result : List Tlv) (t : Tlv)
    → entry (b ∷ bytes) (header (b ∷ bytes)) ≡ ok (t, rest)
    → parse_from (suc fuel) (b ∷ bytes) result ≡ parse_from fuel rest (result ++ (t ∷ []))
unfolding parse_from
round fuel b bytes rest result t e = rw (e, parse_from)

-- The loop over encoded entries, with what was parsed before them.
parse_from-encode_tlvs :
    (fuel : ℕ) (ts result : List Tlv)
    → length (encode_tlvs ts) ≤ fuel
    → All IsTlv ts
    → parse_from fuel (encode_tlvs ts) result ≡ done (ok (result ++ ts))
unfolding encode_tlvs
parse_from-encode_tlvs fuel [] result h v =
    unfold parse_from in ap (λ (r : List Tlv). done (ok r)) (sym (append-nil result))
parse_from-encode_tlvs zero (t ∷ ts) result h v = absurd (omega arith)
parse_from-encode_tlvs (suc fuel) (t ∷ ts) result h v =
    round fuel t.tag _ (encode_tlvs ts) result t (entry-encode t (encode_tlvs ts) v.0)
    ∙ parse_from-encode_tlvs fuel ts (result ++ (t ∷ []))
        (omega (arith, length-append (encode t) (encode_tlvs ts))) v.1
    ∙ ap (λ (r : List Tlv). done (ok r)) (append_assoc result (t ∷ []) ts)

-- A list of entries, each value shorter than 65536 bytes, is parsed back from its encoding.
pub parse_tlvs-encode_tlvs :
    (ts : List Tlv) → All IsTlv ts → parse_tlvs (encode_tlvs ts) ≡ done (ok ts)
unfolding parse_tlvs
parse_tlvs-encode_tlvs ts v = parse_from-encode_tlvs (length (encode_tlvs ts)) ts [] (omega arith) v

abbrev Shrinks : List ℕ → Result (Tlv × List ℕ) TlvError → Type 0
Shrinks bytes (err e) = Unit {0}
Shrinks bytes (ok (t, rest)) = length rest + 2 ≤ length bytes

abbrev Sized : Result (ℕ × ℕ) TlvError → Type 0
Sized (err e) = Unit {0}
Sized (ok (len, header_size)) = 2 ≤ header_size

header-Sized : (bytes : List ℕ) → Sized (header bytes)
unfolding header
header-Sized bytes =
    if_intro Sized (leb (length bytes) 1) (λ _. tt)
      λ _.
        if_intro Sized (get_or bytes 1 0 == 0x82)
          (λ _. if_intro Sized (ltb (length bytes) 4) (λ _. tt) (λ _. omega arith))
          (λ _. if_intro Sized (ltb (get_or bytes 1 0) 0x80) (λ _. omega arith) (λ _. tt))

entry-Shrinks :
    (bytes : List ℕ) (h : Result (ℕ × ℕ) TlvError) → Sized h → Shrinks bytes (entry bytes h)
unfolding entry
entry-Shrinks bytes (err e) s = tt
entry-Shrinks bytes (ok (len, header_size)) s =
    if_intro (Shrinks bytes) (ltb (length bytes) (header_size + len)) (λ _. tt)
      (λ e. ground (arith, length-drop (header_size + len) bytes))

parse_from-ne-out_of_fuel :
    (fuel : ℕ) (bytes : List ℕ) (result : List Tlv)
    → length bytes ≤ fuel
    → parse_from fuel bytes result ≢ out_of_fuel
unfolding parse_from
parse_from-ne-out_of_fuel fuel [] result h = λ e. cc
parse_from-ne-out_of_fuel zero (b ∷ bytes) result h = absurd (omega arith)
parse_from-ne-out_of_fuel (suc fuel) (b ∷ bytes) result h =
    let after : (r : Result (Tlv × List ℕ) TlvError)
        → Shrinks (b ∷ bytes) r
        → elim r [ err e ↦ done (err e) | ok (t, rest) ↦ parse_from fuel rest (result ++ (t ∷ [])) ]
          ≢ out_of_fuel =
      elim [
        | err e ↦ λ s x. cc
        | ok (t, rest) ↦ λ s. parse_from-ne-out_of_fuel fuel rest (result ++ (t ∷ [])) (omega arith)
      ] in
    after _ (entry-Shrinks (b ∷ bytes) _ (header-Sized (b ∷ bytes)))

-- Parsing comes to a result on every input: the fuel is never used up.
pub parse_tlvs_total :
    (bytes : List ℕ) → (r : Result (List Tlv) TlvError) × (parse_tlvs bytes ≡ done r)
unfolding parse_tlvs
parse_tlvs_total bytes =
    result_of (parse_from (length bytes) bytes [])
      (parse_from-ne-out_of_fuel (length bytes) bytes [] (omega arith))
  where
    result_of : (q : Parsed) → q ≢ out_of_fuel → (r : Result (List Tlv) TlvError) × (q ≡ done r)
    result_of (done r) h = (r, refl)
    result_of out_of_fuel h = absurd (h refl)
