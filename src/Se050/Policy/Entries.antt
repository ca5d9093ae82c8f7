-- ===== src/Se050/Policy/Entries.antt =====
-- Policies as a host encodes them, and their access rules.
use simulators.Common.{
  ℕ, zero, suc, ◌+◌, ◌/◌, ◌%◌, ◌≤◌, ◌<◌, ◌≡◌, ◌≢◌, refl, ◌∙◌, bit_or, Bool, true, false, ◌||◌,
  Option, none, some, List, [], ◌∷◌, ◌++◌, arith, length, length-append, length-drop, drop,
  drop-append, All, ltb, if_intro, le→ltb,
}
use simulators.Common.Results.{Result, ok}
use simulators.Se050.Tlv.{Tlv, find_tlv}
use simulators.Se050.Policy.{
  InvalidPolicy, be32, union_loop, ar_header_union, checked, attached, creation_policy,
}

pub record PolicyEntry : Type 0 where
  pub auth_id : ℕ
  pub header : ℕ
  pub extension : List ℕ

abbrev to_be_bytes : ℕ → List ℕ
to_be_bytes x = (x / 16777216 % 256) ∷ (x / 65536 % 256) ∷ (x / 256 % 256) ∷ (x % 256) ∷ []

-- `entry` of the source's tests.
unfoldable pub encode_entry : PolicyEntry → List ℕ
encode_entry e =
    ((8 + length e.extension) % 256)
    ∷ (to_be_bytes e.auth_id ++ (to_be_bytes e.header ++ e.extension))

unfoldable pub encode_entries : List PolicyEntry → List ℕ
encode_entries [] = []
encode_entries (e ∷ es) = encode_entry e ++ encode_entries es

abbrev pub IsPolicyEntry : PolicyEntry → Type 0
IsPolicyEntry e = (e.header < 4294967296) × (length e.extension < 248)

-- The rules of all entries, joined to the rules that are there.
unfoldable pub union_from : ℕ → List PolicyEntry → ℕ
union_from header [] = header
union_from header (e ∷ es) = union_from (bit_or header e.header) es

word :
    (x : ℕ)
    → x < 4294967296
    → be32 (x / 16777216 % 256) (x / 65536 % 256) (x / 256 % 256) (x % 256) ≡ x
word x h = omega arith

round :
    (fuel header : ℕ) (seen : Bool) (e : PolicyEntry) (rest : List ℕ)
    → IsPolicyEntry e
    → union_loop (suc fuel) (encode_entry e ++ rest) header seen
      ≡ union_loop fuel rest (bit_or header e.header) true
unfolding union_loop encode_entry
round fuel header seen e rest v =
    let body = to_be_bytes e.auth_id ++ (to_be_bytes e.header ++ e.extension) in
    let len = 8 + length e.extension in
    let size : len % 256 ≡ len = omega (arith, v.1) in
    let n = length-append body rest in
    let behind : drop len (body ++ rest) ≡ rest = drop-append len body rest (omega arith) in
    rw
      (
        size,
        le→ltb len 8 (omega arith),
        le→ltb (length (len % 256 ∷ (body ++ rest))) (1 + len) (omega (arith, n)),
        word e.header v.0,
        behind,
      )
      refl

shorter : (e : PolicyEntry) (rest : List ℕ) → 1 + length rest ≤ length (encode_entry e ++ rest)
unfolding encode_entry
shorter e rest = omega (arith, length-append (encode_entry e) rest)

union_loop-encode_entries :
    (fuel header : ℕ) (es : List PolicyEntry)
    → length (encode_entries es) ≤ fuel
    → All IsPolicyEntry es
    → union_loop fuel (encode_entries es) header true ≡ some (some (union_from header es))
unfolding union_loop encode_entries union_from
union_loop-encode_entries fuel header [] h v = refl
union_loop-encode_entries zero header (e ∷ es) h v =
    absurd (omega (arith, shorter e (encode_entries es)))
union_loop-encode_entries (suc fuel) header (e ∷ es) h v =
    round fuel header true e (encode_entries es) v.0
    ∙ union_loop-encode_entries fuel (bit_or header e.header) es
        (omega (arith, shorter e (encode_entries es))) v.1

-- The first entry, when nothing was seen before it.
first_entry :
    (fuel : ℕ) (e : PolicyEntry) (es : List PolicyEntry)
    → length (encode_entry e ++ encode_entries es) ≤ fuel
    → All IsPolicyEntry (e ∷ es)
    → union_loop fuel (encode_entry e ++ encode_entries es) 0 false
      ≡ some (some (union_from (bit_or 0 e.header) es))
first_entry zero e es h v = absurd (omega (arith, shorter e (encode_entries es)))
first_entry (suc fuel) e es h v =
    round fuel 0 false e (encode_entries es) v.0
    ∙ union_loop-encode_entries fuel (bit_or 0 e.header) es
        (omega (arith, shorter e (encode_entries es))) v.1

-- The access rules of one or more entries, each with a 32-bit header and at most 247 bytes of
-- extension, are the union of the headers.
pub ar_header_union-encode_entries :
    (e : PolicyEntry) (es : List PolicyEntry)
    → All IsPolicyEntry (e ∷ es)
    → ar_header_union (encode_entries (e ∷ es)) ≡ some (some (union_from 0 (e ∷ es)))
unfolding ar_header_union encode_entries union_from
ar_header_union-encode_entries e es v = first_entry _ e es (omega arith) v

union_loop-ne-none :
    (fuel header : ℕ) (rest : List ℕ) (seen : Bool)
    → length rest ≤ fuel
    → union_loop fuel rest header seen ≢ none
unfolding union_loop
union_loop-ne-none fuel header [] seen h = λ e. cc
union_loop-ne-none zero header (len ∷ rest) seen h = absurd (omega arith)
union_loop-ne-none (suc fuel) header (len ∷ rest) seen h =
    if_intro (λ (o : Option (Option ℕ)). o ≢ none)
      (ltb len 8 || ltb (length (len ∷ rest)) (1 + len)) (λ _ e. cc)
      (λ _. union_loop-ne-none fuel _ (drop len rest) true (omega (arith, length-drop len rest)))

checked_total :
    (value : List ℕ) (o : Option (Option ℕ))
    → o ≢ none
    → (r : Result (Option (List ℕ)) InvalidPolicy) × (checked value o ≡ some r)
unfolding checked
checked_total value none h = absurd (h refl)
checked_total value (some none) h = (_, refl)
checked_total value (some (some header)) h = (_, refl)

attached_total :
    (t : Option Tlv) → (r : Result (Option (List ℕ)) InvalidPolicy) × (attached t ≡ some r)
unfolding attached ar_header_union
attached_total none = (_, refl)
attached_total (some t) = of_value t.value
  where
    of_value :
        (value : List ℕ)
        → (r : Result (Option (List ℕ)) InvalidPolicy) × (elim value [
          | [] ↦ some (ok none)
          | b ∷ bytes ↦ checked (b ∷ bytes) (ar_header_union (b ∷ bytes))
        ]
            ≡ some r)
    of_value [] = (_, refl)
    of_value (b ∷ bytes) =
        checked_total (b ∷ bytes) _
          (union_loop-ne-none (length (b ∷ bytes)) 0 (b ∷ bytes) false (omega arith))

-- The policy of a command is accepted or refused on every list of entries: the fuel of its loop, the
-- length of the value, is never used up.
pub creation_policy_total :
    (tlvs : List Tlv)
    → (r : Result (Option (List ℕ)) InvalidPolicy) × (creation_policy tlvs ≡ some r)
unfolding creation_policy
creation_policy_total tlvs = attached_total (find_tlv tlvs 0x11)
