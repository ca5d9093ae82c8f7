-- ===== src/Se050/Apdu/Cases.antt =====
-- SE050Sim/se050-sim/src/apdu.rs: the cases of ISO 7816-4 as a host encodes them.
use simulators.Common.{
  ℕ, ◌+◌, ◌-◌, ◌≤◌, ◌<◌, ◌≡◌, refl, ap, ◌∙◌, Option, none, some, List, [], ◌∷◌, ◌++◌, arith, length,
  get_or, take, take-append, length-append, get_or-append_right, ltb, leb, ◌==◌, if◌then◌else◌,
  le→ltb, le→leb, lt→ltb, eq→==, ne→==,
}
use simulators.Common.Bytes.{hi, lo, be16}
use simulators.Common.Results.{ok, err}
use simulators.Common.Slices.{slice}
use simulators.Se050.Apdu.{ParsedApdu, parse, parse_short, parse_extended, invalid_length}

-- What may follow the data: nothing, or the length of the expected answer in one byte.
abbrev le_bytes : Option ℕ → List ℕ
le_bytes none = []
le_bytes (some n) = n ∷ []

-- The short form, for 1 to 255 bytes of data.
pub encode_short : ParsedApdu → List ℕ
encode_short a = a.cla ∷ a.ins ∷ a.p1 ∷ a.p2 ∷ length a.payload ∷ (a.payload ++ le_bytes a.le)

-- The extended form, for 1 to 65535 bytes of data, with the answer's length in two bytes.
abbrev le_words : Option ℕ → List ℕ
le_words none = []
le_words (some n) = hi n ∷ lo n ∷ []

pub encode_extended : ParsedApdu → List ℕ
encode_extended a =
    a.cla
    ∷ a.ins
    ∷ a.p1
    ∷ a.p2
    ∷ 0x00
    ∷ (hi (length a.payload))
    ∷ (lo (length a.payload))
    ∷ (a.payload ++ le_words a.le)

module _ (cla ins p1 p2 : ℕ) (payload tail : List ℕ) where
  -- The short form with anything behind the data.
  short_tail :
      parse_short (cla ∷ ins ∷ p1 ∷ p2 ∷ length payload ∷ (payload ++ tail))
      ≡ ok (record {
        cla = cla;
        ins = ins;
        p1 = p1;
        p2 = p2;
        payload = payload;
        le = if ltb 0 (length tail) then some (get_or tail 0 0) else none;
      })
  unfolding parse_short slice
  short_tail =
      let len = length payload in
      let front = cla ∷ ins ∷ p1 ∷ p2 ∷ len ∷ payload in
      let n = length-append payload tail in
      let body : take (5 + len - 5) (payload ++ tail) ≡ payload =
        take-append (5 + len - 5) payload tail (omega arith) in
      let behind : get_or (front ++ tail) (5 + len) 0 ≡ get_or tail 0 0 =
        get_or-append_right front tail (5 + len) 0 0 (omega arith) in
      let more : ltb (5 + len) (length (front ++ tail)) ≡ ltb 0 (length tail) = ground (arith, n) in
      rw (le→ltb (length (front ++ tail)) (5 + len) (omega (arith, n)), body, behind, more)

-- The extended form with anything behind the data.
module _ (cla ins p1 p2 : ℕ) (payload tail : List ℕ) where
  extended_tail :
      1 ≤ length payload
      → length payload < 65536
      → parse_extended (
          cla
          ∷ ins
          ∷ p1
          ∷ p2
          ∷ 0x00
          ∷ (hi (length payload))
          ∷ (lo (length payload))
          ∷ (payload ++ tail))
        ≡ ok (record {
          cla = cla;
          ins = ins;
          p1 = p1;
          p2 = p2;
          payload = payload;
          le =
              if leb 2 (length tail)
              then some (be16 (get_or tail 0 0) (get_or tail 1 0))
              else (if 1 == length tail then some (get_or tail 0 0) else none);
        })
  unfolding parse_extended slice
  extended_tail some_byte fits =
      let len = length payload in
      let front = cla ∷ ins ∷ p1 ∷ p2 ∷ 0x00 ∷ (hi len) ∷ (lo len) ∷ payload in
      let n = length-append payload tail in
      let lc : be16 (hi len) (lo len) ≡ len = omega arith in
      let body : take (7 + len - 7) (payload ++ tail) ≡ payload =
        take-append (7 + len - 7) payload tail (omega arith) in
      let first : get_or (front ++ tail) (7 + len) 0 ≡ get_or tail 0 0 =
        get_or-append_right front tail (7 + len) 0 0 (omega arith) in
      let second : get_or (front ++ tail) (7 + len + 1) 0 ≡ get_or tail 1 0 =
        get_or-append_right front tail (7 + len + 1) 1 0 (omega arith) in
      let two : leb (7 + len + 2) (length (front ++ tail)) ≡ leb 2 (length tail) =
        ground (arith, n) in
      let one : (7 + len + 1 == length (front ++ tail)) ≡ (1 == length tail) = ground (arith, n) in
      rw (
        lc,
        ne→== len 0 (omega arith),
        le→ltb (length (front ++ tail)) (7 + len) (omega (arith, n)),
        body,
        first,
        second,
        two,
        one,
      )

parse_as_short : (raw : List ℕ) → 6 ≤ length raw → 1 ≤ get_or raw 4 0 → parse raw ≡ parse_short raw
unfolding parse
parse_as_short raw long marker = rw (
  le→ltb (length raw) 4 (omega arith),
  ne→== (length raw) 4 (omega arith),
  ne→== (length raw) 5 (omega arith),
  ne→== (get_or raw 4 0) 0 (omega arith),
)

parse_as_extended :
    (raw : List ℕ) → 7 ≤ length raw → get_or raw 4 0 ≡ 0 → parse raw ≡ parse_extended raw
unfolding parse
parse_as_extended raw long marker = rw (
  le→ltb (length raw) 4 (omega arith),
  ne→== (length raw) 4 (omega arith),
  ne→== (length raw) 5 (omega arith),
  eq→== (get_or raw 4 0) 0 marker,
  le→leb 7 (length raw) long,
)

short_le :
    (le : Option ℕ)
    → (if ltb 0 (length (le_bytes le)) then some (get_or (le_bytes le) 0 0) else none) ≡ le
short_le none = refl
short_le (some n) = refl

-- An answer's length fits two bytes.
abbrev pub IsLe : Option ℕ → Type 0
IsLe none = Unit
IsLe (some n) = n < 65536

extended_le :
    (le : Option ℕ)
    → IsLe le
    → (if leb 2 (length (le_words le))
        then some (be16 (get_or (le_words le) 0 0) (get_or (le_words le) 1 0))
        else (if 1 == length (le_words le) then some (get_or (le_words le) 0 0) else none))
      ≡ le
extended_le none _ = refl
extended_le (some n) fits = ap some (omega arith)

with_le : ParsedApdu → Option ℕ → ParsedApdu
with_le a le = record {
  cla = a.cla;
  ins = a.ins;
  p1 = a.p1;
  p2 = a.p2;
  payload = a.payload;
  le = le;
}

-- Every APDU with 1 to 255 bytes of data, with or without Le, is parsed back from its short form.
pub parse-encode_short :
    (a : ParsedApdu) → 1 ≤ length a.payload → length a.payload < 256 → parse (encode_short a) ≡ ok a
unfolding parse encode_short with_le
parse-encode_short a some_byte fits =
    let tail = le_bytes a.le in
    let n = length-append a.payload tail in
    let same = parse_as_short (encode_short a) (omega (arith, n)) (omega arith) in
    same
    ∙ short_tail a.cla a.ins a.p1 a.p2 a.payload tail
    ∙ ap (λ le. ok (with_le a le)) (short_le a.le)

-- Every APDU with 1 to 65535 bytes of data, with or without a two-byte Le, is parsed back from its
-- extended form.
pub parse-encode_extended :
    (a : ParsedApdu)
    → 1 ≤ length a.payload
    → length a.payload < 65536
    → IsLe a.le
    → parse (encode_extended a) ≡ ok a
unfolding parse encode_extended with_le
parse-encode_extended a some_byte fits word =
    let tail = le_words a.le in
    let n = length-append a.payload tail in
    let same = parse_as_extended (encode_extended a) (omega (arith, n)) refl in
    same
    ∙ extended_tail a.cla a.ins a.p1 a.p2 a.payload tail some_byte fits
    ∙ ap (λ le. ok (with_le a le)) (extended_le a.le word)

-- An extended APDU without data whose Le is not zero is refused: its Le is read as the length of data.
pub parse-extended_le :
    (cla ins p1 p2 le : ℕ)
    → 1 ≤ le
    → le < 65536
    → parse (cla ∷ ins ∷ p1 ∷ p2 ∷ 0x00 ∷ (hi le) ∷ (lo le) ∷ []) ≡ err invalid_length
unfolding parse parse_extended
parse-extended_le cla ins p1 p2 le some_byte fits =
    let word : be16 (hi le) (lo le) ≡ le = omega arith in
    rw (word, ne→== le 0 (omega arith), lt→ltb 7 (7 + le) (omega arith))
