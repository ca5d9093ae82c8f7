-- ===== src/Stsafe/Frame/RoundTrip.antt =====
-- STSAFEA120Sim/stsafe-a120-sim/src/frame.rs: commands as a host builds them, and their parsing.
use simulators.Common.{
  ℕ, ◌+◌, ◌-◌, ◌≤◌, ◌≡◌, ◌≢◌, refl, sym, subst, Option, none, some, List, [], ◌∷◌, ◌++◌, arith,
  length, get_or, take, take-append, length-append, get_or-append_right, le→ltb, eq→==, ne→==,
}
use simulators.Common.Bytes.{hi, lo, be16}
use simulators.Common.Results.{ok}
use simulators.Common.Slices.{slice}
use simulators.Stsafe.Crc.{crc16_x25, crc16_x25-lt}
use simulators.Stsafe.Frame.{Command, parse_command, build_command}

module _ (header : ℕ) (body : List ℕ) where
  -- The tests of length and CRC on a frame that is built.
  front : List ℕ
  front = header ∷ body

  word : List ℕ
  word = hi (crc16_x25 front) ∷ lo (crc16_x25 front) ∷ []

  cut : take (length (front ++ word) - 2) (front ++ word) ≡ front
  unfolding front word
  cut =
      take-append (length (front ++ word) - 2) front word (omega (arith, length-append front word))

  received :
      be16
        (get_or (front ++ word) (length (front ++ word) - 2) 0)
        (get_or (front ++ word) (length (front ++ word) - 2 + 1) 0)
      ≡ crc16_x25 front
  unfolding front word
  received =
      let n = length-append front word in
      omega (
        arith,
        crc16_x25-lt front,
        get_or-append_right front word (length (front ++ word) - 2) 0 0 (omega (arith, n)),
        get_or-append_right front word (length (front ++ word) - 2 + 1) 1 0 (omega (arith, n)),
      )

-- A command without an extended opcode.
simple :
    (header : ℕ) (body : List ℕ)
    → header ≢ 0x1F
    → length body ≤ 751
    → parse_command (build_command header body)
      ≡ ok (record { header = header; extended = none; body = body })
unfolding parse_command build_command front word slice
simple header body plain fits =
    let buf = front header body ++ word header body in
    let n = length-append (front header body) (word header body) in
    let inner : take (length buf - 2 - 1) (body ++ word header body) ≡ body =
      take-append (length buf - 2 - 1) body (word header body) (omega (arith, n)) in
    rw
      (
        le→ltb (length buf) 3 (omega (arith, n)),
        le→ltb 754 (length buf) (omega (arith, n)),
        cut header body,
        eq→== (crc16_x25 (front header body)) _ (sym (received header body)),
        ne→== header 0x1F plain,
        inner,
      )
      refl

extended :
    (opcode : ℕ) (body : List ℕ)
    → length body ≤ 750
    → parse_command (build_command 0x1F (opcode ∷ body))
      ≡ ok (record { header = 0x1F; extended = some opcode; body = body })
unfolding parse_command build_command front word slice
extended opcode body fits =
    let all = opcode ∷ body in
    let buf = front 0x1F all ++ word 0x1F all in
    let n = length-append (front 0x1F all) (word 0x1F all) in
    let inner : take (length buf - 2 - 2) (body ++ word 0x1F all) ≡ body =
      take-append (length buf - 2 - 2) body (word 0x1F all) (omega (arith, n)) in
    rw
      (
        le→ltb (length buf) 3 (omega (arith, n)),
        le→ltb 754 (length buf) (omega (arith, n)),
        cut 0x1F all,
        eq→== (crc16_x25 (front 0x1F all)) _ (sym (received 0x1F all)),
        le→ltb (length buf) 4 (omega (arith, n)),
        inner,
      )
      refl

-- What follows the header: the opcode of an extended command, and the body.
abbrev operands : Option ℕ → List ℕ → List ℕ
operands none body = body
operands (some opcode) body = opcode ∷ body

unfoldable pub encode : Command → List ℕ
unfolding build_command
encode c = build_command c.header (operands c.extended c.body)

-- An extended command has the prefix as its header, no other has, and the frame fits the buffer.
abbrev IsHeader : ℕ → Option ℕ → Type 0
IsHeader header none = header ≢ 0x1F
IsHeader header (some opcode) = header ≡ 0x1F

abbrev pub IsCommand : Command → Type 0
IsCommand c = IsHeader c.header c.extended × (length (operands c.extended c.body) ≤ 751)

-- A command that is built, whose header is the prefix exactly when it is extended, and with at most
-- 751 bytes behind the header, is parsed back.
pub parse_command-encode : (c : Command) → IsCommand c → parse_command (encode c) ≡ ok c
unfolding encode
parse_command-encode c h = of_header c.header c.extended c.body h.0 h.1
  where
    of_header :
        (header : ℕ) (extension : Option ℕ) (body : List ℕ)
        → IsHeader header extension
        → length (operands extension body) ≤ 751
        → parse_command (build_command header (operands extension body))
          ≡ ok (record { header = header; extended = extension; body = body })
    of_header header none body plain fits = simple header body plain fits
    of_header header (some opcode) body prefix fits =
        subst
          (λ (k : ℕ).
            parse_command (build_command k (opcode ∷ body))
            ≡ ok (record { header = k; extended = some opcode; body = body }))
          (sym prefix) (extended opcode body (omega arith))
