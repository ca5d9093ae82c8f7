-- ===== src/Stsafe/Frame/Responses.antt =====
-- What makes a response frame well formed, and the responses that are built.
use simulators.Common.{
  ℕ, ◌+◌, ◌-◌, ◌%◌, ◌≤◌, ◌<◌, ◌≡◌, bit_and, List, [], ◌∷◌, ◌++◌, arith, length, get_or, take, drop,
  length-append, take-append, get_or-append_right,
}
use simulators.Common.Bits.{bit_and-lt}
use simulators.Common.Bytes.{hi, lo, be16}
use simulators.Stsafe.Crc.{crc16_x25, crc16_x25-lt}
use simulators.Stsafe.Frame.{build_response, build_error}

-- A status of five bits, the number of bytes behind the length field, and the CRC of all but the
-- length field at the end.
pub record IsResponse (r : List ℕ) : Type 0 where
  pub status : get_or r 0 0 < 32
  pub sized : 5 ≤ length r
  pub counted : be16 (get_or r 1 0) (get_or r 2 0) + 3 ≡ length r
  pub checked :
      be16 (get_or r (length r - 2) 0) (get_or r (length r - 1) 0)
      ≡ crc16_x25 (get_or r 0 0 ∷ take (length r - 5) (drop 3 r))

pub build_response-IsResponse :
    (status : ℕ) (body : List ℕ)
    → status < 32
    → length body ≤ 65533
    → IsResponse (build_response status body)
unfolding build_response
build_response-IsResponse status body small fits =
    let header = bit_and status 0x1F in
    let crc = crc16_x25 (header ∷ body) in
    let word : List ℕ = hi crc ∷ lo crc ∷ [] in
    let count = (length body + 2) % 65536 in
    let front = header ∷ hi count ∷ lo count ∷ body in
    let r = front ++ word in
    let n = length-append body word in
    record {
      status = bit_and-lt 5 status 0x1F small;
      sized = omega (arith, n);
      counted = omega (arith, n);
      checked =
          let inner : take (length r - 5) (body ++ word) ≡ body =
            take-append (length r - 5) body word (omega (arith, n)) in
          rw inner (
            omega (
              arith,
              crc16_x25-lt (header ∷ body),
              get_or-append_right front word (length r - 2) 0 0 (omega (arith, n)),
              get_or-append_right front word (length r - 1) 1 0 (omega (arith, n)),
            ));
    }

pub build_error-IsResponse : (status : ℕ) → status < 32 → IsResponse (build_error status)
unfolding build_error
build_error-IsResponse status small = build_response-IsResponse status [] small (omega arith)
