-- ===== src/Tropic01/Frame/RoundTrip.antt =====
-- TROPIC01Sim/tropic01-sim/src/frame.rs: requests as a host builds them, and their parsing.
use simulators.Common.{
  ℕ, ◌+◌, ◌-◌, ◌%◌, ◌≤◌, ◌≡◌, refl, some, List, [], ◌∷◌, ◌++◌, arith, length, get_or, take,
  take-append, length-append, get_or-append_right, le→ltb, le→leb, eq→==,
}
use simulators.Common.Bytes.{hi, lo, be16}
use simulators.Common.Results.{ok}
use simulators.Common.Slices.{slice}
use simulators.Tropic01.Crc.{crc16, crc16-lt, append_crc}
use simulators.Tropic01.Frame.{parse_request, build_request}

framed :
    (req_id : ℕ) (payload : List ℕ)
    → length payload ≤ 252
    → parse_request (append_crc (req_id ∷ length payload ∷ payload))
      ≡ ok (record { req_id = req_id; payload = payload })
unfolding parse_request append_crc slice
framed req_id payload fits =
    let len = length payload in
    let front = req_id ∷ len ∷ payload in
    let crc = crc16 front in
    let word = hi crc ∷ lo crc ∷ [] in
    let buf = front ++ word in
    let n = length-append payload word in
    let whole : take (2 + len) buf ≡ front = take-append (2 + len) front word (omega arith) in
    let first : get_or buf (2 + len) 0 ≡ hi crc =
      get_or-append_right front word (2 + len) 0 0 (omega arith) in
    let second : get_or buf (2 + len + 1) 0 ≡ lo crc =
      get_or-append_right front word (2 + len + 1) 1 0 (omega arith) in
    let inner : take (2 + len - 2) (payload ++ word) ≡ payload =
      take-append (2 + len - 2) payload word (omega arith) in
    rw
      (
        le→ltb (length buf) 4 (omega (arith, n)),
        le→ltb 256 (length buf) (omega (arith, n)),
        eq→== (length buf) (1 + 1 + len + 2) (omega (arith, n)),
        whole,
        first,
        second,
        eq→== crc (be16 (hi crc) (lo crc)) (omega (arith, crc16-lt front)),
        inner,
      )
      refl

-- A request with at most 252 bytes of data is built, and what is built is parsed back.
pub parse_request-build_request :
    (req_id : ℕ) (payload : List ℕ)
    → length payload ≤ 252
    → (buf : List ℕ) × (build_request req_id payload ≡ some buf)
      × (parse_request buf ≡ ok (record { req_id = req_id; payload = payload }))
unfolding build_request
parse_request-build_request req_id payload fits =
    let size : length payload % 256 ≡ length payload = omega arith in
    (
      append_crc (req_id ∷ length payload ∷ payload),
      rw (le→leb (length payload) 252 fits, size) refl,
      framed req_id payload fits,
    )
