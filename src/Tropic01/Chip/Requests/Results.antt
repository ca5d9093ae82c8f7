-- ===== src/Tropic01/Chip/Requests/Results.antt =====
-- TROPIC01Sim/tropic01-sim/src/chip.rs: the chunks of a long result, and the host that joins them.
use simulators.Common.{
  ℕ, zero, suc, ◌+◌, ◌-◌, ◌%◌, ◌≤◌, ◌<◌, ◌≡◌, refl, ap, arith, true, false, Option, none, some,
  List, [], ◌∷◌, ◌++◌, length, get_or, take, drop, leb, ◌==◌, if◌then◌else◌, inl, inr, Bool-cases,
  le→leb, ne→==, take-append, take-append-drop, length-take, length-drop,
}
use simulators.Common.Bytes.{hi, lo}
use simulators.Common.Results.{◌>>=◌}
use simulators.Common.Slices.{slice}
use simulators.Tropic01.Crc.{crc16, append_crc}
use simulators.Tropic01.Frame.{build_response, max_l2_data_size}
use simulators.Tropic01.Frame.Status
use simulators.Tropic01.Chip.Requests.Encrypted.{result_frames}

-- The data of a response frame.
unfoldable pub frame_payload : List ℕ → List ℕ
unfolding slice
frame_payload f = slice 2 (2 + get_or f 1 0) f

-- The host joins the data of frames with RESULT_CONT up to one with RESULT_OK.
unfoldable pub join_results : List (List ℕ) → Option (List ℕ)
unfolding frame_payload
join_results [] = none
join_results (f ∷ fs) =
    let rest = join_results fs in
    if get_or f 0 0 == Status.result_ok
    then some (frame_payload f)
    else (if get_or f 0 0 == Status.result_cont
        then (rest >>= λ r. some (frame_payload f ++ r))
        else none)

build_response_lem :
    (status : ℕ) (body : List ℕ)
    → length body ≤ 252
    → (f : List ℕ) × (build_response status body ≡ some f)
      × (get_or f 0 0 ≡ status)
      × (frame_payload f ≡ body)
unfolding build_response append_crc frame_payload slice
build_response_lem status body h =
    let n : length body % 256 ≡ length body = omega arith in
    let crc = crc16 (status ∷ (length body % 256) ∷ body) in
    let tail = hi crc ∷ lo crc ∷ [] in
    let e : 2 + length body % 256 - 2 ≡ length body = omega arith in
    (
      append_crc (status ∷ (length body % 256) ∷ body),
      rw (build_response, le→leb (length body) 252 h) refl,
      refl,
      take-append (2 + length body % 256 - 2) body tail e,
    )

leb→le : (a b : ℕ) → leb a b ≡ true → a ≤ b
leb→le a b h = ground arith

not_leb : (a b : ℕ) → leb a b ≡ false → b < a
not_leb a b h = ground arith

-- A result of any length but 0 is sent: the frames are built, none with more data than a frame
-- holds, and the host that joins the data of the RESULT_CONT frames and of the RESULT_OK frame that
-- ends them has the bytes that were sent. As many rounds as the result has bytes are enough.
pub join_results-result_frames :
    (fuel : ℕ) (wire : List ℕ)
    → 1 ≤ length wire
    → length wire ≤ fuel
    → (fs : List (List ℕ)) × (result_frames fuel wire ≡ some fs) × (join_results fs ≡ some wire)
unfolding result_frames join_results
join_results-result_frames zero wire h l = absurd (omega arith)
join_results-result_frames (suc fuel) wire h l =
    let z = ne→== (length wire) 0 (λ e. absurd (omega arith)) in
    elim (Bool-cases (leb (length wire) max_l2_data_size)) [
      | inl s ↦
          let (f, b, st, p) =
            build_response_lem Status.result_ok wire (leb→le (length wire) max_l2_data_size s) in
          (f ∷ [], rw (result_frames, z, s, b) refl, rw (join_results, st, p) refl)
      | inr s ↦
          let long = not_leb (length wire) max_l2_data_size s in
          let front = take max_l2_data_size wire in
          let back = drop max_l2_data_size wire in
          let n = length-take max_l2_data_size wire (omega arith) in
          let m = length-drop max_l2_data_size wire in
          let (f, b, st, p) = build_response_lem Status.result_cont front (omega arith) in
          let (fs, r, j) = join_results-result_frames fuel back (omega arith) (omega arith) in
          (
            f ∷ fs,
            rw (result_frames, z, s, b, r) refl,
            rw (join_results, st, p, j) (ap some (take-append-drop max_l2_data_size wire)),
          )
    ]
