-- ===== src/Atecc/Frame/Responses.antt =====
-- What makes a response packet well formed, and the responses that are built.
use simulators.Common.{
  ℕ, ◌+◌, ◌-◌, ◌%◌, ◌≤◌, ◌≡◌, ap, ◌∙◌, sym, subst, Option, none, some, List, [], ◌∷◌, ◌++◌, arith,
  length, get_or, take, drop, length-append, take-append, drop-append, leb, if_intro,
}
use simulators.Atecc.Crc.{crc16_le}
use simulators.Atecc.Frame.{build_response, status_response, reply}

-- A count byte that is the length, and the CRC of all before it at the end. No command answers
-- with more than 64 bytes.
pub record IsResponse (r : List ℕ) : Type 0 where
  pub bounds : (4 ≤ length r) × (length r ≤ 67)
  pub counted : get_or r 0 0 ≡ length r
  pub checked : drop (length r - 2) r ≡ crc16_le (take (length r - 2) r)

abbrev pub Answers : Option (List ℕ) → Type 0
Answers none = ⊥
Answers (some r) = IsResponse r

-- An answer, and a state that satisfies `P`.
abbrev pub Leaves {ℓ} : {S : Type ℓ} → (S → Type 0) → Option (S × List ℕ) → Type 0
Leaves P none = ⊥
Leaves P (some (s, r)) = P s × IsResponse r

pub reply-Leaves {ℓ} :
    {S : Type ℓ} (P : S → Type 0) {s : S} (o : Option (List ℕ))
    → P s
    → Answers o
    → Leaves P (reply s o)
reply-Leaves P none h a = a
reply-Leaves P (some r) h a = (h, a)

module _ (body : List ℕ) (some_byte : 1 ≤ length body) (fits : length body ≤ 64) where
  whole : List ℕ
  whole = (3 + length body) ∷ body ++ crc16_le ((3 + length body) ∷ body)

  whole-length : length whole ≡ 3 + length body
  unfolding whole crc16_le
  whole-length = omega (arith, length-append body (crc16_le ((3 + length body) ∷ body)))

  whole-IsResponse : IsResponse whole
  unfolding whole
  whole-IsResponse =
      let front = (3 + length body) ∷ body in
      let n : length whole - 2 ≡ length front = omega (arith, whole-length) in
      record {
        bounds = omega (arith, whole-length);
        counted = sym whole-length;
        checked =
            drop-append (length whole - 2) front (crc16_le front) n
            ∙ ap crc16_le (sym (take-append (length whole - 2) front (crc16_le front) n));
      }

  -- A body of 1 to 64 bytes passes the assertion, and its packet is well formed.
  pub build_response-Answers : Answers (build_response body)
  unfolding build_response whole
  build_response-Answers =
      let count : (1 + length body + 2) % 256 ≡ 3 + length body = omega arith in
      if_intro Answers (leb (1 + length body + 2) 0xFF)
        (λ _.
          subst (λ (k : ℕ). IsResponse (k ∷ body ++ crc16_le (k ∷ body))) (sym count)
            whole-IsResponse)
        (λ e. ground arith)

pub status_response-Answers : (status : ℕ) → Answers (status_response status)
unfolding status_response build_response
status_response-Answers status = build_response-Answers (status ∷ []) (omega arith) (omega arith)
