-- ===== src/Tropic01/Session/Tunnel.antt =====
-- TROPIC01Sim/tropic01-sim/src/session.rs: the tunnel, with the host that seals the commands.
use simulators.Common.{
  ℕ, ◌+◌, ◌%◌, ◌≤◌, ◌<◌, ◌≡◌, refl, sym, ap, ◌∙◌, arith, Option, some, List, [], ◌∷◌, All, length,
  get_or, drop, eq→==, le→ltb,
}
use simulators.Common.Bytes.{hi, lo, le16}
use simulators.Common.Results.{Result, ok, err}
use simulators.Tropic01.Session.{
  Crypto, Documented, SessionKeys, Session, unwrap_l3_request, unwrap_with, wrap_l3_response,
  wrap_with, step_nonce, L3WrapError, nonce_overflow, u32_max,
}
use simulators.Tropic01.Session.Nonce.{nonce_at, step_nonce-nonce_at, step_nonce-last}

-- A packet that the host seals under a nonce.
unfoldable pub packet : Crypto → (key nonce msg : List ℕ) → List ℕ
packet c key nonce msg = lo (length msg) ∷ hi (length msg) ∷ c.encrypt key nonce [] msg

packet_size :
    (c : Crypto) (key nonce msg : List ℕ)
    → Documented c
    → length (packet c key nonce msg) ≡ 2 + length msg + 16
unfolding packet
packet_size c key nonce msg laws = omega (arith, laws.tag_length key nonce [] msg)

packet_header :
    (c : Crypto) (key nonce msg : List ℕ)
    → length msg < 65536
    → le16 (get_or (packet c key nonce msg) 0 0) (get_or (packet c key nonce msg) 1 0) ≡ length msg
unfolding packet
packet_header c key nonce msg h = omega arith

-- What the chip makes of a packet that the host sealed under the chip's own nonce, before the nonce
-- goes on.
pub unwrap_with-packet :
    (c : Crypto) (keys : SessionKeys) (msg : List ℕ)
    → Documented c
    → length msg < 65536
    → unwrap_with c keys (packet c keys.k_cmd keys.nonce_cmd msg)
      ≡ elim (step_nonce keys.nonce_cmd) [
        | err e ↦ (err e, record { keys = some keys })
        | ok nonce ↦ (ok msg, record { keys = some (record keys { nonce_cmd = nonce }) })
      ]
unfolding unwrap_with packet
unwrap_with-packet c keys msg laws h =
    let n = packet_size c keys.k_cmd keys.nonce_cmd msg laws in
    rw
      (
        n,
        packet_header c keys.k_cmd keys.nonce_cmd msg h,
        le→ltb (2 + length msg + 16) 18 (omega arith),
        eq→== (2 + length msg + 16) (2 + length msg + 16) refl,
        packet,
        laws.opens keys.k_cmd keys.nonce_cmd [] msg,
      )
      refl

-- The session whose next command has the number `n`.
abbrev pub at_command : SessionKeys → ℕ → Session
at_command keys n = record { keys = some (record keys { nonce_cmd = nonce_at n }) }

unwrap-packet :
    (c : Crypto) (keys : SessionKeys) (n : ℕ) (msg : List ℕ)
    → Documented c
    → length msg < 65536
    → n < u32_max
    → unwrap_l3_request c (at_command keys n) (packet c keys.k_cmd (nonce_at n) msg)
      ≡ (ok msg, at_command keys (n + 1))
unfolding unwrap_l3_request
unwrap-packet c keys n msg laws h l =
    unwrap_with-packet c (record keys { nonce_cmd = nonce_at n }) msg laws h
    ∙ rw (step_nonce-nonce_at n l) refl

-- The packets that the host seals for a list of commands, the first with the number `n`.
unfoldable pub seal_all : Crypto → List ℕ → ℕ → List (List ℕ) → List (List ℕ)
seal_all c key n [] = []
seal_all c key n (m ∷ ms) = packet c key (nonce_at n) m ∷ seal_all c key (n + 1) ms

-- What the chip unwraps, one packet after the other.
unfoldable pub unwrap_all :
    Crypto → Session → List (List ℕ) → List (Result (List ℕ) L3WrapError) × Session
unwrap_all c s [] = ([], s)
unwrap_all c s (w ∷ ws) =
    let r = unwrap_l3_request c s w in let rest = unwrap_all c r.1 ws in (r.0 ∷ rest.0, rest.1)

abbrev pub oks : List (List ℕ) → List (Result (List ℕ) L3WrapError)
oks [] = []
oks (m ∷ ms) = ok m ∷ oks ms

-- For cryptography as documented: commands that the host seals in sequence, each of at most 65535
-- bytes and together not past the last nonce, are unwrapped one by one into exactly the commands
-- that were sealed, in order; the nonce of the chip ends where that of the host does.
pub unwrap_all-seal_all :
    (c : Crypto) (keys : SessionKeys) (ms : List (List ℕ)) (n : ℕ)
    → Documented c
    → All (λ (m : List ℕ). length m < 65536) ms
    → n + length ms ≤ u32_max
    → unwrap_all c (at_command keys n) (seal_all c keys.k_cmd n ms)
      ≡ (oks ms, at_command keys (n + length ms))
unfolding unwrap_all seal_all
unwrap_all-seal_all c keys [] n laws h l =
    let e : n ≡ n + 0 = omega arith in ap (λ (t : ℕ). ([], at_command keys t)) e
unwrap_all-seal_all c keys (m ∷ ms) n laws h l =
    let first = unwrap-packet c keys n m laws h.0 (omega arith) in
    let rest = unwrap_all-seal_all c keys ms (n + 1) laws h.1 (omega arith) in
    let e : n + 1 + length ms ≡ n + length (m ∷ ms) = omega arith in
    rw (first, rest) (ap (λ (t : ℕ). (oks (m ∷ ms), at_command keys t)) e)

-- For cryptography as documented: a session whose two nonces are the last ones goes no further. A
-- command of at most 65535 bytes that is sealed under the last nonce, however well, is refused with
-- NonceOverflow, and so is an answer to be sealed under it; the session stays as it is.
pub last_nonce :
    (c : Crypto) (keys : SessionKeys) (msg : List ℕ)
    → Documented c
    → length msg < 65536
    → keys.nonce_cmd ≡ nonce_at u32_max
    → keys.nonce_res ≡ nonce_at u32_max
    → (unwrap_l3_request c (record { keys = some keys }) (packet c keys.k_cmd keys.nonce_cmd msg)
        ≡ (err nonce_overflow, record { keys = some keys }))
      × (wrap_l3_response c (record { keys = some keys }) msg
          ≡ (err nonce_overflow, record { keys = some keys }))
unfolding unwrap_l3_request wrap_l3_response wrap_with
last_nonce c keys msg laws h e f = (
  unwrap_with-packet c keys msg laws h ∙ rw (ap step_nonce e ∙ step_nonce-last) refl,
  rw (wrap_l3_response, wrap_with, ap step_nonce f ∙ step_nonce-last) refl,
)

-- What the host makes of an answer: the body without its size, opened under its own nonce.
unfoldable pub host_open : Crypto → (key nonce wire : List ℕ) → Option (List ℕ)
host_open c key nonce wire = c.decrypt key nonce [] (drop 2 wire)

-- An answer that the chip wraps with the number `n` is opened by the host under the nonce n and gives
-- the plaintext back, and the chip's next answer has the number n + 1.
pub host_open-wrap_l3_response :
    (c : Crypto) (keys : SessionKeys) (n : ℕ) (msg : List ℕ)
    → Documented c
    → keys.nonce_res ≡ nonce_at n
    → n < u32_max
    → (wire : List ℕ) × (wrap_l3_response c (record { keys = some keys }) msg
        ≡ (ok wire, record { keys = some (record keys { nonce_res = nonce_at (n + 1) }) }))
      × (host_open c keys.k_res (nonce_at n) wire ≡ some msg)
unfolding wrap_l3_response wrap_with host_open
host_open-wrap_l3_response c keys n msg laws e l =
    let size = length msg % 65536 in
    (
      lo size ∷ hi size ∷ c.encrypt keys.k_res keys.nonce_res [] msg,
      rw (wrap_l3_response, wrap_with, ap step_nonce e ∙ step_nonce-nonce_at n l) refl,
      rw (sym e) (laws.opens keys.k_res keys.nonce_res [] msg),
    )
