-- ===== src/Atecc/Frame/Packets.antt =====
-- Command packets as the host builds them, and the two directions of the codec.
use mathlib.Core.Path.{ap₂}
use simulators.Common.{
  ℕ, suc, ◌+◌, ◌-◌, ◌%◌, ◌≤◌, ◌≡◌, refl, sym, ap, ◌∙◌, List, [], ◌∷◌, ◌++◌, arith, ◌↔◌, drop,
  All-take, All-drop, length, get_or, take, length-append, length-take, take-append,
  get_or-append_right, All-get_or, last_two, subst, le→ltb, eq→==,
}
use simulators.Common.Bytes.{IsByte, IsBytes, IsU16, hi, lo, le16}
use simulators.Common.Results.{ok}
use simulators.Common.Slices.{slice, length-slice}
use simulators.Atecc.Crc.{crc16, crc16_le}
use simulators.Atecc.Crc.Bounds.{le16-crc16}
use simulators.Atecc.Frame.{Command, parse}

-- The packet without its CRC.
abbrev pub packet_body : Command → List ℕ
packet_body c = ((7 + length c.payload) % 256) ∷ c.opcode ∷ c.p1 ∷ (lo c.p2) ∷ (hi c.p2) ∷ c.payload

-- `make_cmd` of the source's tests.
unfoldable pub make_cmd : Command → List ℕ
make_cmd c = packet_body c ++ crc16_le (packet_body c)

-- What a packet must satisfy to be parsed, and the command read off it.
abbrev read_off : List ℕ → ℕ → Command
read_off packet n = record {
  opcode = get_or packet 1 0;
  p1 = get_or packet 2 0;
  p2 = le16 (get_or packet 3 0) (get_or packet 4 0);
  payload = slice 5 (n - 2) packet;
}

abbrev Accepted : List ℕ → ℕ → Type 0
Accepted packet n =
    (7 ≤ n)
    × (length packet ≡ n)
    × (get_or packet 0 0 ≡ n)
    × (crc16 (take (n - 2) packet) ≡ le16 (get_or packet (n - 2) 0) (get_or packet (n - 2 + 1) 0))

parse-Accepted :
    (packet : List ℕ) (n : ℕ) → Accepted packet n → parse packet ≡ ok (read_off packet n)
unfolding parse
parse-Accepted packet n (long, exact, counted, checked) = rw (
  counted,
  le→ltb (length packet) 7 (omega arith),
  exact,
  eq→== n n refl,
  le→ltb n 7 long,
  eq→== _ _ checked,
)

parse_inverted :
    (packet : List ℕ) (c : Command)
    → parse packet ≡ ok c
    → Accepted packet (length packet) × (c ≡ read_off packet (length packet))
unfolding parse
parse_inverted packet c e = ground arith

module _ (c : Command) (fits : length c.payload ≤ 248) (word : IsU16 c.p2) where
  body_length : length (packet_body c) ≡ 5 + length c.payload
  body_length = omega arith

  taken : take (7 + length c.payload - 2) (make_cmd c) ≡ packet_body c
  unfolding make_cmd
  taken =
      take-append (7 + length c.payload - 2) (packet_body c) (crc16_le (packet_body c))
        (omega arith)

  received :
      le16
        (get_or (make_cmd c) (7 + length c.payload - 2) 0)
        (get_or (make_cmd c) (7 + length c.payload - 2 + 1) 0)
      ≡ crc16 (packet_body c)
  unfolding make_cmd crc16_le
  received =
      let b = packet_body c in
      ap₂ le16 (get_or-append_right b (crc16_le b) (7 + length c.payload - 2) 0 0 (omega arith))
        (get_or-append_right b (crc16_le b) (7 + length c.payload - 2 + 1) 1 0 (omega arith))
      ∙ le16-crc16 b

  whole : length (make_cmd c) ≡ 7 + length c.payload
  unfolding make_cmd crc16_le
  whole = omega (arith, length-append (packet_body c) (crc16_le (packet_body c)))

  counted : get_or (make_cmd c) 0 0 ≡ 7 + length c.payload
  unfolding make_cmd
  counted = omega arith

  payload_back : slice 5 (7 + length c.payload - 2) (make_cmd c) ≡ c.payload
  unfolding make_cmd slice
  payload_back =
      take-append (7 + length c.payload - 2 - 5) c.payload (crc16_le (packet_body c)) (omega arith)

  back : read_off (make_cmd c) (7 + length c.payload) ≡ c
  unfolding make_cmd
  back = ground (arith, payload_back)

  pub parse-make_cmd : parse (make_cmd c) ≡ ok c
  parse-make_cmd =
      parse-Accepted (make_cmd c) (7 + length c.payload)
        (omega arith, whole, counted, ap crc16 taken ∙ sym received)
      ∙ ap ok back

le_pair : (w x y : ℕ) → IsByte x → IsByte y → w ≡ le16 x y → lo w ∷ hi w ∷ [] ≡ x ∷ y ∷ []
le_pair w x y hx hy e = ground arith

module _ (a b c d e : ℕ) (rest : List ℕ) (bytes : IsBytes (a ∷ b ∷ c ∷ d ∷ e ∷ rest)) (k : ℕ)
    (sized : length rest ≡ k + 2) (acc : Accepted (a ∷ b ∷ c ∷ d ∷ e ∷ rest) (7 + k))
    (small : 7 + k ≤ 255) where
  five : 7 + k - 2 ≡ suc (suc (suc (suc (suc k))))
  five = omega arith

  six : suc (suc (suc (suc (suc k)))) + 1 ≡ suc (suc (suc (suc (suc (k + 1)))))
  six = omega arith

  cut : List ℕ
  cut = a ∷ b ∷ c ∷ d ∷ e ∷ take k rest

  body_cut : packet_body (read_off (a ∷ b ∷ c ∷ d ∷ e ∷ rest) (7 + k)) ≡ cut
  unfolding cut slice
  body_cut =
      let e' : 7 + k - 2 - 5 ≡ k = omega arith in
      rw e' (ground (arith, length-take k rest (omega arith)))

  checked_cut : crc16 cut ≡ le16 (get_or rest k 0) (get_or rest (k + 1) 0)
  unfolding cut
  checked_cut = rw (five, six) at acc.3

  rebuilt_five : a ∷ b ∷ c ∷ d ∷ e ∷ rest ≡ make_cmd (read_off (a ∷ b ∷ c ∷ d ∷ e ∷ rest) (7 + k))
  unfolding make_cmd crc16_le cut
  rebuilt_five =
      let body = packet_body (read_off (a ∷ b ∷ c ∷ d ∷ e ∷ rest) (7 + k)) in
      let sent : crc16_le body ≡ get_or rest k 0 ∷ get_or rest (k + 1) 0 ∷ [] =
        le_pair (crc16 body) (get_or rest k 0) (get_or rest (k + 1) 0)
          (All-get_or IsByte rest k 0 (omega arith) bytes.1.1.1.1.1)
          (All-get_or IsByte rest (k + 1) 0 (omega arith) bytes.1.1.1.1.1)
          (ap crc16 body_cut ∙ checked_cut) in
      ap (λ t. a ∷ b ∷ c ∷ d ∷ e ∷ t) (last_two rest k 0 sized) ∙ ap₂ ◌++◌ (sym body_cut) (sym sent)

rebuilt :
    (packet : List ℕ) (n : ℕ)
    → IsBytes packet
    → Accepted packet n
    → n ≤ 255
    → packet ≡ make_cmd (read_off packet n)
rebuilt (a ∷ b ∷ c ∷ d ∷ e ∷ rest) n bytes acc small =
    let k = n - 7 in
    let n_eq : n ≡ 7 + k = omega (arith, acc.0) in
    subst (λ (m : ℕ). a ∷ b ∷ c ∷ d ∷ e ∷ rest ≡ make_cmd (read_off (a ∷ b ∷ c ∷ d ∷ e ∷ rest) m))
      (sym n_eq)
      (rebuilt_five a b c d e rest bytes k (omega (arith, acc)) (subst (Accepted _) n_eq acc)
        (omega arith))
rebuilt [] n bytes acc small = absurd (omega (arith, acc))
rebuilt (a ∷ []) n bytes acc small = absurd (omega (arith, acc))
rebuilt (a ∷ b ∷ []) n bytes acc small = absurd (omega (arith, acc))
rebuilt (a ∷ b ∷ c ∷ []) n bytes acc small = absurd (omega (arith, acc))
rebuilt (a ∷ b ∷ c ∷ d ∷ []) n bytes acc small = absurd (omega (arith, acc))

-- The fields fit their bytes on the wire.
abbrev pub IsCommand : Command → Type 0
IsCommand c = (length c.payload ≤ 248) × IsU16 c.p2

module _ (packet : List ℕ) (c : Command) (bytes : IsBytes packet) (e : parse packet ≡ ok c) where
  accepted : Accepted packet (length packet) × (c ≡ read_off packet (length packet))
  accepted = parse_inverted packet c e

  count-le : length packet ≤ 255
  count-le = omega (arith, accepted.0, All-get_or IsByte packet 0 0 (omega arith) bytes)

  pub parse-IsCommand : IsCommand c
  unfolding slice
  parse-IsCommand =
      let word : IsU16 (le16 (get_or packet 3 0) (get_or packet 4 0)) = omega (
        arith,
        All-get_or IsByte packet 3 0 (omega arith) bytes,
        All-get_or IsByte packet 4 0 (omega arith) bytes,
      ) in
      let sized : length (slice 5 (length packet - 2) packet) ≤ 248 = omega (
        arith,
        accepted.0,
        count-le,
        length-slice 5 (length packet - 2) packet (omega (arith, accepted.0)) (omega arith),
      ) in
      subst IsCommand (sym accepted.1) (sized, word)

  pub make_cmd-parse : packet ≡ make_cmd c
  make_cmd-parse =
      rebuilt packet (length packet) bytes accepted.0 count-le ∙ ap make_cmd (sym accepted.1)

-- On a packet of bytes, `parse` gives a command exactly when the command's fields fit the wire and
-- the packet is what `make_cmd` builds from it.
pub parse_iff :
    (packet : List ℕ) (c : Command)
    → IsBytes packet
    → (parse packet ≡ ok c) ↔ (IsCommand c × (packet ≡ make_cmd c))
parse_iff packet c bytes = (
  λ e. (parse-IsCommand packet c bytes e, make_cmd-parse packet c bytes e),
  λ h. ap parse h.1 ∙ parse-make_cmd c h.0.0 h.0.1,
)

pub payload-IsBytes :
    (packet : List ℕ) (c : Command) → IsBytes packet → parse packet ≡ ok c → IsBytes c.payload
unfolding slice
payload-IsBytes packet c bytes e =
    let n = length packet in
    subst (λ (k : Command). IsBytes k.payload) (sym (parse_inverted packet c e).1)
      (All-take IsByte (n - 2 - 5) (drop 5 packet) (All-drop IsByte 5 packet bytes))
