-- ===== src/Tropic01/Toy.antt =====
-- What the tests of TROPIC01Sim/tropic01-sim/src run on: a toy cryptography that keeps its laws, and a
-- device of the engineering sample with a paired host.
use simulators.Common.{
  ℕ, ◌+◌, ◌-◌, ◌*◌, ◌≤◌, ◌≡◌, inl, inr, refl, ap, subst, arith, true, Option, some, List, [], ◌∷◌,
  ◌++◌, length, take, replicate, take-append, length-append, length-replicate, Bool-cases, ==→eq,
  ◌==◌,
}
use simulators.Common.Maps.{lookup, Entries}
use simulators.Tropic01.L3.{Crates, Ctx, OsRng}
use simulators.Tropic01.L3.Step.Bounds.{WellFormed, KeySizes, Keyed}
use simulators.Tropic01.Personality.{es012}
use simulators.Tropic01.Session.{Crypto, Documented}
use simulators.Tropic01.Store.{Device, PairingSlot, PairingState}
use simulators.Tropic01.Chip.{Platform}
use simulators.Tropic01.Chip.Requests.Sound.{Sized}

abbrev pub tag : List ℕ
tag = replicate 16 0

abbrev pub key : List ℕ
key = replicate 32 7

-- A ciphertext is the plaintext with a tag of zeros.
abbrev pub open_toy : List ℕ → Option (List ℕ)
open_toy c = some (take (length c - 16) c)

abbrev pub toy : Crypto
toy = record {
  sha256 = λ m. replicate 32 1;
  hmac = λ k m. replicate 32 2;
  x25519_public = λ a. key;
  diffie_hellman = λ a b. key;
  encrypt = λ k n a m. m ++ tag;
  decrypt = λ k n a c. open_toy c;
}

open_toy-append : (m : List ℕ) → open_toy (m ++ tag) ≡ some m
open_toy-append m =
    let n : length (m ++ tag) ≡ length m + 16 = length-append m tag in
    ap some (take-append (length (m ++ tag) - 16) m tag (omega arith))

pub toy-Documented : Documented toy
toy-Documented = record {
  agreement = λ a b. refl;
  opens = λ k n a m. open_toy-append m;
  tag_length = λ k n a m. length-append m tag;
  key_length = λ a. refl;
}

abbrev pub toy_crates : Crates
toy_crates = record {
  p256_random = λ rng. rng 32;
  p256_accepts = λ k. true;
  p256_public = λ k. replicate 65 4;
  p256_sign = λ rng k m. some (replicate 64 5);
  ed25519_public = λ k. key;
  sha512 = λ m. replicate 64 6;
  from_bytes_mod_order = λ b. 1;
  from_hash = λ b. 2;
  scalar_add = λ a b. a + b;
  scalar_mul = λ a b. a * b;
  scalar_bytes = λ s. replicate 32 s;
  mul_base = λ s. replicate 32 s;
  kmac = λ k custom m. take 32 m;
}

abbrev pub platform : Platform
platform = record { crypto = toy; crates = toy_crates }

abbrev pub zeros : OsRng
zeros n = replicate n 0

toy-KeySizes : KeySizes toy_crates zeros
toy-KeySizes = record { p256_size = refl; random_size = λ n. length-replicate n 0 }

pub platform-Sized : Sized platform zeros
platform-Sized = record { keys = toy-KeySizes; session = toy-Documented; digest = λ m. refl }

abbrev pub paired : PairingSlot
paired = record { public_key = key; state = PairingState.written }

-- A device with a paired host, a counter of 2 and nothing else.
abbrev pub device : Device
device = record {
  personality = es012;
  chip_id = replicate 128 0;
  st_priv = [];
  st_pub = key;
  cert_store = [];
  pairing_slots = (0, paired) ∷ [];
  r_config = replicate 128 0xffff_ffff;
  i_config = replicate 128 0xffff_ffff;
  ecc_slots = [];
  r_mem_slots = [];
  mcounters = (4, 2) ∷ [];
  macandd_slots = [];
  macandd_keys = (key, key);
}

entries_none : {A : Type 0} (P : ℕ → A → Type 0) → Entries P []
unfolding lookup
entries_none P j v e = absurd cc

entries_one : {A : Type 0} (P : ℕ → A → Type 0) (k : ℕ) (a : A) → P k a → Entries P ((k, a) ∷ [])
unfolding lookup
entries_one P k a p j v e = elim (Bool-cases (k == j)) [
  | inr f ↦ absurd (let h = rw f at e in cc)
  | inl t ↦
      let h = rw t at e in
      let q : k ≡ j = ==→eq k j t in
      let r : a ≡ v = cc in subst (λ (i : ℕ). P i v) q (subst (P k) r p)
]

pub device-WellFormed : WellFormed es012 device
device-WellFormed = record {
  chip_id = omega arith;
  registers = refl;
  immutable_registers = refl;
  pairing = entries_one (λ (k : ℕ) (s : PairingSlot). k ≤ 3) 0 paired (omega arith);
  keys = entries_none Keyed;
  memory = entries_none (λ (k : ℕ) (s : List ℕ). (k ≤ 511) × ((1 ≤ length s) × (length s ≤ 444)));
  counters = entries_one (λ (k v : ℕ). (k ≤ 15) × (v ≤ 0xffff_fffe)) 4 2 (omega arith, omega arith);
  macandd = entries_none (λ (k : ℕ) (s : List ℕ). k ≤ 127);
}

-- The pairing key 0 with every privilege, and with none.
abbrev pub context : Ctx
context = record { dev = device; cfg = replicate 128 0xffff_ffff; p = es012; pkey = 0 }

abbrev pub unprivileged : Ctx
unprivileged = record { dev = device; cfg = []; p = es012; pkey = 0 }
