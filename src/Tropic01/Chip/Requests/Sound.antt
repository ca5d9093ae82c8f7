-- ===== src/Tropic01/Chip/Requests/Sound.antt =====
-- TROPIC01Sim/tropic01-sim/src/chip.rs: frames, results and Encrypted_Cmd_Req: their panics, and the
-- bounds of the store.
use simulators.Common.{
  ℕ, zero, suc, ◌%◌, ◌≤◌, ◌≡◌, ◌≢◌, refl, sym, subst, arith, true, not, Option, some, List, [], ◌∷◌,
  ◌++◌, ◌⊎◌, length, take, drop, ltb, leb, ◌==◌, inl, inr, ap, ◌∙◌, Option-cases, if_intro,
  Bool-cases, le→leb,
}
use simulators.Common.Results.{Result-cases}
use simulators.Tropic01.Frame.{build_response, max_l2_data_size}
use simulators.Tropic01.Crc.{append_crc}
use simulators.Tropic01.Frame.Status
use simulators.Tropic01.L3.{OsRng, Ctx}
use simulators.Tropic01.L3.Dispatch.{L3Outcome, answered, rejected, panicked, dispatch}
use simulators.Tropic01.L3.Step.Bounds.{WellFormed, KeySizes, dispatch-WellFormed}
use simulators.Tropic01.L3.Total.Dispatch.{dispatch-Ends}
use simulators.Tropic01.Personality.{Personality}
use simulators.Tropic01.Session.{Documented, unwrap_l3_request, wrap_l3_response, is_open}
use simulators.Tropic01.Store.{Device, and_registers, effective_config}
use simulators.Tropic01.Chip.{Platform, Chip, drop_session, load_config, config_in_force}
use simulators.Tropic01.Chip.Requests.Encrypted.{
  result_frames, send_result, run_plaintext, run_packet, add_chunk, encrypted_cmd, session_pkey,
}
use simulators.Tropic01.Chip.Requests.Replies.{Reply, one_frame, acked}

-- What the crates document, as far as the lengths of the frames and of new keys depend on it.
pub record Sized (w : Platform) (rng : OsRng) : Type 0 where
  pub keys : KeySizes w.crates rng
  pub session : Documented w.crypto
  pub digest : (m : List ℕ) → length (w.crypto.sha256 m) ≡ 32

-- The chip has the personality, and the configuration in force, once it is read, has 128 registers.
abbrev pub Good : Personality → Chip → Type 0
Good p chip =
    (chip.personality ≡ p) × ((cfg : List ℕ) → chip.active_config ≡ some cfg → length cfg ≡ 128)

-- The request was answered, and the device is within its bounds.
abbrev pub Sound : Personality → Option Reply → Type 0
Sound p o = (r : Reply) × (o ≡ some r) × (WellFormed p r.device) × Good p r.chip

pub build_response-total :
    (status : ℕ) (body : List ℕ)
    → length body ≤ 252
    → (f : List ℕ) × (build_response status body ≡ some f)
unfolding build_response
build_response-total status body h =
    (append_crc (status ∷ (length body % 256) ∷ body), rw (le→leb (length body) 252 h) refl)

pub one_frame-Sound :
    (p : Personality) (status : ℕ) (body : List ℕ) (chip : Chip) (dev : Device)
    → length body ≤ 252
    → WellFormed p dev
    → Good p chip
    → Sound p (one_frame status body chip dev)
unfolding one_frame
one_frame-Sound p status body chip dev h wf e =
    let (f, b) = build_response-total status body h in
    (record { frames = f ∷ []; chip = chip; device = dev }, rw (one_frame, b) refl, wf, e)

pub acked-Sound :
    (p : Personality) (status : ℕ) (chip : Chip) (dev : Device)
    → WellFormed p dev
    → Good p chip
    → Sound p (acked status chip dev)
unfolding acked
acked-Sound p status chip dev wf e =
    let (f, b) = build_response-total status [] (omega arith) in
    let (ack, a) = build_response-total Status.request_ok [] (omega arith) in
    (record { frames = ack ∷ f ∷ []; chip = chip; device = dev }, rw (acked, a, b) refl, wf, e)

pub leb→le : (a b : ℕ) → leb a b ≡ true → a ≤ b
leb→le a b h = ground arith

pub length-take_le : (n : ℕ) (xs : List ℕ) → length (take n xs) ≤ n
length-take_le zero xs = omega arith
length-take_le (suc n) [] = omega arith
length-take_le (suc n) (x ∷ xs) = omega (arith, length-take_le n xs)

result_frames-total :
    (fuel : ℕ) (wire : List ℕ) → (fs : List (List ℕ)) × (result_frames fuel wire ≡ some fs)
unfolding result_frames
result_frames-total zero wire = ([], refl)
result_frames-total (suc fuel) wire =
    let (fs, e) = result_frames-total fuel (drop max_l2_data_size wire) in
    elim (Bool-cases (length wire == 0)) [
      | inl z ↦ ([], rw z refl)
      | inr z ↦ elim (Bool-cases (leb (length wire) max_l2_data_size)) [
        | inl s ↦
            let (f, b) =
              build_response-total Status.result_ok wire
                (leb→le (length wire) max_l2_data_size s) in
            (f ∷ [], rw (z, s, b) refl)
        | inr s ↦
            let (f, b) =
              build_response-total Status.result_cont (take max_l2_data_size wire)
                (length-take_le 252 wire) in
            (f ∷ fs, rw (z, s, b, e) refl)
      ]
    ]

send_result-Sound :
    (w : Platform) (p : Personality) (chip : Chip) (dev : Device) (result : List ℕ)
    → WellFormed p dev
    → Good p chip
    → Sound p (send_result w chip dev result)
unfolding send_result
send_result-Sound w p chip dev result wf e =
    let r = wrap_l3_response w.crypto chip.session result in
    elim (Result-cases r.0) [
      | inr (f, q) ↦
          rw (send_result, q)
            (acked-Sound p Status.gen_err (drop_session (record chip { session = r.1 })) dev wf e)
      | inl (wire, q) ↦
          let (ack, a) = build_response-total Status.request_ok [] (omega arith) in
          let (fs, b) = result_frames-total (length wire) wire in
          (
            record { frames = ack ∷ fs; chip = record chip { session = r.1 }; device = dev },
            rw (send_result, q, a, b) refl,
            wf,
            e,
          )
    ]

Outcome-cases : (o : L3Outcome) → o ≢ panicked → (o ≡ rejected) ⊎ ((r : List ℕ) × (o ≡ answered r))
Outcome-cases rejected h = inl refl
Outcome-cases (answered r) h = inr (r, refl)
Outcome-cases panicked h = absurd (h refl)

length-and_registers :
    (rs is : List ℕ) → length rs ≡ length is → length (and_registers rs is) ≡ length rs
unfolding and_registers
length-and_registers [] is h = refl
length-and_registers (r ∷ rs) [] h = absurd (omega arith)
length-and_registers (r ∷ rs) (i ∷ is) h = ap suc (length-and_registers rs is (omega arith))

pub length-config_in_force :
    (p : Personality) (chip : Chip) (dev : Device)
    → WellFormed p dev
    → Good p chip
    → length (config_in_force chip dev) ≡ 128
unfolding config_in_force effective_config
length-config_in_force p chip dev wf e = elim (Option-cases chip.active_config) [
  | inr (cfg, q) ↦ rw (config_in_force, q) (e.1 cfg q)
  | inl q ↦
      rw (config_in_force, q)
        (length-and_registers dev.r_config dev.i_config (wf.registers ∙ sym wf.immutable_registers)
          ∙ wf.registers)
]

pub load_config-Good :
    (p : Personality) (chip : Chip) (dev : Device)
    → WellFormed p dev
    → Good p chip
    → Good p (load_config chip dev)
unfolding load_config
load_config-Good p chip dev wf e =
    let n = length-config_in_force p chip dev wf e in
    (
      e.0,
      λ cfg h.
          let q : config_in_force chip dev ≡ cfg = cc in subst (λ (l : List ℕ). length l ≡ 128) q n,
    )

run_plaintext-Sound :
    (w : Platform) (rng : OsRng) (p : Personality) (chip : Chip) (dev : Device) (plaintext : List ℕ)
    → Sized w rng
    → WellFormed p dev
    → Good p chip
    → Sound p (run_plaintext w rng chip dev plaintext)
unfolding run_plaintext drop_session load_config
run_plaintext-Sound w rng p chip dev plaintext laws wf e =
    let x : Ctx = record {
      dev = dev;
      cfg = config_in_force chip dev;
      p = chip.personality;
      pkey = session_pkey chip.session.keys;
    } in
    let r = dispatch w.crates rng x chip.l3_state plaintext in
    let within : WellFormed x.p dev = subst (λ (q : Personality). WellFormed q dev) (sym e.0) wf in
    let kept : WellFormed p r.device =
      subst (λ (q : Personality). WellFormed q r.device) e.0
        (dispatch-WellFormed w.crates rng x chip.l3_state plaintext laws.keys within) in
    let good : Good p (load_config chip dev) = load_config-Good p chip dev wf e in
    let ends = dispatch-Ends w.crates rng x chip.l3_state plaintext within in
    elim (Outcome-cases r.outcome ends) [
      | inl o ↦ rw (run_plaintext, o) (acked-Sound p Status.gen_err _ r.device kept good)
      | inr (result, o) ↦ rw (run_plaintext, o) (send_result-Sound w p _ r.device result kept good)
    ]

run_packet-Sound :
    (w : Platform) (rng : OsRng) (p : Personality) (chip : Chip) (dev : Device) (expected : ℕ)
    (packet : List ℕ)
    → Sized w rng
    → WellFormed p dev
    → Good p chip
    → Sound p (run_packet w rng chip dev expected packet)
unfolding run_packet drop_session
run_packet-Sound w rng p chip dev expected packet laws wf e =
    let r = unwrap_l3_request w.crypto chip.session packet in
    if_intro (Sound p) (not (length packet == expected))
      (λ _. acked-Sound p Status.gen_err _ dev wf e)
      (λ _. elim (Result-cases r.0) [
        | inr (f, q) ↦ rw q (acked-Sound p Status.tag_err _ dev wf e)
        | inl (plaintext, q) ↦ rw q (run_plaintext-Sound w rng p _ dev plaintext laws wf e)
      ])

add_chunk-Sound :
    (w : Platform) (rng : OsRng) (p : Personality) (chip : Chip) (dev : Device) (expected : ℕ)
    (chunk : List ℕ)
    → Sized w rng
    → WellFormed p dev
    → Good p chip
    → Sound p (add_chunk w rng chip dev expected chunk)
unfolding add_chunk
add_chunk-Sound w rng p chip dev expected chunk laws wf e =
    if_intro (Sound p) (ltb (length (chip.l3_packet ++ chunk)) expected)
      (λ _. one_frame-Sound p Status.request_cont [] _ dev (omega arith) wf e)
      (λ _. run_packet-Sound w rng p _ dev expected (chip.l3_packet ++ chunk) laws wf e)

pub encrypted_cmd-Sound :
    (w : Platform) (rng : OsRng) (p : Personality) (chip : Chip) (dev : Device) (chunk : List ℕ)
    → Sized w rng
    → WellFormed p dev
    → Good p chip
    → Sound p (encrypted_cmd w rng chip dev chunk)
unfolding encrypted_cmd
encrypted_cmd-Sound w rng p chip dev chunk laws wf e =
    if_intro (Sound p) (not (is_open chip.session))
      (λ _. one_frame-Sound p Status.no_session [] _ dev (omega arith) wf e)
      (λ _.
        if_intro (Sound p) (length chip.l3_packet == 0)
          (λ _.
            if_intro (Sound p) (ltb (length chunk) 2)
              (λ _. one_frame-Sound p Status.gen_err [] chip dev (omega arith) wf e)
              (λ _. add_chunk-Sound w rng p chip dev _ chunk laws wf e))
          (λ _. add_chunk-Sound w rng p chip dev chip.l3_expected chunk laws wf e))
