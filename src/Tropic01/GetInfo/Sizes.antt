-- ===== src/Tropic01/GetInfo/Sizes.antt =====
-- TROPIC01Sim/tropic01-sim/src/handlers/get_info.rs: the sizes of the objects.
use simulators.Common.{
  ℕ, zero, suc, ◌+◌, ◌-◌, ◌*◌, ◌%◌, ◌≤◌, ◌≡◌, refl, arith, Bool, not, ◌&&◌, ◌||◌, some, List, [],
  ◌∷◌, ◌++◌, length, take, drop, min, replicate, ltb, leb, ◌==◌, if_intro, le→leb, length-append,
  length-replicate,
}
use simulators.Common.Slices.{slice, splice, length-splice}
use simulators.Tropic01.Crc.{append_crc}
use simulators.Tropic01.Frame.{build_response}
use simulators.Tropic01.L3.{le32_bytes}
use simulators.Tropic01.Personality.{
  Personality, es012, es220, fw220, riscv_fw_version, spect_fw_version, bootloader_version,
  fw_image_sizes, fw_bank2_written, fw_bank_header_len,
}
use simulators.Tropic01.Store.{Device}
use simulators.Tropic01.GetInfo.{
  get_info, object_bytes, certificate_block, cert_store_blocks, cert_store_block_size, bank_object,
  bank_header, bank_fw1, bank_fw2, bank_spect1, bank_spect2, object_x509_certificate,
  object_chip_id, object_riscv_fw_version, object_spect_fw_version, object_fw_bank,
}

length-take_le : (n : ℕ) (xs : List ℕ) → length (take n xs) ≤ n
length-take_le zero xs = omega arith
length-take_le (suc n) [] = omega arith
length-take_le (suc n) (x ∷ xs) = omega (arith, length-take_le n xs)

abbrev Fits : ℕ → List ℕ → Type 0
Fits n xs = length xs ≤ n

bank_header-Fits :
    (sha256 : List ℕ → List ℕ) (device : Device) (fw_type size : ℕ) (version : List ℕ)
    → ((m : List ℕ) → length (sha256 m) ≡ 32)
    → length version ≡ 4
    → Fits 252 (bank_header sha256 device fw_type version size)
unfolding bank_header
bank_header-Fits sha256 device fw_type size version laws v =
    let digest = sha256 (device.chip_id ++ (fw_type ∷ [])) in
    let n = laws (device.chip_id ++ (fw_type ∷ [])) in
    let short = le32_bytes size ++ take 8 digest in
    let tail = digest ++ (0 ∷ 0 ∷ 0 ∷ 0 ∷ []) in
    let long = le32_bytes size ++ (take 4 digest ++ tail) in
    if_intro (Fits 252) (fw_bank_header_len device.personality == 20)
      (λ _. omega (
        arith,
        length-append version short,
        length-append (le32_bytes size) (take 8 digest),
        length-take_le 8 digest,
      ))
      (λ _. omega (
        arith,
        length-append version long,
        length-append (le32_bytes size) (take 4 digest ++ tail),
        length-append (take 4 digest) tail,
        length-append digest (0 ∷ 0 ∷ 0 ∷ 0 ∷ []),
        length-take_le 4 digest,
      ))

length-riscv_fw_version : (p : Personality) → length (riscv_fw_version p) ≡ 4
length-riscv_fw_version es012 = refl
length-riscv_fw_version es220 = refl
length-riscv_fw_version fw220 = refl

length-spect_fw_version : (p : Personality) → length (spect_fw_version p) ≡ 4
length-spect_fw_version es012 = refl
length-spect_fw_version es220 = refl
length-spect_fw_version fw220 = refl

length-bootloader_version : (p : Personality) → length (bootloader_version p) ≡ 4
length-bootloader_version es012 = refl
length-bootloader_version es220 = refl
length-bootloader_version fw220 = refl

fw_bank_header_len-le : (p : Personality) → fw_bank_header_len p ≤ 52
fw_bank_header_len-le es012 = omega arith
fw_bank_header_len-le es220 = omega arith
fw_bank_header_len-le fw220 = omega arith

splice-Fits :
    (part chunk : List ℕ) → length chunk ≡ 128 → length part ≤ 128 → Fits 252 (splice 0 part chunk)
splice-Fits part chunk h k = omega (arith, length-splice 0 part chunk (omega arith))

block-le : (start n : ℕ) → min (start + 128) n - start ≤ 128
block-le start n = ground arith

certificate_block-Fits : (device : Device) (block : ℕ) → Fits 252 (certificate_block device block)
unfolding certificate_block slice
certificate_block-Fits device block =
    let start : ℕ = block * cert_store_block_size in
    let n = min (start + cert_store_block_size) (length device.cert_store) - start in
    let part = take n (drop start device.cert_store) in
    let chunk : List ℕ = replicate cert_store_block_size 0 in
    let fit = length-take_le n (drop start device.cert_store) in
    let small = block-le start (length device.cert_store) in
    if_intro (Fits 252) (ltb start (length device.cert_store))
      (λ _. splice-Fits part chunk refl (omega arith)) (λ _. omega arith)

bank_object-Fits :
    (sha256 : List ℕ → List ℕ) (device : Device) (block : ℕ)
    → ((m : List ℕ) → length (sha256 m) ≡ 32)
    → Fits 252 (bank_object sha256 device block)
unfolding bank_object
bank_object-Fits sha256 device block laws =
    let p = device.personality in
    let sizes = fw_image_sizes p in
    if_intro (Fits 252)
      (((block == bank_fw2) || (block == bank_spect2)) && not (fw_bank2_written p))
      (λ _.
        let filler : ℕ = 0xff in
        omega (arith, length-replicate (fw_bank_header_len p) filler, fw_bank_header_len-le p))
      (λ _.
        if_intro (Fits 252) ((block == bank_fw1) || (block == bank_fw2))
          (λ _.
            bank_header-Fits sha256 device 1 sizes.0 (riscv_fw_version p) laws
              (length-riscv_fw_version p))
          (λ _.
            if_intro (Fits 252) ((block == bank_spect1) || (block == bank_spect2))
              (λ _.
                bank_header-Fits sha256 device 2 sizes.1 (spect_fw_version p) laws
                  (length-spect_fw_version p))
              (λ _. omega arith)))

object_bytes-Fits :
    (sha256 : List ℕ → List ℕ) (device : Device) (maintenance : Bool) (object_id block : ℕ)
    → ((m : List ℕ) → length (sha256 m) ≡ 32)
    → length device.chip_id ≤ 252
    → Fits 252 (object_bytes sha256 device maintenance object_id block).1
unfolding object_bytes
object_bytes-Fits sha256 device maintenance object_id block laws h =
    let p = device.personality in
    let P = λ (r : ℕ × List ℕ). Fits 252 r.1 in
    if_intro P (object_id == object_x509_certificate)
      (λ _.
        if_intro P (leb cert_store_blocks block) (λ _. omega arith)
          (λ _. certificate_block-Fits device block))
      (λ _.
        if_intro P (object_id == object_chip_id) (λ _. h)
          (λ _.
            if_intro P (object_id == object_riscv_fw_version)
              (λ _.
                if_intro (Fits 252) maintenance (λ _. omega (arith, length-bootloader_version p))
                  (λ _. omega (arith, length-riscv_fw_version p)))
              (λ _.
                if_intro P (object_id == object_spect_fw_version)
                  (λ _.
                    if_intro (Fits 252) maintenance (λ _. omega arith)
                      (λ _. omega (arith, length-spect_fw_version p)))
                  (λ _.
                    if_intro P ((object_id == object_fw_bank) && maintenance)
                      (λ _. bank_object-Fits sha256 device block laws) (λ _. omega arith)))))

pub get_info-total :
    (sha256 : List ℕ → List ℕ) (device : Device) (maintenance : Bool) (object_id block : ℕ)
    → ((m : List ℕ) → length (sha256 m) ≡ 32)
    → length device.chip_id ≤ 252
    → (f : List ℕ) × (get_info sha256 device maintenance object_id block ≡ some f)
unfolding get_info build_response
get_info-total sha256 device maintenance object_id block laws h =
    let r = object_bytes sha256 device maintenance object_id block in
    let fits = object_bytes-Fits sha256 device maintenance object_id block laws h in
    (
      append_crc (r.0 ∷ (length r.1 % 256) ∷ r.1),
      rw (get_info, build_response, le→leb (length r.1) 252 fits) refl,
    )
