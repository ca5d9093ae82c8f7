-- ===== src/Tropic01/GetInfo.antt =====
-- TROPIC01Sim/tropic01-sim/src/handlers/get_info.rs: the objects of Get_Info_Req. SHA-256 is a parameter.
pub mod Sizes
use simulators.Common.{
  ℕ, ◌+◌, ◌*◌, Bool, true, false, not, ◌&&◌, ◌||◌, Option, none, some, List, [], ◌∷◌, ◌++◌, length,
  take, replicate, min, ltb, leb, ◌==◌, if◌then◌else◌,
}
use simulators.Common.Slices.{slice, splice}
use simulators.Tropic01.Frame.{build_response}
use simulators.Tropic01.Frame.Status
use simulators.Tropic01.L3.{le32_bytes}
use simulators.Tropic01.Personality.{
  Personality, riscv_fw_version, spect_fw_version, bootloader_version, bootloader_spect_version,
  fw_image_sizes, fw_bank2_written, fw_bank_header_len,
}
use simulators.Tropic01.Store.{Device}

abbrev pub cert_store_blocks : ℕ
cert_store_blocks = 30

abbrev pub cert_store_block_size : ℕ
cert_store_block_size = 128

abbrev pub object_x509_certificate : ℕ
object_x509_certificate = 0x00

abbrev pub object_chip_id : ℕ
object_chip_id = 0x01

abbrev pub object_riscv_fw_version : ℕ
object_riscv_fw_version = 0x02

abbrev pub object_spect_fw_version : ℕ
object_spect_fw_version = 0x04

abbrev pub object_fw_bank : ℕ
object_fw_bank = 0xb0

abbrev pub bank_fw1 : ℕ
bank_fw1 = 0x01

abbrev pub bank_fw2 : ℕ
bank_fw2 = 0x02

abbrev pub bank_spect1 : ℕ
bank_spect1 = 0x11

abbrev pub bank_spect2 : ℕ
bank_spect2 = 0x12

unfoldable pub bank_header : (List ℕ → List ℕ) → Device → ℕ → List ℕ → ℕ → List ℕ
bank_header sha256 device fw_type version size =
    let digest = sha256 (device.chip_id ++ (fw_type ∷ [])) in
    if fw_bank_header_len device.personality == 20
    then fw_type ∷ 0 ∷ 0 ∷ 0 ∷ (version ++ (le32_bytes size ++ take 8 digest))
    else fw_type
      ∷ 0
      ∷ 0
      ∷ 2
      ∷ (version ++ (le32_bytes size ++ (take 4 digest ++ (digest ++ (0 ∷ 0 ∷ 0 ∷ 0 ∷ [])))))

-- The block of the certificate store, filled with zeros past its end.
unfoldable pub certificate_block : Device → ℕ → List ℕ
certificate_block device block =
    let start = block * cert_store_block_size in
    let end = min (start + cert_store_block_size) (length device.cert_store) in
    let chunk = replicate cert_store_block_size 0 in
    if ltb start (length device.cert_store)
    then splice 0 (slice start end device.cert_store) chunk
    else chunk

-- The header of a firmware bank, in Maintenance mode.
unfoldable pub bank_object : (List ℕ → List ℕ) → Device → ℕ → List ℕ
bank_object sha256 device block =
    let p = device.personality in
    let sizes = fw_image_sizes p in
    if ((block == bank_fw2) || (block == bank_spect2)) && not (fw_bank2_written p)
    then replicate (fw_bank_header_len p) 0xff
    else (if (block == bank_fw1) || (block == bank_fw2)
        then bank_header sha256 device 1 (riscv_fw_version p) sizes.0
        else (if (block == bank_spect1) || (block == bank_spect2)
            then bank_header sha256 device 2 (spect_fw_version p) sizes.1
            else []))

-- The object's status and bytes.
unfoldable pub object_bytes : (List ℕ → List ℕ) → Device → Bool → ℕ → ℕ → ℕ × List ℕ
object_bytes sha256 device maintenance object_id block =
    let p = device.personality in
    if object_id == object_x509_certificate
    then (if leb cert_store_blocks block
        then (Status.gen_err, [])
        else (Status.request_ok, certificate_block device block))
    else (if object_id == object_chip_id
        then (Status.request_ok, device.chip_id)
        else (if object_id == object_riscv_fw_version
            then (
              Status.request_ok,
              if maintenance then bootloader_version p else riscv_fw_version p,
            )
            else (if object_id == object_spect_fw_version
                then (
                  Status.request_ok,
                  if maintenance then bootloader_spect_version p else spect_fw_version p,
                )
                else (if (object_id == object_fw_bank) && maintenance
                    then (Status.request_ok, bank_object sha256 device block)
                    else (Status.gen_err, [])))))

unfoldable pub get_info : (List ℕ → List ℕ) → Device → Bool → ℕ → ℕ → Option (List ℕ)
get_info sha256 device maintenance object_id block =
    let r = object_bytes sha256 device maintenance object_id block in build_response r.0 r.1
