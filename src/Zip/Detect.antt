-- ===== src/Zip/Detect.antt =====
-- `detectZipEncryption` of zip-encryption.ts with the functions that it calls.
use subdux.Base.{
  Bool, List, Option, false, if◌then◌else◌, leb, length, ltb, none, ok, some, suc, throw, true,
  zero, ℕ, ◌%◌, ◌&&◌, ◌+◌, ◌-◌, ◌==◌, ◌>>=◌, ◌||◌,
}
use subdux.Zip.View.{Zip, ZipFile, get_uint16, get_uint32, get_uint8, out_of_fuel, read_slice, size}

abbrev pub eocd_signature : ℕ
eocd_signature = 0x06054b50

abbrev pub central_header_signature : ℕ
central_header_signature = 0x02014b50

abbrev pub aes_extra_field_id : ℕ
aes_extra_field_id = 0x9901

abbrev pub aes_compression_method : ℕ
aes_compression_method = 99

abbrev pub zip64_sentinel_32 : ℕ
zip64_sentinel_32 = 0xffff_ffff

abbrev pub max_eocd_search : ℕ
max_eocd_search = 22 + 65535

pub record EncryptedZipEntry : Type 0 where
  pub local_header_offset : ℕ
  pub aes_strength : ℕ

-- The optional fields of the source are `none` where the code leaves them out.
pub record DetectZipEncryptionResult : Type 0 where
  pub is_zip : Bool
  pub encrypted : Bool
  pub first_encrypted_entry : Option EncryptedZipEntry
  pub cannot_verify : Option Bool

-- The results that the code builds in place.
abbrev pub not_a_zip : DetectZipEncryptionResult
not_a_zip = record {
  is_zip = false;
  encrypted = false;
  first_encrypted_entry = none;
  cannot_verify = none;
}

abbrev pub not_encrypted : DetectZipEncryptionResult
not_encrypted = record not_a_zip { is_zip = true }

abbrev pub unverifiable : Bool → DetectZipEncryptionResult
unverifiable zip = record not_a_zip { is_zip = zip; cannot_verify = some true }

abbrev pub encrypted_with : ℕ → ℕ → DetectZipEncryptionResult
encrypted_with offset strength = record {
  is_zip = true;
  encrypted = true;
  first_encrypted_entry = some (record { local_header_offset = offset; aes_strength = strength });
  cannot_verify = none;
}

-- The loop of `findEocdOffset`; the argument is the offset plus one, 0 below the first byte.
unfoldable pub scan_eocd : List ℕ → ℕ → Zip (Option ℕ)
scan_eocd view zero = ok none
scan_eocd view (suc offset) = get_uint32 view offset >>= λ signature.
    elim (signature == eocd_signature) [ true ↦ ok (some offset) | false ↦ scan_eocd view offset ]

-- From `byteLength - 22` down; `none` is the source's -1.
unfoldable pub find_eocd_offset : List ℕ → Zip (Option ℕ)
find_eocd_offset view = scan_eocd view (length view + 1 - 22)

-- The strength byte of the AES field at `pos`, if it lies in the view.
unfoldable pub read_strength : List ℕ → ℕ → Zip (Option ℕ)
read_strength view pos =
    if leb (pos + 4 + 5) (length view)
    then (get_uint8 view (pos + 4 + 4) >>= λ strength. ok (some strength))
    else ok none

-- The loop of `parseAesStrengthFromExtra`. Each round moves `pos` by at least 4.
unfoldable pub walk_extra : ℕ → List ℕ → ℕ → ℕ → Zip (Option ℕ)
walk_extra zero view end' pos = throw out_of_fuel
walk_extra (suc fuel) view end' pos = elim (leb (pos + 4) end' && leb (pos + 4) (length view)) [
  | false ↦ ok none
  | true ↦ do
    header_id ← get_uint16 view pos
    data_size ← get_uint16 view (pos + 2)
    elim (header_id == aes_extra_field_id) [
      | true ↦ read_strength view pos
      | false ↦ walk_extra fuel view end' (pos + (4 + data_size))
    ]
]

unfoldable pub parse_aes_strength_from_extra : List ℕ → ℕ → ℕ → Zip (Option ℕ)
parse_aes_strength_from_extra view start len =
    walk_extra (suc (length view)) view (start + len) start

-- What one round of the directory loop reads at `pos`.
pub record CentralHeader : Type 0 where
  pub gp_flag : ℕ
  pub compression_method : ℕ
  pub name_len : ℕ
  pub extra_len : ℕ
  pub comment_len : ℕ
  pub local_header_offset : ℕ

unfoldable pub read_central_header : List ℕ → ℕ → Zip CentralHeader
read_central_header view pos = do
  gp_flag ← get_uint16 view (pos + 8)
  compression_method ← get_uint16 view (pos + 10)
  name_len ← get_uint16 view (pos + 28)
  extra_len ← get_uint16 view (pos + 30)
  comment_len ← get_uint16 view (pos + 32)
  local_header_offset ← get_uint32 view (pos + 42)
  ok (record {
    gp_flag = gp_flag;
    compression_method = compression_method;
    name_len = name_len;
    extra_len = extra_len;
    comment_len = comment_len;
    local_header_offset = local_header_offset;
  })

-- `gpFlag & 0x1` is the lowest bit.
abbrev pub is_aes : CentralHeader → Bool
is_aes h = h.gp_flag % 2 == 1 && h.compression_method == aes_compression_method

abbrev pub next_header : ℕ → CentralHeader → ℕ
next_header pos h = pos + (46 + h.name_len + h.extra_len + h.comment_len)

-- The AES strength of the header at `pos`, where the code looks for one.
unfoldable pub header_strength : List ℕ → ℕ → CentralHeader → Zip (Option ℕ)
header_strength view pos h =
    if is_aes h
    then parse_aes_strength_from_extra view (pos + 46 + h.name_len) h.extra_len
    else ok none

-- The loop over the central directory. Each round moves `pos` by at least 46.
unfoldable pub walk_directory : ℕ → List ℕ → ℕ → Zip DetectZipEncryptionResult
walk_directory zero view pos = throw out_of_fuel
walk_directory (suc fuel) view pos = elim (leb (pos + 46) (length view)) [
  | false ↦ ok not_encrypted
  | true ↦ do
    signature ← get_uint32 view pos
    elim (signature == central_header_signature) [
      | false ↦ ok not_encrypted
      | true ↦ do
        h ← read_central_header view pos
        strength ← header_strength view pos h
        elim strength [
          | some aes_strength ↦ ok (encrypted_with h.local_header_offset aes_strength)
          | none ↦ walk_directory fuel view (next_header pos h)
        ]
    ]
]

-- The directory is read and walked once its place is known to lie in the file.
unfoldable pub detect_in_directory : ZipFile → ℕ → ℕ → Zip DetectZipEncryptionResult
detect_in_directory file cd_offset cd_size = do
  cd_view ← read_slice file cd_offset (cd_offset + cd_size)
  walk_directory (suc (length cd_view)) cd_view 0

-- The body of the `try` once the record at `eocd_offset` is found.
unfoldable pub detect_from_eocd : ZipFile → List ℕ → ℕ → Zip DetectZipEncryptionResult
detect_from_eocd file tail_view eocd_offset = do
  total_entries ← get_uint16 tail_view (eocd_offset + 10)
  cd_size ← get_uint32 tail_view (eocd_offset + 12)
  cd_offset ← get_uint32 tail_view (eocd_offset + 16)
  if cd_size == zip64_sentinel_32 || cd_offset == zip64_sentinel_32 || total_entries == 0xffff
      then ok (unverifiable true)
      else if cd_size == 0 || ltb (size file) (cd_offset + cd_size)
      then ok (unverifiable true)
      else detect_in_directory file cd_offset cd_size

-- The body of the `try`.
unfoldable pub try_detect : ZipFile → Zip DetectZipEncryptionResult
try_detect file = do
  tail_view ← read_slice file (size file - max_eocd_search) (size file)
  eocd_offset ← find_eocd_offset tail_view
  elim eocd_offset [ none ↦ ok not_a_zip | some offset ↦ detect_from_eocd file tail_view offset ]

-- The `catch` of `detectZipEncryption`: every exception of the source gives the same result.
abbrev pub catch_detect : Zip DetectZipEncryptionResult → Zip DetectZipEncryptionResult
catch_detect (ok r) = ok r
catch_detect (throw out_of_fuel) = throw out_of_fuel
catch_detect (throw _) = ok (unverifiable false)

unfoldable pub detect_zip_encryption : ZipFile → Zip DetectZipEncryptionResult
detect_zip_encryption file =
    if ltb (size file) 22 then ok not_a_zip else catch_detect (try_detect file)
