-- ===== src/Zip/Witnesses.antt =====
-- A small archive with one entry encrypted by 128-bit WinZip AES, and the theorems at it.
use subdux.Base.{
  IsOk, List, Option, [], arith, false, if◌then◌else◌, length, ok, refl, some, str_eq, suc, throw,
  true, ℕ, ◌++◌, ◌↔◌, ◌∷◌, ◌≡◌, ◌⊎◌,
}
use subdux.Zip.Detect.{
  DetectZipEncryptionResult, EncryptedZipEntry, detect_from_eocd, detect_in_directory,
  detect_zip_encryption, encrypted_with, find_eocd_offset, header_strength,
  parse_aes_strength_from_extra, read_central_header, read_strength, scan_eocd, try_detect,
  unverifiable, walk_directory, walk_extra,
}
use subdux.Zip.Directory.{Finds, walk_directory-first}
use subdux.Zip.Eocd.{IsLastEocd, find_eocd_offset-IsLastEocd}
use subdux.Zip.Compared.{Compared, verify_zip_password-Compared}
use subdux.Zip.Password.{constant_time_equal_iff}
use subdux.Zip.Total.{Refused, detect_zip_encryption-try_detect, verify_zip_password-returns}
use subdux.Zip.Verify.{
  WebCrypto, accumulate_diff, check_header, compare_pwv, compute_password_verification_value,
  constant_time_equal, key_size_for_strength, try_verify, verify_prefix, verify_zip_password,
}
use subdux.Zip.View.{ZipFile, get_uint16, get_uint32, get_uint8, not_readable, read_slice}

abbrev archive_bytes : List ℕ
archive_bytes =
    80 ∷ 75 ∷ 3 ∷ 4 ∷ 20 ∷ 0 ∷ 1 ∷ 0 ∷ 99 ∷ 0 ∷ 0 ∷ 0 ∷ 0 ∷ 0 ∷ 0 ∷ 0 ∷ 0 ∷ 0 ∷ 0 ∷ 0 ∷ 0 ∷ 0 ∷ 0
    ∷ 0 ∷ 0 ∷ 0 ∷ 0 ∷ 0 ∷ 0 ∷ 0 ∷ 1 ∷ 2 ∷ 3 ∷ 4 ∷ 5 ∷ 6 ∷ 7 ∷ 8 ∷ 171 ∷ 205 ∷ 80 ∷ 75 ∷ 1 ∷ 2 ∷ 20
    ∷ 0 ∷ 20 ∷ 0 ∷ 1 ∷ 0 ∷ 99 ∷ 0 ∷ 0 ∷ 0 ∷ 0 ∷ 0 ∷ 0 ∷ 0 ∷ 0 ∷ 0 ∷ 0 ∷ 0 ∷ 0 ∷ 0 ∷ 0 ∷ 0 ∷ 0 ∷ 0
    ∷ 0 ∷ 0 ∷ 11 ∷ 0 ∷ 0 ∷ 0 ∷ 0 ∷ 0 ∷ 0 ∷ 0 ∷ 0 ∷ 0 ∷ 0 ∷ 0 ∷ 0 ∷ 0 ∷ 0 ∷ 0 ∷ 1 ∷ 153 ∷ 7 ∷ 0 ∷ 1
    ∷ 0 ∷ 65 ∷ 69 ∷ 1 ∷ 8 ∷ 0 ∷ 80 ∷ 75 ∷ 5 ∷ 6 ∷ 0 ∷ 0 ∷ 0 ∷ 0 ∷ 1 ∷ 0 ∷ 1 ∷ 0 ∷ 57 ∷ 0 ∷ 0 ∷ 0
    ∷ 40 ∷ 0 ∷ 0 ∷ 0 ∷ 0 ∷ 0 ∷ []

abbrev archive : ZipFile
archive = record { bytes = archive_bytes; refuses = λ s e. false }

abbrev directory : List ℕ
directory =
    80 ∷ 75 ∷ 1 ∷ 2 ∷ 20 ∷ 0 ∷ 20 ∷ 0 ∷ 1 ∷ 0 ∷ 99 ∷ 0 ∷ 0 ∷ 0 ∷ 0 ∷ 0 ∷ 0 ∷ 0 ∷ 0 ∷ 0 ∷ 0 ∷ 0 ∷ 0
    ∷ 0 ∷ 0 ∷ 0 ∷ 0 ∷ 0 ∷ 0 ∷ 0 ∷ 11 ∷ 0 ∷ 0 ∷ 0 ∷ 0 ∷ 0 ∷ 0 ∷ 0 ∷ 0 ∷ 0 ∷ 0 ∷ 0 ∷ 0 ∷ 0 ∷ 0 ∷ 0 ∷ 1
    ∷ 153 ∷ 7 ∷ 0 ∷ 1 ∷ 0 ∷ 65 ∷ 69 ∷ 1 ∷ 8 ∷ 0 ∷ []

abbrev entry : EncryptedZipEntry
entry = record { local_header_offset = 0; aes_strength = 1 }

-- A stand-in for Web Crypto whose derived bits end in the password's first code.
abbrev toy_crypto : WebCrypto
toy_crypto = record {
  encode = λ p. if str_eq p "secret" then 171 ∷ 205 ∷ [] else 0 ∷ 0 ∷ [];
  derive_bits = some (λ p salt rounds bits. some (salt ++ p));
}

detects_the_entry : detect_zip_encryption archive ≡ ok (encrypted_with 0 1)
unfolding detect_zip_encryption try_detect detect_from_eocd detect_in_directory walk_directory
    header_strength parse_aes_strength_from_extra walk_extra read_strength read_central_header
    find_eocd_offset scan_eocd read_slice get_uint8 get_uint16 get_uint32
detects_the_entry = refl

accepts_the_password :
    verify_zip_password toy_crypto archive entry "secret"
    ≡ ok (record { verified = true; valid = true })
unfolding verify_zip_password try_verify check_header verify_prefix compare_pwv
    compute_password_verification_value key_size_for_strength constant_time_equal accumulate_diff
    read_slice get_uint8 get_uint16 get_uint32
accepts_the_password = refl

rejects_another :
    verify_zip_password toy_crypto archive entry "other"
    ≡ ok (record { verified = true; valid = false })
unfolding verify_zip_password try_verify check_header verify_prefix compare_pwv
    compute_password_verification_value key_size_for_strength constant_time_equal accumulate_diff
    read_slice get_uint8 get_uint16 get_uint32
rejects_another = refl

detect_zip_encryption-try_detect_example :
    ((r : DetectZipEncryptionResult) × (try_detect archive ≡ ok r)
      × (detect_zip_encryption archive ≡ ok r))
    ⊎ Refused archive
      × (try_detect archive ≡ throw not_readable)
      × (detect_zip_encryption archive ≡ ok (unverifiable false))
detect_zip_encryption-try_detect_example = detect_zip_encryption-try_detect archive (omega arith)

find_eocd_offset-IsLastEocd_example :
    (r : Option ℕ) × (find_eocd_offset archive_bytes ≡ ok r) × IsLastEocd archive_bytes r
find_eocd_offset-IsLastEocd_example = find_eocd_offset-IsLastEocd archive_bytes

walk_directory-first_example :
    (r : DetectZipEncryptionResult) × (walk_directory (suc (length directory)) directory 0 ≡ ok r)
    × Finds directory 0 r
walk_directory-first_example = walk_directory-first directory

constant_time_equal_iff_example :
    (constant_time_equal (171 ∷ 205 ∷ []) (171 ∷ 206 ∷ []) ≡ true)
    ↔ (◌≡◌ {A = List ℕ} (171 ∷ 205 ∷ []) (171 ∷ 206 ∷ []))
constant_time_equal_iff_example = constant_time_equal_iff (171 ∷ 205 ∷ []) (171 ∷ 206 ∷ [])

verify_zip_password-Compared_example : Compared toy_crypto archive entry "secret" true
verify_zip_password-Compared_example =
    verify_zip_password-Compared toy_crypto archive entry "secret"
      (record { verified = true; valid = true }) accepts_the_password refl

verify_zip_password-returns_example : IsOk (verify_zip_password toy_crypto archive entry "other")
verify_zip_password-returns_example = verify_zip_password-returns toy_crypto archive entry "other"
