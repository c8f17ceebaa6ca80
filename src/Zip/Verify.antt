-- ===== src/Zip/Verify.antt =====
-- `verifyZipPassword` and `computePasswordVerificationValue` of zip-encryption.ts. Web Crypto and
-- `TextEncoder` are parameters: `derive_bits` is importKey followed by deriveBits with PBKDF2 over
-- HMAC-SHA1 (password bytes, salt, iterations, bits), with none where it rejects.
use Prim.Native.Nat.{bit_or, bit_xor}
use subdux.Base.{
  Bool, List, Option, String, drop, false, if◌then◌else◌, length, ltb, none, ok, some, throw, true,
  ℕ, ◌*◌, ◌+◌, ◌-◌, ◌/◌, ◌==◌, ◌>>=◌, ◌∷◌,
}
use subdux.Zip.Detect.{EncryptedZipEntry}
use subdux.Zip.View.{
  Zip, ZipFile, get_uint16, get_uint32, operation_error, out_of_fuel, read_slice, slice,
  unsupported_strength, web_crypto_unavailable,
}

abbrev pub local_header_signature : ℕ
local_header_signature = 0x04034b50

unfoldable pub key_size_for_strength : ℕ → Option ℕ
key_size_for_strength strength =
    if strength == 1
    then some 16
    else if strength == 2
    then some 24
    else if strength == 3
    then some 32
    else none

pub record VerifyZipPasswordResult : Type 0 where
  pub verified : Bool
  pub valid : Bool

abbrev pub unverified : VerifyZipPasswordResult
unverified = record { verified = false; valid = false }

-- The loop of `constantTimeEqual`, over arrays of one length.
unfoldable pub accumulate_diff : ℕ → List ℕ → List ℕ → ℕ
accumulate_diff diff (x ∷ xs) (y ∷ ys) = accumulate_diff (bit_or diff (bit_xor x y)) xs ys
accumulate_diff diff _ _ = diff

unfoldable pub constant_time_equal : List ℕ → List ℕ → Bool
constant_time_equal a b = if length a == length b then accumulate_diff 0 a b == 0 else false

-- The parameters: `subtle` is none where Web Crypto is unavailable.
pub record WebCrypto : Type 0 where
  pub encode : String → List ℕ
  pub derive_bits : Option (List ℕ → List ℕ → ℕ → ℕ → Option (List ℕ))

module _ (crypto : WebCrypto) where
  unfoldable pub compute_password_verification_value : String → List ℕ → ℕ → Zip (List ℕ)
  compute_password_verification_value password salt aes_strength =
      elim (key_size_for_strength aes_strength) [
        | none ↦ throw unsupported_strength
        | some key_size ↦ elim crypto.derive_bits [
          | none ↦ throw web_crypto_unavailable
          | some derive ↦
              elim (derive (crypto.encode password) salt 1000 ((key_size * 2 + 2) * 8)) [
                | none ↦ throw operation_error
                | some derived ↦ ok (drop (length derived - 2) derived)
              ]
        ]
      ]

  -- `prefix` holds the salt and the stored verification value.
  unfoldable pub compare_pwv : EncryptedZipEntry → String → ℕ → List ℕ → Zip VerifyZipPasswordResult
  compare_pwv entry password salt_len prefix = do
    computed ←
        compute_password_verification_value password (slice prefix 0 salt_len) entry.aes_strength
    ok (record {
      verified = true;
      valid = constant_time_equal computed (slice prefix salt_len (salt_len + 2));
    })

  -- The part of the `try` after the local header's signature is found.
  unfoldable pub verify_prefix :
      ZipFile → EncryptedZipEntry → String → ℕ → List ℕ → Zip VerifyZipPasswordResult
  verify_prefix file entry password key_size header_view = do
    local_name_len ← get_uint16 header_view 26
    local_extra_len ← get_uint16 header_view 28
    let data_start = entry.local_header_offset + 30 + local_name_len + local_extra_len
    let salt_len = key_size / 2
    prefix ← read_slice file data_start (data_start + salt_len + 2)
    if ltb (length prefix) (salt_len + 2)
        then ok unverified
        else compare_pwv entry password salt_len prefix

  unfoldable pub check_header :
      ZipFile → EncryptedZipEntry → String → ℕ → List ℕ → Zip VerifyZipPasswordResult
  check_header file entry password key_size header_view = do
    signature ← get_uint32 header_view 0
    if signature == local_header_signature
        then verify_prefix file entry password key_size header_view
        else ok unverified

  -- The body of the `try` of `verifyZipPassword`.
  unfoldable pub try_verify : ZipFile → EncryptedZipEntry → String → ℕ → Zip VerifyZipPasswordResult
  try_verify file entry password key_size = do
    header_view ← read_slice file entry.local_header_offset (entry.local_header_offset + 30)
    if ltb (length header_view) 30
        then ok unverified
        else check_header file entry password key_size header_view

  -- Both branches of the `catch` return the same value.
  abbrev pub catch_verify : Zip VerifyZipPasswordResult → Zip VerifyZipPasswordResult
  catch_verify (ok r) = ok r
  catch_verify (throw out_of_fuel) = throw out_of_fuel
  catch_verify (throw _) = ok unverified

  unfoldable pub verify_zip_password :
      ZipFile → EncryptedZipEntry → String → Zip VerifyZipPasswordResult
  verify_zip_password file entry password = elim (key_size_for_strength entry.aes_strength) [
    | none ↦ ok unverified
    | some key_size ↦ catch_verify (try_verify file entry password key_size)
  ]
