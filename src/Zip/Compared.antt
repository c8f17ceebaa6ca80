-- ===== src/Zip/Compared.antt =====
-- `verifyZipPassword` of web/src/lib/zip-encryption.ts: what is compared with what.
use Prim.Native.Nat.{min}
use subdux.Base.{
  Bool, Gives, List, Option, String, ap, arith, bind-Gives, drop, false, if-Gives, length,
  length-drop, length-take, ltb, none, ok, ok-Gives, refl, some, subst, sym, throw, true, ℕ, ◌+◌,
  ◌-◌, ◌/◌, ◌<◌, ◌≤◌, ◌==◌, ◌↔◌, ◌∙◌, ◌≡◌,
}
use subdux.Zip.Detect.{EncryptedZipEntry}
use subdux.Zip.Slices.{slice-slice_head, slice-slice_tail}
use subdux.Zip.Verify.{
  VerifyZipPasswordResult, WebCrypto, catch_verify, check_header, compare_pwv,
  compute_password_verification_value, key_size_for_strength, local_header_signature, try_verify,
  unverified, verify_prefix, verify_zip_password,
}
use subdux.Zip.View.{Zip, ZipFile, get_uint16, get_uint32, out_of_fuel, read_slice, slice}
use subdux.Zip.Password.{constant_time_equal_iff}

-- The salt begins behind the local header, the name and the extra field of the entry.
abbrev pub salt_start : EncryptedZipEntry → ℕ → ℕ → ℕ
salt_start entry name_len extra_len = entry.local_header_offset + 30 + name_len + extra_len

-- The local header of the entry stands in the file, and says how long the name and the extra field
-- are.
pub record LocalHeader (file : ZipFile) (entry : EncryptedZipEntry) (name_len extra_len : ℕ)
    : Type 0 where
  pub header_in_file : entry.local_header_offset + 30 ≤ length file.bytes
  pub header_signature :
      get_uint32 (slice file.bytes entry.local_header_offset (entry.local_header_offset + 30)) 0
      ≡ ok local_header_signature
  pub header_name :
      get_uint16 (slice file.bytes entry.local_header_offset (entry.local_header_offset + 30)) 26
      ≡ ok name_len
  pub header_extra :
      get_uint16 (slice file.bytes entry.local_header_offset (entry.local_header_offset + 30)) 28
      ≡ ok extra_len

-- A run of the password check that reached the comparison: the salt, half as long as the key,
-- stands behind the local header's name and extra field, the stored verification value behind the
-- salt, and both lie in the file.
pub record Compared (crypto : WebCrypto) (file : ZipFile) (entry : EncryptedZipEntry)
    (password : String) (valid : Bool) : Type 0 where
  pub key_size : ℕ
  pub name_len : ℕ
  pub extra_len : ℕ
  pub computed : List ℕ
  pub strength : key_size_for_strength entry.aes_strength ≡ some key_size
  pub local_header : LocalHeader file entry name_len extra_len
  pub in_file : salt_start entry name_len extra_len + key_size / 2 + 2 ≤ length file.bytes
  pub derived :
      compute_password_verification_value crypto password
        (slice file.bytes
          (salt_start entry name_len extra_len)
          (salt_start entry name_len extra_len + key_size / 2))
        entry.aes_strength
      ≡ ok computed
  pub decides : (valid ≡ true) ↔ (
      computed
      ≡ slice file.bytes
          (salt_start entry name_len extra_len + key_size / 2)
          (salt_start entry name_len extra_len + key_size / 2 + 2))

length-slice : (xs : List ℕ) (s n : ℕ) → length (slice xs s (s + n)) ≡ min n (length xs - s)
length-slice xs s n =
    let e : s + n - s ≡ n = omega arith in
    rw e (rw (length-take n (drop s xs), length-drop s xs) refl)

-- A range that is as long as it was asked for lies in the file.
whole-slice :
    (xs : List ℕ) (s n : ℕ)
    → 0 < n
    → ltb (length (slice xs s (s + n))) n ≡ false
    → s + n ≤ length xs
whole-slice xs s n p h = ground (arith, length-slice xs s n)

module _ (crypto : WebCrypto) (file : ZipFile) (entry : EncryptedZipEntry) (password : String) where
  read_slice-eq :
      (start end' : ℕ) {view : List ℕ}
      → read_slice file start end' ≡ ok view
      → view ≡ slice file.bytes start end'
  unfolding read_slice
  read_slice-eq start end' e = ground arith

  -- What is claimed of a result.
  abbrev Sound : VerifyZipPasswordResult → Type 0
  Sound r = r.verified ≡ true → Compared crypto file entry password r.valid

  compare_pwv-Compared :
      (key_size name_len extra_len : ℕ)
      → key_size_for_strength entry.aes_strength ≡ some key_size
      → LocalHeader file entry name_len extra_len
      → salt_start entry name_len extra_len + key_size / 2 + 2 ≤ length file.bytes
      → Gives Sound (
          compare_pwv crypto entry password (key_size / 2) (
            slice file.bytes
              (salt_start entry name_len extra_len)
              (salt_start entry name_len extra_len + key_size / 2 + 2)))
  unfolding compare_pwv
  compare_pwv-Compared key_size name_len extra_len k head inside =
      let start = salt_start entry name_len extra_len in
      bind-Gives Sound
        (compute_password_verification_value crypto password
          (slice (slice file.bytes start (start + key_size / 2 + 2)) 0 (key_size / 2))
          entry.aes_strength)
        λ computed derived. ok-Gives Sound _ λ _.
          let tail = slice-slice_tail file.bytes start (key_size / 2) in
          let iff = constant_time_equal_iff computed (
            slice (slice file.bytes start (start + key_size / 2 + 2)) (key_size / 2)
              (key_size / 2 + 2)) in
          record {
            key_size = key_size;
            name_len = name_len;
            extra_len = extra_len;
            computed = computed;
            strength = k;
            local_header = head;
            in_file = inside;
            derived = rw slice-slice_head at derived;
            decides = (λ is. iff.0 is ∙ tail, λ is. iff.1 (is ∙ sym tail));
          }

  verify_prefix-Compared :
      (key_size : ℕ) (header : List ℕ)
      → key_size_for_strength entry.aes_strength ≡ some key_size
      → slice file.bytes entry.local_header_offset (entry.local_header_offset + 30) ≡ header
      → entry.local_header_offset + 30 ≤ length file.bytes
      → get_uint32 header 0 ≡ ok local_header_signature
      → Gives Sound (verify_prefix crypto file entry password key_size header)
  unfolding verify_prefix
  verify_prefix-Compared key_size header k is inside sig =
      bind-Gives Sound (get_uint16 header 26) λ n name.
        bind-Gives Sound (get_uint16 header 28) λ x extra.
          let start = salt_start entry n x in
          let head : LocalHeader file entry n x = record {
            header_in_file = inside;
            header_signature = ap (λ h. get_uint32 h 0) is ∙ sig;
            header_name = ap (λ h. get_uint16 h 26) is ∙ name;
            header_extra = ap (λ h. get_uint16 h 28) is ∙ extra;
          } in
          bind-Gives Sound (read_slice file start (start + key_size / 2 + 2)) λ prefix read.
            let same = read_slice-eq start (start + key_size / 2 + 2) read in
            if-Gives Sound (ltb (length prefix) (key_size / 2 + 2))
              (λ short. ok-Gives Sound unverified λ e. cc)
              (λ whole.
                subst (λ p. Gives Sound (compare_pwv crypto entry password (key_size / 2) p))
                  (sym same)
                  (compare_pwv-Compared key_size n x k head (
                    whole-prefix start (key_size / 2)
                      (subst (λ p. ltb (length p) (key_size / 2 + 2) ≡ false) same whole))))
    where
      whole-prefix :
          (s n : ℕ)
          → ltb (length (slice file.bytes s (s + n + 2))) (n + 2) ≡ false
          → s + n + 2 ≤ length file.bytes
      whole-prefix s n h =
          let e : s + n + 2 ≡ s + (n + 2) = omega arith in
          rw e (
            whole-slice file.bytes s (n + 2) (omega arith)
              (subst (λ t. ltb (length (slice file.bytes s t)) (n + 2) ≡ false) e h))

  try_verify-Compared :
      (key_size : ℕ)
      → key_size_for_strength entry.aes_strength ≡ some key_size
      → Gives Sound (try_verify crypto file entry password key_size)
  unfolding try_verify check_header
  try_verify-Compared key_size k =
      bind-Gives Sound (read_slice file entry.local_header_offset (entry.local_header_offset + 30))
        λ header read.
          let same =
            read_slice-eq entry.local_header_offset (entry.local_header_offset + 30) read in
          if-Gives Sound (ltb (length header) 30) (λ short. ok-Gives Sound unverified λ e. cc)
            λ whole. bind-Gives Sound (get_uint32 header 0) λ s sig.
              if-Gives Sound (s == local_header_signature)
                (λ is.
                  verify_prefix-Compared key_size header k (sym same)
                    (whole-slice file.bytes entry.local_header_offset 30 (omega arith)
                      (subst (λ h. ltb (length h) 30 ≡ false) same whole))
                    (sig ∙ ap ok (eq-of s is)))
                (λ other. ok-Gives Sound unverified λ e. cc)
    where
      eq-of : (s : ℕ) → (s == local_header_signature) ≡ true → s ≡ local_header_signature
      eq-of s e = ground arith

  catch_verify-Gives :
      (m : Zip VerifyZipPasswordResult) → Gives Sound m → Gives Sound (catch_verify crypto m)
  catch_verify-Gives (ok r) h = h
  catch_verify-Gives (throw out_of_fuel) h = λ a e. cc
  catch_verify-Gives (throw _) h = ok-Gives Sound unverified λ e. cc

  by_size :
      (o : Option ℕ)
      → key_size_for_strength entry.aes_strength ≡ o
      → Gives Sound (elim o [
        | none ↦ ok unverified
        | some n ↦ catch_verify crypto (try_verify crypto file entry password n)
      ])
  by_size none k = ok-Gives Sound unverified λ e. cc
  by_size (some n) k = catch_verify-Gives _ (try_verify-Compared n k)

-- Where the password check reports that it ran, the local header of the entry stands in the file with
-- its signature, the salt stands behind the name and the extra field that the header counts, and the
-- value derived from the password and this salt was compared with the two bytes behind it, which lie
-- in the file; the password is reported valid exactly if they agree.
pub verify_zip_password-Compared :
    (crypto : WebCrypto) (file : ZipFile) (entry : EncryptedZipEntry) (password : String)
    (r : VerifyZipPasswordResult)
    → verify_zip_password crypto file entry password ≡ ok r
    → r.verified ≡ true
    → Compared crypto file entry password r.valid
unfolding verify_zip_password
verify_zip_password-Compared crypto file entry password =
    by_size crypto file entry password (key_size_for_strength entry.aes_strength) refl
