-- ===== src/Zip/Total.antt =====
-- `detectZipEncryption` and `verifyZipPassword` as wholes, with their `try` and `catch`.
use subdux.Base.{
  Bool, Bool-cases, IsOk, List, Option, String, ap, arith, false, if◌then◌else◌, inl, inr, length,
  ltb, none, ok, refl, some, suc, throw, true, ℕ, ◌+◌, ◌-◌, ◌/◌, ◌==◌, ◌>>=◌, ◌||◌, ◌∙◌, ◌≡◌, ◌≢◌,
  ◌≤◌, ◌⊎◌,
}
use subdux.Zip.Bounds.{
  find_eocd_offset-IsOk, get_uint16-ok, get_uint32-IsOk, some_elim-IsOk, walk_directory-IsOk,
}
use subdux.Zip.Detect.{
  DetectZipEncryptionResult, EncryptedZipEntry, detect_from_eocd, detect_in_directory,
  detect_zip_encryption, max_eocd_search, not_a_zip, try_detect, unverifiable, zip64_sentinel_32,
}
use subdux.Zip.Eocd.{find_eocd_offset-le}
use subdux.Zip.Verify.{
  VerifyZipPasswordResult, WebCrypto, catch_verify, check_header, compare_pwv,
  compute_password_verification_value, key_size_for_strength, local_header_signature, try_verify,
  unverified, verify_prefix, verify_zip_password,
}
use subdux.Zip.View.{
  Zip, ZipFile, get_uint16, get_uint32, get_uint8, not_readable, out_of_fuel, read_slice, size,
  slice,
}

-- The browser refuses to read some range of the file.
abbrev pub Refused : ZipFile → Type 0
Refused file = (start : ℕ) × (end' : ℕ) × (file.refuses start end' ≡ true)

module _ (file : ZipFile) where
  -- The code returns, or a refused read ends it.
  abbrev Runs : {A : Type 0} → Zip A → Type 0
  Runs m = IsOk m ⊎ (m ≡ throw not_readable) × Refused file

  bind-Runs :
      {A B : Type 0} {m : Zip A} (f : A → Zip B)
      → Runs m
      → ((a : A) → m ≡ ok a → Runs (f a))
      → Runs (m >>= f)
  bind-Runs f (inl (a, e)) h = rw e (h a e)
  bind-Runs f (inr (e, r)) h = inr (rw e, r)

  if-Runs :
      {A : Type 0} (c : Bool) {x y : Zip A}
      → Runs x
      → (c ≡ false → Runs y)
      → Runs (if c then x else y)
  if-Runs true hx hy = hx
  if-Runs false hx hy = hy refl

  some_elim-Runs :
      {A B : Type 0} (o : Option A) {f : A → Zip B} {y : Zip B}
      → ((a : A) → o ≡ some a → Runs (f a))
      → Runs y
      → Runs (elim o [ none ↦ y | some a ↦ f a ])
  some_elim-Runs none hf hy = hy
  some_elim-Runs (some a) hf hy = hf a refl

  read_slice-Runs : (start end' : ℕ) → Runs (read_slice file start end')
  unfolding read_slice
  read_slice-Runs start end' = elim (Bool-cases (file.refuses start end')) [
    | inl p ↦ inr (rw p, (start, end', p))
    | inr p ↦ inl (slice file.bytes start end', rw p)
  ]

  detect_in_directory-Runs : (o n : ℕ) → Runs (detect_in_directory file o n)
  unfolding detect_in_directory
  detect_in_directory-Runs o n =
      bind-Runs _ (read_slice-Runs o (o + n))
        λ view e. inl (walk_directory-IsOk (suc (length view)) view 0 (omega arith) (omega arith))

  detect_from_eocd-Runs :
      (view : List ℕ) (o : ℕ) → o + 22 ≤ length view → Runs (detect_from_eocd file view o)
  unfolding detect_from_eocd
  detect_from_eocd-Runs view o h =
      bind-Runs _ (inl (get_uint16-ok view (o + 10) (omega arith))) λ total p.
        bind-Runs _ (inl (get_uint32-IsOk view (o + 12) (omega arith))) λ n q.
          bind-Runs _ (inl (get_uint32-IsOk view (o + 16) (omega arith))) λ start r.
            if-Runs (n == zip64_sentinel_32 || start == zip64_sentinel_32 || total == 0xffff)
              (inl (unverifiable true, refl))
              λ c.
                if-Runs (n == 0 || ltb (size file) (start + n)) (inl (unverifiable true, refl))
                  λ d. detect_in_directory-Runs start n

  pub try_detect-Runs : Runs (try_detect file)
  unfolding try_detect
  try_detect-Runs =
      bind-Runs _ (read_slice-Runs (size file - max_eocd_search) (size file)) λ view e.
        bind-Runs _ (inl (find_eocd_offset-IsOk view)) λ found p.
          some_elim-Runs found
            (λ o q. detect_from_eocd-Runs view o (find_eocd_offset-le view o (p ∙ ap ok q)))
            (inl (not_a_zip, refl))

≤→ltb_false : (n : ℕ) → 22 ≤ n → ltb n 22 ≡ false
≤→ltb_false n h = ground arith

-- On a file of at least 22 bytes the body of the `try` either returns a value, which is the
-- result, or was refused a read, and then the result is that of the `catch`. No read is out of
-- bounds and no loop runs forever.
pub detect_zip_encryption-try_detect :
    (file : ZipFile)
    → 22 ≤ size file
    → ((r : DetectZipEncryptionResult) × (try_detect file ≡ ok r)
        × (detect_zip_encryption file ≡ ok r))
      ⊎ Refused file
        × (try_detect file ≡ throw not_readable)
        × (detect_zip_encryption file ≡ ok (unverifiable false))
unfolding detect_zip_encryption
detect_zip_encryption-try_detect file h =
    rw (≤→ltb_false (size file) h) (elim (try_detect-Runs file) [
      | inl (r, e) ↦ inl (r, e, rw e)
      | inr (e, refused) ↦ inr (refused, e, rw e)
    ])

-- The code does not run out of fuel.
abbrev Halts : {A : Type 0} → Zip A → Type 0
Halts m = m ≢ throw out_of_fuel

bind-Halts :
    {A B : Type 0} (m : Zip A) {f : A → Zip B} → Halts m → ((a : A) → Halts (f a)) → Halts (m >>= f)
bind-Halts (ok a) hm hf = hf a
bind-Halts (throw e) hm hf = λ q. hm (cc)

if-Halts : {A : Type 0} (c : Bool) {x y : Zip A} → Halts x → Halts y → Halts (if c then x else y)
if-Halts true hx hy = hx
if-Halts false hx hy = hy

get_uint16-Halts : (view : List ℕ) (o : ℕ) → Halts (get_uint16 view o)
unfolding get_uint16 get_uint8
get_uint16-Halts view o = ground arith

get_uint32-Halts : (view : List ℕ) (o : ℕ) → Halts (get_uint32 view o)
unfolding get_uint32
get_uint32-Halts view o =
    bind-Halts (get_uint16 view o) (get_uint16-Halts view o)
      λ low. bind-Halts (get_uint16 view (o + 2)) (get_uint16-Halts view (o + 2)) λ high e. cc

read_slice-Halts : (file : ZipFile) (start end' : ℕ) → Halts (read_slice file start end')
unfolding read_slice
read_slice-Halts file start end' = ground arith

module _ (crypto : WebCrypto) (file : ZipFile) (entry : EncryptedZipEntry) (password : String) where
  compare_pwv-Halts : (n : ℕ) (prefix : List ℕ) → Halts (compare_pwv crypto entry password n prefix)
  unfolding compare_pwv compute_password_verification_value
  compare_pwv-Halts n prefix = ground arith

  try_verify-Halts : (n : ℕ) → Halts (try_verify crypto file entry password n)
  unfolding try_verify check_header verify_prefix
  try_verify-Halts n =
      bind-Halts (read_slice file entry.local_header_offset (entry.local_header_offset + 30))
        (read_slice-Halts file _ _)
        λ header.
          if-Halts (ltb (length header) 30) (λ e. cc)
            (bind-Halts (get_uint32 header 0) (get_uint32-Halts header 0) λ s.
              if-Halts (s == local_header_signature)
                (bind-Halts (get_uint16 header 26) (get_uint16-Halts header 26) λ a.
                  bind-Halts (get_uint16 header 28) (get_uint16-Halts header 28) λ b.
                    bind-Halts
                      (read_slice file (entry.local_header_offset + 30 + a + b)
                        (entry.local_header_offset + 30 + a + b + n / 2 + 2))
                      (read_slice-Halts file _ _)
                      λ prefix.
                        if-Halts (ltb (length prefix) (n / 2 + 2)) (λ e. cc)
                          (compare_pwv-Halts (n / 2) prefix))
                (λ e. cc))

  catch_verify-IsOk : (m : Zip VerifyZipPasswordResult) → Halts m → IsOk (catch_verify crypto m)
  catch_verify-IsOk (ok r) h = (r, refl)
  catch_verify-IsOk (throw out_of_fuel) h = absurd (h refl)
  catch_verify-IsOk (throw _) h = (unverified, refl)

-- The password check never rejects: whatever the file, the entry and the behaviour of Web Crypto,
-- it returns a result.
pub verify_zip_password-returns :
    (crypto : WebCrypto) (file : ZipFile) (entry : EncryptedZipEntry) (password : String)
    → IsOk (verify_zip_password crypto file entry password)
unfolding verify_zip_password
verify_zip_password-returns crypto file entry password =
    some_elim-IsOk (key_size_for_strength entry.aes_strength)
      (λ n.
        catch_verify-IsOk crypto file entry password _
          (try_verify-Halts crypto file entry password n))
      (unverified, refl)
