-- ===== src/Zip/Directory.antt =====
-- The loop of `detectZipEncryption` over the central directory.
use subdux.Base.{
  ==_iff, Bool-cases, List, Option, ap, arith, false, inl, inr, leb, leb→le, length, le→leb, none,
  ok, ok_injective, refl, some, subst, suc, sym, true, zero, ℕ, ◌+◌, ◌==◌, ◌>>=◌, ◌∙◌, ◌≡◌, ◌≤◌,
  ◌⊎◌,
}
use subdux.Zip.Bounds.{
  get_uint32-IsOk, header_strength-IsOk, read_central_header-IsOk, walk_directory-IsOk,
}
use subdux.Zip.Detect.{
  CentralHeader, DetectZipEncryptionResult, central_header_signature, encrypted_with,
  header_strength, is_aes, next_header, not_encrypted, parse_aes_strength_from_extra,
  read_central_header, walk_directory,
}
use subdux.Zip.View.{Zip, get_uint32}

-- A whole central directory header stands at `pos`, and reads as `h`.
abbrev pub HeaderAt : List ℕ → ℕ → CentralHeader → Type 0
HeaderAt view pos h =
    (pos + 46 ≤ length view)
    × (get_uint32 view pos ≡ ok central_header_signature)
    × (read_central_header view pos ≡ ok h)

-- The header is of no entry with an AES strength.
abbrev pub IsPlainEntry : List ℕ → ℕ → CentralHeader → Type 0
IsPlainEntry view pos h =
    (is_aes h ≡ false)
    ⊎ (parse_aes_strength_from_extra view (pos + 46 + h.name_len) h.extra_len ≡ ok none)

-- The headers that follow one another from `pos` lead to `q`, and none before it is AES.
pub data Leads (view : List ℕ) : ℕ → ℕ → Type 0 where
  here : {pos : ℕ} → Leads view pos pos
  next :
      {pos q : ℕ} (h : CentralHeader)
      → HeaderAt view pos h
      → IsPlainEntry view pos h
      → Leads view (next_header pos h) q
      → Leads view pos q

-- The header at `q` is that of an entry encrypted by WinZip AES, with this strength.
pub record IsAesEntry (view : List ℕ) (q offset strength : ℕ) : Type 0 where
  pub header : CentralHeader
  pub at : HeaderAt view q header
  pub aes : is_aes header ≡ true
  pub extra :
      parse_aes_strength_from_extra view (q + 46 + header.name_len) header.extra_len
      ≡ ok (some strength)
  pub offset_eq : header.local_header_offset ≡ offset

-- One round of the loop, by what it reads.
data Round (fuel : ℕ) (view : List ℕ) (pos : ℕ) : Zip DetectZipEncryptionResult → Type 0 where
  stop : ((h : CentralHeader) → ¬ HeaderAt view pos h) → Round fuel view pos (ok not_encrypted)
  found :
      (h : CentralHeader) (s : ℕ)
      → HeaderAt view pos h
      → header_strength view pos h ≡ ok (some s)
      → Round fuel view pos (ok (encrypted_with h.local_header_offset s))
  skip :
      (h : CentralHeader)
      → HeaderAt view pos h
      → header_strength view pos h ≡ ok none
      → Round fuel view pos (walk_directory fuel view (next_header pos h))

entry-Round :
    (fuel : ℕ) (view : List ℕ) (pos : ℕ)
    → pos + 46 ≤ length view
    → get_uint32 view pos ≡ ok central_header_signature
    → Round fuel view pos (walk_directory (suc fuel) view pos)
unfolding walk_directory
entry-Round fuel view pos room sig =
    let (h, e) = read_central_header-IsOk view pos room in
    let (o, f) = header_strength-IsOk view pos h in
    let long = le→leb (pos + 46) (length view) room in
    rw (long, walk_directory) (rw sig (rw e (rw f (by_strength h e o f))))
  where
    by_strength :
        (h : CentralHeader)
        → read_central_header view pos ≡ ok h
        → (o : Option ℕ) → header_strength view pos h ≡ ok o
        → Round fuel view pos (elim o [
          | some s ↦ ok (encrypted_with h.local_header_offset s)
          | none ↦ walk_directory fuel view (next_header pos h)
        ])
    by_strength h e none f = skip h (room, sig, e) f
    by_strength h e (some s) f = found h s (room, sig, e) f

walk_directory-Round :
    (fuel : ℕ) (view : List ℕ) (pos : ℕ) → Round fuel view pos (walk_directory (suc fuel) view pos)
unfolding walk_directory
walk_directory-Round fuel view pos = elim (Bool-cases (leb (pos + 46) (length view))) [
  | inr short ↦ rw (short, walk_directory) (stop λ h at. let room = at.0 in absurd (ground arith))
  | inl long ↦
      let room = leb→le (pos + 46) (length view) long in
      let (s, read) = get_uint32-IsOk view pos (omega arith) in
      elim (Bool-cases (s == central_header_signature)) [
        | inl sig ↦ entry-Round fuel view pos room (read ∙ ap ok ((==_iff _ _).0 sig))
        | inr other ↦
            rw (long, read, other, walk_directory, ◌>>=◌)
              (((stop λ h at.
                let same : s ≡ central_header_signature = ok_injective (sym read ∙ at.1) in
                absurd (ground arith))))
      ]
]

header_strength-some :
    (view : List ℕ) (q : ℕ) (h : CentralHeader) (s : ℕ)
    → header_strength view q h ≡ ok (some s)
    → (is_aes h ≡ true)
      × (parse_aes_strength_from_extra view (q + 46 + h.name_len) h.extra_len ≡ ok (some s))
unfolding header_strength
header_strength-some view q h s e = elim (Bool-cases (is_aes h)) [
  | inl aes ↦ (aes, rw (aes, header_strength) at e)
  | inr plain ↦ let no_strength = rw (plain, header_strength) at e in cc
]

header_strength-none :
    (view : List ℕ) (q : ℕ) (h : CentralHeader)
    → header_strength view q h ≡ ok none
    → IsPlainEntry view q h
unfolding header_strength
header_strength-none view q h e = elim (Bool-cases (is_aes h)) [
  | inl aes ↦ inr (rw (aes, header_strength) at e)
  | inr plain ↦ inl plain
]

-- What the walk from `pos` finds.
pub data Finds (view : List ℕ) (pos : ℕ) : DetectZipEncryptionResult → Type 0 where
  aes :
      (q offset strength : ℕ)
      → Leads view pos q
      → IsAesEntry view q offset strength
      → Finds view pos (encrypted_with offset strength)
  nothing :
      (q : ℕ)
      → Leads view pos q
      → ((h : CentralHeader) → ¬ HeaderAt view q h)
      → Finds view pos not_encrypted

Finds-next :
    {view : List ℕ} {pos : ℕ} {r : DetectZipEncryptionResult} (h : CentralHeader)
    → HeaderAt view pos h
    → IsPlainEntry view pos h
    → Finds view (next_header pos h) r
    → Finds view pos r
Finds-next h at plain (aes q o s l e) = aes q o s (next h at plain l) e
Finds-next h at plain (nothing q l e) = nothing q (next h at plain l) e

walk_directory-Finds :
    (fuel : ℕ) (view : List ℕ) (pos : ℕ) (r : DetectZipEncryptionResult)
    → walk_directory fuel view pos ≡ ok r
    → Finds view pos r
unfolding walk_directory
walk_directory-Finds zero view pos r e = cc
walk_directory-Finds (suc fuel) view pos r e =
    by_round (walk_directory-Finds fuel view) (walk_directory-Round fuel view pos) e
  where
    by_round :
        {m : Zip DetectZipEncryptionResult}
        → ((p : ℕ) (r : DetectZipEncryptionResult)
            → walk_directory fuel view p ≡ ok r
            → Finds view p r)
        → Round fuel view pos m
        → m ≡ ok r
        → Finds view pos r
    by_round ih (stop no_header) e =
        subst (Finds view pos) (ok_injective e) (nothing pos here no_header)
    by_round ih (found h s at f) e =
        let (is, extra) = header_strength-some view pos h s f in
        subst (Finds view pos) (ok_injective e) (
          aes pos _ s here
            (record { header = h; at = at; aes = is; extra = extra; offset_eq = refl }))
    by_round ih (skip h at f) e =
        Finds-next h at (header_strength-none view pos h f) (ih (next_header pos h) r e)

-- The loop over a central directory ends for every view, and returns the first entry with an AES
-- strength, with its offset and that strength; it returns "not encrypted" exactly after a row of
-- headers without one that ends where no whole header stands.
pub walk_directory-first :
    (view : List ℕ)
    → (r : DetectZipEncryptionResult) × (walk_directory (suc (length view)) view 0 ≡ ok r)
      × Finds view 0 r
walk_directory-first view =
    let (r, e) = walk_directory-IsOk (suc (length view)) view 0 (omega arith) (omega arith) in
    (r, e, walk_directory-Finds (suc (length view)) view 0 r e)
