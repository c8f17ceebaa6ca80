-- ===== src/Zip/Eocd.antt =====
-- `findEocdOffset` of web/src/lib/zip-encryption.ts.
use native.Mathlib.Decide.{dec_lt}
use subdux.Base.{
  ==_iff, Bool-cases, List, Option, ap, arith, false, inl, inr, leb, length, none, ok, ok_injective,
  some, subst, suc, sym, zero, ℕ, ◌+◌, ◌<◌, ◌==◌, ◌∙◌, ◌≡◌, ◌≤◌,
}
use subdux.Zip.Bounds.{find_eocd_offset-IsOk, get_uint32-IsOk, sub-eq-zero_of_short}
use subdux.Zip.Detect.{eocd_signature, find_eocd_offset, scan_eocd}
use subdux.Zip.View.{get_uint32}

-- The signature stands at `o`, with room for the fixed record.
abbrev pub IsEocd : List ℕ → ℕ → Type 0
IsEocd view o = (o + 22 ≤ length view) × (get_uint32 view o ≡ ok eocd_signature)

-- The last such offset, or none where there is no such offset.
abbrev pub IsLastEocd : List ℕ → Option ℕ → Type 0
IsLastEocd view none = (o : ℕ) → ¬ IsEocd view o
IsLastEocd view (some o) = IsEocd view o × ((p : ℕ) → o < p → ¬ IsEocd view p)

not-IsEocd :
    (view : List ℕ) (k s : ℕ)
    → get_uint32 view k ≡ ok s
    → (s == eocd_signature) ≡ false
    → ¬ IsEocd view k
not-IsEocd view k s read miss =
    λ here. let same : s ≡ eocd_signature = ok_injective (sym read ∙ here.1) in ground arith

not-IsEocd_from :
    (view : List ℕ) (k p : ℕ)
    → ¬ IsEocd view k
    → (suc k ≤ p → ¬ IsEocd view p)
    → k ≤ p
    → ¬ IsEocd view p
not-IsEocd_from view k p here above le q = elim (dec_lt k p) [
  | yes lt ↦ above lt q
  | no ge ↦ let same : p ≡ k = omega arith in here (subst (IsEocd view) same q)
]

-- The scan from `k` finds the last offset below `k`.
scan_eocd-IsLastEocd :
    (view : List ℕ) (k : ℕ) (r : Option ℕ)
    → k + 21 ≤ length view
    → ((p : ℕ) → k ≤ p → ¬ IsEocd view p)
    → scan_eocd view k ≡ ok r
    → IsLastEocd view r
unfolding scan_eocd
scan_eocd-IsLastEocd view zero r h above e =
    subst (IsLastEocd view) (ok_injective e) (λ p q. above p (omega arith) q)
scan_eocd-IsLastEocd view (suc k) r h above e =
    let (s, read) = get_uint32-IsOk view k (omega arith) in
    elim (Bool-cases (s == eocd_signature)) [
      | inl hit ↦
          let found : some k ≡ r = ground arith in
          let here : s ≡ eocd_signature = (==_iff _ _).0 hit in
          subst (IsLastEocd view) found
            (((omega arith), read ∙ ap ok here), λ p lt. above p (omega arith))
      | inr miss ↦
          scan_eocd-IsLastEocd view k r (omega arith)
            (λ p. not-IsEocd_from view k p (not-IsEocd view k s read miss) (above p)) (ground arith)
    ]

-- `findEocdOffset` returns, for every view, the last offset at which the signature stands with
-- room for the 22-byte record, and -1 exactly where there is no such offset.
pub find_eocd_offset-IsLastEocd :
    (view : List ℕ) → (r : Option ℕ) × (find_eocd_offset view ≡ ok r) × IsLastEocd view r
unfolding find_eocd_offset scan_eocd
find_eocd_offset-IsLastEocd view =
    let (r, e) = find_eocd_offset-IsOk view in
    (
      r,
      e,
      elim (Bool-cases (leb 22 (length view))) [
        | inl p ↦
            scan_eocd-IsLastEocd view _ r (ground arith)
              (λ o le q. let room = q.0 in absurd (omega arith)) e
        | inr p ↦
            let empty : ok none ≡ ok r = rw (sub-eq-zero_of_short (length view) p) at e in
            subst (IsLastEocd view) (ok_injective empty)
              (λ o q. let room = q.0 in absurd (ground arith))
      ],
    )

-- An offset that is found leaves room for the record.
pub find_eocd_offset-le :
    (view : List ℕ) (o : ℕ) → find_eocd_offset view ≡ ok (some o) → o + 22 ≤ length view
find_eocd_offset-le view o e =
    let (r, e', last) = find_eocd_offset-IsLastEocd view in
    (subst (IsLastEocd view) (ok_injective (sym e' ∙ e)) last).0.0
