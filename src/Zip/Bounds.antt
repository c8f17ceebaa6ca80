-- ===== src/Zip/Bounds.antt =====
-- The reads and the loops of web/src/lib/zip-encryption.ts.
use Prim.Native.Nat.{min}
use subdux.Base.{
  Bool, Bool-cases, IsOk, List, Option, arith, bind-IsOk, drop, false, get_elem?-lt, if-IsOk, inl,
  inr, leb, leb→le, length, length-drop, length-take, none, ok, refl, some, suc, true, zero, ℕ,
  ◌&&◌, ◌+◌, ◌-◌, ◌<◌, ◌==◌, ◌≡◌, ◌≤◌,
}
use subdux.Zip.Detect.{
  CentralHeader, aes_extra_field_id, central_header_signature, eocd_signature, find_eocd_offset,
  header_strength, is_aes, next_header, not_encrypted, parse_aes_strength_from_extra,
  read_central_header, read_strength, scan_eocd, walk_directory, walk_extra,
}
use subdux.Zip.View.{Zip, get_uint16, get_uint32, get_uint8, slice}

-- The same for a branch by `elim`, which leaves the branch not taken alone.
pub if_elim-IsOk :
    {A : Type 0} (c : Bool) {x y : Zip A} → IsOk x → IsOk y → IsOk (elim c [ true ↦ x | false ↦ y ])
if_elim-IsOk true hx hy = hx
if_elim-IsOk false hx hy = hy

pub some_elim-IsOk :
    {A B : Type 0} (o : Option A) {f : A → Zip B} {y : Zip B}
    → ((a : A) → IsOk (f a))
    → IsOk y
    → IsOk (elim o [ some a ↦ f a | none ↦ y ])
some_elim-IsOk none hf hy = hy
some_elim-IsOk (some a) hf hy = hf a

pub sub-eq-zero_of_short : (n : ℕ) → leb 22 n ≡ false → n + 1 - 22 ≡ 0
sub-eq-zero_of_short n h = ground arith

pub get_uint8-ok : (view : List ℕ) (o : ℕ) → o < length view → (b : ℕ) × (get_uint8 view o ≡ ok b)
unfolding get_uint8
get_uint8-ok view o h = let (b, e) = get_elem?-lt view o h in (b, rw e)

pub get_uint16-ok :
    (view : List ℕ) (o : ℕ) → o + 2 ≤ length view → (b : ℕ) × (get_uint16 view o ≡ ok b)
unfolding get_uint16
get_uint16-ok view o h =
    bind-IsOk _ (get_uint8-ok view o (omega arith))
      λ low. bind-IsOk _ (get_uint8-ok view (o + 1) (omega arith)) λ high. (_, refl)

pub get_uint32-IsOk : (view : List ℕ) (o : ℕ) → o + 4 ≤ length view → IsOk (get_uint32 view o)
unfolding get_uint32
get_uint32-IsOk view o h =
    bind-IsOk _ (get_uint16-ok view o (omega arith))
      λ low. bind-IsOk _ (get_uint16-ok view (o + 2) (omega arith)) λ high. (_, refl)

pub length-slice :
    (bytes : List ℕ) (start end' : ℕ)
    → length (slice bytes start end') ≡ min (end' - start) (length bytes - start)
length-slice bytes start end' =
    omega (arith, length-take (end' - start) (drop start bytes), length-drop start bytes)

pub scan_eocd-IsOk : (view : List ℕ) (k : ℕ) → k + 21 ≤ length view → IsOk (scan_eocd view k)
unfolding scan_eocd
scan_eocd-IsOk view zero h = (none, refl)
scan_eocd-IsOk view (suc o) h = bind-IsOk _ (get_uint32-IsOk view o (omega arith)) λ signature.
    if_elim-IsOk (signature == eocd_signature) (some o, refl) (scan_eocd-IsOk view o (omega arith))

pub find_eocd_offset-IsOk : (view : List ℕ) → IsOk (find_eocd_offset view)
unfolding find_eocd_offset
find_eocd_offset-IsOk view = elim (Bool-cases (leb 22 (length view))) [
  | inl p ↦ scan_eocd-IsOk view _ (ground arith)
  | inr p ↦ (none, rw (sub-eq-zero_of_short (length view) p) (unfold scan_eocd in refl))
]

read_strength-IsOk : (view : List ℕ) (pos : ℕ) → IsOk (read_strength view pos)
unfolding read_strength
read_strength-IsOk view pos = elim (Bool-cases (leb (pos + 4 + 5) (length view))) [
  | inl p ↦ let (b, e) = get_uint8-ok view (pos + 4 + 4) (ground arith) in (some b, rw (p, e))
  | inr p ↦ (none, rw p)
]

-- The fuel is enough while it and the position together pass the view's end.
walk_extra-IsOk :
    (fuel : ℕ) (view : List ℕ) (end' pos : ℕ)
    → 0 < fuel
    → length view < fuel + pos
    → IsOk (walk_extra fuel view end' pos)
unfolding walk_extra
walk_extra-IsOk zero view end' pos p h = absurd (omega arith)
walk_extra-IsOk (suc fuel) view end' pos p h =
    elim (Bool-cases (leb (pos + 4) end' && leb (pos + 4) (length view))) [
      | inr q ↦ (none, rw (q, walk_extra))
      | inl q ↦
          let room : pos + 4 ≤ length view = ground arith in
          rw (q, walk_extra)
            (bind-IsOk _ (get_uint16-ok view pos (omega arith)) λ id.
              bind-IsOk _ (get_uint16-ok view (pos + 2) (omega arith)) λ data_size.
                if_elim-IsOk (id == aes_extra_field_id) (read_strength-IsOk view pos) (
                  walk_extra-IsOk fuel view end' (pos + (4 + data_size)) (omega arith)
                    (omega arith)))
    ]

pub read_central_header-IsOk :
    (view : List ℕ) (pos : ℕ) → pos + 46 ≤ length view → IsOk (read_central_header view pos)
unfolding read_central_header
read_central_header-IsOk view pos h =
    bind-IsOk _ (get_uint16-ok view (pos + 8) (omega arith)) λ gp_flag.
      bind-IsOk _ (get_uint16-ok view (pos + 10) (omega arith)) λ compression_method.
        bind-IsOk _ (get_uint16-ok view (pos + 28) (omega arith)) λ name_len.
          bind-IsOk _ (get_uint16-ok view (pos + 30) (omega arith)) λ extra_len.
            bind-IsOk _ (get_uint16-ok view (pos + 32) (omega arith)) λ comment_len.
              bind-IsOk _ (get_uint32-IsOk view (pos + 42) (omega arith)) λ offset. (_, refl)

pub header_strength-IsOk :
    (view : List ℕ) (pos : ℕ) (h : CentralHeader) → IsOk (header_strength view pos h)
unfolding header_strength parse_aes_strength_from_extra
header_strength-IsOk view pos h =
    if-IsOk (is_aes h)
      (walk_extra-IsOk _ view _ (pos + 46 + h.name_len) (omega arith) (omega arith)) (none, refl)

pub walk_directory-IsOk :
    (fuel : ℕ) (view : List ℕ) (pos : ℕ)
    → 0 < fuel
    → length view < fuel + pos
    → IsOk (walk_directory fuel view pos)
unfolding walk_directory
walk_directory-IsOk zero view pos p h = absurd (omega arith)
walk_directory-IsOk (suc fuel) view pos p h = elim (Bool-cases (leb (pos + 46) (length view))) [
  | inr q ↦ (not_encrypted, rw (q, walk_directory))
  | inl q ↦
      let room : pos + 46 ≤ length view = leb→le _ _ q in
      rw (q, walk_directory)
        (bind-IsOk _ (get_uint32-IsOk view pos (omega arith)) λ signature.
          if_elim-IsOk (signature == central_header_signature)
            (bind-IsOk _ (read_central_header-IsOk view pos room) λ c.
              bind-IsOk _ (header_strength-IsOk view pos c) λ strength.
                some_elim-IsOk strength (λ s. (_, refl))
                  (walk_directory-IsOk fuel view (next_header pos c) (omega arith) (omega arith)))
            (not_encrypted, refl))
]
