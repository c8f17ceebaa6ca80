-- ===== src/Zip/Slices.antt =====
-- A range of a range of the file is a range of the file.
use native.Mathlib.Nat.{suc-add, zero-add}
use subdux.Base.{List, [], ap, arith, drop, refl, suc, take, zero, ℕ, ◌+◌, ◌-◌, ◌∙◌, ◌∷◌, ◌≡◌, ◌≤◌}
use subdux.Zip.View.{slice}

module _ {A : Type 0} where
  take-take : (n m : ℕ) (xs : List A) → n ≤ m → take n (take m xs) ≡ take n xs
  take-take zero m xs h = refl
  take-take (suc n) zero xs h = absurd (omega arith)
  take-take (suc n) (suc m) [] h = refl
  take-take (suc n) (suc m) (x ∷ xs) h = ap (◌∷◌ x) (take-take n m xs (omega arith))

  drop-nil : (n : ℕ) → drop {A = A} n [] ≡ []
  drop-nil zero = refl
  drop-nil (suc n) = refl

  drop-take : (n m : ℕ) (xs : List A) → drop n (take (n + m) xs) ≡ take m (drop n xs)
  drop-take zero m xs = rw zero-add
  drop-take (suc n) zero [] = rw suc-add refl
  drop-take (suc n) (suc m) [] = rw suc-add refl
  drop-take (suc n) m (x ∷ xs) = rw suc-add (drop-take n m xs)

  drop-drop : (n m : ℕ) (xs : List A) → drop n (drop m xs) ≡ drop (m + n) xs
  drop-drop n zero xs = rw zero-add
  drop-drop n (suc m) [] = rw suc-add (drop-nil n)
  drop-drop n (suc m) (x ∷ xs) = rw suc-add (drop-drop n m xs)

-- The first `k` bytes of the `k + 2` at `s`.
pub slice-slice_head :
    (bytes : List ℕ) (s k : ℕ) → slice (slice bytes s (s + k + 2)) 0 k ≡ slice bytes s (s + k)
slice-slice_head bytes s k =
    let e : s + k + 2 - s ≡ k + 2 = omega arith in
    let f : s + k - s ≡ k = omega arith in
    let g : k - 0 ≡ k = omega arith in
    rw (e, f, g) (take-take k (k + 2) (drop s bytes) (omega arith))

-- The last two of them.
pub slice-slice_tail :
    (bytes : List ℕ) (s k : ℕ)
    → slice (slice bytes s (s + k + 2)) k (k + 2) ≡ slice bytes (s + k) (s + k + 2)
slice-slice_tail bytes s k =
    let e : s + k + 2 - s ≡ k + 2 = omega arith in
    let f : k + 2 - k ≡ 2 = omega arith in
    let g : s + k + 2 - (s + k) ≡ 2 = omega arith in
    rw (e, f, g)
      (ap (take 2) (drop-take k 2 (drop s bytes))
        ∙ take-take 2 2 _ (omega arith)
        ∙ ap (take 2) (drop-drop k s bytes))
