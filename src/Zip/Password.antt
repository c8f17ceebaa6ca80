-- ===== src/Zip/Password.antt =====
-- `constantTimeEqual` of web/src/lib/zip-encryption.ts.
use Prim.Native.Nat.{bit_or, bit_xor}
use subdux.Base.{
  List, [], arith, false, if◌then◌else◌, length, refl, subst, true, ℕ, ◌==◌, ◌↔◌, ◌∷◌, ◌≡◌,
}
use subdux.Base.Bits.{bit_or-eq-zero, bit_xor-eq-zero, bit_xor_self}
use subdux.Zip.Verify.{accumulate_diff, constant_time_equal}

-- The loop's accumulator ends at zero exactly if it began there and the arrays agree.
accumulate_diff-eq-zero :
    (d : ℕ) (a b : List ℕ) → length a ≡ length b → accumulate_diff d a b ≡ 0 → (d ≡ 0) × (a ≡ b)
unfolding accumulate_diff
accumulate_diff-eq-zero d [] [] h e = (e, refl)
accumulate_diff-eq-zero d [] (y ∷ b) h e = absurd (omega arith)
accumulate_diff-eq-zero d (x ∷ a) [] h e = absurd (omega arith)
accumulate_diff-eq-zero d (x ∷ a) (y ∷ b) h e =
    let (step, rest) = accumulate_diff-eq-zero (bit_or d (bit_xor x y)) a b (omega arith) e in
    let (old, new) = bit_or-eq-zero d (bit_xor x y) step in
    (old, cc (bit_xor-eq-zero x y new, rest))

accumulate_diff_self : (a : List ℕ) → accumulate_diff 0 a a ≡ 0
unfolding accumulate_diff
accumulate_diff_self [] = refl
accumulate_diff_self (x ∷ a) = rw bit_xor_self (accumulate_diff_self a)

-- `constantTimeEqual` decides equality of its arrays, whatever their lengths.
pub constant_time_equal_iff : (a b : List ℕ) → (constant_time_equal a b ≡ true) ↔ (a ≡ b)
unfolding constant_time_equal
constant_time_equal_iff a b = (
  sound,
  λ e.
      subst (λ c. (if length a == length c then accumulate_diff 0 a c == 0 else false) ≡ true) e
        (ground (arith, accumulate_diff_self a)),
)
  where
    sound : constant_time_equal a b ≡ true → a ≡ b
    sound e =
        let same : length a ≡ length b = ground arith in
        (accumulate_diff-eq-zero 0 a b same (ground arith)).1
