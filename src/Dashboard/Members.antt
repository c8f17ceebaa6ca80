-- ===== src/Dashboard/Members.antt =====
-- The sets of hooks/use-dashboard-filters.ts: membership without Boolean tests.
use subdux.Base.{
  Bool, List, [], arith, false, if◌then◌else◌, inl, inr, refl, true, ℕ, ◌==◌, ◌↔◌, ◌∷◌, ◌≡◌, ◌⊎◌,
}
use subdux.Dashboard.Selection.{member}
use subdux.Subscription.{SubscriptionRenewalMode, SubscriptionStatus, mode_eq, status_eq}

module _ {A : Type 0} where
  abbrev pub IsIn : A → List A → Type 0
  IsIn a [] = ⊥
  IsIn a (b ∷ bs) = (a ≡ b) ⊎ IsIn a bs

  -- `Set.has`, by an equality test.
  pub member_iff :
      (eq : A → A → Bool) (a : A) (bs : List A)
      → ((b : A) → (eq a b ≡ true) ↔ (a ≡ b))
      → (member eq a bs ≡ true) ↔ IsIn a bs
  unfolding member
  member_iff eq a [] h = ((λ e. cc), (λ e. elim e [ ]))
  member_iff eq a (b ∷ bs) h = by_test (eq a b) (h b) (member_iff eq a bs h)
    where
      by_test :
          (c : Bool)
          → (c ≡ true) ↔ (a ≡ b)
          → (member eq a bs ≡ true) ↔ IsIn a bs
          → ((if c then true else member eq a bs) ≡ true) ↔ ((a ≡ b) ⊎ IsIn a bs)
      by_test true k ih = ((λ e. inl (k.0 refl)), (λ e. refl))
      by_test false k ih = (
        (λ e. inr (ih.0 e)),
        (λ e. elim e [ inl q ↦ absurd (false_true (k.1 q)) | inr m ↦ ih.1 m ]),
      )
        where
          false_true : false ≡ true → ⊥
          false_true q = cc

pub status_eq_iff : (a b : SubscriptionStatus) → (status_eq a b ≡ true) ↔ (a ≡ b)
unfolding status_eq
status_eq_iff a b = ground arith

pub mode_eq_iff : (a b : SubscriptionRenewalMode) → (mode_eq a b ≡ true) ↔ (a ≡ b)
unfolding mode_eq
mode_eq_iff a b = ground arith

pub id_eq_iff : (a b : ℕ) → ((a == b) ≡ true) ↔ (a ≡ b)
id_eq_iff a b = ground arith
