-- ===== src/Dashboard/Order.antt =====
-- `filteredSubscriptions` of hooks/use-dashboard-filters.ts: the order of the rows.
use mathlib.Core.List.{Perm}
use mathlib.Core.List.Perm
use subdux.Base.{
  All, Bool, Bool-cases, List, String, [], arith, false, if◌then◌else◌, inl, inr, refl, some, true,
  ℕ, ◌&&◌, ◌∷◌, ◌≡◌,
}
use subdux.Dashboard.Amount.{Sign, flip}
use subdux.Dashboard.Rows.{
  DashboardOptions, compare_rows, compare_subscriptions, difference, filter, filtered_subscriptions,
  is_greater, matches, sort, sort_insert, to_timestamp,
}
use subdux.Dashboard.Selection.{
  Filters, SortField, by_amount, by_created_at, by_name, by_next_billing_date,
}
use subdux.Subscription.{Subscription, is_subscription_active, is_subscription_ended, status_eq}

module _ {A : Type 0} (compare : A → A → Sign) where
  -- No element is greater than the next.
  abbrev pub Ordered : List A → Type 0
  Ordered [] = Unit
  Ordered (a ∷ []) = Unit
  Ordered (a ∷ b ∷ bs) = (is_greater (compare a b) ≡ false) × Ordered (b ∷ bs)

  sort_insert-Perm : (a : A) (bs : List A) → Perm (sort_insert compare a bs) (a ∷ bs)
  unfolding sort_insert
  sort_insert-Perm a [] = Perm.refl (a ∷ [])
  sort_insert-Perm a (b ∷ bs) = by_test (is_greater (compare a b)) (sort_insert-Perm a bs)
    where
      by_test :
          (c : Bool)
          → Perm (sort_insert compare a bs) (a ∷ bs)
          → Perm (if c then b ∷ sort_insert compare a bs else a ∷ b ∷ bs) (a ∷ b ∷ bs)
      by_test true h = Perm.trans (Perm.cons b h) (Perm.swap a b bs)
      by_test false h = Perm.refl (a ∷ b ∷ bs)

  pub sort-Perm : (bs : List A) → Perm (sort compare bs) bs
  unfolding sort
  sort-Perm [] = Perm.refl []
  sort-Perm (b ∷ bs) =
      Perm.trans (sort_insert-Perm b (sort compare bs)) (Perm.cons b (sort-Perm bs))

  module _ (antisymmetric : (a b : A) → compare b a ≡ flip (compare a b)) where
    -- Inserting puts the new element or the old head first.
    cons_insert-Ordered :
        (b a : A) (bs : List A)
        → is_greater (compare b a) ≡ false
        → Ordered (b ∷ bs)
        → Ordered (sort_insert compare a bs)
        → Ordered (b ∷ sort_insert compare a bs)
    unfolding sort_insert
    cons_insert-Ordered b a [] h o i = (h, tt)
    cons_insert-Ordered b a (c ∷ cs) h (p, o) i = by_test (is_greater (compare a c)) i
      where
        by_test :
            (t : Bool)
            → Ordered (if t then c ∷ sort_insert compare a cs else a ∷ c ∷ cs)
            → Ordered (b ∷ (if t then c ∷ sort_insert compare a cs else a ∷ c ∷ cs))
        by_test true i = (p, i)
        by_test false i = (h, i)

    tail-Ordered : (b : A) (bs : List A) → Ordered (b ∷ bs) → Ordered bs
    tail-Ordered b [] o = tt
    tail-Ordered b (c ∷ cs) o = o.1

    greater_flips : (a b : A) → is_greater (compare a b) ≡ true → is_greater (compare b a) ≡ false
    greater_flips a b h = ground (arith, antisymmetric a b)

    sort_insert-Ordered : (a : A) (bs : List A) → Ordered bs → Ordered (sort_insert compare a bs)
    unfolding sort_insert
    sort_insert-Ordered a [] o = tt
    sort_insert-Ordered a (b ∷ bs) o =
        by_test (is_greater (compare a b)) refl (sort_insert-Ordered a bs (tail-Ordered b bs o))
      where
        by_test :
            (t : Bool)
            → is_greater (compare a b) ≡ t
            → Ordered (sort_insert compare a bs)
            → Ordered (if t then b ∷ sort_insert compare a bs else a ∷ b ∷ bs)
        by_test true h i = cons_insert-Ordered b a bs (greater_flips a b h) o i
        by_test false h i = (h, o)

    pub sort-Ordered : (bs : List A) → Ordered (sort compare bs)
    unfolding sort
    sort-Ordered [] = tt
    sort-Ordered (b ∷ bs) = sort_insert-Ordered b (sort compare bs) (sort-Ordered bs)

-- The comparisons that the options bring turn round with their arguments.
pub record IsAntisymmetric {R : Type 0} (o : DashboardOptions R) : Type 0 where
  pub names : (a b : String) → o.locale_compare b a ≡ flip (o.locale_compare a b)
  pub amounts : (a b : R) → o.numbers.difference b a ≡ flip (o.numbers.difference a b)

difference_flips : (m n : ℕ) → difference n m ≡ flip (difference m n)
difference_flips m n = ground arith

module _ {R : Type 0} (o : DashboardOptions R) (anti : IsAntisymmetric o) where
  compare_subscriptions_flips :
      (field : SortField) (a b : Subscription R)
      → compare_subscriptions o field b a ≡ flip (compare_subscriptions o field a b)
  unfolding compare_subscriptions
  compare_subscriptions_flips by_name a b = anti.names a.name b.name
  compare_subscriptions_flips by_created_at a b =
      difference_flips (to_timestamp o (some a.created_at)) (to_timestamp o (some b.created_at))
  compare_subscriptions_flips by_amount a b = anti.amounts _ _
  compare_subscriptions_flips by_next_billing_date a b =
      difference_flips (to_timestamp o a.next_billing_date) (to_timestamp o b.next_billing_date)

  compare_rows_flips :
      (f : Filters) (a b : Subscription R) → compare_rows o f b a ≡ flip (compare_rows o f a b)
  unfolding compare_rows status_eq
  compare_rows_flips f a b =
      ground (arith, compare_subscriptions_flips f.sort_field a b, difference_flips a.id b.id)

  -- The rows are a rearrangement in which no comparison of two in succession is above 0.
  pub filtered_subscriptions-Ordered :
      (f : Filters) (subscriptions : List (Subscription R))
      → Perm (filtered_subscriptions o f subscriptions) (filter (matches o f) subscriptions)
        × Ordered (compare_rows o f) (filtered_subscriptions o f subscriptions)
  unfolding filtered_subscriptions
  filtered_subscriptions-Ordered f subscriptions = (
    sort-Perm (compare_rows o f) (filter (matches o f) subscriptions),
    sort-Ordered (compare_rows o f) (compare_rows_flips f) (filter (matches o f) subscriptions),
  )

module _ {R : Type 0} where
  abbrev pub is_before : Subscription R → Subscription R → Bool
  is_before s t = is_subscription_ended s && is_subscription_active t

  -- After a subscription that has ended none is active.
  abbrev pub EndedLast : List (Subscription R) → Type 0
  EndedLast [] = Unit
  EndedLast (s ∷ ss) = All (λ t. is_before s t ≡ false) ss × EndedLast ss

  All-after :
      (s : Subscription R) (ss : List (Subscription R))
      → is_subscription_ended s ≡ false
      → All (λ t. is_before s t ≡ false) ss
  All-after s [] h = tt
  All-after s (t ∷ ts) h = (ground arith, All-after s ts h)

  All-like :
      (s t : Subscription R) (ss : List (Subscription R))
      → is_subscription_ended t ≡ true
      → All (λ u. is_before t u ≡ false) ss
      → All (λ u. is_before s u ≡ false) ss
  All-like s t [] e h = tt
  All-like s t (u ∷ us) e (h, hs) = (ground arith, All-like s t us e hs)

module _ {R : Type 0} (o : DashboardOptions R) (f : Filters) where
  ended_then_ended :
      (s t : Subscription R)
      → o.display_disabled_subscriptions_last ≡ true
      → is_greater (compare_rows o f s t) ≡ false
      → is_subscription_ended s ≡ true
      → is_subscription_ended t ≡ true
  unfolding compare_rows is_subscription_ended status_eq
  ended_then_ended s t last h e = ground arith

  Ordered-EndedLast :
      (ss : List (Subscription R))
      → o.display_disabled_subscriptions_last ≡ true
      → Ordered (compare_rows o f) ss
      → EndedLast ss
  Ordered-EndedLast [] last h = tt
  Ordered-EndedLast (s ∷ []) last h = (tt, tt)
  Ordered-EndedLast (s ∷ t ∷ ts) last (h, hs) =
      let rest = Ordered-EndedLast (t ∷ ts) last hs in
      (
        elim (Bool-cases (is_subscription_ended s)) [
          | inl e ↦
              let e' = ended_then_ended s t last h e in
              (
                unfold is_subscription_ended is_subscription_active status_eq in ground arith,
                All-like s t ts e' rest.0,
              )
          | inr e ↦ All-after s (t ∷ ts) e
        ],
        rest,
      )

-- With the option to display disabled subscriptions last, none that is active comes after one that
-- has ended, whatever the field and the direction, where the comparisons of names and amounts turn
-- round with their arguments.
pub filtered_subscriptions-EndedLast :
    {R : Type 0} (o : DashboardOptions R) (f : Filters) (subscriptions : List (Subscription R))
    → IsAntisymmetric o
    → o.display_disabled_subscriptions_last ≡ true
    → EndedLast (filtered_subscriptions o f subscriptions)
filtered_subscriptions-EndedLast o f subscriptions anti last =
    Ordered-EndedLast o f (filtered_subscriptions o f subscriptions) last
      (filtered_subscriptions-Ordered o anti f subscriptions).1
