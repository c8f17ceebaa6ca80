-- ===== src/Dashboard/Placed.antt =====
-- `filteredSubscriptions` of hooks/use-dashboard-filters.ts: which row stands before which, said
-- without the comparison that the code sorts by.
use mathlib.Core.List.{Perm}
use subdux.Base.{
  Bool, List, [], arith, false, if◌then◌else◌, inl, inr, not, refl, some, true, ◌&&◌, ◌<◌, ◌∷◌, ◌≡◌,
  ◌≤◌, ◌⊎◌, ◌↔◌,
}
use subdux.Dashboard.Amount.{Sign, equal, get_comparable_subscription_amount, greater, less}
use subdux.Dashboard.Order.{IsAntisymmetric, Ordered, filtered_subscriptions-Ordered}
use subdux.Dashboard.Rows.{
  DashboardOptions, compare_rows, compare_subscriptions, difference, directed, filter,
  filtered_subscriptions, is_greater, matches, or_tie, to_timestamp,
}
use subdux.Dashboard.Wanted.{IsWanted, matches_iff}
use subdux.Dashboard.Selection.{
  Filters, SortDirection, SortField, asc, by_amount, by_created_at, by_name, by_next_billing_date,
  desc,
}
use subdux.Subscription.{
  Subscription, SubscriptionStatus, active, ended, get_subscription_status, status_eq,
}

module _ {R : Type 0} (o : DashboardOptions R) where
  abbrev amount_of : Subscription R → R
  amount_of s =
      get_comparable_subscription_amount o.numbers o.normalize_currency s o.preferred_currency
        o.exchange_rates

  -- The first subscription is below the second in the field: its name comes first, its date is
  -- earlier, its amount less. A missing date is later than all others.
  abbrev pub IsBelow : SortField → Subscription R → Subscription R → Type 0
  IsBelow by_name a b = o.locale_compare a.name b.name ≡ less
  IsBelow by_created_at a b =
      to_timestamp o (some a.created_at) < to_timestamp o (some b.created_at)
  IsBelow by_amount a b = o.numbers.difference (amount_of a) (amount_of b) ≡ less
  IsBelow by_next_billing_date a b =
      to_timestamp o a.next_billing_date < to_timestamp o b.next_billing_date

  abbrev pub IsLevel : SortField → Subscription R → Subscription R → Type 0
  IsLevel by_name a b = o.locale_compare a.name b.name ≡ equal
  IsLevel by_created_at a b =
      to_timestamp o (some a.created_at) ≡ to_timestamp o (some b.created_at)
  IsLevel by_amount a b = o.numbers.difference (amount_of a) (amount_of b) ≡ equal
  IsLevel by_next_billing_date a b =
      to_timestamp o a.next_billing_date ≡ to_timestamp o b.next_billing_date

  -- Upwards by the field and then by the ids, or downwards by both.
  abbrev pub IsPlaced : SortDirection → SortField → Subscription R → Subscription R → Type 0
  IsPlaced asc field a b = IsBelow field a b ⊎ (IsLevel field a b × (a.id ≤ b.id))
  IsPlaced desc field a b = IsBelow field b a ⊎ (IsLevel field a b × (b.id ≤ a.id))

  -- `a` may stand directly before `b`: of an active and an ended subscription the active one, where
  -- the option is set, and else as the field and the direction say.
  abbrev pub StandsBefore : Filters → Subscription R → Subscription R → Type 0
  StandsBefore f a b =
      ((o.display_disabled_subscriptions_last ≡ true)
        × (get_subscription_status a ≡ active)
        × (get_subscription_status b ≡ ended))
      ⊎ (((o.display_disabled_subscriptions_last ≡ false)
            ⊎ (get_subscription_status a ≡ get_subscription_status b))
          × IsPlaced f.sort_direction f.sort_field a b)

  abbrev pub AreInPlace : Filters → List (Subscription R) → Type 0
  AreInPlace f [] = Unit
  AreInPlace f (a ∷ []) = Unit
  AreInPlace f (a ∷ b ∷ bs) = StandsBefore f a b × AreInPlace f (b ∷ bs)

  -- What a sign says of the field.
  abbrev Says : SortField → Subscription R → Subscription R → Sign → Type 0
  Says field a b less = IsBelow field a b
  Says field a b equal = IsLevel field a b
  Says field a b greater = IsBelow field b a

  placed :
      (d : SortDirection) (field : SortField) (a b : Subscription R) (sign : Sign)
      → Says field a b sign
      → is_greater (directed d (or_tie sign (difference a.id b.id))) ≡ false
      → IsPlaced d field a b
  placed asc field a b less h e = inl h
  placed asc field a b equal h e = inr (h, ground arith)
  placed asc field a b greater h e = absurd cc
  placed desc field a b less h e = absurd cc
  placed desc field a b equal h e = inr (h, ground arith)
  placed desc field a b greater h e = inl h

  module _ (anti : IsAntisymmetric o) where
    compare_subscriptions-Says :
        (field : SortField) (a b : Subscription R)
        → Says field a b (compare_subscriptions o field a b)
    unfolding compare_subscriptions
    compare_subscriptions-Says by_name a b = by_sign (o.locale_compare a.name b.name) refl
      where
        by_sign : (sign : Sign) → o.locale_compare a.name b.name ≡ sign → Says by_name a b sign
        by_sign less e = e
        by_sign equal e = e
        by_sign greater e = rw (anti.names a.name b.name, e) refl
    compare_subscriptions-Says by_amount a b =
        by_sign (o.numbers.difference (amount_of a) (amount_of b)) refl
      where
        by_sign :
            (sign : Sign)
            → o.numbers.difference (amount_of a) (amount_of b) ≡ sign
            → Says by_amount a b sign
        by_sign less e = e
        by_sign equal e = e
        by_sign greater e = rw (anti.amounts (amount_of a) (amount_of b), e) refl
    compare_subscriptions-Says by_created_at a b =
        by_sign
          (difference (to_timestamp o (some a.created_at)) (to_timestamp o (some b.created_at)))
          refl
      where
        by_sign :
            (sign : Sign)
            → difference (to_timestamp o (some a.created_at)) (to_timestamp o (some b.created_at))
              ≡ sign
            → Says by_created_at a b sign
        by_sign less e = ground arith
        by_sign equal e = ground arith
        by_sign greater e = ground arith
    compare_subscriptions-Says by_next_billing_date a b =
        by_sign
          (difference (to_timestamp o a.next_billing_date) (to_timestamp o b.next_billing_date))
          refl
      where
        by_sign :
            (sign : Sign)
            → difference (to_timestamp o a.next_billing_date) (to_timestamp o b.next_billing_date)
              ≡ sign
            → Says by_next_billing_date a b sign
        by_sign less e = ground arith
        by_sign equal e = ground arith
        by_sign greater e = ground arith

    compare_rows-StandsBefore :
        (f : Filters) (a b : Subscription R)
        → is_greater (compare_rows o f a b) ≡ false
        → StandsBefore f a b
    unfolding compare_rows status_eq
    compare_rows-StandsBefore f a b =
        by_test o.display_disabled_subscriptions_last (get_subscription_status a)
          (get_subscription_status b) refl refl refl
      where
        level :
            is_greater (
                directed f.sort_direction
                  (or_tie (compare_subscriptions o f.sort_field a b) (difference a.id b.id)))
              ≡ false
            → IsPlaced f.sort_direction f.sort_field a b
        level =
            placed f.sort_direction f.sort_field a b (compare_subscriptions o f.sort_field a b)
              (compare_subscriptions-Says f.sort_field a b)

        by_test :
            (last : Bool) (s t : SubscriptionStatus)
            → o.display_disabled_subscriptions_last ≡ last
            → get_subscription_status a ≡ s
            → get_subscription_status b ≡ t
            → is_greater (
                if last && not (status_eq s t)
                then (if status_eq s active then less else greater)
                else directed f.sort_direction
                    (or_tie (compare_subscriptions o f.sort_field a b) (difference a.id b.id)))
              ≡ false
            → StandsBefore f a b
        by_test false s t el es et h = inr (inl el, level h)
        by_test true active active el es et h = inr (inr (rw (es, et) refl), level h)
        by_test true active ended el es et h = inl (el, es, et)
        by_test true ended active el es et h = absurd cc
        by_test true ended ended el es et h = inr (inr (rw (es, et) refl), level h)

    Ordered-AreInPlace :
        (f : Filters) (ss : List (Subscription R)) → Ordered (compare_rows o f) ss → AreInPlace f ss
    Ordered-AreInPlace f [] h = tt
    Ordered-AreInPlace f (a ∷ []) h = tt
    Ordered-AreInPlace f (a ∷ b ∷ bs) (h, hs) =
        (compare_rows-StandsBefore f a b h, Ordered-AreInPlace f (b ∷ bs) hs)

-- The dashboard shows the subscriptions that the filters want, each as often as it is given: their
-- texts contain the search term, their status is chosen, and so are their renewal mode if they
-- recur, their category or its absence, and their payment method or its absence, where anything of
-- these is chosen. Of two rows in succession the first is below the second in the chosen field or, on a tie, has no greater
-- id, and the other way round downwards; with the option to display disabled subscriptions last,
-- this is so among the active and among the ended ones, and the active stand before the ended. The
-- comparisons of names and amounts have to turn round with their arguments.
pub filtered_subscriptions-AreInPlace :
    {R : Type 0} (o : DashboardOptions R) (f : Filters) (subscriptions : List (Subscription R))
    → IsAntisymmetric o
    → Perm (filtered_subscriptions o f subscriptions) (filter (matches o f) subscriptions)
      × ((s : Subscription R) → (matches o f s ≡ true) ↔ IsWanted o f s)
      × AreInPlace o f (filtered_subscriptions o f subscriptions)
filtered_subscriptions-AreInPlace o f subscriptions anti =
    let sorted = filtered_subscriptions-Ordered o anti f subscriptions in
    (
      sorted.0,
      matches_iff o f,
      Ordered-AreInPlace o anti f (filtered_subscriptions o f subscriptions) sorted.1,
    )
