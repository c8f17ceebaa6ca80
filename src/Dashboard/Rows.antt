-- ===== src/Dashboard/Rows.antt =====
-- `filteredSubscriptions` of `useDashboardFilters`: which subscriptions it shows and in which
-- order. `Array.prototype.sort` is a stable sort; it is an insertion here.
use text.Mathlib.Text.{find?}
use subdux.Base.{
  Bool, List, NumMap, Option, String, TextMap, [], concat, false, if◌then◌else◌, ltb, none, not,
  some, str_eq, true, ℕ, ◌&&◌, ◌+◌, ◌==◌, ◌||◌, ◌∷◌,
}
use subdux.Dashboard.Amount.{
  Numbers, Sign, equal, flip, get_comparable_subscription_amount, greater, less,
}
use subdux.Dashboard.Selection.{
  Filters, SortDirection, SortField, asc, by_amount, by_created_at, by_name, by_next_billing_date,
  desc, is_empty, member,
}
use subdux.Subscription.{
  Category, Subscription, active, get_category_label, get_subscription_renewal_mode,
  get_subscription_status, is_recurring, mode_eq, status_eq,
}

-- What the hook is given: the library functions on texts (`trim`, `toLowerCase`, `localeCompare`
-- with the language, `Date`), the numbers, and its options. `date_time` is the time of a Date,
-- counted from the earliest one, so that a time before 1970 is a number too; only differences of
-- times are used.
pub record DashboardOptions (R : Type 0) : Type 0 where
  pub trim : String → String
  pub to_lower_case : String → String
  pub normalize_currency : String → String
  pub locale_compare : String → String → Sign
  pub date_time : String → Option ℕ
  pub t : String → String
  pub numbers : Numbers R
  pub categories : List Category
  pub display_disabled_subscriptions_last : Bool
  pub exchange_rates : TextMap R
  pub preferred_currency : String

-- `new Map(...)`, in which the last of equal ids counts.
unfoldable pub category_map : List Category → NumMap Category
category_map [] id = none
category_map (c ∷ cs) id = elim (category_map cs id) [
  | some found ↦ some found
  | none ↦ if id == c.id then some c else none
]

abbrev max_safe_integer : ℕ
max_safe_integer = 9007199254740991

-- The earliest time of a Date lies so many milliseconds before 1970.
abbrev earliest : ℕ
earliest = 8640000000000000

abbrev pub difference : ℕ → ℕ → Sign
difference m n = if ltb m n then less else if m == n then equal else greater

abbrev includes : String → String → Bool
includes s part = elim (find? s part) [ none ↦ false | some i ↦ true ]

abbrev pub or_max : Option ℕ → ℕ
or_max none = earliest + max_safe_integer
or_max (some ts) = ts

abbrev pub directed : SortDirection → Sign → Sign
directed asc sign = sign
directed desc sign = flip sign

-- The result, or on a tie the order of the ids.
abbrev pub or_tie : Sign → Sign → Sign
or_tie equal tie = tie
or_tie less tie = less
or_tie greater tie = greater

abbrev pub paid_by : Filters → Option ℕ → Bool
paid_by f none = f.include_no_payment_method
paid_by f (some id) = member (λ m n. m == n) id f.selected_payment_method_ids

module _ {R : Type 0} (o : DashboardOptions R) where
  unfoldable pub to_timestamp : Option String → ℕ
  to_timestamp none = earliest + max_safe_integer
  to_timestamp (some value) =
      if str_eq value "" then earliest + max_safe_integer else or_max (o.date_time value)

  abbrev pub label_or : String → Option Category → String
  label_or text none = text
  label_or text (some c) = get_category_label o.t o.trim c

  unfoldable pub get_subscription_category_name : Subscription R → String
  get_subscription_category_name s = elim s.category_id [
    | none ↦ o.trim s.category
    | some id ↦ label_or (o.trim s.category) (category_map o.categories id)
  ]

  unfoldable pub matches_search : Filters → Subscription R → Bool
  matches_search f s =
      let term = o.to_lower_case (o.trim f.search_term) in
      str_eq term ""
      || includes
          (o.to_lower_case (
            concat s.name
              (concat " " (concat (get_subscription_category_name s) (concat " " s.notes)))))
          term

  unfoldable pub matches_status : Filters → Subscription R → Bool
  matches_status f s = member status_eq (get_subscription_status s) f.selected_statuses

  unfoldable pub matches_renewal_mode : Filters → Subscription R → Bool
  matches_renewal_mode f s =
      if not (is_empty f.selected_renewal_modes) && is_recurring s.billing_type
      then member mode_eq (get_subscription_renewal_mode s) f.selected_renewal_modes
      else true

  unfoldable pub matches_category : Filters → Subscription R → Bool
  matches_category f s =
      let name = get_subscription_category_name s in
      if not (is_empty f.selected_categories) || f.include_no_category
      then (if not (str_eq (o.trim name) "")
          then member str_eq name f.selected_categories
          else f.include_no_category)
      else true

  unfoldable pub matches_payment_method : Filters → Subscription R → Bool
  matches_payment_method f s =
      if not (is_empty f.selected_payment_method_ids) || f.include_no_payment_method
      then paid_by f s.payment_method_id
      else true

  unfoldable pub matches : Filters → Subscription R → Bool
  matches f s =
      matches_search f s
      && matches_status f s
      && matches_renewal_mode f s
      && matches_category f s
      && matches_payment_method f s

  unfoldable pub compare_subscriptions : SortField → Subscription R → Subscription R → Sign
  compare_subscriptions by_name a b = o.locale_compare a.name b.name
  compare_subscriptions by_created_at a b =
      difference (to_timestamp (some a.created_at)) (to_timestamp (some b.created_at))
  compare_subscriptions by_amount a b =
      o.numbers.difference
        (get_comparable_subscription_amount o.numbers o.normalize_currency a o.preferred_currency
          o.exchange_rates)
        (get_comparable_subscription_amount o.numbers o.normalize_currency b o.preferred_currency
          o.exchange_rates)
  compare_subscriptions by_next_billing_date a b =
      difference (to_timestamp a.next_billing_date) (to_timestamp b.next_billing_date)

  unfoldable pub compare_rows : Filters → Subscription R → Subscription R → Sign
  compare_rows f a b =
      let a_status = get_subscription_status a in
      if o.display_disabled_subscriptions_last
        && not (status_eq a_status (get_subscription_status b))
      then (if status_eq a_status active then less else greater)
      else directed f.sort_direction
          (or_tie (compare_subscriptions f.sort_field a b) (difference a.id b.id))

abbrev pub is_greater : Sign → Bool
is_greater greater = true
is_greater less = false
is_greater equal = false

module _ {A : Type 0} (compare : A → A → Sign) where
  unfoldable pub sort_insert : A → List A → List A
  sort_insert a [] = a ∷ []
  sort_insert a (b ∷ bs) =
      let rest = sort_insert a bs in if is_greater (compare a b) then b ∷ rest else a ∷ b ∷ bs

  unfoldable pub sort : List A → List A
  sort [] = []
  sort (a ∷ bs) = sort_insert a (sort bs)

abbrev pub filter {ℓ} : {A : Type ℓ} → (A → Bool) → List A → List A
filter p [] = []
filter p (a ∷ bs) = let rest = filter p bs in if p a then a ∷ rest else rest

unfoldable pub filtered_subscriptions :
    {R : Type 0} → DashboardOptions R → Filters → List (Subscription R) → List (Subscription R)
filtered_subscriptions o f subscriptions =
    sort (compare_rows o f) (filter (matches o f) subscriptions)
