-- ===== src/Dashboard/Filters.antt =====
-- The toolbar's events on the filters of hooks/use-dashboard-filters.ts, and the filters at rest.
use text.Mathlib.TextEquality.{eq_iff}
use subdux.Base.{
  Bool, List, String, [], arith, false, if◌then◌else◌, length, refl, str_eq, true, ℕ, ◌++◌, ◌==◌,
  ◌||◌, ◌∷◌, ◌≡◌,
}
use subdux.Dashboard.Rows.{
  DashboardOptions, matches, matches_category, matches_payment_method, matches_renewal_mode,
  matches_search, matches_status,
}
use subdux.Dashboard.Selection.{
  FilterEvent, Filters, SortField, default_sort_direction, field_eq, handle, handle_all,
  handle_sort_field_select, handle_toggle_status, has_active_filters, initial, insert, is_empty,
  member, or_active, other_direction, remove, reset, select_sort_field, set_search_term,
  toggle_category, toggle_no_category, toggle_no_payment_method, toggle_payment_method,
  toggle_renewal_mode, toggle_status, toggled,
}
use subdux.Subscription.{
  Subscription, SubscriptionRenewalMode, SubscriptionStatus, active, ended, get_subscription_status,
  is_subscription_active, mode_eq, status_eq,
}

-- No member stands twice.
abbrev pub Distinct : {A : Type 0} → (A → A → Bool) → List A → Type 0
Distinct eq [] = Unit
Distinct eq (a ∷ bs) = (member eq a bs ≡ false) × Distinct eq bs

module _ {A : Type 0} (eq : A → A → Bool) (eq_symm : (a b : A) → eq a b ≡ eq b a) where
  member-append : (c a : A) (bs : List A) → member eq c (bs ++ a ∷ []) ≡ member eq c bs || eq c a
  unfolding member
  member-append c a [] = ground arith
  member-append c a (b ∷ bs) = ground (arith, member-append c a bs)

  append-Distinct :
      (a : A) (bs : List A) → member eq a bs ≡ false → Distinct eq bs → Distinct eq (bs ++ a ∷ [])
  unfolding member
  append-Distinct a [] h d = (refl, tt)
  append-Distinct a (b ∷ bs) h (n, d) =
      (ground (arith, member-append b a bs, eq_symm a b), append-Distinct a bs (ground arith) d)

  member-remove :
      (c a : A) (bs : List A) → member eq c bs ≡ false → member eq c (remove eq a bs) ≡ false
  unfolding member remove
  member-remove c a [] h = refl
  member-remove c a (b ∷ bs) h = ground (arith, member-remove c a bs)

  remove-Distinct : (a : A) (bs : List A) → Distinct eq bs → Distinct eq (remove eq a bs)
  unfolding remove
  remove-Distinct a [] d = tt
  remove-Distinct a (b ∷ bs) (n, d) =
      by_test (eq a b) (member-remove b a bs n) (remove-Distinct a bs d)
    where
      by_test :
          (c : Bool)
          → member eq b (remove eq a bs) ≡ false
          → Distinct eq (remove eq a bs)
          → Distinct eq (if c then remove eq a bs else b ∷ remove eq a bs)
      by_test true m r = r
      by_test false m r = (m, r)

  toggled-Distinct :
      (a : A) (checked : Bool) (bs : List A)
      → Distinct eq bs
      → Distinct eq (toggled eq a checked bs)
  unfolding toggled insert
  toggled-Distinct a false bs d = remove-Distinct a bs d
  toggled-Distinct a true bs d = by_member (member eq a bs) refl
    where
      by_member : (c : Bool) → member eq a bs ≡ c → Distinct eq (if c then bs else bs ++ a ∷ [])
      by_member true h = d
      by_member false h = append-Distinct a bs h d

status_symm : (a b : SubscriptionStatus) → status_eq a b ≡ status_eq b a
unfolding status_eq
status_symm active active = refl
status_symm active ended = refl
status_symm ended active = refl
status_symm ended ended = refl

mode_symm : (a b : SubscriptionRenewalMode) → mode_eq a b ≡ mode_eq b a
unfolding mode_eq
mode_symm a b = ground arith

str_symm : (a b : String) → str_eq a b ≡ str_eq b a
str_symm a b = ground (arith, eq_iff a b, eq_iff b a)

num_symm : (a b : ℕ) → (a == b) ≡ (b == a)
num_symm a b = ground arith

or_active-Distinct :
    (ss : List SubscriptionStatus) → Distinct status_eq ss → Distinct status_eq (or_active ss)
or_active-Distinct [] d = (unfold member in refl, tt)
or_active-Distinct (s ∷ ss) d = d

or_active-is_empty : (ss : List SubscriptionStatus) → is_empty (or_active ss) ≡ false
unfolding is_empty
or_active-is_empty [] = refl
or_active-is_empty (s ∷ ss) = refl

-- A status is selected, and no member of a selection stands twice.
pub record AreSelections (statuses : List SubscriptionStatus) (categories : List String)
    (methods : List ℕ) (modes : List SubscriptionRenewalMode) : Type 0 where
  pub some_status : is_empty statuses ≡ false
  pub distinct_statuses : Distinct status_eq statuses
  pub distinct_categories : Distinct str_eq categories
  pub distinct_methods : Distinct (λ m n. m == n) methods
  pub distinct_modes : Distinct mode_eq modes

abbrev pub IsSelection : Filters → Type 0
IsSelection f =
    AreSelections f.selected_statuses f.selected_categories f.selected_payment_method_ids
      f.selected_renewal_modes

initial-IsSelection : IsSelection initial
unfolding is_empty member
initial-IsSelection = record {
  some_status = refl;
  distinct_statuses = (refl, tt);
  distinct_categories = tt;
  distinct_methods = tt;
  distinct_modes = tt;
}

select_sort-IsSelection :
    (field : SortField) (f : Filters)
    → IsSelection f
    → IsSelection (handle_sort_field_select field f)
unfolding handle_sort_field_select
select_sort-IsSelection field f h = by_field (field_eq f.sort_field field)
  where
    by_field :
        (b : Bool)
        → IsSelection (
            if b
            then record f { sort_direction = other_direction f.sort_direction }
            else record f { sort_field = field; sort_direction = default_sort_direction })
    by_field true = h
    by_field false = h

handle-IsSelection : (e : FilterEvent) (f : Filters) → IsSelection f → IsSelection (handle e f)
unfolding handle handle_toggle_status
handle-IsSelection (set_search_term value) f h = h
handle-IsSelection (toggle_status status checked) f h = record {
  some_status = or_active-is_empty (toggled status_eq status checked f.selected_statuses);
  distinct_statuses = or_active-Distinct (toggled status_eq status checked f.selected_statuses) (
      toggled-Distinct status_eq status_symm status checked f.selected_statuses
        h.distinct_statuses);
  distinct_categories = h.distinct_categories;
  distinct_methods = h.distinct_methods;
  distinct_modes = h.distinct_modes;
}
handle-IsSelection (toggle_category category checked) f h = record {
  distinct_categories =
      toggled-Distinct str_eq str_symm category checked f.selected_categories h.distinct_categories;
  some_status = h.some_status;
  distinct_statuses = h.distinct_statuses;
  distinct_methods = h.distinct_methods;
  distinct_modes = h.distinct_modes;
}
handle-IsSelection (toggle_no_category checked) f h = h
handle-IsSelection (toggle_no_payment_method checked) f h = h
handle-IsSelection (toggle_payment_method id checked) f h = record {
  distinct_methods =
      toggled-Distinct (λ m n. m == n) num_symm id checked f.selected_payment_method_ids
        h.distinct_methods;
  some_status = h.some_status;
  distinct_statuses = h.distinct_statuses;
  distinct_categories = h.distinct_categories;
  distinct_modes = h.distinct_modes;
}
handle-IsSelection (toggle_renewal_mode mode checked) f h = record {
  distinct_modes =
      toggled-Distinct mode_eq mode_symm mode checked f.selected_renewal_modes h.distinct_modes;
  some_status = h.some_status;
  distinct_statuses = h.distinct_statuses;
  distinct_categories = h.distinct_categories;
  distinct_methods = h.distinct_methods;
}
handle-IsSelection (select_sort_field field) f h = select_sort-IsSelection field f h
handle-IsSelection reset f h = initial-IsSelection

handle_all-keeps :
    (es : List FilterEvent) (f : Filters) → IsSelection f → IsSelection (handle_all es f)
unfolding handle_all
handle_all-keeps [] f h = h
handle_all-keeps (e ∷ es) f h = handle_all-keeps es (handle e f) (handle-IsSelection e f h)

-- Whatever the user does on the toolbar of a new dashboard, at least one status stays selected and
-- no set of selections has a member twice.
pub handle_all-IsSelection : (es : List FilterEvent) → IsSelection (handle_all es initial)
handle_all-IsSelection es = handle_all-keeps es initial initial-IsSelection

only_active :
    (ss : List SubscriptionStatus) (status : SubscriptionStatus)
    → (length ss == 1) ≡ true
    → member status_eq active ss ≡ true
    → member status_eq status ss ≡ status_eq status active
unfolding member status_eq
only_active [] status l m = cc
only_active (active ∷ []) active l m = refl
only_active (active ∷ []) ended l m = refl
only_active (ended ∷ []) status l m = cc
only_active (s ∷ t ∷ ss) status l m = ground arith

-- While no filter is active, the dashboard shows the active subscriptions and no other, provided
-- that the empty text in lower case is empty.
pub matches-inactive :
    {R : Type 0} (o : DashboardOptions R) (f : Filters) (s : Subscription R)
    → o.to_lower_case "" ≡ ""
    → has_active_filters o.trim f ≡ false
    → matches o f s ≡ is_subscription_active s
unfolding has_active_filters matches matches_search matches_status matches_renewal_mode
    matches_category matches_payment_method is_subscription_active is_empty
matches-inactive o f s lower inactive = ground (
  arith,
  lower,
  inactive,
  only_active f.selected_statuses (get_subscription_status s),
  eq_iff (o.trim f.search_term) "",
  eq_iff (o.to_lower_case (o.trim f.search_term)) "",
)
