-- ===== src/Dashboard/Selection.antt =====
-- The state of `useDashboardFilters` and its handlers. A Set is the list of its members in the
-- order in which they came.
use subdux.Base.{
  Bool, List, String, [], false, if◌then◌else◌, length, not, str_eq, true, ℕ, ◌++◌, ◌==◌, ◌||◌, ◌∷◌,
}
use subdux.Subscription.{SubscriptionRenewalMode, SubscriptionStatus, active, mode_eq, status_eq}

pub data SortField : Type 0 where
  by_next_billing_date by_name by_created_at by_amount : SortField

pub data SortDirection : Type 0 where
  asc desc : SortDirection

unfoldable pub field_eq : SortField → SortField → Bool
field_eq by_next_billing_date by_next_billing_date = true
field_eq by_name by_name = true
field_eq by_created_at by_created_at = true
field_eq by_amount by_amount = true
field_eq _ _ = false

abbrev pub is_asc : SortDirection → Bool
is_asc asc = true
is_asc desc = false

abbrev pub default_sort_field : SortField
default_sort_field = by_next_billing_date

abbrev pub default_sort_direction : SortDirection
default_sort_direction = asc

pub record Filters : Type 0 where
  pub search_term : String
  pub selected_statuses : List SubscriptionStatus
  pub selected_categories : List String
  pub include_no_category : Bool
  pub selected_payment_method_ids : List ℕ
  pub selected_renewal_modes : List SubscriptionRenewalMode
  pub include_no_payment_method : Bool
  pub sort_field : SortField
  pub sort_direction : SortDirection

abbrev pub initial : Filters
initial = record {
  search_term = "";
  selected_statuses = active ∷ [];
  selected_categories = [];
  include_no_category = false;
  selected_payment_method_ids = [];
  selected_renewal_modes = [];
  include_no_payment_method = false;
  sort_field = default_sort_field;
  sort_direction = default_sort_direction;
}

module _ {A : Type 0} (eq : A → A → Bool) where
  unfoldable pub member : A → List A → Bool
  member a [] = false
  member a (b ∷ bs) = if eq a b then true else member a bs

  -- `next.add` and `next.delete`.
  unfoldable pub insert : A → List A → List A
  insert a bs = if member a bs then bs else bs ++ a ∷ []

  unfoldable pub remove : A → List A → List A
  remove a [] = []
  remove a (b ∷ bs) = let rest = remove a bs in if eq a b then rest else b ∷ rest

  unfoldable pub toggled : A → Bool → List A → List A
  toggled a checked bs = if checked then insert a bs else remove a bs

abbrev pub or_active : List SubscriptionStatus → List SubscriptionStatus
or_active [] = active ∷ []
or_active (s ∷ ss) = s ∷ ss

-- What the toolbar does.
pub data FilterEvent : Type 0 where
  set_search_term : String → FilterEvent
  toggle_status : SubscriptionStatus → Bool → FilterEvent
  toggle_category : String → Bool → FilterEvent
  toggle_no_category toggle_no_payment_method : Bool → FilterEvent
  toggle_payment_method : ℕ → Bool → FilterEvent
  toggle_renewal_mode : SubscriptionRenewalMode → Bool → FilterEvent
  select_sort_field : SortField → FilterEvent
  reset : FilterEvent

abbrev pub other_direction : SortDirection → SortDirection
other_direction asc = desc
other_direction desc = asc

unfoldable pub handle_sort_field_select : SortField → Filters → Filters
handle_sort_field_select field f =
    if field_eq f.sort_field field
    then record f { sort_direction = other_direction f.sort_direction }
    else record f { sort_field = field; sort_direction = default_sort_direction }

unfoldable pub handle_toggle_status : SubscriptionStatus → Bool → Filters → Filters
handle_toggle_status status checked f = record f {
  selected_statuses = or_active (toggled status_eq status checked f.selected_statuses);
}

unfoldable pub handle : FilterEvent → Filters → Filters
handle (set_search_term value) f = record f { search_term = value }
handle (toggle_status status checked) f = handle_toggle_status status checked f
handle (toggle_category category checked) f = record f {
  selected_categories = toggled str_eq category checked f.selected_categories;
}
handle (toggle_no_category checked) f = record f { include_no_category = checked }
handle (toggle_no_payment_method checked) f = record f { include_no_payment_method = checked }
handle (toggle_payment_method id checked) f = record f {
  selected_payment_method_ids = toggled (λ m n. m == n) id checked f.selected_payment_method_ids;
}
handle (toggle_renewal_mode mode checked) f = record f {
  selected_renewal_modes = toggled mode_eq mode checked f.selected_renewal_modes;
}
handle (select_sort_field field) f = handle_sort_field_select field f
handle reset f = initial

unfoldable pub handle_all : List FilterEvent → Filters → Filters
handle_all [] f = f
handle_all (e ∷ es) f = handle_all es (handle e f)

unfoldable pub is_empty {ℓ} : {A : Type ℓ} → List A → Bool
is_empty [] = true
is_empty (x ∷ xs) = false

unfoldable pub has_active_filters : (String → String) → Filters → Bool
has_active_filters trim f =
    not (str_eq (trim f.search_term) "")
    || not (length f.selected_statuses == 1)
    || not (member status_eq active f.selected_statuses)
    || not (is_empty f.selected_categories)
    || f.include_no_category
    || not (is_empty f.selected_payment_method_ids)
    || not (is_empty f.selected_renewal_modes)
    || f.include_no_payment_method
    || not (field_eq f.sort_field default_sort_field)
    || not (is_asc f.sort_direction)
