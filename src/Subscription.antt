-- ===== src/Subscription.antt =====
-- web/src/types/subscription.ts: a subscription; features/subscriptions/subscription-lifecycle.ts:
-- its status and renewal; lib/preset-labels.ts: the labels of categories and payment methods. A
-- field that the server may leave empty is an option here, none where the value is falsy.
use subdux.Base.{
  Bool, Option, String, concat, false, if◌then◌else◌, none, not, some, str_eq, true, ℕ, ◌&&◌,
}

pub data SubscriptionStatus : Type 0 where
  active ended : SubscriptionStatus

pub data SubscriptionRenewalMode : Type 0 where
  auto_renew manual_renew cancel_at_period_end : SubscriptionRenewalMode

-- The one billing type, and any other text that the server may send.
pub data BillingType : Type 0 where
  recurring : BillingType
  other_billing : String → BillingType

pub data RecurrenceType : Type 0 where
  interval monthly_date yearly_date no_recurrence : RecurrenceType

pub data IntervalUnit : Type 0 where
  day week month year no_unit : IntervalUnit

-- `R` is the type of amounts.
pub record Subscription (R : Type 0) : Type 0 where
  pub id : ℕ
  pub name : String
  pub amount : R
  pub currency : String
  pub status : Option SubscriptionStatus
  pub renewal_mode : Option SubscriptionRenewalMode
  pub ends_at : Option String
  pub billing_type : BillingType
  pub recurrence_type : RecurrenceType
  pub interval_count : Option ℕ
  pub interval_unit : IntervalUnit
  pub monthly_day : Option ℕ
  pub yearly_month : Option ℕ
  pub yearly_day : Option ℕ
  pub next_billing_date : Option String
  pub category : String
  pub category_id : Option ℕ
  pub payment_method_id : Option ℕ
  pub notify_enabled : Option Bool
  pub notify_days_before : Option ℕ
  pub icon : String
  pub url : String
  pub notes : String
  pub created_at : String
  pub updated_at : String

pub record Category : Type 0 where
  pub id : ℕ
  pub name : String
  pub system_key : Option String
  pub name_customized : Bool
  pub display_order : ℕ

pub record PaymentMethod : Type 0 where
  pub id : ℕ
  pub name : String
  pub system_key : Option String
  pub name_customized : Bool
  pub icon : String
  pub sort_order : ℕ

unfoldable pub status_eq : SubscriptionStatus → SubscriptionStatus → Bool
status_eq active active = true
status_eq ended ended = true
status_eq _ _ = false

unfoldable pub mode_eq : SubscriptionRenewalMode → SubscriptionRenewalMode → Bool
mode_eq auto_renew auto_renew = true
mode_eq manual_renew manual_renew = true
mode_eq cancel_at_period_end cancel_at_period_end = true
mode_eq _ _ = false

abbrev pub is_recurring : BillingType → Bool
is_recurring recurring = true
is_recurring (other_billing b) = false

module _ {R : Type 0} where
  unfoldable pub get_subscription_status : Subscription R → SubscriptionStatus
  get_subscription_status s = elim s.status [ some status ↦ status | none ↦ active ]

  unfoldable pub is_subscription_active : Subscription R → Bool
  is_subscription_active s = status_eq (get_subscription_status s) active

  unfoldable pub is_subscription_ended : Subscription R → Bool
  is_subscription_ended s = status_eq (get_subscription_status s) ended

  unfoldable pub get_subscription_renewal_mode : Subscription R → SubscriptionRenewalMode
  get_subscription_renewal_mode s = elim s.renewal_mode [
    | some mode ↦ mode
    | none ↦
        if is_recurring s.billing_type && is_subscription_active s
        then auto_renew
        else if is_subscription_ended s
        then cancel_at_period_end
        else manual_renew
  ]

  unfoldable pub get_subscription_ends_at : Subscription R → Option String
  get_subscription_ends_at s = elim s.ends_at [
    | some date ↦ some date
    | none ↦ if is_subscription_ended s then s.next_billing_date else none
  ]

  unfoldable pub has_future_recurring_schedule : Subscription R → Bool
  has_future_recurring_schedule s =
      is_recurring s.billing_type
      && is_subscription_active s
      && mode_eq (get_subscription_renewal_mode s) auto_renew

  unfoldable pub has_future_charge : Subscription R → Bool
  has_future_charge s =
      is_subscription_active s
      && not (mode_eq (get_subscription_renewal_mode s) cancel_at_period_end)

  unfoldable pub has_active_recurring_cycle : Subscription R → Bool
  has_active_recurring_cycle s = is_recurring s.billing_type && is_subscription_active s

-- `t` with the empty text as its default; `trim` is the one of JavaScript.
module _ (t trim : String → String) where
  unfoldable pub resolve_preset_label : String → Option String
  resolve_preset_label key =
      let translated = trim (t key) in if str_eq translated "" then none else some translated

  abbrev or_name : String → Option String → String
  or_name name none = name
  or_name name (some label) = label

  unfoldable pub get_category_label : Category → String
  get_category_label c = elim c.system_key [
    | none ↦ c.name
    | some key ↦
        if not (str_eq key "") && not c.name_customized
        then or_name c.name (resolve_preset_label (concat "presets.category." key))
        else c.name
  ]

  unfoldable pub get_payment_method_label : PaymentMethod → String
  get_payment_method_label m = elim m.system_key [
    | none ↦ m.name
    | some key ↦
        if not (str_eq key "") && not m.name_customized
        then or_name m.name (resolve_preset_label (concat "presets.payment_method." key))
        else m.name
  ]
