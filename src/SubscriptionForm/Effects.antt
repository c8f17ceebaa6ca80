-- ===== src/SubscriptionForm/Effects.antt =====
-- The state of the form, its setters, and the effects that a render runs. The effects of one
-- render all read the values of that render (`seen`) and set fields of the state one after another.
use subdux.Base.{
  Bool, List, Option, String, [], any, false, if◌then◌else◌, map, none, not, some, str_eq, true, ℕ,
  ◌&&◌, ◌||◌, ◌∷◌,
}
use subdux.Subscription.{PaymentMethod, Subscription, active, cancel_at_period_end, ended}
use subdux.SubscriptionForm.Values.{Runtime, SubscriptionFormValues, build_initial_values, or_text}

pub record UserCurrency : Type 0 where
  pub id : ℕ
  pub code : String
  pub symbol : String
  pub alias : String
  pub sort_order : ℕ

pub record CurrencyOption : Type 0 where
  pub code : String
  pub label : String

-- `F` is the browser's type of files.
pub record FormState (F : Type 0) : Type 0 where
  pub values : SubscriptionFormValues
  pub loading : Bool
  pub error : String
  pub icon_file : Option F
  pub was_open : Bool

abbrev pub default_currency_fallback : List String
default_currency_fallback = "USD" ∷ "EUR" ∷ "GBP" ∷ "CNY" ∷ "JPY" ∷ []

-- The label of an option; `preset_alias` is the alias that `getPresetCurrencyMeta` gives.
module _ (trim : String → String) (preset_alias : String → Option String) where
  abbrev pub option_label : String → String → String
  option_label code alias = or_text (some (trim alias)) (or_text (preset_alias code) code)

  unfoldable pub currency_options : List UserCurrency → List CurrencyOption
  currency_options [] =
      map (λ code. record { code = code; label = or_text (preset_alias code) code })
        default_currency_fallback
  currency_options (item ∷ items) =
      map (λ c. record { code = c.code; label = option_label (c.code) (c.alias) }) (item ∷ items)

-- `currencyOptions[0]?.code || DEFAULT_CURRENCY_FALLBACK[0] || ""`.
unfoldable pub default_currency_code : List CurrencyOption → String
default_currency_code [] = "USD"
default_currency_code (option ∷ options) = or_text (some (option.code)) "USD"

-- What the effects read of the component's properties.
pub record FormProps (R : Type 0) : Type 0 where
  pub is_open : Bool
  pub subscription : Option (Subscription R)
  pub options : List CurrencyOption
  pub payment_methods : List PaymentMethod

module _ {F : Type 0} where
  unfoldable pub handle_icon_change : String → FormState F → FormState F
  handle_icon_change value s = record s {
    values = record (s.values) { icon = value };
    icon_file = none;
  }

  unfoldable pub handle_icon_file_selected : F → FormState F → FormState F
  handle_icon_file_selected file s = record s {
    values = record (s.values) { icon = "" };
    icon_file = some file;
  }

module _ {R : Type 0} (runtime : Runtime R) (props : FormProps R) where
  abbrev pub has_currency : String → Bool
  has_currency currency = any (λ option. str_eq (option.code) currency) (props.options)

  -- Another currency than the offered ones becomes the first of them.
  unfoldable pub currency_effect :
      SubscriptionFormValues → SubscriptionFormValues → SubscriptionFormValues
  currency_effect seen values = elim (props.options) [
    | [] ↦ values
    | option ∷ options ↦
        if not (props.is_open) || has_currency (seen.currency)
        then values
        else record values { currency = option.code }
  ]

  abbrev pub has_payment_method : String → Bool
  has_payment_method id =
      any (λ item. str_eq (runtime.nat_text (item.id)) id) (props.payment_methods)

  unfoldable pub payment_method_effect :
      SubscriptionFormValues → SubscriptionFormValues → SubscriptionFormValues
  payment_method_effect seen values =
      if not (props.is_open)
        || str_eq (seen.payment_method_id) ""
        || has_payment_method (seen.payment_method_id)
      then values
      else record values { payment_method_id = "" }

  -- A subscription that ends with its period ends on the next billing date.
  unfoldable pub ends_at_effect :
      SubscriptionFormValues → SubscriptionFormValues → SubscriptionFormValues
  ends_at_effect seen values = if not (props.is_open) then values else elim (seen.status) [
    | active ↦ elim (seen.renewal_mode) [
      | cancel_at_period_end ↦
          if str_eq (seen.ends_at) (seen.next_billing_date)
          then values
          else record values { ends_at = seen.next_billing_date }
      | _ ↦ values
    ]
    | ended ↦
        if str_eq (seen.ends_at) ""
        then record values { ends_at = or_text (some (seen.next_billing_date)) (runtime.today_key) }
        else values
  ]

module _ {R F : Type 0} (runtime : Runtime R) (props : FormProps R) where
  unfoldable pub initial_state : FormState F
  initial_state = record {
    values =
        build_initial_values runtime (props.subscription) (default_currency_code (props.options));
    loading = false;
    error = "";
    icon_file = none;
    was_open = false;
  }

  -- The first effect: a form that opens starts anew, a closed one has no file.
  unfoldable pub opening_effect : FormState F → FormState F
  opening_effect s =
      let started =
        if props.is_open && not (s.was_open)
        then record initial_state { was_open = s.was_open }
        else s in
      if props.is_open
      then record started { was_open = true }
      else record started { icon_file = none; was_open = false }

  -- The four effects of one render, in their order.
  unfoldable pub run_effects : FormState F → FormState F
  run_effects s =
      let seen = s.values in
      let opened = opening_effect s in
      record opened {
        values = ends_at_effect runtime props seen (
            payment_method_effect runtime props seen
              (currency_effect runtime props seen (opened.values)));
      }
