-- ===== src/SubscriptionForm/Settle.antt =====
-- What each effect of a render leaves alone where the values are right already.
use package.text.Mathlib.TextEquality.{eq_iff}
use subdux.Base.{
  Bool, List, String, [], arith, false, if◌then◌else◌, inl, inr, not, refl, str_eq, true, ◌||◌, ◌∷◌,
  ◌≡◌, ◌≢◌, ◌⊎◌,
}
use subdux.Subscription.{
  SubscriptionRenewalMode, SubscriptionStatus, active, auto_renew, cancel_at_period_end, ended,
  manual_renew,
}
use subdux.SubscriptionForm.Effects.{
  CurrencyOption, FormProps, currency_effect, ends_at_effect, has_currency, has_payment_method,
  payment_method_effect,
}
use subdux.SubscriptionForm.Values.{Runtime, SubscriptionFormValues}

-- The currency is offered, where any is.
abbrev pub IsOffered :
    {R : Type 0} → Runtime R → FormProps R → List CurrencyOption → String → Type 0
IsOffered runtime props [] currency = Unit
IsOffered runtime props (option ∷ options) currency = has_currency runtime props currency ≡ true

-- The payment method is one of the list, or none.
abbrev pub IsListed : {R : Type 0} → Runtime R → FormProps R → String → Type 0
IsListed runtime props id = (id ≡ "") ⊎ (has_payment_method runtime props id ≡ true)

-- The end of a subscription that ends with its period is its next billing date, and one that has
-- ended has an end.
abbrev pub EndsRightly : SubscriptionStatus → SubscriptionRenewalMode → String → String → Type 0
EndsRightly active auto_renew ends_at next = Unit
EndsRightly active manual_renew ends_at next = Unit
EndsRightly active cancel_at_period_end ends_at next = ends_at ≡ next
EndsRightly ended mode ends_at next = ends_at ≢ ""

pub record IsSettled {R : Type 0} (runtime : Runtime R) (props : FormProps R)
    (values : SubscriptionFormValues) : Type 0 where
  pub offered : IsOffered runtime props (props.options) (values.currency)
  pub listed : IsListed runtime props (values.payment_method_id)
  pub ends :
      EndsRightly (values.status) (values.renewal_mode) (values.ends_at) (values.next_billing_date)

module _ {R : Type 0} (runtime : Runtime R) (props : FormProps R) where
  -- The three effects on the values of one render.
  abbrev pub settle : SubscriptionFormValues → SubscriptionFormValues
  settle v =
      ends_at_effect runtime props v
        (payment_method_effect runtime props v (currency_effect runtime props v v))

  pub currency_effect_self :
      (v w : SubscriptionFormValues)
      → IsOffered runtime props (props.options) (v.currency)
      → currency_effect runtime props v w ≡ w
  unfolding currency_effect
  currency_effect_self v w h = by_options (props.options) h
    where
      by_options :
          (options : List CurrencyOption)
          → IsOffered runtime props options (v.currency)
          → (elim options as (λ o. SubscriptionFormValues) [
            | [] ↦ w
            | option ∷ others ↦
                if not (props.is_open) || has_currency runtime props (v.currency)
                then w
                else record w { currency = option.code }
          ])
            ≡ w
      by_options [] k = refl
      by_options (option ∷ options) k = rw k (either (not (props.is_open)))
        where
          either : (b : Bool) → (if b || true then w else record w { currency = option.code }) ≡ w
          either true = refl
          either false = refl

  pub payment_method_effect_self :
      (v w : SubscriptionFormValues)
      → IsListed runtime props (v.payment_method_id)
      → payment_method_effect runtime props v w ≡ w
  unfolding payment_method_effect
  payment_method_effect_self v w (inl e) =
      by_test (not (props.is_open)) (str_eq (v.payment_method_id) "") (rw e refl)
    where
      by_test :
          (b c : Bool)
          → c ≡ true
          → (if b || c || has_payment_method runtime props (v.payment_method_id)
              then w
              else record w { payment_method_id = "" })
            ≡ w
      by_test true c q = refl
      by_test false c q = rw q refl
  payment_method_effect_self v w (inr e) =
      rw e (by_test (not (props.is_open)) (str_eq (v.payment_method_id) ""))
    where
      by_test :
          (b c : Bool) → (if b || c || true then w else record w { payment_method_id = "" }) ≡ w
      by_test true c = refl
      by_test false true = refl
      by_test false false = refl

  ends_at_effect_self :
      (v w : SubscriptionFormValues)
      → EndsRightly (v.status) (v.renewal_mode) (v.ends_at) (v.next_billing_date)
      → ends_at_effect runtime props v w ≡ w
  unfolding ends_at_effect
  ends_at_effect_self v w h =
      ground (arith, h, eq_iff (v.ends_at) (v.next_billing_date), eq_iff (v.ends_at) "")

  pub settle_self : (v : SubscriptionFormValues) → IsSettled runtime props v → settle v ≡ v
  settle_self v h =
      rw (currency_effect_self v v (h.offered), payment_method_effect_self v v (h.listed))
        (ends_at_effect_self v v (h.ends))
