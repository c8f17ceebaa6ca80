-- ===== src/SubscriptionForm/Settling.antt =====
-- What each effect of a render sets.
use package.text.Mathlib.TextEquality.{eq_iff}
use subdux.Base.{
  Bool, List, [], arith, false, if◌then◌else◌, inl, inr, not, refl, some, str_eq, subst, sym, true,
  ◌||◌, ◌∙◌, ◌∷◌, ◌≡◌, ◌≢◌,
}
use subdux.Subscription.{
  SubscriptionRenewalMode, SubscriptionStatus, active, auto_renew, cancel_at_period_end, ended,
  manual_renew,
}
use subdux.SubscriptionForm.Effects.{
  CurrencyOption, FormProps, currency_effect, ends_at_effect, has_currency, has_payment_method,
  payment_method_effect,
}
use subdux.SubscriptionForm.Settle.{EndsRightly, IsListed, IsOffered, IsSettled, settle}
use subdux.SubscriptionForm.Values.{Runtime, SubscriptionFormValues, or_text}

module _ {R : Type 0} (runtime : Runtime R) (props : FormProps R) where
  ends_at_effect-same :
      (v w : SubscriptionFormValues)
      → ((ends_at_effect runtime props v w).currency ≡ w.currency)
        × ((ends_at_effect runtime props v w).payment_method_id ≡ w.payment_method_id)
        × ((ends_at_effect runtime props v w).status ≡ w.status)
        × ((ends_at_effect runtime props v w).renewal_mode ≡ w.renewal_mode)
        × ((ends_at_effect runtime props v w).next_billing_date ≡ w.next_billing_date)
  unfolding ends_at_effect
  ends_at_effect-same v w = (ground arith, ground arith, ground arith, ground arith, ground arith)

  payment_method_effect-same :
      (v w : SubscriptionFormValues)
      → ((payment_method_effect runtime props v w).currency ≡ w.currency)
        × ((payment_method_effect runtime props v w).status ≡ w.status)
        × ((payment_method_effect runtime props v w).renewal_mode ≡ w.renewal_mode)
        × ((payment_method_effect runtime props v w).ends_at ≡ w.ends_at)
        × ((payment_method_effect runtime props v w).next_billing_date ≡ w.next_billing_date)
  unfolding payment_method_effect
  payment_method_effect-same v w = by_test (
      not (props.is_open)
      || str_eq (v.payment_method_id) ""
      || has_payment_method runtime props (v.payment_method_id))
    where
      by_test :
          (b : Bool)
          → ((if b then w else record w { payment_method_id = "" }).currency ≡ w.currency)
            × ((if b then w else record w { payment_method_id = "" }).status ≡ w.status)
            × ((if b then w else record w { payment_method_id = "" }).renewal_mode ≡ w.renewal_mode)
            × ((if b then w else record w { payment_method_id = "" }).ends_at ≡ w.ends_at)
            × ((if b then w else record w { payment_method_id = "" }).next_billing_date
                ≡ w.next_billing_date)
      by_test true = (refl, refl, refl, refl, refl)
      by_test false = (refl, refl, refl, refl, refl)

  currency_effect-same :
      (v w : SubscriptionFormValues)
      → ((currency_effect runtime props v w).payment_method_id ≡ w.payment_method_id)
        × ((currency_effect runtime props v w).status ≡ w.status)
        × ((currency_effect runtime props v w).renewal_mode ≡ w.renewal_mode)
        × ((currency_effect runtime props v w).ends_at ≡ w.ends_at)
        × ((currency_effect runtime props v w).next_billing_date ≡ w.next_billing_date)
  unfolding currency_effect
  currency_effect-same v w = by_options (props.options)
    where
      by_options :
          (options : List CurrencyOption)
          → let u = (elim options as (λ o. SubscriptionFormValues) [
            | [] ↦ w
            | option ∷ others ↦
                if not (props.is_open) || has_currency runtime props (v.currency)
                then w
                else record w { currency = option.code }
          ]) in
            (u.payment_method_id ≡ w.payment_method_id)
            × (u.status ≡ w.status)
            × (u.renewal_mode ≡ w.renewal_mode)
            × (u.ends_at ≡ w.ends_at)
            × (u.next_billing_date ≡ w.next_billing_date)
      by_options [] = (refl, refl, refl, refl, refl)
      by_options (option ∷ options) =
          by_test (not (props.is_open) || has_currency runtime props (v.currency))
        where
          by_test :
              (b : Bool)
              → let u = if b then w else record w { currency = option.code } in
                (u.payment_method_id ≡ w.payment_method_id)
                × (u.status ≡ w.status)
                × (u.renewal_mode ≡ w.renewal_mode)
                × (u.ends_at ≡ w.ends_at)
                × (u.next_billing_date ≡ w.next_billing_date)
          by_test true = (refl, refl, refl, refl, refl)
          by_test false = (refl, refl, refl, refl, refl)

  currency_effect-IsOffered :
      (v : SubscriptionFormValues)
      → props.is_open ≡ true
      → IsOffered runtime props (props.options) ((currency_effect runtime props v v).currency)
  unfolding currency_effect
  currency_effect-IsOffered v h = by_options (props.options) refl
    where
      by_options :
          (options : List CurrencyOption)
          → props.options ≡ options
          → IsOffered runtime props options (
              (elim options as (λ o. SubscriptionFormValues) [
                | [] ↦ v
                | option ∷ others ↦
                    if not (props.is_open) || has_currency runtime props (v.currency)
                    then v
                    else record v { currency = option.code }
              ]).currency)
      by_options [] e = tt
      by_options (option ∷ options) e = by_test (has_currency runtime props (v.currency)) refl
        where
          by_test :
              (b : Bool)
              → has_currency runtime props (v.currency) ≡ b
              → has_currency runtime props (
                  (if not (props.is_open) || b
                    then v
                    else record v { currency = option.code }).currency)
                ≡ true
          by_test true q = rw h q
          by_test false q = rw (h, e) (ground (arith, eq_iff (option.code) (option.code)))

  payment_method_effect-IsListed :
      (v w : SubscriptionFormValues)
      → props.is_open ≡ true
      → v.payment_method_id ≡ w.payment_method_id
      → IsListed runtime props ((payment_method_effect runtime props v w).payment_method_id)
  unfolding payment_method_effect
  payment_method_effect-IsListed v w h e =
      by_tests (str_eq (v.payment_method_id) "")
        (has_payment_method runtime props (v.payment_method_id)) refl refl
    where
      by_tests :
          (b c : Bool)
          → str_eq (v.payment_method_id) "" ≡ b
          → has_payment_method runtime props (v.payment_method_id) ≡ c
          → IsListed runtime props (
              (if not (props.is_open) || b || c
                then w
                else record w { payment_method_id = "" }).payment_method_id)
      by_tests true c q r = rw h (inl (sym e ∙ ground (arith, q, eq_iff (v.payment_method_id) "")))
      by_tests false true q r =
          rw h (inr (subst (λ x. has_payment_method runtime props x ≡ true) e r))
      by_tests false false q r = rw h (inl refl)

  ends_at_effect-EndsRightly :
      (v w : SubscriptionFormValues)
      → props.is_open ≡ true
      → runtime.today_key ≢ ""
      → v.ends_at ≡ w.ends_at
      → EndsRightly
          (v.status)
          (v.renewal_mode)
          ((ends_at_effect runtime props v w).ends_at)
          (v.next_billing_date)
  unfolding ends_at_effect
  ends_at_effect-EndsRightly v w h k e = by_status (v.status) (v.renewal_mode)
    where
      by_status :
          (s : SubscriptionStatus) (m : SubscriptionRenewalMode)
          → EndsRightly s m
              ((if not (props.is_open) then w else elim s [
                | active ↦ elim m [
                  | cancel_at_period_end ↦
                      if str_eq (v.ends_at) (v.next_billing_date)
                      then w
                      else record w { ends_at = v.next_billing_date }
                  | _ ↦ w
                ]
                | ended ↦
                    if str_eq (v.ends_at) ""
                    then record w {
                      ends_at = or_text (some (v.next_billing_date)) (runtime.today_key);
                    }
                    else w
              ]).ends_at)
              (v.next_billing_date)
      by_status active auto_renew = tt
      by_status active manual_renew = tt
      by_status active cancel_at_period_end =
          ground (arith, h, e, eq_iff (v.ends_at) (v.next_billing_date))
      by_status ended m =
          ground (arith, h, k, e, eq_iff (v.ends_at) "", eq_iff (v.next_billing_date) "")

  pub settle-IsSettled :
      (v : SubscriptionFormValues)
      → props.is_open ≡ true
      → runtime.today_key ≢ ""
      → IsSettled runtime props (settle runtime props v)
  settle-IsSettled v h k =
      let u = currency_effect runtime props v v in
      let w = payment_method_effect runtime props v u in
      let (c1, p1, s1, m1, n1) = ends_at_effect-same v w in
      let (c2, s2, m2, e2, n2) = payment_method_effect-same v u in
      let (p3, s3, m3, e3, n3) = currency_effect-same v v in
      record {
        offered =
            subst (IsOffered runtime props (props.options)) (sym (c1 ∙ c2))
              (currency_effect-IsOffered v h);
        listed =
            subst (IsListed runtime props) (sym p1) (payment_method_effect-IsListed v u h (sym p3));
        ends =
            rw (s1 ∙ s2 ∙ s3, m1 ∙ m2 ∙ m3, n1 ∙ n2 ∙ n3)
              (ends_at_effect-EndsRightly v w h k (sym (e2 ∙ e3)));
      }
