-- ===== src/SubscriptionForm/Rest.antt =====
-- How the effects of the form come to rest.
use subdux.Base.{
  Bool, ap, false, if◌then◌else◌, none, not, refl, subst, sym, true, ◌&&◌, ◌∙◌, ◌≡◌, ◌≢◌,
}
use subdux.SubscriptionForm.Effects.{
  FormProps, FormState, initial_state, opening_effect, run_effects,
}
use subdux.SubscriptionForm.Settle.{IsSettled, settle, settle_self}
use subdux.SubscriptionForm.Settling.{settle-IsSettled}
use subdux.SubscriptionForm.Values.{Runtime}

module _ {R F : Type 0} (runtime : Runtime R) (props : FormProps R) where
  opening_effect_self :
      (s : FormState F)
      → props.is_open ≡ true
      → s.was_open ≡ true
      → opening_effect runtime props s ≡ s
  unfolding opening_effect
  opening_effect_self s h k = by_flags (props.is_open) (s.was_open) h k refl
    where
      opened : FormState F → Bool → Bool → FormState F
      opened i o w =
          let started = if o && not w then i else s in
          if o
          then record started { was_open = true }
          else record started { icon_file = none; was_open = false }

      by_flags :
          (o w : Bool)
          → o ≡ true
          → w ≡ true
          → s.was_open ≡ w
          → opened (record (initial_state runtime props) { was_open = s.was_open }) o w ≡ s
      by_flags true true e q r = cc
      by_flags false w e q r = absurd cc
      by_flags true false e q r = absurd cc

  -- A render of a form that is open already settles its values and changes nothing else.
  pub run_effects-was_open :
      (s : FormState F)
      → props.is_open ≡ true
      → s.was_open ≡ true
      → run_effects runtime props s ≡ record s { values = settle runtime props (s.values) }
  unfolding run_effects
  run_effects-was_open s h k = rw (opening_effect_self s h k) refl

  run_effects_settled :
      (s : FormState F)
      → props.is_open ≡ true
      → s.was_open ≡ true
      → IsSettled runtime props (s.values)
      → run_effects runtime props s ≡ s
  run_effects_settled s h k v =
      run_effects-was_open s h k
      ∙ ap (λ w. record s { values = w }) (settle_self runtime props (s.values) v)

  pub run_effects-opens :
      (s : FormState F) → props.is_open ≡ true → (run_effects runtime props s).was_open ≡ true
  unfolding run_effects opening_effect
  run_effects-opens s h = rw h refl

  -- After two renders of an open form its effects have come to rest: the currency is an offered
  -- one, where any is, the payment method is one of the list or none, a subscription that ends with
  -- its period ends on its next billing date, one that has ended has an end, and a further render
  -- changes nothing. Today's key is not empty.
  pub run_effects-IsSettled :
      (s : FormState F)
      → props.is_open ≡ true
      → runtime.today_key ≢ ""
      → IsSettled runtime props ((run_effects runtime props (run_effects runtime props s)).values)
        × (run_effects runtime props (run_effects runtime props (run_effects runtime props s))
            ≡ run_effects runtime props (run_effects runtime props s))
  run_effects-IsSettled s h k =
      let once = run_effects runtime props s in
      let opened : once.was_open ≡ true = run_effects-opens s h in
      let twice = run_effects runtime props once in
      let values_twice : twice.values ≡ settle runtime props (once.values) =
        ap (λ r. r.values) (run_effects-was_open once h opened) in
      let settled =
        subst (IsSettled runtime props) (sym values_twice)
          (settle-IsSettled runtime props (once.values) h k) in
      (settled, run_effects_settled twice h (run_effects-opens once h) settled)
