-- ===== src/SubscriptionForm/Witnesses.antt =====
-- Runs of the form with a concrete runtime and server.
use package.text.Mathlib.TextBridge.{to_list, of_list, to_list-of_list}
use Prim.Native.Char.{Char}
use package.text.Mathlib.TextEquality.{eq_iff}
use subdux.Base.{
  List, String, [], arith, false, length, none, ok, refl, some, suc, throw, true, zero, ℕ, ◌+◌, ◌-◌,
  ◌∷◌, ◌≡◌, ◌≤◌,
}
use subdux.Subscription.{Subscription, active, auto_renew, interval, month, recurring}
use subdux.SubscriptionForm.Effects.{FormProps, FormState, run_effects}
use subdux.SubscriptionForm.Outcomes.{SubmitOutcome, handle_submit-SubmitOutcome}
use subdux.SubscriptionForm.Rest.{run_effects-IsSettled}
use subdux.SubscriptionForm.Settle.{IsSettled}
use subdux.SubscriptionForm.Submit.{
  Server, closes_later, error_with, handle_submit, icon_refused, submit_with, upload_after,
  upload_before,
}
use subdux.SubscriptionForm.Unedited.{payload_of-notify_days}
use subdux.SubscriptionForm.Values.{
  Runtime, SubscriptionFormValues, build_initial_values, clamped_days, enabled, payload_notify_days,
  payload_of, whole,
}

-- A number as its count of marks and one more.
abbrev marks : ℕ → List Char
marks zero = "a" ∷ []
marks (suc n) = "a" ∷ marks n

abbrev mark_text : ℕ → String
mark_text n = of_list (marks n)

abbrev read_marks : String → ℕ
read_marks s = length (to_list s) - 1

abbrev plain : Runtime ℕ
plain = record {
  nat_text = mark_text;
  amount_text = mark_text;
  parse_int = λ s. whole (read_marks s);
  parse_float = read_marks;
  today_key = "2026-01-01";
  today_day = 1;
  today_month = 1;
  leading_date = λ s. some s;
  parsed_key = λ s. none;
}

abbrev music : Subscription ℕ
music = record {
  id = 7;
  name = "Music";
  amount = 3;
  currency = "EUR";
  status = some active;
  renewal_mode = some auto_renew;
  ends_at = none;
  billing_type = recurring;
  recurrence_type = interval;
  interval_count = some 1;
  interval_unit = month;
  monthly_day = none;
  yearly_month = none;
  yearly_day = none;
  next_billing_date = some "2026-02-01";
  category = "";
  category_id = some 2;
  payment_method_id = none;
  notify_enabled = some true;
  notify_days_before = some 4;
  icon = "";
  url = "";
  notes = "";
  created_at = "";
  updated_at = "";
}

abbrev noisy : SubscriptionFormValues
noisy = record (build_initial_values plain none "USD") {
  notify_enabled = enabled;
  notify_days_before = mark_text 20;
}

payload_of-notify_days_example :
    (10 ≤ 10) × ((payload_of plain noisy "").notify_enabled ≡ some true)
payload_of-notify_days_example = payload_of-notify_days plain noisy "" 10 days
  where
    days : (payload_of plain noisy "").notify_days_before ≡ some 10
    days =
        unfold payload_of build_initial_values payload_notify_days clamped_days in
        rw (to_list-of_list (marks 20)) refl

abbrev props : FormProps ℕ
props = record {
  is_open = true;
  subscription = some music;
  options = record { code = "EUR"; label = "EUR" } ∷ [];
  payment_methods = [];
}

abbrev closed_state : FormState ℕ
closed_state = record {
  values = noisy;
  loading = true;
  error = "old";
  icon_file = some 5;
  was_open = false;
}

abbrev closed_form : FormState ℕ
closed_form = record closed_state { values = build_initial_values plain (some music) "EUR" }

run_effects-IsSettled_example :
    IsSettled plain props ((run_effects plain props (run_effects plain props closed_state)).values)
    × (run_effects plain props (run_effects plain props (run_effects plain props closed_state))
        ≡ run_effects plain props (run_effects plain props closed_state))
run_effects-IsSettled_example =
    run_effects-IsSettled plain props closed_state refl (ground (arith, eq_iff "2026-01-01" ""))

-- A server that counts what it is asked, and refuses icons.
abbrev counting : Server ℕ ℕ ℕ
counting = record {
  upload_icon = λ id file n. (throw (error_with "too large"), n + 1);
  on_submit = λ input n. (ok music, n + 1);
  on_mark_renewed = λ subscription n. (ok subscription, n + 1);
}

handle_submit-SubmitOutcome_example :
    SubmitOutcome plain
      (λ key. key)
      counting
      none
      closed_state
      0
      (handle_submit plain (λ key. key) counting none closed_state 0)
handle_submit-SubmitOutcome_example =
    handle_submit-SubmitOutcome plain (λ key. key) counting closed_state 0 none

-- A new subscription whose icon is refused.
icon_later : (handle_submit plain (λ key. key) counting none closed_state 0).closing ≡ closes_later
unfolding handle_submit upload_before submit_with upload_after icon_refused
icon_later = refl
