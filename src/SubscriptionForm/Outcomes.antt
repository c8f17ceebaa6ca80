-- ===== src/SubscriptionForm/Outcomes.antt =====
-- The ways in which `handleSubmit` ends.
use subdux.Base.{
  Bool, Option, Result, String, false, if◌then◌else◌, none, ok, refl, some, throw, true, ◌==◌, ◌≡◌,
}
use subdux.Subscription.{Subscription}
use subdux.SubscriptionForm.Effects.{FormState}
use subdux.SubscriptionForm.Submit.{
  Failure, Server, Submission, closes_later, closes_now, failed_with, failure_text, finished,
  handle_submit, icon_refused, payload_icon, started, stays_open, submit_with, upload_after,
  upload_before,
}
use subdux.SubscriptionForm.Values.{CreateSubscriptionInput, Runtime, payload_of}

module _ {R F S : Type 0} (runtime : Runtime R) (t : String → String) (api : Server R F S)
    (subscription : Option (Subscription R)) (s : FormState F) (before : S) where
  -- The input with some icon, from the values that are shown.
  abbrev pub input_with : String → CreateSubscriptionInput R
  input_with icon_value = payload_of runtime (s.values) icon_value

  pub data SubmitOutcome : Submission F S → Type 0 where
    not_sent :
        {edited : Subscription R} {file : F} {failure : Failure} {after : S} {r : Submission F S}
        → subscription ≡ some edited
        → s.icon_file ≡ some file
        → api.upload_icon (edited.id) file before ≡ (throw failure, after)
        → r.form ≡ record s { error = failure_text t failure; loading = false }
        → r.server ≡ after
        → r.closing ≡ stays_open
        → SubmitOutcome r
    rejected :
        (icon_value : String) {at : S} {failure : Failure} {after : S} {r : Submission F S}
        → api.on_submit (input_with icon_value) at ≡ (throw failure, after)
        → r.form ≡ record s { error = failure_text t failure; loading = false }
        → r.server ≡ after
        → r.closing ≡ stays_open
        → SubmitOutcome r
    saved :
        (icon_value : String) {at : S} {stored : Subscription R} {after : S} {r : Submission F S}
        → api.on_submit (input_with icon_value) at ≡ (ok stored, after)
        → r.form ≡ record s { error = ""; loading = false }
        → r.closing ≡ closes_now
        → SubmitOutcome r
    saved_without_icon :
        (icon_value : String) {at : S} {stored : Subscription R} {after last : S} {file : F}
        {failure : Failure} {r : Submission F S}
        → subscription ≡ none
        → api.on_submit (input_with icon_value) at ≡ (ok stored, after)
        → s.icon_file ≡ some file
        → api.upload_icon (stored.id) file after ≡ (throw failure, last)
        → r.form ≡ record s { error = t "subscription.form.iconUploadFailed"; loading = false }
        → r.server ≡ last
        → r.closing ≡ closes_later
        → SubmitOutcome r

module _ {R F S : Type 0} (runtime : Runtime R) (t : String → String) (api : Server R F S)
    (s : FormState F) (before : S) where
  upload_after-SubmitOutcome :
      (subscription : Option (Subscription R)) (icon_value : String) (at : S)
      (stored : Subscription R) (after : S)
      → api.on_submit (payload_of runtime (s.values) icon_value) at ≡ (ok stored, after)
      → SubmitOutcome runtime t api subscription s before
          (upload_after runtime t api subscription stored (started s) after)
  unfolding upload_after finished icon_refused
  upload_after-SubmitOutcome (some edited) icon_value at stored after e = saved _ e refl refl
  upload_after-SubmitOutcome none icon_value at stored after e = by_file (s.icon_file) refl
    where
      by_file :
          (o : Option F)
          → s.icon_file ≡ o
          → SubmitOutcome runtime t api none s before (elim o as (λ x. Submission F S) [
            | none ↦ finished t (started s) after
            | some file ↦
                if stored.id == 0
                then finished t (started s) after
                else let (result, last) = api.upload_icon (stored.id) file after in
                  elim result [
                    | throw failure ↦ icon_refused t (started s) last
                    | ok icon ↦ finished t (started s) last
                  ]
          ])
      by_file none q = saved _ e refl refl
      by_file (some file) q = by_id (stored.id == 0) (api.upload_icon (stored.id) file after) refl
        where
          by_id :
              (b : Bool) (answer : Result Failure String × S)
              → api.upload_icon (stored.id) file after ≡ answer
              → SubmitOutcome runtime t api none s before (
                  if b
                  then finished t (started s) after
                  else elim (answer.0) as (λ x. Submission F S) [
                    | throw failure ↦ icon_refused t (started s) (answer.1)
                    | ok icon ↦ finished t (started s) (answer.1)
                  ])
          by_id true answer r = saved _ e refl refl
          by_id false (ok icon, last) r = saved _ e refl refl
          by_id false (throw failure, last) r = saved_without_icon _ refl e q r refl refl refl

  submit_with-SubmitOutcome :
      (subscription : Option (Subscription R)) (icon_value : String) (at : S)
      → SubmitOutcome runtime t api subscription s before
          (submit_with runtime t api subscription (started s) (ok icon_value, at))
  unfolding submit_with failed_with
  submit_with-SubmitOutcome subscription icon_value at = by_answer _ refl
    where
      by_answer :
          (answer : Result Failure (Subscription R) × S)
          → api.on_submit
              (payload_of runtime
                (s.values)
                (payload_icon runtime t api subscription (s.icon_file) icon_value))
              at
            ≡ answer
          → SubmitOutcome runtime t api subscription s before
              (elim (answer.0) as (λ x. Submission F S) [
                | throw failure ↦ failed_with t failure (started s) (answer.1)
                | ok created ↦
                    upload_after runtime t api subscription created (started s) (answer.1)
              ])
      by_answer (throw failure, after) e = rejected _ e refl refl refl
      by_answer (ok stored, after) e = upload_after-SubmitOutcome subscription _ at stored after e

  -- `handleSubmit` ends in one of these ways, always with the loading mark off: the upload of an
  -- edited subscription's icon fails and nothing is sent; the input made of the form's values is
  -- refused; both leave the form open under the failure's text. Or the input is stored and the form
  -- closes without an error; or a new subscription is stored and its icon is refused, and the form
  -- says so and closes later.
  pub handle_submit-SubmitOutcome :
      (subscription : Option (Subscription R))
      → SubmitOutcome runtime t api subscription s before
          (handle_submit runtime t api subscription s before)
  unfolding handle_submit upload_before
  handle_submit-SubmitOutcome none = submit_with-SubmitOutcome none (s.values.icon) before
  handle_submit-SubmitOutcome (some edited) = by_file (s.icon_file) refl
    where
      by_answer :
          (file : F) (answer : Result Failure String × S)
          → s.icon_file ≡ some file
          → api.upload_icon (edited.id) file before ≡ answer
          → SubmitOutcome runtime t api
              (some edited)
              s
              before
              (submit_with runtime t api (some edited) (started s) answer)
      by_answer file (ok icon_value, at) q e = submit_with-SubmitOutcome (some edited) icon_value at
      by_answer file (throw failure, after) q e =
          unfold submit_with failed_with in not_sent refl q e refl refl refl

      by_file :
          (o : Option F)
          → s.icon_file ≡ o
          → SubmitOutcome runtime t api (some edited) s before (
              submit_with runtime t api
                (some edited)
                (started s)
                (elim o as (λ x. Result Failure String × S) [
                  | none ↦ (ok (s.values.icon), before)
                  | some file ↦
                      if edited.id == 0
                      then (ok (s.values.icon), before)
                      else api.upload_icon (edited.id) file before
                ]))
      by_file none q = submit_with-SubmitOutcome (some edited) (s.values.icon) before
      by_file (some file) q = by_id (edited.id == 0)
        where
          by_id :
              (b : Bool)
              → SubmitOutcome runtime t api (some edited) s before (
                  submit_with runtime t api (some edited) (started s) (
                    if b
                    then (ok (s.values.icon), before)
                    else api.upload_icon (edited.id) file before))
          by_id true = submit_with-SubmitOutcome (some edited) (s.values.icon) before
          by_id false = by_answer file (api.upload_icon (edited.id) file before) q refl
