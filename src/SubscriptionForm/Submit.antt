-- ===== src/SubscriptionForm/Submit.antt =====
-- `handleSubmit` and `handleMarkRenewed`. The server's answers to an upload, to the input and to a
-- renewal are functions on the server's state `S`; `F` is the browser's type of files.
use subdux.Base.{
  Bool, Option, Result, String, false, if◌then◌else◌, none, ok, some, throw, true, ℕ, ◌==◌,
}
use subdux.Subscription.{Subscription}
use subdux.SubscriptionForm.Effects.{FormState}
use subdux.SubscriptionForm.Values.{CreateSubscriptionInput, Runtime, payload_of}

-- A rejection: an `Error` with its message, or something else.
pub data Failure : Type 0 where
  error_with : String → Failure
  other_failure : Failure

-- When `onOpenChange(false)` is called: at once, by the timer of 1.5 seconds, or not.
pub data Closing : Type 0 where
  stays_open closes_now closes_later : Closing

pub record Server (R F S : Type 0) : Type 0 where
  pub upload_icon : ℕ → F → S → Result Failure String × S
  pub on_submit : CreateSubscriptionInput R → S → Result Failure (Subscription R) × S
  pub on_mark_renewed : Subscription R → S → Result Failure (Subscription R) × S

pub record Submission (F S : Type 0) : Type 0 where
  pub form : FormState F
  pub server : S
  pub closing : Closing

-- `setError("")` and `setLoading(true)`.
abbrev pub started : {F : Type 0} → FormState F → FormState F
started s = record s { error = ""; loading = true }

module _ (t : String → String) where
  unfoldable pub failure_text : Failure → String
  failure_text (error_with message) = message
  failure_text other_failure = t "subscription.form.error"

  module _ {F S : Type 0} where
    -- How a handler ends: with `setLoading(false)`, and an error or a close.
    unfoldable pub failed_with : Failure → FormState F → S → Submission F S
    failed_with failure s after = record {
      form = record s { error = failure_text failure; loading = false };
      server = after;
      closing = stays_open;
    }

    unfoldable pub finished : FormState F → S → Submission F S
    finished s after = record {
      form = record s { loading = false };
      server = after;
      closing = closes_now;
    }

    unfoldable pub icon_refused : FormState F → S → Submission F S
    icon_refused s after = record {
      form = record s { error = t "subscription.form.iconUploadFailed"; loading = false };
      server = after;
      closing = closes_later;
    }

module _ {R F S : Type 0} (runtime : Runtime R) (t : String → String) (api : Server R F S) where
  -- The upload that an edited subscription's new icon needs, before the input is sent.
  unfoldable pub upload_before :
      Option (Subscription R) → FormState F → S → Result Failure String × S
  upload_before none s before = (ok (s.values.icon), before)
  upload_before (some subscription) s before = elim (s.icon_file) [
    | none ↦ (ok (s.values.icon), before)
    | some file ↦
        if subscription.id == 0
        then (ok (s.values.icon), before)
        else api.upload_icon (subscription.id) file before
  ]

  -- `iconFile && !isEditing ? "" : iconValue`.
  unfoldable pub payload_icon : Option (Subscription R) → Option F → String → String
  payload_icon none (some file) icon_value = ""
  payload_icon none none icon_value = icon_value
  payload_icon (some subscription) file icon_value = icon_value

  -- The upload for a subscription that was just created.
  unfoldable pub upload_after :
      Option (Subscription R) → Subscription R → FormState F → S → Submission F S
  upload_after (some subscription) created s before = finished t s before
  upload_after none created s before = elim (s.icon_file) [
    | none ↦ finished t s before
    | some file ↦
        if created.id == 0
        then finished t s before
        else let (result, after) = api.upload_icon (created.id) file before in
          elim result [ throw failure ↦ icon_refused t s after | ok icon ↦ finished t s after ]
  ]

  unfoldable pub submit_with :
      Option (Subscription R) → FormState F → Result Failure String × S → Submission F S
  submit_with subscription s (throw failure, before) = failed_with t failure s before
  submit_with subscription s (ok icon_value, before) =
      let (result, after) =
        api.on_submit
          (payload_of runtime (s.values) (payload_icon subscription (s.icon_file) icon_value))
          before in
      elim result [
        | throw failure ↦ failed_with t failure s after
        | ok created ↦ upload_after subscription created s after
      ]

  unfoldable pub handle_submit : Option (Subscription R) → FormState F → S → Submission F S
  handle_submit subscription s before =
      submit_with subscription (started s) (upload_before subscription (started s) before)

  -- Without a subscription or a handler for it, nothing happens.
  unfoldable pub handle_mark_renewed :
      Bool → Option (Subscription R) → FormState F → S → Submission F S
  handle_mark_renewed has_handler none s before = record {
    form = s;
    server = before;
    closing = stays_open;
  }
  handle_mark_renewed false (some subscription) s before = record {
    form = s;
    server = before;
    closing = stays_open;
  }
  handle_mark_renewed true (some subscription) s before =
      let (result, after) = api.on_mark_renewed subscription before in
      elim result [
        | throw failure ↦ failed_with t failure (started s) after
        | ok renewed ↦ finished t (started s) after
      ]
