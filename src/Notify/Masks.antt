-- ===== src/Notify/Masks.antt =====
-- The mask of a configured secret, and what `buildConfig` stores for each type.
use subdux.Base.{
  All, Bool, Gives, String, [], bind-Gives, false, if◌then◌else◌, ok-Gives, refl, str_eq, true, ◌∷◌,
  ◌≡◌,
}
use subdux.Notify.Build.{config_of, trimmed, webhook_headers_of}
use subdux.Notify.Fields.{
  ChannelType, NotificationChannelFormValues, Runtime, bark, dingtalk, feishu, gotify, napcat, ntfy,
  pushdeer, pushover, pushplus, resend, secret_form_field, serverchan, smtp, telegram, text,
  webhook, wecom,
}
use subdux.Notify.Kept.{
  IsUnmasked, Kept, Kept-All, done, hidden, numeric, plain, present-Kept, sanitize-ne, secret-ne,
  webhook_headers_of-Gives,
}

module _ (runtime : Runtime)
    (trim_idempotent : (s : String) → runtime.trim (runtime.trim s) ≡ runtime.trim s)
    (trim_empty : runtime.trim "" ≡ "") where
  config_of-Kept :
      (kind : ChannelType) (values : NotificationChannelFormValues)
      → Gives (Kept runtime kind) (config_of runtime kind values)
  unfolding config_of secret_form_field
  config_of-Kept smtp values = ok-Gives (Kept runtime smtp) _ (
      plain refl (
        numeric refl (
          plain refl (
            hidden (sanitize-ne runtime trim_idempotent trim_empty _)
              (plain refl (plain refl (plain refl (plain refl (done)))))))))
  config_of-Kept resend values =
      ok-Gives (Kept runtime resend) _
        (hidden (secret-ne runtime trim_idempotent trim_empty _) (plain refl (plain refl (done))))
  config_of-Kept telegram values =
      ok-Gives (Kept runtime telegram) _
        (hidden (secret-ne runtime trim_idempotent trim_empty _) (plain refl (done)))
  config_of-Kept pushdeer values = ok-Gives (Kept runtime pushdeer) _ (
      hidden (secret-ne runtime trim_idempotent trim_empty _)
        (present-Kept runtime pushdeer "server_url" _ _ (plain refl done) (done)))
  config_of-Kept pushplus values = ok-Gives (Kept runtime pushplus) _ (
      hidden (secret-ne runtime trim_idempotent trim_empty _) (
        present-Kept runtime pushplus "topic" _ _ (plain refl done) (
          present-Kept runtime pushplus "endpoint" _ _ (plain refl done) (
            present-Kept runtime pushplus "template" _ _ (plain refl done)
              (present-Kept runtime pushplus "channel" _ _ (plain refl done) (done))))))
  config_of-Kept pushover values = ok-Gives (Kept runtime pushover) _ (
      hidden (secret-ne runtime trim_idempotent trim_empty _) (
        hidden (secret-ne runtime trim_idempotent trim_empty _) (
          present-Kept runtime pushover "device" _ _ (plain refl done) (
            numeric refl (
              present-Kept runtime pushover "sound" _ _ (plain refl done)
                (present-Kept runtime pushover "endpoint" _ _ (plain refl done) (done)))))))
  config_of-Kept gotify values =
      ok-Gives (Kept runtime gotify) _
        (plain refl (hidden (secret-ne runtime trim_idempotent trim_empty _) (done)))
  config_of-Kept ntfy values = ok-Gives (Kept runtime ntfy) _ (
      present-Kept runtime ntfy "url" _ _ (plain refl done) (
        plain refl (
          present-Kept runtime ntfy "token" _ _
            (hidden (secret-ne runtime trim_idempotent trim_empty _) done)
            (present-Kept runtime ntfy "priority" _ _ (plain refl done) (
              present-Kept runtime ntfy "tags" _ _ (plain refl done) (
                present-Kept runtime ntfy "click" _ _ (plain refl done)
                  (present-Kept runtime ntfy "icon" _ _ (plain refl done) (done))))))))
  config_of-Kept bark values = ok-Gives (Kept runtime bark) _ (
      present-Kept runtime bark "url" _ _ (plain refl done)
        (hidden (secret-ne runtime trim_idempotent trim_empty _) (done)))
  config_of-Kept serverchan values =
      ok-Gives (Kept runtime serverchan) _
        (hidden (secret-ne runtime trim_idempotent trim_empty _) (done))
  config_of-Kept feishu values = ok-Gives (Kept runtime feishu) _ (
      hidden (secret-ne runtime trim_idempotent trim_empty _) (
        present-Kept runtime feishu "secret" _ _
          (hidden (secret-ne runtime trim_idempotent trim_empty _) done) (done)))
  config_of-Kept wecom values =
      ok-Gives (Kept runtime wecom) _
        (hidden (secret-ne runtime trim_idempotent trim_empty _) (done))
  config_of-Kept dingtalk values = ok-Gives (Kept runtime dingtalk) _ (
      hidden (secret-ne runtime trim_idempotent trim_empty _) (
        present-Kept runtime dingtalk "secret" _ _
          (hidden (secret-ne runtime trim_idempotent trim_empty _) done) (done)))
  config_of-Kept webhook values =
      bind-Gives (Kept runtime webhook) (webhook_headers_of runtime (values.webhook_headers))
        (λ kept q. ok-Gives (Kept runtime webhook) _ (
          plain refl (
            plain refl (
              present-Kept runtime webhook "secret" _ _
                (hidden (secret-ne runtime trim_idempotent trim_empty _) done)
                (webhook_headers_of-Gives runtime trim_idempotent trim_empty
                  (values.webhook_headers) kept q)))))
  config_of-Kept napcat values = ok-Gives (Kept runtime napcat) _ (
      plain refl (
        present-Kept runtime napcat "access_token" _ _
          (hidden (secret-ne runtime trim_idempotent trim_empty _) done)
          (plain refl (by_kind (str_eq (values.napcat_message_type) "private")))))
    where
      by_kind :
          (b : Bool)
          → Kept runtime napcat (
              (if b
                then ("user_id", text (trimmed runtime (values.napcat_user_id)))
                else ("group_id", text (trimmed runtime (values.napcat_group_id))))
              ∷ [])
      by_kind true = plain refl done
      by_kind false = plain refl done

  -- Whatever the form holds, where `buildConfig` makes a configuration, none of the values that
  -- it stores under a key of the secret fields' table and none of the headers is the mask, not
  -- even after a trim; `trim` is taken to be idempotent and to keep the empty text.
  pub config_of-IsUnmasked :
      (kind : ChannelType) (values : NotificationChannelFormValues)
      → Gives (All (IsUnmasked runtime kind)) (config_of runtime kind values)
  config_of-IsUnmasked kind values =
      λ config e. Kept-All runtime kind config (config_of-Kept kind values config e)
