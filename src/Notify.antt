-- ===== src/Notify.antt =====
-- web/src/features/settings/notification-channel-form: what the form of a notification channel
-- reads from a stored configuration, in `Initial`, and what it stores, in `Build`.
pub mod Fields
pub mod Initial
pub mod Build
pub mod Kept
pub mod Masks
pub mod Lookup
pub mod Rebuild
pub mod RebuildNtfy
pub mod RebuildOptional
pub mod Stored
mod Witnesses
pub mod Headers
pub mod Secrets
