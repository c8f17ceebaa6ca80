-- ===== src/SubscriptionForm.antt =====
-- web/src/features/subscriptions/hooks/use-subscription-form-state.ts: the values of the form in
-- `Values`, what a render sets in `Effects`, and what is sent to the server in `Submit`.
pub mod Values
pub mod Effects
pub mod Unedited
pub mod Opened
pub mod Settle
pub mod Settling
pub mod Rest
pub mod Submit
pub mod Outcomes
mod Witnesses
