-- ===== src/SubscriptionForm/Opened.antt =====
-- The form that opens on a subscription and is submitted as it stands.
use subdux.Subscription.{Subscription}
