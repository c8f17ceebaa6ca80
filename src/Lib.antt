-- ===== src/Lib.antt =====
-- A model of the browser side of subdux, a tracker of subscriptions: the modules of web/src that keep
-- state between renders or decide something, each as records, data types and functions over explicit
-- state, with the theorems that make them correct.
--
-- The parts and their files:
--   Base            shared helpers: Boolean tests, results with exceptions, lists and maps over native
--                   numbers, exclusive or.
--   Zip             web/src/lib/zip-encryption.ts. A file is its bytes and the ranges that cannot be
--                   read; every read may throw. Zip/View has readSlice and the DataView accessors,
--                   Zip/Detect detectZipEncryption, Zip/Verify verifyZipPassword.
--   Session         web/src/lib/api.ts and the User of web/src/types/auth.ts. Session/State has the
--                   module's variables, localStorage and the functions on them; Session/Request has
--                   performRefresh, requestRaw, request, restoreSession and logout. The server is the
--                   list of answers that it will give, none where fetch rejects. Session/Shared has
--                   requestRaw and refreshSession for several callers at once, with refreshRequest;
--                   every await is a step, and the answers come in any order.
--   Passkey         web/src/lib/passkey.ts: Passkey/Base64 is the base64url of buffers, which are
--                   lists of bytes, Passkey/Ceremony both ceremonies; navigator.credentials is a
--                   function on the browser's state. Passkey/Messages is
--                   web/src/lib/passkey-error.ts.
--   Notify          web/src/features/settings/notification-channel-form with
--                   web/src/types/notification.ts: Notify/Fields has the values and the helpers on one
--                   field, Notify/Initial createInitialValues and the configured secrets, Notify/Build
--                   buildConfig for each of the fifteen types.
--   SubscriptionForm  web/src/features/subscriptions/hooks/use-subscription-form-state.ts:
--                   SubscriptionForm/Values has the initial values and the input that is sent,
--                   SubscriptionForm/Effects the four effects of a render, which read the values of
--                   that render, SubscriptionForm/Submit both handlers; the server is a function on
--                   its own state.
--   DetailCache     web/src/features/subscriptions/subscription-detail-cache.ts: the maps of details,
--                   requests and versions. The callbacks of a request are steps of their own.
--   Rates           web/src/lib/exchange-rate-cache.ts. Both exported functions are split at their
--                   await, so that time and storage may differ after it.
--   Toast           web/src/lib/toast-store.ts: the list of toasts with the timers that are pending, of
--                   which any may fire next, and the listeners.
--   Theme           web/src/lib/theme.ts: what is stored, the system's preference, and what the
--                   document shows.
--   Currencies      web/src/lib/currencies.ts: the preset currencies of a locale and their caches.
--   Preferences     web/src/lib/display-preferences.ts and web/src/lib/default-currency.ts.
--   Dates           web/src/lib/utils.ts: the parts of a date's text and the days until it. The
--                   calendar is advanced day by day.
--   Events          web/src/lib/subscription-event-formatters.ts: the rows of an event's changes.
--   Preload         web/src/lib/route-preload.ts: the routes whose chunks are loaded ahead.
--   Subscription    web/src/types/subscription.ts,
--                   web/src/features/subscriptions/subscription-lifecycle.ts and the category labels
--                   of web/src/lib/preset-labels.ts.
--   Dashboard       web/src/features/dashboard: Amount is dashboard-amount-utils.ts, Selection the
--                   state and the handlers of hooks/use-dashboard-filters.ts, Rows its
--                   filteredSubscriptions.
--
-- How they meet: the detail cache and the rates ask the server through the session's requests, of which
-- they see an answer or a rejection; requests report errors as toasts; the dashboard compares amounts
-- with the rates and reads a subscription's status through Subscription. The form of a subscription sends
-- its input and its icon to the server, of which it sees an answer or a rejection as well.
--
-- Times are natural numbers of milliseconds, those of the dashboard's dates counted from the earliest
-- Date; a local day is taken to be that of Date.UTC, so no zone skips a day. Sizes and offsets are natural numbers; a 16 or 32 bit field is
-- built from its bytes, so it is below 2 ^ 16 or 2 ^ 32. Two loops run on fuel: the walk over the extra
-- field moves by at least 4 bytes a round and the walk over the directory by at least 46, each with one
-- more round than the view has bytes; running out is an exception of its own.
--
-- JavaScript's floating-point numbers, parseInt, localeCompare, Date, trim, toLowerCase and toUpperCase, Web
-- Crypto, JSON and the translations are parameters. A storage value that is JSON is modelled by what
-- JSON.parse makes of it; in the channel's configuration a number stands as its text, which is all that
-- the form reads of it. btoa and atob follow the HTML standard. Sets are lists in the order of insertion.
--
-- Not modelled: the style variables that theme.ts derives from two colours in floating point; the
-- pages, the hooks of settings and admin, the icons and the translations of web/src; and the Go server
-- in cmd and internal.
pub mod Base
pub mod Currencies
pub mod Dashboard
pub mod Dates
pub mod DetailCache
pub mod Events
pub mod Notify
pub mod Passkey
pub mod Preferences
pub mod Preload
pub mod Rates
pub mod Session
pub mod Subscription
pub mod SubscriptionForm
pub mod Theme
pub mod Toast
pub mod Zip
