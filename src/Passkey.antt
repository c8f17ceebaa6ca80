-- ===== src/Passkey.antt =====
-- web/src/lib/passkey.ts: the base64url of the WebAuthn exchange, in `Base64`, and the two
-- ceremonies around the browser's `navigator.credentials`, in `Ceremony`.
pub mod Base64
pub mod Groups
pub mod RoundTrip
pub mod Ceremony
pub mod Requests
pub mod Results
pub mod Outcomes
pub mod Messages
mod Witnesses
