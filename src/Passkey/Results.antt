-- ===== src/Passkey/Results.antt =====
-- What a ceremony's answer becomes, and how a ceremony may end.
use subdux.Base.{Option, Result, false, none, ok, refl, some, throw, true, ◌>>=◌, ◌≡◌}
use subdux.Passkey.Base64.{CharacterError, Text, decode_base64_url, encode_base64_url}
use subdux.Passkey.Ceremony.{
  Ask, Bytes, CreatedCredential, Credential, Device, PasskeyError, VerifiedCredential, assertion,
  attestation, bad_character, browser_refused, created_credential, encode, encode_handle,
  failed_to_create, failed_to_verify, is_passkey_supported, not_supported, or_character,
  other_credential, other_response, public_key_credential, unexpected_assertion,
  unexpected_attestation, verified_credential,
}
use subdux.Passkey.Groups.{IsBytes}
use subdux.Passkey.Requests.{Encodes}
use subdux.Passkey.RoundTrip.{decode-encode}

encode-Encodes :
    {R : Type 0} (bytes : Bytes)
    → IsBytes bytes
    → (text : Text) × (encode {R = R} bytes ≡ ok text) × Encodes text bytes
unfolding or_character
encode-Encodes {R} bytes h = by_text (encode_base64_url bytes) (decode-encode bytes h)
  where
    by_text :
        (m : Result CharacterError Text)
        → m >>= decode_base64_url ≡ ok bytes
        → (text : Text) × (or_character {R = R} m ≡ ok text) × Encodes text bytes
    by_text (ok text) e = (text, refl, e)
    by_text (throw x) e = absurd (cc)

-- An absent handle is left out, another is read back.
pub data EncodesHandle : Option Text → Option Bytes → Type 0 where
  no_handle : EncodesHandle none none
  handle :
      {text : Text} {bytes : Bytes} → Encodes text bytes → EncodesHandle (some text) (some bytes)

-- Every buffer of the answer holds bytes.
abbrev pub HoldsBytes : {X : Type 0} → Credential X → Type 0
HoldsBytes (public_key_credential id raw unread (attestation object client transports)) =
    IsBytes raw × IsBytes object × IsBytes client
HoldsBytes (public_key_credential id raw unread (assertion auth client sig none)) =
    IsBytes raw × IsBytes auth × IsBytes client × IsBytes sig
HoldsBytes (public_key_credential id raw unread (assertion auth client sig (some bytes))) =
    IsBytes raw × IsBytes auth × IsBytes client × IsBytes sig × IsBytes bytes
HoldsBytes (public_key_credential id raw unread other_response) = Unit
HoldsBytes other_credential = Unit

-- What is made of the browser's answer, branch by branch.
pub data CreatedFrom {R X : Type 0}
    : Credential X → Result (PasskeyError R) (CreatedCredential X) → Type 0 where
  created :
      {id : Text} {raw object client : Bytes} {unread : X} {transports : Option X}
      {c : CreatedCredential X}
      → c.id ≡ id
      → c.unread ≡ unread
      → c.transports ≡ transports
      → Encodes (c.raw_id) raw
      → Encodes (c.attestation_object) object
      → Encodes (c.client_data_json) client
      → CreatedFrom
          (public_key_credential id raw unread (attestation object client transports))
          (ok c)
  not_attestation :
      {id : Text} {raw auth client sig : Bytes} {unread : X} {user_handle : Option Bytes}
      → CreatedFrom
          (public_key_credential id raw unread (assertion auth client sig user_handle))
          (throw unexpected_attestation)
  other_attestation :
      {id : Text} {raw : Bytes} {unread : X}
      → CreatedFrom
          (public_key_credential id raw unread other_response)
          (throw unexpected_attestation)
  not_created : CreatedFrom other_credential (throw failed_to_create)

pub data VerifiedFrom {R X : Type 0}
    : Credential X → Result (PasskeyError R) (VerifiedCredential X) → Type 0 where
  verified :
      {id : Text} {raw auth client sig : Bytes} {unread : X} {user_handle : Option Bytes}
      {c : VerifiedCredential X}
      → c.id ≡ id
      → c.unread ≡ unread
      → Encodes (c.raw_id) raw
      → Encodes (c.authenticator_data) auth
      → Encodes (c.client_data_json) client
      → Encodes (c.signature) sig
      → EncodesHandle (c.user_handle) user_handle
      → VerifiedFrom
          (public_key_credential id raw unread (assertion auth client sig user_handle))
          (ok c)
  not_assertion :
      {id : Text} {raw object client : Bytes} {unread : X} {transports : Option X}
      → VerifiedFrom
          (public_key_credential id raw unread (attestation object client transports))
          (throw unexpected_assertion)
  other_assertion :
      {id : Text} {raw : Bytes} {unread : X}
      → VerifiedFrom
          (public_key_credential id raw unread other_response)
          (throw unexpected_assertion)
  not_verified : VerifiedFrom other_credential (throw failed_to_verify)

-- How a ceremony ends and what it did: the browser is asked once, with the request that stands for
-- the options, or not at all.
pub data CeremonyOutcome {R S X Q C : Type 0} (device : Device) (ask : Ask R S Q X)
    (From : Credential X → Result (PasskeyError R) C → Type 0) (Unreadable : Type 0)
    (Reads : Q → Type 0) (s : S) : Result (PasskeyError R) C × S → Type 0 where
  unsupported :
      is_passkey_supported device ≡ false
      → CeremonyOutcome device ask From Unreadable Reads s (throw not_supported, s)
  unreadable :
      is_passkey_supported device ≡ true
      → Unreadable
      → CeremonyOutcome device ask From Unreadable Reads s (throw bad_character, s)
  refused :
      {q : Q} {reason : R} {after : S}
      → is_passkey_supported device ≡ true
      → Reads q
      → ask q s ≡ (throw reason, after)
      → CeremonyOutcome device ask From Unreadable Reads s (throw (browser_refused reason), after)
  answered :
      {q : Q} {credential : Credential X} {after : S} {result : Result (PasskeyError R) C}
      → is_passkey_supported device ≡ true
      → Reads q
      → ask q s ≡ (ok credential, after)
      → From credential result
      → CeremonyOutcome device ask From Unreadable Reads s (result, after)

module _ {R X : Type 0} where
  pub created_credential-CreatedFrom :
      (credential : Credential X)
      → HoldsBytes credential
      → CreatedFrom {R = R} credential (created_credential credential)
  unfolding created_credential
  created_credential-CreatedFrom
        (public_key_credential id raw unread (attestation object client transports)) (h, k, l) =
      let (raw_text, er, dr) = encode-Encodes {R = R} raw h in
      let (object_text, eo, do_) = encode-Encodes {R = R} object k in
      let (client_text, ec, dc) = encode-Encodes {R = R} client l in
      rw (er, eo, ec) (created refl refl refl dr do_ dc)
  created_credential-CreatedFrom (public_key_credential id raw unread (assertion auth client sig h))
        k =
      not_attestation
  created_credential-CreatedFrom (public_key_credential id raw unread other_response) k =
      other_attestation
  created_credential-CreatedFrom other_credential k = not_created

  pub verified_credential-VerifiedFrom :
      (credential : Credential X)
      → HoldsBytes credential
      → VerifiedFrom {R = R} credential (verified_credential credential)
  unfolding verified_credential encode_handle
  verified_credential-VerifiedFrom
        (public_key_credential id raw unread (assertion auth client sig none)) (h, k, l, m) =
      let (raw_text, er, dr) = encode-Encodes {R = R} raw h in
      let (auth_text, ea, da) = encode-Encodes {R = R} auth k in
      let (client_text, ec, dc) = encode-Encodes {R = R} client l in
      let (sig_text, es, ds) = encode-Encodes {R = R} sig m in
      rw (er, ea, ec, es) (verified refl refl dr da dc ds no_handle)
  verified_credential-VerifiedFrom
        (public_key_credential id raw unread (assertion auth client sig (some bytes)))
        (h, k, l, m, n) =
      let (raw_text, er, dr) = encode-Encodes {R = R} raw h in
      let (auth_text, ea, da) = encode-Encodes {R = R} auth k in
      let (client_text, ec, dc) = encode-Encodes {R = R} client l in
      let (sig_text, es, ds) = encode-Encodes {R = R} sig m in
      let (handle_text, eh, dh) = encode-Encodes {R = R} bytes n in
      rw (er, ea, ec, es, eh) (verified refl refl dr da dc ds (handle dh))
  verified_credential-VerifiedFrom
        (public_key_credential id raw unread (attestation object client transports)) k =
      not_assertion
  verified_credential-VerifiedFrom (public_key_credential id raw unread other_response) k =
      other_assertion
  verified_credential-VerifiedFrom other_credential k = not_verified
