-- ===== src/Passkey/Outcomes.antt =====
-- The branches of `createPasskeyCredential` and `getPasskeyCredential`, as relations between the
-- browser's answer and the result.
use subdux.Base.{Bool, Result, false, if◌then◌else◌, ok, refl, throw, true, ◌≡◌}
use subdux.Passkey.Base64.{Text}
use subdux.Passkey.Ceremony.{
  Ask, Bytes, CreationOptions, Credential, Device, PasskeyError, RequestOptions, ask_browser,
  assertion_request, create_passkey_credential, created_credential, creation_request,
  get_passkey_credential, is_passkey_supported, not_supported, verified_credential,
}
use subdux.Passkey.Requests.{
  AssertionRequest, AssertionUnreadable, CreationRequest, CreationUnreadable, Reading,
  assertion_request-Reading, creation_request-Reading, fails, reads,
}
use subdux.Passkey.Results.{
  CeremonyOutcome, CreatedFrom, HoldsBytes, VerifiedFrom, answered, created_credential-CreatedFrom,
  refused, unreadable, unsupported, verified_credential-VerifiedFrom,
}

module _ {R S X Q C : Type 0} (ask : Ask R S Q X) (s : S)
    (From : Credential X → Result (PasskeyError R) C → Type 0)
    (read : Credential X → Result (PasskeyError R) C)
    (read-From : (credential : Credential X)
      → HoldsBytes credential
      → From credential (read credential))
    (bytes : (q : Q) (credential : Credential X)
      → (ask q s).0 ≡ ok credential
      → HoldsBytes credential)
    (device : Device) (supported : is_passkey_supported device ≡ true) (Unreadable : Type 0)
    (Reads : Q → Type 0) where
  answer-CeremonyOutcome :
      (q : Q) (result : Result R (Credential X)) (after : S)
      → Reads q
      → ask q s ≡ (result, after)
      → CeremonyOutcome device ask From Unreadable Reads s (ask_browser ask read (ok q) s)
  unfolding ask_browser
  answer-CeremonyOutcome q (throw reason) after k e = rw e (refused supported k e)
  answer-CeremonyOutcome q (ok credential) after k e =
      rw e (answered supported k e (read-From credential (bytes q credential (rw e refl))))

  ask_browser-CeremonyOutcome :
      (m : Result (PasskeyError R) Q)
      → Reading Unreadable Reads m
      → CeremonyOutcome device ask From Unreadable Reads s (ask_browser ask read m s)
  unfolding ask_browser
  ask_browser-CeremonyOutcome (throw e) (fails u) = unreadable supported u
  ask_browser-CeremonyOutcome (ok q) (reads k) =
      answer-CeremonyOutcome q ((ask q s).0) ((ask q s).1) k refl

module _ {R S X : Type 0} where
  -- Where the browser's buffers hold bytes, `createPasskeyCredential` ends in one of these ways: on
  -- a device without passkeys it throws that they are not supported; where the challenge, the user's
  -- identifier or that of an excluded credential is no base64 it throws the character's error, both
  -- with the browser's state as it was; else the browser is asked with the bytes of all these texts
  -- and the rest of the options, and its rejection is passed on; a credential with an attestation is returned with its
  -- identifier, its transports and its unread parts, and with texts that are read back as the
  -- browser's bytes; any other response and any other answer throw the error for it.
  pub create_passkey_credential-CeremonyOutcome :
      (device : Device) (create : Ask R S (CreationOptions Bytes X) X)
      (options : CreationOptions Text X) (s : S)
      → ((q : CreationOptions Bytes X) (credential : Credential X)
          → (create q s).0 ≡ ok credential
          → HoldsBytes credential)
      → CeremonyOutcome device create CreatedFrom
          (CreationUnreadable options)
          (CreationRequest options)
          s
          (create_passkey_credential device create options s)
  unfolding create_passkey_credential
  create_passkey_credential-CeremonyOutcome device create options s bytes =
      elim_bool (is_passkey_supported device) refl
    where
      elim_bool :
          (b : Bool)
          → is_passkey_supported device ≡ b
          → CeremonyOutcome device create CreatedFrom
              (CreationUnreadable options)
              (CreationRequest options)
              s
              (if b
                then ask_browser create created_credential (creation_request options) s
                else (throw not_supported, s))
      elim_bool false e = unsupported e
      elim_bool true e =
          ask_browser-CeremonyOutcome create s CreatedFrom created_credential
            created_credential-CreatedFrom bytes device e (CreationUnreadable options)
            (CreationRequest options) (creation_request options) (creation_request-Reading options)

  -- `getPasskeyCredential` likewise, where the browser's buffers hold bytes: not supported, and a
  -- challenge or an allowed credential's identifier that is no base64, throw their errors and leave
  -- the browser's state as it was; else the browser is asked with the bytes of all these texts and
  -- the rest of the options, its rejection is passed on, and a credential with an assertion is returned with
  -- texts that are read back as the browser's bytes, where an absent user handle stays absent; any
  -- other response and any other answer throw the error for it.
  pub get_passkey_credential-CeremonyOutcome :
      (device : Device) (get : Ask R S (RequestOptions Bytes X) X) (options : RequestOptions Text X)
      (s : S)
      → ((q : RequestOptions Bytes X) (credential : Credential X)
          → (get q s).0 ≡ ok credential
          → HoldsBytes credential)
      → CeremonyOutcome device get VerifiedFrom
          (AssertionUnreadable options)
          (AssertionRequest options)
          s
          (get_passkey_credential device get options s)
  unfolding get_passkey_credential
  get_passkey_credential-CeremonyOutcome device get options s bytes =
      elim_bool (is_passkey_supported device) refl
    where
      elim_bool :
          (b : Bool)
          → is_passkey_supported device ≡ b
          → CeremonyOutcome device get VerifiedFrom
              (AssertionUnreadable options)
              (AssertionRequest options)
              s
              (if b
                then ask_browser get verified_credential (assertion_request options) s
                else (throw not_supported, s))
      elim_bool false e = unsupported e
      elim_bool true e =
          ask_browser-CeremonyOutcome get s VerifiedFrom verified_credential
            verified_credential-VerifiedFrom bytes device e (AssertionUnreadable options)
            (AssertionRequest options) (assertion_request options)
            (assertion_request-Reading options)
