-- ===== src/Passkey/Witnesses.antt =====
-- Runs of the ceremonies with concrete bytes and browsers.
use subdux.Base.{
  [], arith, none, ok, ok_injective, refl, some, subst, throw, true, ℕ, ◌+◌, ◌>>=◌, ◌∷◌, ◌≡◌,
}
use subdux.Passkey.Base64.{
  Text, atob, btoa, btoa_groups, decode_base64_url, drop_padding, encode_base64_url,
  invalid_character, normalize_base64, sextet_unit, sextets, strip_equals, strip_spaces,
  to_standard, to_url, unit_sextet,
}
use subdux.Passkey.Ceremony.{
  Ask, Bytes, CreationOptions, Device, RequestOptions, assertion, attestation,
  create_passkey_credential, get_passkey_credential, public_key_credential,
}
use subdux.Passkey.Messages.{
  get_error_name, get_passkey_error_key, get_passkey_error_message, key_of_name,
}
use subdux.Passkey.Outcomes.{
  create_passkey_credential-CeremonyOutcome, get_passkey_credential-CeremonyOutcome,
}
use subdux.Passkey.Requests.{
  AssertionRequest, AssertionUnreadable, CreationRequest, CreationUnreadable,
}
use subdux.Passkey.Results.{CeremonyOutcome, CreatedFrom, HoldsBytes, VerifiedFrom}
use subdux.Passkey.RoundTrip.{decode-encode}

decode-encode_example :
    encode_base64_url (251 ∷ 255 ∷ 190 ∷ 1 ∷ []) >>= decode_base64_url
    ≡ ok (251 ∷ 255 ∷ 190 ∷ 1 ∷ [])
decode-encode_example =
    decode-encode (251 ∷ 255 ∷ 190 ∷ 1 ∷ [])
      (omega arith, (omega arith, (omega arith, (omega arith, tt))))

-- `-_--AQ`, with both replaced letters.
url_letters : encode_base64_url (251 ∷ 255 ∷ 190 ∷ 1 ∷ []) ≡ ok (45 ∷ 95 ∷ 45 ∷ 45 ∷ 65 ∷ 81 ∷ [])
unfolding encode_base64_url btoa btoa_groups sextet_unit to_url strip_equals
url_letters = refl

-- One letter alone is no encoding.
single_letter : decode_base64_url (65 ∷ []) ≡ throw invalid_character
unfolding decode_base64_url normalize_base64 to_standard atob strip_spaces drop_padding sextets
    unit_sextet
single_letter = refl

abbrev phone : Device
phone = record { is_browser = true; is_secure_context = true; has_public_key_credential = true }

-- A browser that counts what it is asked, and answers with an attestation.
abbrev attest : Ask Unit ℕ (CreationOptions Bytes ℕ) ℕ
attest request n =
    (ok (public_key_credential (80 ∷ []) (7 ∷ []) 0 (attestation (1 ∷ []) (2 ∷ []) none)), n + 1)

abbrev assert : Ask Unit ℕ (RequestOptions Bytes ℕ) ℕ
assert request n = (
  ok (
      public_key_credential (80 ∷ []) (7 ∷ []) 0
        (assertion (1 ∷ []) (2 ∷ []) (3 ∷ []) (some (4 ∷ [])))),
  n + 1,
)

abbrev options : CreationOptions Text ℕ
options = record {
  challenge = 65 ∷ 81 ∷ [];
  user_id = 65 ∷ 81 ∷ [];
  exclude_credentials = some (record { id = 65 ∷ 81 ∷ []; unread = 0 } ∷ []);
  unread = 0;
}

abbrev login_options : RequestOptions Text ℕ
login_options = record {
  challenge = 65 ∷ 81 ∷ [];
  allow_credentials = none;
  mediation = 0;
  unread = 0;
}

create_passkey_credential-CeremonyOutcome_example :
    CeremonyOutcome phone attest CreatedFrom
      (CreationUnreadable options)
      (CreationRequest options)
      0
      (create_passkey_credential phone attest options 0)
create_passkey_credential-CeremonyOutcome_example =
    create_passkey_credential-CeremonyOutcome phone attest options 0 (λ q credential e.
      subst HoldsBytes (ok_injective e) ((omega arith, tt), (omega arith, tt), (omega arith, tt)))

get_passkey_credential-CeremonyOutcome_example :
    CeremonyOutcome phone assert VerifiedFrom
      (AssertionUnreadable login_options)
      (AssertionRequest login_options)
      0
      (get_passkey_credential phone assert login_options 0)
get_passkey_credential-CeremonyOutcome_example =
    get_passkey_credential-CeremonyOutcome phone assert login_options 0 (λ q credential e.
      subst HoldsBytes (ok_injective e) (
        (omega arith, tt),
        (omega arith, tt),
        (omega arith, tt),
        (omega arith, tt),
        (omega arith, tt),
      ))

-- A cancelled ceremony, and an error without a name of its own.
cancelled :
    get_passkey_error_message
      (λ s. s)
      (λ s. s)
      (λ key. key)
      "passkeys.failed"
      (record { name = some "NotAllowedError"; message = some "denied" })
    ≡ "common.passkeyErrors.notAllowed"
unfolding get_passkey_error_message get_passkey_error_key key_of_name get_error_name
cancelled = refl
