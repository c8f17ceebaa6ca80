-- ===== src/Passkey/Ceremony.antt =====
-- `createPasskeyCredential` and `getPasskeyCredential`. What the code passes on unread (the relying
-- party, the names of the user, the transports) is a type of the section; the browser's own
-- `navigator.credentials` is a function on the browser's state that the section takes.
use subdux.Base.{
  Bool, List, Option, Result, [], if◌then◌else◌, none, ok, some, throw, ℕ, ◌&&◌, ◌>>=◌, ◌∷◌,
}
use subdux.Passkey.Base64.{
  CharacterError, Text, decode_base64_url, encode_base64_url, invalid_character,
}

pub record Device : Type 0 where
  pub is_browser : Bool
  pub is_secure_context : Bool
  pub has_public_key_credential : Bool

unfoldable pub is_passkey_supported : Device → Bool
is_passkey_supported device =
    device.is_browser && device.is_secure_context && device.has_public_key_credential

-- The errors of the two functions; `browser_refused` is the rejection of the browser's promise.
pub data PasskeyError (R : Type 0) : Type 0 where
  not_supported : PasskeyError R
  bad_character : PasskeyError R
  browser_refused : R → PasskeyError R
  failed_to_create : PasskeyError R
  failed_to_verify : PasskeyError R
  unexpected_attestation : PasskeyError R
  unexpected_assertion : PasskeyError R

-- The options, with texts for the bytes as they come from the server, or with the bytes. `X` is
-- what is passed on unread.
pub record Descriptor (B X : Type 0) : Type 0 where
  pub id : B
  pub unread : X

pub record CreationOptions (B X : Type 0) : Type 0 where
  pub challenge : B
  pub user_id : B
  pub exclude_credentials : Option (List (Descriptor B X))
  pub unread : X

pub record RequestOptions (B X : Type 0) : Type 0 where
  pub challenge : B
  pub allow_credentials : Option (List (Descriptor B X))
  pub mediation : X
  pub unread : X

abbrev pub Bytes : Type 0
Bytes = List ℕ

-- What the browser answers: a credential with one of the two responses or another, or no
-- `PublicKeyCredential`. `X` as above.
pub data AuthenticatorResponse (X : Type 0) : Type 0 where
  attestation :
      (attestation_object client_data_json : Bytes) (transports : Option X)
      → AuthenticatorResponse X
  assertion :
      (authenticator_data client_data_json signature : Bytes) (user_handle : Option Bytes)
      → AuthenticatorResponse X
  other_response : AuthenticatorResponse X

pub data Credential (X : Type 0) : Type 0 where
  public_key_credential :
      (id : Text) (raw_id : Bytes) (unread : X) (response : AuthenticatorResponse X) → Credential X
  other_credential : Credential X

-- What the functions return.
pub record CreatedCredential (X : Type 0) : Type 0 where
  pub id : Text
  pub raw_id : Text
  pub unread : X
  pub attestation_object : Text
  pub client_data_json : Text
  pub transports : Option X

pub record VerifiedCredential (X : Type 0) : Type 0 where
  pub id : Text
  pub raw_id : Text
  pub unread : X
  pub authenticator_data : Text
  pub client_data_json : Text
  pub signature : Text
  pub user_handle : Option Text

module _ {R : Type 0} where
  unfoldable pub or_character : {A : Type 0} → Result CharacterError A → Result (PasskeyError R) A
  or_character (ok a) = ok a
  or_character (throw invalid_character) = throw bad_character

  abbrev pub decode : Text → Result (PasskeyError R) Bytes
  decode text = or_character (decode_base64_url text)

  abbrev pub encode : Bytes → Result (PasskeyError R) Text
  encode bytes = or_character (encode_base64_url bytes)

  unfoldable pub decode_items :
      {X : Type 0} → List (Descriptor Text X) → Result (PasskeyError R) (List (Descriptor Bytes X))
  decode_items [] = ok []
  decode_items (item ∷ items) = decode (item.id) >>= λ id.
      decode_items items >>= λ rest. ok (record { id = id; unread = item.unread } ∷ rest)

  unfoldable pub decode_list :
      {X : Type 0}
      → Option (List (Descriptor Text X))
      → Result (PasskeyError R) (Option (List (Descriptor Bytes X)))
  decode_list none = ok none
  decode_list (some items) = decode_items items >>= λ decoded. ok (some decoded)

  unfoldable pub creation_request :
      {X : Type 0} → CreationOptions Text X → Result (PasskeyError R) (CreationOptions Bytes X)
  creation_request options = decode (options.challenge) >>= λ challenge.
      decode (options.user_id) >>= λ user_id. decode_list (options.exclude_credentials) >>= λ items.
      ok (record {
        challenge = challenge;
        user_id = user_id;
        exclude_credentials = items;
        unread = options.unread;
      })

  unfoldable pub assertion_request :
      {X : Type 0} → RequestOptions Text X → Result (PasskeyError R) (RequestOptions Bytes X)
  assertion_request options = decode (options.challenge) >>= λ challenge.
      decode_list (options.allow_credentials) >>= λ items. ok (record {
        challenge = challenge;
        allow_credentials = items;
        mediation = options.mediation;
        unread = options.unread;
      })

  unfoldable pub encode_handle : Option Bytes → Result (PasskeyError R) (Option Text)
  encode_handle none = ok none
  encode_handle (some bytes) = encode bytes >>= λ text. ok (some text)

  unfoldable pub created_credential :
      {X : Type 0} → Credential X → Result (PasskeyError R) (CreatedCredential X)
  created_credential (public_key_credential id raw unread (attestation object client transports)) =
      encode raw >>= λ raw_id. encode object >>= λ attestation_object.
      encode client >>= λ client_data_json. ok (record {
        id = id;
        raw_id = raw_id;
        unread = unread;
        attestation_object = attestation_object;
        client_data_json = client_data_json;
        transports = transports;
      })
  created_credential
        (public_key_credential id raw unread (assertion data_ client signature handle)) =
      throw unexpected_attestation
  created_credential (public_key_credential id raw unread other_response) =
      throw unexpected_attestation
  created_credential other_credential = throw failed_to_create

  unfoldable pub verified_credential :
      {X : Type 0} → Credential X → Result (PasskeyError R) (VerifiedCredential X)
  verified_credential (public_key_credential id raw unread (assertion auth client sig handle)) =
      encode raw >>= λ raw_id. encode auth >>= λ authenticator_data.
      encode client >>= λ client_data_json. encode sig >>= λ signature.
      encode_handle handle >>= λ user_handle. ok (record {
        id = id;
        raw_id = raw_id;
        unread = unread;
        authenticator_data = authenticator_data;
        client_data_json = client_data_json;
        signature = signature;
        user_handle = user_handle;
      })
  verified_credential (public_key_credential id raw unread (attestation object client transports)) =
      throw unexpected_assertion
  verified_credential (public_key_credential id raw unread other_response) =
      throw unexpected_assertion
  verified_credential other_credential = throw failed_to_verify

-- What the browser does with a request: an answer or a rejection, and its state after that.
abbrev pub Ask : Type 0 → Type 0 → Type 0 → Type 0 → Type 0
Ask R S Q X = Q → S → Result R (Credential X) × S

module _ {R S X : Type 0} where
  unfoldable pub ask_browser :
      {Q C : Type 0}
      → Ask R S Q X
      → (Credential X → Result (PasskeyError R) C)
      → Result (PasskeyError R) Q
      → S
      → Result (PasskeyError R) C × S
  ask_browser ask read (throw e) s = (throw e, s)
  ask_browser ask read (ok request) s =
      let (result, after) = ask request s in
      (
        elim result [
          | throw reason ↦ throw (browser_refused reason)
          | ok credential ↦ read credential
        ],
        after,
      )

  unfoldable pub create_passkey_credential :
      Device
      → Ask R S (CreationOptions Bytes X) X
      → CreationOptions Text X
      → S
      → Result (PasskeyError R) (CreatedCredential X) × S
  create_passkey_credential device create options s =
      if is_passkey_supported device
      then ask_browser create created_credential (creation_request options) s
      else (throw not_supported, s)

  unfoldable pub get_passkey_credential :
      Device
      → Ask R S (RequestOptions Bytes X) X
      → RequestOptions Text X
      → S
      → Result (PasskeyError R) (VerifiedCredential X) × S
  get_passkey_credential device get options s =
      if is_passkey_supported device
      then ask_browser get verified_credential (assertion_request options) s
      else (throw not_supported, s)
