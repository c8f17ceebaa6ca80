-- ===== src/Passkey/Requests.antt =====
-- What `createPasskeyCredential` and `getPasskeyCredential` make of their options: every text is
-- read as its bytes, or one of them is no base64.
use subdux.Base.{
  List, Option, Result, [], inl, inr, none, ok, refl, some, throw, ◌>>=◌, ◌∷◌, ◌≡◌, ◌⊎◌,
}
use subdux.Passkey.Base64.{CharacterError, Text, decode_base64_url, invalid_character}
use subdux.Passkey.Ceremony.{
  Bytes, CreationOptions, Descriptor, PasskeyError, RequestOptions, assertion_request,
  bad_character, creation_request, decode, decode_items, decode_list, or_character,
}

-- `text` is read as `bytes`.
abbrev pub Encodes : Text → Bytes → Type 0
Encodes text bytes = decode_base64_url text ≡ ok bytes

-- `text` is no base64.
abbrev pub IsUnreadable : Text → Type 0
IsUnreadable text = decode_base64_url text ≡ throw invalid_character

module _ {X : Type 0} where
  -- Each credential of the list with its identifier's bytes, in the order of the list.
  abbrev pub EncodesItems : List (Descriptor Text X) → List (Descriptor Bytes X) → Type 0
  EncodesItems [] [] = Unit
  EncodesItems (item ∷ items) (d ∷ ds) =
      Encodes item.id d.id × (d.unread ≡ item.unread) × EncodesItems items ds
  EncodesItems _ _ = ⊥

  abbrev pub EncodesList :
      Option (List (Descriptor Text X)) → Option (List (Descriptor Bytes X)) → Type 0
  EncodesList none none = Unit
  EncodesList (some items) (some ds) = EncodesItems items ds
  EncodesList _ _ = ⊥

  abbrev pub AnyUnreadable : List (Descriptor Text X) → Type 0
  AnyUnreadable [] = ⊥
  AnyUnreadable (item ∷ items) = IsUnreadable item.id ⊎ AnyUnreadable items

  abbrev pub ListUnreadable : Option (List (Descriptor Text X)) → Type 0
  ListUnreadable none = ⊥
  ListUnreadable (some items) = AnyUnreadable items

  -- The request that stands for the options of a registration.
  pub record CreationRequest (options : CreationOptions Text X) (q : CreationOptions Bytes X)
      : Type 0 where
    pub created_challenge : Encodes options.challenge q.challenge
    pub created_user : Encodes options.user_id q.user_id
    pub created_excluded : EncodesList options.exclude_credentials q.exclude_credentials
    pub created_unread : q.unread ≡ options.unread

  -- The challenge, the user or one of the excluded credentials is no base64.
  abbrev pub CreationUnreadable : CreationOptions Text X → Type 0
  CreationUnreadable options =
      IsUnreadable options.challenge
      ⊎ (IsUnreadable options.user_id ⊎ ListUnreadable options.exclude_credentials)

  -- The request that stands for the options of a login.
  pub record AssertionRequest (options : RequestOptions Text X) (q : RequestOptions Bytes X)
      : Type 0 where
    pub asserted_challenge : Encodes options.challenge q.challenge
    pub asserted_allowed : EncodesList options.allow_credentials q.allow_credentials
    pub asserted_mediation : q.mediation ≡ options.mediation
    pub asserted_unread : q.unread ≡ options.unread

  -- The challenge or one of the allowed credentials is no base64.
  abbrev pub AssertionUnreadable : RequestOptions Text X → Type 0
  AssertionUnreadable options =
      IsUnreadable options.challenge ⊎ ListUnreadable options.allow_credentials

-- A request that was read, or the error for a character.
pub data Reading {R Q : Type 0} (Unreadable : Type 0) (Reads : Q → Type 0)
    : Result (PasskeyError R) Q → Type 0 where
  reads : {q : Q} → Reads q → Reading Unreadable Reads (ok q)
  fails : Unreadable → Reading Unreadable Reads (throw bad_character)

-- One part of the options after another.
bind-Reading :
    {R A B : Type 0} (U V : Type 0) (P : A → Type 0) (P' : B → Type 0)
    (m : Result (PasskeyError R) A) (f : A → Result (PasskeyError R) B)
    → Reading U P m
    → (U → V)
    → ((a : A) → P a → Reading V P' (f a))
    → Reading V P' (m >>= f)
bind-Reading U V P P' (ok a) f (reads p) h k = k a p
bind-Reading U V P P' (throw e) f (fails u) h k = fails (h u)

decode-Reading :
    {R : Type 0} (text : Text) → Reading {R = R} (IsUnreadable text) (Encodes text) (decode text)
unfolding or_character
decode-Reading {R} text = by_result (decode_base64_url text) refl
  where
    by_result :
        (m : Result CharacterError Bytes)
        → decode_base64_url text ≡ m
        → Reading {R = R} (IsUnreadable text) (Encodes text) (or_character m)
    by_result (ok bytes) e = reads e
    by_result (throw invalid_character) e = fails e

module _ {R X : Type 0} where
  decode_items-Reading :
      (items : List (Descriptor Text X))
      → Reading {R = R} (AnyUnreadable items) (EncodesItems items) (decode_items items)
  unfolding decode_items
  decode_items-Reading [] = reads tt
  decode_items-Reading (item ∷ items) =
      bind-Reading (IsUnreadable item.id) _ (Encodes item.id) _ (decode item.id) _
        (decode-Reading item.id) inl
        (λ id e.
          bind-Reading (AnyUnreadable items) _ (EncodesItems items) _ (decode_items items) _
            (decode_items-Reading items) inr (λ rest es. reads (e, refl, es)))

  decode_list-Reading :
      (items : Option (List (Descriptor Text X)))
      → Reading {R = R} (ListUnreadable items) (EncodesList items) (decode_list items)
  unfolding decode_list
  decode_list-Reading none = reads tt
  decode_list-Reading (some items) =
      bind-Reading (AnyUnreadable items) _ (EncodesItems items) _ (decode_items items) _
        (decode_items-Reading items) (λ u. u) (λ ds es. reads es)

  pub creation_request-Reading :
      (options : CreationOptions Text X)
      → Reading {R = R}
          (CreationUnreadable options)
          (CreationRequest options)
          (creation_request options)
  unfolding creation_request
  creation_request-Reading options =
      bind-Reading (IsUnreadable options.challenge) _ (Encodes options.challenge) _
        (decode options.challenge) _ (decode-Reading options.challenge) inl
        (λ challenge c.
          bind-Reading (IsUnreadable options.user_id) _ (Encodes options.user_id) _
            (decode options.user_id) _ (decode-Reading options.user_id) (λ u. inr (inl u))
            (λ user_id d.
              bind-Reading (ListUnreadable options.exclude_credentials) _
                (EncodesList options.exclude_credentials) _
                (decode_list options.exclude_credentials) _
                (decode_list-Reading options.exclude_credentials) (λ u. inr (inr u))
                (λ items es. reads (record {
                  created_challenge = c;
                  created_user = d;
                  created_excluded = es;
                  created_unread = refl;
                }))))

  pub assertion_request-Reading :
      (options : RequestOptions Text X)
      → Reading {R = R}
          (AssertionUnreadable options)
          (AssertionRequest options)
          (assertion_request options)
  unfolding assertion_request
  assertion_request-Reading options =
      bind-Reading (IsUnreadable options.challenge) _ (Encodes options.challenge) _
        (decode options.challenge) _ (decode-Reading options.challenge) inl
        (λ challenge c.
          bind-Reading (ListUnreadable options.allow_credentials) _
            (EncodesList options.allow_credentials) _ (decode_list options.allow_credentials) _
            (decode_list-Reading options.allow_credentials) inr
            (λ items es. reads (record {
              asserted_challenge = c;
              asserted_allowed = es;
              asserted_mediation = refl;
              asserted_unread = refl;
            })))
