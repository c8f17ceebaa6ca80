-- ===== src/Passkey/RoundTrip.antt =====
-- `decodeBase64URL` after `encodeBase64URL`.
use subdux.Base.{
  All, List, [], any, arith, false, if◌then◌else◌, inl, inr, length, ltb, map, ok, refl, ℕ, ◌%◌,
  ◌++◌, ◌+◌, ◌<◌, ◌==◌, ◌>>=◌, ◌∷◌, ◌≡◌, ◌⊎◌,
}
use subdux.Passkey.Base64.{
  Text, atob, atob_groups, btoa, decode_base64_url, drop_padding, encode_base64_url,
  normalize_base64, padding_for, sextet_unit, strip_equals, strip_spaces, to_standard, to_url,
  without_padding,
}
use subdux.Passkey.Groups.{
  IsBytes, atob_groups-groups_of, btoa_groups-append, groups_of, groups_of-All,
  is_space-standard_unit, length-groups_of, padding_of, sextets-map, standard_unit,
  standard_unit-ne, url_unit, url_unit-ne,
}

strip_padding : (bs : List ℕ) → strip_equals (map to_url (padding_of bs)) ≡ []
unfolding strip_equals padding_of to_url
strip_padding [] = refl
strip_padding (a ∷ []) = refl
strip_padding (a ∷ b ∷ []) = refl
strip_padding (a ∷ b ∷ c ∷ rest) = strip_padding rest

-- Cutting off the `=` of the padding leaves the text before it.
strip_equals-append :
    (ns : List ℕ) (bytes : List ℕ)
    → All (λ n. n < 64) ns
    → strip_equals (map url_unit ns ++ map to_url (padding_of bytes)) ≡ map url_unit ns
unfolding strip_equals
strip_equals-append [] bytes h = strip_padding bytes
strip_equals-append (n ∷ ns) bytes (h, hs) =
    rw (strip_equals-append ns bytes hs) (by_rest (map url_unit ns))
  where
    by_rest :
        (us : List ℕ)
        → (elim us as (λ r. Text) [
          | [] ↦ if url_unit n == 61 then [] else url_unit n ∷ []
          | v ∷ vs ↦ url_unit n ∷ v ∷ vs
        ])
          ≡ url_unit n ∷ us
    by_rest [] = ground (arith, url_unit-ne n h)
    by_rest (u ∷ us) = refl

strip_spaces-map :
    (ns : List ℕ)
    → All (λ n. n < 64) ns
    → (p : Text) → strip_spaces (map standard_unit ns ++ p) ≡ map standard_unit ns ++ strip_spaces p
unfolding strip_spaces
strip_spaces-map [] h p = refl
strip_spaces-map (n ∷ ns) (h, hs) p = rw (strip_spaces-map ns hs p, is_space-standard_unit n h) refl

-- What is left over of whole groups of four, where it is padded.
abbrev IsRest : ℕ → Type 0
IsRest r = (r ≡ 0) ⊎ (r ≡ 2) ⊎ (r ≡ 3)

drop_padding-one :
    (n r : ℕ)
    → n < 64
    → IsRest r
    → drop_padding (standard_unit n ∷ padding_for r) ≡ standard_unit n ∷ []
unfolding drop_padding
drop_padding-one n r h (inl e) = rw e refl
drop_padding-one n r h (inr (inl e)) = rw e refl
drop_padding-one n r h (inr (inr e)) = rw e (ground (arith, standard_unit-ne n h))

drop_padding-two :
    (n m r : ℕ)
    → n < 64
    → m < 64
    → IsRest r
    → drop_padding (standard_unit n ∷ standard_unit m ∷ padding_for r)
      ≡ standard_unit n ∷ standard_unit m ∷ []
unfolding drop_padding
drop_padding-two n m r h k (inl e) = rw e (ground (arith, standard_unit-ne m k))
drop_padding-two n m r h k (inr (inl e)) = rw e refl
drop_padding-two n m r h k (inr (inr e)) = rw e (ground (arith, standard_unit-ne m k))

drop_padding-append :
    (n : ℕ) (ns : List ℕ) (r : ℕ)
    → All (λ m. m < 64) (n ∷ ns)
    → IsRest r
    → drop_padding (map standard_unit (n ∷ ns) ++ padding_for r) ≡ map standard_unit (n ∷ ns)
unfolding drop_padding
drop_padding-append n [] r (h, hs) k = drop_padding-one n r h k
drop_padding-append n (m ∷ []) r (h, (hm, hs)) k = drop_padding-two n m r h hm k
drop_padding-append n (m ∷ o ∷ ns) r (h, hs) k = rw (drop_padding-append m (o ∷ ns) r hs k) refl

map-map : (f g : ℕ → ℕ) (ns : List ℕ) → map f (map g ns) ≡ map (λ n. f (g n)) ns
map-map f g [] = refl
map-map f g (n ∷ ns) = rw (map-map f g ns) refl

length-map : (f : ℕ → ℕ) (ns : List ℕ) → length (map f ns) ≡ length ns
length-map f [] = refl
length-map f (n ∷ ns) = rw (length-map f ns) refl

length-append : (us vs : Text) → length (us ++ vs) ≡ length us + length vs
length-append [] vs = omega arith
length-append (u ∷ us) vs = omega (arith, length-append us vs)

map-append : (f : ℕ → ℕ) (us vs : Text) → map f (us ++ vs) ≡ map f us ++ map f vs
map-append f [] vs = refl
map-append f (u ∷ us) vs = rw (map-append f us vs) refl

strip_spaces-padding : (r : ℕ) → strip_spaces (padding_for r) ≡ padding_for r
unfolding strip_spaces
strip_spaces-padding r = ground arith

length-padding : (r : ℕ) → IsRest r → (length (padding_for r) + r) % 4 ≡ 0
length-padding r h = ground arith

any-IsBytes : (bytes : List ℕ) → IsBytes bytes → any (λ u. ltb 255 u) bytes ≡ false
any-IsBytes [] h = refl
any-IsBytes (b ∷ bytes) (h, hs) = rw (any-IsBytes bytes hs) (ground arith)

drop_padding-text :
    (ns : List ℕ)
    → All (λ m. m < 64) ns
    → IsRest (length ns % 4)
    → drop_padding (map standard_unit ns ++ padding_for (length ns % 4)) ≡ map standard_unit ns
unfolding drop_padding
drop_padding-text [] h k = refl
drop_padding-text (n ∷ ns) h k = drop_padding-append n ns (length (n ∷ ns) % 4) h k

without_padding-text :
    (ns : List ℕ)
    → All (λ m. m < 64) ns
    → IsRest (length ns % 4)
    → without_padding (map standard_unit ns ++ padding_for (length ns % 4)) ≡ map standard_unit ns
without_padding-text ns h k =
    let whole : length (map standard_unit ns ++ padding_for (length ns % 4)) % 4 ≡ 0 = omega (
      arith,
      length-append (map standard_unit ns) (padding_for (length ns % 4)),
      length-map standard_unit ns,
      length-padding (length ns % 4) k,
    ) in
    rw (whole) (drop_padding-text ns h k)

-- The text of groups of six bits is decoded by its groups.
decode-units :
    (ns : List ℕ)
    → All (λ m. m < 64) ns
    → IsRest (length ns % 4)
    → decode_base64_url (map url_unit ns) ≡ atob_groups ns
unfolding decode_base64_url normalize_base64 atob
decode-units ns h k =
    rw
      (
        map-map to_standard url_unit ns,
        length-map standard_unit ns,
        strip_spaces-map ns h (padding_for (length ns % 4)),
        strip_spaces-padding (length ns % 4),
        without_padding-text ns h k,
        sextets-map ns h,
      )
      refl

encode-units :
    (bytes : List ℕ) → IsBytes bytes → encode_base64_url bytes ≡ ok (map url_unit (groups_of bytes))
unfolding encode_base64_url btoa
encode-units bytes h =
    rw
      (
        any-IsBytes bytes h,
        btoa_groups-append bytes,
        map-append to_url (map sextet_unit (groups_of bytes)) (padding_of bytes),
        map-map to_url sextet_unit (groups_of bytes),
        strip_equals-append (groups_of bytes) bytes (groups_of-All bytes h),
      )
      refl

-- Whatever bytes a buffer holds, `encodeBase64URL` returns a text for them, and `decodeBase64URL`
-- gives the bytes back from that text.
pub decode-encode :
    (bytes : List ℕ) → IsBytes bytes → encode_base64_url bytes >>= decode_base64_url ≡ ok bytes
decode-encode bytes h =
    rw
      (
        encode-units bytes h,
        decode-units (groups_of bytes) (groups_of-All bytes h) (length-groups_of bytes),
      )
      (atob_groups-groups_of bytes h)
