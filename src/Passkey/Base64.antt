-- ===== src/Passkey/Base64.antt =====
-- `encodeBase64URL`, `decodeBase64URL` and `normalizeBase64`, over `btoa` and `atob` of the HTML
-- standard. A text is the list of its UTF-16 units, an ArrayBuffer the list of its bytes.
use subdux.Base.{
  Bool, List, Option, Result, [], any, if◌then◌else◌, leb, length, ltb, map, none, ok, some, throw,
  ℕ, ◌%◌, ◌&&◌, ◌*◌, ◌++◌, ◌+◌, ◌-◌, ◌/◌, ◌==◌, ◌>>=◌, ◌||◌, ◌∷◌,
}

abbrev pub Text : Type 0
Text = List ℕ

-- The exception that `btoa` and `atob` throw.
pub data CharacterError : Type 0 where
  invalid_character : CharacterError

-- The unit of a group of six bits: A-Z, a-z, 0-9, `+` and `/`.
unfoldable pub sextet_unit : ℕ → ℕ
sextet_unit n =
    if ltb n 26
    then n + 65
    else if ltb n 52
    then n + 71
    else if ltb n 62
    then n - 4
    else if n == 62
    then 43
    else 47

unfoldable pub unit_sextet : ℕ → Option ℕ
unit_sextet u =
    if leb 65 u && leb u 90
    then some (u - 65)
    else if leb 97 u && leb u 122
    then some (u - 71)
    else if leb 48 u && leb u 57
    then some (u + 4)
    else if u == 43
    then some 62
    else if u == 47
    then some 63
    else none

-- Three bytes are four groups of six bits; what is left at the end is padded by `=`.
unfoldable pub btoa_groups : List ℕ → Text
btoa_groups [] = []
btoa_groups (a ∷ []) = sextet_unit (a / 4) ∷ sextet_unit (a % 4 * 16) ∷ 61 ∷ 61 ∷ []
btoa_groups (a ∷ b ∷ []) =
    sextet_unit (a / 4) ∷ sextet_unit (a % 4 * 16 + b / 16) ∷ sextet_unit (b % 16 * 4) ∷ 61 ∷ []
btoa_groups (a ∷ b ∷ c ∷ rest) =
    sextet_unit (a / 4)
    ∷ sextet_unit (a % 4 * 16 + b / 16)
    ∷ sextet_unit (b % 16 * 4 + c / 64)
    ∷ sextet_unit (c % 64)
    ∷ btoa_groups rest

unfoldable pub btoa : Text → Result CharacterError Text
btoa units = if any (λ u. ltb 255 u) units then throw invalid_character else ok (btoa_groups units)

abbrev pub is_space : ℕ → Bool
is_space u = u == 9 || u == 10 || u == 12 || u == 13 || u == 32

unfoldable pub strip_spaces : Text → Text
strip_spaces [] = []
strip_spaces (u ∷ us) = let rest = strip_spaces us in if is_space u then rest else u ∷ rest

-- At most two `=` at the end are padding, and only of a text of whole groups of four.
unfoldable pub drop_padding : Text → Text
drop_padding [] = []
drop_padding (u ∷ v ∷ []) = if v == 61 then (if u == 61 then [] else u ∷ []) else u ∷ v ∷ []
drop_padding (u ∷ us) = u ∷ drop_padding us

abbrev pub without_padding : Text → Text
without_padding units = if length units % 4 == 0 then drop_padding units else units

-- The decoding of whole groups, and of two or three units left; one unit left is no encoding.
unfoldable pub atob_groups : List ℕ → Result CharacterError (List ℕ)
atob_groups [] = ok []
atob_groups (p ∷ []) = throw invalid_character
atob_groups (p ∷ q ∷ []) = ok ((p * 4 + q / 16) ∷ [])
atob_groups (p ∷ q ∷ r ∷ []) = ok ((p * 4 + q / 16) ∷ (q % 16 * 16 + r / 4) ∷ [])
atob_groups (p ∷ q ∷ r ∷ s ∷ rest) = atob_groups rest >>= λ bytes.
    ok ((p * 4 + q / 16) ∷ (q % 16 * 16 + r / 4) ∷ (r % 4 * 64 + s) ∷ bytes)

unfoldable pub sextets : Text → Result CharacterError (List ℕ)
sextets [] = ok []
sextets (u ∷ us) = elim (unit_sextet u) [
  | none ↦ throw invalid_character
  | some n ↦ sextets us >>= λ ns. ok (n ∷ ns)
]

unfoldable pub atob : Text → Result CharacterError (List ℕ)
atob units = sextets (without_padding (strip_spaces units)) >>= atob_groups

-- `replace(/-/g, "+").replace(/_/g, "/")`, and the other way.
unfoldable pub to_standard : ℕ → ℕ
to_standard u = if u == 45 then 43 else if u == 95 then 47 else u

unfoldable pub to_url : ℕ → ℕ
to_url u = if u == 43 then 45 else if u == 47 then 95 else u

abbrev pub padding_for : ℕ → Text
padding_for n =
    if n == 0
    then []
    else if n == 1
    then 61 ∷ 61 ∷ 61 ∷ []
    else if n == 2
    then 61 ∷ 61 ∷ []
    else 61 ∷ []

unfoldable pub normalize_base64 : Text → Text
normalize_base64 input =
    let converted = map to_standard input in converted ++ padding_for (length converted % 4)

-- Every unit that `atob` gives is a byte already.
unfoldable pub decode_base64_url : Text → Result CharacterError (List ℕ)
decode_base64_url input = atob (normalize_base64 input)

-- `replace(/=+$/u, "")`.
unfoldable pub strip_equals : Text → Text
strip_equals [] = []
strip_equals (u ∷ us) =
    let rest = strip_equals us in
    elim rest [ [] ↦ if u == 61 then [] else u ∷ [] | v ∷ vs ↦ u ∷ v ∷ vs ]

unfoldable pub encode_base64_url : List ℕ → Result CharacterError Text
encode_base64_url bytes = btoa bytes >>= λ text. ok (strip_equals (map to_url text))
