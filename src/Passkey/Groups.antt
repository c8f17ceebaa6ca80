-- ===== src/Passkey/Groups.antt =====
-- The groups of six bits between `btoa` and `atob`: the text without its padding.
use subdux.Base.{
  All, List, [], arith, false, inl, inr, length, map, ok, refl, some, ℕ, ◌%◌, ◌*◌, ◌++◌, ◌+◌, ◌/◌,
  ◌<◌, ◌∷◌, ◌≡◌, ◌≢◌, ◌⊎◌,
}
use subdux.Passkey.Base64.{
  Text, atob_groups, btoa_groups, is_space, sextet_unit, sextets, to_standard, to_url, unit_sextet,
}

abbrev pub IsBytes : List ℕ → Type 0
IsBytes bytes = All (λ b. b < 256) bytes

-- The numbers below 64 that the units of the encoded text stand for.
unfoldable pub groups_of : List ℕ → List ℕ
groups_of [] = []
groups_of (a ∷ []) = (a / 4) ∷ (a % 4 * 16) ∷ []
groups_of (a ∷ b ∷ []) = (a / 4) ∷ (a % 4 * 16 + b / 16) ∷ (b % 16 * 4) ∷ []
groups_of (a ∷ b ∷ c ∷ rest) =
    (a / 4) ∷ (a % 4 * 16 + b / 16) ∷ (b % 16 * 4 + c / 64) ∷ (c % 64) ∷ groups_of rest

unfoldable pub padding_of : List ℕ → Text
padding_of [] = []
padding_of (a ∷ []) = 61 ∷ 61 ∷ []
padding_of (a ∷ b ∷ []) = 61 ∷ []
padding_of (a ∷ b ∷ c ∷ rest) = padding_of rest

pub btoa_groups-append :
    (bytes : List ℕ) → btoa_groups bytes ≡ map sextet_unit (groups_of bytes) ++ padding_of bytes
unfolding btoa_groups groups_of padding_of
btoa_groups-append [] = refl
btoa_groups-append (a ∷ []) = refl
btoa_groups-append (a ∷ b ∷ []) = refl
btoa_groups-append (a ∷ b ∷ c ∷ rest) = rw (btoa_groups-append rest) refl

pub groups_of-All : (bytes : List ℕ) → IsBytes bytes → All (λ n. n < 64) (groups_of bytes)
unfolding groups_of
groups_of-All [] h = tt
groups_of-All (a ∷ []) h = omega arith
groups_of-All (a ∷ b ∷ []) h = omega arith
groups_of-All (a ∷ b ∷ c ∷ rest) (ha, (hb, (hc, h))) =
    (omega arith, (omega arith, (omega arith, (omega arith, groups_of-All rest h))))

-- The bytes are what their groups decode to.
pub atob_groups-groups_of :
    (bytes : List ℕ) → IsBytes bytes → atob_groups (groups_of bytes) ≡ ok bytes
unfolding atob_groups groups_of
atob_groups-groups_of [] h = refl
atob_groups-groups_of (a ∷ []) h = ground arith
atob_groups-groups_of (a ∷ b ∷ []) h = ground arith
atob_groups-groups_of (a ∷ b ∷ c ∷ rest) (ha, (hb, (hc, h))) =
    rw (atob_groups-groups_of rest h) (ground arith)

-- One group is never left over.
pub length-groups_of :
    (bytes : List ℕ)
    → (length (groups_of bytes) % 4 ≡ 0)
      ⊎ (length (groups_of bytes) % 4 ≡ 2)
      ⊎ (length (groups_of bytes) % 4 ≡ 3)
unfolding groups_of
length-groups_of [] = inl refl
length-groups_of (a ∷ []) = inr (inl refl)
length-groups_of (a ∷ b ∷ []) = inr (inr refl)
length-groups_of (a ∷ b ∷ c ∷ rest) = elim (length-groups_of rest) [
  | inl e ↦ inl (omega arith)
  | inr (inl e) ↦ inr (inl (omega arith))
  | inr (inr e) ↦ inr (inr (omega arith))
]

-- The unit under which a group travels: not `=`, not a space, and read back as the group.
abbrev pub url_unit : ℕ → ℕ
url_unit n = to_url (sextet_unit n)

abbrev pub standard_unit : ℕ → ℕ
standard_unit n = to_standard (url_unit n)

pub url_unit-ne : (n : ℕ) → n < 64 → url_unit n ≢ 61
unfolding to_url sextet_unit
url_unit-ne n h = ground arith

pub standard_unit-ne : (n : ℕ) → n < 64 → standard_unit n ≢ 61
unfolding to_standard to_url sextet_unit
standard_unit-ne n h = ground arith

pub is_space-standard_unit : (n : ℕ) → n < 64 → is_space (standard_unit n) ≡ false
unfolding to_standard to_url sextet_unit
is_space-standard_unit n h = ground arith

pub unit_sextet-standard_unit : (n : ℕ) → n < 64 → unit_sextet (standard_unit n) ≡ some n
unfolding to_standard to_url sextet_unit unit_sextet
unit_sextet-standard_unit n h = ground arith

pub sextets-map : (ns : List ℕ) → All (λ n. n < 64) ns → sextets (map standard_unit ns) ≡ ok ns
unfolding sextets
sextets-map [] h = refl
sextets-map (n ∷ ns) (h, hs) =
    rw (unit_sextet-standard_unit n h, sextets) (rw (sextets-map ns hs) refl)
