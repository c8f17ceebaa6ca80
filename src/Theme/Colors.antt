-- ===== src/Theme/Colors.antt =====
-- Colours of web/src/lib/theme.ts in normal form: `#` and six digits in lower case.
use subdux.Base.{
  All, Bool, [], ap, arith, false, if◌then◌else◌, leb, refl, true, ℕ, ◌&&◌, ◌==◌, ◌||◌, ◌∙◌, ◌∷◌,
  ◌≡◌,
}
use subdux.Theme.{
  CustomThemeColors, StoredColors, Text, colors_of, default_custom_theme_colors, expand,
  is_hex_digit, malformed, no_colors, normalize_custom_theme_colors, normalize_hex_color,
  parse_custom_theme_colors, stored_of, text_or,
}

-- `0` to `9`, and `a` to `f`.
abbrev is_lower_digit : ℕ → Bool
is_lower_digit u = (leb 48 u && leb u 57) || (leb 97 u && leb u 102)

abbrev pub IsHexColor : Text → Type 0
IsHexColor (h ∷ a ∷ b ∷ c ∷ d ∷ e ∷ f ∷ []) =
    (h ≡ 35)
    × (is_lower_digit a ≡ true)
    × (is_lower_digit b ≡ true)
    × (is_lower_digit c ≡ true)
    × (is_lower_digit d ≡ true)
    × (is_lower_digit e ≡ true)
    × (is_lower_digit f ≡ true)
IsHexColor _ = ⊥

-- `A` to `Z`.
abbrev is_upper_case : ℕ → Bool
is_upper_case u = leb 65 u && leb u 90

abbrev IsLowerCase : Text → Type 0
IsLowerCase = All (λ u. is_upper_case u ≡ false)

-- What `toLowerCase` gives has none of the letters `A` to `Z`.
abbrev pub LowersCase : (Text → Text) → Type 0
LowersCase clean = (x : Text) → IsLowerCase (clean x)

-- Neither `trim` nor `toLowerCase` changes a colour in normal form.
abbrev pub KeepsColors : (Text → Text) → Type 0
KeepsColors clean = (x : Text) → IsHexColor x → clean x ≡ x

-- A digit of the pattern that is no upper case letter.
lower_digit : (u : ℕ) → is_hex_digit u ≡ true → is_upper_case u ≡ false → is_lower_digit u ≡ true
lower_digit u h l = ground arith

all_digits :
    (h a b c d e f : ℕ)
    → (h == 35
        && is_hex_digit a
        && is_hex_digit b
        && is_hex_digit c
        && is_hex_digit d
        && is_hex_digit e
        && is_hex_digit f)
      ≡ true
    → IsLowerCase (a ∷ b ∷ c ∷ d ∷ e ∷ f ∷ [])
    → IsHexColor (h ∷ a ∷ b ∷ c ∷ d ∷ e ∷ f ∷ [])
all_digits h a b c d e f t (la, (lb, (lc, (ld, (le, (lf, _)))))) = (
  ground arith,
  lower_digit a (ground arith) la,
  lower_digit b (ground arith) lb,
  lower_digit c (ground arith) lc,
  lower_digit d (ground arith) ld,
  lower_digit e (ground arith) le,
  lower_digit f (ground arith) lf,
)

module _ (fallback : Text) (normal : IsHexColor fallback) where
  if-IsHexColor :
      (c : Bool) (x : Text) → (c ≡ true → IsHexColor x) → IsHexColor (if c then x else fallback)
  if-IsHexColor true x h = h refl
  if-IsHexColor false x h = normal

  expand-IsHexColor : (value : Text) → IsLowerCase value → IsHexColor (expand fallback value)
  unfolding expand
  expand-IsHexColor [] l = normal
  expand-IsHexColor (h ∷ []) l = normal
  expand-IsHexColor (h ∷ a ∷ []) l = normal
  expand-IsHexColor (h ∷ a ∷ b ∷ []) l = normal
  expand-IsHexColor (h ∷ a ∷ b ∷ c ∷ []) (_, (la, (lb, (lc, _)))) =
      if-IsHexColor (h == 35 && is_hex_digit a && is_hex_digit b && is_hex_digit c)
        (h ∷ a ∷ a ∷ b ∷ b ∷ c ∷ c ∷ [])
        (λ t. all_digits h a a b b c c (ground arith) (la, (la, (lb, (lb, (lc, (lc, tt)))))))
  expand-IsHexColor (h ∷ a ∷ b ∷ c ∷ d ∷ []) l = normal
  expand-IsHexColor (h ∷ a ∷ b ∷ c ∷ d ∷ e ∷ []) l = normal
  expand-IsHexColor (h ∷ a ∷ b ∷ c ∷ d ∷ e ∷ f ∷ []) (_, l) =
      if-IsHexColor
        (h == 35
          && is_hex_digit a
          && is_hex_digit b
          && is_hex_digit c
          && is_hex_digit d
          && is_hex_digit e
          && is_hex_digit f)
        (h ∷ a ∷ b ∷ c ∷ d ∷ e ∷ f ∷ []) (λ t. all_digits h a b c d e f t l)
  expand-IsHexColor (h ∷ a ∷ b ∷ c ∷ d ∷ e ∷ f ∷ g ∷ gs) l = normal

expand-normal : (fallback value : Text) → IsHexColor value → expand fallback value ≡ value
unfolding expand
expand-normal fallback (h ∷ a ∷ b ∷ c ∷ d ∷ e ∷ f ∷ []) (th, ta, tb, tc, td, te, tf) =
    let pattern_fits : (h == 35
          && is_hex_digit a
          && is_hex_digit b
          && is_hex_digit c
          && is_hex_digit d
          && is_hex_digit e
          && is_hex_digit f)
        ≡ true =
      ground arith in
    rw pattern_fits refl
expand-normal fallback [] t = elim t [ ]
expand-normal fallback (h ∷ []) t = elim t [ ]
expand-normal fallback (h ∷ a ∷ []) t = elim t [ ]
expand-normal fallback (h ∷ a ∷ b ∷ []) t = elim t [ ]
expand-normal fallback (h ∷ a ∷ b ∷ c ∷ []) t = elim t [ ]
expand-normal fallback (h ∷ a ∷ b ∷ c ∷ d ∷ []) t = elim t [ ]
expand-normal fallback (h ∷ a ∷ b ∷ c ∷ d ∷ e ∷ []) t = elim t [ ]
expand-normal fallback (h ∷ a ∷ b ∷ c ∷ d ∷ e ∷ f ∷ g ∷ gs) t = elim t [ ]

-- All four colours in normal form.
pub record AreHexColors (colors : CustomThemeColors) : Type 0 where
  pub light_primary_hex : IsHexColor colors.light_primary
  pub light_accent_hex : IsHexColor colors.light_accent
  pub dark_primary_hex : IsHexColor colors.dark_primary
  pub dark_accent_hex : IsHexColor colors.dark_accent

default-AreHexColors : AreHexColors default_custom_theme_colors
unfolding default_custom_theme_colors
default-AreHexColors = record {
  light_primary_hex = (refl, refl, refl, refl, refl, refl, refl);
  light_accent_hex = (refl, refl, refl, refl, refl, refl, refl);
  dark_primary_hex = (refl, refl, refl, refl, refl, refl, refl);
  dark_accent_hex = (refl, refl, refl, refl, refl, refl, refl);
}

-- Whatever the user types for the four custom colours, and in whatever case, they are kept as `#` and
-- six digits in lower case, and so are whatever colours an earlier version has stored when they are
-- read, given that `toLowerCase` leaves none of the letters `A` to `Z`.
pub parse_custom_theme_colors-AreHexColors :
    (clean : Text → Text) (colors : CustomThemeColors) (stored : StoredColors)
    → LowersCase clean
    → AreHexColors (normalize_custom_theme_colors clean colors)
      × AreHexColors (parse_custom_theme_colors clean stored)
unfolding normalize_custom_theme_colors normalize_hex_color parse_custom_theme_colors
    default_custom_theme_colors
parse_custom_theme_colors-AreHexColors clean colors stored lowers =
    (normalized colors, by_stored stored)
  where
    normalized : (c : CustomThemeColors) → AreHexColors (normalize_custom_theme_colors clean c)
    normalized c = record {
      light_primary_hex =
          expand-IsHexColor _ (refl, refl, refl, refl, refl, refl, refl) (clean c.light_primary)
            (lowers _);
      light_accent_hex =
          expand-IsHexColor _ (refl, refl, refl, refl, refl, refl, refl) (clean c.light_accent)
            (lowers _);
      dark_primary_hex =
          expand-IsHexColor _ (refl, refl, refl, refl, refl, refl, refl) (clean c.dark_primary)
            (lowers _);
      dark_accent_hex =
          expand-IsHexColor _ (refl, refl, refl, refl, refl, refl, refl) (clean c.dark_accent)
            (lowers _);
    }

    by_stored : (o : StoredColors) → AreHexColors (parse_custom_theme_colors clean o)
    by_stored no_colors = default-AreHexColors
    by_stored malformed = default-AreHexColors
    by_stored (colors_of lp la dp da) = normalized (record {
      light_primary = text_or default_custom_theme_colors.light_primary lp;
      light_accent = text_or default_custom_theme_colors.light_accent la;
      dark_primary = text_or default_custom_theme_colors.dark_primary dp;
      dark_accent = text_or default_custom_theme_colors.dark_accent da;
    })

module _ (clean : Text → Text) (keeps : KeepsColors clean) where
  kept :
      (fallback value : Text) → IsHexColor value → normalize_hex_color clean value fallback ≡ value
  unfolding normalize_hex_color
  kept fallback value h = ap (expand fallback) (keeps value h) ∙ expand-normal fallback value h

  -- What is stored reads back as it was.
  pub parse-stored_of :
      (c : CustomThemeColors)
      → AreHexColors c
      → parse_custom_theme_colors clean (stored_of clean c) ≡ c
  unfolding parse_custom_theme_colors normalize_custom_theme_colors
  parse-stored_of c h =
      rw
        (
          kept default_custom_theme_colors.light_primary c.light_primary h.light_primary_hex,
          kept default_custom_theme_colors.light_accent c.light_accent h.light_accent_hex,
          kept default_custom_theme_colors.dark_primary c.dark_primary h.dark_primary_hex,
          kept default_custom_theme_colors.dark_accent c.dark_accent h.dark_accent_hex,
        )
        refl
