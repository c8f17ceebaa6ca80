-- ===== src/Theme/Witnesses.antt =====
-- A theme whose custom colours are typed in either case.
use subdux.Base.{
  List, [], arith, false, if◌then◌else◌, leb, map, none, refl, true, ℕ, ◌&&◌, ◌+◌, ◌||◌, ◌∷◌, ◌≡◌,
}
use subdux.Theme.{
  CustomThemeColors, Text, ThemeState, custom, hex, init_theme, light, malformed,
  normalize_custom_theme_colors, parse_custom_theme_colors,
}
use subdux.Theme.Colors.{
  AreHexColors, KeepsColors, LowersCase, parse_custom_theme_colors-AreHexColors,
}
use subdux.Theme.Following.{
  Follows, ThemeEvent, choose_scheme, choose_theme, system_turns, theme_run, theme_run-Follows,
}

abbrev lower : ℕ → ℕ
lower u = if leb 65 u && leb u 90 then u + 32 else u

-- `toLowerCase` of the letters `A` to `Z`.
abbrev lowered : Text → Text
lowered text = map lower text

lower-eq : (u : ℕ) → (leb 65 (lower u) && leb (lower u) 90) ≡ false
lower-eq u = ground arith

lowered-LowersCase : LowersCase lowered
lowered-LowersCase [] = tt
lowered-LowersCase (u ∷ us) = (lower-eq u, lowered-LowersCase us)

lower_digit_lowered :
    (u : ℕ) → ((leb 48 u && leb u 57) || (leb 97 u && leb u 102)) ≡ true → lower u ≡ u
lower_digit_lowered u h = ground arith

lowered-KeepsColors : KeepsColors lowered
lowered-KeepsColors (h ∷ a ∷ b ∷ c ∷ d ∷ e ∷ f ∷ []) (th, ta, tb, tc, td, te, tf) =
    rw
      (
        th,
        lower_digit_lowered a ta,
        lower_digit_lowered b tb,
        lower_digit_lowered c tc,
        lower_digit_lowered d td,
        lower_digit_lowered e te,
        lower_digit_lowered f tf,
      )
      refl
lowered-KeepsColors [] t = elim t [ ]
lowered-KeepsColors (h ∷ []) t = elim t [ ]
lowered-KeepsColors (h ∷ a ∷ []) t = elim t [ ]
lowered-KeepsColors (h ∷ a ∷ b ∷ []) t = elim t [ ]
lowered-KeepsColors (h ∷ a ∷ b ∷ c ∷ []) t = elim t [ ]
lowered-KeepsColors (h ∷ a ∷ b ∷ c ∷ d ∷ []) t = elim t [ ]
lowered-KeepsColors (h ∷ a ∷ b ∷ c ∷ d ∷ e ∷ []) t = elim t [ ]
lowered-KeepsColors (h ∷ a ∷ b ∷ c ∷ d ∷ e ∷ f ∷ g ∷ gs) t = elim t [ ]

abbrev chosen : CustomThemeColors
chosen = record {
  light_primary = 35 ∷ 65 ∷ 98 ∷ 67 ∷ [];
  light_accent = 97 ∷ [];
  dark_primary = hex 0 1 2 3 4 5;
  dark_accent = hex 15 15 15 15 15 15;
}

abbrev blank : ThemeState
blank = record {
  stored_theme = none;
  stored_scheme = none;
  stored_colors = malformed;
  prefers_dark = false;
  dark_class = true;
  overrides = none;
}

abbrev evening : List ThemeEvent
evening = choose_scheme custom chosen ∷ system_turns true ∷ choose_theme light ∷ []

parse_custom_theme_colors-AreHexColors_example :
    AreHexColors (normalize_custom_theme_colors lowered chosen)
    × AreHexColors (parse_custom_theme_colors lowered malformed)
parse_custom_theme_colors-AreHexColors_example =
    parse_custom_theme_colors-AreHexColors lowered chosen malformed lowered-LowersCase

theme_run-Follows_example : Follows lowered (theme_run lowered evening (init_theme lowered blank))
theme_run-Follows_example =
    theme_run-Follows lowered evening blank lowered-KeepsColors lowered-LowersCase
