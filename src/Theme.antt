-- ===== src/Theme.antt =====
-- web/src/lib/theme.ts: the theme and its colours in localStorage, and what the document shows of
-- them. A text is the list of its UTF-16 units. The thirteen style variables are a function of the
-- base colours and the tone, so the document keeps these two; `trim` with `toLowerCase` is the
-- parameter `clean`.
pub mod Colors
pub mod Following
mod Witnesses
use subdux.Base.{
  Bool, List, Option, [], false, if◌then◌else◌, leb, ltb, none, some, true, ℕ, ◌&&◌, ◌+◌, ◌==◌,
  ◌||◌, ◌∷◌,
}

pub data Theme : Type 0 where
  light dark system : Theme

pub data ThemeColorScheme : Type 0 where
  default ocean sunset forest custom : ThemeColorScheme

pub data ThemeTone : Type 0 where
  light_tone dark_tone : ThemeTone

abbrev pub Text : Type 0
Text = List ℕ

pub record CustomThemeColors : Type 0 where
  pub light_primary : Text
  pub light_accent : Text
  pub dark_primary : Text
  pub dark_accent : Text

pub record ThemeBaseColors : Type 0 where
  pub primary : Text
  pub accent : Text

pub record ThemeColorPreset : Type 0 where
  pub light_colors : ThemeBaseColors
  pub dark_colors : ThemeBaseColors

-- What JSON.parse makes of the stored colours: nothing stored, a text that it rejects or that is no
-- object, or an object with the fields that are texts.
pub data StoredColors : Type 0 where
  no_colors malformed : StoredColors
  colors_of : Option Text → Option Text → Option Text → Option Text → StoredColors

-- localStorage, in which a text that names no theme or no scheme is none; the system's preference;
-- the class `dark` of the document; and the colours that its style variables are set from.
pub record ThemeState : Type 0 where
  pub stored_theme : Option Theme
  pub stored_scheme : Option ThemeColorScheme
  pub stored_colors : StoredColors
  pub prefers_dark : Bool
  pub dark_class : Bool
  pub overrides : Option (ThemeBaseColors × ThemeTone)

-- The unit of a digit in base 16.
abbrev digit_unit : ℕ → ℕ
digit_unit d = if ltb d 10 then 48 + d else 87 + d

abbrev pub hex : ℕ → ℕ → ℕ → ℕ → ℕ → ℕ → Text
hex a b c d e f =
    35
    ∷ digit_unit a
    ∷ digit_unit b
    ∷ digit_unit c
    ∷ digit_unit d
    ∷ digit_unit e
    ∷ digit_unit f
    ∷ []

unfoldable pub default_custom_theme_colors : CustomThemeColors
default_custom_theme_colors = record {
  light_primary = hex 2 5 6 3 14 11;
  light_accent = hex 1 4 11 8 10 6;
  dark_primary = hex 6 0 10 5 15 10;
  dark_accent = hex 2 13 13 4 11 15;
}

unfoldable pub ocean_preset : ThemeColorPreset
ocean_preset = record {
  light_colors = record { primary = hex 2 5 6 3 14 11; accent = hex 0 14 10 5 14 9 };
  dark_colors = record { primary = hex 6 0 10 5 15 10; accent = hex 2 2 13 3 14 14 };
}

unfoldable pub sunset_preset : ThemeColorPreset
sunset_preset = record {
  light_colors = record { primary = hex 14 10 5 8 0 12; accent = hex 14 12 4 8 9 9 };
  dark_colors = record { primary = hex 15 11 9 2 3 12; accent = hex 15 4 7 2 11 6 };
}

unfoldable pub forest_preset : ThemeColorPreset
forest_preset = record {
  light_colors = record { primary = hex 1 6 6 5 3 4; accent = hex 0 15 7 6 6 14 };
  dark_colors = record { primary = hex 4 10 13 14 8 0; accent = hex 2 13 13 4 11 15 };
}

unfoldable pub get_theme_color_preset :
    ThemeColorScheme → CustomThemeColors → Option ThemeColorPreset
get_theme_color_preset default colors = none
get_theme_color_preset ocean colors = some ocean_preset
get_theme_color_preset sunset colors = some sunset_preset
get_theme_color_preset forest colors = some forest_preset
get_theme_color_preset custom colors = some (record {
  light_colors = record { primary = colors.light_primary; accent = colors.light_accent };
  dark_colors = record { primary = colors.dark_primary; accent = colors.dark_accent };
})

-- The digits of HEX_COLOR_PATTERN, which has the flag `i`.
abbrev pub is_hex_digit : ℕ → Bool
is_hex_digit u = (leb 48 u && leb u 57) || (leb 97 u && leb u 102) || (leb 65 u && leb u 70)

-- The pattern, and the doubling of the three digits of a short colour.
unfoldable pub expand : Text → Text → Text
expand fallback (hash ∷ r ∷ g ∷ b ∷ []) =
    if hash == 35 && is_hex_digit r && is_hex_digit g && is_hex_digit b
    then hash ∷ r ∷ r ∷ g ∷ g ∷ b ∷ b ∷ []
    else fallback
expand fallback (hash ∷ r ∷ r' ∷ g ∷ g' ∷ b ∷ b' ∷ []) =
    if hash == 35
      && is_hex_digit r
      && is_hex_digit r'
      && is_hex_digit g
      && is_hex_digit g'
      && is_hex_digit b
      && is_hex_digit b'
    then hash ∷ r ∷ r' ∷ g ∷ g' ∷ b ∷ b' ∷ []
    else fallback
expand fallback _ = fallback

abbrev pub text_or : Text → Option Text → Text
text_or fallback none = fallback
text_or fallback (some text) = text

unfoldable pub get_theme : ThemeState → Theme
get_theme s = elim s.stored_theme [ none ↦ system | some theme ↦ theme ]

unfoldable pub get_theme_color_scheme : ThemeState → ThemeColorScheme
get_theme_color_scheme s = elim s.stored_scheme [ none ↦ default | some scheme ↦ scheme ]

unfoldable pub get_resolved_theme_tone : Theme → ThemeState → ThemeTone
get_resolved_theme_tone light s = light_tone
get_resolved_theme_tone dark s = dark_tone
get_resolved_theme_tone system s = if s.prefers_dark then dark_tone else light_tone

abbrev pub colors_for : ThemeColorPreset → ThemeTone → ThemeBaseColors
colors_for preset light_tone = preset.light_colors
colors_for preset dark_tone = preset.dark_colors

abbrev pub shown_colors : Option ThemeColorPreset → ThemeTone → Option (ThemeBaseColors × ThemeTone)
shown_colors none tone = none
shown_colors (some preset) tone = some (colors_for preset tone, tone)

-- Sets all the variables, or removes them for the default scheme.
unfoldable pub apply_theme_color_styles :
    Theme → ThemeColorScheme → CustomThemeColors → ThemeState → ThemeState
apply_theme_color_styles theme scheme colors s = record s {
  overrides = shown_colors (get_theme_color_preset scheme colors) (get_resolved_theme_tone theme s);
}

unfoldable pub is_dark : Theme → Bool → Bool
is_dark light prefers_dark = false
is_dark dark prefers_dark = true
is_dark system prefers_dark = prefers_dark

module _ (clean : Text → Text) where
  unfoldable pub normalize_hex_color : Text → Text → Text
  normalize_hex_color value fallback = expand fallback (clean value)

  unfoldable pub normalize_custom_theme_colors : CustomThemeColors → CustomThemeColors
  normalize_custom_theme_colors colors = record {
    light_primary =
        normalize_hex_color colors.light_primary default_custom_theme_colors.light_primary;
    light_accent = normalize_hex_color colors.light_accent default_custom_theme_colors.light_accent;
    dark_primary = normalize_hex_color colors.dark_primary default_custom_theme_colors.dark_primary;
    dark_accent = normalize_hex_color colors.dark_accent default_custom_theme_colors.dark_accent;
  }

  unfoldable pub parse_custom_theme_colors : StoredColors → CustomThemeColors
  parse_custom_theme_colors no_colors = default_custom_theme_colors
  parse_custom_theme_colors malformed = default_custom_theme_colors
  parse_custom_theme_colors (colors_of lp la dp da) = normalize_custom_theme_colors (record {
    light_primary = text_or default_custom_theme_colors.light_primary lp;
    light_accent = text_or default_custom_theme_colors.light_accent la;
    dark_primary = text_or default_custom_theme_colors.dark_primary dp;
    dark_accent = text_or default_custom_theme_colors.dark_accent da;
  })

  unfoldable pub get_custom_theme_colors : ThemeState → CustomThemeColors
  get_custom_theme_colors s = parse_custom_theme_colors s.stored_colors

  unfoldable pub apply_theme : Theme → ThemeState → ThemeState
  apply_theme theme s =
      let s' = record s { stored_theme = some theme; dark_class = is_dark theme s.prefers_dark } in
      apply_theme_color_styles theme (get_theme_color_scheme s') (get_custom_theme_colors s') s'

  abbrev pub stored_of : CustomThemeColors → StoredColors
  stored_of c =
      colors_of (some c.light_primary) (some c.light_accent) (some c.dark_primary)
        (some c.dark_accent)

  unfoldable pub apply_theme_color_scheme :
      ThemeColorScheme → CustomThemeColors → ThemeState → ThemeState
  apply_theme_color_scheme scheme colors s =
      let normalized = normalize_custom_theme_colors colors in
      let s' = record s { stored_scheme = some scheme; stored_colors = stored_of normalized } in
      apply_theme_color_styles (get_theme s') scheme normalized s'

  unfoldable pub init_theme : ThemeState → ThemeState
  init_theme s = apply_theme (get_theme s) s

  -- The callback of `watchSystemTheme`.
  unfoldable pub system_theme_change : ThemeState → ThemeState
  system_theme_change s = elim (get_theme s) [
    | light ↦ s
    | dark ↦ s
    | system ↦ apply_theme system s
  ]

-- The two colours of a scheme's swatch.
unfoldable pub get_theme_color_scheme_swatch : ThemeColorScheme → CustomThemeColors → Text × Text
get_theme_color_scheme_swatch default colors = (hex 1 1 1 8 2 7, hex 6 11 7 2 8 0)
get_theme_color_scheme_swatch ocean colors =
    (ocean_preset.light_colors.primary, ocean_preset.light_colors.accent)
get_theme_color_scheme_swatch sunset colors =
    (sunset_preset.light_colors.primary, sunset_preset.light_colors.accent)
get_theme_color_scheme_swatch forest colors =
    (forest_preset.light_colors.primary, forest_preset.light_colors.accent)
get_theme_color_scheme_swatch custom colors = (colors.light_primary, colors.light_accent)

-- In a browser, where `window` is there.
unfoldable pub use_theme : ThemeState → ThemeTone
use_theme s = elim (get_theme s) [
  | light ↦ light_tone
  | dark ↦ dark_tone
  | system ↦ if s.prefers_dark then dark_tone else light_tone
]
