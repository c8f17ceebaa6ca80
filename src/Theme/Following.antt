-- ===== src/Theme/Following.antt =====
-- The document and the storage of web/src/lib/theme.ts, over sequences of events.
use subdux.Base.{Bool, List, [], ap, arith, none, refl, some, sym, ◌∙◌, ◌∷◌, ◌≡◌}
use subdux.Theme.{
  CustomThemeColors, Text, Theme, ThemeColorScheme, ThemeState, apply_theme,
  apply_theme_color_scheme, apply_theme_color_styles, dark, get_custom_theme_colors,
  get_resolved_theme_tone, get_theme, get_theme_color_preset, get_theme_color_scheme, init_theme,
  is_dark, light, no_colors, normalize_custom_theme_colors, parse_custom_theme_colors, shown_colors,
  stored_of, system, system_theme_change,
}
use subdux.Theme.Colors.{
  KeepsColors, LowersCase, parse-stored_of, parse_custom_theme_colors-AreHexColors,
}

pub data ThemeEvent : Type 0 where
  choose_theme : Theme → ThemeEvent
  choose_scheme : ThemeColorScheme → CustomThemeColors → ThemeEvent
  system_turns : Bool → ThemeEvent

module _ (clean : Text → Text) where
  unfoldable pub theme_step : ThemeEvent → ThemeState → ThemeState
  theme_step (choose_theme theme) s = apply_theme clean theme s
  theme_step (choose_scheme scheme colors) s = apply_theme_color_scheme clean scheme colors s
  theme_step (system_turns b) s = system_theme_change clean (record s { prefers_dark = b })

  unfoldable pub theme_run : List ThemeEvent → ThemeState → ThemeState
  theme_run [] s = s
  theme_run (e ∷ es) s = theme_run es (theme_step e s)

  -- The class is that of the stored theme, and the colours those of the stored scheme.
  pub record Follows (s : ThemeState) : Type 0 where
    pub class_follows : s.dark_class ≡ is_dark (get_theme s) s.prefers_dark
    pub colors_follow :
        s.overrides
        ≡ shown_colors
            (get_theme_color_preset (get_theme_color_scheme s) (get_custom_theme_colors clean s))
            (get_resolved_theme_tone (get_theme s) s)

  apply_theme-Follows : (theme : Theme) (s : ThemeState) → Follows (apply_theme clean theme s)
  unfolding apply_theme apply_theme_color_styles get_theme get_theme_color_scheme
      get_resolved_theme_tone get_custom_theme_colors
  apply_theme-Follows light s = record { class_follows = refl; colors_follow = refl }
  apply_theme-Follows dark s = record { class_follows = refl; colors_follow = refl }
  apply_theme-Follows system s = record { class_follows = refl; colors_follow = refl }

  fixed-Follows :
      (b : Bool) (theme : Theme) (s : ThemeState)
      → get_theme s ≡ theme
      → Follows s
      → Follows (elim theme as (λ t. ThemeState) [
        | light ↦ record s { prefers_dark = b }
        | dark ↦ record s { prefers_dark = b }
        | system ↦ apply_theme clean system (record s { prefers_dark = b })
      ])
  unfolding get_theme get_theme_color_scheme get_custom_theme_colors is_dark get_resolved_theme_tone
  fixed-Follows b light s e h = record {
    class_follows = ground (arith, e, h.class_follows);
    colors_follow = ground (arith, e, h.colors_follow);
  }
  fixed-Follows b dark s e h = record {
    class_follows = ground (arith, e, h.class_follows);
    colors_follow = ground (arith, e, h.colors_follow);
  }
  fixed-Follows b system s e h = apply_theme-Follows system (record s { prefers_dark = b })

  -- The tone depends on the system's preference alone.
  tone_lem :
      (theme : Theme) (s t : ThemeState)
      → s.prefers_dark ≡ t.prefers_dark
      → get_resolved_theme_tone theme s ≡ get_resolved_theme_tone theme t
  unfolding get_resolved_theme_tone
  tone_lem light s t h = refl
  tone_lem dark s t h = refl
  tone_lem system s t h = rw h refl

  module _ (keeps : KeepsColors clean) (lowers : LowersCase clean) where
    scheme-Follows :
        (scheme : ThemeColorScheme) (colors : CustomThemeColors) (s : ThemeState)
        → Follows s
        → Follows (apply_theme_color_scheme clean scheme colors s)
    unfolding apply_theme_color_scheme apply_theme_color_styles get_theme get_theme_color_scheme
        get_custom_theme_colors
    scheme-Follows scheme colors s h =
        let theme = elim s.stored_theme as (λ o. Theme) [ none ↦ system | some theme ↦ theme ] in
        let n = normalize_custom_theme_colors clean colors in
        let s' : ThemeState = record s {
          stored_scheme = some scheme;
          stored_colors = stored_of clean n;
        } in
        let s'' = apply_theme_color_scheme clean scheme colors s in
        let tone = get_resolved_theme_tone theme s' in
        record {
          class_follows = h.class_follows;
          colors_follow =
              ap (λ c. shown_colors (get_theme_color_preset scheme c) tone)
                (sym (
                  parse-stored_of clean keeps n
                    (parse_custom_theme_colors-AreHexColors clean colors no_colors lowers).0))
              ∙ ap
                  (shown_colors (
                    get_theme_color_preset scheme
                      (parse_custom_theme_colors clean (stored_of clean n))))
                  (tone_lem theme s' s'' refl);
        }

    step-Follows : (e : ThemeEvent) (s : ThemeState) → Follows s → Follows (theme_step e s)
    unfolding theme_step system_theme_change
    step-Follows (choose_theme theme) s h = apply_theme-Follows theme s
    step-Follows (choose_scheme scheme colors) s h = scheme-Follows scheme colors s h
    step-Follows (system_turns b) s h =
        fixed-Follows b (get_theme (record s { prefers_dark = b })) s (unfold get_theme in refl) h

    run-Follows : (es : List ThemeEvent) (s : ThemeState) → Follows s → Follows (theme_run es s)
    unfolding theme_run
    run-Follows [] s h = h
    run-Follows (e ∷ es) s h = run-Follows es (theme_step e s) (step-Follows e s h)

-- From `initTheme` on, whatever stood in the storage, the document has the class and the colours of
-- the theme, scheme and custom colours that are stored, after any changes by the user and any
-- changes of the system's preference, provided that `trim` and `toLowerCase` keep normal colours and
-- leave none of the letters `A` to `Z`.
pub theme_run-Follows :
    (clean : Text → Text) (es : List ThemeEvent) (s : ThemeState)
    → KeepsColors clean
    → LowersCase clean
    → Follows clean (theme_run clean es (init_theme clean s))
unfolding init_theme
theme_run-Follows clean es s keeps lowers =
    run-Follows clean keeps lowers es (apply_theme clean (get_theme s) s)
      (apply_theme-Follows clean (get_theme s) s)
