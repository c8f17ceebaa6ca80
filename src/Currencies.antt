-- ===== src/Currencies.antt =====
-- web/src/lib/currencies.ts: the preset currencies of a locale, kept in two caches. Intl, `trim` and
-- `toUpperCase` are parameters.
pub mod Caches
mod Witnesses
use subdux.Base.{
  List, Option, String, TextMap, [], concat, if◌then◌else◌, map, none, not, set_text, some, str_eq,
  ◌&&◌, ◌∷◌,
}

pub record PresetCurrency : Type 0 where
  pub code : String
  pub symbol : String
  pub alias : String

-- `display_name` is none where Intl.DisplayNames is missing or gives none; `symbol_part` is the
-- value of the part of type currency that Intl.NumberFormat gives, if there is one.
pub record Intl : Type 0 where
  pub display_name : String → String → Option String
  pub symbol_part : String → String → Option String
  pub trim : String → String
  pub to_upper_case : String → String

unfoldable pub preset_currency_codes : List String
preset_currency_codes =
    "USD" ∷ "EUR" ∷ "GBP" ∷ "JPY" ∷ "CNY" ∷ "CAD" ∷ "AUD" ∷ "CHF" ∷ "HKD" ∷ "SGD" ∷ "KRW" ∷ "INR"
    ∷ "BRL" ∷ "MXN" ∷ "TWD" ∷ "THB" ∷ "TRY" ∷ "NZD" ∷ "SEK" ∷ "NOK" ∷ "DKK" ∷ "PLN" ∷ []

-- `presetCurrencyCache` and `presetCurrencyMapCache`.
pub record CurrencyCaches : Type 0 where
  pub preset_currency_cache : TextMap (List PresetCurrency)
  pub preset_currency_map_cache : TextMap (TextMap PresetCurrency)

-- `text || fallback`, where the text may be undefined.
abbrev pub text_or : String → Option String → String
text_or fallback none = fallback
text_or fallback (some text) = if str_eq text "" then fallback else text

-- `new Map(...)`, in which the last of equal codes counts.
unfoldable pub map_by_code : List PresetCurrency → TextMap PresetCurrency
map_by_code [] code = none
map_by_code (c ∷ cs) code = elim (map_by_code cs code) [
  | some found ↦ some found
  | none ↦ if str_eq code c.code then some c else none
]

module _ (intl : Intl) where
  unfoldable pub get_intl_currency_alias : String → String → String
  get_intl_currency_alias code locale = text_or code (intl.display_name code locale)

  unfoldable pub get_intl_currency_symbol : String → String → String
  get_intl_currency_symbol code locale = text_or code (intl.symbol_part code locale)

  unfoldable pub normalize_locale : String → String
  normalize_locale locale = text_or "en" (some (intl.trim locale))

  unfoldable pub generate : String → List PresetCurrency
  generate locale =
      map
        (λ code. record {
          code = code;
          symbol = get_intl_currency_symbol code locale;
          alias = get_intl_currency_alias code locale;
        })
        preset_currency_codes

  -- The branches for what the cache has under the locale.
  unfoldable pub list_for :
      String → Option (List PresetCurrency) → CurrencyCaches → CurrencyCaches × List PresetCurrency
  list_for locale (some cached) s = (s, cached)
  list_for locale none s = (
    record s {
      preset_currency_cache = set_text locale (some (generate locale)) s.preset_currency_cache;
    },
    generate locale,
  )

  unfoldable pub get_preset_currencies :
      String → CurrencyCaches → CurrencyCaches × List PresetCurrency
  get_preset_currencies locale s =
      let normalized = normalize_locale locale in
      list_for normalized (s.preset_currency_cache normalized) s

  abbrev pub keep_map :
      String → CurrencyCaches × List PresetCurrency → CurrencyCaches × TextMap PresetCurrency
  keep_map locale (s, list) = (
    record s {
      preset_currency_map_cache =
          set_text locale (some (map_by_code list)) s.preset_currency_map_cache;
    },
    map_by_code list,
  )

  unfoldable pub map_for :
      String
      → Option (TextMap PresetCurrency)
      → CurrencyCaches
      → CurrencyCaches × TextMap PresetCurrency
  map_for locale (some cached) s = (s, cached)
  map_for locale none s = keep_map locale (get_preset_currencies locale s)

  unfoldable pub get_preset_currency_map :
      String → CurrencyCaches → CurrencyCaches × TextMap PresetCurrency
  get_preset_currency_map locale s =
      let normalized = normalize_locale locale in
      map_for normalized (s.preset_currency_map_cache normalized) s

  unfoldable pub get_preset_currency_meta :
      String → String → CurrencyCaches → CurrencyCaches × Option PresetCurrency
  get_preset_currency_meta code locale s =
      let (s', currency_map) = get_preset_currency_map locale s in
      (s', currency_map (intl.to_upper_case code))

  unfoldable pub format_currency_display : String → Option String → Option String → String
  format_currency_display code alias symbol =
      let normalized_alias = elim alias as (λ o. String) [ none ↦ "" | some a ↦ intl.trim a ] in
      let normalized_symbol = elim symbol as (λ o. String) [ none ↦ "" | some s ↦ intl.trim s ] in
      let in_brackets = concat " (" (concat normalized_symbol ")") in
      if not (str_eq normalized_alias "") && not (str_eq normalized_symbol "")
      then concat code (concat " - " (concat normalized_alias in_brackets))
      else if not (str_eq normalized_alias "")
      then concat code (concat " - " normalized_alias)
      else if not (str_eq normalized_symbol "")
      then concat code in_brackets
      else code
