-- ===== src/Currencies/Caches.antt =====
-- The two caches of web/src/lib/currencies.ts after any calls.
use text.Mathlib.TextEquality.{eq_iff}
use subdux.Base.{
  Bool, List, Option, String, TextMap, [], ap, arith, false, if◌then◌else◌, none, refl, some,
  str_eq, sym, true, ◌∙◌, ◌∷◌, ◌≡◌,
}
use subdux.Currencies.{
  CurrencyCaches, Intl, PresetCurrency, generate, get_preset_currencies, get_preset_currency_map,
  get_preset_currency_meta, keep_map, list_for, map_by_code, map_for, normalize_locale,
}

module _ (intl : Intl) where
  -- A cached value is the one that would be made anew.
  abbrev pub IsList : String → Option (List PresetCurrency) → Type 0
  IsList locale none = Unit
  IsList locale (some list) = list ≡ generate intl locale

  -- `normalizeLocale` is applied again where the map is made from the list.
  abbrev pub IsMap : String → Option (TextMap PresetCurrency) → Type 0
  IsMap locale none = Unit
  IsMap locale (some m) = m ≡ map_by_code (generate intl (normalize_locale intl locale))

  pub record AreCurrent (s : CurrencyCaches) : Type 0 where
    pub lists : (locale : String) → IsList locale (s.preset_currency_cache locale)
    pub maps : (locale : String) → IsMap locale (s.preset_currency_map_cache locale)

  -- What a call returns, with the caches that it leaves.
  record Returns {A : Type 0} (expected : A) (x : CurrencyCaches × A) : Type 0 where
    pub current : AreCurrent x.0
    pub result : x.1 ≡ expected

  list_for-Returns :
      (locale : String) (o : Option (List PresetCurrency)) (s : CurrencyCaches)
      → IsList locale o
      → AreCurrent s
      → Returns (generate intl locale) (list_for intl locale o s)
  unfolding list_for
  list_for-Returns locale (some list) s h c = record { current = c; result = h }
  list_for-Returns locale none s h c = record {
    current = record { lists = λ l. by_test l (str_eq l locale) refl; maps = c.maps };
    result = refl;
  }
    where
      by_test :
          (l : String) (b : Bool)
          → str_eq l locale ≡ b
          → IsList l (if b then some (generate intl locale) else s.preset_currency_cache l)
      by_test l true e = ap (generate intl) (ground (arith, eq_iff l locale, e))
      by_test l false e = c.lists l

  get_preset_currencies-Returns :
      (locale : String) (s : CurrencyCaches)
      → AreCurrent s
      → Returns (generate intl (normalize_locale intl locale)) (get_preset_currencies intl locale s)
  unfolding get_preset_currencies
  get_preset_currencies-Returns locale s c =
      list_for-Returns (normalize_locale intl locale) _ s (c.lists (normalize_locale intl locale)) c

  map_for-Returns :
      (locale : String) (o : Option (TextMap PresetCurrency)) (s : CurrencyCaches)
      → IsMap locale o
      → AreCurrent s
      → Returns
          (map_by_code (generate intl (normalize_locale intl locale)))
          (map_for intl locale o s)
  unfolding map_for
  map_for-Returns locale (some m) s h c = record { current = c; result = h }
  map_for-Returns locale none s h c =
      by_list (get_preset_currencies intl locale s) (get_preset_currencies-Returns locale s c)
    where
      by_list :
          (x : CurrencyCaches × List PresetCurrency)
          → Returns (generate intl (normalize_locale intl locale)) x
          → Returns
              (map_by_code (generate intl (normalize_locale intl locale)))
              (keep_map intl locale x)
      by_list (s', list) r = record {
        current = record { lists = r.current.lists; maps = λ l. by_test l (str_eq l locale) refl };
        result = ap map_by_code r.result;
      }
        where
          by_test :
              (l : String) (b : Bool)
              → str_eq l locale ≡ b
              → IsMap l (if b then some (map_by_code list) else s'.preset_currency_map_cache l)
          by_test l true e =
              let same : l ≡ locale = ground (arith, eq_iff l locale, e) in
              ap map_by_code r.result
              ∙ ap (λ k. map_by_code (generate intl (normalize_locale intl k))) (sym same)
          by_test l false e = r.current.maps l

  -- What the pages ask for.
  pub data CurrencyCall : Type 0 where
    currencies : String → CurrencyCall
    meta : String → String → CurrencyCall

  unfoldable pub call : CurrencyCall → CurrencyCaches → CurrencyCaches
  call (currencies locale) s = (get_preset_currencies intl locale s).0
  call (meta code locale) s = (get_preset_currency_meta intl code locale s).0

  unfoldable pub call_all : List CurrencyCall → CurrencyCaches → CurrencyCaches
  call_all [] s = s
  call_all (c ∷ cs) s = call_all cs (call c s)

  call_all-AreCurrent :
      (cs : List CurrencyCall) (s : CurrencyCaches) → AreCurrent s → AreCurrent (call_all cs s)
  unfolding call_all call get_preset_currency_meta get_preset_currency_map
  call_all-AreCurrent [] s h = h
  call_all-AreCurrent (currencies locale ∷ cs) s h =
      call_all-AreCurrent cs _ (get_preset_currencies-Returns locale s h).current
  call_all-AreCurrent (meta code locale ∷ cs) s h =
      call_all-AreCurrent cs _
        (map_for-Returns (normalize_locale intl locale) _ s (h.maps (normalize_locale intl locale))
          h).current

abbrev pub no_caches : CurrencyCaches
no_caches = record {
  preset_currency_cache = λ locale. none;
  preset_currency_map_cache = λ locale. none;
}

-- Whatever was asked for before, the preset currencies of a locale are those that Intl gives for it,
-- and the currency of a code is found among those of the locale, in any case of the code's letters.
-- The locale is normalized twice for the latter.
pub get_preset_currency_meta-generate :
    (intl : Intl) (cs : List (CurrencyCall intl)) (code locale : String)
    → let s = call_all intl cs no_caches in
      let normalized = normalize_locale intl locale in
      ((get_preset_currencies intl locale s).1 ≡ generate intl normalized)
      × ((get_preset_currency_meta intl code locale s).1
          ≡ map_by_code
              (generate intl (normalize_locale intl normalized))
              (intl.to_upper_case code))
unfolding get_preset_currency_meta get_preset_currency_map
get_preset_currency_meta-generate intl cs code locale =
    let s = call_all intl cs no_caches in
    let h = call_all-AreCurrent intl cs no_caches (record { lists = λ l. tt; maps = λ l. tt }) in
    let n = normalize_locale intl locale in
    (
      (get_preset_currencies-Returns intl locale s h).result,
      ap (λ (m : TextMap PresetCurrency). m (intl.to_upper_case code))
          (map_for-Returns intl n _ s (h.maps n) h).result,
    )
