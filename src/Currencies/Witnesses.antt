-- ===== src/Currencies/Witnesses.antt =====
-- Intl with one symbol and no names.
use subdux.Base.{List, [], if◌then◌else◌, none, some, str_eq, ◌∷◌, ◌≡◌}
use subdux.Currencies.{
  Intl, generate, get_preset_currencies, get_preset_currency_meta, map_by_code, normalize_locale,
}
use subdux.Currencies.Caches.{
  CurrencyCall, call_all, currencies, get_preset_currency_meta-generate, meta, no_caches,
}

abbrev plain_intl : Intl
plain_intl = record {
  display_name = λ code locale. none;
  symbol_part = λ code locale. some "¤";
  trim = λ text. if str_eq text " de " then "de" else text;
  to_upper_case = λ code. if str_eq code "eur" then "EUR" else code;
}

abbrev calls : List (CurrencyCall plain_intl)
calls = currencies " de " ∷ meta "eur" "de" ∷ []

get_preset_currency_meta-generate_example :
    let s = call_all plain_intl calls no_caches in
    let normalized = normalize_locale plain_intl " de " in
    ((get_preset_currencies plain_intl " de " s).1 ≡ generate plain_intl normalized)
    × ((get_preset_currency_meta plain_intl "eur" " de " s).1
        ≡ map_by_code (generate plain_intl (normalize_locale plain_intl normalized)) "EUR")
get_preset_currency_meta-generate_example =
    get_preset_currency_meta-generate plain_intl calls "eur" " de "
