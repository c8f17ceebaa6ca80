-- ===== src/Rates/Witnesses.antt =====
-- Two currencies, with rates in millionths.
use subdux.Base.{Bool, String, [], if◌then◌else◌, ltb, refl, some, str_eq, ℕ, ◌/◌, ◌∷◌, ◌≡◌, ◌⊎◌}
use subdux.Rates.{
  Answer, Stored, add, answered, check_entry, find_cached, finish_rate, finish_rates_to_target,
  get_cache_key, get_cached_exchange_rate, has, invert_missing, malformed, normalize_sources,
  normalized_sources, put_entries, read_answer, read_store, set_cached_exchange_rate,
  set_cached_exchange_rates, set_from, source_per_primary, start_rate, start_rates_to_target,
  write_store,
}
use subdux.Rates.Cached.{live_at, start_rate-finish_rate}
use subdux.Rates.ToTarget.{get_exchange_rates_to_target_lem}

abbrev upper : String → String
upper c = if str_eq c "usd" then "USD" else if str_eq c "eur" then "EUR" else c

abbrev invert : ℕ → ℕ
invert rate = 1000000000000 / rate

abbrev above_zero : ℕ → Bool
above_zero rate = ltb 0 rate

abbrev old_store : Stored ℕ
old_store = set_cached_exchange_rate upper "GBP" "EUR" 1200000 100 malformed

abbrev quotes : Answer ℕ
quotes = answered (
    some (
      record { target_currency = "usd"; rate = 1250000 }
      ∷ record { target_currency = "JPY"; rate = 0 }
      ∷ []))

get_exchange_rates_to_target_example :
    let f = start_rates_to_target upper ("usd" ∷ "GBP" ∷ "JPY" ∷ []) "eur" 200 old_store in
    (finish_rates_to_target invert above_zero upper "eur" quotes 300
        (record f { stored = malformed })).1
      "USD"
    ≡ some 800000
unfolding start_rates_to_target finish_rates_to_target find_cached get_cached_exchange_rate
    get_cache_key check_entry read_store write_store set_cached_exchange_rate source_per_primary
    invert_missing read_answer normalized_sources normalize_sources set_from add has
    set_cached_exchange_rates put_entries
get_exchange_rates_to_target_example =
    get_exchange_rates_to_target_lem invert above_zero upper ("usd" ∷ "GBP" ∷ "JPY" ∷ []) "eur"
      quotes 200 300 old_store malformed "USD"

start_rate-finish_rate_example :
    let stored = (finish_rate upper "usd" "EUR" 800000 1000 old_store).0 in
    ((start_rate upper 1000000 "USD" "eur" 2000 stored).1 ≡ some 800000)
    × ((live_at 2000 "GBP->EUR" stored ≡ live_at 2000 "GBP->EUR" old_store)
        ⊎ ("GBP->EUR" ≡ get_cache_key upper "USD" "EUR"))
start_rate-finish_rate_example =
    start_rate-finish_rate upper 1000000 800000 "usd" "EUR" "USD" "eur" "GBP->EUR" 1000 2000
      old_store refl refl
