-- ===== src/Rates.antt =====
-- web/src/lib/exchange-rate-cache.ts: exchange rates kept for six hours in localStorage, and the
-- two functions that read them through the cache. Rates are JavaScript numbers, a parameter `R`
-- with `1`, `1 / x` and `x > 0`; `to_upper_case` is a parameter too. What follows an `await` is a
-- function of its own, so that the time and the storage may have changed in between.
pub mod Cached
pub mod ToTarget
mod Witnesses
use subdux.Base.{
  Bool, List, Option, String, TextMap, [], concat, false, if◌then◌else◌, leb, none, not, set_text,
  some, str_eq, true, ℕ, ◌&&◌, ◌*◌, ◌++◌, ◌+◌, ◌∷◌,
}

abbrev pub exchange_rate_cache_ttl_ms : ℕ
exchange_rate_cache_ttl_ms = 6 * 60 * 60 * 1000

pub record ExchangeRateCacheEntry (R : Type 0) : Type 0 where
  pub expires_at : ℕ
  pub rate : R

-- `Record<string, ExchangeRateCacheEntry>`.
abbrev pub Entries : Type 0 → Type 0
Entries R = TextMap (ExchangeRateCacheEntry R)

-- What localStorage has under the key: nothing or an empty text, a text that JSON.parse rejects,
-- JSON without an object `rates`, or the JSON of a store.
pub data Stored (R : Type 0) : Type 0 where
  missing malformed without_rates : Stored R
  store_of : Entries R → Stored R

pub record ExchangeRateInfo (R : Type 0) : Type 0 where
  pub target_currency : String
  pub rate : R

-- `api.get` rejects, or gives a list that may be null.
pub data Answer (R : Type 0) : Type 0 where
  rejected : Answer R
  answered : Option (List (ExchangeRateInfo R)) → Answer R

pub record CacheEntry (R : Type 0) : Type 0 where
  pub base_currency : String
  pub target_currency : String
  pub rate : R

-- The rates, the sources that are missing, and the storage, after the loop over the sources.
pub record Found (R : Type 0) : Type 0 where
  pub stored : Stored R
  pub rates : TextMap R
  pub missing_sources : List String

-- A `Set<string>` as the list of its members in the order in which they came.
unfoldable pub has : String → List String → Bool
has c [] = false
has c (d ∷ ds) = if str_eq c d then true else has c ds

unfoldable pub add : String → List String → List String
add c set = if has c set then set else set ++ c ∷ []

unfoldable pub set_from : List String → List String → List String
set_from [] set = set
set_from (c ∷ cs) set = set_from cs (add c set)

module _ {R : Type 0} where
  unfoldable pub read_store : Stored R → Entries R
  read_store missing = λ key. none
  read_store malformed = λ key. none
  read_store without_rates = λ key. none
  read_store (store_of rates) = rates

  unfoldable pub write_store : Entries R → Stored R
  write_store rates = store_of rates

  abbrev pub or_empty_list : Option (List (ExchangeRateInfo R)) → List (ExchangeRateInfo R)
  or_empty_list none = []
  or_empty_list (some items) = items

  -- `Record<string, number>`, assigned at a key.
  abbrev pub assign : String → R → TextMap R → TextMap R
  assign key rate rates = set_text key (some rate) rates

  -- A source's cached rate among the rates, or the source among the missing.
  abbrev pub note_source : String → Stored R × Option R → Found R → Found R
  note_source c (stored', some r) f = record f { stored = stored'; rates = assign c r f.rates }
  note_source c (stored', none) f = record f {
    stored = stored';
    missing_sources = add c f.missing_sources;
  }

module _ (to_upper_case : String → String) where
  unfoldable pub get_cache_key : String → String → String
  get_cache_key base target = concat (to_upper_case base) (concat "->" (to_upper_case target))

  unfoldable pub normalize_sources : String → List String → List String
  normalize_sources normalized_target [] = []
  normalize_sources normalized_target (c ∷ cs) =
      let rest = normalize_sources normalized_target cs in
      let u = to_upper_case c in
      if not (str_eq u "") && not (str_eq u normalized_target) then u ∷ rest else rest

  unfoldable pub normalized_sources : String → List String → List String
  normalized_sources normalized_target cs = set_from (normalize_sources normalized_target cs) []

module _ {R : Type 0} (to_upper_case : String → String) where
  -- The branches for the entry under the key.
  unfoldable pub check_entry :
      ℕ → String → Entries R → Option (ExchangeRateCacheEntry R) → Stored R → Stored R × Option R
  check_entry now key rates none stored = (stored, none)
  check_entry now key rates (some entry) stored =
      if leb entry.expires_at now
      then (write_store (set_text key none rates), none)
      else (stored, some entry.rate)

  unfoldable pub get_cached_exchange_rate : String → String → ℕ → Stored R → Stored R × Option R
  get_cached_exchange_rate base target now stored =
      let key = get_cache_key to_upper_case base target in
      let rates = read_store stored in check_entry now key rates (rates key) stored

  unfoldable pub set_cached_exchange_rate : String → String → R → ℕ → Stored R → Stored R
  set_cached_exchange_rate base target rate now stored = write_store (
      set_text (get_cache_key to_upper_case base target)
        (some (record { expires_at = now + exchange_rate_cache_ttl_ms; rate = rate }))
        (read_store stored))

  unfoldable pub put_entries : ℕ → List (CacheEntry R) → Entries R → Entries R
  put_entries expires_at [] rates = rates
  put_entries expires_at (e ∷ es) rates = put_entries expires_at es (
      set_text (get_cache_key to_upper_case e.base_currency e.target_currency)
        (some (record { expires_at = expires_at; rate = e.rate })) rates)

  unfoldable pub set_cached_exchange_rates : List (CacheEntry R) → ℕ → Stored R → Stored R
  set_cached_exchange_rates [] now stored = stored
  set_cached_exchange_rates (e ∷ es) now stored =
      write_store (put_entries (now + exchange_rate_cache_ttl_ms) (e ∷ es) (read_store stored))

  unfoldable pub find_cached : String → ℕ → List String → Found R → Found R
  find_cached target now [] f = f
  find_cached target now (c ∷ cs) f =
      find_cached target now cs (note_source c (get_cached_exchange_rate c target now f.stored) f)

  -- `new Map(...)`, in which the last of equal keys counts.
  unfoldable pub source_per_primary : List (ExchangeRateInfo R) → TextMap R
  source_per_primary [] c = none
  source_per_primary (item ∷ items) c = elim (source_per_primary items c) [
    | some r ↦ some r
    | none ↦ if str_eq c (to_upper_case item.target_currency) then some item.rate else none
  ]

  -- What `getExchangeRatesToTarget` has when it returns or awaits the answer.
  unfoldable pub start_rates_to_target : List String → String → ℕ → Stored R → Found R
  start_rates_to_target bases target now stored =
      let normalized_target = to_upper_case target in
      find_cached normalized_target now (normalized_sources to_upper_case normalized_target bases)
        (record { stored = stored; rates = λ c. none; missing_sources = [] })

  unfoldable pub start_rate : R → String → String → ℕ → Stored R → Stored R × Option R
  start_rate one base target now stored =
      let normalized_base = to_upper_case base in
      let normalized_target = to_upper_case target in
      if str_eq normalized_base normalized_target
      then (stored, some one)
      else get_cached_exchange_rate normalized_base normalized_target now stored

  -- `getExchangeRate` after the answer: what it caches, and what it returns.
  unfoldable pub finish_rate : String → String → R → ℕ → Stored R → Stored R × R
  finish_rate base target rate now stored =
      (set_cached_exchange_rate (to_upper_case base) (to_upper_case target) rate now stored, rate)

module _ {R : Type 0} (inverse : R → R) (is_positive : R → Bool) where
  -- A quote that counts: neither missing nor 0 nor less.
  abbrev pub usable : Option R → Option R
  usable none = none
  usable (some r) = if is_positive r then some (inverse r) else none

  -- The loop over the missing sources: the rates and the entries to cache.
  unfoldable pub invert_missing :
      TextMap R
      → String
      → List String
      → TextMap R × List (CacheEntry R)
      → TextMap R × List (CacheEntry R)
  invert_missing quotes target [] (rates, entries) = (rates, entries)
  invert_missing quotes target (c ∷ cs) (rates, entries) =
      invert_missing quotes target cs (elim (usable (quotes c)) [
        | none ↦ (rates, entries)
        | some r ↦ (
          assign c r rates,
          entries ++ record { base_currency = c; target_currency = target; rate = r } ∷ [],
        )
      ])

  unfoldable pub read_answer :
      (String → String) → String → Answer R → ℕ → Found R → Stored R × TextMap R
  read_answer to_upper_case target rejected now f = (f.stored, f.rates)
  read_answer to_upper_case target (answered items) now f =
      let quotes = source_per_primary to_upper_case (or_empty_list items) in
      let (rates, entries) =
        invert_missing quotes (to_upper_case target) f.missing_sources (f.rates, []) in
      (set_cached_exchange_rates to_upper_case entries now f.stored, rates)

  -- `getExchangeRatesToTarget` after the await, at the time `now` and on the storage as it is then;
  -- with nothing missing it has returned before.
  unfoldable pub finish_rates_to_target :
      (String → String) → String → Answer R → ℕ → Found R → Stored R × TextMap R
  finish_rates_to_target to_upper_case target answer now f = elim f.missing_sources [
    | [] ↦ (f.stored, f.rates)
    | c ∷ cs ↦ read_answer to_upper_case target answer now f
  ]
