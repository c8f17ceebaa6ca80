-- ===== src/Rates/Cached.antt =====
-- One rate in the cache: `getCachedExchangeRate`, `setCachedExchangeRate` and `getExchangeRate`.
use text.Mathlib.TextEquality.{eq_iff}
use subdux.Base.{
  Bool, Bool-cases, Option, String, arith, false, if◌then◌else◌, inl, inr, leb, none, refl, some,
  str_eq, true, ℕ, ◌+◌, ◌≡◌, ◌⊎◌,
}
use subdux.Rates.{
  ExchangeRateCacheEntry, Stored, check_entry, exchange_rate_cache_ttl_ms, finish_rate,
  get_cache_key, get_cached_exchange_rate, read_store, set_cached_exchange_rate, start_rate,
  write_store,
}

module _ {R : Type 0} where
  -- The entry under a key that has not expired, without a change of the storage.
  abbrev pub live : ℕ → Option (ExchangeRateCacheEntry R) → Option R
  live now none = none
  live now (some entry) = if leb entry.expires_at now then none else some entry.rate

  abbrev pub live_at : ℕ → String → Stored R → Option R
  live_at now key stored = live now (read_store stored key)

module _ {R : Type 0} (to_upper_case : String → String) where
  pub cached-live :
      (base target : String) (now : ℕ) (stored : Stored R)
      → (get_cached_exchange_rate to_upper_case base target now stored).1
        ≡ live_at now (get_cache_key to_upper_case base target) stored
  unfolding get_cached_exchange_rate
  cached-live base target now stored =
      by_entry (read_store stored (get_cache_key to_upper_case base target))
    where
      by_entry :
          (o : Option (ExchangeRateCacheEntry R))
          → (check_entry to_upper_case now
              (get_cache_key to_upper_case base target)
              (read_store stored)
              o
              stored).1
            ≡ live now o
      by_entry none = unfold check_entry in refl
      by_entry (some e) = unfold check_entry in ground arith

  -- Looking a rate up removes an expired entry at most, so no later lookup sees a difference.
  pub live-get_cached_exchange_rate :
      (base target key : String) (now : ℕ) (stored : Stored R)
      → live_at now key (get_cached_exchange_rate to_upper_case base target now stored).0
        ≡ live_at now key stored
  unfolding get_cached_exchange_rate
  live-get_cached_exchange_rate base target key now stored =
      by_entry (read_store stored (get_cache_key to_upper_case base target)) refl
    where
      own : String
      own = get_cache_key to_upper_case base target

      by_entry :
          (o : Option (ExchangeRateCacheEntry R))
          → read_store stored own ≡ o
          → live_at now key (check_entry to_upper_case now own (read_store stored) o stored).0
            ≡ live_at now key stored
      by_entry none h = unfold check_entry in refl
      by_entry (some e) h =
          unfold check_entry write_store read_store in ground (arith, eq_iff key own)

  read-set_cached :
      (base target key : String) (rate : R) (now : ℕ) (stored : Stored R)
      → read_store (set_cached_exchange_rate to_upper_case base target rate now stored) key ≡ (
          if str_eq key (get_cache_key to_upper_case base target)
          then some (record { expires_at = now + exchange_rate_cache_ttl_ms; rate = rate })
          else read_store stored key)
  unfolding set_cached_exchange_rate write_store read_store
  read-set_cached base target key rate now stored = refl

  live-set_cached_other :
      (base target key : String) (rate : R) (t now : ℕ) (stored : Stored R)
      → (live_at now key (set_cached_exchange_rate to_upper_case base target rate t stored)
          ≡ live_at now key stored)
        ⊎ (key ≡ get_cache_key to_upper_case base target)
  live-set_cached_other base target key rate t now stored =
      elim (Bool-cases (str_eq key (get_cache_key to_upper_case base target))) [
        | inl h ↦ inr (ground (arith, eq_iff key (get_cache_key to_upper_case base target)))
        | inr h ↦ inl (rw (read-set_cached base target key rate t stored, h) refl)
      ]

  live-set_cached_own :
      (base target : String) (rate : R) (t now : ℕ) (stored : Stored R)
      → (get_cached_exchange_rate to_upper_case base target now
          (set_cached_exchange_rate to_upper_case base target rate t stored)).1
        ≡ (if leb (t + exchange_rate_cache_ttl_ms) now then none else some rate)
  live-set_cached_own base target rate t now stored =
      let own = get_cache_key to_upper_case base target in
      rw
        (
          cached-live base target now
              (set_cached_exchange_rate to_upper_case base target rate t stored),
          read-set_cached base target own rate t stored,
        )
        (ground (arith, eq_iff own own))

  -- A rate fetched by `getExchangeRate` at the time `t` is what the next call for the same two
  -- currencies, in any case of the letters, has without a request for six hours and not after;
  -- for equal currencies it has 1. Any other key of the cache is as it was.
  pub start_rate-finish_rate :
      (one rate : R) (base target base' target' key : String) (t now : ℕ) (stored : Stored R)
      → to_upper_case base' ≡ to_upper_case base
      → to_upper_case target' ≡ to_upper_case target
      → let stored' = (finish_rate to_upper_case base target rate t stored).0 in
        ((start_rate to_upper_case one base' target' now stored').1 ≡ (
          if str_eq (to_upper_case base) (to_upper_case target)
          then some one
          else if leb (t + exchange_rate_cache_ttl_ms) now
          then none
          else some rate))
        × ((live_at now key stored' ≡ live_at now key stored)
            ⊎ (key ≡ get_cache_key to_upper_case (to_upper_case base) (to_upper_case target)))
  unfolding start_rate finish_rate
  start_rate-finish_rate one rate base target base' target' key t now stored b e = (
    rw (b, e) (by_test (str_eq (to_upper_case base) (to_upper_case target))),
    live-set_cached_other (to_upper_case base) (to_upper_case target) key rate t now stored,
  )
    where
      by_test :
          (c : Bool)
          → (if c
              then (
                set_cached_exchange_rate to_upper_case
                    (to_upper_case base)
                    (to_upper_case target)
                    rate
                    t
                    stored,
                some one,
              )
              else get_cached_exchange_rate to_upper_case
                  (to_upper_case base)
                  (to_upper_case target)
                  now
                  (set_cached_exchange_rate to_upper_case
                    (to_upper_case base)
                    (to_upper_case target)
                    rate
                    t
                    stored)).1
            ≡ (if c
                then some one
                else if leb (t + exchange_rate_cache_ttl_ms) now
                then none
                else some rate)
      by_test true = refl
      by_test false =
          live-set_cached_own (to_upper_case base) (to_upper_case target) rate t now stored
