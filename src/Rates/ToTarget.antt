-- ===== src/Rates/ToTarget.antt =====
-- `getExchangeRatesToTarget` of web/src/lib/exchange-rate-cache.ts for each currency.
use text.Mathlib.TextEquality.{eq_iff}
use subdux.Base.{
  Bool, List, Option, String, TextMap, [], any, arith, false, if◌then◌else◌, none, not, refl, some,
  str_eq, true, ℕ, ◌&&◌, ◌++◌, ◌||◌, ◌∷◌, ◌≡◌,
}
use subdux.Rates.{
  Answer, CacheEntry, Found, Stored, add, answered, assign, find_cached, finish_rates_to_target,
  get_cache_key, get_cached_exchange_rate, has, invert_missing, normalize_sources,
  normalized_sources, note_source, or_empty_list, read_answer, rejected, set_from,
  source_per_primary, start_rates_to_target, usable,
}
use subdux.Rates.Cached.{cached-live, live-get_cached_exchange_rate, live_at}

abbrev or_else {ℓ} : {A : Type ℓ} → Option A → Option A → Option A
or_else none p = p
or_else (some a) p = some a

abbrev is_none {ℓ} : {A : Type ℓ} → Option A → Bool
is_none none = true
is_none (some a) = false

has-append : (c d : String) (set : List String) → has c (set ++ d ∷ []) ≡ has c set || str_eq c d
unfolding has
has-append c d [] = ground arith
has-append c d (x ∷ xs) = ground (arith, has-append c d xs)

-- A set has what is added and what it had.
has-add : (c d : String) (set : List String) → has c (add d set) ≡ has c set || str_eq c d
unfolding add
has-add c d set = by_test (has d set) refl
  where
    by_test :
        (b : Bool)
        → has d set ≡ b
        → has c (if b then set else set ++ d ∷ []) ≡ has c set || str_eq c d
    by_test true h = ground (arith, eq_iff c d)
    by_test false h = has-append c d set

has-set_from : (c : String) (cs set : List String) → has c (set_from cs set) ≡ has c set || has c cs
unfolding set_from has
has-set_from c [] set = ground arith
has-set_from c (d ∷ ds) set = ground (arith, has-set_from c ds (add d set), has-add c d set)

module _ (to_upper_case : String → String) where
  has-normalize_sources :
      (target : String) (bases : List String) (c : String)
      → has c (normalize_sources to_upper_case target bases)
        ≡ any (λ b. str_eq c (to_upper_case b)) bases && not (str_eq c "") && not (str_eq c target)
  unfolding normalize_sources has
  has-normalize_sources target [] c = refl
  has-normalize_sources target (b ∷ bs) c =
      by_test (not (str_eq (to_upper_case b) "") && not (str_eq (to_upper_case b) target)) refl
        (has-normalize_sources target bs c)
    where
      rest : List String
      rest = normalize_sources to_upper_case target bs

      by_test :
          (keep : Bool)
          → (not (str_eq (to_upper_case b) "") && not (str_eq (to_upper_case b) target)) ≡ keep
          → has c rest
            ≡ any (λ b. str_eq c (to_upper_case b)) bs && not (str_eq c "") && not (str_eq c target)
          → has c (if keep then to_upper_case b ∷ rest else rest)
            ≡ (str_eq c (to_upper_case b) || any (λ b. str_eq c (to_upper_case b)) bs)
              && not (str_eq c "")
              && not (str_eq c target)
      by_test true h ih = ground (
        arith,
        ih,
        h,
        eq_iff c (to_upper_case b),
        eq_iff c target,
        eq_iff (to_upper_case b) target,
        eq_iff c "",
        eq_iff (to_upper_case b) "",
      )
      by_test false h ih = ground (
        arith,
        ih,
        h,
        eq_iff c (to_upper_case b),
        eq_iff c target,
        eq_iff (to_upper_case b) target,
        eq_iff c "",
        eq_iff (to_upper_case b) "",
      )

module _ {R : Type 0} (to_upper_case : String → String) where
  -- The rate of `c` to the target that the storage has.
  abbrev pub cached : String → ℕ → Stored R → String → Option R
  cached target now stored c = live_at now (get_cache_key to_upper_case c target) stored

  -- After the loop: a source's cached rate stands in the rates, and a source without one is missing.
  find_cached_lem :
      (target : String) (now : ℕ) (cs : List String) (f : Found R) (c : String)
      → let f' = find_cached to_upper_case target now cs f in
        (f'.rates c
          ≡ (if has c cs then or_else (cached target now f.stored c) (f.rates c) else f.rates c))
        × (has c f'.missing_sources
            ≡ has c f.missing_sources || (has c cs && is_none (cached target now f.stored c)))
  unfolding find_cached has
  find_cached_lem target now [] f c = (refl, ground arith)
  find_cached_lem target now (d ∷ ds) f c =
      by_cached (get_cached_exchange_rate to_upper_case d target now f.stored)
        (cached-live to_upper_case d target now f.stored)
        (live-get_cached_exchange_rate to_upper_case d target (get_cache_key to_upper_case c target)
          now f.stored)
        (λ f'. find_cached_lem target now ds f' c)
    where
      Step : Found R → Type 0
      Step f₁ =
          let f' = find_cached to_upper_case target now ds f₁ in
          (f'.rates c ≡ (
            if has c ds then or_else (cached target now f₁.stored c) (f₁.rates c) else f₁.rates c))
          × (has c f'.missing_sources
              ≡ has c f₁.missing_sources || (has c ds && is_none (cached target now f₁.stored c)))

      by_cached :
          (x : Stored R × Option R)
          → x.1 ≡ cached target now f.stored d
          → cached target now x.0 c ≡ cached target now f.stored c
          → ((f₁ : Found R) → Step f₁)
          → let f' = find_cached to_upper_case target now ds (note_source d x f) in
            (f'.rates c ≡ (
              if (if str_eq c d then true else has c ds)
              then or_else (cached target now f.stored c) (f.rates c)
              else f.rates c))
            × (has c f'.missing_sources
                ≡ has c f.missing_sources
                  || ((if str_eq c d then true else has c ds)
                      && is_none (cached target now f.stored c)))
      by_cached (stored', some r) e same ih =
          let h = ih (note_source d (stored', some r) f) in
          ground (arith, h.0, h.1, e, same, eq_iff c d)
      by_cached (stored', none) e same ih =
          let h = ih (note_source d (stored', none) f) in
          ground (arith, h.0, h.1, e, same, eq_iff c d, has-add c d f.missing_sources)

module _ {R : Type 0} (inverse : R → R) (is_positive : R → Bool)
    (to_upper_case : String → String) where
  rates-invert_missing :
      (quotes : TextMap R) (target : String) (cs : List String) (rates : TextMap R)
      (entries : List (CacheEntry R)) (c : String)
      → (invert_missing inverse is_positive quotes target cs (rates, entries)).0 c
        ≡ (if has c cs then or_else (usable inverse is_positive (quotes c)) (rates c) else rates c)
  unfolding invert_missing has
  rates-invert_missing quotes target [] rates entries c = refl
  rates-invert_missing quotes target (d ∷ ds) rates entries c =
      by_quote (usable inverse is_positive (quotes d)) refl
        (λ x. rates-invert_missing quotes target ds x.0 x.1 c)
    where
      by_quote :
          (q : Option R)
          → usable inverse is_positive (quotes d) ≡ q
          → ((x : TextMap R × List (CacheEntry R))
              → (invert_missing inverse is_positive quotes target ds x).0 c ≡ (
                  if has c ds
                  then or_else (usable inverse is_positive (quotes c)) (x.0 c)
                  else x.0 c))
          → (invert_missing inverse is_positive quotes target ds (elim q [
            | none ↦ (rates, entries)
            | some r ↦ (
              assign d r rates,
              entries ++ record { base_currency = d; target_currency = target; rate = r } ∷ [],
            )
          ])).0
              c
            ≡ (if (if str_eq c d then true else has c ds)
                then or_else (usable inverse is_positive (quotes c)) (rates c)
                else rates c)
      by_quote none h ih = ground (arith, ih (rates, entries), h, eq_iff c d)
      by_quote (some r) h ih = ground (
        arith,
        h,
        eq_iff c d,
        ih (
          assign d r rates,
          entries ++ record { base_currency = d; target_currency = target; rate = r } ∷ [],
        ),
      )

  -- The rate of `c` that the server's answer gives.
  abbrev pub quoted : Answer R → String → Option R
  quoted rejected c = none
  quoted (answered items) c =
      usable inverse is_positive (source_per_primary to_upper_case (or_empty_list items) c)

  -- The currencies that the caller asks for: those given, in capitals, but the target and the empty
  -- text.
  abbrev pub asked : List String → String → String → Bool
  asked bases target c =
      any (λ b. str_eq c (to_upper_case b)) bases
      && not (str_eq c "")
      && not (str_eq c (to_upper_case target))

  rates-read_answer :
      (target : String) (answer : Answer R) (now : ℕ) (f : Found R) (c : String)
      → (read_answer inverse is_positive to_upper_case target answer now f).1 c
        ≡ (if has c f.missing_sources then or_else (quoted answer c) (f.rates c) else f.rates c)
  unfolding read_answer
  rates-read_answer target rejected now f c = ground arith
  rates-read_answer target (answered items) now f c =
      rates-invert_missing (source_per_primary to_upper_case (or_empty_list items))
        (to_upper_case target) f.missing_sources f.rates [] c

  rates-finish :
      (target : String) (answer : Answer R) (now : ℕ) (f : Found R) (c : String)
      → (finish_rates_to_target inverse is_positive to_upper_case target answer now f).1 c
        ≡ (if has c f.missing_sources then or_else (quoted answer c) (f.rates c) else f.rates c)
  unfolding finish_rates_to_target
  rates-finish target answer now f c = by_missing f.missing_sources refl
    where
      by_missing :
          (ms : List String)
          → f.missing_sources ≡ ms
          → (elim ms as (λ m. Stored R × TextMap R) [
            | [] ↦ (f.stored, f.rates)
            | c ∷ cs ↦ read_answer inverse is_positive to_upper_case target answer now f
          ]).1
              c
            ≡ (if has c f.missing_sources then or_else (quoted answer c) (f.rates c) else f.rates c)
      by_missing [] h = rw h (unfold has in refl)
      by_missing (m ∷ ms) h = rates-read_answer target answer now f c

  -- Whatever is cached and whatever the server answers, `getExchangeRatesToTarget` gives a rate for
  -- the currencies asked for and no other: the cached one where it has not expired, else the
  -- inverse of the server's positive quote, else none. How the storage has changed at the answer
  -- makes no difference.
  pub get_exchange_rates_to_target_lem :
      (bases : List String) (target : String) (answer : Answer R) (now later : ℕ)
      (stored stored' : Stored R) (c : String)
      → let f = start_rates_to_target to_upper_case bases target now stored in
        (finish_rates_to_target inverse is_positive to_upper_case target answer later
            (record f { stored = stored' })).1
          c
        ≡ (if asked bases target c
            then or_else
                (cached to_upper_case (to_upper_case target) now stored c)
                (quoted answer c)
            else none)
  unfolding start_rates_to_target normalized_sources has
  get_exchange_rates_to_target_lem bases target answer now later stored stored' c =
      let sources = set_from (normalize_sources to_upper_case (to_upper_case target) bases) [] in
      let f₀ : Found R = record { stored = stored; rates = λ c. none; missing_sources = [] } in
      let f = find_cached to_upper_case (to_upper_case target) now sources f₀ in
      let found = find_cached_lem to_upper_case (to_upper_case target) now sources f₀ c in
      ground (
        arith,
        rates-finish target answer later (record f { stored = stored' }) c,
        found.0,
        found.1,
        has-set_from c (normalize_sources to_upper_case (to_upper_case target) bases) [],
        has-normalize_sources to_upper_case (to_upper_case target) bases c,
      )
