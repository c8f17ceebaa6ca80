-- ===== src/DetailCache/Freshness.antt =====
-- Loads of web/src/features/subscriptions/subscription-detail-cache.ts after an invalidation.
use subdux.Base.{
  Bool, Bool-cases, List, Option, [], ap, arith, false, if◌then◌else◌, inl, inr, ltb, none, refl,
  set_num, some, true, ℕ, ◌-◌, ◌∙◌, ◌∷◌, ◌≡◌, ◌≤◌,
}
use subdux.DetailCache.{
  CachedSubscriptionDetail, DetailRequest, DetailState, Event, Loaded, after_cache,
  bump_detail_version, detail_cache_ttl_ms, detail_version, forget_request, fulfil, fulfil_request,
  get, get_cached_subscription_detail, initial, invalidate, invalidate_subscription_detail,
  join_or_start, joined, load, load_subscription_detail, resolved, run, settle, settle_request,
  start_request, started, step, store_detail,
}
use subdux.DetailCache.Invariant.{Inv, get_cached-Inv, invalidate-Inv, run-Inv, step-Inv}

module _ {D : Type 0} (reply : ℕ → Option D) (n id : ℕ) where
  -- Every request of the current version of `id` has a number from `n` on.
  record Since (s : DetailState D) : Type 0 where
    pub later :
        (pid : ℕ) (p : DetailRequest)
        → s.promises pid ≡ some p
        → p.id ≡ id
        → p.version ≡ detail_version s id
        → n ≤ pid
    pub room : n ≤ s.issued

  get_cached-Since :
      (now j : ℕ) (s : DetailState D) → Since s → Since (get_cached_subscription_detail now j s).0
  unfolding get_cached_subscription_detail
  get_cached-Since now j s h = by_cache (s.detail_cache j) refl
    where
      by_age :
          (b : Bool)
          → Since (if b then (record s { detail_cache = set_num j none s.detail_cache }) else s)
      by_age true = record { later = h.later; room = h.room }
      by_age false = h

      by_cache :
          (o : Option (CachedSubscriptionDetail D))
          → s.detail_cache j ≡ o
          → Since (get_cached_subscription_detail now j s).0
      by_cache none e = rw (e, get_cached_subscription_detail) h
      by_cache (some c) e = elim (Bool-cases (ltb detail_cache_ttl_ms (now - c.cached_at))) [
        | inl old ↦ rw (e, old, get_cached_subscription_detail) (by_age true)
        | inr new ↦ rw (e, new, get_cached_subscription_detail) h
      ]

  start-Since : (j : ℕ) (s : DetailState D) → Since s → Since (start_request j s)
  unfolding start_request
  start-Since j s h = record {
    later = λ pid p e own v. ground (arith, h.later pid p, h.room);
    room = ground (arith, h.room);
  }

  load-Since :
      (now j : ℕ) (s : DetailState D) → Since s → Since (load_subscription_detail now j s).0
  unfolding load_subscription_detail join_or_start
  load-Since now j s h =
      by_cache (get_cached_subscription_detail now j s) (get_cached-Since now j s h)
    where
      by_request :
          (t : DetailState D) (o : Option ℕ)
          → t.detail_requests j ≡ o
          → Since t
          → Since (join_or_start j t).0
      by_request t none e k = rw (e, join_or_start) (start-Since j t k)
      by_request t (some pid) e k = rw (e, join_or_start) k

      by_cache : (r : DetailState D × Option D) → Since r.0 → Since (after_cache j r).0
      by_cache (t, some d) k = k
      by_cache (t, none) k = by_request t (t.detail_requests j) refl k

  invalidate-Since :
      (j : ℕ) (s : DetailState D)
      → Inv reply s
      → Since s
      → Since (invalidate_subscription_detail j s)
  unfolding invalidate_subscription_detail bump_detail_version
  invalidate-Since j s inv h = record {
    later = λ pid p e own v. ground (arith, h.later pid p e own, inv.versioned pid p e);
    room = h.room;
  }

  step-Since : (e : Event D) (s : DetailState D) → Inv reply s → Since s → Since (step reply e s)
  unfolding step fulfil_request settle_request store_detail forget_request
  step-Since (get now j) s inv h = get_cached-Since now j s h
  step-Since (load now j) s inv h = load-Since now j s h
  step-Since (fulfil now pid) s inv h = record {
    later = λ q p e own v. ground (arith, h.later q p);
    room = ground (arith, h.room);
  }
  step-Since (settle pid) s inv h = by_promise (s.promises pid) refl
    where
      by_settled :
          (p : DetailRequest) (b : Bool)
          → s.promises pid ≡ some p
          → Since (if b then s else forget_request pid p s)
      by_settled p true e = h
      by_settled p false e = record {
        later = λ q r f own v. ground (arith, h.later q r, h.later pid p e);
        room = ground (arith, h.room);
      }

      by_promise :
          (o : Option DetailRequest) → s.promises pid ≡ o → Since (settle_request reply pid s)
      by_promise none e = rw (e, settle_request) h
      by_promise (some p) e = rw (e, settle_request) (by_settled p p.settled e)
  step-Since (invalidate j) s inv h = invalidate-Since j s inv h

  run-Since :
      (es : List (Event D)) (s : DetailState D)
      → Inv reply s
      → Since s
      → Inv reply (run reply es s) × Since (run reply es s)
  unfolding run
  run-Since [] s inv h = (inv, h)
  run-Since (e ∷ es) s inv h =
      run-Since es (step reply e s) (step-Inv reply e s inv) (step-Since e s inv h)

  -- What a load may return: a detail that a request from `n` on was answered, held in the cache
  -- for at most the time to live, or the promise of such a request.
  abbrev pub ServesSince : ℕ → DetailState D → Loaded D → Type 0
  ServesSince now s (resolved d) =
      (pid : ℕ) × (c : CachedSubscriptionDetail D) × (s.detail_cache id ≡ some c)
      × (c.detail ≡ d)
      × (now - c.cached_at ≤ detail_cache_ttl_ms)
      × (reply pid ≡ some d)
      × (n ≤ pid)
  ServesSince now s (joined pid) = n ≤ pid
  ServesSince now s (started pid) = n ≤ pid

  get_cached-hit :
      (now : ℕ) (s t : DetailState D) (d : D)
      → get_cached_subscription_detail now id s ≡ (t, some d)
      → (c : CachedSubscriptionDetail D) × (s.detail_cache id ≡ some c)
        × (c.detail ≡ d)
        × (now - c.cached_at ≤ detail_cache_ttl_ms)
  unfolding get_cached_subscription_detail
  get_cached-hit now s t d e = by_cache (s.detail_cache id) refl
    where
      by_cache :
          (o : Option (CachedSubscriptionDetail D))
          → s.detail_cache id ≡ o
          → (c : CachedSubscriptionDetail D) × (s.detail_cache id ≡ some c)
            × (c.detail ≡ d)
            × (now - c.cached_at ≤ detail_cache_ttl_ms)
      by_cache none f = absurd (ground arith)
      by_cache (some c) f = (c, f, ground arith, ground arith)

  load-ServesSince :
      (now : ℕ) (s : DetailState D)
      → Inv reply s
      → Since s
      → ServesSince now s (load_subscription_detail now id s).1
  unfolding load_subscription_detail join_or_start
  load-ServesSince now s inv h =
      by_cache (get_cached_subscription_detail now id s) refl (get_cached-Inv reply now id s inv)
        (get_cached-Since now id s h)
    where
      by_request :
          (t : DetailState D) (o : Option ℕ)
          → t.detail_requests id ≡ o
          → Inv reply t
          → Since t
          → ServesSince now s (join_or_start id t).1
      by_request t none e k since = rw (e, join_or_start) since.room
      by_request t (some pid) e k since =
          let (p, is, own, version) = k.shared id pid e in
          rw (e, join_or_start) (since.later pid p is own version)

      by_cache :
          (r : DetailState D × Option D)
          → get_cached_subscription_detail now id s ≡ r
          → Inv reply r.0
          → Since r.0
          → ServesSince now s (after_cache id r).1
      by_cache (t, none) e k since = by_request t (t.detail_requests id) refl k since
      by_cache (t, some d) e k since =
          let (c, in_cache, same, young) = get_cached-hit now s t d e in
          let (pid, p, is, own, version, answer) = inv.cached id c in_cache in
          (pid, c, in_cache, same, young, answer ∙ ap some same, h.later pid p is own version)

-- The invalidation itself leaves no request of the new version.
invalidated-Since :
    {D : Type 0} (reply : ℕ → Option D) (id : ℕ) (s : DetailState D)
    → Inv reply s
    → Since reply s.issued id (invalidate_subscription_detail id s)
unfolding invalidate_subscription_detail bump_detail_version
invalidated-Since reply id s inv = record {
  later = λ pid p e own v. let old = inv.versioned pid p e in absurd (ground arith);
  room = omega arith;
}

-- Whatever happens before and after an invalidation of a subscription, in any order of answers
-- and settlements: a later load serves only a detail that the server answered to a request sent
-- after the invalidation, held for at most the time to live, or joins only such a request.
pub load-after_invalidate :
    {D : Type 0} (reply : ℕ → Option D) (before after : List (Event D)) (now id : ℕ)
    → let s = run reply before initial in
      let t = run reply after (invalidate_subscription_detail id s) in
      ServesSince reply s.issued id now t (load_subscription_detail now id t).1
load-after_invalidate reply before after now id =
    let s = run reply before initial in
    let inv = run-Inv reply before in
    let (inv', since) =
      run-Since reply s.issued id after (invalidate_subscription_detail id s)
        (invalidate-Inv reply id s inv) (invalidated-Since reply id s inv) in
    load-ServesSince reply s.issued id now _ inv' since
