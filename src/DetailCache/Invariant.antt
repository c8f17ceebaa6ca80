-- ===== src/DetailCache/Invariant.antt =====
-- What holds between any two steps of the detail cache.
use subdux.Base.{
  ==_iff, Bool, Bool-cases, List, Option, [], ap, arith, false, if◌then◌else◌, inl, inr, ltb, none,
  refl, set_num, some, sym, true, ℕ, ◌-◌, ◌<◌, ◌==◌, ◌∙◌, ◌∷◌, ◌≡◌, ◌≤◌,
}
use subdux.DetailCache.{
  CachedSubscriptionDetail, DetailRequest, DetailState, Event, after_cache, bump_detail_version,
  detail_cache_ttl_ms, detail_version, forget_request, fulfil, fulfil_request, get,
  get_cached_subscription_detail, initial, invalidate, invalidate_subscription_detail,
  join_or_start, load, load_subscription_detail, run, settle, settle_request, start_request, step,
  store_detail,
}

module _ {D : Type 0} (reply : ℕ → Option D) where
  -- The detail was answered to a request for `id` that was sent at the current version.
  abbrev pub IsCurrent : DetailState D → ℕ → D → Type 0
  IsCurrent s id d =
      (pid : ℕ) × (p : DetailRequest) × (s.promises pid ≡ some p)
      × (p.id ≡ id)
      × (p.version ≡ detail_version s id)
      × (reply pid ≡ some d)

  pub record Inv (s : DetailState D) : Type 0 where
    pub cached :
        (id : ℕ) (c : CachedSubscriptionDetail D)
        → s.detail_cache id ≡ some c
        → IsCurrent s id c.detail
    pub shared :
        (id pid : ℕ)
        → s.detail_requests id ≡ some pid
        → (p : DetailRequest) × (s.promises pid ≡ some p)
          × (p.id ≡ id)
          × (p.version ≡ detail_version s id)
    pub numbered : (pid : ℕ) (p : DetailRequest) → s.promises pid ≡ some p → pid < s.issued
    pub versioned :
        (pid : ℕ) (p : DetailRequest) → s.promises pid ≡ some p → p.version ≤ detail_version s p.id
    pub single :
        (pid : ℕ) (p : DetailRequest)
        → s.promises pid ≡ some p
        → p.settled ≡ false
        → p.version ≡ detail_version s p.id
        → s.detail_requests p.id ≡ some pid

  pub initial-Inv : Inv initial
  unfolding initial
  initial-Inv = record {
    cached = λ id c e. cc;
    shared = λ id pid e. cc;
    numbered = λ pid p e. cc;
    versioned = λ pid p e. cc;
    single = λ pid p e n v. cc;
  }

  pub get_cached-Inv :
      (now id : ℕ) (s : DetailState D) → Inv s → Inv (get_cached_subscription_detail now id s).0
  unfolding get_cached_subscription_detail
  get_cached-Inv now id s h = by_cases (s.detail_cache id) refl
    where
      expire : Inv (record s { detail_cache = set_num id none s.detail_cache })
      expire = record {
        cached = λ j c e. h.cached j c (ground arith);
        shared = h.shared;
        numbered = h.numbered;
        versioned = h.versioned;
        single = h.single;
      }

      by_cases :
          (o : Option (CachedSubscriptionDetail D))
          → s.detail_cache id ≡ o
          → Inv (get_cached_subscription_detail now id s).0
      by_cases none e = rw (e, get_cached_subscription_detail) h
      by_cases (some c) e = elim (Bool-cases (ltb detail_cache_ttl_ms (now - c.cached_at))) [
        | inl old ↦ rw (e, old, get_cached_subscription_detail) expire
        | inr new ↦ rw (e, new, get_cached_subscription_detail) h
      ]

  -- Only a new promise number changes what a number stands for.
  IsCurrent-start :
      (id : ℕ) (s : DetailState D) (j : ℕ) (d : D)
      → Inv s
      → IsCurrent s j d
      → IsCurrent (start_request id s) j d
  unfolding start_request
  IsCurrent-start id s j d h (pid, p, is, own, version, answer) =
      let below = h.numbered pid p is in (pid, p, ground arith, own, version, answer)

  start_request-Inv :
      (id : ℕ) (s : DetailState D) → Inv s → s.detail_requests id ≡ none → Inv (start_request id s)
  unfolding start_request
  start_request-Inv id s h free = record {
    cached = λ j c e. IsCurrent-start id s j c.detail h (h.cached j c e);
    shared = shared;
    numbered = λ pid p e. ground (arith, h.numbered pid p);
    versioned = λ pid p e. ground (arith, h.versioned pid p);
    single = λ pid p e n v. ground (arith, h.single pid p, h.numbered pid p);
  }
    where
      shared :
          (j pid : ℕ)
          → set_num id (some s.issued) s.detail_requests j ≡ some pid
          → (p : DetailRequest) × ((start_request id s).promises pid ≡ some p)
            × (p.id ≡ j)
            × (p.version ≡ detail_version s j)
      shared j pid e = elim (Bool-cases (j == id)) [
        | inl same ↦ (
          record { id = id; version = detail_version s id; settled = false },
          ground arith,
          ground arith,
          ground arith,
        )
        | inr other ↦
            let (p, is, own, version) = h.shared j pid (ground arith) in
            let below = h.numbered pid p is in (p, ground arith, own, version)
      ]

  load-Inv : (now id : ℕ) (s : DetailState D) → Inv s → Inv (load_subscription_detail now id s).0
  unfolding load_subscription_detail join_or_start
  load-Inv now id s h =
      by_cache (get_cached_subscription_detail now id s) (get_cached-Inv now id s h)
    where
      by_request :
          (t : DetailState D) (o : Option ℕ)
          → t.detail_requests id ≡ o
          → Inv t
          → Inv (join_or_start id t).0
      by_request t none e k = rw (e, join_or_start) (start_request-Inv id t k e)
      by_request t (some pid) e k = rw (e, join_or_start) k

      by_cache : (r : DetailState D × Option D) → Inv r.0 → Inv (after_cache id r).0
      by_cache (t, some d) k = k
      by_cache (t, none) k = by_request t (t.detail_requests id) refl k

  pub invalidate-Inv :
      (id : ℕ) (s : DetailState D) → Inv s → Inv (invalidate_subscription_detail id s)
  unfolding invalidate_subscription_detail bump_detail_version
  invalidate-Inv id s h = record {
    cached = cached;
    shared = shared;
    numbered = h.numbered;
    versioned = λ pid p e. ground (arith, h.versioned pid p e);
    single = λ pid p e n v. ground (arith, h.versioned pid p e, h.single pid p e n);
  }
    where
      cached :
          (j : ℕ) (c : CachedSubscriptionDetail D)
          → (invalidate_subscription_detail id s).detail_cache j ≡ some c
          → IsCurrent (invalidate_subscription_detail id s) j c.detail
      cached j c e =
          let (pid, p, is, own, version, answer) = h.cached j c (ground arith) in
          (pid, p, is, own, ground arith, answer)

      shared :
          (j pid : ℕ)
          → (invalidate_subscription_detail id s).detail_requests j ≡ some pid
          → (p : DetailRequest) × (s.promises pid ≡ some p)
            × (p.id ≡ j)
            × (p.version ≡ detail_version (invalidate_subscription_detail id s) j)
      shared j pid e =
          let (p, is, own, version) = h.shared j pid (ground arith) in (p, is, own, ground arith)

  store_detail-Inv :
      (now pid : ℕ) (p : DetailRequest) (d : D) (s : DetailState D)
      → Inv s
      → s.promises pid ≡ some p
      → reply pid ≡ some d
      → Inv (store_detail now p d s)
  unfolding store_detail
  store_detail-Inv now pid p d s h is answer =
      elim (Bool-cases (detail_version s p.id == p.version)) [
        | inr stale ↦ rw (stale, store_detail) h
        | inl now_current ↦
            rw (now_current, store_detail)
              (record {
                cached = λ j c e. stored j c e (ground arith);
                shared = h.shared;
                numbered = h.numbered;
                versioned = h.versioned;
                single = h.single;
              })
      ]
    where
      stored :
          (j : ℕ) (c : CachedSubscriptionDetail D)
          → set_num p.id (some (record { cached_at = now; detail = d })) s.detail_cache j ≡ some c
          → detail_version s p.id ≡ p.version
          → IsCurrent s j c.detail
      stored j c e v = elim (Bool-cases (j == p.id)) [
        | inl same ↦
            let at : j ≡ p.id = (==_iff _ _).0 same in
            (pid, p, is, sym at, ground arith, ground arith)
        | inr other ↦ h.cached j c (ground arith)
      ]

  -- The promise of a number stays, but for being settled.
  settled-promise :
      (pid : ℕ) (p : DetailRequest) (s : DetailState D) (q : ℕ) (r : DetailRequest)
      → s.promises pid ≡ some p
      → s.promises q ≡ some r
      → (t : DetailRequest) × (set_num pid (some (record p { settled = true })) s.promises q
          ≡ some t)
        × (t.id ≡ r.id)
        × (t.version ≡ r.version)
  settled-promise pid p s q r is at = elim (Bool-cases (q == pid)) [
    | inl same ↦
        let here : q ≡ pid = (==_iff _ _).0 same in
        let one : p ≡ r = cc in
        (record p { settled = true }, rw same, ap (λ x. x.id) one, ap (λ x. x.version) one)
    | inr other ↦ (r, rw other at, refl, refl)
  ]

  module _ (pid : ℕ) (p : DetailRequest) (s : DetailState D) (h : Inv s) where
    closed : DetailState D
    closed = record s { promises = set_num pid (some (record p { settled = true })) s.promises }

    IsCurrent-closed :
        s.promises pid ≡ some p → (j : ℕ) (d : D) → IsCurrent s j d → IsCurrent closed j d
    unfolding closed
    IsCurrent-closed is j d (q, r, at, own, version, answer) =
        let (t, at', id_eq, version_eq) = settled-promise pid p s q r is at in
        (q, t, at', id_eq ∙ own, version_eq ∙ version, answer)

    shared-closed :
        s.promises pid ≡ some p
        → (j q : ℕ) → s.detail_requests j ≡ some q
        → (r : DetailRequest) × (closed.promises q ≡ some r)
          × (r.id ≡ j)
          × (r.version ≡ detail_version s j)
    unfolding closed
    shared-closed is j q e =
        let (r, at, own, version) = h.shared j q e in
        let (t, at', id_eq, version_eq) = settled-promise pid p s q r is at in
        (t, at', id_eq ∙ own, version_eq ∙ version)

    -- The fields that do not depend on what happens to the table of requests.
    numbered-closed :
        s.promises pid ≡ some p
        → (q : ℕ) (r : DetailRequest) → closed.promises q ≡ some r
        → (q < s.issued) × (r.version ≤ detail_version s r.id)
    unfolding closed
    numbered-closed is q r e =
        ground (arith, h.numbered pid p is, h.versioned pid p is, h.numbered q r, h.versioned q r)

    forget_request-Inv : s.promises pid ≡ some p → p.settled ≡ false → Inv (forget_request pid p s)
    unfolding forget_request closed
    forget_request-Inv is open' = elim (Bool-cases (detail_version s p.id == p.version)) [
      | inr stale ↦
          rw (stale, forget_request)
            (record {
              cached = λ j c e. IsCurrent-closed is j c.detail (h.cached j c e);
              shared = shared-closed is;
              numbered = λ q r e. (numbered-closed is q r e).0;
              versioned = λ q r e. (numbered-closed is q r e).1;
              single = λ q r e n v. ground (arith, h.single q r);
            })
      | inl now_current ↦
          rw (now_current, forget_request)
            (record {
              cached = λ j c e. IsCurrent-closed is j c.detail (h.cached j c e);
              shared = λ j q e. shared-closed is j q (ground arith);
              numbered = λ q r e. (numbered-closed is q r e).0;
              versioned = λ q r e. (numbered-closed is q r e).1;
              single = λ q r e n v. ground (arith, h.single q r, h.single pid p is open');
            })
    ]

  pub step-Inv : (e : Event D) (s : DetailState D) → Inv s → Inv (step reply e s)
  unfolding step fulfil_request settle_request
  step-Inv (get now id) s h = get_cached-Inv now id s h
  step-Inv (load now id) s h = load-Inv now id s h
  step-Inv (fulfil now pid) s h = by_promise (s.promises pid) refl
    where
      by_reply :
          (p : DetailRequest) (o : Option D)
          → s.promises pid ≡ some p
          → reply pid ≡ o
          → Inv (elim o [ none ↦ s | some d ↦ store_detail now p d s ])
      by_reply p none is answer = h
      by_reply p (some d) is answer = store_detail-Inv now pid p d s h is answer

      by_promise :
          (o : Option DetailRequest) → s.promises pid ≡ o → Inv (fulfil_request reply now pid s)
      by_promise none e = rw (e, fulfil_request) h
      by_promise (some p) e = rw (e, fulfil_request) (by_reply p (reply pid) e refl)
  step-Inv (settle pid) s h = by_promise (s.promises pid) refl
    where
      by_settled :
          (p : DetailRequest) (b : Bool)
          → s.promises pid ≡ some p
          → p.settled ≡ b
          → Inv (if b then s else forget_request pid p s)
      by_settled p true e done = h
      by_settled p false e unsettled = forget_request-Inv pid p s h e unsettled

      by_promise :
          (o : Option DetailRequest) → s.promises pid ≡ o → Inv (settle_request reply pid s)
      by_promise none e = rw (e, settle_request) h
      by_promise (some p) e = rw (e, settle_request) (by_settled p p.settled e refl)
  step-Inv (invalidate id) s h = invalidate-Inv id s h

  pub run-Inv_from : (es : List (Event D)) (s : DetailState D) → Inv s → Inv (run reply es s)
  unfolding run
  run-Inv_from [] s h = h
  run-Inv_from (e ∷ es) s h = run-Inv_from es (step reply e s) (step-Inv e s h)

-- However loads, answers, settlements and invalidations interleave from the empty cache: a cached
-- detail and a shared request belong to the current version of their subscription, and at most
-- one unsettled request of that version exists for a subscription.
pub run-Inv :
    {D : Type 0} (reply : ℕ → Option D) (es : List (Event D)) → Inv reply (run reply es initial)
run-Inv reply es = run-Inv_from reply es initial (initial-Inv reply)
