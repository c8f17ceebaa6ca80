-- ===== src/DetailCache.antt =====
-- web/src/features/subscriptions/subscription-detail-cache.ts: the cache of subscription details
-- with its shared requests and versions. The callbacks of a request run as steps of their own, in
-- any order that the event loop chooses; `reply` is what the server answers to each request.
pub mod Invariant
pub mod Freshness
mod Witnesses
use subdux.Base.{
  Bool, List, NumMap, Option, [], false, if◌then◌else◌, ltb, none, set_num, some, true, ℕ, ◌+◌, ◌-◌,
  ◌==◌, ◌∷◌,
}

abbrev pub detail_cache_ttl_ms : ℕ
detail_cache_ttl_ms = 120000

pub record CachedSubscriptionDetail (D : Type 0) : Type 0 where
  pub cached_at : ℕ
  pub detail : D

-- A request's promise, with the `id` and the `version` that its callbacks captured.
pub record DetailRequest : Type 0 where
  pub id : ℕ
  pub version : ℕ
  pub settled : Bool

-- The three maps of the module; promises are numbered in the order in which they are made.
pub record DetailState (D : Type 0) : Type 0 where
  pub detail_cache : NumMap (CachedSubscriptionDetail D)
  pub detail_requests : NumMap ℕ
  pub detail_versions : NumMap ℕ
  pub promises : NumMap DetailRequest
  pub issued : ℕ

abbrev pub or_zero : Option ℕ → ℕ
or_zero none = 0
or_zero (some v) = v

-- What `loadSubscriptionDetail` returns: a resolved promise, one that is shared, or a new one.
pub data Loaded (D : Type 0) : Type 0 where
  resolved : D → Loaded D
  joined started : ℕ → Loaded D

pub data Event (D : Type 0) : Type 0 where
  get load : ℕ → ℕ → Event D
  fulfil : ℕ → ℕ → Event D
  settle invalidate : ℕ → Event D

module _ {D : Type 0} where
  abbrev pub detail_version : DetailState D → ℕ → ℕ
  detail_version s id = or_zero (s.detail_versions id)

  unfoldable pub bump_detail_version : ℕ → DetailState D → DetailState D
  bump_detail_version id s = record s {
    detail_versions = set_num id (some (detail_version s id + 1)) s.detail_versions;
  }

  unfoldable pub get_cached_subscription_detail : ℕ → ℕ → DetailState D → DetailState D × Option D
  get_cached_subscription_detail now id s = elim (s.detail_cache id) [
    | none ↦ (s, none)
    | some cached ↦
        if ltb detail_cache_ttl_ms (now - cached.cached_at)
        then (record s { detail_cache = set_num id none s.detail_cache }, none)
        else (s, some cached.detail)
  ]

  -- The request that is sent captures the version of now.
  unfoldable pub start_request : ℕ → DetailState D → DetailState D
  start_request id s = record s {
    detail_requests = set_num id (some s.issued) s.detail_requests;
    promises =
        set_num s.issued (some (record { id = id; version = detail_version s id; settled = false }))
          s.promises;
    issued = s.issued + 1;
  }

  unfoldable pub join_or_start : ℕ → DetailState D → DetailState D × Loaded D
  join_or_start id s = elim (s.detail_requests id) [
    | some existing ↦ (s, joined existing)
    | none ↦ (start_request id s, started s.issued)
  ]

  abbrev pub after_cache : ℕ → DetailState D × Option D → DetailState D × Loaded D
  after_cache id (s, some cached) = (s, resolved cached)
  after_cache id (s, none) = join_or_start id s

  unfoldable pub load_subscription_detail : ℕ → ℕ → DetailState D → DetailState D × Loaded D
  load_subscription_detail now id s = after_cache id (get_cached_subscription_detail now id s)

  unfoldable pub invalidate_subscription_detail : ℕ → DetailState D → DetailState D
  invalidate_subscription_detail id s =
      let bumped = bump_detail_version id s in
      record bumped {
        detail_cache = set_num id none bumped.detail_cache;
        detail_requests = set_num id none bumped.detail_requests;
      }

  -- The callback of `then`.
  unfoldable pub store_detail : ℕ → DetailRequest → D → DetailState D → DetailState D
  store_detail now p detail s =
      if detail_version s p.id == p.version
      then record s {
        detail_cache =
            set_num p.id (some (record { cached_at = now; detail = detail })) s.detail_cache;
      }
      else s

  -- The callback of `finally`, after which the promise is settled.
  unfoldable pub forget_request : ℕ → DetailRequest → DetailState D → DetailState D
  forget_request pid p s =
      let closed = record s {
        promises = set_num pid (some (record p { settled = true })) s.promises;
      } in
      if detail_version s p.id == p.version
      then record closed { detail_requests = set_num p.id none closed.detail_requests }
      else closed

  module _ (reply : ℕ → Option D) where
    -- The server's answer to the request `pid` arrives, if it has one.
    unfoldable pub fulfil_request : ℕ → ℕ → DetailState D → DetailState D
    fulfil_request now pid s = elim (s.promises pid) [
      | none ↦ s
      | some p ↦ elim (reply pid) [ none ↦ s | some detail ↦ store_detail now p detail s ]
    ]

    -- `finally` runs once for a promise.
    unfoldable pub settle_request : ℕ → DetailState D → DetailState D
    settle_request pid s = elim (s.promises pid) [
      | none ↦ s
      | some p ↦ if p.settled then s else forget_request pid p s
    ]

    unfoldable pub step : Event D → DetailState D → DetailState D
    step (get now id) s = (get_cached_subscription_detail now id s).0
    step (load now id) s = (load_subscription_detail now id s).0
    step (fulfil now pid) s = fulfil_request now pid s
    step (settle pid) s = settle_request pid s
    step (invalidate id) s = invalidate_subscription_detail id s

    unfoldable pub run : List (Event D) → DetailState D → DetailState D
    run [] s = s
    run (e ∷ es) s = run es (step e s)

  unfoldable pub initial : DetailState D
  initial = record {
    detail_cache = λ id. none;
    detail_requests = λ id. none;
    detail_versions = λ id. none;
    promises = λ pid. none;
    issued = 0;
  }
