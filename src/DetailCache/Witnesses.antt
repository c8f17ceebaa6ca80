-- ===== src/DetailCache/Witnesses.antt =====
-- A run in which an answer arrives after an invalidation, and the theorems at it.
use subdux.Base.{List, Option, String, [], if◌then◌else◌, refl, some, ℕ, ◌==◌, ◌∷◌, ◌≡◌}
use subdux.DetailCache.{
  Event, bump_detail_version, forget_request, fulfil, fulfil_request,
  get_cached_subscription_detail, initial, invalidate_subscription_detail, join_or_start, load,
  load_subscription_detail, resolved, run, settle, settle_request, start_request, step,
  store_detail,
}
use subdux.DetailCache.Freshness.{ServesSince, load-after_invalidate}
use subdux.DetailCache.Invariant.{Inv, run-Inv}

-- The server answers the request number `pid` with the text of its number.
abbrev reply : ℕ → Option String
reply pid = if pid == 0 then some "old" else some "new"

-- The first request is answered after the second was sent.
abbrev early : List (Event String)
early = load 0 7 ∷ []

abbrev late : List (Event String)
late = load 1 7 ∷ fulfil 2 0 ∷ settle 0 ∷ fulfil 3 1 ∷ settle 1 ∷ []

-- The late answer of the old request is not stored: the cache serves the new one.
serves_the_new :
    let s = run reply early initial in
    (load_subscription_detail 4 7 (run reply late (invalidate_subscription_detail 7 s))).1
    ≡ resolved "new"
unfolding run step initial load_subscription_detail get_cached_subscription_detail join_or_start
    start_request invalidate_subscription_detail bump_detail_version fulfil_request settle_request
    store_detail forget_request
serves_the_new = refl

run-Inv_example : Inv reply (run reply late initial)
run-Inv_example = run-Inv reply late

load-after_invalidate_example :
    let s = run reply early initial in
    let t = run reply late (invalidate_subscription_detail 7 s) in
    ServesSince reply s.issued 7 4 t (load_subscription_detail 4 7 t).1
load-after_invalidate_example = load-after_invalidate reply early late 4 7
