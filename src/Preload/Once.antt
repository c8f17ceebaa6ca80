-- ===== src/Preload/Once.antt =====
-- The cache of keys of web/src/lib/route-preload.ts and the loaders that were called.
use text.Mathlib.TextEquality.{eq_iff}
use subdux.Base.{
  Bool, List, Option, String, [], ap, arith, concat, false, if◌then◌else◌, map, none, refl, some,
  str_eq, true, ◌∙◌, ◌∷◌, ◌≡◌,
}
use subdux.Preload.{
  PreloadState, Route, RouteKind, actions, admin, auth, calendar, dashboard, forgot_password, has,
  is_signed_out, kind_name, load_once, login, preload_neighbor_routes_for_path, preload_route,
  preload_route_for_path, protected, register, reports, reset_password, route_loader, settings,
}

-- The key of a route's loader.
abbrev pub key_of : Route → String
key_of login = "auth:login"
key_of register = "auth:register"
key_of forgot_password = "auth:forgotPassword"
key_of reset_password = "auth:resetPassword"
key_of dashboard = "protected:dashboard"
key_of actions = "protected:actions"
key_of reports = "protected:reports"
key_of settings = "protected:settings"
key_of calendar = "protected:calendar"
key_of admin = "protected:admin"

abbrev pub NoRepeat : List String → Type 0
NoRepeat [] = Unit
NoRepeat (k ∷ ks) = (has k ks ≡ false) × NoRepeat ks

-- The cache has the key of every loader that was called, and no key twice.
pub record IsOnce (s : PreloadState) : Type 0 where
  pub keys : s.route_preload_cache ≡ map key_of s.loaded
  pub no_repeat : NoRepeat s.route_preload_cache

-- The keys under which `preloadRoute` looks are those of the loaders that it finds.
abbrev HasKey : String → Option Route → Type 0
HasKey key none = Unit
HasKey key (some loader) = key ≡ key_of loader

at_key :
    (prefix route name : String) (loader : Route) (rest : Option Route)
    → concat prefix (concat ":" name) ≡ key_of loader
    → HasKey (concat prefix (concat ":" route)) rest
    → HasKey (concat prefix (concat ":" route)) (if str_eq route name then some loader else rest)
at_key prefix route name loader rest own h = by_test (str_eq route name) refl
  where
    by_test :
        (b : Bool)
        → str_eq route name ≡ b
        → HasKey (concat prefix (concat ":" route)) (if b then some loader else rest)
    by_test true e =
        let same : route ≡ name = ground (arith, eq_iff route name, e) in
        ap (λ r. concat prefix (concat ":" r)) same ∙ own
    by_test false e = h

route_loader-HasKey :
    (kind : RouteKind) (route : String)
    → HasKey (concat (kind_name kind) (concat ":" route)) (route_loader kind route)
unfolding route_loader
route_loader-HasKey auth route = at_key "auth" route "login" login _ refl (
    at_key "auth" route "register" register _ refl (
      at_key "auth" route "forgotPassword" forgot_password _ refl
        (at_key "auth" route "resetPassword" reset_password none refl tt)))
route_loader-HasKey protected route = at_key "protected" route "dashboard" dashboard _ refl (
    at_key "protected" route "actions" actions _ refl (
      at_key "protected" route "reports" reports _ refl (
        at_key "protected" route "settings" settings _ refl (
          at_key "protected" route "calendar" calendar _ refl
            (at_key "protected" route "admin" admin none refl tt)))))

load_once-IsOnce :
    (key : String) (loader : Route) (s : PreloadState)
    → key ≡ key_of loader
    → IsOnce s
    → IsOnce (load_once key loader s)
unfolding load_once
load_once-IsOnce key loader s own h = by_test (has key s.route_preload_cache) refl
  where
    by_test :
        (b : Bool)
        → has key s.route_preload_cache ≡ b
        → IsOnce (
            if b then s else record {
              route_preload_cache = key ∷ s.route_preload_cache;
              loaded = loader ∷ s.loaded;
            })
    by_test true e = h
    by_test false e = record { keys = rw (own, h.keys) refl; no_repeat = (e, h.no_repeat) }

preload_route-IsOnce :
    (kind : RouteKind) (route : String) (s : PreloadState)
    → IsOnce s
    → IsOnce (preload_route kind route s)
unfolding preload_route
preload_route-IsOnce kind route s h =
    by_loader (route_loader kind route) (route_loader-HasKey kind route)
  where
    by_loader :
        (o : Option Route)
        → HasKey (concat (kind_name kind) (concat ":" route)) o
        → IsOnce (elim o [
          | none ↦ s
          | some loader ↦ load_once (concat (kind_name kind) (concat ":" route)) loader s
        ])
    by_loader none k = h
    by_loader (some loader) k =
        load_once-IsOnce (concat (kind_name kind) (concat ":" route)) loader s k h

if-IsOnce : (b : Bool) (s t : PreloadState) → IsOnce s → IsOnce t → IsOnce (if b then s else t)
if-IsOnce true s t h k = h
if-IsOnce false s t h k = k

-- What the pages ask for as the user moves.
pub data PreloadEvent : Type 0 where
  path neighbors : String → PreloadEvent

unfoldable pub preload : PreloadEvent → PreloadState → PreloadState
preload (path pathname) s = preload_route_for_path pathname s
preload (neighbors pathname) s = preload_neighbor_routes_for_path pathname s

unfoldable pub preload_all : List PreloadEvent → PreloadState → PreloadState
preload_all [] s = s
preload_all (e ∷ es) s = preload_all es (preload e s)

abbrev pub nothing_loaded : PreloadState
nothing_loaded = record { route_preload_cache = []; loaded = [] }

preload-IsOnce : (e : PreloadEvent) (s : PreloadState) → IsOnce s → IsOnce (preload e s)
unfolding preload preload_route_for_path preload_neighbor_routes_for_path
preload-IsOnce (path p) s h =
    if-IsOnce (str_eq p "/") _ _ (preload_route-IsOnce protected "dashboard" s h) (
      if-IsOnce (str_eq p "/actions") _ _ (preload_route-IsOnce protected "actions" s h) (
        if-IsOnce (str_eq p "/reports") _ _ (preload_route-IsOnce protected "reports" s h) (
          if-IsOnce (str_eq p "/settings") _ _ (preload_route-IsOnce protected "settings" s h) (
            if-IsOnce (str_eq p "/calendar") _ _ (preload_route-IsOnce protected "calendar" s h) (
              if-IsOnce (str_eq p "/admin") _ _ (preload_route-IsOnce protected "admin" s h) (
                if-IsOnce (str_eq p "/login") _ _ (preload_route-IsOnce auth "login" s h) (
                  if-IsOnce (str_eq p "/register") _ _ (preload_route-IsOnce auth "register" s h) (
                    if-IsOnce (str_eq p "/forgot-password") _ _
                      (preload_route-IsOnce auth "forgotPassword" s h)
                      (if-IsOnce (str_eq p "/reset-password") _ _
                        (preload_route-IsOnce auth "resetPassword" s h) h)))))))))
preload-IsOnce (neighbors p) s h =
    if-IsOnce (str_eq p "/") _ _
      (preload_route-IsOnce protected "reports" _ (
        preload_route-IsOnce protected "calendar" _ (preload_route-IsOnce protected "actions" s h)))
      (if-IsOnce (is_signed_out p) _ _
        (preload_route-IsOnce auth "resetPassword" _ (
          preload_route-IsOnce auth "forgotPassword" _
            (preload_route-IsOnce auth "register" _ (preload_route-IsOnce auth "login" s h))))
        h)

preload_from-IsOnce :
    (es : List PreloadEvent) (s : PreloadState) → IsOnce s → IsOnce (preload_all es s)
unfolding preload_all
preload_from-IsOnce [] s h = h
preload_from-IsOnce (e ∷ es) s h = preload_from-IsOnce es (preload e s) (preload-IsOnce e s h)

-- Whatever pages the user passes, the loaders that were called have different keys: each chunk is
-- asked for at most once, and the cache is the list of the keys of those.
pub preload_all-IsOnce : (es : List PreloadEvent) → IsOnce (preload_all es nothing_loaded)
preload_all-IsOnce es =
    preload_from-IsOnce es nothing_loaded (record { keys = refl; no_repeat = tt })
