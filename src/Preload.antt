-- ===== src/Preload.antt =====
-- web/src/lib/route-preload.ts: the chunks of the routes that are loaded ahead. A key is a
-- kind and a route; the loaders that were called are listed with the latest first.
pub mod Once
mod Witnesses
use subdux.Base.{
  Bool, List, Option, String, [], concat, false, if◌then◌else◌, none, some, str_eq, true, ◌||◌, ◌∷◌,
}

pub data Route : Type 0 where
  login register forgot_password reset_password : Route
  dashboard actions reports settings calendar admin : Route

pub data RouteKind : Type 0 where
  auth protected : RouteKind

pub record PreloadState : Type 0 where
  pub route_preload_cache : List String
  pub loaded : List Route

-- `routeLoaders`, by the property names that the source looks up.
unfoldable pub route_loader : RouteKind → String → Option Route
route_loader auth route =
    if str_eq route "login"
    then some login
    else if str_eq route "register"
    then some register
    else if str_eq route "forgotPassword"
    then some forgot_password
    else if str_eq route "resetPassword"
    then some reset_password
    else none
route_loader protected route =
    if str_eq route "dashboard"
    then some dashboard
    else if str_eq route "actions"
    then some actions
    else if str_eq route "reports"
    then some reports
    else if str_eq route "settings"
    then some settings
    else if str_eq route "calendar"
    then some calendar
    else if str_eq route "admin"
    then some admin
    else none

abbrev pub kind_name : RouteKind → String
kind_name auth = "auth"
kind_name protected = "protected"

abbrev pub has : String → List String → Bool
has key [] = false
has key (k ∷ ks) = if str_eq key k then true else has key ks

unfoldable pub load_once : String → Route → PreloadState → PreloadState
load_once key loader s =
    if has key s.route_preload_cache
    then s
    else record { route_preload_cache = key ∷ s.route_preload_cache; loaded = loader ∷ s.loaded }

unfoldable pub preload_route : RouteKind → String → PreloadState → PreloadState
preload_route kind route s = elim (route_loader kind route) [
  | none ↦ s
  | some loader ↦ load_once (concat (kind_name kind) (concat ":" route)) loader s
]

unfoldable pub preload_route_for_path : String → PreloadState → PreloadState
preload_route_for_path pathname s =
    if str_eq pathname "/"
    then preload_route protected "dashboard" s
    else if str_eq pathname "/actions"
    then preload_route protected "actions" s
    else if str_eq pathname "/reports"
    then preload_route protected "reports" s
    else if str_eq pathname "/settings"
    then preload_route protected "settings" s
    else if str_eq pathname "/calendar"
    then preload_route protected "calendar" s
    else if str_eq pathname "/admin"
    then preload_route protected "admin" s
    else if str_eq pathname "/login"
    then preload_route auth "login" s
    else if str_eq pathname "/register"
    then preload_route auth "register" s
    else if str_eq pathname "/forgot-password"
    then preload_route auth "forgotPassword" s
    else if str_eq pathname "/reset-password"
    then preload_route auth "resetPassword" s
    else s

abbrev pub is_signed_out : String → Bool
is_signed_out pathname =
    str_eq pathname "/login"
    || str_eq pathname "/register"
    || str_eq pathname "/forgot-password"
    || str_eq pathname "/reset-password"

unfoldable pub preload_neighbor_routes_for_path : String → PreloadState → PreloadState
preload_neighbor_routes_for_path pathname s =
    if str_eq pathname "/"
    then preload_route protected "reports"
        (preload_route protected "calendar" (preload_route protected "actions" s))
    else if is_signed_out pathname
    then preload_route auth "resetPassword" (
        preload_route auth "forgotPassword"
          (preload_route auth "register" (preload_route auth "login" s)))
    else s
