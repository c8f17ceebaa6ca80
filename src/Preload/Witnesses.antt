-- ===== src/Preload/Witnesses.antt =====
-- A visit of the login page, then of the first page.
use subdux.Base.{List, [], refl, ◌∷◌, ◌≡◌}
use subdux.Preload.{
  actions, calendar, dashboard, forgot_password, load_once, login, preload_neighbor_routes_for_path,
  preload_route, preload_route_for_path, register, reports, reset_password, route_loader,
}
use subdux.Preload.Once.{
  IsOnce, PreloadEvent, neighbors, nothing_loaded, path, preload, preload_all, preload_all-IsOnce,
}

abbrev visit : List PreloadEvent
visit = neighbors "/login" ∷ path "/login" ∷ path "/" ∷ neighbors "/" ∷ []

visit_loaded :
    (preload_all visit nothing_loaded).loaded
    ≡ reports ∷ calendar ∷ actions ∷ dashboard ∷ reset_password ∷ forgot_password ∷ register ∷ login
      ∷ []
unfolding preload_all preload preload_route_for_path preload_neighbor_routes_for_path preload_route
    load_once route_loader
visit_loaded = refl

preload_all-IsOnce_example : IsOnce (preload_all visit nothing_loaded)
preload_all-IsOnce_example = preload_all-IsOnce visit
