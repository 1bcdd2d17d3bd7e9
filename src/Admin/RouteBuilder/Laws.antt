-- ===== src/Admin/RouteBuilder/Laws.antt =====
-- What is asked of the routing service, and when its answer comes too late.
use mansariya.Base.{◌≡◌, refl, false, some, List, ◌∷◌}
use mansariya.Admin.RouteBuilder.{
  Builder, OsrmRoute, OsrmResponse, get_route_end, clear_all, has_any_selection,
}

-- When everything is cleared while a route is asked for, a good answer shows its route all the same,
-- although no point is selected.
pub get_route_end-clear_all :
    (b : Builder) (answer : OsrmResponse) (r : OsrmRoute) (rs : List OsrmRoute)
    → answer.code ≡ "Ok"
    → answer.routes ≡ r ∷ rs
    → ((get_route_end (some answer) (clear_all b)).route ≡ some r)
      × (has_any_selection (get_route_end (some answer) (clear_all b)) ≡ false)
unfolding get_route_end clear_all
get_route_end-clear_all b answer r rs c e = rw (e, c) (refl, refl)
