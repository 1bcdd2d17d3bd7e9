-- ===== src/Mobile/RouteOnMap/Tests.antt =====
-- Tests of mobile/src/hooks/useRouteOnMap.ts and of the stop that a bus is at.
use mansariya.Base.{ℕ, some, [], ◌∷◌, ◌≡◌, refl}
use mansariya.Base.Int.{pos, ◌-ℤ◌}
use mansariya.Base.Nearest.{best_from}
use mansariya.Mobile.RouteOnMap.{Stop, shown_line, dist, get_bus_stop_index}

abbrev stop : ℕ → Stop
stop n = record { stop_lat = pos n; stop_lng = pos 8 }

straight_line :
    shown_line (record {
      stops_data = some (stop 1 ∷ stop 4 ∷ []);
      polyline_data = some ((pos 8, pos 1) ∷ []);
    })
    ≡ (pos 8, pos 1) ∷ (pos 8, pos 4) ∷ []
unfolding shown_line
straight_line = refl

at_second_stop : get_bus_stop_index (pos 3) (pos 8) (stop 1 ∷ stop 4 ∷ []) ≡ some 1
unfolding get_bus_stop_index dist best_from ◌-ℤ◌
at_second_stop = refl
