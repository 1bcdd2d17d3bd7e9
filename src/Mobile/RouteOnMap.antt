-- ===== src/Mobile/RouteOnMap.antt =====
-- mobile/src/hooks/useRouteOnMap.ts: the stops and the line of a route on the map; and
-- mobile/src/screens/RouteDetailScreen.tsx: the stop that a bus is at. `Coord` is a coordinate.
pub mod Laws
mod Tests
use mansariya.Base.Nearest.{nearest_index}
use mansariya.Base.{
  ℕ, zero, suc, ◌+◌, Bool, true, false, Option, none, some, List, [], ◌∷◌, ◌++◌, length, map, ltb,
  leb, if◌then◌else◌,
}
use mansariya.Base.Int.{ℤ, ◌-ℤ◌, square}

pub record Stop : Type 0 where
  pub stop_lat : ℤ
  pub stop_lng : ℤ

abbrev pub Line : Type 0
Line = List (ℤ × ℤ)

-- `requests` are the routes whose answers are to come.
pub record Hook (RouteId : Type 0) : Type 0 where
  pub stops : List Stop
  pub polyline_coords : Line
  pub loading : Bool
  pub requests : List RouteId

-- The answers: of the stops, whose absence is a failure of both, and of the line. A failure of the
-- line alone is `none`.
pub record Answer : Type 0 where
  pub stops_data : Option (List Stop)
  pub polyline_data : Option Line

abbrev straight : List Stop → Line
straight stops = map (λ (s : Stop). (s.stop_lng, s.stop_lat)) stops

abbrev or_straight : Option Line → List Stop → Line
or_straight none stops = straight stops
or_straight (some line) stops = if leb 2 (length line) then line else straight stops

unfoldable pub shown_line : Answer → Line
shown_line a = elim a.stops_data [ none ↦ [] | some stops ↦ or_straight a.polyline_data stops ]

abbrev or_none : Option (List Stop) → List Stop
or_none none = []
or_none (some stops) = stops

module _ {RouteId : Type 0} where
  abbrev pub initial : Hook RouteId
  initial = record { stops = []; polyline_coords = []; loading = false; requests = [] }

  -- The effect on `[routeId]`.
  unfoldable pub effect : Option RouteId → Hook RouteId → Hook RouteId
  effect none h = record h { stops = []; polyline_coords = [] }
  effect (some r) h = record h { loading = true; requests = h.requests ++ r ∷ [] }

  -- Taking out the i-th request.
  unfoldable pub without : ℕ → List RouteId → List RouteId
  without i [] = []
  without zero (r ∷ rest) = rest
  without (suc i) (r ∷ rest) = r ∷ without i rest

  unfoldable pub on_answer : ℕ → Answer → Hook RouteId → Hook RouteId
  unfolding without shown_line
  on_answer i a h = record h {
    stops = or_none a.stops_data;
    polyline_coords = shown_line a;
    loading = false;
    requests = without i h.requests;
  }

-- `getBusStopIndex`: the loop over the stops, with the least squared distance so far and its index;
-- `none` is -1. The square root does not change the order.
unfoldable pub dist : ℤ → ℤ → Stop → ℕ
unfolding ◌-ℤ◌
dist lat lng s = square (s.stop_lat -ℤ lat) + square (s.stop_lng -ℤ lng)

unfoldable pub get_bus_stop_index : ℤ → ℤ → List Stop → Option ℕ
get_bus_stop_index lat lng [] = none
get_bus_stop_index lat lng (s ∷ rest) = some (nearest_index (dist lat lng) s rest)
