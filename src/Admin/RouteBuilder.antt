-- ===== src/Admin/RouteBuilder.antt =====
-- admin/src/pages/route-builder.tsx: the points of a route that is planned, and the route that the
-- routing service gives (admin/src/lib/geo.ts). `handleGetRoute` is cut at the answer.
pub mod Laws
mod Tests
use mansariya.Base.{
  ℕ, zero, suc, ◌+◌, String, Bool, true, false, ◌||◌, not, Option, none, some, List, [], ◌∷◌, ◌++◌,
  length, set, ltb, ◌==◌, str_eq, if◌then◌else◌,
}
use mansariya.Base.Int.{ℤ}

pub record Address : Type 0 where
  pub road : Option String
  pub city : Option String
  pub state : Option String
  pub country : Option String

pub record NominatimResult : Type 0 where
  pub place_id : ℕ
  pub display_name : String
  pub lat : String
  pub lon : String
  pub kind : String
  pub importance : ℕ
  pub address : Option Address

-- Longitude first.
abbrev pub Point : Type 0
Point = ℤ × ℤ

pub record Step : Type 0 where
  pub name : String
  pub distance : ℕ
  pub duration : ℕ
  pub maneuver_type : String
  pub maneuver_location : Point

pub record Leg : Type 0 where
  pub distance : ℕ
  pub duration : ℕ
  pub summary : String
  pub steps : List Step

pub record OsrmRoute : Type 0 where
  pub distance : ℕ
  pub duration : ℕ
  pub coordinates : List Point
  pub legs : List Leg

pub record OsrmResponse : Type 0 where
  pub code : String
  pub routes : List OsrmRoute

pub record Builder : Type 0 where
  pub origin : Option NominatimResult
  pub destination : Option NominatimResult
  pub waypoints : List (Option NominatimResult)
  pub route : Option OsrmRoute
  pub error : Option String
  pub loading : Bool
  pub copied : Bool
  pub points_collapsed : Bool
  pub focus_target : Option Point

abbrev pub opened : Builder
opened = record {
  origin = none;
  destination = none;
  waypoints = [];
  route = none;
  error = none;
  loading = false;
  copied = false;
  points_collapsed = false;
  focus_target = none;
}

unfoldable pub handle_swap : Builder → Builder
handle_swap b = record b {
  origin = b.destination;
  destination = b.origin;
  route = none;
  error = none;
}

abbrev pub add_waypoint : Builder → Builder
add_waypoint b = record b { waypoints = b.waypoints ++ none ∷ [] }

-- `filter((_, i) => i !== index)`
unfoldable pub without {ℓ} : {A : Type ℓ} → ℕ → List A → List A
without i [] = []
without zero (x ∷ xs) = xs
without (suc i) (x ∷ xs) = x ∷ without i xs

unfoldable pub remove_waypoint : ℕ → Builder → Builder
unfolding without
remove_waypoint i b = record b { waypoints = without i b.waypoints; route = none }

unfoldable pub clear_all : Builder → Builder
clear_all b = record b {
  origin = none;
  destination = none;
  waypoints = [];
  route = none;
  error = none;
  focus_target = none;
}

-- `waypoints.filter((wp) => wp !== null)`
abbrev pub chosen {ℓ} : {A : Type ℓ} → List (Option A) → List A
chosen [] = []
chosen (none ∷ os) = chosen os
chosen (some a ∷ os) = a ∷ chosen os

-- `parse_float` is `parseFloat`, as a fixed-point number.
module _ (parse_float : String → ℤ) where
  abbrev pub coords : NominatimResult → Point
  coords r = (parse_float r.lon, parse_float r.lat)

  unfoldable pub update_waypoint : ℕ → NominatimResult → Builder → Builder
  update_waypoint i r b = record b {
    waypoints = set b.waypoints i (some r);
    focus_target = some (coords r);
  }

  abbrev pub all_coords : List NominatimResult → List Point
  all_coords [] = []
  all_coords (r ∷ rs) = coords r ∷ all_coords rs

  -- `handleGetRoute` up to the request, and the points that `getRoute` asks for.
  unfoldable pub get_route_begin : Builder → Option (List Point) × Builder
  get_route_begin b = elim b.origin [
    | none ↦ (none, record b { error = some "Please select both start point and destination." })
    | some from ↦ elim b.destination [
      | none ↦ (none, record b { error = some "Please select both start point and destination." })
      | some to ↦ (
        some (coords from ∷ (all_coords (chosen b.waypoints) ++ coords to ∷ [])),
        record b { error = none; loading = true; focus_target = none },
      )
    ]
  ]

abbrev pub no_route : Builder → Builder
no_route b = record b {
  loading = false;
  error = some "Could not calculate route. Please try different locations.";
}

-- The answer; `none` is one with a bad status.
unfoldable pub get_route_end : Option OsrmResponse → Builder → Builder
get_route_end none b = no_route b
get_route_end (some answer) b = elim answer.routes [
  | [] ↦ no_route b
  | r ∷ rs ↦
      if str_eq answer.code "Ok" then record b { loading = false; route = some r } else no_route b
]

-- What is copied to the clipboard; the flag goes off again after two seconds.
abbrev pub handle_copy_polyline : Builder → Option (List Point) × Builder
handle_copy_polyline b = elim b.route [
  | none ↦ (none, b)
  | some r ↦ (some r.coordinates, record b { copied = true })
]

abbrev pub is_some {ℓ} : {A : Type ℓ} → Option A → Bool
is_some none = false
is_some (some a) = true

abbrev pub has_any_selection : Builder → Bool
has_any_selection b = is_some b.origin || is_some b.destination || ltb 0 (length b.waypoints)
