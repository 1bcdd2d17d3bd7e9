-- ===== src/Mobile/RouteOnMap/Laws.antt =====
-- The line on the map, and the stop of a bus.
use mansariya.Base.{
  ℕ, ◌≤◌, ◌⊎◌, inl, inr, false, Option, none, some, List, [], ◌∷◌, length, map, All, get_elem?, ◌≡◌,
  refl, arith, leb, Bool-cases,
}
use mansariya.Base.Int.{ℤ}
use mansariya.Base.Nearest.{nearest_index-least}
use mansariya.Mobile.RouteOnMap.{
  Stop, Line, Hook, Answer, straight, or_straight, or_none, shown_line, effect, on_answer, dist,
  get_bus_stop_index,
}

or_straight-cases :
    (line : Option Line) (stops : List Stop)
    → (2 ≤ length (or_straight line stops)) ⊎ (or_straight line stops ≡ straight stops)
or_straight-cases none stops = inr refl
or_straight-cases (some line) stops = elim (Bool-cases (leb 2 (length line))) [
  | inl long ↦ inl (ground (arith, long))
  | inr short ↦ inr (ground (arith, short))
]

shown_line-cases :
    (data_of : Option (List Stop)) (line : Option Line)
    → let a : Answer = record { stops_data = data_of; polyline_data = line } in
      (2 ≤ length (shown_line a)) ⊎ (shown_line a ≡ straight (or_none data_of))
unfolding shown_line
shown_line-cases none line = inr refl
shown_line-cases (some stops) line = or_straight-cases line stops

-- The line that is shown has at least two points, or it goes straight through the stops that
-- are shown, and the spinner ends.
pub on_answer-line :
    {RouteId : Type 0} (i : ℕ) (a : Answer) (h : Hook RouteId)
    → let g = on_answer i a h in
      (g.loading ≡ false)
      × ((2 ≤ length g.polyline_coords)
          ⊎ (g.polyline_coords ≡ map (λ (s : Stop). (s.stop_lng, s.stop_lat)) g.stops))
unfolding on_answer shown_line
on_answer-line i a h = (refl, shown_line-cases a.stops_data a.polyline_data)

-- The stop at which a bus is shown is one of the stops, and none is nearer.
pub get_bus_stop_index-least :
    (lat lng : ℤ) (s : Stop) (rest : List Stop)
    → (k : ℕ) × (t : Stop) × (get_bus_stop_index lat lng (s ∷ rest) ≡ some k)
      × (get_elem? (s ∷ rest) k ≡ some t)
      × All (λ (u : Stop). dist lat lng t ≤ dist lat lng u) (s ∷ rest)
unfolding get_bus_stop_index
get_bus_stop_index-least lat lng s rest =
    let (t, found, least) = nearest_index-least (dist lat lng) s rest in (_, t, refl, found, least)

-- The route is taken off the map while its stops are asked for: the answer shows it all the same.
pub effect-late :
    {RouteId : Type 0} (r : RouteId) (a : Answer) (stops : List Stop) (h : Hook RouteId)
    → a.stops_data ≡ some stops
    → let g = effect none (effect (some r) h) in (g.stops ≡ []) × ((on_answer 0 a g).stops ≡ stops)
unfolding effect on_answer
effect-late r a stops h e = (refl, ground (arith, e))
