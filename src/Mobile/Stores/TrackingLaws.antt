-- ===== src/Mobile/Stores/TrackingLaws.antt =====
-- The trips that are counted, and the restart.
use mansariya.Base.{
  ℕ, ◌+◌, Bool, true, false, none, List, [], ◌∷◌, ◌≡◌, ◌≢◌, ◌↔◌, refl, arith, if◌then◌else◌,
}
use mansariya.Mobile.Stores.TrackingStore.{
  TrackingState, Action, start, stop, detect, count, increment, restart, act, empty_meta,
}

abbrev pub run : TrackingState → List Action → TrackingState
run s [] = s
run s (a ∷ rest) = run (act s a) rest

-- The trips that are to be counted: the stops with a start since the stop before, and those that are
-- added by themselves. The flag says that one is open.
abbrev pub trips : Bool → List Action → ℕ
trips open_trip [] = 0
trips open_trip (start meta now ∷ rest) = trips true rest
trips open_trip (stop ∷ rest) =
    let later = trips false rest in if open_trip then later + 1 else later
trips open_trip (increment ∷ rest) = trips open_trip rest + 1
trips open_trip (a ∷ rest) = trips open_trip rest

-- A trip has a starting time exactly while it is tracked; nothing of a trip is left after it.
pub record IsConsistent (s : TrackingState) : Type 0 where
  pub timed : (s.is_tracking ≡ true) ↔ (s.trip_start_time ≢ none)
  pub reset : s.is_tracking ≡ false → s.trip_meta ≡ empty_meta

-- From a consistent state, over any sequence of starts, stops, detections, counts, increments and
-- restarts of the application, the total counts each trip that ends once, also where the application
-- was restarted during the trip, a stop without a trip not at all, and each increment once; and the
-- state stays consistent.
pub run-trips :
    (s : TrackingState) (actions : List Action)
    → IsConsistent s
    → ((run s actions).total_trips_shared ≡ s.total_trips_shared + trips s.is_tracking actions)
      × IsConsistent (run s actions)
unfolding act
run-trips s [] h = (omega arith, h)
run-trips s (start meta now ∷ rest) h =
    run-trips (act s (start meta now)) rest (record { timed = ground arith; reset = λ e. cc })
run-trips s (stop ∷ rest) h =
    let (total, consistent) =
      run-trips (act s stop) rest (record { timed = ground arith; reset = λ e. refl }) in
    (ground (arith, total), consistent)
run-trips s (detect id name ∷ rest) h =
    run-trips (act s (detect id name)) rest (record { timed = h.timed; reset = h.reset })
run-trips s (count n ∷ rest) h =
    run-trips (act s (count n)) rest (record { timed = h.timed; reset = h.reset })
run-trips s (increment ∷ rest) h =
    let (total, consistent) =
      run-trips (act s increment) rest (record { timed = h.timed; reset = h.reset }) in
    (omega (arith, total), consistent)
run-trips s (restart ∷ rest) h =
    run-trips (act s restart) rest (record { timed = h.timed; reset = h.reset })
