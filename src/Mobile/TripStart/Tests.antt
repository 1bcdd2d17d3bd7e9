-- ===== src/Mobile/TripStart/Tests.antt =====
-- Examples of the form that a trip starts with.
use mansariya.Base.{String, none, some, List, [], ◌∷◌, true, str_eq, ◌≡◌, ◌≢◌, refl}
use mansariya.Mobile.RouteSearch.{Row}
use mansariya.Mobile.TripStart.{
  Act, typed, answered, chosen, number_typed, level_pressed, initial, shown_as, to_meta, act, run,
}
use mansariya.Mobile.TripStart.Laws.{IsSent, IsShown, IsLevel, Offers, run-Consistent}

abbrev route : Row
route = record {
  id = "138";
  name_en = "Maharagama";
  name_si = none;
  name_ta = none;
  operator = none;
  service_type = none;
  fare_lkr = none;
  frequency_minutes = none;
}

abbrev acts : List Act
acts =
    typed "1"
    ∷ answered (route ∷ [])
    ∷ chosen 0
    ∷ number_typed "NB-1"
    ∷ level_pressed 1
    ∷ answered []
    ∷ []

abbrev trim : String → String
trim t = t

run-acts :
    to_meta trim (run trim acts initial)
    ≡ record { route_id = some "138"; bus_number = some "NB-1"; crowd_level = some 2 }
unfolding to_meta run act
run-acts = refl

abbrev IsRoute : String → Type 0
IsRoute id = str_eq id "138" ≡ true

run-Consistent_example :
    let s = run trim acts initial in
    let meta = to_meta trim s in
    IsSent IsRoute (some "138")
    × IsShown IsRoute "138 — Maharagama" s.selected_route
    × IsLevel (some 2)
    × (meta.bus_number ≢ some "")
unfolding to_meta run act Offers shown_as
run-Consistent_example =
    run-Consistent IsRoute trim acts (tt, ((refl, tt), (tt, (tt, (tt, (tt, tt))))))
