-- ===== src/Mobile/RouteSearch/Tests.antt =====
-- Examples of mobile/src/hooks/useRouteSearch.ts.
use mansariya.Base.{String, Bool, none, some, [], ◌∷◌, refl, inl, str_eq}
use mansariya.Mobile.RouteSearch.{Row, found, rows, failed, initial, typed, fired, answered, run}
use mansariya.Mobile.RouteSearch.Laws.{Spins, run-Spins}

abbrev is_blank : String → Bool
is_blank q = str_eq q ""

abbrev row : Row
row = record {
  id = "138";
  name_en = "Homagama - Pettah";
  name_si = none;
  name_ta = none;
  operator = some "SLTB";
  service_type = none;
  fare_lkr = some 90;
  frequency_minutes = none;
}

run-Spins_example : Spins (
    run is_blank
      (typed "13"
        ∷ fired
        ∷ typed "138"
        ∷ answered 0 (found [])
        ∷ fired
        ∷ answered 0 failed
        ∷ answered 0 (rows (row ∷ []))
        ∷ [])
      initial)
run-Spins_example =
    run-Spins is_blank
      (typed "13"
        ∷ fired
        ∷ typed "138"
        ∷ answered 0 (found [])
        ∷ fired
        ∷ answered 0 failed
        ∷ answered 0 (rows (row ∷ []))
        ∷ [])
      initial (inl refl)
