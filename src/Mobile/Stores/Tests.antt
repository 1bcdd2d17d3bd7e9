-- ===== src/Mobile/Stores/Tests.antt =====
-- Tests and examples of the stores.
use mansariya.Base.{◌+◌, ◌≡◌, refl, true, none, some, List, [], ◌∷◌, arith}
use mansariya.Base.Int.{pos}
use mansariya.Mobile.Api.{Route, BusPosition, good}
use mansariya.Mobile.Stores.MapStore
use mansariya.Mobile.Stores.MapStore.{MapState, sees, leaves, expires}
use mansariya.Mobile.Stores.MapLaws
use mansariya.Mobile.Stores.SavedStore
use mansariya.Mobile.Stores.SavedStore.{adds, removes, is_saved}
use mansariya.Mobile.Stores.SavedLaws
use mansariya.Mobile.Stores.TrackingStore
use mansariya.Mobile.Stores.TrackingStore.{start, stop, count}
use mansariya.Mobile.Stores.TrackingLaws

abbrev bus : BusPosition
bus = record {
  virtual_id = "v1";
  route_id = "138";
  lat = pos 6927;
  lng = pos 79861;
  speed_kmh = pos 30;
  bearing = pos 90;
  contributor_count = 2;
  confidence = good;
  last_update = "10:00";
  crowd_level = none;
  bus_number = none;
}

abbrev calls : List MapStore.Action
calls = sees 100 bus ∷ leaves "v2" ∷ expires 40000 30000 ∷ []

run-view_example :
    MapLaws.HasDistinctIds (MapLaws.run MapStore.initial calls).buses
    × (MapLaws.view (MapLaws.run MapStore.initial calls) "v1"
        ≡ MapLaws.changes calls "v1" (MapLaws.view MapStore.initial "v1"))
run-view_example = MapLaws.run-view MapStore.initial calls "v1" tt

abbrev route : Route
route = record {
  id = "138";
  name_en = "Pettah - Homagama";
  name_si = "";
  name_ta = "";
  operator = none;
  service_type = none;
  fare_lkr = some 100;
  frequency_minutes = none;
  is_active = true;
}

abbrev saves : List SavedStore.Action
saves = adds route ∷ adds route ∷ removes "120" ∷ []

run-is_saved_example :
    SavedLaws.HasDistinctRoutes (SavedLaws.run [] saves)
    × (is_saved "138" (SavedLaws.run [] saves) ≡ SavedLaws.changes "138" (is_saved "138" []) saves)
run-is_saved_example = SavedLaws.run-is_saved "138" [] saves tt

initial-IsConsistent : TrackingLaws.IsConsistent TrackingStore.initial
initial-IsConsistent = record { timed = ground arith; reset = λ e. refl }

abbrev trip : List TrackingStore.Action
trip = start TrackingStore.empty_meta 50 ∷ count 3 ∷ TrackingStore.restart ∷ stop ∷ stop ∷ []

run-trips_example :
    ((TrackingLaws.run TrackingStore.initial trip).total_trips_shared ≡ 0 + 1)
    × TrackingLaws.IsConsistent (TrackingLaws.run TrackingStore.initial trip)
run-trips_example = TrackingLaws.run-trips TrackingStore.initial trip initial-IsConsistent
