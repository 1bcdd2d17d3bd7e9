-- ===== src/Mobile/RouteSync/Tests.antt =====
-- Tests and examples of mobile/src/services/routeSync.ts.
use mansariya.Base.{◌≡◌, ◌≢◌, ◌⊎◌, true, false, none, some, List, [], ◌∷◌, ◌==◌}
use mansariya.Mobile.RouteSync.{SyncRoute, Syncing, payload, sync_answered}
use mansariya.Mobile.RouteSync.Laws.{IsStored, sync_answered-atomic}

abbrev route : SyncRoute
route = record {
  id = "138";
  name_en = "Pettah - Homagama";
  name_si = "";
  name_ta = "";
  operator = "SLTB";
  service_type = "normal";
  fare_lkr = 100;
  frequency_minutes = 10;
  operating_hours = "05:00-22:00";
  is_active = true;
}

abbrev empty : Syncing
empty = record { db = record { routes = []; last_route_sync = none }; sync_in_flight = false }

sync_answered-atomic_example :
    ((sync_answered (payload (some (route ∷ []))) (λ i. i == 1) 500 empty).db ≡ empty.db)
    ⊎ ((rs : List SyncRoute) × (payload (some (route ∷ [])) ≡ payload (some rs))
        × (rs ≢ [])
        × IsStored 500 rs empty.db
            (sync_answered (payload (some (route ∷ []))) (λ i. i == 1) 500 empty).db)
sync_answered-atomic_example =
    sync_answered-atomic (payload (some (route ∷ []))) (λ i. i == 1) 500 empty
