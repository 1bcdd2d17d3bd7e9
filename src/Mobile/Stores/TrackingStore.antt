-- ===== src/Mobile/Stores/TrackingStore.antt =====
-- mobile/src/stores/useTrackingStore.ts: what the screens show of the trip.
use mansariya.Base.{ℕ, ◌+◌, String, Bool, true, false, Option, none, some, if◌then◌else◌}

pub record TripMeta : Type 0 where
  pub route_id : Option String
  pub bus_number : Option String
  pub crowd_level : Option ℕ

pub record TrackingState : Type 0 where
  pub is_tracking : Bool
  pub detected_route_id : Option String
  pub detected_route_name : Option String
  pub trip_start_time : Option ℕ
  pub total_trips_shared : ℕ
  pub trip_meta : TripMeta
  pub ping_count : ℕ

abbrev pub empty_meta : TripMeta
empty_meta = record { route_id = none; bus_number = none; crowd_level = none }

abbrev pub initial : TrackingState
initial = record {
  is_tracking = false;
  detected_route_id = none;
  detected_route_name = none;
  trip_start_time = none;
  total_trips_shared = 0;
  trip_meta = empty_meta;
  ping_count = 0;
}

-- `meta?.routeId ?? null`: an absent field is `none`.
unfoldable pub start_tracking : TripMeta → ℕ → TrackingState → TrackingState
start_tracking meta now s = record s {
  is_tracking = true;
  detected_route_id = none;
  detected_route_name = none;
  trip_start_time = some now;
  ping_count = 0;
  trip_meta = meta;
}

unfoldable pub stop_tracking : TrackingState → TrackingState
stop_tracking s = record s {
  is_tracking = false;
  detected_route_id = none;
  detected_route_name = none;
  trip_start_time = none;
  trip_meta = empty_meta;
  ping_count = 0;
  total_trips_shared = if s.is_tracking then s.total_trips_shared + 1 else s.total_trips_shared;
}

abbrev pub set_detected_route : String → String → TrackingState → TrackingState
set_detected_route id name s = record s {
  detected_route_id = some id;
  detected_route_name = some name;
}

abbrev pub increment_trips : TrackingState → TrackingState
increment_trips s = record s { total_trips_shared = s.total_trips_shared + 1 }

abbrev pub set_ping_count : ℕ → TrackingState → TrackingState
set_ping_count count s = record s { ping_count = count }

-- `partialize`: what is written to the storage. After a restart it is laid over the initial state.
pub record Persisted : Type 0 where
  pub is_tracking : Bool
  pub trip_meta : TripMeta
  pub total_trips_shared : ℕ
  pub trip_start_time : Option ℕ

abbrev pub partialize : TrackingState → Persisted
partialize s = record {
  is_tracking = s.is_tracking;
  trip_meta = s.trip_meta;
  total_trips_shared = s.total_trips_shared;
  trip_start_time = s.trip_start_time;
}

abbrev pub hydrate : Persisted → TrackingState
hydrate stored = record initial {
  is_tracking = stored.is_tracking;
  trip_meta = stored.trip_meta;
  total_trips_shared = stored.total_trips_shared;
  trip_start_time = stored.trip_start_time;
}

pub data Action : Type 0 where
  start : TripMeta → ℕ → Action
  stop : Action
  detect : String → String → Action
  count : ℕ → Action
  increment : Action
  restart : Action

unfoldable pub act : TrackingState → Action → TrackingState
unfolding start_tracking stop_tracking
act s (start meta now) = start_tracking meta now s
act s stop = stop_tracking s
act s (detect id name) = set_detected_route id name s
act s (count n) = set_ping_count n s
act s increment = increment_trips s
act s restart = hydrate (partialize s)
